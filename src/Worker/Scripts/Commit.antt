-- ===== src/Worker/Scripts/Commit.antt =====
-- The atomic commit of a match.
use matchmaking.Shared.{
  String, ◌≡◌, ◌≢◌, true, false, not, ◌&&◌, none, some, List, [], ◌∷◌, ◌++◌, arith, str_eq, eq_iff,
  if◌then◌else◌, Bool-cases, inl, inr, ◌⊎◌,
}
use matchmaking.Model.{status_forming}
use matchmaking.Redis.{Redis, Keyspace, contains}
use matchmaking.Redis.Scores.{score_of, score_of-with_scored, score_of-without_scored}
use matchmaking.Redis.Sets.{contains-without_members}
use matchmaking.Worker.Scripts.{
  any_cancelled, CommitKeys, CommitArgs, write_match, commit_match_script,
}

-- Keys of one type that the script uses side by side are different.
pub record AreApart (k : CommitKeys) : Type 0 where
  pub match-status : k.match_key ≢ k.status_key
  pub forming-processing : k.forming ≢ k.processing
  pub cancelled-inqueue : k.cancelled ≢ k.inqueue

-- A store before and after a commit. The match record and the status are written, the match is in
-- the forming set under its time and at the end of the stream; its entries are no longer in
-- processing and its players no longer marked as queued. Every other entry in processing, every
-- other match that is forming, every other mark and the cancelled set stay.
pub record Commits (R : Redis) (k : CommitKeys) (a : CommitArgs) (s t : Keyspace) : Type 0 where
  pub record_set : t.texts k.match_key ≡ some a.payload
  pub status_set : t.texts k.status_key ≡ some status_forming
  pub formed :
      (m : String)
      → score_of m (t.zsets k.forming)
        ≡ (if str_eq m a.match_id then some a.score else score_of m (s.zsets k.forming))
  pub taken :
      (m : String)
      → score_of m (t.zsets k.processing)
        ≡ (if contains m a.members then none else score_of m (s.zsets k.processing))
  pub unmarked :
      (p : String)
      → contains p (t.sets k.inqueue)
        ≡ (contains p (s.sets k.inqueue) && not (contains p a.player_ids))
  pub recorded :
      t.streams k.stream
      ≡ R.trim a.stream_max_len
          (s.streams k.stream ++ record { match_id = a.match_id; payload = a.payload } ∷ [])
  pub cancellations : t.sets k.cancelled ≡ s.sets k.cancelled

module _ (R : Redis) where
  any_cancelled-false :
      (cancelled : String) (ps : List String) (s : Keyspace)
      → any_cancelled R cancelled ps s ≡ false
      → (p : String) → contains p ps ≡ true
      → contains p (s.sets cancelled) ≡ false
  unfolding any_cancelled contains
  any_cancelled-false cancelled [] s h p i = ground arith
  any_cancelled-false cancelled (q ∷ ps) s h p i = ground (
    arith,
    R.sismember_lem cancelled q s,
    eq_iff p q,
    any_cancelled-false cancelled ps s (ground arith) p,
  )

  any_cancelled-true :
      (cancelled : String) (ps : List String) (s : Keyspace)
      → any_cancelled R cancelled ps s ≡ true
      → (p : String) × (contains p ps ≡ true) × (contains p (s.sets cancelled) ≡ true)
  unfolding any_cancelled contains
  any_cancelled-true cancelled [] s h = absurd (ground arith)
  any_cancelled-true cancelled (q ∷ ps) s h = elim (Bool-cases (R.sismember cancelled q s)) [
    | inl hit ↦ (q, ground (arith, eq_iff q q), ground (arith, R.sismember_lem cancelled q s))
    | inr miss ↦
        let (p, i, c) = any_cancelled-true cancelled ps s (ground arith) in (p, ground arith, c)
  ]

  pub write_match-Commits :
      (k : CommitKeys) (a : CommitArgs) (s : Keyspace)
      → AreApart k
      → Commits R k a s (write_match R k a s)
  unfolding write_match
  write_match-Commits k a s apart =
      rw (R.xadd_lem, R.srem_lem, R.zrem_lem, R.zadd_lem, R.set_ex_lem, R.set_ex_lem)
        (record {
          record_set = ground (
            arith,
            eq_iff k.match_key k.match_key,
            eq_iff k.status_key k.match_key,
            apart.match-status,
          );
          status_set = ground (arith, eq_iff k.status_key k.status_key);
          formed = λ m. ground (
            arith,
            eq_iff k.processing k.forming,
            eq_iff k.forming k.forming,
            apart.forming-processing,
            score_of-with_scored m (record { member = a.match_id; score = a.score })
                (s.zsets k.forming),
          );
          taken = λ m. ground (
            arith,
            eq_iff k.processing k.processing,
            eq_iff k.forming k.processing,
            apart.forming-processing,
            score_of-without_scored m a.members (s.zsets k.processing),
          );
          unmarked = λ p. ground (
            arith,
            eq_iff k.inqueue k.inqueue,
            contains-without_members p a.player_ids (s.sets k.inqueue),
          );
          recorded = ground (arith, eq_iff k.stream k.stream);
          cancellations = ground (arith, eq_iff k.inqueue k.cancelled, apart.cancelled-inqueue);
        })

  -- commitMatchScript either answers 1, where none of the players is cancelled, and commits the
  -- match; or it answers 0, where one of the players is cancelled, and changes nothing.
  pub commit_match_script-Commits :
      (k : CommitKeys) (a : CommitArgs) (s : Keyspace)
      → AreApart k
      → (((commit_match_script R k a s).0 ≡ 1)
          × ((p : String)
              → contains p a.player_ids ≡ true
              → contains p (s.sets k.cancelled) ≡ false)
          × Commits R k a s (commit_match_script R k a s).1)
        ⊎ ((commit_match_script R k a s ≡ (0, s))
            × ((p : String) × (contains p a.player_ids ≡ true)
                × (contains p (s.sets k.cancelled) ≡ true)))
  unfolding commit_match_script
  commit_match_script-Commits k a s apart =
      elim (Bool-cases (any_cancelled R k.cancelled a.player_ids s)) [
        | inl hit ↦ inr (rw hit, any_cancelled-true k.cancelled a.player_ids s hit)
        | inr clear ↦ inl (
          rw clear,
          any_cancelled-false k.cancelled a.player_ids s clear,
          rw clear (write_match-Commits k a s apart),
        )
      ]
