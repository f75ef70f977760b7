-- ===== src/Matchops/Scripts/Confirmed.antt =====
-- What a confirmation that succeeds leaves in the store.
use matchmaking.Shared.{
  Bool-cases, ◌⊎◌, inr, inl, ℕ, String, ◌≡◌, ◌≢◌, refl, true, false, not, ◌&&◌, none, some, List,
  [], ◌∷◌, arith, str_eq, eq_iff, if◌then◌else◌,
}
use matchmaking.Model.{status_confirmed}
use matchmaking.Json.{Json}
use matchmaking.Redis.{Redis, Keyspace, contains}
use matchmaking.Redis.Scores.{score_of}
use matchmaking.Redis.Sets.{contains-without_members}
use matchmaking.Redis.Frames.{sets-srem, zsets-srem}
use matchmaking.Matchops.Scripts.{is_forming, unmark_all, confirm_script}
use matchmaking.Matchops.Scripts.Once.{texts-unmark_all}
use matchmaking.Matchops.Scripts.Leaving.{
  map_text, MatchKeys, AreApart, left, sets-left, score_of-left_forming, zsets-left_ne,
  texts-left_match, left-status,
}

-- A store before and after a match was confirmed: the status and the match record say so, the
-- match is no longer forming and its players are no longer marked as queued. Every other mark, the
-- queue and the cancelled set stay.
pub record Confirms (J : Json) (k : MatchKeys) (match_id : String) (player_ids : List String)
    (s t : Keyspace) : Type 0 where
  pub status_set : t.texts k.status_key ≡ some status_confirmed
  pub record_set :
      t.texts k.match_key ≡ map_text (J.with_status status_confirmed) (s.texts k.match_key)
  pub unformed :
      (m : String)
      → score_of m (t.zsets k.forming)
        ≡ (if str_eq m match_id then none else score_of m (s.zsets k.forming))
  pub queued : t.zsets k.queue ≡ s.zsets k.queue
  pub marks :
      (p : String)
      → contains p (t.sets k.inqueue)
        ≡ (contains p (s.sets k.inqueue) && not (contains p player_ids))
  pub cancellations : t.sets k.cancelled ≡ s.sets k.cancelled

module _ (R : Redis) where
  contains-unmark_all :
      (key p : String) (ps : List String) (s : Keyspace)
      → contains p ((unmark_all R key ps s).sets key)
        ≡ (contains p (s.sets key) && not (contains p ps))
  unfolding unmark_all contains
  contains-unmark_all key p [] s = ground arith
  contains-unmark_all key p (q ∷ ps) s = ground (
    arith,
    sets-srem R key (q ∷ ps) s key,
    eq_iff key key,
    contains-without_members p (q ∷ ps) (s.sets key),
  )

  sets-unmark_all_ne :
      (key j : String) (ps : List String) (s : Keyspace)
      → key ≢ j
      → (unmark_all R key ps s).sets j ≡ s.sets j
  unfolding unmark_all
  sets-unmark_all_ne key j [] s d = refl
  sets-unmark_all_ne key j (q ∷ ps) s d = ground (arith, sets-srem R key (q ∷ ps) s j, eq_iff key j)

  zsets-unmark_all :
      (key : String) (ps : List String) (s : Keyspace) → (unmark_all R key ps s).zsets ≡ s.zsets
  unfolding unmark_all
  zsets-unmark_all key [] s = refl
  zsets-unmark_all key (q ∷ ps) s = zsets-srem R key (q ∷ ps) s

module _ (R : Redis) (J : Json) (k : MatchKeys) (match_id : String) (ttl : ℕ)
    (apart : AreApart k) where
  open k use {status_key, match_key, forming, queue, cancelled, inqueue}

  abbrev pub run_confirm : List String → Keyspace → ℕ × Keyspace
  run_confirm player_ids s =
      confirm_script R J status_key match_key forming inqueue ttl match_id player_ids s

  confirmed_store-Confirms :
      (player_ids : List String) (s : Keyspace)
      → Confirms J k match_id player_ids s
          (unmark_all R inqueue player_ids (left R J k match_id ttl apart status_confirmed s))
  confirmed_store-Confirms player_ids s =
      let l = left R J k match_id ttl apart status_confirmed s in
      record {
        status_set = ground (
          arith,
          texts-unmark_all R inqueue player_ids l,
          left-status R J k match_id ttl apart status_confirmed s,
        );
        record_set = ground (
          arith,
          texts-unmark_all R inqueue player_ids l,
          texts-left_match R J k match_id ttl apart status_confirmed s,
        );
        unformed = λ m. ground (
          arith,
          zsets-unmark_all R inqueue player_ids l,
          score_of-left_forming R J k match_id ttl apart status_confirmed m s,
        );
        queued = ground (
          arith,
          zsets-unmark_all R inqueue player_ids l,
          zsets-left_ne R J k match_id ttl apart status_confirmed queue s apart.forming-queue,
        );
        marks = λ p. ground (
          arith,
          contains-unmark_all R inqueue p player_ids l,
          sets-left R J k match_id ttl apart status_confirmed s,
        );
        cancellations = ground (
          arith,
          sets-unmark_all_ne R inqueue cancelled player_ids l,
          sets-left R J k match_id ttl apart status_confirmed s,
          apart.cancelled-inqueue,
        );
      }

  -- confirmScript on a forming match answers 1 and confirms it; on any other it answers 0 and
  -- changes nothing.
  pub confirm_script-Confirms :
      (player_ids : List String) (s : Keyspace)
      → ((is_forming (s.texts status_key) ≡ true)
          × ((run_confirm player_ids s).0 ≡ 1)
          × Confirms J k match_id player_ids s (run_confirm player_ids s).1)
        ⊎ ((is_forming (s.texts status_key) ≡ false) × (run_confirm player_ids s ≡ (0, s)))
  unfolding confirm_script
  confirm_script-Confirms player_ids s = elim (Bool-cases (is_forming (s.texts status_key))) [
    | inl e ↦ inl (
      e,
      rw (R.get_lem, e),
      rw (R.get_lem, e) (unfold left in confirmed_store-Confirms player_ids s),
    )
    | inr e ↦ inr (e, rw (R.get_lem, e))
  ]
