-- ===== src/Matchops/Scripts/Requeued.antt =====
-- What a dissolution that succeeds leaves in the store.
use matchmaking.Shared.{
  Bool-cases, ◌⊎◌, ◌||◌, inr, inl, ℕ, String, ◌≡◌, ◌≢◌, refl, Bool, true, false, not, ◌&&◌, Option,
  none, some, List, [], ◌∷◌, arith, str_eq, eq_iff, if◌then◌else◌,
}
use matchmaking.Model.{status_dissolved}
use matchmaking.Json.{Json}
use matchmaking.Redis.{Redis, Keyspace, contains}
use matchmaking.Redis.Scores.{score_of, or_else, score_of-with_scored}
use matchmaking.Redis.Sets.{contains-without_members}
use matchmaking.Redis.Frames.{sets-zadd, sets-srem, zsets-zadd, zsets-srem, texts-srem}
use matchmaking.Matchops.Scripts.{Requeue, is_forming, requeue, dissolve_script}
use matchmaking.Matchops.Scripts.Once.{texts-requeue}
use matchmaking.Matchops.Scripts.Leaving.{
  map_text, MatchKeys, AreApart, left, sets-left, score_of-left_forming, zsets-left_ne,
  texts-left_match, left-status,
}

-- Whether an entry of a dissolved match goes back: its player did not decline and is not cancelled.
unfoldable pub goes_back : String → List String → Requeue → Bool
goes_back declined cancelled e =
    not (str_eq e.player_id declined) && not (contains e.player_id cancelled)

-- The score under which a member goes back, if it does; the last entry with the member counts.
unfoldable pub score_back : String → List String → String → List Requeue → Option ℕ
unfolding goes_back
score_back declined cancelled m [] = none
score_back declined cancelled m (e ∷ es) =
    or_else (score_back declined cancelled m es)
      (if goes_back declined cancelled e && str_eq m e.member then some e.score else none)

module _ (R : Redis) where
  pub sets-requeue :
      (queue cancelled declined : String) (es : List Requeue) (s : Keyspace)
      → (requeue R queue cancelled declined es s).sets ≡ s.sets
  unfolding requeue
  sets-requeue queue cancelled declined [] s = refl
  sets-requeue queue cancelled declined (e ∷ es) s = ground (
    arith,
    sets-requeue queue cancelled declined es s,
    sets-requeue queue cancelled declined es (R.zadd queue e.score e.member s),
    sets-zadd R queue e.score e.member s,
  )

  score_of-requeue :
      (queue cancelled declined m : String) (es : List Requeue) (s : Keyspace)
      → score_of m ((requeue R queue cancelled declined es s).zsets queue)
        ≡ or_else (score_back declined (s.sets cancelled) m es) (score_of m (s.zsets queue))
  unfolding requeue score_back
  score_of-requeue queue cancelled declined m [] s = refl
  score_of-requeue queue cancelled declined m (e ∷ es) s = ground (
    arith,
    R.sismember_lem cancelled e.player_id s,
    score_of-requeue queue cancelled declined m es s,
    score_of-requeue queue cancelled declined m es (R.zadd queue e.score e.member s),
    sets-zadd R queue e.score e.member s,
    zsets-zadd R queue e.score e.member s queue,
    eq_iff queue queue,
    score_of-with_scored m (record { member = e.member; score = e.score }) (s.zsets queue),
  )

  zsets-requeue_ne :
      (queue cancelled declined k : String) (es : List Requeue) (s : Keyspace)
      → k ≢ queue
      → (requeue R queue cancelled declined es s).zsets k ≡ s.zsets k
  unfolding requeue
  zsets-requeue_ne queue cancelled declined k [] s d = refl
  zsets-requeue_ne queue cancelled declined k (e ∷ es) s d = ground (
    arith,
    zsets-requeue_ne queue cancelled declined k es s d,
    zsets-requeue_ne queue cancelled declined k es (R.zadd queue e.score e.member s) d,
    zsets-zadd R queue e.score e.member s k,
    eq_iff queue k,
  )

-- A store before and after a match was dissolved: the status and the match record say so and the
-- match is no longer forming. The entries whose players neither declined nor are cancelled are in
-- the queue with their old scores, and every other member of the queue keeps its own. Whoever
-- declined is no longer marked as queued; the other marks and the cancelled set stay.
pub record Dissolves (J : Json) (k : MatchKeys) (match_id declined : String)
    (entries : List Requeue) (s t : Keyspace) : Type 0 where
  pub status_set : t.texts k.status_key ≡ some status_dissolved
  pub record_set :
      t.texts k.match_key ≡ map_text (J.with_status status_dissolved) (s.texts k.match_key)
  pub unformed :
      (m : String)
      → score_of m (t.zsets k.forming)
        ≡ (if str_eq m match_id then none else score_of m (s.zsets k.forming))
  pub requeued :
      (m : String)
      → score_of m (t.zsets k.queue)
        ≡ or_else
            (score_back declined (s.sets k.cancelled) m entries)
            (score_of m (s.zsets k.queue))
  pub marks :
      (p : String)
      → contains p (t.sets k.inqueue)
        ≡ (contains p (s.sets k.inqueue) && (str_eq declined "" || not (str_eq p declined)))
  pub cancellations : t.sets k.cancelled ≡ s.sets k.cancelled

module _ (R : Redis) (J : Json) (k : MatchKeys) (match_id : String) (ttl : ℕ)
    (apart : AreApart k) where
  open k use {status_key, match_key, forming, queue, cancelled, inqueue}

  abbrev pub run_dissolve : String → List Requeue → Keyspace → ℕ × Keyspace
  run_dissolve declined entries s =
      dissolve_script R J status_key match_key forming queue cancelled inqueue ttl match_id declined
        entries s

  -- The store that a successful dissolution leaves.
  dissolved_store : String → List Requeue → Keyspace → Keyspace
  dissolved_store declined entries s =
      let queued =
        requeue R queue cancelled declined entries
          (left R J k match_id ttl apart status_dissolved s) in
      if str_eq declined "" then queued else R.srem inqueue (declined ∷ []) queued

  dissolved_store-Dissolves :
      (declined : String) (entries : List Requeue) (s : Keyspace)
      → Dissolves J k match_id declined entries s (dissolved_store declined entries s)
  unfolding dissolved_store
  dissolved_store-Dissolves declined entries s =
      let l = left R J k match_id ttl apart status_dissolved s in
      let q = requeue R queue cancelled declined entries l in
      record {
        status_set = ground (
          arith,
          texts-srem R inqueue (declined ∷ []) q,
          texts-requeue R queue cancelled declined entries l,
          left-status R J k match_id ttl apart status_dissolved s,
        );
        record_set = ground (
          arith,
          texts-srem R inqueue (declined ∷ []) q,
          texts-requeue R queue cancelled declined entries l,
          texts-left_match R J k match_id ttl apart status_dissolved s,
        );
        unformed = λ m. ground (
          arith,
          zsets-srem R inqueue (declined ∷ []) q,
          zsets-requeue_ne R queue cancelled declined forming entries l apart.forming-queue,
          score_of-left_forming R J k match_id ttl apart status_dissolved m s,
        );
        requeued = λ m. ground (
          arith,
          zsets-srem R inqueue (declined ∷ []) q,
          score_of-requeue R queue cancelled declined m entries l,
          sets-left R J k match_id ttl apart status_dissolved s,
          zsets-left_ne R J k match_id ttl apart status_dissolved queue s apart.forming-queue,
        );
        marks = λ p.
            unfold contains in
            ground (
              arith,
              sets-srem R inqueue (declined ∷ []) q inqueue,
              eq_iff inqueue inqueue,
              contains-without_members p (declined ∷ []) (s.sets inqueue),
              sets-requeue R queue cancelled declined entries l,
              sets-left R J k match_id ttl apart status_dissolved s,
            );
        cancellations = ground (
          arith,
          sets-srem R inqueue (declined ∷ []) q cancelled,
          eq_iff inqueue cancelled,
          sets-requeue R queue cancelled declined entries l,
          sets-left R J k match_id ttl apart status_dissolved s,
          apart.cancelled-inqueue,
        );
      }

  -- dissolveScript on a forming match answers 1 and dissolves it; on any other it answers 0 and
  -- changes nothing.
  pub dissolve_script-Dissolves :
      (declined : String) (entries : List Requeue) (s : Keyspace)
      → ((is_forming (s.texts status_key) ≡ true)
          × ((run_dissolve declined entries s).0 ≡ 1)
          × Dissolves J k match_id declined entries s (run_dissolve declined entries s).1)
        ⊎ ((is_forming (s.texts status_key) ≡ false) × (run_dissolve declined entries s ≡ (0, s)))
  unfolding dissolve_script
  dissolve_script-Dissolves declined entries s =
      elim (Bool-cases (is_forming (s.texts status_key))) [
        | inl e ↦ inl (
          e,
          (rw (R.get_lem, e)),
          rw (R.get_lem, e)
              (unfold dissolved_store left in dissolved_store-Dissolves declined entries s),
        )
        | inr e ↦ inr (e, rw (R.get_lem, e))
      ]
