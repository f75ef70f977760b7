-- ===== src/Worker/Scripts/Recovery.antt =====
-- Entries in flight: popping a batch and recovering it after a crash.
use matchmaking.Shared.{
  ◌⊎◌, ℕ, String, ◌≡◌, ◌≢◌, refl, ◌∙◌, ap, List, [], ◌∷◌, arith, take, drop, str_eq, eq_iff,
  if◌then◌else◌, inl, inr,
}
use matchmaking.Redis.{Redis, Keyspace, Scored, put, ttl_unless_empty}
use matchmaking.Redis.Scores.{
  score_of-nil, score_of, or_else, IsUnique, score_of-with_scored, score_of-take-drop,
  IsUnique-take, IsUnique-with_scored,
}
use matchmaking.Redis.Frames.{zsets-zadd, sets-zadd, texts-zadd}
use matchmaking.Worker.Scripts.{zadd_all, pop_to_processing_script, drain_processing_script}

module _ (R : Redis) where
  pub zsets-zadd_all_ne :
      (k j : String) (es : List Scored) (s : Keyspace)
      → k ≢ j
      → (zadd_all R k es s).zsets j ≡ s.zsets j
  unfolding zadd_all
  zsets-zadd_all_ne k j [] s d = refl
  zsets-zadd_all_ne k j (e ∷ es) s d = ground (
    arith,
    zsets-zadd_all_ne k j es (R.zadd k e.score e.member s) d,
    zsets-zadd R k e.score e.member s j,
    eq_iff k j,
  )

  -- Entries with distinct members keep their scores.
  pub score_of-zadd_all :
      (k m : String) (es : List Scored) (s : Keyspace)
      → IsUnique es
      → score_of m ((zadd_all R k es s).zsets k) ≡ or_else (score_of m es) (score_of m (s.zsets k))
  unfolding zadd_all score_of
  score_of-zadd_all k m [] s u = refl
  score_of-zadd_all k m (e ∷ es) s (fresh, u) = ground (
    arith,
    score_of-zadd_all k m es (R.zadd k e.score e.member s) u,
    zsets-zadd R k e.score e.member s k,
    eq_iff k k,
    eq_iff m e.member,
    score_of-with_scored m (record { member = e.member; score = e.score }) (s.zsets k),
  )

  sets-zadd_all : (k : String) (es : List Scored) (s : Keyspace) → (zadd_all R k es s).sets ≡ s.sets
  unfolding zadd_all
  sets-zadd_all k [] s = refl
  sets-zadd_all k (e ∷ es) s = sets-zadd_all k es _ ∙ sets-zadd R k e.score e.member s

  texts-zadd_all :
      (k : String) (es : List Scored) (s : Keyspace) → (zadd_all R k es s).texts ≡ s.texts
  unfolding zadd_all
  texts-zadd_all k [] s = refl
  texts-zadd_all k (e ∷ es) s = texts-zadd_all k es _ ∙ texts-zadd R k e.score e.member s

  pub IsUnique-zadd_all :
      (k : String) (es : List Scored) (s : Keyspace)
      → IsUnique (s.zsets k)
      → IsUnique ((zadd_all R k es s).zsets k)
  unfolding zadd_all
  IsUnique-zadd_all k [] s u = u
  IsUnique-zadd_all k (e ∷ es) s u = IsUnique-zadd_all k es (R.zadd k e.score e.member s) (
      ground (
        arith,
        zsets-zadd R k e.score e.member s k,
        eq_iff k k,
        IsUnique-with_scored (record { member = e.member; score = e.score }) (s.zsets k) u,
      ))

-- A store without the first entries of a queue.
without_head : String → ℕ → Keyspace → Keyspace
without_head queue n s = record s {
  zsets = put s.zsets queue (drop n (s.zsets queue));
  ttls = put s.ttls queue (ttl_unless_empty (drop n (s.zsets queue)) (s.ttls queue));
}

zsets-without_head :
    (queue : String) (n : ℕ) (s : Keyspace) (j : String)
    → (without_head queue n s).zsets j
      ≡ (if str_eq queue j then drop n (s.zsets queue) else s.zsets j)
unfolding without_head
zsets-without_head queue n s j = refl

sets-without_head : (queue : String) (n : ℕ) (s : Keyspace) → (without_head queue n s).sets ≡ s.sets
unfolding without_head
sets-without_head queue n s = refl

module _ (R : Redis) (queue processing : String) where
  -- The stores after the two scripts.
  unfoldable pub popped : ℕ → Keyspace → Keyspace
  popped n s = (pop_to_processing_script R queue processing n s).1

  unfoldable pub drained : Keyspace → Keyspace
  drained s = (drain_processing_script R processing queue s).1

  pop_to_processing_script-eq :
      (n : ℕ) (s : Keyspace)
      → pop_to_processing_script R queue processing n s ≡ (
        take n (s.zsets queue),
        zadd_all R processing (take n (s.zsets queue)) (without_head queue n s),
      )
  unfolding pop_to_processing_script without_head
  pop_to_processing_script-eq n s = rw R.zpopmin_lem

  popped-eq :
      (n : ℕ) (s : Keyspace)
      → popped n s ≡ zadd_all R processing (take n (s.zsets queue)) (without_head queue n s)
  unfolding popped
  popped-eq n s = ap (λ (r : List Scored × Keyspace). r.1) (pop_to_processing_script-eq n s)

  -- Two cases of the drain: nothing is in flight, or everything is moved and the set deleted.
  drained-eq :
      (s : Keyspace)
      → ((s.zsets processing ≡ []) × (drained s ≡ s))
        ⊎ (drained s ≡ R.del processing (zadd_all R queue (s.zsets processing) s))
  unfolding drained drain_processing_script
  drained-eq s = nothing-or-all (s.zsets processing) refl
    where
      nothing-or-all :
          (es : List Scored)
          → s.zsets processing ≡ es
          → ((es ≡ []) × ((drain_processing_script R processing queue s).1 ≡ s))
            ⊎ ((drain_processing_script R processing queue s).1
                ≡ R.del processing (zadd_all R queue es s))
      nothing-or-all [] e = inl (refl, rw (R.zrange_lem, e))
      nothing-or-all (x ∷ xs) e = inr (rw (R.zrange_lem, e) (ground arith))

  module _ (apart : queue ≢ processing) where
    -- popToProcessingScript moves a batch: the batch is the head of the queue, what is left is its
    -- tail, every entry of the batch is in the processing set with its score, and the other
    -- entries in processing keep theirs.
    pub pop_to_processing_script_lem :
        (n : ℕ) (s : Keyspace)
        → IsUnique (s.zsets queue)
        → ((pop_to_processing_script R queue processing n s).0 ≡ take n (s.zsets queue))
          × ((popped n s).zsets queue ≡ drop n (s.zsets queue))
          × ((m : String)
              → score_of m ((popped n s).zsets processing)
                ≡ or_else (score_of m (take n (s.zsets queue))) (score_of m (s.zsets processing)))
          × ((popped n s).sets ≡ s.sets)
    pop_to_processing_script_lem n s u =
        let w = without_head queue n s in
        let batch = take n (s.zsets queue) in
        rw (popped-eq n s, pop_to_processing_script-eq n s)
          (
            refl,
            ground (
              arith,
              zsets-zadd_all_ne R processing queue batch w,
              zsets-without_head queue n s queue,
              eq_iff queue queue,
            ),
            (λ m. ground (
              arith,
              score_of-zadd_all R processing m batch w (IsUnique-take n (s.zsets queue) u),
              zsets-without_head queue n s processing,
              eq_iff queue processing,
            )),
            ground (arith, sets-zadd_all R processing batch w, sets-without_head queue n s),
          )

    pub IsUnique-popped :
        (n : ℕ) (s : Keyspace)
        → IsUnique (s.zsets processing)
        → IsUnique ((popped n s).zsets processing)
    IsUnique-popped n s u = rw (popped-eq n s) (
        IsUnique-zadd_all R processing (take n (s.zsets queue)) (without_head queue n s)
          (ground (arith, zsets-without_head queue n s processing, eq_iff queue processing)))

    -- drainProcessingScript empties the processing set into the queue: every entry that was in
    -- processing is in the queue with its score, and the other entries of the queue keep theirs.
    pub drain_processing_script_lem :
        (s : Keyspace)
        → IsUnique (s.zsets processing)
        → ((drained s).zsets processing ≡ [])
          × ((m : String)
              → score_of m ((drained s).zsets queue)
                ≡ or_else (score_of m (s.zsets processing)) (score_of m (s.zsets queue)))
    drain_processing_script_lem s u = elim (drained-eq s) [
      | inl (e, d) ↦ rw d (e, λ m. unfold score_of in ground arith)
      | inr d ↦
          let z = zadd_all R queue (s.zsets processing) s in
          rw (d, R.del_lem)
            (
              ground (arith, eq_iff processing processing),
              λ m. ground (
                arith,
                eq_iff processing queue,
                score_of-zadd_all R queue m (s.zsets processing) s u,
              ),
            )
    ]

    -- Draining changes no set but the one under the key that it deletes.
    pub sets-drained_ne :
        (s : Keyspace) (j : String) → processing ≢ j → (drained s).sets j ≡ s.sets j
    sets-drained_ne s j d = elim (drained-eq s) [
      | inl (_, e) ↦ rw e
      | inr e ↦
          rw (e, R.del_lem)
            (ground (arith, eq_iff processing j, sets-zadd_all R queue (s.zsets processing) s))
    ]

    pub texts-drained_ne :
        (s : Keyspace) (j : String) → processing ≢ j → (drained s).texts j ≡ s.texts j
    texts-drained_ne s j d = elim (drained-eq s) [
      | inl (_, e) ↦ rw e
      | inr e ↦
          rw (e, R.del_lem)
            (ground (arith, eq_iff processing j, texts-zadd_all R queue (s.zsets processing) s))
    ]

    -- A worker that crashes right after popping loses nothing: when the two keys differ, every
    -- member stands once in the queue and nothing was in processing before, draining puts every
    -- entry back under its old score and leaves nothing behind.
    pub drained-popped :
        (n : ℕ) (s : Keyspace)
        → IsUnique (s.zsets queue)
        → s.zsets processing ≡ []
        → ((drained (popped n s)).zsets processing ≡ [])
          × ((m : String)
              → score_of m ((drained (popped n s)).zsets queue) ≡ score_of m (s.zsets queue))
    drained-popped n s u none_yet =
        let (batch, left, moved, _) = pop_to_processing_script_lem n s u in
        let (empty, back) =
          drain_processing_script_lem (popped n s) (IsUnique-popped n s (rw none_yet tt)) in
        (
          empty,
          λ m. ground (
            arith,
            back m,
            moved m,
            left,
            none_yet,
            score_of-take-drop m n (s.zsets queue),
            score_of-nil m,
          ),
        )
