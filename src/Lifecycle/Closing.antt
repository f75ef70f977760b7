-- ===== src/Lifecycle/Closing.antt =====
-- confirmScript and dissolveScript of internal/matchops/ops.go close a match that is forming.
use matchmaking.Shared.{
  ◌≢◌, String, ◌≡◌, refl, ap, ◌∙◌, true, Option, some, List, [], ◌∷◌, arith, eq_iff, str_eq, length,
  Bool-cases, inl, inr, if◌then◌else◌,
}
use matchmaking.Model.{Shard, status_confirmed, status_dissolved}
use matchmaking.Json.{Json}
use matchmaking.Redis.{Redis, Keyspace, contains}
use matchmaking.Redis.Frames.{sets-srem, texts-srem}
use matchmaking.Keys
use matchmaking.Keys.Disjoint.{match_key-ne-status, accepted-ne-in_queue, declined-ne-in_queue}
use matchmaking.Matchops.{match_ttl}
use matchmaking.Matchops.Scripts.{
  Requeue, is_forming, leave_forming, requeue, unmark_all, dissolve_script, confirm_script,
}
use matchmaking.Matchops.Scripts.Once.{texts-requeue, texts-unmark_all, leave_forming-status}
use matchmaking.Matchops.Scripts.Leaving.{sets-leave_forming}
use matchmaking.Matchops.Scripts.Requeued.{sets-requeue}
use matchmaking.Lifecycle.{
  Phase, confirmed, dissolved, Ballot, confirms, dissolves, vote, run_op, phase_of,
}
use matchmaking.Lifecycle.Represents.{Represents, Refines}

module _ (R : Redis) (J : Json) (shard : Shard) (id : String) where
  -- A script that closes the match leaves the votes as they are.
  closed-Represents :
      (status : String) (phase : Phase) (s t : Keyspace) (b : Ballot)
      → Represents id s b
      → t.texts (Keys.match_status_key id) ≡ some status
      → phase_of (some status) ≡ phase
      → t.sets (Keys.match_accepted id) ≡ s.sets (Keys.match_accepted id)
      → t.sets (Keys.match_declined id) ≡ s.sets (Keys.match_declined id)
      → Represents id t (record b { phase = phase })
  closed-Represents status phase s t b rep at is accepted declined = record {
    phase_same = ap phase_of at ∙ is;
    accepted_same = λ p. ap (contains p) accepted ∙ rep.accepted_same p;
    count_same = ap (length {A = String}) accepted ∙ rep.count_same;
    declined_same = λ p. ap (contains p) declined ∙ rep.declined_same p;
  }

  sets-unmark_all_ne :
      (inqueue j : String) (players : List String) (s : Keyspace)
      → j ≢ inqueue
      → (unmark_all R inqueue players s).sets j ≡ s.sets j
  unfolding unmark_all
  sets-unmark_all_ne inqueue j [] s ne = refl
  sets-unmark_all_ne inqueue j (p ∷ ps) s ne =
      ground (arith, sets-srem R inqueue (p ∷ ps) s j, eq_iff inqueue j, ne)

  abbrev after_leaving : String → Keyspace → Keyspace
  after_leaving status s =
      leave_forming R J (Keys.match_status_key id) (Keys.match_key id) (Keys.forming_matches shard)
        match_ttl id status s

  abbrev after_confirming : List String → Keyspace → Keyspace
  after_confirming players s =
      unmark_all R (Keys.in_queue shard) players (after_leaving status_confirmed s)

  pub confirms-Refines :
      (players : List String) (s : Keyspace) (b : Ballot)
      → is_forming (s.texts (Keys.match_status_key id)) ≡ true
      → Represents id s b
      → Refines id (run_op R J shard id (confirms players) s) (vote (confirms players) b)
  unfolding run_op confirm_script
  confirms-Refines players s b f rep =
      let left = after_leaving status_confirmed s in
      let sets =
        sets-leave_forming R J (Keys.match_status_key id) (Keys.match_key id)
          (Keys.forming_matches shard) id status_confirmed match_ttl s in
      rw (R.get_lem, f)
        (
          refl,
          closed-Represents status_confirmed confirmed s (after_confirming players s) b rep
              (ap (λ (t : String → Option String). t (Keys.match_status_key id))
                  (texts-unmark_all R (Keys.in_queue shard) players left)
                ∙ leave_forming-status R J (Keys.match_status_key id) (Keys.match_key id)
                    (Keys.forming_matches shard) id match_ttl (match_key-ne-status id)
                    status_confirmed s)
              refl
              (sets-unmark_all_ne (Keys.in_queue shard) (Keys.match_accepted id) players left
                  (accepted-ne-in_queue id shard)
                ∙ ap (λ (t : String → List String). t (Keys.match_accepted id)) sets)
              (sets-unmark_all_ne (Keys.in_queue shard) (Keys.match_declined id) players left
                  (declined-ne-in_queue id shard)
                ∙ ap (λ (t : String → List String). t (Keys.match_declined id)) sets),
        )

  abbrev after_requeueing : String → List Requeue → Keyspace → Keyspace
  after_requeueing declined entries s =
      requeue R (Keys.queue shard) (Keys.cancelled shard) declined entries
        (after_leaving status_dissolved s)

  -- The player who declined loses the mark, if somebody declined.
  abbrev after_unmarking : String → Keyspace → Keyspace
  after_unmarking declined s =
      if str_eq declined "" then s else R.srem (Keys.in_queue shard) (declined ∷ []) s

  texts-after_unmarking :
      (declined : String) (s : Keyspace) → (after_unmarking declined s).texts ≡ s.texts
  texts-after_unmarking declined s = elim (Bool-cases (str_eq declined "")) [
    | inl e ↦ rw e
    | inr e ↦ rw e (texts-srem R (Keys.in_queue shard) (declined ∷ []) s)
  ]

  sets-after_unmarking_ne :
      (declined j : String) (s : Keyspace)
      → j ≢ Keys.in_queue shard
      → (after_unmarking declined s).sets j ≡ s.sets j
  sets-after_unmarking_ne declined j s ne = elim (Bool-cases (str_eq declined "")) [
    | inl e ↦ rw e
    | inr e ↦ rw e (
        ground (
          arith,
          sets-srem R (Keys.in_queue shard) (declined ∷ []) s j,
          eq_iff (Keys.in_queue shard) j,
          ne,
        ))
  ]

  pub dissolves-Refines :
      (declined : String) (entries : List Requeue) (s : Keyspace) (b : Ballot)
      → is_forming (s.texts (Keys.match_status_key id)) ≡ true
      → Represents id s b
      → Refines id
          (run_op R J shard id (dissolves declined entries) s)
          (vote (dissolves declined entries) b)
  unfolding run_op dissolve_script
  dissolves-Refines declined entries s b f rep =
      let left = after_leaving status_dissolved s in
      let q = after_requeueing declined entries s in
      let sets =
        sets-requeue R (Keys.queue shard) (Keys.cancelled shard) declined entries left
        ∙ sets-leave_forming R J (Keys.match_status_key id) (Keys.match_key id)
            (Keys.forming_matches shard) id status_dissolved match_ttl s in
      rw (R.get_lem, f)
        (
          refl,
          closed-Represents status_dissolved dissolved s (after_unmarking declined q) b rep
              (ap (λ (t : String → Option String). t (Keys.match_status_key id))
                  (texts-after_unmarking declined q
                    ∙ texts-requeue R (Keys.queue shard) (Keys.cancelled shard) declined entries
                        left)
                ∙ leave_forming-status R J (Keys.match_status_key id) (Keys.match_key id)
                    (Keys.forming_matches shard) id match_ttl (match_key-ne-status id)
                    status_dissolved s)
              refl
              (sets-after_unmarking_ne declined (Keys.match_accepted id) q
                  (accepted-ne-in_queue id shard)
                ∙ ap (λ (t : String → List String). t (Keys.match_accepted id)) sets)
              (sets-after_unmarking_ne declined (Keys.match_declined id) q
                  (declined-ne-in_queue id shard)
                ∙ ap (λ (t : String → List String). t (Keys.match_declined id)) sets),
        )
