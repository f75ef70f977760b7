-- ===== src/Api/Scripts/Answers.antt =====
-- The answers of acceptScript and declineScript, and what they do to the store.
use matchmaking.Shared.{
  ◌∙◌, ℕ, suc, String, ◌≡◌, ◌⊎◌, refl, ap, true, false, some, List, [], ◌∷◌, arith, length, eqb,
  eq_iff, Bool-cases, inl, inr, if◌then◌else◌,
}
use matchmaking.Shared.Int.{ℤ, pos, negsuc}
use matchmaking.Redis.{Redis, Keyspace, contains, with_members, put}
use matchmaking.Redis.Sets.{expire-set}
use matchmaking.Matchops.Scripts.{is_forming}
use matchmaking.Api.Scripts.{accept_script, decline_script}

module _ (R : Redis) (accepted declined status_key : String) (ttl : ℕ) where
  abbrev pub run_accept : String → Keyspace → ℤ × Keyspace
  run_accept p s = accept_script R accepted declined status_key p ttl s

  -- The store in which a player has been added to the accepted set.
  abbrev pub with_accepted : String → Keyspace → Keyspace
  with_accepted p s = record s {
    sets = put s.sets accepted (p ∷ s.sets accepted);
    ttls = put s.ttls accepted (some ttl);
  }

  sadd_old :
      (p : String) (s : Keyspace)
      → contains p (s.sets accepted) ≡ true
      → R.sadd accepted (p ∷ []) s ≡ (0, record s { sets = put s.sets accepted (s.sets accepted) })
  sadd_old p s old = rw R.sadd_lem (
      unfold with_members in
      rw old
        (ap (λ n. (n, record s { sets = put s.sets accepted (s.sets accepted) })) (omega arith)))

  sadd_fresh :
      (p : String) (s : Keyspace)
      → contains p (s.sets accepted) ≡ false
      → R.sadd accepted (p ∷ []) s
        ≡ (1, record s { sets = put s.sets accepted (p ∷ s.sets accepted) })
  sadd_fresh p s fresh = rw R.sadd_lem (
      unfold with_members in
      rw fresh (
        ap (λ n. (n, record s { sets = put s.sets accepted (p ∷ s.sets accepted) })) (omega arith)))

  expire_fresh :
      (p : String) (s : Keyspace)
      → R.expire accepted ttl (record s { sets = put s.sets accepted (p ∷ s.sets accepted) })
        ≡ with_accepted p s
  expire_fresh p s =
      expire-set R accepted ttl (record s { sets = put s.sets accepted (p ∷ s.sets accepted) })
        (ground (arith, eq_iff accepted accepted))

  pub accept_script_fresh :
      (p : String) (s : Keyspace)
      → is_forming (s.texts status_key) ≡ true
      → contains p (s.sets declined) ≡ false
      → contains p (s.sets accepted) ≡ false
      → run_accept p s ≡ (pos (suc (length (s.sets accepted))), with_accepted p s)
  unfolding accept_script
  accept_script_fresh p s f d a =
      rw (R.get_lem, f, R.sismember_lem, d, sadd_fresh p s a, expire_fresh p s, R.scard_lem)
        (ground (arith, eq_iff accepted accepted))

  -- acceptScript answers -1 for a match that is not forming, and -2 for a forming match that the
  -- player has declined, and changes nothing. It answers -3 for a player who has accepted and not
  -- declined it, and leaves the accepted set as it is. Otherwise the player is added, the set's
  -- time to live is renewed, and the answer is the new size of the set.
  pub accept_script_lem :
      (p : String) (s : Keyspace)
      → ((is_forming (s.texts status_key) ≡ false) × (run_accept p s ≡ (negsuc 0, s)))
        ⊎ ((is_forming (s.texts status_key) ≡ true)
            × (contains p (s.sets declined) ≡ true)
            × (run_accept p s ≡ (negsuc 1, s)))
        ⊎ ((is_forming (s.texts status_key) ≡ true)
            × (contains p (s.sets declined) ≡ false)
            × (contains p (s.sets accepted) ≡ true)
            × (run_accept p s
                ≡ (negsuc 2, record s { sets = put s.sets accepted (s.sets accepted) })))
        ⊎ ((is_forming (s.texts status_key) ≡ true)
            × (contains p (s.sets declined) ≡ false)
            × (contains p (s.sets accepted) ≡ false)
            × (run_accept p s ≡ (pos (suc (length (s.sets accepted))), with_accepted p s)))
  unfolding accept_script
  accept_script_lem p s = elim (Bool-cases (is_forming (s.texts status_key))) [
    | inr f ↦ inl (f, rw (R.get_lem, f))
    | inl f ↦ inr (elim (Bool-cases (contains p (s.sets declined))) [
      | inl d ↦ inl (f, d, rw (R.get_lem, f, R.sismember_lem, d))
      | inr d ↦ inr (elim (Bool-cases (contains p (s.sets accepted))) [
        | inl a ↦ inl (f, d, a, rw (R.get_lem, f, R.sismember_lem, d, sadd_old p s a))
        | inr a ↦ inr (f, d, a, accept_script_fresh p s f d a)
      ])
    ])
  ]

  -- The declined set with a player.
  abbrev pub with_decline : String → List String → List String
  with_decline p ps = if contains p ps then ps else p ∷ ps

  abbrev pub with_declined : String → Keyspace → Keyspace
  with_declined p s = record s {
    sets = put s.sets declined (with_decline p (s.sets declined));
    ttls = put s.ttls declined (some ttl);
  }

  sadd_declined :
      (p : String) (s : Keyspace)
      → R.sadd declined (p ∷ []) s ≡ (
        if contains p (s.sets declined) then 0 else 1,
        record s { sets = put s.sets declined (with_decline p (s.sets declined)) },
      )
  sadd_declined p s = elim (Bool-cases (contains p (s.sets declined))) [
    | inl d ↦ rw R.sadd_lem (
        unfold with_members in
        rw d
          (ap (λ n. (n, record s { sets = put s.sets declined (s.sets declined) })) (omega arith)))
    | inr d ↦ rw R.sadd_lem (
        unfold with_members in
        rw d (
          ap (λ n. (n, record s { sets = put s.sets declined (p ∷ s.sets declined) }))
            (omega arith)))
  ]

  with_decline-ne-nil : (p : String) (ps : List String) → eqb 0 (length (with_decline p ps)) ≡ false
  unfolding contains
  with_decline-ne-nil p [] = refl
  with_decline-ne-nil p (q ∷ ps) = ground arith

  -- declineScript answers -1 for a match that is not forming and changes nothing. For a forming
  -- match it answers 1 on the player's first decline and 0 after that; the player is then in the
  -- declined set, whose time to live is renewed, and nothing else changes.
  pub decline_script_lem :
      (p : String) (s : Keyspace)
      → ((is_forming (s.texts status_key) ≡ false)
          × (decline_script R declined status_key p ttl s ≡ (negsuc 0, s)))
        ⊎ ((is_forming (s.texts status_key) ≡ true)
            × (decline_script R declined status_key p ttl s
                ≡ (pos (if contains p (s.sets declined) then 0 else 1), with_declined p s)))
  unfolding decline_script
  decline_script_lem p s = elim (Bool-cases (is_forming (s.texts status_key))) [
    | inr f ↦ inl (f, rw (R.get_lem, f))
    | inl f ↦
        let added : Keyspace = record s {
          sets = put s.sets declined (with_decline p (s.sets declined));
        } in
        inr (
          f,
          rw (R.get_lem, f, sadd_declined)
              (ap (λ u. (pos (if contains p (s.sets declined) then 0 else 1), u))
                (expire-set R declined ttl added (
                  ground
                    (arith, eq_iff declined declined, with_decline-ne-nil p (s.sets declined))))),
        )
  ]

  pub decline_script_first :
      (p : String) (s : Keyspace)
      → is_forming (s.texts status_key) ≡ true
      → contains p (s.sets declined) ≡ false
      → decline_script R declined status_key p ttl s ≡ (pos 1, with_declined p s)
  decline_script_first p s f d = elim (decline_script_lem p s) [
    | inl (idle, _) ↦ absurd (ground arith)
    | inr (_, e) ↦ e ∙ ap (λ n. (pos n, with_declined p s)) (ground arith)
  ]
