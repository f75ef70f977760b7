-- ===== src/Lifecycle/Voting.antt =====
-- acceptScript and declineScript of internal/api/handler.go count the votes on a match that is
-- forming.
use matchmaking.Shared.{
  ◌≢◌, ℕ, suc, String, ◌≡◌, refl, ap, ◌∙◌, sym, subst, Bool, true, ◌||◌, Option, List, ◌∷◌, arith,
  eq_iff, str_eq, length, Bool-cases, inl, inr, if◌then◌else◌,
}
use matchmaking.Shared.Int.{pos}
use matchmaking.Model.{Shard}
use matchmaking.Json.{Json}
use matchmaking.Redis.{Redis, Keyspace, contains, put}
use matchmaking.Keys
use matchmaking.Keys.Disjoint.{accepted-ne-declined}
use matchmaking.Matchops.Scripts.{is_forming}
use matchmaking.Api.{response_ttl}
use matchmaking.Api.Scripts.Answers.{accept_script_lem, decline_script_lem, with_declined}
use matchmaking.Lifecycle.{Ballot, accepts, declines, vote, run_op, phase_of, with_voter}
use matchmaking.Lifecycle.Represents.{Represents, Refines}

put_self : (f : String → List String) (k : String) (v : List String) → put f k v k ≡ v
put_self f k v = ground (arith, eq_iff k k)

put_ne : (f : String → List String) (k j : String) (v : List String) → k ≢ j → put f k v j ≡ f j
put_ne f k j v ne = ground (arith, eq_iff k j, ne)

contains-cons :
    (q p : String) (ps : List String) → contains q (p ∷ ps) ≡ (str_eq q p || contains q ps)
unfolding contains
contains-cons q p ps = ground arith

contains-with_decline :
    (q p : String) (ps : List String)
    → contains q (if contains p ps then ps else p ∷ ps) ≡ (str_eq q p || contains q ps)
contains-with_decline q p ps = elim (Bool-cases (contains p ps)) [
  | inr fresh ↦ rw fresh (contains-cons q p ps)
  | inl old ↦ elim (Bool-cases (str_eq q p)) [
    | inl same ↦
        rw (old, same)
          (subst (λ (r : String). contains r ps ≡ true) (sym ((eq_iff q p).0 same)) old)
    | inr other ↦ rw (old, other)
  ]
]

-- A step that leaves the status alone and the sets of the voters with these players.
votes-Represents :
    (id : String) (s t : Keyspace) (b : Ballot) (accepted declined : String → Bool) (count : ℕ)
    → Represents id s b
    → t.texts ≡ s.texts
    → ((p : String) → contains p (t.sets (Keys.match_accepted id)) ≡ accepted p)
    → length (t.sets (Keys.match_accepted id)) ≡ count
    → ((p : String) → contains p (t.sets (Keys.match_declined id)) ≡ declined p)
    → Represents id t (record b { accepted = accepted; count = count; declined = declined })
votes-Represents id s t b accepted declined count rep texts a n d = record {
  phase_same =
      ap (λ (f : String → Option String). phase_of (f (Keys.match_status_key id))) texts
      ∙ rep.phase_same;
  accepted_same = a;
  count_same = n;
  declined_same = d;
}

module _ (R : Redis) (J : Json) (shard : Shard) (id : String) where
  abbrev acc : String
  acc = Keys.match_accepted id

  abbrev dec : String
  dec = Keys.match_declined id

  -- The accepted set is written, and the declined set is another key.
  accepted-Represents :
      (s : Keyspace) (b : Ballot) (ps : List String) (ttls : String → Option ℕ)
      (accepted : String → Bool) (count : ℕ)
      → Represents id s b
      → ((p : String) → contains p ps ≡ accepted p)
      → length ps ≡ count
      → Represents id
          (record s { sets = put s.sets acc ps; ttls = ttls })
          (record b { accepted = accepted; count = count })
  accepted-Represents s b ps ttls accepted count rep same n =
      votes-Represents id s (record s { sets = put s.sets acc ps; ttls = ttls }) b accepted
        b.declined count rep refl (λ p. ap (contains p) (put_self s.sets acc ps) ∙ same p)
        (ap (length {A = String}) (put_self s.sets acc ps) ∙ n)
        (λ p.
          ap (contains p) (put_ne s.sets acc dec ps (accepted-ne-declined id))
          ∙ rep.declined_same p)

  pub accepts-Refines :
      (p : String) (s : Keyspace) (b : Ballot)
      → is_forming (s.texts (Keys.match_status_key id)) ≡ true
      → Represents id s b
      → Refines id (run_op R J shard id (accepts p) s) (vote (accepts p) b)
  unfolding run_op
  accepts-Refines p s b f rep =
      elim (accept_script_lem R acc dec (Keys.match_status_key id) response_ttl p s) [
        | inl (idle, _) ↦ absurd (ground (arith, f, idle))
        | inr (inl (_, d, e)) ↦ rw (e, sym (rep.declined_same p), d) (refl, rep)
        | inr (inr (inl (_, d, a, e))) ↦
            rw (e, sym (rep.declined_same p), d, sym (rep.accepted_same p), a)
              (
                refl,
                accepted-Represents s b (s.sets acc) s.ttls b.accepted b.count rep rep.accepted_same
                    rep.count_same,
              )
        | inr (inr (inr (_, d, a, e))) ↦
            rw (e, sym (rep.declined_same p), d, sym (rep.accepted_same p), a)
              (
                ap (λ n. pos (suc n)) rep.count_same,
                accepted-Represents s b (p ∷ s.sets acc) _ (with_voter p b.accepted) (suc b.count)
                    rep
                    (λ q.
                      contains-cons q p (s.sets acc)
                      ∙ ap (λ c. str_eq q p || c) (rep.accepted_same q))
                    (ap suc rep.count_same),
              )
      ]

  pub declines-Refines :
      (p : String) (s : Keyspace) (b : Ballot)
      → is_forming (s.texts (Keys.match_status_key id)) ≡ true
      → Represents id s b
      → Refines id (run_op R J shard id (declines p) s) (vote (declines p) b)
  unfolding run_op
  declines-Refines p s b f rep =
      elim (decline_script_lem R acc dec (Keys.match_status_key id) response_ttl p s) [
        | inl (idle, _) ↦ absurd (ground (arith, f, idle))
        | inr (_, e) ↦
            let t = with_declined R acc dec (Keys.match_status_key id) response_ttl p s in
            rw e (
              ap (λ (c : Bool). pos (if c then 0 else 1)) (rep.declined_same p),
              votes-Represents id s t b b.accepted (with_voter p b.declined) b.count rep refl
                  (λ q.
                    ap (contains q) (put_ne s.sets dec acc _ (λ e. accepted-ne-declined id (sym e)))
                    ∙ rep.accepted_same q)
                  (ap (length {A = String})
                      (put_ne s.sets dec acc _ (λ e. accepted-ne-declined id (sym e)))
                    ∙ rep.count_same)
                  (λ q.
                    ap (contains q) (put_self s.sets dec _)
                    ∙ contains-with_decline q p (s.sets dec)
                    ∙ ap (λ c. str_eq q p || c) (rep.declined_same q)),
            )
      ]
