-- ===== src/Lifecycle/Refines.antt =====
-- The scripts of internal/api/handler.go and internal/matchops/ops.go beside the ballot.
use matchmaking.Shared.{
  String, ◌≡◌, refl, ap, ◌∙◌, sym, subst, Bool, true, false, Option, none, some, List, [], ◌∷◌,
  arith, str_eq, Bool-cases, inl, inr, if◌then◌else◌,
}
use matchmaking.Model.{Shard, status_confirmed, status_dissolved}
use matchmaking.Json.{Json}
use matchmaking.Redis.{Redis, Keyspace}
use matchmaking.Keys
use matchmaking.Matchops.Scripts.{is_forming}
use matchmaking.Lifecycle.{
  Phase, forming, confirmed, dissolved, unknown, Ballot, Op, accepts, declines, confirms, dissolves,
  vote, refusal, step_in, step, answers, run_op, run_ops, phase_of,
}
use matchmaking.Lifecycle.Represents.{Represents, Refines}
use matchmaking.Lifecycle.Voting.{accepts-Refines, declines-Refines}
use matchmaking.Lifecycle.Closing.{confirms-Refines, dissolves-Refines}

phase_of-forming : (t : Option String) → is_forming t ≡ true → phase_of t ≡ forming
unfolding is_forming
phase_of-forming none h = absurd (ground arith)
phase_of-forming (some status) h = rw h

step_in-refusal :
    (t : Option String) (op : Op) (b : Ballot)
    → is_forming t ≡ false
    → step_in (phase_of t) op b ≡ (refusal op, b)
unfolding is_forming
step_in-refusal none op b h = refl
step_in-refusal (some status) op b h =
    rw h (rest (str_eq status status_confirmed) (str_eq status status_dissolved))
  where
    rest :
        (c d : Bool)
        → step_in (if c then confirmed else if d then dissolved else unknown) op b ≡ (refusal op, b)
    rest true d = refl
    rest false true = refl
    rest false false = refl

module _ (R : Redis) (J : Json) (shard : Shard) (id : String) where
  run_op-refusal :
      (op : Op) (s : Keyspace)
      → is_forming (s.texts (Keys.match_status_key id)) ≡ false
      → run_op R J shard id op s ≡ (refusal op, s)
  unfolding run_op
  run_op-refusal (accepts p) s h = rw (R.get_lem, h)
  run_op-refusal (declines p) s h = rw (R.get_lem, h)
  run_op-refusal (confirms players) s h = rw (R.get_lem, h)
  run_op-refusal (dissolves declined entries) s h = rw (R.get_lem, h)

  vote-Refines :
      (op : Op) (s : Keyspace) (b : Ballot)
      → is_forming (s.texts (Keys.match_status_key id)) ≡ true
      → Represents id s b
      → Refines id (run_op R J shard id op s) (vote op b)
  vote-Refines (accepts p) = accepts-Refines R J shard id p
  vote-Refines (declines p) = declines-Refines R J shard id p
  vote-Refines (confirms players) = confirms-Refines R J shard id players
  vote-Refines (dissolves declined entries) = dissolves-Refines R J shard id declined entries

  step-Refines :
      (op : Op) (s : Keyspace) (b : Ballot)
      → Represents id s b
      → Refines id (run_op R J shard id op s) (step op b)
  unfolding step
  step-Refines op s b rep = elim (Bool-cases (is_forming (s.texts (Keys.match_status_key id)))) [
    | inl f ↦
        subst (λ (q : Phase). Refines id (run_op R J shard id op s) (step_in q op b))
          (sym (phase_of-forming _ f) ∙ rep.phase_same) (vote-Refines op s b f rep)
    | inr idle ↦
        subst (λ (q : Phase). Refines id (run_op R J shard id op s) (step_in q op b)) rep.phase_same
          (rw (run_op-refusal op s idle, step_in-refusal _ op b idle) (refl, rep))
  ]

  -- No sequence of acceptances, declines, confirmations and dissolutions of a match, run as their
  -- scripts with the keys that the service gives them, tells the keyspace from the ballot that it
  -- holds: every answer is the one of the ballot, which is a phase, who has accepted and how many
  -- have, and who has declined, in no order.
  pub run_ops-answers :
      (ops : List Op) (s : Keyspace) (b : Ballot)
      → Represents id s b
      → run_ops R J shard id ops s ≡ answers ops b
  unfolding run_ops answers
  run_ops-answers [] s b rep = refl
  run_ops-answers (op ∷ ops) s b rep =
      let (same, next) = step-Refines op s b rep in
      ap (λ n. n ∷ run_ops R J shard id ops (run_op R J shard id op s).1) same
      ∙ ap (λ l. (step op b).0 ∷ l)
          (run_ops-answers ops (run_op R J shard id op s).1 (step op b).1 next)
