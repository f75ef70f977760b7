-- ===== src/Lifecycle.antt =====
-- What the API promises of a match, whatever the keyspace looks like: the votes on a match and its
-- phase, and how acceptances, declines, Confirm and Dissolve act on them.
pub mod Represents
pub mod Voting
pub mod Closing
pub mod Refines
use matchmaking.Shared.{
  ℕ, suc, String, Bool, true, false, ◌||◌, Option, none, some, List, str_eq, if◌then◌else◌,
}
use matchmaking.Shared.Int.{ℤ, pos, negsuc}
use matchmaking.Model.{Shard, status_forming, status_confirmed, status_dissolved}
use matchmaking.Json.{Json}
use matchmaking.Redis.{Redis, Keyspace}
use matchmaking.Keys
use matchmaking.Matchops.{match_ttl}
use matchmaking.Matchops.Scripts.{Requeue, dissolve_script, confirm_script}
use matchmaking.Api.{response_ttl}
use matchmaking.Api.Scripts.{accept_script, decline_script}

pub data Phase : Type 0 where
  forming confirmed dissolved unknown : Phase

-- Who has accepted, how many have, and who has declined.
pub record Ballot : Type 0 where
  pub phase : Phase
  pub accepted : String → Bool
  pub count : ℕ
  pub declined : String → Bool

-- The operations on one match.
pub data Op : Type 0 where
  accepts : String → Op
  declines : String → Op
  confirms : List String → Op
  dissolves : String → List Requeue → Op

abbrev pub with_voter : String → (String → Bool) → String → Bool
with_voter p voters q = str_eq q p || voters q

abbrev pub accept_ballot : String → Ballot → ℤ × Ballot
accept_ballot p b =
    if b.declined p
    then (negsuc 1, b)
    else if b.accepted p
    then (negsuc 2, b)
    else (pos (suc b.count), record b { accepted = with_voter p b.accepted; count = suc b.count })

abbrev pub decline_ballot : String → Ballot → ℤ × Ballot
decline_ballot p b =
    (pos (if b.declined p then 0 else 1), record b { declined = with_voter p b.declined })

-- An operation on a match that is forming, and its answer.
abbrev pub vote : Op → Ballot → ℤ × Ballot
vote (accepts p) b = accept_ballot p b
vote (declines p) b = decline_ballot p b
vote (confirms players) b = (pos 1, record b { phase = confirmed })
vote (dissolves declined entries) b = (pos 1, record b { phase = dissolved })

-- The answer of an operation on any other match.
abbrev pub refusal : Op → ℤ
refusal (accepts p) = negsuc 0
refusal (declines p) = negsuc 0
refusal (confirms players) = pos 0
refusal (dissolves declined entries) = pos 0

abbrev pub step_in : Phase → Op → Ballot → ℤ × Ballot
step_in forming op b = vote op b
step_in _ op b = (refusal op, b)

unfoldable pub step : Op → Ballot → ℤ × Ballot
step op b = step_in b.phase op b

-- The answers to a sequence of operations.
unfoldable pub answers : List Op → Ballot → List ℤ
unfolding step
answers List.[] b = List.[]
answers (List.◌∷◌ op ops) b = let (n, c) = step op b in List.◌∷◌ n (answers ops c)

abbrev pub as_answer : ℕ × Keyspace → ℤ × Keyspace
as_answer (n, s) = (pos n, s)

module _ (R : Redis) (J : Json) (shard : Shard) (id : String) where
  -- The scripts with the keys that the service gives them.
  unfoldable pub run_op : Op → Keyspace → ℤ × Keyspace
  unfolding accept_script decline_script confirm_script dissolve_script
  run_op (accepts p) s =
      accept_script R (Keys.match_accepted id) (Keys.match_declined id) (Keys.match_status_key id) p
        response_ttl s
  run_op (declines p) s =
      decline_script R (Keys.match_declined id) (Keys.match_status_key id) p response_ttl s
  run_op (confirms players) s = as_answer (
      confirm_script R J (Keys.match_status_key id) (Keys.match_key id) (Keys.forming_matches shard)
        (Keys.in_queue shard) match_ttl id players s)
  run_op (dissolves declined entries) s = as_answer (
      dissolve_script R J (Keys.match_status_key id) (Keys.match_key id)
        (Keys.forming_matches shard) (Keys.queue shard) (Keys.cancelled shard) (Keys.in_queue shard)
        match_ttl id declined entries s)

  unfoldable pub run_ops : List Op → Keyspace → List ℤ
  unfolding run_op
  run_ops List.[] s = List.[]
  run_ops (List.◌∷◌ op ops) s = let (n, t) = run_op op s in List.◌∷◌ n (run_ops ops t)

abbrev pub phase_of : Option String → Phase
phase_of none = unknown
phase_of (some status) =
    if str_eq status status_forming
    then forming
    else if str_eq status status_confirmed
    then confirmed
    else if str_eq status status_dissolved
    then dissolved
    else unknown
