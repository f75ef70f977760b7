-- ===== src/Lifecycle/Represents.antt =====
-- When a keyspace holds the votes and the phase of a match.
use matchmaking.Shared.{String, ◌≡◌, length}
use matchmaking.Shared.Int.{ℤ}
use matchmaking.Redis.{Keyspace, contains}
use matchmaking.Keys
use matchmaking.Lifecycle.{Ballot, phase_of}

-- A keyspace that holds a match in this phase with these votes, in whatever order.
pub record Represents (id : String) (s : Keyspace) (b : Ballot) : Type 0 where
  pub phase_same : phase_of (s.texts (Keys.match_status_key id)) ≡ b.phase
  pub accepted_same : (p : String) → contains p (s.sets (Keys.match_accepted id)) ≡ b.accepted p
  pub count_same : length (s.sets (Keys.match_accepted id)) ≡ b.count
  pub declined_same : (p : String) → contains p (s.sets (Keys.match_declined id)) ≡ b.declined p

-- The same answer, and a keyspace that holds what is promised.
abbrev pub Refines : String → ℤ × Keyspace → ℤ × Ballot → Type 0
Refines id r q = (r.0 ≡ q.0) × Represents id r.1 q.1
