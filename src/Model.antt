-- ===== src/Model.antt =====
-- internal/model/model.go: shards, queue entries and matches.
use matchmaking.Shared.{ℕ, String, List}
use matchmaking.Shared.Int.{ℤ}

-- An instant on the wall clock, in nanoseconds since the epoch.
abbrev pub Time : Type 0
Time = ℕ

-- The empty text stands for an absent rating band.
pub record Shard : Type 0 where
  pub region : String
  pub mode : String
  pub rating_band : String

pub record QueueEntry : Type 0 where
  pub player_id : String
  pub rating : ℤ  -- int32
  pub enqueued_at : Time

-- The texts of the status constants.
abbrev pub status_forming : String
status_forming = "forming"

abbrev pub status_confirmed : String
status_confirmed = "confirmed"

abbrev pub status_dissolved : String
status_dissolved = "dissolved"

pub record Match : Type 0 where
  pub id : String
  pub shard : Shard
  pub player_ids : List String
  pub entries : List QueueEntry
  pub status : String
  pub formed_at : Time
