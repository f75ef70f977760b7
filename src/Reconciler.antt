-- ===== src/Reconciler.antt =====
-- internal/reconciler/reconciler.go: dissolving the matches that nobody confirmed in time.
pub mod Reports
use matchmaking.Shared.{
  ℕ, zero, suc, ◌-◌, String, Option, none, some, false, List, [], ◌∷◌, map, ltb, if◌then◌else◌,
}
use matchmaking.Model.{Time, Shard}
use matchmaking.Json.{Json}
use matchmaking.Redis.{Redis, Keyspace}
use matchmaking.Effects.{M, pure, query, now, ◌>>=◌, ◌>>◌}
use matchmaking.Keys
use matchmaking.Queue.{unix_milli}
use matchmaking.Matchops.{dissolve}

-- 30 seconds, in nanoseconds.
abbrev pub confirmation_timeout : ℕ
confirmation_timeout = 30000000000

-- The highest score of a match that is overdue; none if it would be negative.
unfoldable pub deadline : Time → Option ℕ
deadline at =
    if ltb at confirmation_timeout then none else some (unix_milli (at - confirmation_timeout))

module _ (R : Redis) (J : Json) where
  -- ZRANGEBYSCORE from 0; a negative maximum makes the range empty.
  unfoldable pub overdue : Option ℕ → Shard → Keyspace → List String
  overdue none shard s = []
  overdue (some high) shard s =
      map (λ z. z.member) (R.zrange_by_score (Keys.forming_matches shard) 0 high s)

  unfoldable pub dissolve_each : List String → M (Unit {0})
  dissolve_each [] = pure tt
  dissolve_each (id ∷ ids) = dissolve R J false id "" >> dissolve_each ids

  -- The body of the loop over the shards; an error is logged.
  unfoldable pub process_shard : Option ℕ → Shard → M (Unit {0})
  unfolding query overdue dissolve_each
  process_shard high shard = query (overdue high shard) >>= λ reply. elim reply [
    | none ↦ pure tt
    | some ids ↦ dissolve_each ids
  ]

  unfoldable pub process_shards : Option ℕ → List Shard → M (Unit {0})
  unfolding process_shard
  process_shards high [] = pure tt
  process_shards high (shard ∷ shards) = process_shard high shard >> process_shards high shards

  -- processTimedOut
  unfoldable pub process_timed_out : List Shard → M (Unit {0})
  unfolding now deadline process_shards
  process_timed_out shards = do at ← now; process_shards (deadline at) shards

  -- Run, for so many ticks; at the end of its context it returns nil.
  unfoldable pub run : ℕ → List Shard → M (Unit {0})
  unfolding process_timed_out
  run zero shards = pure tt
  run (suc ticks) shards = process_timed_out shards >> run ticks shards
