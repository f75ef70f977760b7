-- ===== src/Api/Scripts.antt =====
-- acceptScript and declineScript of internal/api/handler.go.
pub mod Answers
pub mod Votes
use matchmaking.Shared.{ℕ, String, [], ◌∷◌, eqb, if◌then◌else◌}
use matchmaking.Shared.Int.{ℤ, pos, negsuc}
use matchmaking.Redis.{Redis, Keyspace}
use matchmaking.Matchops.Scripts.{is_forming}

module _ (R : Redis) where
  -- -1, -2 and -3 are `negsuc` of 0, 1 and 2.
  unfoldable pub accept_script : String → String → String → String → ℕ → Keyspace → ℤ × Keyspace
  unfolding is_forming
  accept_script accepted declined status_key player_id ttl s =
      if is_forming (R.get status_key s)
      then (if R.sismember declined player_id s
          then (negsuc 1, s)
          else (let (added, t) = R.sadd accepted (player_id ∷ []) s in
              let u = R.expire accepted ttl t in
              if eqb added 0 then (negsuc 2, t) else (pos (R.scard accepted u), u)))
      else (negsuc 0, s)

  unfoldable pub decline_script : String → String → String → ℕ → Keyspace → ℤ × Keyspace
  unfolding is_forming
  decline_script declined status_key player_id ttl s =
      if is_forming (R.get status_key s)
      then (let (added, t) = R.sadd declined (player_id ∷ []) s in
          (pos added, R.expire declined ttl t))
      else (negsuc 0, s)
