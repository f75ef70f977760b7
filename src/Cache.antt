-- ===== src/Cache.antt =====
-- internal/cache/cache.go: a cache-aside layer for integers.
pub mod ReadThrough
use matchmaking.Shared.{ℕ, String, Option, none, some}
use matchmaking.Shared.Int.{ℤ}
use matchmaking.Shared.Decimal.{decimal_int, parse_int}
use matchmaking.Redis.{Redis}
use matchmaking.Effects.{M, pure, query, command, ◌>>=◌, ◌>>◌}

-- What a read gives: an error, (0, false, nil), or a value that was found.
pub data Loaded : Type 0 where
  load_failed unknown : Loaded
  known : ℤ → Loaded

module _ (R : Redis) (key : String) (ttl : ℕ) where
  -- What follows the loader. Failing to write the value back is only logged.
  unfoldable pub populate : Loaded → M Loaded
  unfolding command
  populate load_failed = pure load_failed
  populate unknown = pure unknown
  populate (known value) = command (R.set_ex key (decimal_int value) ttl) >> pure (known value)

  -- What follows the lookup: an error, a miss, or a text that is or is not an integer.
  unfoldable pub after_lookup : M Loaded → Option (Option String) → M Loaded
  unfolding populate
  after_lookup load none = pure load_failed
  after_lookup load (some none) = load >>= populate
  after_lookup load (some (some text)) = elim (parse_int text) [
    | none ↦ pure load_failed
    | some value ↦ pure (known value)
  ]

  -- GetInt
  unfoldable pub get_int : M Loaded → M Loaded
  unfolding query after_lookup
  get_int load = query (R.get key) >>= after_lookup load

-- Invalidate
unfoldable pub invalidate : Redis → String → M (Option (Unit {0}))
unfolding command
invalidate R key = command (R.del key)
