-- ===== src/Tests/Cache.antt =====
-- A rating is loaded once.
use matchmaking.Shared.{◌≡◌, refl, arith}
use matchmaking.Shared.Int.{pos}
use matchmaking.Tests.Queue.{start}
use matchmaking.Effects.{pure}
use matchmaking.Redis.Memory.{memory}
use matchmaking.Cache.{known, load_failed, get_int}
use matchmaking.Cache.ReadThrough.{get_int-get_int}

get_int-get_int_example :
    let first = get_int memory "rating:7:ranked" 300 (pure (known (pos 1250))) start in
    let second = get_int memory "rating:7:ranked" 300 (pure load_failed) first.1 in
    (first.0 ≡ known (pos 1250)) × (second.0 ≡ known (pos 1250)) × (second.1.store ≡ first.1.store)
get_int-get_int_example =
    get_int-get_int memory "rating:7:ranked" 300 (pure (known (pos 1250))) (pure load_failed)
      (pos 1250) start (λ n. refl) refl (λ u. refl) (omega arith, omega arith)
