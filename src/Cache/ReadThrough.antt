-- ===== src/Cache/ReadThrough.antt =====
-- What was loaded once is read from the cache.
use matchmaking.Shared.{ℕ, suc, ◌<◌, ◌≤◌, String, ◌≡◌, refl, none, some, arith, eq_iff}
use matchmaking.Shared.Int.{ℤ, pos_part, neg_part}
use matchmaking.Shared.Decimal.{decimal_int, parse_int, i64_half, parse_int-decimal_int}
use matchmaking.Redis.{Redis}
use matchmaking.Effects.{World, M, IsReliable, query-delivered, command-delivered}
use matchmaking.Cache.{Loaded, known, get_int, after_lookup, populate}

module _ (R : Redis) (key : String) (ttl : ℕ) where
  -- A miss calls the loader and writes its value back.
  get_int-miss :
      (load : M Loaded) (value : ℤ) (w : World)
      → IsReliable w
      → w.store.texts key ≡ none
      → ((u : World) → load u ≡ (known value, u))
      → get_int R key ttl load w ≡ (
        known value,
        record w {
          store = R.set_ex key (decimal_int value) ttl w.store;
          calls = suc (suc w.calls);
        },
      )
  unfolding get_int after_lookup populate
  get_int-miss load value w ok miss loads =
      let v : World = record w { calls = suc w.calls } in
      rw
        (
          query-delivered (R.get key) w (ok w.calls),
          R.get_lem,
          miss,
          loads,
          command-delivered (R.set_ex key (decimal_int value) ttl) v (ok (suc w.calls)),
        )
        refl

  -- A hit does not call the loader.
  get_int-hit :
      (load : M Loaded) (text : String) (value : ℤ) (w : World)
      → IsReliable w
      → w.store.texts key ≡ some text
      → parse_int text ≡ some value
      → get_int R key ttl load w ≡ (known value, record w { calls = suc w.calls })
  unfolding get_int after_lookup
  get_int-hit load text value w ok hit parsed =
      rw (query-delivered (R.get key) w (ok w.calls), R.get_lem, hit, parsed) refl

  -- With every round trip delivered, a miss whose loader finds an int64 gives this value, and the
  -- next read gives it again whatever its own loader would do, without a change of the store.
  pub get_int-get_int :
      (load again : M Loaded) (value : ℤ) (w : World)
      → IsReliable w
      → w.store.texts key ≡ none
      → ((u : World) → load u ≡ (known value, u))
      → (pos_part value < i64_half) × (neg_part value ≤ i64_half)
      → let first = get_int R key ttl load w in
        let second = get_int R key ttl again first.1 in
        (first.0 ≡ known value) × (second.0 ≡ known value) × (second.1.store ≡ first.1.store)
  get_int-get_int load again value w ok miss loads (low, high) =
      let v : World = record w {
        store = R.set_ex key (decimal_int value) ttl w.store;
        calls = suc (suc w.calls);
      } in
      let hit : v.store.texts key ≡ some (decimal_int value) =
        rw R.set_ex_lem (ground (arith, eq_iff key key)) in
      rw
        (
          get_int-miss load value w ok miss loads,
          get_int-hit again (decimal_int value) value v ok hit
              (parse_int-decimal_int value low high),
        )
        (refl, refl, refl)
