-- ===== src/Worker/Owner/Tenure.antt =====
-- A worker takes a free shard, keeps it, and gives it back.
use matchmaking.Shared.{
  ℕ, suc, String, ◌≡◌, ◌≢◌, refl, ap, ◌∙◌, Bool, Option, none, some, arith, if◌then◌else◌,
}
use matchmaking.Redis.{Redis}
use matchmaking.Effects.{World, Delivery, IsReliable, call-delivered}
use matchmaking.Keys
use matchmaking.Worker.Scripts.{lock_renew_script, lock_release_script}
use matchmaking.Worker.Scripts.Lock.{
  lock_ttl, lock_step, acquires, renews, releases, lock_step-refused, acquire_free, renew_held,
  release_held,
}
use matchmaking.Worker.Pop.{MatchMaker}
use matchmaking.Worker.Owner.{
  held, taken, held_of_bool, held_of_count, attempt_lock, renew_lock, release_shard_lock,
}

module _ (R : Redis) (mm : MatchMaker) where
  attempt_lock-delivered :
      (w : World)
      → IsReliable w
      → let (got, t) = lock_step R (Keys.shard_lock mm.shard) (acquires mm.worker_id) w.store in
        attempt_lock R mm w
        ≡ (if got then held else taken, record w { store = t; calls = suc w.calls })
  unfolding attempt_lock lock_step held_of_bool
  attempt_lock-delivered w ok =
      ap (λ (q : Option Bool × World). (held_of_bool R mm q.0, q.1))
        (call-delivered (R.set_nx (Keys.shard_lock mm.shard) mm.worker_id lock_ttl) w (ok w.calls))

  renew_lock-delivered :
      (w : World)
      → IsReliable w
      → let (got, t) = lock_step R (Keys.shard_lock mm.shard) (renews mm.worker_id) w.store in
        renew_lock R mm w
        ≡ (if got then held else taken, record w { store = t; calls = suc w.calls })
  unfolding renew_lock lock_step held_of_count
  renew_lock-delivered w ok =
      let (n, t) = lock_renew_script R (Keys.shard_lock mm.shard) mm.worker_id lock_ttl w.store in
      ap (λ (q : Option ℕ × World). (held_of_count R mm q.0, q.1))
        (call-delivered (lock_renew_script R (Keys.shard_lock mm.shard) mm.worker_id lock_ttl) w
          (ok w.calls))
      ∙ ground arith

  release_shard_lock-delivered :
      (w : World)
      → IsReliable w
      → release_shard_lock R mm w ≡ (
        tt,
        record w {
          store = (lock_step R (Keys.shard_lock mm.shard) (releases mm.worker_id) w.store).1;
          calls = suc w.calls;
        },
      )
  unfolding release_shard_lock lock_step
  release_shard_lock-delivered w ok =
      ap (λ (q : Option ℕ × World). (tt, q.1))
        (call-delivered (lock_release_script R (Keys.shard_lock mm.shard) mm.worker_id) w
          (ok w.calls))

-- The same shard's worker with another identity.
abbrev pub rival_of : MatchMaker → String → MatchMaker
rival_of mm other = record mm { worker_id = other }

module _ (R : Redis) (mm : MatchMaker) where
  -- A worker whose try finds the lock free holds it.
  try_free :
      (w : World)
      → IsReliable w
      → w.store.texts (Keys.shard_lock mm.shard) ≡ none
      → let (got, u) = attempt_lock R mm w in
        (got ≡ held)
        × (u.store.texts (Keys.shard_lock mm.shard) ≡ some mm.worker_id)
        × (u.net ≡ w.net)
  try_free w ok free =
      let (got, text) = acquire_free R (Keys.shard_lock mm.shard) mm.worker_id w.store free in
      rw (attempt_lock-delivered R mm w ok, got) (refl, text, refl)

  renewal_held :
      (w : World)
      → IsReliable w
      → w.store.texts (Keys.shard_lock mm.shard) ≡ some mm.worker_id
      → let (kept, u) = renew_lock R mm w in
        (kept ≡ held)
        × (u.store.texts (Keys.shard_lock mm.shard) ≡ some mm.worker_id)
        × (u.net ≡ w.net)
  renewal_held w ok mine =
      let (kept, text) = renew_held R (Keys.shard_lock mm.shard) mm.worker_id w.store mine in
      rw (renew_lock-delivered R mm w ok, kept) (refl, text, refl)

  rival_refused :
      (other : String) (w : World)
      → IsReliable w
      → w.store.texts (Keys.shard_lock mm.shard) ≡ some mm.worker_id
      → other ≢ mm.worker_id
      → let rival = rival_of mm other in
        ((attempt_lock R rival w).0 ≡ taken)
        × ((attempt_lock R rival w).1.store ≡ w.store)
        × ((renew_lock R rival w).0 ≡ taken)
        × ((renew_lock R rival w).1.store ≡ w.store)
  rival_refused other w ok mine foreign =
      let rival = rival_of mm other in
      let key = Keys.shard_lock mm.shard in
      let tried = lock_step-refused R key mm.worker_id (acquires other) w.store mine foreign in
      let renewed = lock_step-refused R key mm.worker_id (renews other) w.store mine foreign in
      rw (attempt_lock-delivered R rival w ok, renew_lock-delivered R rival w ok, tried, renewed)
        (refl, refl, refl, refl)

  -- When every round trip is delivered and the shard lock is free, a worker takes it and renews it;
  -- while it holds the lock, a worker of the shard with another identity is refused in its try and
  -- in its renewal, which change nothing; and after the owner has released it, the lock is free.
  pub attempt_lock-renew_lock :
      (other : String) (w : World)
      → IsReliable w
      → w.store.texts (Keys.shard_lock mm.shard) ≡ none
      → other ≢ mm.worker_id
      → let rival = rival_of mm other in
        let (got, u) = attempt_lock R mm w in
        let (kept, v) = renew_lock R mm u in
        let x = (release_shard_lock R mm v).1 in
        (got ≡ held)
        × (kept ≡ held)
        × ((attempt_lock R rival v).0 ≡ taken)
        × ((attempt_lock R rival v).1.store ≡ v.store)
        × ((renew_lock R rival v).0 ≡ taken)
        × ((renew_lock R rival v).1.store ≡ v.store)
        × (x.store.texts (Keys.shard_lock mm.shard) ≡ none)
  attempt_lock-renew_lock other w ok free foreign =
      let (got, u) = attempt_lock R mm w in
      let (kept, v) = renew_lock R mm u in
      let (is_got, mine, net_u) = try_free w ok free in
      let ok_u : IsReliable u = λ n. ap (λ (f : ℕ → Delivery). f n) net_u ∙ ok n in
      let (is_kept, still, net_v) = renewal_held u ok_u mine in
      let ok_v : IsReliable v = λ n. ap (λ (f : ℕ → Delivery). f n) net_v ∙ ok_u n in
      let (a, b, c, d) = rival_refused other v ok_v still foreign in
      let (_, gone) = release_held R (Keys.shard_lock mm.shard) mm.worker_id v.store still in
      (
        is_got,
        is_kept,
        a,
        b,
        c,
        d,
        ap (λ (q : Unit {0} × World). q.1.store.texts (Keys.shard_lock mm.shard))
              (release_shard_lock-delivered R mm v ok_v)
            ∙ gone,
      )
