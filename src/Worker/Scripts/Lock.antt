-- ===== src/Worker/Scripts/Lock.antt =====
-- The shard lock: one worker owns a shard.
use matchmaking.Shared.{
  ℕ, String, ◌≡◌, ◌≢◌, refl, Bool, true, false, none, some, List, [], ◌∷◌, arith, eq_iff,
  if◌then◌else◌, All, eqb, ◌||◌,
}
use matchmaking.Redis.{Redis, Keyspace}
use matchmaking.Redis.Frames.{texts-expire, texts-del_self}
use matchmaking.Worker.Scripts.{holds_text, lock_renew_script, lock_release_script}

abbrev pub lock_ttl : ℕ
lock_ttl = 5

-- What a worker does to the lock: SETNX, the renewal and the release.
pub data LockStep : Type 0 where
  acquires renews releases : String → LockStep

abbrev pub worker_of : LockStep → String
worker_of (acquires w) = w
worker_of (renews w) = w
worker_of (releases w) = w

module _ (R : Redis) (key : String) where
  -- One step of acquireShardLock, renewLockLoop or releaseShardLock: whether the server did it.
  unfoldable pub lock_step : LockStep → Keyspace → Bool × Keyspace
  unfolding lock_renew_script lock_release_script
  lock_step (acquires w) s = R.set_nx key w lock_ttl s
  lock_step (renews w) s =
      let (n, t) = lock_renew_script R key w lock_ttl s in (if eqb n 0 then false else true, t)
  lock_step (releases w) s =
      let (n, t) = lock_release_script R key w s in (if eqb n 0 then false else true, t)

  -- Whether any step of a sequence was done, and the store after it.
  unfoldable pub lock_steps : List LockStep → Keyspace → Bool × Keyspace
  lock_steps [] s = (false, s)
  lock_steps (step ∷ more) s =
      let (done, t) = lock_step step s in let (any, u) = lock_steps more t in (done || any, u)

  -- A step of another worker is refused and changes nothing while the lock is held.
  pub lock_step-refused :
      (owner : String) (step : LockStep) (s : Keyspace)
      → s.texts key ≡ some owner
      → worker_of step ≢ owner
      → lock_step step s ≡ (false, s)
  unfolding lock_step holds_text
  lock_step-refused owner (acquires w) s held other = rw (R.set_nx_lem, held)
  lock_step-refused owner (renews w) s held other = ground (arith, R.get_lem key s, eq_iff owner w)
  lock_step-refused owner (releases w) s held other =
      ground (arith, R.get_lem key s, eq_iff owner w)

  -- While a worker holds the shard lock, whatever the other workers try, and in whatever order, is
  -- refused and leaves the store as it is.
  pub lock_steps-refused :
      (owner : String) (steps : List LockStep) (s : Keyspace)
      → s.texts key ≡ some owner
      → All (λ step. worker_of step ≢ owner) steps
      → lock_steps steps s ≡ (false, s)
  unfolding lock_steps
  lock_steps-refused owner [] s held others = refl
  lock_steps-refused owner (step ∷ more) s held (other, others) = ground (
    arith,
    lock_step-refused owner step s held other,
    lock_steps-refused owner more s held others,
  )

  pub acquire_free :
      (owner : String) (s : Keyspace)
      → s.texts key ≡ none
      → ((lock_step (acquires owner) s).0 ≡ true)
        × ((lock_step (acquires owner) s).1.texts key ≡ some owner)
  unfolding lock_step
  acquire_free owner s free = rw (R.set_nx_lem, free) (refl, ground (arith, eq_iff key key))

  pub renew_held :
      (owner : String) (s : Keyspace)
      → s.texts key ≡ some owner
      → ((lock_step (renews owner) s).0 ≡ true)
        × ((lock_step (renews owner) s).1.texts key ≡ some owner)
  unfolding lock_step holds_text
  renew_held owner s held =
      ground (arith, R.get_lem key s, eq_iff owner owner, texts-expire R key lock_ttl s)

  pub release_held :
      (owner : String) (s : Keyspace)
      → s.texts key ≡ some owner
      → ((lock_step (releases owner) s).0 ≡ true)
        × ((lock_step (releases owner) s).1.texts key ≡ none)
  unfolding lock_step holds_text
  release_held owner s held =
      ground (arith, R.get_lem key s, eq_iff owner owner, texts-del_self R key s)
