-- ===== src/Worker/Owner.antt =====
-- The owner of a shard, internal/worker/worker.go: a try of acquireShardLock, a tick of
-- renewLockLoop, releaseShardLock and drainProcessing.
pub mod Tenure
use matchmaking.Shared.{ℕ, Bool, true, false, Option, none, some, eqb, if◌then◌else◌}
use matchmaking.Redis.{Redis}
use matchmaking.Effects.{answered, M, pure, call, ◌>>=◌, ◌>>◌}
use matchmaking.Keys
use matchmaking.Worker.Scripts.{lock_renew_script, lock_release_script, drain_processing_script}
use matchmaking.Worker.Scripts.Lock.{lock_ttl}
use matchmaking.Worker.Pop.{MatchMaker}

-- What a try for the lock and a renewal come to; after `taken` the loop waits and tries again.
pub data Held : Type 0 where
  held taken errored : Held

module _ (R : Redis) (mm : MatchMaker) where
  unfoldable pub held_of_bool : Option Bool → Held
  held_of_bool none = errored
  held_of_bool (some ok) = if ok then held else taken

  -- SetNX in the loop of acquireShardLock.
  unfoldable pub attempt_lock : M Held
  unfolding call held_of_bool
  attempt_lock = call (R.set_nx (Keys.shard_lock mm.shard) mm.worker_id lock_ttl) >>= λ reply.
      pure (held_of_bool reply)

  unfoldable pub held_of_count : Option ℕ → Held
  held_of_count none = errored
  held_of_count (some res) = if eqb res 0 then taken else held

  -- case <-ticker.C of renewLockLoop; `taken` is the error that the lock is lost.
  unfoldable pub renew_lock : M Held
  unfolding call held_of_count
  renew_lock =
      call (lock_renew_script R (Keys.shard_lock mm.shard) mm.worker_id lock_ttl) >>= λ reply.
      pure (held_of_count reply)

  -- releaseShardLock; its error is only logged.
  unfoldable pub release_shard_lock : M (Unit {0})
  unfolding call
  release_shard_lock =
      call (lock_release_script R (Keys.shard_lock mm.shard) mm.worker_id) >> pure tt

  -- drainProcessing; true is the nil error.
  unfoldable pub drain_processing : M Bool
  unfolding call
  drain_processing =
      call (drain_processing_script R (Keys.processing mm.shard) (Keys.queue mm.shard)) >>= λ reply.
      pure (answered reply)
