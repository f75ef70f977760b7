-- ===== src/Worker/Start.antt =====
-- MatchMaker.Run of internal/worker/worker.go up to its loops, and popLoop.
pub mod Recovers
pub mod Rounds
use matchmaking.Shared.{ℕ, zero, suc, String, Bool, true, false, Option, List, [], length}
use matchmaking.Json.{Json}
use matchmaking.Redis.{Redis}
use matchmaking.Redis.Groups.{Groups}
use matchmaking.Effects.{World, M, pure, ◌>>=◌}
use matchmaking.Worker.Select.{BufferedEntry}
use matchmaking.Worker.Pop.{MatchMaker, Popped, returned, panicked, out_of_fuel, pop_once}
use matchmaking.Worker.Owner.{
  Held, held, taken, errored, attempt_lock, release_shard_lock, drain_processing,
}
use matchmaking.Worker.Stream.{
  Consumer, Claim, claimed, ensure_stream_group, claim_stale_stream_entries,
}

-- The worker's side of the keyspace, and its side of the match stream and of PostgreSQL.
pub record Process : Type 0 where
  pub world : World
  pub consumer : Consumer

-- How the start ends: still waiting for the lock, with an error, or with the loops running.
pub data Started : Type 0 where
  waiting lock_failed group_failed claim_failed drain_failed running : Started

module _ (R : Redis) (mm : MatchMaker) where
  unfoldable pub after_attempt : M Held → Held → M Held
  after_attempt again held = pure held
  after_attempt again taken = again
  after_attempt again errored = pure errored

  -- So many tries of acquireShardLock. A context that is cancelled is an error of the next try.
  unfoldable pub acquire_shard_lock : ℕ → M Held
  unfolding attempt_lock after_attempt
  acquire_shard_lock zero = pure taken
  acquire_shard_lock (suc tries) = attempt_lock R mm >>= after_attempt (acquire_shard_lock tries)

  module _ (G : Groups) (J : Json) (data_of : ℕ → Option String) where
    -- defer m.releaseShardLock()
    unfoldable pub give_up : Started → Process → Started × Process
    unfolding release_shard_lock
    give_up why p = (why, record p { world = (release_shard_lock R mm p.world).1 })

    unfoldable pub after_drain : Bool → Process → Started × Process
    unfolding give_up
    after_drain true p = (running, p)
    after_drain false p = give_up drain_failed p

    unfoldable pub drain : Process → Started × Process
    unfolding drain_processing after_drain
    drain p = let (ok, w) = drain_processing R mm p.world in after_drain ok (record p { world = w })

    unfoldable pub after_claiming : Claim → Process → Started × Process
    unfolding drain give_up
    after_claiming claimed p = drain p
    after_claiming _ p = give_up claim_failed p

    -- claimStaleStreamEntries, with one round more than there are pending entries.
    unfoldable pub claim_stale : Process → Started × Process
    unfolding claim_stale_stream_entries after_claiming
    claim_stale p =
        let (r, c) =
          claim_stale_stream_entries G J data_of (suc (length p.consumer.group.pending))
            p.consumer in
        after_claiming r (record p { consumer = c })

    unfoldable pub after_group : Bool → Process → Started × Process
    unfolding claim_stale give_up
    after_group true p = claim_stale p
    after_group false p = give_up group_failed p

    -- if m.st != nil
    unfoldable pub prepare_stream : Bool → Process → Started × Process
    unfolding ensure_stream_group after_group drain
    prepare_stream false p = drain p
    prepare_stream true p =
        let (ok, c) = ensure_stream_group G J data_of p.consumer in
        after_group ok (record p { consumer = c })

    unfoldable pub after_lock : Held → Process → Started × Process
    unfolding prepare_stream
    after_lock held p = prepare_stream mm.has_store p
    after_lock taken p = (waiting, p)
    after_lock errored p = (lock_failed, p)

    -- Run, up to the loops.
    unfoldable pub start : ℕ → Process → Started × Process
    unfolding acquire_shard_lock after_lock
    start tries p =
        let (h, w) = acquire_shard_lock tries p.world in after_lock h (record p { world = w })

  module _ (J : Json) where
    unfoldable pub after_pop : (List BufferedEntry → M Popped) → Popped → M Popped
    after_pop continue (returned buffer) = continue buffer
    after_pop continue (Popped.failed buffer) = pure (Popped.failed buffer)
    after_pop continue panicked = pure panicked
    after_pop continue out_of_fuel = pure out_of_fuel

    -- So many rounds of popLoop, from the buffer that the last one returned.
    unfoldable pub pop_rounds : ℕ → List BufferedEntry → M Popped
    unfolding pop_once after_pop
    pop_rounds zero buffer = pure (returned buffer)
    pop_rounds (suc rounds) buffer = pop_once R mm J buffer >>= after_pop (pop_rounds rounds)

    -- popLoop starts with an empty buffer.
    unfoldable pub pop_loop : ℕ → M Popped
    unfolding pop_rounds
    pop_loop rounds = pop_rounds rounds []
