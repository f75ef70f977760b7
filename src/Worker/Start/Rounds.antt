-- ===== src/Worker/Start/Rounds.antt =====
-- popLoop of internal/worker/worker.go: the rounds of popOnce, one after the other.
use matchmaking.Shared.{ℕ, zero, suc, ◌<◌, List}
use matchmaking.Json.{Json}
use matchmaking.Redis.{Redis}
use matchmaking.Effects.{World, M}
use matchmaking.Worker.Select.{BufferedEntry}
use matchmaking.Worker.Pop.{MatchMaker, Popped, returned, panicked, out_of_fuel, members, pop_once}
use matchmaking.Worker.Pop.Holding.{Holds}
use matchmaking.Worker.Pop.Custody.{IsCustodian, pop_once-IsCustodian}
use matchmaking.Worker.Start.{after_pop, pop_rounds}

module _ (R : Redis) (mm : MatchMaker) (J : Json) where
  after_pop-IsCustodian :
      (continue : List BufferedEntry → M Popped) (p : Popped) (w : World)
      → ((buffer : List BufferedEntry) (v : World)
          → Holds mm.shard (members buffer) v.store
          → let (q, u) = continue buffer v in IsCustodian mm.shard q u.store)
      → IsCustodian mm.shard p w.store
      → let (q, u) = after_pop R mm J continue p w in IsCustodian mm.shard q u.store
  unfolding after_pop
  after_pop-IsCustodian continue (returned buffer) w more h = more buffer w h
  after_pop-IsCustodian continue (Popped.failed buffer) w more h = h
  after_pop-IsCustodian continue panicked w more h = h
  after_pop-IsCustodian continue out_of_fuel w more h = h

  -- With a positive match size, however many rounds popLoop makes, whatever becomes of their round
  -- trips and wherever a pipeline of repushGroup breaks off, it comes back with a buffer, or a
  -- buffer and an error, and keeps the entries in flight: if every member of its buffer stands in
  -- it once, is in processing and is not queued, and no member stands twice in the queue, the same
  -- holds of the buffer and the store that it leaves.
  pub pop_rounds-IsCustodian :
      (rounds : ℕ) (buffer : List BufferedEntry) (w : World)
      → 0 < mm.match_size
      → Holds mm.shard (members buffer) w.store
      → let (p, v) = pop_rounds R mm J rounds buffer w in IsCustodian mm.shard p v.store
  unfolding pop_rounds
  pop_rounds-IsCustodian zero buffer w size h = h
  pop_rounds-IsCustodian (suc rounds) buffer w size h =
      let (p, v) = pop_once R mm J buffer w in
      after_pop-IsCustodian (pop_rounds R mm J rounds) p v
        (λ next u. pop_rounds-IsCustodian rounds next u size)
        (pop_once-IsCustodian R mm J buffer w size h)
