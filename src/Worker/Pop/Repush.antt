-- ===== src/Worker/Pop/Repush.antt =====
-- repushGroup of internal/worker/worker.go, wherever its pipeline breaks off.
use matchmaking.Shared.{
  ℕ, suc, String, ◌≡◌, ◌⊎◌, refl, true, ◌||◌, List, [], ◌∷◌, arith, str_eq, eq_iff, inl, inr,
  Bool-cases, All,
}
use matchmaking.Redis.{Redis, Keyspace, Scored, contains}
use matchmaking.Redis.Scores.{score_of-with_scored}
use matchmaking.Redis.Frames.{zsets-zadd, zsets-zrem}
use matchmaking.Effects.{
  World, Delivery, delivered, request_lost, reply_lost, pipeline, pipeline-keeps,
}
use matchmaking.Keys
use matchmaking.Keys.Disjoint.{queue-ne-processing}
use matchmaking.Worker.Select.{BufferedEntry}
use matchmaking.Worker.Pop.{MatchMaker, members, repush_group, repush_commands}
use matchmaking.Worker.Pop.Occurs.{listed}

module _ (R : Redis) (mm : MatchMaker) where
  abbrev pub IsQueued : String → Keyspace → Type 0
  IsQueued m s = listed m (s.zsets (Keys.queue mm.shard)) ≡ true

  abbrev pub IsProcessed : String → Keyspace → Type 0
  IsProcessed m s = listed m (s.zsets (Keys.processing mm.shard)) ≡ true

  listed-zadd :
      (m j : String) (score : ℕ) (s : Keyspace)
      → listed m ((R.zadd (Keys.queue mm.shard) score j s).zsets (Keys.queue mm.shard))
        ≡ (str_eq m j || listed m (s.zsets (Keys.queue mm.shard)))
  listed-zadd m j score s =
      let queue = Keys.queue mm.shard in
      ground (
        arith,
        zsets-zadd R queue score j s queue,
        eq_iff queue queue,
        score_of-with_scored m (record { member = j; score = score }) (s.zsets queue),
      )

  zadd-IsProcessed :
      (m j : String) (score : ℕ) (s : Keyspace)
      → IsProcessed m s
      → IsProcessed m (R.zadd (Keys.queue mm.shard) score j s)
  zadd-IsProcessed m j score s h =
      let queue = Keys.queue mm.shard in
      let processing = Keys.processing mm.shard in
      ground (
        arith,
        h,
        zsets-zadd R queue score j s processing,
        eq_iff queue processing,
        queue-ne-processing mm.shard,
      )

  -- Who is queued stays queued.
  repush_commands-IsQueued :
      (m : String) (group : List BufferedEntry) (last : Keyspace → Keyspace)
      → ((s : Keyspace) → IsQueued m s → IsQueued m (last s))
      → All
          (λ f. (s : Keyspace) → IsQueued m s → IsQueued m (f s))
          (repush_commands R mm group last)
  unfolding repush_commands
  repush_commands-IsQueued m [] last keeps = (keeps, tt)
  repush_commands-IsQueued m (be ∷ group) last keeps = (
    (λ s h. ground (arith, h, listed-zadd m be.member be.score s)),
    repush_commands-IsQueued m group last keeps,
  )

  -- Somebody of the group who has not been queued yet is in processing.
  pipeline-IsKept :
      (m : String) (group : List BufferedEntry) (last : Keyspace → Keyspace) (w : World)
      → ((s : Keyspace) → IsQueued m s → IsQueued m (last s))
      → contains m (members group) ≡ true
      → IsProcessed m w.store
      → let t = (pipeline (repush_commands R mm group last) w).1.store in
        IsQueued m t ⊎ IsProcessed m t
  unfolding repush_commands contains pipeline matchmaking.Redis.Scores.score_of
  pipeline-IsKept m [] last w keeps in_group here = absurd (ground (arith, in_group))
  pipeline-IsKept m (be ∷ group) last w keeps in_group here =
      let next : World = record w {
        store = R.zadd (Keys.queue mm.shard) be.score be.member w.store;
        calls = suc w.calls;
      } in
      let after = (pipeline (repush_commands R mm group last) next).1.store in
      of_fate (w.net w.calls) refl (elim (Bool-cases (str_eq m be.member)) [
        | inl same ↦ inl (
            pipeline-keeps (IsQueued m) (repush_commands R mm group last) next
              (repush_commands-IsQueued m group last keeps)
              (ground (arith, same, listed-zadd m be.member be.score w.store)))
        | inr other ↦
            pipeline-IsKept m group last next keeps (ground (arith, in_group, other))
              (zadd-IsProcessed m be.member be.score w.store here)
      ])
    where
      of_fate :
          (d : Delivery)
          → w.net w.calls ≡ d
          → (let next : World = record w {
            store = R.zadd (Keys.queue mm.shard) be.score be.member w.store;
            calls = suc w.calls;
          } in
              let t = (pipeline (repush_commands R mm group last) next).1.store in
              IsQueued m t ⊎ IsProcessed m t)
          → let t = (pipeline (repush_commands R mm (be ∷ group) last) w).1.store in
            IsQueued m t ⊎ IsProcessed m t
      of_fate delivered e rest = rw (pipeline, e) rest
      of_fate request_lost e rest = rw (pipeline, e) (inr here)
      of_fate reply_lost e rest = rw (pipeline, e) rest

  -- Wherever the pipeline of repushGroup breaks off, nobody of the group is lost: a member of it
  -- that was in processing is afterwards queued or still in processing.
  pub repush_group-IsKept :
      (group : List BufferedEntry) (m : String) (w : World)
      → contains m (members group) ≡ true
      → IsProcessed m w.store
      → let t = (repush_group R mm group w).1.store in IsQueued m t ⊎ IsProcessed m t
  unfolding repush_group
  repush_group-IsKept group m w in_group here =
      let queue = Keys.queue mm.shard in
      let processing = Keys.processing mm.shard in
      pipeline-IsKept m group (R.zrem processing (members group)) w
        (λ s h. ground (
          arith,
          h,
          zsets-zrem R processing (members group) s queue,
          eq_iff processing queue,
          queue-ne-processing mm.shard,
        ))
        in_group here
