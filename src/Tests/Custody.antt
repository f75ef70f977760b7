-- ===== src/Tests/Custody.antt =====
-- A worker with a buffered entry pops a batch, and the reply to its commit is lost; or it re-pushes
-- the entry over a connection that breaks.
use matchmaking.Shared.{true, ◌≡◌, ◌⊎◌, ◌≤◌, ℕ, eqb, if◌then◌else◌, refl, [], ◌∷◌, arith, eq_iff}
use matchmaking.Tests.Codec.{codec, player, shard}
use matchmaking.Tests.Worker.{pair_maker, open_world}
use matchmaking.Effects.{request_lost, World, Delivery, delivered, reply_lost}
use matchmaking.Redis.{contains, Keyspace, put}
use matchmaking.Redis.Scores.{score_of}
use matchmaking.Redis.Memory.{memory}
use matchmaking.Keys
use matchmaking.Worker.Select.{BufferedEntry}
use matchmaking.Worker.Pop.{repush_group, members}
use matchmaking.Worker.Pop.Holding.{Holds}
use matchmaking.Worker.Pop.Occurs.{occurs}
use matchmaking.Worker.Pop.Repush.{IsQueued, IsProcessed, repush_group-IsKept}
use matchmaking.Worker.Pop.Custody.{IsCustodian}
use matchmaking.Worker.Start.{pop_rounds}
use matchmaking.Worker.Start.Rounds.{pop_rounds-IsCustodian}

abbrev waiting : BufferedEntry
waiting = record { entry = player; member = "9"; score = 4000 }

abbrev held_store : Keyspace
held_store = record open_world.store {
  zsets =
      put open_world.store.zsets (Keys.processing shard)
        (record { member = "9"; score = 4000 } ∷ []);
}

abbrev lossy : ℕ → Delivery
lossy n = if eqb n 2 then reply_lost else delivered

abbrev lossy_world : World
lossy_world = record open_world { store = held_store; net = lossy }

waiting-Holds : Holds shard (members (waiting ∷ [])) lossy_world.store
unfolding Keys.queue Keys.processing Keys.hash_tag score_of
waiting-Holds = (
  (λ m. ground arith),
  record {
    unique = (refl, (refl, tt));
    apart = λ m h.
        grind (arith, h, eq_iff m "7", eq_iff m "8", eq_iff m "9", eq_iff "7" "9", eq_iff "8" "9");
    held = λ m h. ground (arith, h, eq_iff m "9");
  },
)

pop_rounds-IsCustodian_example :
    let (p, v) = pop_rounds memory pair_maker codec 2 (waiting ∷ []) lossy_world in
    IsCustodian shard p v.store
pop_rounds-IsCustodian_example =
    pop_rounds-IsCustodian memory pair_maker codec 2 (waiting ∷ []) lossy_world (omega arith)
      waiting-Holds

nine_waits : contains "9" (members (waiting ∷ [])) ≡ true
unfolding contains
nine_waits = refl

nine_held : 1 ≤ occurs "9" (members (waiting ∷ []))
nine_held = omega arith

-- The connection is lost behind the first command of the pipeline.
abbrev torn_world : World
torn_world = record lossy_world { net = λ n. if eqb n 0 then delivered else request_lost }

repush_group-IsKept_example :
    let t = (repush_group memory pair_maker (waiting ∷ []) torn_world).1.store in
    IsQueued memory pair_maker "9" t ⊎ IsProcessed memory pair_maker "9" t
repush_group-IsKept_example =
    repush_group-IsKept memory pair_maker (waiting ∷ []) "9" torn_world nine_waits
      (waiting-Holds.1.held "9" nine_held)
