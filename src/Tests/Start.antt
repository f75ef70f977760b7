-- ===== src/Tests/Start.antt =====
-- A start after a crash that left a player in processing and an entry of the stream pending.
use matchmaking.Shared.{refl, true, [], ◌∷◌, arith}
use matchmaking.Tests.Codec.{codec, shard}
use matchmaking.Tests.Worker.{pair_maker, quiet_world}
use matchmaking.Tests.Stream.{restarted, data_of}
use matchmaking.Redis.{put}
use matchmaking.Redis.Scores.{score_of}
use matchmaking.Redis.Memory.{memory}
use matchmaking.Redis.Groups.{memory_groups}
use matchmaking.Effects.{World}
use matchmaking.Keys
use matchmaking.Worker.Pop.{MatchMaker}
use matchmaking.Worker.Start.{Process, start}
use matchmaking.Worker.Start.Recovers.{Recovers, start-Recovers}

abbrev recording_maker : MatchMaker
recording_maker = record pair_maker { has_store = true }

abbrev crashed_world : World
crashed_world = record quiet_world {
  store = record quiet_world.store {
    zsets =
        put quiet_world.store.zsets (Keys.processing shard)
          (record { member = "9"; score = 9 } ∷ []);
  };
}

abbrev crashed : Process
crashed = record { world = crashed_world; consumer = restarted }

start-Recovers_example :
    let (r, q) = start memory recording_maker memory_groups codec data_of 1 crashed in
    Recovers memory recording_maker memory_groups codec data_of crashed r q
unfolding Keys.processing Keys.shard_lock Keys.hash_tag score_of
start-Recovers_example =
    start-Recovers memory recording_maker memory_groups codec data_of 0 crashed refl (λ n. refl)
      (λ n. refl, λ n. refl) refl (refl, tt) (omega arith)
