-- ===== src/Tests/Reconciler.antt =====
-- A match that has waited for longer than thirty seconds.
use matchmaking.Shared.{◌≡◌, refl, [], ◌∷◌}
use matchmaking.Tests.Codec.{codec, formed, shard}
use matchmaking.Tests.Matchops.{recorded_world}
use matchmaking.Effects.{World, match_dissolved}
use matchmaking.Redis.{put}
use matchmaking.Redis.Memory.{memory}
use matchmaking.Keys
use matchmaking.Reconciler.{run}
use matchmaking.Reconciler.Reports.{Reports, run-Reports}

abbrev late_world : World
late_world = record recorded_world {
  store = record recorded_world.store {
    zsets =
        put recorded_world.store.zsets (Keys.forming_matches shard)
          (record { member = formed.id; score = 5000 } ∷ []);
  };
  clock = λ n. 40000000000;
}

late_dissolved :
    (run memory codec 2 (shard ∷ []) late_world).1.published
    ≡ match_dissolved formed.id formed.player_ids ∷ []
unfolding run matchmaking.Reconciler.process_timed_out matchmaking.Reconciler.deadline
    matchmaking.Reconciler.process_shards matchmaking.Reconciler.process_shard
    matchmaking.Reconciler.dissolve_each matchmaking.Reconciler.overdue
    matchmaking.Matchops.dissolve matchmaking.Matchops.read_match Keys.forming_matches Keys.hash_tag
    Keys.match_key Keys.match_status_key matchmaking.Matchops.dissolve_found
    matchmaking.Matchops.dissolve_with matchmaking.Matchops.after_dissolve
    matchmaking.Matchops.Scripts.dissolve_script matchmaking.Tests.Codec.same_match
    matchmaking.Tests.Codec.same_entry matchmaking.Redis.without_scored
    matchmaking.Redis.with_scored matchmaking.Redis.in_score_range Keys.queue
late_dissolved = refl

run-Reports_example : Reports late_world (run memory codec 2 (shard ∷ []) late_world).1
run-Reports_example = run-Reports memory codec 2 (shard ∷ []) late_world
