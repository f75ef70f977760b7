-- ===== src/Tests/Queue.antt =====
-- One player joins the queue of an empty store and leaves it again.
use mathlib.Core.List.{Mem}
use matchmaking.Shared.{◌∷◌, ◌≡◌, ◌≢◌, refl, none, some, true, []}
use matchmaking.Shared.Int.{pos}
use matchmaking.Tests.Codec.{codec, player, shard, encode_player}
use matchmaking.Redis.{put}
use matchmaking.Redis.Memory.{memory, empty}
use matchmaking.Effects.{World, delivered}
use matchmaking.Keys
use matchmaking.Queue.{JoinError, join, cancel, queue_shard}
use matchmaking.Queue.Band.{compute_rating_band, band_bounds, compute_rating_band-mem, rating_bands}
use matchmaking.Queue.Join.{Joins, Cancels, join-ne-player_cancelled, join-Joins, cancel-Cancels}

-- Every round trip is delivered, and the clock stands.
abbrev pub start : World
start = record {
  store = empty;
  net = λ n. delivered;
  calls = 0;
  clock = λ n. 8000000000;
  reads = 0;
  published = [];
  tasks = [];
  match_seq = 0;
}

compute_rating_band-mem_example : Mem (compute_rating_band (pos 1250)) rating_bands
compute_rating_band-mem_example = compute_rating_band-mem (pos 1250)

join-ne-player_cancelled_example :
    (join memory codec shard player start).0 ≢ some JoinError.player_cancelled
join-ne-player_cancelled_example = join-ne-player_cancelled memory codec shard player start

-- Player 7 has a pending cancellation.
abbrev cancelled_start : World
cancelled_start = record start {
  store = record empty {
    sets = put empty.sets (Keys.cancelled (queue_shard shard player)) ("7" ∷ []);
  };
}

join-Joins_example :
    let s = queue_shard shard player in
    let (error, v) = join memory codec shard player cancelled_start in
    (error ≡ none)
    × Joins (Keys.queue s) (Keys.in_queue s) "7" "7" 5000 cancelled_start.store v.store
    × (v.store.sets (Keys.cancelled s) ≡ cancelled_start.store.sets (Keys.cancelled s))
join-Joins_example = join-Joins memory codec shard player "7" cancelled_start encode_player refl

cancel-Cancels_example :
    ((cancel memory shard "7" start).0 ≡ true)
    × Cancels
        (Keys.cancelled shard)
        (Keys.in_queue shard)
        "7"
        start.store
        (cancel memory shard "7" start).1.store
cancel-Cancels_example = cancel-Cancels memory shard "7" start refl

-- The band of a join is the one that the worker of the first band serves.
joined_band : compute_rating_band (pos 1250) ≡ "1000-1300"
unfolding compute_rating_band band_bounds
joined_band = refl
