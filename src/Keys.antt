-- ===== src/Keys.antt =====
-- internal/rediskeys/keys.go: the Redis keys of the service.
pub mod Disjoint
use matchmaking.Shared.{String, ◌⧺◌}
use matchmaking.Model.{Shard}

-- The hash tag of a region and mode.
unfoldable pub hash_tag : Shard → String
hash_tag s = "{" ⧺ s.region ⧺ "/" ⧺ s.mode ⧺ "}"

unfoldable pub queue : Shard → String
queue s = hash_tag s ⧺ ":q:" ⧺ s.rating_band

unfoldable pub match_key : String → String
match_key id = "match:" ⧺ id

unfoldable pub match_status_key : String → String
match_status_key id = "match:" ⧺ id ⧺ ":status"

unfoldable pub match_accepted : String → String
match_accepted id = "match:" ⧺ id ⧺ ":accepted"

unfoldable pub match_declined : String → String
match_declined id = "match:" ⧺ id ⧺ ":declined"

unfoldable pub shard_lock : Shard → String
shard_lock s = hash_tag s ⧺ ":lock:" ⧺ s.rating_band

unfoldable pub cancelled : Shard → String
cancelled s = hash_tag s ⧺ ":cancelled"

unfoldable pub forming_matches : Shard → String
forming_matches s = hash_tag s ⧺ ":forming:" ⧺ s.rating_band

unfoldable pub match_stream : Shard → String
match_stream s = hash_tag s ⧺ ":match-stream:" ⧺ s.rating_band

unfoldable pub processing : Shard → String
processing s = hash_tag s ⧺ ":processing:" ⧺ s.rating_band

unfoldable pub in_queue : Shard → String
in_queue s = hash_tag s ⧺ ":inqueue"

unfoldable pub pending_match_event : String → String
pending_match_event player_id = "pending:match:" ⧺ player_id

unfoldable pub player_rating : String → String → String
player_rating player_id mode = "rating:" ⧺ player_id ⧺ ":" ⧺ mode
