-- ===== src/Api.antt =====
-- internal/api/handler.go: the HTTP handlers. A request is its decoded body, or nothing when the
-- body does not decode; a field that is missing decodes to the empty text.
pub mod Scripts
pub mod Handlers
use matchmaking.Shared.{
  ℕ, zero, suc, String, Bool, true, false, not, ◌||◌, Option, none, some, [], ◌∷◌, eqb, str_eq,
  length, if◌then◌else◌,
}
use matchmaking.Shared.Int.{ℤ, pos, negsuc, wrap32}
use matchmaking.Shared.Decimal.{parse_int}
use matchmaking.Model.{Shard, QueueEntry, Match, status_confirmed, status_dissolved}
use matchmaking.Json.{Json}
use matchmaking.Redis.{Redis}
use matchmaking.Effects.{M, pure, call, query, now, ◌>>=◌, ◌>>◌}
use matchmaking.Keys
use matchmaking.Cache.{Loaded, load_failed, unknown, known, get_int}
use matchmaking.Queue
use matchmaking.Queue.{JoinError, Lookup}
use matchmaking.Matchops.{confirm, dissolve}
use Scripts.{accept_script, decline_script}

abbrev pub response_ttl : ℕ
response_ttl = 600

abbrev pub rating_cache_ttl : ℕ
rating_cache_ttl = 300

-- The body of a join and of a cancellation.
pub record QueueRequest : Type 0 where
  pub player_id : String
  pub region : String
  pub mode : String

-- The status of a response, with the match where there is one.
pub data Response : Type 0 where
  no_content bad_request not_found conflict gone server_error : Response
  ok : Match → Response

abbrev pub is_empty : String → Bool
is_empty text = str_eq text ""

-- body.PlayerID == "" || body.Region == "" || body.Mode == ""
unfoldable pub is_incomplete : QueueRequest → Bool
is_incomplete b = is_empty b.player_id || is_empty b.region || is_empty b.mode

-- The shard of a request, which has no rating band.
abbrev pub shard_of : QueueRequest → Shard
shard_of b = record { region = b.region; mode = b.mode; rating_band = "" }

-- The body with the match's answer to a player, if it names one.
unfoldable pub with_player : Option String → (String → M Response) → M Response
with_player none handle = pure bad_request
with_player (some player_id) handle =
    if is_empty player_id then pure bad_request else handle player_id

unfoldable pub with_request : Option QueueRequest → (QueueRequest → M Response) → M Response
unfolding is_incomplete
with_request none handle = pure bad_request
with_request (some b) handle = if is_incomplete b then pure bad_request else handle b

module _ (R : Redis) (J : Json) where
  -- The part of join behind the rating.
  unfoldable pub enqueue : QueueRequest → Loaded → M Response
  unfolding wrap32 now
  enqueue b load_failed = pure server_error
  enqueue b unknown = pure not_found
  enqueue b (known rating) = do
    at ← now
    let entry : QueueEntry = record {
      player_id = b.player_id;
      rating = wrap32 rating;
      enqueued_at = at;
    }
    error ← Queue.join R J (shard_of b) entry
    elim error [ none ↦ pure no_content | some _ ↦ pure server_error ]

  -- The part of join behind the test of the body. `get_rating` is the store's GetRating, whose
  -- player is an int32.
  unfoldable pub join_request : (ℤ → String → M Loaded) → QueueRequest → M Response
  unfolding wrap32 enqueue
  join_request get_rating b = elim (parse_int b.player_id) [
    | none ↦ pure bad_request
    | some id ↦
        get_int R (Keys.player_rating b.player_id b.mode) rating_cache_ttl
          (get_rating (wrap32 id) b.mode)
        >>= enqueue b
  ]

  -- Handler.join
  unfoldable pub join : (ℤ → String → M Loaded) → Option QueueRequest → M Response
  unfolding with_request join_request
  join get_rating body = with_request body (join_request get_rating)

  -- Handler.cancel
  unfoldable pub cancel : Option QueueRequest → M Response
  unfolding with_request
  cancel body = with_request body λ b. Queue.cancel R (shard_of b) b.player_id >>= λ done.
      pure (if done then no_content else server_error)

  unfoldable pub response_of : Lookup → Response
  response_of Lookup.failed = server_error
  response_of Lookup.absent = not_found
  response_of (Lookup.present match) = ok match

  -- Handler.matchStatus
  unfoldable pub match_status : String → M Response
  unfolding response_of
  match_status match_id = Queue.get_match R J match_id >>= λ found. pure (response_of found)

  -- The answer to an acceptance of a match that is not forming. An error reads as no status.
  unfoldable pub response_to_status : Option (Option String) → Response
  response_to_status (some (some status)) =
      if str_eq status status_confirmed
      then no_content
      else if str_eq status status_dissolved
      then gone
      else not_found
  response_to_status _ = not_found

  -- What follows acceptScript.
  unfoldable pub after_accept : Bool → String → Match → Option ℤ → M Response
  unfolding query response_to_status
  after_accept has_store match_id match none = pure server_error
  after_accept has_store match_id match (some (negsuc zero)) =
      query (R.get (Keys.match_status_key match_id)) >>= λ status. pure (response_to_status status)
  after_accept has_store match_id match (some (negsuc (suc zero))) = pure conflict
  after_accept has_store match_id match (some (negsuc (suc (suc _)))) = pure no_content
  after_accept has_store match_id match (some (pos count)) =
      if eqb count (length match.player_ids)
      then confirm R J has_store match_id >> pure no_content
      else pure no_content

  unfoldable pub accept_found : Bool → String → String → Lookup → M Response
  unfolding call after_accept
  accept_found has_store match_id player_id (Lookup.present match) =
      call (
        accept_script R (Keys.match_accepted match_id) (Keys.match_declined match_id)
          (Keys.match_status_key match_id) player_id response_ttl)
      >>= after_accept has_store match_id match
  accept_found has_store match_id player_id _ = pure not_found

  -- Handler.accept
  unfoldable pub accept : Bool → String → Option String → M Response
  unfolding with_player accept_found
  accept has_store match_id body =
      with_player body
        λ player_id. Queue.get_match R J match_id >>= accept_found has_store match_id player_id

  -- What follows declineScript.
  unfoldable pub after_decline : Bool → String → String → Option ℤ → M Response
  after_decline has_store match_id player_id none = pure server_error
  after_decline has_store match_id player_id (some (negsuc zero)) = pure not_found
  after_decline has_store match_id player_id (some (negsuc (suc _))) = pure no_content
  after_decline has_store match_id player_id (some (pos added)) =
      if eqb added 1
      then dissolve R J has_store match_id player_id >> pure no_content
      else pure no_content

  -- Handler.decline
  unfoldable pub decline : Bool → String → Option String → M Response
  unfolding with_player call after_decline
  decline has_store match_id body = with_player body λ player_id.
      call (
        decline_script R (Keys.match_declined match_id) (Keys.match_status_key match_id) player_id
          response_ttl)
      >>= after_decline has_store match_id player_id
