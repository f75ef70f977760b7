-- ===== src/Hub.antt =====
-- internal/hub/hub.go: the table of connected players, which one goroutine owns, and the
-- goroutines that turn published events into frames.
pub mod Channels
pub mod Replay
pub mod Pumps
pub mod Loop
use matchmaking.Shared.{
  ℕ, String, Bool, true, false, Option, none, some, List, [], ◌∷◌, ◌++◌, eqb, str_eq, if◌then◌else◌,
}
use matchmaking.Model.{status_forming}
use matchmaking.Redis.{Redis, Keyspace, put}
use matchmaking.Effects.{
  pipeline, Event, match_forming, match_confirmed, match_dissolved, match_server_ready, M, pure,
  command, query, ◌>>=◌, ◌>>◌,
}
use matchmaking.Keys
use matchmaking.Matchops.Scripts.{is_forming}

-- A connection. Its identity stands for the pointer, and for its send channel.
pub record Client : Type 0 where
  pub id : ℕ
  pub player_id : String

-- The hub's clients, and the send channels that have been closed.
pub record Hub : Type 0 where
  pub clients : String → Option Client
  pub closed : List ℕ

abbrev pub closes : ℕ → List ℕ → Bool
closes id [] = false
closes id (j ∷ js) = let rest = closes id js in if eqb id j then true else rest

-- close(c.send); `none` is the panic on a channel that is closed already.
unfoldable pub close_send : Client → Hub → Option Hub
close_send c h = if closes c.id h.closed then none else some (record h { closed = c.id ∷ h.closed })

abbrev pub set_client : String → Option Client → Hub → Hub
set_client player_id c h = record h { clients = put h.clients player_id c }

abbrev pub then_set : String → Option Client → Option Hub → Option Hub
then_set player_id c none = none
then_set player_id c (some h) = some (set_client player_id c h)

-- case c := <-h.register. An older connection of the player is closed.
unfoldable pub register : Client → Hub → Option Hub
unfolding close_send
register c h = elim (h.clients c.player_id) [
  | none ↦ some (set_client c.player_id (some c) h)
  | some old ↦
      let closed = then_set c.player_id (some c) (close_send old h) in
      if eqb old.id c.id then some (set_client c.player_id (some c) h) else closed
]

-- case c := <-h.unregister. The order of delete and close does not matter to the result.
unfoldable pub unregister : Client → Hub → Option Hub
unfolding close_send
unregister c h = elim (h.clients c.player_id) [
  | none ↦ some h
  | some current ↦
      let closed = then_set c.player_id none (close_send c h) in
      if eqb current.id c.id then closed else some h
]

-- fanOutDirect: the connections that a frame is sent to.
unfoldable pub recipients : List String → Hub → List Client
recipients [] h = []
recipients (p ∷ ps) h =
    let rest = recipients ps h in elim (h.clients p) [ none ↦ rest | some c ↦ c ∷ rest ]

-- wsEvent, with the fields that its type uses.
pub data Frame : Type 0 where
  found : String → List String → Frame
  confirmed dissolved : String → Frame
  server_ready : String → String → Frame

pub record Fanout : Type 0 where
  pub player_ids : List String
  pub frame : String

-- encoding/json on wsEvent, as a parameter; what is read back is the match id.
pub record FrameJson : Type 0 where
  pub encode : Frame → String
  pub match_id_of : String → Option String

abbrev pub pending_event_ttl : ℕ
pending_event_ttl = 35

module _ (R : Redis) (F : FrameJson) where
  -- The pipelines of processEvent; an empty one makes no round trip.
  unfoldable pub set_pending : String → List String → List (Keyspace → Keyspace)
  set_pending frame [] = []
  set_pending frame (p ∷ ps) =
      R.set_ex (Keys.pending_match_event p) frame pending_event_ttl ∷ set_pending frame ps

  unfoldable pub clear_pending : List String → List (Keyspace → Keyspace)
  clear_pending [] = []
  clear_pending (p ∷ ps) = R.del (Keys.pending_match_event p) ∷ clear_pending ps

  -- processEvent: what goes to the fan-out. The error of a pipeline is not read. A payload that does not decode is `none`.
  unfoldable pub process_event : Option Event → M (Option Fanout)
  unfolding pipeline set_pending clear_pending
  process_event none = pure none
  process_event (some (match_forming id players)) =
      let frame = F.encode (found id players) in
      pipeline (set_pending frame players)
      >> pure (some (record { player_ids = players; frame = frame }))
  process_event (some (match_confirmed id players)) =
      pipeline (clear_pending players)
      >> pure (some (record { player_ids = players; frame = F.encode (confirmed id) }))
  process_event (some (match_dissolved id players)) =
      pipeline (clear_pending players)
      >> pure (some (record { player_ids = players; frame = F.encode (dissolved id) }))
  process_event (some (match_server_ready id address players)) =
      pure (some (record { player_ids = players; frame = F.encode (server_ready id address) }))

  -- An error reads as no status.
  unfoldable pub still_forming : Option (Option String) → Bool
  unfolding is_forming
  still_forming none = false
  still_forming (some status) = is_forming status

  unfoldable pub after_status : String → String → Bool → M (Option String)
  unfolding command
  after_status player_id frame true = pure (some frame)
  after_status player_id frame false =
      command (R.del (Keys.pending_match_event player_id)) >> pure none

  -- What follows the decoding of a pending frame.
  unfoldable pub after_decode : String → String → Option String → M (Option String)
  unfolding query still_forming after_status
  after_decode player_id frame none = pure none
  after_decode player_id frame (some match_id) =
      if str_eq match_id ""
      then pure none
      else (query (R.get (Keys.match_status_key match_id)) >>= λ status.
          after_status player_id frame (still_forming status))

  unfoldable pub after_pending : String → Option (Option String) → M (Option String)
  unfolding after_decode
  after_pending player_id (some (some frame)) = after_decode player_id frame (F.match_id_of frame)
  after_pending player_id _ = pure none

  -- replayPending: the frame that goes to the connection of the player, if any.
  unfoldable pub replay_pending : String → M (Option String)
  unfolding query after_pending
  replay_pending player_id =
      query (R.get (Keys.pending_match_event player_id)) >>= after_pending player_id
