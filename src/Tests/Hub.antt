-- ===== src/Tests/Hub.antt =====
-- A player reconnects, and is told of the match.
use matchmaking.Shared.{
  ℕ, String, ◌≡◌, ◌≢◌, ◌⊎◌, ◌⧺◌, refl, true, false, Option, none, some, List, [], ◌∷◌, arith,
  eq_iff,
}
use matchmaking.Tests.Codec.{formed}
use matchmaking.Tests.Matchops.{recorded_world}
use matchmaking.Effects.{World, match_forming}
use matchmaking.Redis.{contains, put}
use matchmaking.Redis.Memory.{memory}
use matchmaking.Keys
use matchmaking.Matchops.Scripts.{is_forming}
use matchmaking.Hub.{
  Client, Hub, found, confirmed, dissolved, server_ready, FrameJson, process_event, replay_pending,
}
use matchmaking.Hub.Channels.{
  HubStep, registers, unregisters, hub_steps, IsOpen, no_clients, hub_steps-IsOpen,
}
use matchmaking.Hub.Replay.{replay_pending_lem, replay-process_event}

abbrev read_id : String → Option String
read_id String.[] = none
read_id (String.◌∷◌ c rest) = some rest

-- A frame is written as a letter and its match id.
abbrev frames : FrameJson
frames = record {
  encode = λ f. elim f [
    | found id players ↦ "f" ⧺ id
    | confirmed id ↦ "c" ⧺ id
    | dissolved id ↦ "d" ⧺ id
    | server_ready id address ↦ "s" ⧺ id
  ];
  match_id_of = read_id;
}

abbrev first : Client
first = record { id = 0; player_id = "7" }

abbrev second : Client
second = record { id = 1; player_id = "7" }

abbrev reconnect : List HubStep
reconnect =
    registers first
    ∷ registers second
    ∷ unregisters first
    ∷ unregisters second
    ∷ unregisters second
    ∷ []

hub_steps-IsOpen_example :
    (n : ℕ) × ((h : Hub) × (hub_steps reconnect (some no_clients) ≡ some h) × IsOpen n h)
hub_steps-IsOpen_example = hub_steps-IsOpen reconnect (omega arith, (omega arith, tt))

id-ne-empty : formed.id ≢ ""
id-ne-empty e = ground (arith, eq_iff formed.id "")

replay-process_event_example :
    let v =
      (process_event memory frames
        (some (match_forming formed.id ("7" ∷ "8" ∷ [])))
        recorded_world).1 in
    (replay_pending memory frames "8" v).0 ≡ some (frames.encode (found formed.id ("7" ∷ "8" ∷ [])))
unfolding is_forming contains Keys.match_status_key Keys.match_key
replay-process_event_example =
    replay-process_event memory frames formed.id "8" ("7" ∷ "8" ∷ []) recorded_world (λ n. refl)
      refl id-ne-empty refl refl

-- A frame is left over for player 7.
abbrev pending_world : World
pending_world = record recorded_world {
  store = record recorded_world.store {
    texts = put recorded_world.store.texts (Keys.pending_match_event "7") (some "fm");
  };
}

m-ne-empty : ◌≢◌ {A = String} "m" ""
m-ne-empty e = ground (arith, eq_iff "m" "")

replay_pending_lem_example :
    let (sent, v) = replay_pending memory frames "7" pending_world in
    ((is_forming (pending_world.store.texts (Keys.match_status_key "m")) ≡ true)
      × (sent ≡ some "fm")
      × (v.store ≡ pending_world.store))
    ⊎ ((is_forming (pending_world.store.texts (Keys.match_status_key "m")) ≡ false)
        × (sent ≡ none)
        × (v.store ≡ memory.del (Keys.pending_match_event "7") pending_world.store))
unfolding Keys.pending_match_event
replay_pending_lem_example =
    replay_pending_lem memory frames "7" "fm" "m" pending_world (λ n. refl) refl refl m-ne-empty
