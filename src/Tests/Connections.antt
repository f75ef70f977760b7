-- ===== src/Tests/Connections.antt =====
-- A player who reconnects and is sent a frame, and a connection that breaks.
use matchmaking.Shared.{◌≡◌, refl, String, true, false, some, none, List, [], ◌∷◌, ◌++◌, All, arith}
use matchmaking.Redis.{contains}
use matchmaking.Hub.{Client, Hub, recipients}
use matchmaking.Hub.Channels.{registers, unregisters, no_clients}
use matchmaking.Hub.Loop.{
  Input, stepped, published, fanned, run_hub, sends, replays, processes, IsAddressed, reaches,
  run_hub-IsAddressed,
}
use matchmaking.Hub.Pumps.{
  Turn, message, tick, text, ping, texts, write_pump, write_pump-messages, discarded, pong, reading,
  ended, read_pump, serve_ws, bad_request,
}

abbrev first : Client
first = record { id = 0; player_id = "7" }

abbrev second : Client
second = record { id = 1; player_id = "7" }

abbrev inputs : List Input
inputs =
    stepped (registers first)
    ∷ published none
    ∷ stepped (registers second)
    ∷ stepped (unregisters first)
    ∷ fanned (record { player_ids = "7" ∷ "8" ∷ []; frame = "f" })
    ∷ []

run_hub-IsAddressed_example :
    (h : Hub) × ((run_hub inputs (some no_clients)).0 ≡ some h)
    × ((players : List String)
        → All (IsAddressed players h) (recipients players h)
          × ((p : String) (c : Client)
              → contains p players ≡ true
              → h.clients p ≡ some c
              → reaches c.id (recipients players h) ≡ true))
run_hub-IsAddressed_example = run_hub-IsAddressed inputs (omega arith, (omega arith, tt))

-- The frame goes to the newer connection alone.
run_hub_started :
    (run_hub inputs (some no_clients)).1
    ≡ replays first ∷ processes none ∷ replays second ∷ sends second "f" ∷ []
unfolding run_hub
run_hub_started = refl

abbrev turns : List Turn
turns = message "a" true ∷ tick true ∷ message "b" false ∷ message "c" true ∷ []

write_pump-messages_example :
    (unsent : List String) × ("a" ∷ "b" ∷ "c" ∷ [] ≡ texts (write_pump turns).0 ++ unsent)
    × ((write_pump turns).1 ≡ false → unsent ≡ [])
write_pump-messages_example = write_pump-messages turns

write_pump_ended : write_pump turns ≡ (text "a" ∷ ping ∷ [], true)
unfolding write_pump
write_pump_ended = refl

-- A pong in time keeps a connection; a frame is discarded and puts nothing off.
read_pump_ended :
    (read_pump 0 (pong 54000000000 ∷ discarded 100000000000 ∷ []) ≡ reading 114000000000)
    × (read_pump 0 (discarded 54000000000 ∷ pong 61000000000 ∷ []) ≡ ended)
    × (serve_ws "" true 0 ≡ bad_request)
unfolding read_pump serve_ws
read_pump_ended = (refl, refl, refl)
