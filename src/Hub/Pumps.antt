-- ===== src/Hub/Pumps.antt =====
-- internal/hub/client.go: the two goroutines of a connection, and what they and ServeWS of
-- internal/hub/hub.go send to the hub.
use matchmaking.Shared.{
  ℕ, ◌+◌, String, ◌≡◌, refl, ap, Bool, true, false, List, [], ◌∷◌, ◌++◌, arith, ltb, str_eq,
  if◌then◌else◌,
}
use matchmaking.Model.{Time}
use matchmaking.Hub.{Client}
use matchmaking.Hub.Channels.{HubStep, registers, unregisters}

-- What the select of writePump takes, with whether the write that follows succeeds.
pub data Turn : Type 0 where
  message : String → Bool → Turn
  closed tick : Bool → Turn

-- What has been written to the connection.
pub data Written : Type 0 where
  text : String → Written
  close_frame ping : Written

-- writePump: what it has written, and whether it has returned and closed the connection.
unfoldable pub write_pump : List Turn → List Written × Bool
write_pump [] = ([], false)
write_pump (message m ok ∷ turns) =
    let (written, ended) = write_pump turns in if ok then (text m ∷ written, ended) else ([], true)
write_pump (closed ok ∷ turns) = (if ok then close_frame ∷ [] else [], true)
write_pump (tick ok ∷ turns) =
    let (written, ended) = write_pump turns in if ok then (ping ∷ written, ended) else ([], true)

-- 60 seconds.
abbrev pub pong_wait : ℕ
pong_wait = 60000000000

-- What arrives on the connection, and when: a frame that is discarded, a pong, or an error.
pub data Arrival : Type 0 where
  discarded pong failure : Time → Arrival

-- Whether readPump still reads, and until when, or has returned.
pub data Reading : Type 0 where
  reading : Time → Reading
  ended : Reading

abbrev pub in_time : Time → Time → Reading → Reading
in_time at deadline rest = if ltb deadline at then ended else rest

-- The loop of readPump under a deadline, which a pong puts off.
unfoldable pub read_until : Time → List Arrival → Reading
read_until deadline [] = reading deadline
read_until deadline (discarded at ∷ more) = in_time at deadline (read_until deadline more)
read_until deadline (pong at ∷ more) = in_time at deadline (read_until (at + pong_wait) more)
read_until deadline (failure at ∷ more) = ended

-- readPump from its start on.
unfoldable pub read_pump : Time → List Arrival → Reading
unfolding read_until
read_pump start arrivals = read_until (start + pong_wait) arrivals

-- The deferred function of readPump.
unfoldable pub after_reading : Client → Reading → List HubStep
after_reading c (reading deadline) = []
after_reading c ended = unregisters c ∷ []

-- What becomes of a frame that fanOutDirect sends: writePump takes it, or does not within the time
-- limit, or the channel is closed and the panic recovered.
pub data Handover : Type 0 where
  taken slow gone : Handover

unfoldable pub after_handover : Client → Handover → List HubStep
after_handover c taken = []
after_handover c slow = unregisters c ∷ []
after_handover c gone = []

-- What ServeWS comes to: 400, a failed upgrade, or a connection with this number.
pub data Served : Type 0 where
  bad_request upgrade_failed : Served
  serving : Client → Served

unfoldable pub serve_ws : String → Bool → ℕ → Served
serve_ws player_id upgraded id =
    if str_eq player_id ""
    then bad_request
    else if upgraded
    then serving (record { id = id; player_id = player_id })
    else upgrade_failed

unfoldable pub after_serving : Served → List HubStep
after_serving bad_request = []
after_serving upgrade_failed = []
after_serving (serving c) = registers c ∷ []

-- The texts among what was written, and the messages that were taken before the channel was closed.
abbrev pub texts : List Written → List String
texts [] = []
texts (text m ∷ written) = m ∷ texts written
texts (close_frame ∷ written) = texts written
texts (ping ∷ written) = texts written

abbrev pub messages : List Turn → List String
messages [] = []
messages (message m ok ∷ turns) = m ∷ messages turns
messages (closed ok ∷ turns) = []
messages (tick ok ∷ turns) = messages turns

-- Whatever writePump takes and whichever of its writes fail, the texts that it has written are the
-- first ones of the messages that it took before the channel was closed, in their order; and they
-- are all of them unless it has returned.
pub write_pump-messages :
    (turns : List Turn)
    → (unsent : List String) × (messages turns ≡ texts (write_pump turns).0 ++ unsent)
      × ((write_pump turns).1 ≡ false → unsent ≡ [])
unfolding write_pump
write_pump-messages [] = ([], refl, λ h. refl)
write_pump-messages (message m true ∷ turns) =
    let (unsent, e, open_) = write_pump-messages turns in (unsent, ap (λ l. m ∷ l) e, open_)
write_pump-messages (message m false ∷ turns) =
    (m ∷ messages turns, refl, λ h. absurd (ground arith))
write_pump-messages (closed true ∷ turns) = ([], refl, λ h. refl)
write_pump-messages (closed false ∷ turns) = ([], refl, λ h. refl)
write_pump-messages (tick true ∷ turns) = write_pump-messages turns
write_pump-messages (tick false ∷ turns) = (messages turns, refl, λ h. absurd (ground arith))
