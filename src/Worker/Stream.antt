-- ===== src/Worker/Stream.antt =====
-- The stream consumer of internal/worker/worker.go, which writes committed matches to PostgreSQL:
-- ensureStreamGroup, claimStaleStreamEntries, streamConsumerLoop and processStreamEntry.
pub mod Keeps
pub mod Trimmed
pub mod Lossless
pub mod Consumed
pub mod Reclaimed
pub mod Recorded
pub mod Claims
pub mod Ascending
use matchmaking.Shared.{
  ℕ, zero, suc, String, Bool, true, false, Option, none, some, List, [], ◌∷◌, eqb, if◌then◌else◌,
}
use matchmaking.Model.{Match}
use matchmaking.Json.{Json}
use matchmaking.Effects.{answered, Delivery, delivered, request_lost, reply_lost}
use matchmaking.Redis.Groups.{Group, Groups}
use matchmaking.Store.{Store, insert_match}

-- The group, the store, what becomes of each round trip with Redis, and whether the context has
-- been cancelled when it is made.
pub record Consumer : Type 0 where
  pub group : Group
  pub store : Store
  pub net : ℕ → Delivery
  pub is_cancelled : ℕ → Bool
  pub calls : ℕ

abbrev pub C : Type 0 → Type 0
C A = Consumer → A × Consumer

infixl 5 ◌>>=◌ ◌>>◌
abbrev pub ◌>>=◌ : {A B : Type 0} → C A → (A → C B) → C B
◌>>=◌ m f c = let (a, c') = m c in f a c'

abbrev pub ◌>>◌ : {A B : Type 0} → C A → C B → C B
m >> k = m >>= λ _. k

abbrev pub pure : {A : Type 0} → A → C A
pure a c = (a, c)

-- One round trip with Redis. `none` is the client's error.
abbrev pub trip_as : {A : Type 0} → Delivery → (Group → A × Group) → C (Option A)
trip_as delivered f c =
    (some (f c.group).0, record c { group = (f c.group).1; calls = suc c.calls })
trip_as request_lost f c = (none, record c { calls = suc c.calls })
trip_as reply_lost f c = (none, record c { group = (f c.group).1; calls = suc c.calls })

unfoldable pub trip : {A : Type 0} → (Group → A × Group) → C (Option A)
trip f c = trip_as (c.net c.calls) f c

-- m.st.InsertMatch
unfoldable pub insert : Match → C Bool
unfolding insert_match
insert m c = let (ok, st) = insert_match m c.store in (ok, record c { store = st })

abbrev pub claim_count : ℕ
claim_count = 100

abbrev pub read_count : ℕ
read_count = 10

-- How claimStaleStreamEntries ends; `out_of_fuel` stands for a loop that was cut short.
pub data Claim : Type 0 where
  claimed failed out_of_fuel : Claim

-- What XReadGroup gives: entries, redis.Nil after a second without any, the error of a context that
-- is cancelled, or another error.
pub data Read : Type 0 where
  entries : List ℕ → Read
  nothing cancelled broken : Read

-- How streamConsumerLoop ends, or that it is still running after so many rounds.
pub data Consumption : Type 0 where
  stopped broken_off running : Consumption

-- The match in a data field, if there is one that decodes.
unfoldable pub match_of : Json → Option String → Option Match
match_of J none = none
match_of J (some text) = J.decode_match text

-- `data_of` gives the data field of each entry of the stream, which never changes.
module _ (G : Groups) (J : Json) (data_of : ℕ → Option String) where
  -- ensureStreamGroup; true stands for the nil error. The answer BUSYGROUP is no error.
  unfoldable pub ensure_stream_group : C Bool
  unfolding trip
  ensure_stream_group = trip G.create >>= λ reply. pure (answered reply)

  -- XAck, if the match has been inserted.
  unfoldable pub after_insert : ℕ → Bool → C Bool
  unfolding trip
  after_insert i false = pure false
  after_insert i true = trip (λ g. (tt, G.ack i g)) >>= λ reply. pure (answered reply)

  unfoldable pub with_match : ℕ → Option Match → C Bool
  unfolding insert after_insert
  with_match i none = pure false
  with_match i (some m) = insert m >>= after_insert i

  -- processStreamEntry; true stands for the nil error.
  unfoldable pub process_stream_entry : ℕ → C Bool
  unfolding with_match match_of
  process_stream_entry i = with_match i (match_of J (data_of i))

  -- The loops over the messages, which log an error and go on.
  unfoldable pub process_each : List ℕ → C (Unit {0})
  unfolding process_stream_entry
  process_each [] = pure tt
  process_each (i ∷ is) = process_stream_entry i >> process_each is

  -- What follows a round: the end at the cursor 0-0, or another one from the cursor.
  unfoldable pub resume : (ℕ → C Claim) → ℕ → Bool → C Claim
  resume continue next true = pure claimed
  resume continue next false = continue next

  unfoldable pub after_claim : (ℕ → C Claim) → Option (List ℕ × ℕ) → C Claim
  unfolding process_each resume
  after_claim continue none = pure Claim.failed
  after_claim continue (some (msgs, next)) = process_each msgs >> resume continue next (eqb next 0)

  -- claimStaleStreamEntries from a cursor on.
  unfoldable pub claim_from : ℕ → ℕ → C Claim
  unfolding trip after_claim
  claim_from zero start = pure out_of_fuel
  claim_from (suc fuel) start =
      trip (G.autoclaim start claim_count) >>= after_claim (claim_from fuel)

  unfoldable pub claim_stale_stream_entries : ℕ → C Claim
  unfolding claim_from
  claim_stale_stream_entries fuel = claim_from fuel 0

  unfoldable pub read_of : Bool → Option (List ℕ) → Read
  read_of true none = cancelled
  read_of false none = broken
  read_of stopping (some []) = nothing
  read_of stopping (some (i ∷ is)) = entries (i ∷ is)

  unfoldable pub read_group : C Read
  unfolding trip read_of
  read_group c =
      (trip (G.read_new read_count) >>= λ reply. pure (read_of (c.is_cancelled c.calls) reply)) c

  unfoldable pub after_read : C Consumption → Read → C Consumption
  unfolding process_each
  after_read continue (entries is) = process_each is >> continue
  after_read continue nothing = continue
  after_read continue cancelled = pure stopped
  after_read continue broken = pure broken_off

  -- So many rounds of streamConsumerLoop.
  unfoldable pub stream_consumer_loop : ℕ → C Consumption
  unfolding read_group after_read
  stream_consumer_loop zero = pure running
  stream_consumer_loop (suc rounds) = read_group >>= after_read (stream_consumer_loop rounds)
