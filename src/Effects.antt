-- ===== src/Effects.antt =====
-- Go code with effects: the Redis round trips of a process, its clock, what it publishes and the
-- goroutines that it starts.
use matchmaking.Shared.{
  All, ◌⊎◌, inl, inr, refl, true, false, Bool, ◌≡◌, ℕ, suc, String, Option, none, some, List, [],
  ◌∷◌, ◌++◌,
}
use matchmaking.Model.{Time}
use matchmaking.Redis.{Keyspace}

-- What becomes of a round trip. After a lost reply the server has done its part.
pub data Delivery : Type 0 where
  delivered request_lost reply_lost : Delivery

-- internal/publish/publish.go: a channel with its payload.
pub data Event : Type 0 where
  match_forming : String → List String → Event
  match_confirmed : String → List String → Event
  match_dissolved : String → List String → Event
  match_server_ready : String → String → List String → Event

-- A goroutine that has been started and has not run.
pub data Task : Type 0 where
  mark_match_confirmed : String → Time → Task
  mark_match_dissolved : String → Time → Task
  allocate_server : String → List String → Task

-- `net` is the fate of each round trip, and of each command of a pipeline.
pub record World : Type 0 where
  pub store : Keyspace
  pub net : ℕ → Delivery
  pub calls : ℕ
  pub clock : ℕ → Time
  pub reads : ℕ
  pub published : List Event
  pub tasks : List Task
  -- MatchMaker.matchSeq
  pub match_seq : ℕ

abbrev pub M : Type 0 → Type 0
M A = World → A × World

infixl 5 ◌>>=◌ ◌>>◌
abbrev pub ◌>>=◌ : {A B : Type 0} → M A → (A → M B) → M B
◌>>=◌ m f w = let (a, w') = m w in f a w'

abbrev pub ◌>>◌ : {A B : Type 0} → M A → M B → M B
m >> k = m >>= λ _. k

abbrev pub pure : {A : Type 0} → A → M A
pure a w = (a, w)

-- One round trip with the server. `none` is the client's error.
unfoldable pub call : {A : Type 0} → (Keyspace → A × Keyspace) → M (Option A)
call f w = elim (w.net w.calls) [
  | delivered ↦ let (a, s) = f w.store in (some a, record w { store = s; calls = suc w.calls })
  | request_lost ↦ (none, record w { calls = suc w.calls })
  | reply_lost ↦ (none, record w { store = (f w.store).1; calls = suc w.calls })
]

-- The client's error is nil.
abbrev pub answered {ℓ} : {A : Type ℓ} → Option A → Bool
answered none = false
answered (some a) = true

-- A round trip that writes and answers nothing of use.
unfoldable pub command : (Keyspace → Keyspace) → M (Option (Unit {0}))
unfolding call
command f = call (λ s. (tt, f s))

-- A round trip that reads.
unfoldable pub query : {A : Type 0} → (Keyspace → A) → M (Option A)
unfolding call
query f = call (λ s. (f s, s))

-- A pipeline that is no transaction: its commands reach the server one by one, each with a fate of
-- its own. After a lost request the rest is not sent; after a lost reply the server may still carry
-- out the rest.
unfoldable pub pipeline : List (Keyspace → Keyspace) → M (Option (Unit {0}))
pipeline [] w = (some tt, w)
pipeline (f ∷ fs) w = elim (w.net w.calls) [
  | delivered ↦ pipeline fs (record w { store = f w.store; calls = suc w.calls })
  | request_lost ↦ (none, record w { calls = suc w.calls })
  | reply_lost ↦ (none, (pipeline fs (record w { store = f w.store; calls = suc w.calls })).1)
]

-- time.Now()
unfoldable pub now : M Time
now w = (w.clock w.reads, record w { reads = suc w.reads })

-- Publisher.Publish. A failure is logged; the event has gone out unless the request was lost.
unfoldable pub publish : Event → M (Unit {0})
publish e w = elim (w.net w.calls) [
  | delivered ↦ (tt, record w { calls = suc w.calls; published = w.published ++ e ∷ [] })
  | request_lost ↦ (tt, record w { calls = suc w.calls })
  | reply_lost ↦ (tt, record w { calls = suc w.calls; published = w.published ++ e ∷ [] })
]

-- The go statement.
unfoldable pub spawn : Task → M (Unit {0})
spawn t w = (tt, record w { tasks = w.tasks ++ t ∷ [] })

-- The three outcomes of a round trip.
pub call-delivered :
    {A : Type 0} (f : Keyspace → A × Keyspace) (w : World)
    → w.net w.calls ≡ delivered
    → call f w ≡ (some (f w.store).0, record w { store = (f w.store).1; calls = suc w.calls })
unfolding call
call-delivered f w ok = rw (ok, call)

pub query-delivered :
    {A : Type 0} (f : Keyspace → A) (w : World)
    → w.net w.calls ≡ delivered
    → query f w ≡ (some (f w.store), record w { calls = suc w.calls })
unfolding query
query-delivered f w ok = call-delivered (λ s. (f s, s)) w ok

pub command-delivered :
    (f : Keyspace → Keyspace) (w : World)
    → w.net w.calls ≡ delivered
    → command f w ≡ (some tt, record w { store = f w.store; calls = suc w.calls })
unfolding command
command-delivered f w ok = call-delivered (λ s. (tt, f s)) w ok

pub publish-delivered :
    (e : Event) (w : World)
    → w.net w.calls ≡ delivered
    → publish e w ≡ (tt, record w { calls = suc w.calls; published = w.published ++ e ∷ [] })
unfolding publish
publish-delivered e w ok = rw (ok, publish)

-- Every round trip of the process arrives.
abbrev pub IsReliable : World → Type 0
IsReliable w = (n : ℕ) → w.net n ≡ delivered

-- What a round trip does, whatever becomes of it.
pub call-cases :
    {A : Type 0} (f : Keyspace → A × Keyspace) (w : World)
    → (call f w ≡ (some (f w.store).0, record w { store = (f w.store).1; calls = suc w.calls }))
      ⊎ (call f w ≡ (none, record w { calls = suc w.calls }))
      ⊎ (call f w ≡ (none, record w { store = (f w.store).1; calls = suc w.calls }))
unfolding call
call-cases {A} f w = of_fate (w.net w.calls) refl
  where
    of_fate :
        (d : Delivery)
        → w.net w.calls ≡ d
        → (call f w ≡ (some (f w.store).0, record w { store = (f w.store).1; calls = suc w.calls }))
          ⊎ (call f w ≡ (none, record w { calls = suc w.calls }))
          ⊎ (call f w ≡ (none, record w { store = (f w.store).1; calls = suc w.calls }))
    of_fate delivered e = inl (rw (e, call) refl)
    of_fate request_lost e = inr (inl (rw (e, call) refl))
    of_fate reply_lost e = inr (inr (rw (e, call) refl))

-- A property of the store that a round trip's effect keeps, the round trip keeps.
pub call-keeps :
    {A : Type 0} (P : Keyspace → Type 0) (f : Keyspace → A × Keyspace) (w : World)
    → P w.store
    → P (f w.store).1
    → P (call f w).1.store
call-keeps P f w before after = elim (call-cases f w) [
  | inl e ↦ rw e after
  | inr (inl e) ↦ rw e before
  | inr (inr e) ↦ rw e after
]

pub store-publish : (e : Event) (w : World) → (publish e w).1.store ≡ w.store
unfolding publish
store-publish e w = of_fate (w.net w.calls) refl
  where
    of_fate : (d : Delivery) → w.net w.calls ≡ d → (publish e w).1.store ≡ w.store
    of_fate delivered h = rw (h, publish) refl
    of_fate request_lost h = rw (h, publish) refl
    of_fate reply_lost h = rw (h, publish) refl

-- The commands of a pipeline, one after the other.
abbrev pub applied : List (Keyspace → Keyspace) → Keyspace → Keyspace
applied [] s = s
applied (f ∷ fs) s = applied fs (f s)

pub store-pipeline :
    (fs : List (Keyspace → Keyspace)) (w : World)
    → IsReliable w
    → (pipeline fs w).1.store ≡ applied fs w.store
unfolding pipeline
store-pipeline [] w ok = refl
store-pipeline (f ∷ fs) w ok =
    rw (pipeline, ok w.calls)
      (store-pipeline fs (record w { store = f w.store; calls = suc w.calls }) ok)

pub net-pipeline :
    (fs : List (Keyspace → Keyspace)) (w : World) → IsReliable w → (pipeline fs w).1.net ≡ w.net
unfolding pipeline
net-pipeline [] w ok = refl
net-pipeline (f ∷ fs) w ok =
    rw (pipeline, ok w.calls)
      (net-pipeline fs (record w { store = f w.store; calls = suc w.calls }) ok)

-- A property of the store that every command keeps, a pipeline keeps wherever it breaks off.
pub pipeline-keeps :
    (P : Keyspace → Type 0) (fs : List (Keyspace → Keyspace)) (w : World)
    → All (λ f. (s : Keyspace) → P s → P (f s)) fs
    → P w.store
    → P (pipeline fs w).1.store
unfolding pipeline
pipeline-keeps P [] w each h = h
pipeline-keeps P (f ∷ fs) w (keeps, each) h =
    let rest =
      pipeline-keeps P fs (record w { store = f w.store; calls = suc w.calls }) each
        (keeps w.store h) in
    of_fate (w.net w.calls) refl rest
  where
    of_fate :
        (d : Delivery)
        → w.net w.calls ≡ d
        → P (pipeline fs (record w { store = f w.store; calls = suc w.calls })).1.store
        → P (pipeline (f ∷ fs) w).1.store
    of_fate delivered e rest = rw (pipeline, e) rest
    of_fate request_lost e rest = rw (pipeline, e) h
    of_fate reply_lost e rest = rw (pipeline, e) rest
