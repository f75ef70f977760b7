-- ===== src/Hub/Loop.antt =====
-- Run of internal/hub/hub.go: the loop of the goroutine that owns the table of clients, and the
-- goroutines that it starts.
use matchmaking.Shared.{
  ℕ, String, ◌≡◌, refl, Bool, true, false, Option, none, some, List, [], ◌∷◌, ◌++◌, map, All, arith,
  eqb, eq_iff, ap, ◌∙◌, sym, str_eq, Bool-cases, Option-cases, inl, inr, ◌||◌,
}
use matchmaking.Redis.{contains}
use matchmaking.Effects.{Event}
use matchmaking.Hub.{Client, Hub, Fanout, recipients, closes}
use matchmaking.Hub.Channels.{
  HubStep, registers, unregisters, hub_step, hub_steps, hub_steps-IsOpen, AreFresh, no_clients,
  IsOpen,
}

-- What the select takes: a registration or its end, a payload of the subscription, which may not
-- decode, or a frame with its players.
pub data Input : Type 0 where
  stepped : HubStep → Input
  published : Option Event → Input
  fanned : Fanout → Input

-- A goroutine that is started: replayPending, processEvent, or a send of fanOutDirect.
pub data Spawned : Type 0 where
  replays : Client → Spawned
  processes : Option Event → Spawned
  sends : Client → String → Spawned

unfoldable pub on_hub : Input → Hub → Option Hub
unfolding hub_step
on_hub (stepped s) h = hub_step s h
on_hub (published e) h = some h
on_hub (fanned f) h = some h

-- The goroutines of a case, once the table is up to date.
unfoldable pub spawned_by : Input → Hub → List Spawned
unfolding recipients
spawned_by (stepped (registers c)) h = replays c ∷ []
spawned_by (stepped (unregisters c)) h = []
spawned_by (published e) h = processes e ∷ []
spawned_by (fanned f) h = map (λ c. sends c f.frame) (recipients f.player_ids h)

abbrev pub started : Input → Option Hub → List Spawned
started i none = []
started i (some h) = spawned_by i h

-- Run on these inputs: the hub, or `none` after a panic, and what was started.
unfoldable pub run_hub : List Input → Option Hub → Option Hub × List Spawned
unfolding on_hub spawned_by
run_hub inputs none = (none, [])
run_hub [] (some h) = (some h, [])
run_hub (i ∷ is) (some h) =
    let next = on_hub i h in let (end, later) = run_hub is next in (end, started i next ++ later)

-- The registrations and their ends among the inputs.
abbrev pub steps_of : List Input → List HubStep
steps_of [] = []
steps_of (stepped s ∷ is) = s ∷ steps_of is
steps_of (published e ∷ is) = steps_of is
steps_of (fanned f ∷ is) = steps_of is

run_hub-hub_steps :
    (is : List Input) (o : Option Hub) → (run_hub is o).0 ≡ hub_steps (steps_of is) o
unfolding run_hub on_hub hub_steps
run_hub-hub_steps [] none = refl
run_hub-hub_steps (stepped s ∷ is) none = refl
run_hub-hub_steps (published e ∷ is) none = run_hub-hub_steps is none
run_hub-hub_steps (fanned f ∷ is) none = run_hub-hub_steps is none
run_hub-hub_steps [] (some h) = refl
run_hub-hub_steps (stepped s ∷ is) (some h) = run_hub-hub_steps is (hub_step s h)
run_hub-hub_steps (published e ∷ is) (some h) = run_hub-hub_steps is (some h)
run_hub-hub_steps (fanned f ∷ is) (some h) = run_hub-hub_steps is (some h)

abbrev pub reaches : ℕ → List Client → Bool
reaches id [] = false
reaches id (c ∷ cs) = eqb id c.id || reaches id cs

-- A connection that is open and stands under one of these players.
pub record IsAddressed (players : List String) (h : Hub) (c : Client) : Type 0 where
  pub named : contains c.player_id players ≡ true
  pub registered : h.clients c.player_id ≡ some c
  pub open_ : closes c.id h.closed ≡ false

widened :
    (p : String) (players : List String) (h : Hub) (cs : List Client)
    → All (IsAddressed players h) cs
    → All (IsAddressed (p ∷ players) h) cs
unfolding contains
widened p players h [] a = tt
widened p players h (c ∷ cs) (a, more) = (
  record { named = ground (arith, a.named); registered = a.registered; open_ = a.open_ },
  widened p players h cs more,
)

first_contains : (q p : String) (players : List String) → q ≡ p → contains q (p ∷ players) ≡ true
unfolding contains
first_contains q p players e = ground (arith, eq_iff q p)

module _ (n : ℕ) (h : Hub) (inv : IsOpen n h) where
  recipients-IsAddressed :
      (players : List String) → All (IsAddressed players h) (recipients players h)
  unfolding recipients
  recipients-IsAddressed [] = tt
  recipients-IsAddressed (p ∷ players) = elim (Option-cases (h.clients p)) [
    | inl e ↦ rw (e, recipients) (widened p players h _ (recipients-IsAddressed players))
    | inr (c, e) ↦
        let own = inv.owned p c e in
        rw (e, recipients)
          (
            record {
              named = first_contains c.player_id p players own;
              registered = ap h.clients own ∙ e;
              open_ = inv.unclosed p c e;
            },
            widened p players h (recipients players h) (recipients-IsAddressed players),
          )
  ]

  recipients-reaches :
      (players : List String) (p : String) (c : Client)
      → contains p players ≡ true
      → h.clients p ≡ some c
      → reaches c.id (recipients players h) ≡ true
  unfolding contains recipients
  recipients-reaches [] p c i e = absurd (ground arith)
  recipients-reaches (q ∷ players) p c i e = elim (Bool-cases (str_eq p q)) [
    | inl same ↦ rw (ap h.clients (sym ((eq_iff p q).0 same)) ∙ e, recipients) (ground arith)
    | inr other ↦ behind q players c (recipients-reaches players p c (ground arith) e)
  ]
    where
      behind :
          (q : String) (players : List String) (c : Client)
          → reaches c.id (recipients players h) ≡ true
          → reaches c.id (recipients (q ∷ players) h) ≡ true
      behind q players c r = elim (Option-cases (h.clients q)) [
        | inl e ↦ rw (e, recipients) r
        | inr (d, e) ↦ rw (e, recipients) (ground (arith, r))
      ]

-- Whatever registrations of new connections, reports of lost ones, payloads and frames the hub
-- takes, and in whatever order, its loop does not panic, and in the hub that it leads to the frame
-- for any list of players goes to connections that are open and stand under a player of the list,
-- and to the connection of every player of the list who has one. The connections are numbered in
-- the order in which they register.
pub run_hub-IsAddressed :
    (inputs : List Input)
    → AreFresh 0 (steps_of inputs)
    → (h : Hub) × ((run_hub inputs (some no_clients)).0 ≡ some h)
      × ((players : List String)
          → All (IsAddressed players h) (recipients players h)
            × ((p : String) (c : Client)
                → contains p players ≡ true
                → h.clients p ≡ some c
                → reaches c.id (recipients players h) ≡ true))
run_hub-IsAddressed inputs fresh =
    let (n, (h, e, inv)) = hub_steps-IsOpen (steps_of inputs) fresh in
    (
      h,
      run_hub-hub_steps inputs (some no_clients) ∙ e,
      λ players. (recipients-IsAddressed n h inv players, recipients-reaches n h inv players),
    )
