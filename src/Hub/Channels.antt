-- ===== src/Hub/Channels.antt =====
-- Sequences of steps on the table of clients of internal/hub/hub.go.
use matchmaking.Shared.{
  suc, ◌<◌, ◌≤◌, ℕ, String, ◌≡◌, refl, true, false, Option, none, some, List, [], ◌∷◌, arith, eqb,
  eq_iff, Bool-cases, Option-cases, inl, inr, sym, ap, ◌∙◌, subst, ℕ, suc, ◌<◌, ◌≤◌,
}
use matchmaking.Redis.{put}
use matchmaking.Hub.{Client, Hub, closes, close_send, register, unregister, set_client}

-- What the hub's goroutine receives.
pub data HubStep : Type 0 where
  registers unregisters : Client → HubStep

unfoldable pub hub_step : HubStep → Hub → Option Hub
unfolding register unregister
hub_step (registers c) h = register c h
hub_step (unregisters c) h = unregister c h

-- The hub after a sequence of steps; `none` once a step has panicked.
unfoldable pub hub_steps : List HubStep → Option Hub → Option Hub
unfolding hub_step
hub_steps steps none = none
hub_steps [] (some h) = some h
hub_steps (step ∷ steps) (some h) = hub_steps steps (hub_step step h)

-- Connections are numbered in the order in which they register; each registers once.
abbrev pub AreFresh : ℕ → List HubStep → Type 0
AreFresh n [] = Unit
AreFresh n (registers c ∷ steps) = (n ≤ c.id) × AreFresh (suc c.id) steps
AreFresh n (unregisters c ∷ steps) = AreFresh n steps

-- Every registered connection stands under its own player, is open, and has a number of its own
-- below n, as the closed ones have.
pub record IsOpen (n : ℕ) (h : Hub) : Type 0 where
  pub owned : (p : String) (c : Client) → h.clients p ≡ some c → c.player_id ≡ p
  pub unclosed : (p : String) (c : Client) → h.clients p ≡ some c → closes c.id h.closed ≡ false
  pub distinct :
      (p q : String) (c d : Client)
      → h.clients p ≡ some c
      → h.clients q ≡ some d
      → c.id ≡ d.id
      → p ≡ q
  pub numbered : (p : String) (c : Client) → h.clients p ≡ some c → c.id < n
  pub past : (j : ℕ) → closes j h.closed ≡ true → j < n

set_client-IsOpen :
    (n : ℕ) (c : Client) (h : Hub)
    → IsOpen n h
    → n ≤ c.id
    → h.clients c.player_id ≡ none
    → IsOpen (suc c.id) (set_client c.player_id (some c) h)
set_client-IsOpen n c h inv new free = record {
  owned = λ p d e. ground (arith, eq_iff c.player_id p, inv.owned p d);
  unclosed = λ p d e. ground (arith, eq_iff c.player_id p, inv.unclosed p d, inv.past c.id);
  distinct = λ p q d e ed ee same. ground (
    arith,
    eq_iff c.player_id p,
    eq_iff c.player_id q,
    inv.distinct p q d e,
    inv.numbered p d,
    inv.numbered q e,
  );
  numbered = λ p d e. ground (arith, eq_iff c.player_id p, inv.numbered p d);
  past = λ j e. ground (arith, inv.past j);
}

-- The hub once a registered connection was closed and taken out.
without_client : String → ℕ → Hub → Hub
without_client p id h = record { clients = put h.clients p none; closed = id ∷ h.closed }

without_client-IsOpen :
    (n : ℕ) (p : String) (c : Client) (h : Hub)
    → IsOpen n h
    → h.clients p ≡ some c
    → IsOpen n (without_client p c.id h)
unfolding without_client
without_client-IsOpen n p c h inv here = record {
  owned = λ q d e. ground (arith, eq_iff p q, inv.owned q d);
  unclosed = λ q d e. ground (arith, eq_iff p q, inv.unclosed q d, inv.distinct p q c d);
  distinct = λ q r d e ed ee same. ground (arith, eq_iff p q, eq_iff p r, inv.distinct q r d e);
  numbered = λ q d e. ground (arith, eq_iff p q, inv.numbered q d);
  past = λ j e. ground (arith, inv.past j, inv.numbered p c here);
}

-- The invariant looks at the table pointwise.
IsOpen-ext :
    (n : ℕ) (g h : Hub)
    → ((p : String) → g.clients p ≡ h.clients p)
    → g.closed ≡ h.closed
    → IsOpen n h
    → IsOpen n g
IsOpen-ext n g h ext same inv = record {
  owned = λ p c e. inv.owned p c (sym (ext p) ∙ e);
  unclosed = λ p c e. rw same (inv.unclosed p c (sym (ext p) ∙ e));
  distinct = λ p q c d ec ed ids. inv.distinct p q c d (sym (ext p) ∙ ec) (sym (ext q) ∙ ed) ids;
  numbered = λ p c e. inv.numbered p c (sym (ext p) ∙ e);
  past = λ j e. inv.past j (ap (closes j) (sym same) ∙ e);
}

-- A step that does not panic and keeps the invariant.
Succeeds : ℕ → Option Hub → Type 0
Succeeds n result = (g : Hub) × (result ≡ some g) × IsOpen n g

register-Succeeds :
    (n : ℕ) (c : Client) (h : Hub) → IsOpen n h → n ≤ c.id → Succeeds (suc c.id) (register c h)
unfolding Succeeds register
register-Succeeds n c h inv new = elim (Option-cases (h.clients c.player_id)) [
  | inl free ↦
      (set_client c.player_id (some c) h, rw (free, register), set_client-IsOpen n c h inv new free)
  | inr (old, here) ↦
      let other : eqb old.id c.id ≡ false = ground (arith, inv.numbered c.player_id old here) in
      let bare = without_client c.player_id old.id h in
      let g : Hub = record {
        clients = put h.clients c.player_id (some c);
        closed = old.id ∷ h.closed;
      } in
      (
        g,
        rw (here, other, register) (unfold close_send in rw (inv.unclosed c.player_id old here)),
        IsOpen-ext (suc c.id) g (set_client c.player_id (some c) bare)
            (λ p. unfold without_client in ground arith) (unfold without_client in refl)
            (set_client-IsOpen n c bare (without_client-IsOpen n c.player_id old h inv here) new
              (unfold without_client in ground (arith, eq_iff c.player_id c.player_id))),
      )
]

unregister-Succeeds : (n : ℕ) (c : Client) (h : Hub) → IsOpen n h → Succeeds n (unregister c h)
unfolding Succeeds unregister
unregister-Succeeds n c h inv = elim (Option-cases (h.clients c.player_id)) [
  | inl free ↦ (h, rw (free, unregister), inv)
  | inr (current, here) ↦ elim (Bool-cases (eqb current.id c.id)) [
    | inr other ↦ (h, rw (here, other, unregister), inv)
    | inl same ↦
        let ids : current.id ≡ c.id = ground arith in
        let open_ : closes c.id h.closed ≡ false =
          ap (λ i. closes i h.closed) (sym ids) ∙ inv.unclosed c.player_id current here in
        (
          without_client c.player_id c.id h,
          rw (here, same, unregister) (unfold close_send without_client in rw open_),
          subst (λ i. IsOpen n (without_client c.player_id i h)) ids
              (without_client-IsOpen n c.player_id current h inv here),
        )
  ]
]

hub_steps-Succeeds :
    (n : ℕ) (steps : List HubStep) (h : Hub)
    → IsOpen n h
    → AreFresh n steps
    → (m : ℕ) × Succeeds m (hub_steps steps (some h))
unfolding hub_steps hub_step Succeeds
hub_steps-Succeeds n [] h inv fresh = (n, (h, refl, inv))
hub_steps-Succeeds n (registers c ∷ steps) h inv (new, fresh) =
    let (g, e, still) = register-Succeeds n c h inv new in
    subst (λ r. (m : ℕ) × Succeeds m (hub_steps steps r)) (sym e)
      (hub_steps-Succeeds (suc c.id) steps g still fresh)
hub_steps-Succeeds n (unregisters c ∷ steps) h inv fresh =
    let (g, e, still) = unregister-Succeeds n c h inv in
    subst (λ r. (m : ℕ) × Succeeds m (hub_steps steps r)) (sym e)
      (hub_steps-Succeeds n steps g still fresh)

abbrev pub no_clients : Hub
no_clients = record { clients = λ p. none; closed = [] }

no_clients-IsOpen : IsOpen 0 no_clients
no_clients-IsOpen = record {
  owned = λ p c e. absurd (ground arith);
  unclosed = λ p c e. absurd (ground arith);
  distinct = λ p q c d e f i. absurd (ground arith);
  numbered = λ p c e. absurd (ground arith);
  past = λ j e. absurd (ground arith);
}

-- However registrations of new connections and reports of lost ones, repeated and late ones too,
-- are ordered, the hub never closes a send channel twice, which would panic. The connections are
-- numbered in the order in which they register. Afterwards every registered connection stands under
-- its own player and is open, and no two players share one.
pub hub_steps-IsOpen :
    (steps : List HubStep)
    → AreFresh 0 steps
    → (n : ℕ) × ((h : Hub) × (hub_steps steps (some no_clients) ≡ some h) × IsOpen n h)
unfolding Succeeds
hub_steps-IsOpen steps fresh = hub_steps-Succeeds 0 steps no_clients no_clients-IsOpen fresh
