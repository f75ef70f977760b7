-- ===== src/Worker/Pop/Total.antt =====
-- popOnce ends: the loop has enough fuel, and selectGroup does not panic.
use matchmaking.Shared.{ℕ, zero, suc, ◌<◌, List, [], ◌∷◌, arith, leb, length, Bool-cases, inl, inr}
use matchmaking.Json.{Json}
use matchmaking.Redis.{Redis}
use matchmaking.Effects.{World, M, now}
use matchmaking.Worker.Select.{BufferedEntry, select_group}
use matchmaking.Worker.Select.Group.{select_group-cases, select_group-perm}
use matchmaking.Worker.Pop.{
  Time, MatchMaker, Commit, Popped, returned, panicked, out_of_fuel, commit_match, after_group,
  after_select, form_matches, admit, with_candidates, pop_once,
}

-- A buffer comes back, with an error or without.
abbrev pub Ends : Popped → Type 0
Ends (returned buffer) = Unit
Ends (Popped.failed buffer) = Unit
Ends panicked = ⊥
Ends out_of_fuel = ⊥

module _ (R : Redis) (mm : MatchMaker) (J : Json) where
  after_group-Ends :
      (continue : List BufferedEntry → M Popped) (group remaining : List BufferedEntry)
      (result : Commit) (w : World)
      → ((v : World) → Ends (continue remaining v).0)
      → Ends (after_group R mm J continue group remaining result w).0
  unfolding after_group
  after_group-Ends continue group remaining Commit.committed w h = h w
  after_group-Ends continue group remaining Commit.conflict w h = h _
  after_group-Ends continue group remaining Commit.failed w h = tt

  after_select-Ends :
      (continue : List BufferedEntry → M Popped) (buffer : List BufferedEntry) (t : Time)
      (w : World)
      → 0 < mm.match_size
      → ((remaining : List BufferedEntry) (v : World)
          → length remaining < length buffer
          → Ends (continue remaining v).0)
      → Ends (after_select R mm J continue buffer (select_group buffer mm.match_size t) w).0
  unfolding after_select
  after_select-Ends continue buffer t w h rest =
      elim (select_group-cases buffer mm.match_size t h) [
        | inl e ↦ rw e tt
        | inr (group, remaining, e) ↦
            let (_, shorter, _) = select_group-perm buffer mm.match_size t h e in
            let (result, v) = commit_match R mm J group w in
            rw e (
              after_group-Ends continue group remaining result v
                (λ u. rest remaining u (omega (arith, shorter))))
      ]

  form_matches-Ends :
      (fuel : ℕ) (buffer : List BufferedEntry) (w : World)
      → 0 < mm.match_size
      → length buffer < fuel
      → Ends (form_matches R mm J fuel buffer w).0
  unfolding form_matches now
  form_matches-Ends zero buffer w h enough = absurd (omega arith)
  form_matches-Ends (suc fuel) buffer w h enough =
      elim (Bool-cases (leb mm.match_size (length buffer))) [
        | inr small ↦ rw small tt
        | inl big ↦ rw big (
            after_select-Ends (form_matches R mm J fuel) buffer (w.clock w.reads)
              (record w { reads = suc w.reads }) h
              (λ remaining v less. form_matches-Ends fuel remaining v h (omega arith)))
      ]

  with_candidates-Ends :
      (buffer candidates : List BufferedEntry) (w : World)
      → 0 < mm.match_size
      → Ends (with_candidates R mm J buffer candidates w).0
  unfolding with_candidates admit
  with_candidates-Ends buffer [] w h = tt
  with_candidates-Ends buffer (c ∷ cs) w h = form_matches-Ends _ _ _ h (omega arith)

  -- With a positive match size popOnce comes back with a buffer, or a buffer and an error, whatever
  -- the store holds and whatever becomes of its round trips: the loop has enough rounds and
  -- selectGroup does not panic.
  pub pop_once-Ends :
      (buffer : List BufferedEntry) (w : World)
      → 0 < mm.match_size
      → Ends (pop_once R mm J buffer w).0
  unfolding pop_once
  pop_once-Ends buffer w h = with_candidates-Ends buffer _ _ h
