-- ===== src/Worker/Stream/Claims.antt =====
-- The rounds of claimStaleStreamEntries of internal/worker/worker.go.
use matchmaking.Shared.{
  not, ℕ, zero, suc, ◌≤◌, ◌<◌, ◌≡◌, refl, Bool, true, false, Option, some, String, List, [], ◌∷◌,
  arith, eqb, length, take, drop,
}
use matchmaking.Json.{Json}
use matchmaking.Effects.{Delivery, delivered, request_lost, reply_lost}
use matchmaking.Redis.Groups.{Group, Groups, from, cursor}
use matchmaking.Worker.Stream.{
  Consumer, C, Claim, claimed, out_of_fuel, claim_count, trip, trip_as, process_each, resume,
  after_claim, claim_from, claim_stale_stream_entries,
}
use matchmaking.Worker.Stream.Keeps.{IsProcessStable, process_each-Keeps}
use matchmaking.Worker.Stream.Ascending.{IsAscending, keep-IsAscending, cursor_advances, from_fewer}

-- The loop came to its end or to an error.
abbrev pub Ends : Claim → Type 0
Ends claimed = Unit
Ends Claim.failed = Unit
Ends out_of_fuel = ⊥

-- Pending entries that are still in order and of which, from any id on, there are not more.
pub record Shrinks (before : List ℕ) (g : Group) : Type 0 where
  pub ascending : IsAscending g.pending
  pub fewer : (s : ℕ) → length (from s g.pending) ≤ length (from s before)

pub from_zero : (is : List ℕ) → from 0 is ≡ is
from_zero [] = refl
from_zero (i ∷ is) = ground (arith, from_zero is)

module _ (G : Groups) (J : Json) (data_of : ℕ → Option String) where
  Shrinks-IsProcessStable :
      (before : List ℕ) → IsProcessStable G J data_of (λ g db. Shrinks before g)
  Shrinks-IsProcessStable before = record {
    after_insert_row = λ m g db h. h;
    after_ack = λ i g db r h. rw (G.ack_lem i g) (record {
      ascending = keep-IsAscending _ g.pending h.ascending;
      fewer = λ s. omega (arith, from_fewer (λ j. not (eqb i j)) s g.pending, h.fewer s);
    });
  }

  -- What processing leaves pending of a group whose entries are in order.
  pub process_each-Shrinks :
      (is : List ℕ) (c : Consumer)
      → IsAscending c.group.pending
      → Shrinks c.group.pending (process_each G J data_of is c).1.group
  process_each-Shrinks is c asc =
      process_each-Keeps G J data_of (λ g db. Shrinks c.group.pending g)
        (Shrinks-IsProcessStable c.group.pending) is c
        (record { ascending = asc; fewer = λ s. omega arith })

  resume-Ends :
      (continue : ℕ → C Claim) (h : ℕ) (b : Bool) (v : Consumer)
      → Ends (continue h v).0
      → Ends (resume G J data_of continue h b v).0
  unfolding resume
  resume-Ends continue h true v e = tt
  resume-Ends continue h false v e = e

  module _ (fuel : ℕ)
      (continues : (next : ℕ) (v : Consumer)
        → IsAscending v.group.pending
        → length (from next v.group.pending) < fuel
        → Ends (claim_from G J data_of fuel next v).0) where
    round-Ends :
        (start : ℕ) (is rest : List ℕ) (c : Consumer)
        → IsAscending c.group.pending
        → length (from start c.group.pending) < suc fuel
        → drop claim_count (from start c.group.pending) ≡ rest
        → Ends (after_claim G J data_of (claim_from G J data_of fuel) (some (is, cursor rest)) c).0
    unfolding after_claim resume
    round-Ends start is [] c asc enough e = tt
    round-Ends start is (h ∷ t) c asc enough e =
        let v = (process_each G J data_of is c).1 in
        let shrinks = process_each-Shrinks is c asc in
        let (_, less) = cursor_advances start 99 h c.group.pending t asc e in
        resume-Ends (claim_from G J data_of fuel) h (eqb h 0) v
          (continues h v shrinks.ascending (omega (arith, less, shrinks.fewer h)))

    -- The outcome of a claim's round trip.
    claim_as-Ends :
        (d : Delivery) (start : ℕ) (c : Consumer)
        → IsAscending c.group.pending
        → length (from start c.group.pending) < suc fuel
        → let (reply, v) = trip_as d (G.autoclaim start claim_count) c in
          Ends (after_claim G J data_of (claim_from G J data_of fuel) reply v).0
    unfolding after_claim
    claim_as-Ends delivered start c asc enough = rw (G.autoclaim_lem start claim_count c.group) (
        round-Ends start (take claim_count (from start c.group.pending)) _
          (record c { calls = suc c.calls }) asc enough refl)
    claim_as-Ends request_lost start c asc enough = tt
    claim_as-Ends reply_lost start c asc enough = tt

  claim_from-Ends :
      (fuel start : ℕ) (c : Consumer)
      → IsAscending c.group.pending
      → length (from start c.group.pending) < fuel
      → Ends (claim_from G J data_of fuel start c).0
  unfolding claim_from trip
  claim_from-Ends zero start c asc enough = absurd (omega arith)
  claim_from-Ends (suc fuel) start c asc enough =
      claim_as-Ends fuel (claim_from-Ends fuel) (c.net c.calls) start c asc enough

  -- With the pending entries in order, one round more than there are of them is enough for
  -- claimStaleStreamEntries to come to its end or to an error, whatever becomes of its round trips.
  pub claim_stale_stream_entries-Ends :
      (c : Consumer)
      → IsAscending c.group.pending
      → Ends (claim_stale_stream_entries G J data_of (suc (length c.group.pending)) c).0
  unfolding claim_stale_stream_entries
  claim_stale_stream_entries-Ends c asc =
      claim_from-Ends (suc (length c.group.pending)) 0 c asc
        (rw (from_zero c.group.pending) (omega arith))
