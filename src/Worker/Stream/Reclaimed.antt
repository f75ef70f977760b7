-- ===== src/Worker/Stream/Reclaimed.antt =====
-- A start after a crash: what claimStaleStreamEntries of internal/worker/worker.go has written when
-- every round trip is answered.
use matchmaking.Shared.{
  ◌⊎◌, ℕ, zero, suc, ◌≤◌, ◌<◌, ◌≡◌, refl, ap, ◌∙◌, sym, subst, Bool, true, false, not, ◌&&◌, Option,
  some, String, List, [], ◌∷◌, arith, leb, ltb, eqb, length, take, drop, Bool-cases, inl, inr,
}
use matchmaking.Json.{Json}
use matchmaking.Effects.{Delivery, delivered}
use matchmaking.Redis.Groups.{Groups, from, cursor}
use matchmaking.Worker.Stream.{
  Consumer, Claim, claimed, claim_count, trip_as, process_each, resume, after_claim, claim_from,
  claim_stale_stream_entries,
}
use matchmaking.Worker.Stream.Keeps.{IsRecorded, claim_from-Keeps}
use matchmaking.Redis.Groups.{contains_id}
use matchmaking.Worker.Stream.Ascending.{
  IsAscending, keep-IsAscending, cursor_advances, cursor_positive, contains_id-from,
  contains_id-take, take-all,
}
use matchmaking.Worker.Stream.Claims.{process_each-Shrinks, from_zero}
use matchmaking.Worker.Stream.Recorded.{
  IsReliable, is_decodable, IsRecorded-IsStable, process_each-Handled,
}

-- Two stretches, below the cursor and from the cursor on, make up all that was to be claimed.
stretches :
    (start h i : ℕ) (P D : Bool) {V U F T : Bool}
    → start ≤ h
    → F ≡ (P && leb start i)
    → T ≡ (F && ltb i h)
    → V ≡ (P && not (T && D))
    → U ≡ (V && not (leb h i && D))
    → U ≡ (P && not (leb start i && D))
stretches start h i P D {V} {U} {F} {T} up f t v u = ground arith

not_zero : (h : ℕ) → 0 < h → eqb h 0 ≡ false
not_zero h p = ground arith

both : {a b : Bool} → a ≡ true → b ≡ true → (a && b) ≡ true
both h k = ground arith

all_left : (P D S : Bool) {T : Bool} → T ≡ (P && S) → (P && not (T && D)) ≡ (P && not (S && D))
all_left P D S {T} t = ground arith

-- An entry is below the cursor, and taken, or it is left for what follows.
taken_or_left :
    (start h i : ℕ) (P D : Bool) {V F T : Bool}
    → P ≡ true
    → leb start i ≡ true
    → F ≡ (P && leb start i)
    → T ≡ (F && ltb i h)
    → V ≡ (P && not (T && D))
    → (T ≡ true) ⊎ ((V ≡ true) × (leb h i ≡ true))
taken_or_left start h i P D {V} {F} {T} p s f t v = elim (Bool-cases (leb h i)) [
  | inl e ↦ inr (ground arith, e)
  | inr e ↦ inl (ground arith)
]

module _ (G : Groups) (J : Json) (data_of : ℕ → Option String) where
  abbrev decodes : ℕ → Bool
  decodes = is_decodable G J data_of

  -- A claim from an id on has ended at the cursor 0-0. The pending entries from there on that
  -- decode are acknowledged and on record; the others are still pending, and nothing was read.
  pub record Reclaims (start : ℕ) (c : Consumer) (r : Claim) (v : Consumer) : Type 0 where
    pub ended : r ≡ claimed
    pub unread_same : v.group.unread ≡ c.group.unread
    pub left :
        (i : ℕ)
        → contains_id i v.group.pending
          ≡ (contains_id i c.group.pending && not (leb start i && is_decodable G J data_of i))
    pub recorded :
        (i : ℕ)
        → contains_id i c.group.pending ≡ true
        → leb start i ≡ true
        → is_decodable G J data_of i ≡ true
        → IsRecorded G J data_of i v.store.database

  module _ (fuel : ℕ)
      (continues : (next : ℕ) (v : Consumer)
        → IsReliable v
        → IsAscending v.group.pending
        → length (from next v.group.pending) < fuel
        → let (r, u) = claim_from G J data_of fuel next v in Reclaims next v r u) where
    round-Reclaims :
        (start : ℕ) (rest : List ℕ) (c : Consumer)
        → IsReliable c
        → IsAscending c.group.pending
        → length (from start c.group.pending) < suc fuel
        → drop claim_count (from start c.group.pending) ≡ rest
        → let (r, v) =
            after_claim G J data_of
              (claim_from G J data_of fuel)
              (some (take claim_count (from start c.group.pending), cursor rest))
              c in
          Reclaims start c r v
    unfolding after_claim resume
    round-Reclaims start [] c ok asc enough e =
        let is = take claim_count (from start c.group.pending) in
        let done = process_each-Handled G J data_of is c ok in
        let all : (i : ℕ) → contains_id i is ≡ (contains_id i c.group.pending && leb start i) = λ i.
          ap (contains_id i) (take-all claim_count (from start c.group.pending) e)
          ∙ contains_id-from i start c.group.pending in
        record {
          ended = refl;
          unread_same = done.unread_same;
          left = λ i.
              done.left i
              ∙ all_left (contains_id i c.group.pending) (decodes i) (leb start i) (all i);
          recorded = λ i p s d. done.recorded i (all i ∙ both p s) d;
        }
    round-Reclaims start (h ∷ t) c ok asc enough e =
        let is = take claim_count (from start c.group.pending) in
        let done = process_each-Handled G J data_of is c ok in
        let v = (process_each G J data_of is c).1 in
        let shrinks = process_each-Shrinks G J data_of is c asc in
        let sorted = keep-IsAscending (leb start) c.group.pending asc in
        let (up, less) = cursor_advances start 99 h c.group.pending t asc e in
        let positive : eqb h 0 ≡ false =
          not_zero h (cursor_positive 99 h (from start c.group.pending) t sorted e) in
        let taken : (i : ℕ)
            → contains_id i is ≡ (contains_id i (from start c.group.pending) && ltb i h) =
          λ i. contains_id-take i claim_count h (from start c.group.pending) t sorted e in
        let later =
          continues h v done.reliable shrinks.ascending (omega (arith, less, shrinks.fewer h)) in
        rw positive (record {
          ended = later.ended;
          unread_same = later.unread_same ∙ done.unread_same;
          left = λ i.
              stretches start h i (contains_id i c.group.pending) (decodes i) up
                (contains_id-from i start c.group.pending) (taken i) (done.left i) (later.left i);
          recorded = λ i p s d.
              elim (taken_or_left start h i (contains_id i c.group.pending) (decodes i) p s
                (contains_id-from i start c.group.pending) (taken i) (done.left i)) [
                  | inl below ↦
                      claim_from-Keeps G J data_of (λ g db. IsRecorded G J data_of i db)
                        (IsRecorded-IsStable G J data_of i) fuel h v (done.recorded i below d)
                  | inr (there, above) ↦ later.recorded i there above d
                ];
        })

    -- The round trip of a claim is answered.
    claim_as-Reclaims :
        (start : ℕ) (c : Consumer)
        → IsReliable c
        → IsAscending c.group.pending
        → length (from start c.group.pending) < suc fuel
        → let (reply, u) = trip_as delivered (G.autoclaim start claim_count) c in
          let (r, v) = after_claim G J data_of (claim_from G J data_of fuel) reply u in
          Reclaims start c r v
    claim_as-Reclaims start c ok asc enough = rw (G.autoclaim_lem start claim_count c.group) (
        via (
          round-Reclaims start (drop claim_count (from start c.group.pending))
            (record c { calls = suc c.calls }) ok asc enough refl))
      where
        via :
            {r : Claim} {v : Consumer}
            → Reclaims start (record c { calls = suc c.calls }) r v
            → Reclaims start c r v
        via h = record {
          ended = h.ended;
          unread_same = h.unread_same;
          left = h.left;
          recorded = h.recorded;
        }

  claim_from-Reclaims :
      (fuel start : ℕ) (c : Consumer)
      → IsReliable c
      → IsAscending c.group.pending
      → length (from start c.group.pending) < fuel
      → let (r, v) = claim_from G J data_of fuel start c in Reclaims start c r v
  unfolding claim_from
  claim_from-Reclaims zero start c ok asc enough = absurd (omega arith)
  claim_from-Reclaims (suc fuel) start c ok asc enough =
      subst
        (λ (d : Delivery).
          let (reply, u) = trip_as d (G.autoclaim start claim_count) c in
          let (r, v) = after_claim G J data_of (claim_from G J data_of fuel) reply u in
          Reclaims start c r v)
        (sym (ok.0 c.calls))
        (claim_as-Reclaims fuel (claim_from-Reclaims fuel) start c ok asc enough)

  -- When every round trip is answered and the pending entries are in order, claimStaleStreamEntries
  -- comes to its end with one round more than there are pending entries; every pending entry that
  -- holds a match is then acknowledged and its match has a row, every other one is still pending,
  -- and nothing new was read.
  pub claim_stale_stream_entries-Reclaims :
      (c : Consumer)
      → IsReliable c
      → IsAscending c.group.pending
      → let (r, v) = claim_stale_stream_entries G J data_of (suc (length c.group.pending)) c in
        Reclaims 0 c r v
  unfolding claim_stale_stream_entries
  claim_stale_stream_entries-Reclaims c ok asc =
      claim_from-Reclaims (suc (length c.group.pending)) 0 c ok asc
        (rw (from_zero c.group.pending) (omega arith))
