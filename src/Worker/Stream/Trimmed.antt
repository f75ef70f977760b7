-- ===== src/Worker/Stream/Trimmed.antt =====
-- The MAXLEN of commitMatchScript in internal/worker/worker.go: how long an entry stays in a match
-- stream.
use mathlib.Core.List.{append_assoc}
use matchmaking.Shared.{
  ℕ, zero, suc, ◌+◌, ◌<◌, ◌≤◌, ◌≡◌, refl, ap, ◌∙◌, false, ◌||◌, List, [], ◌∷◌, ◌++◌, arith, length,
  length-append, take, drop,
}
use matchmaking.Redis.Groups.{Group, Groups, contains_id, without_ids}
use matchmaking.Worker.Pop.{stream_max_len}

-- The entry is in the stream and so many more arrivals do not evict it: it stands behind older ones
-- that are not it, and before fewer than MAXLEN newer ones, those to come included.
pub record Survives (n i : ℕ) (g : Group) : Type 0 where
  pub older : List ℕ
  pub newer : List ℕ
  pub split : g.stream ≡ older ++ i ∷ newer
  pub fresh : contains_id i older ≡ false
  pub few : length newer + n < stream_max_len

pub contains_id-append :
    (i : ℕ) (xs ys : List ℕ) → contains_id i (xs ++ ys) ≡ (contains_id i xs || contains_id i ys)
contains_id-append i [] ys = refl
contains_id-append i (x ∷ xs) ys = ground (arith, contains_id-append i xs ys)

pub contains_id-take-drop :
    (i n : ℕ) (xs : List ℕ)
    → contains_id i xs ≡ (contains_id i (take n xs) || contains_id i (drop n xs))
contains_id-take-drop i zero xs = refl
contains_id-take-drop i (suc n) [] = refl
contains_id-take-drop i (suc n) (x ∷ xs) = ground (arith, contains_id-take-drop i n xs)

pub contains_id-without_ids :
    (i : ℕ) (gone xs : List ℕ)
    → contains_id i gone ≡ false
    → contains_id i (without_ids gone xs) ≡ contains_id i xs
contains_id-without_ids i gone [] h = refl
contains_id-without_ids i gone (x ∷ xs) h = ground (arith, h, contains_id-without_ids i gone xs h)

take_within : (k : ℕ) (xs ys : List ℕ) → k ≤ length xs → take k (xs ++ ys) ≡ take k xs
take_within zero xs ys h = refl
take_within (suc k) [] ys h = absurd (omega arith)
take_within (suc k) (x ∷ xs) ys h = ap (λ l. x ∷ l) (take_within k xs ys (omega arith))

drop_within : (k : ℕ) (xs ys : List ℕ) → k ≤ length xs → drop k (xs ++ ys) ≡ drop k xs ++ ys
drop_within zero xs ys h = refl
drop_within (suc k) [] ys h = absurd (omega arith)
drop_within (suc k) (x ∷ xs) ys h = drop_within k xs ys (omega arith)

absent_in :
    (i k : ℕ) (xs : List ℕ)
    → contains_id i xs ≡ false
    → (contains_id i (take k xs) ≡ false) × (contains_id i (drop k xs) ≡ false)
absent_in i k xs h =
    (ground (arith, contains_id-take-drop i k xs), ground (arith, contains_id-take-drop i k xs))

module _ (G : Groups) where
  -- The entries that an arrival evicts.
  abbrev pub evicted_by : ℕ → Group → List ℕ
  evicted_by j g = let es = g.stream ++ j ∷ [] in take (G.evicted stream_max_len es) es

  arrival_lem :
      (i j n : ℕ) (older newer : List ℕ) (g : Group)
      → g.stream ++ j ∷ [] ≡ older ++ i ∷ newer
      → contains_id i older ≡ false
      → length newer + n < stream_max_len
      → (contains_id i (evicted_by j g) ≡ false) × Survives n i (G.add stream_max_len j g)
  arrival_lem i j n older newer g split fresh few =
      let es = older ++ i ∷ newer in
      let k = G.evicted stream_max_len es in
      let within : k ≤ length older =
        omega (arith, G.evicted_lem stream_max_len es, length-append older (i ∷ newer), few) in
      let (gone, left) = absent_in i k older fresh in
      rw (G.add_lem stream_max_len j g, split)
        (
          ap (contains_id i) (take_within k older (i ∷ newer) within) ∙ gone,
          record {
            older = drop k older;
            newer = newer;
            split = drop_within k older (i ∷ newer) within;
            fresh = left;
            few = few;
          },
        )

  -- A new entry is not evicted on its own arrival.
  pub added-Survives :
      (i n : ℕ) (g : Group)
      → contains_id i g.stream ≡ false
      → n < stream_max_len
      → (contains_id i (evicted_by i g) ≡ false) × Survives n i (G.add stream_max_len i g)
  added-Survives i n g fresh few = arrival_lem i i n g.stream [] g refl fresh (omega arith)

  pub arrival-Survives :
      (i j n : ℕ) (g : Group)
      → Survives (suc n) i g
      → (contains_id i (evicted_by j g) ≡ false) × Survives n i (G.add stream_max_len j g)
  arrival-Survives i j n g s =
      arrival_lem i j n s.older (s.newer ++ j ∷ []) g
        (ap (λ (es : List ℕ). es ++ j ∷ []) s.split ∙ append_assoc s.older (i ∷ s.newer) (j ∷ []))
        s.fresh (omega (arith, s.few, length-append s.newer (j ∷ [])))

  pub frame-Survives :
      (n i : ℕ) (g h : Group) → h.stream ≡ g.stream → Survives n i g → Survives n i h
  frame-Survives n i g h same s = record {
    older = s.older;
    newer = s.newer;
    split = same ∙ s.split;
    fresh = s.fresh;
    few = s.few;
  }
