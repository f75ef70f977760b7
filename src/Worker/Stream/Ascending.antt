-- ===== src/Worker/Stream/Ascending.antt =====
-- Lists of ids that grow, as a server keeps the pending entries of a group.
use matchmaking.Shared.{
  ℕ, zero, suc, ◌≤◌, ◌<◌, ◌≡◌, refl, ap, ◌∙◌, sym, subst, Bool, false, not, ◌&&◌, List, [], ◌∷◌,
  arith, leb, ltb, eqb, length, take, drop, keep, All, Bool-cases, inl, inr,
}
use matchmaking.Redis.Groups.{from, without_id}
use matchmaking.Redis.Groups.{contains_id}

abbrev pub IsAscending : List ℕ → Type 0
IsAscending [] = Unit
IsAscending (i ∷ is) = All (λ j. i < j) is × IsAscending is

All-keep : (p : ℕ → Bool) (i : ℕ) (is : List ℕ) → All (λ j. i < j) is → All (λ j. i < j) (keep p is)
All-keep p i [] h = tt
All-keep p i (j ∷ is) (h, hs) = elim (Bool-cases (p j)) [
  | inl e ↦ rw e (h, All-keep p i is hs)
  | inr e ↦ rw e (All-keep p i is hs)
]

pub keep-IsAscending : (p : ℕ → Bool) (is : List ℕ) → IsAscending is → IsAscending (keep p is)
keep-IsAscending p [] h = tt
keep-IsAscending p (i ∷ is) (h, hs) = elim (Bool-cases (p i)) [
  | inl e ↦ rw e (All-keep p i is h, keep-IsAscending p is hs)
  | inr e ↦ rw e (keep-IsAscending p is hs)
]

All-drop : (P : ℕ → Type 0) (n : ℕ) (is : List ℕ) → All P is → All P (drop n is)
All-drop P zero is h = h
All-drop P (suc n) [] h = tt
All-drop P (suc n) (j ∷ is) (h, hs) = All-drop P n is hs

from-All : (i : ℕ) (is : List ℕ) → All (λ j. i < j) is → from i is ≡ is
from-All i [] h = refl
from-All i (j ∷ is) (h, hs) = ground (arith, from-All i is hs)

from_self : (h : ℕ) (t : List ℕ) → IsAscending (h ∷ t) → from h (h ∷ t) ≡ h ∷ t
from_self h t (below, asc) = ground (arith, from-All h t below)

-- The cursor is reached again by its entry and those behind it.
from-drop : (n h : ℕ) (is t : List ℕ) → IsAscending is → drop n is ≡ h ∷ t → from h is ≡ h ∷ t
from-drop zero h is t asc e =
    subst (λ l. IsAscending l → from h l ≡ h ∷ t) (sym e) (from_self h t) asc
from-drop (suc n) h [] t asc e = absurd (ground arith)
from-drop (suc n) h (i ∷ is) t (below, asc) e =
    let (less, _) = subst (λ l. All (λ j. i < j) l) e (All-drop (λ j. i < j) n is below) in
    ground (arith, from-drop n h is t asc e)

from-from : (s h : ℕ) (is : List ℕ) → s ≤ h → from h (from s is) ≡ from h is
from-from s h [] le = refl
from-from s h (i ∷ is) le = ground (arith, from-from s h is le)

All-from : (s : ℕ) (is : List ℕ) → All (λ j. s ≤ j) (from s is)
All-from s [] = tt
All-from s (i ∷ is) = elim (Bool-cases (leb s i)) [
  | inl e ↦ rw e (ground arith, All-from s is)
  | inr e ↦ rw e (All-from s is)
]

length-drop_less : (n h : ℕ) (is t : List ℕ) → drop (suc n) is ≡ h ∷ t → suc (length t) < length is
length-drop_less n h [] t e = absurd (ground arith)
length-drop_less zero h (i ∷ is) t e = omega (arith, ap length e)
length-drop_less (suc n) h (i ∷ is) t e = omega (arith, length-drop_less n h is t e)

-- A claim that does not reach the end goes on further up, and with fewer entries.
pub cursor_advances :
    (s n h : ℕ) (is t : List ℕ)
    → IsAscending is
    → drop (suc n) (from s is) ≡ h ∷ t
    → (s ≤ h) × (length (from h is) < length (from s is))
cursor_advances s n h is t asc e =
    let (le, _) =
      subst (λ l. All (λ j. s ≤ j) l) e
        (All-drop (λ j. s ≤ j) (suc n) (from s is) (All-from s is)) in
    let again : from h is ≡ h ∷ t =
      sym (from-from s h is le)
      ∙ from-drop (suc n) h (from s is) t (keep-IsAscending (leb s) is asc) e in
    (le, omega (arith, ap length again, length-drop_less n h (from s is) t e))

pub cursor_positive : (n h : ℕ) (is t : List ℕ) → IsAscending is → drop (suc n) is ≡ h ∷ t → 0 < h
cursor_positive n h [] t asc e = absurd (ground arith)
cursor_positive n h (i ∷ is) t (below, asc) e =
    let (less, _) = subst (λ l. All (λ j. i < j) l) e (All-drop (λ j. i < j) n is below) in
    omega (arith, less)

pub contains_id-without :
    (i j : ℕ) (is : List ℕ) → contains_id j (without_id i is) ≡ (contains_id j is && not (eqb j i))
contains_id-without i j [] = refl
contains_id-without i j (k ∷ is) = ground (arith, contains_id-without i j is)

pub from_fewer :
    (p : ℕ → Bool) (s : ℕ) (is : List ℕ) → length (from s (keep p is)) ≤ length (from s is)
from_fewer p s [] = omega arith
from_fewer p s (i ∷ is) = ground (arith, from_fewer p s is)

pub contains_id-from :
    (i s : ℕ) (is : List ℕ) → contains_id i (from s is) ≡ (contains_id i is && leb s i)
contains_id-from i s [] = refl
contains_id-from i s (j ∷ is) = ground (arith, contains_id-from i s is)

not_below : (i j : ℕ) (is : List ℕ) → All (λ k. j < k) is → i ≤ j → contains_id i is ≡ false
not_below i j [] h le = refl
not_below i j (k ∷ is) (h, hs) le = ground (arith, not_below i j is hs le)

-- A claim takes the entries below its cursor.
pub contains_id-take :
    (i n h : ℕ) (is t : List ℕ)
    → IsAscending is
    → drop n is ≡ h ∷ t
    → contains_id i (take n is) ≡ (contains_id i is && ltb i h)
contains_id-take i zero h is t asc e =
    subst (λ l. IsAscending l → false ≡ (contains_id i l && ltb i h)) (sym e)
      (λ a. ground (arith, not_below i h t a.0)) asc
contains_id-take i (suc n) h [] t asc e = refl
contains_id-take i (suc n) h (j ∷ is) t (below, asc) e =
    let (less, _) = subst (λ l. All (λ k. j < k) l) e (All-drop (λ k. j < k) n is below) in
    ground (arith, contains_id-take i n h is t asc e)

pub take-all : (n : ℕ) (is : List ℕ) → drop n is ≡ [] → take n is ≡ is
take-all zero is e = sym e
take-all (suc n) [] e = refl
take-all (suc n) (i ∷ is) e = ap (λ l. i ∷ l) (take-all n is e)
