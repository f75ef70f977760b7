-- ===== src/Worker/Select/Reference.antt =====
-- selectGroup against a reference: the anchor and the first entries that fit, in order.
use matchmaking.Shared.{
  ℕ, zero, suc, ◌+◌, ◌≤◌, ◌≡◌, refl, ap, sym, Bool, true, false, some, List, [], ◌∷◌, ◌++◌, arith,
  leb, length, length-append, take, keep, min, replicate, if◌then◌else◌,
}
use mathlib.Core.List.{append_assoc, append-nil}
use matchmaking.Model.{Time}
use matchmaking.Worker.Select.{
  BufferedEntry, fill_group, unchosen, select_group, in_window, rating_window,
}

-- What is left of a list without its first `k` elements that pass the test.
abbrev pub leave {ℓ} : {A : Type ℓ} → (A → Bool) → ℕ → List A → List A
leave p zero xs = xs
leave p (suc k) [] = []
leave p (suc k) (x ∷ xs) =
    let all = leave p (suc k) xs in let fewer = leave p k xs in if p x then fewer else x ∷ all

module _ (fits : BufferedEntry → Bool) (n : ℕ) where
  -- With room for `k` more the loop takes the first `k` entries that fit.
  fill_group-group :
      (k : ℕ) (group rest : List BufferedEntry)
      → n ≡ length group + k
      → (fill_group fits n group rest).0 ≡ group ++ take k (keep fits rest)
  unfolding fill_group
  fill_group-group zero group [] e = sym (append-nil group)
  fill_group-group (suc k) group [] e = sym (append-nil group)
  fill_group-group zero group (be ∷ rest) e = ground (arith, append-nil group)
  fill_group-group (suc k) group (be ∷ rest) e = ground (
    arith,
    fill_group-group (suc k) group rest e,
    fill_group-group k (group ++ be ∷ []) rest,
    length-append group (be ∷ []),
    append_assoc group (be ∷ []) (take k (keep fits rest)),
  )

  unchosen-none : (xs : List BufferedEntry) → unchosen xs (replicate (length xs) false) ≡ xs
  unfolding unchosen
  unchosen-none [] = refl
  unchosen-none (x ∷ xs) = ap (◌∷◌ x) (unchosen-none xs)

  -- What the loop does not take keeps its order.
  fill_group-unchosen :
      (k : ℕ) (group rest : List BufferedEntry)
      → n ≡ length group + k
      → unchosen rest (fill_group fits n group rest).1 ≡ leave fits k rest
  unfolding fill_group unchosen
  fill_group-unchosen zero group [] e = refl
  fill_group-unchosen (suc k) group [] e = refl
  fill_group-unchosen zero group (be ∷ rest) e = ground (arith, unchosen-none (be ∷ rest))
  fill_group-unchosen (suc k) group (be ∷ rest) e = ground (
    arith,
    fill_group-unchosen (suc k) group rest e,
    fill_group-unchosen k (group ++ be ∷ []) rest,
    length-append group (be ∷ []),
  )

-- An entry that the anchor's window admits.
abbrev pub fits_anchor : Time → BufferedEntry → BufferedEntry → Bool
fits_anchor now anchor = in_window (rating_window now anchor.entry.enqueued_at) anchor.entry

pub length-keep-le {ℓ} : {A : Type ℓ} (p : A → Bool) (xs : List A) → length (keep p xs) ≤ length xs
length-keep-le p [] = omega arith
length-keep-le p (x ∷ xs) = ground (arith, length-keep-le p xs)

pub length-take {ℓ} : {A : Type ℓ} (n : ℕ) (xs : List A) → length (take n xs) ≡ min n (length xs)
length-take zero xs = omega arith
length-take (suc n) [] = omega arith
length-take (suc n) (x ∷ xs) = omega (arith, length-take n xs)

-- For a group size of k + 1 selectGroup finds a group exactly when k entries behind the first one
-- fit its window; the group is then the first entry and the first k that fit, in order, and the
-- rest keeps its order. Otherwise the buffer comes back unchanged. It never panics.
pub select_group-eq-reference :
    (k : ℕ) (anchor : BufferedEntry) (rest : List BufferedEntry) (now : Time)
    → select_group (anchor ∷ rest) (suc k) now ≡ (
        if leb k (length (keep (fits_anchor now anchor) rest))
        then some (
          anchor ∷ take k (keep (fits_anchor now anchor) rest),
          leave (fits_anchor now anchor) k rest,
          true,
        )
        else some ([], anchor ∷ rest, false))
unfolding select_group
select_group-eq-reference k anchor rest now =
    let fits = fits_anchor now anchor in
    ground (
      arith,
      fill_group-group fits (suc k) k (anchor ∷ []) rest (omega arith),
      fill_group-unchosen fits (suc k) k (anchor ∷ []) rest (omega arith),
      length-keep-le fits rest,
      length-take k (keep fits rest),
    )
