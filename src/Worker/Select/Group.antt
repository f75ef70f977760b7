-- ===== src/Worker/Select/Group.antt =====
-- What a group that selectGroup returns guarantees.
use mathlib.Core.List.{Perm, perm_middle}
use mathlib.Core.List.Perm
use matchmaking.Shared.{
  leb, ◌⊎◌, false, ℕ, zero, suc, ◌+◌, ◌≤◌, ◌<◌, ◌≡◌, ◌≢◌, ap, Bool, true, some, List, [], ◌∷◌, ◌++◌,
  arith, length, take, keep, All, Bool-cases, inl, inr,
}
use matchmaking.Shared.Int.{ℤ, pos, ◌≤ℤ◌}
use matchmaking.Model.{Time}
use matchmaking.Worker.Select.{BufferedEntry, select_group, in_window}
use matchmaking.Worker.Select.Window.{rating_diff_exact, rating_window-le}
use matchmaking.Worker.Select.Reference.{leave, fits_anchor, select_group-eq-reference, length-take}

-- The first `k` that pass and the rest are the list, in another order.
take-leave-perm {ℓ} :
    {A : Type ℓ} (p : A → Bool) (k : ℕ) (xs : List A) → Perm xs (take k (keep p xs) ++ leave p k xs)
take-leave-perm p zero xs = Perm.refl xs
take-leave-perm p (suc k) [] = Perm.nil
take-leave-perm p (suc k) (x ∷ xs) = elim (Bool-cases (p x)) [
  | inl e ↦ rw e (Perm.cons x (take-leave-perm p k xs))
  | inr e ↦ rw e (
      Perm.trans (Perm.cons x (take-leave-perm p (suc k) xs))
        (Perm.symm (perm_middle (take (suc k) (keep p xs)) (leave p (suc k) xs))))
]

length-leave {ℓ} :
    {A : Type ℓ} (p : A → Bool) (k : ℕ) (xs : List A)
    → k ≤ length (keep p xs)
    → length (leave p k xs) + k ≡ length xs
length-leave p zero xs h = omega arith
length-leave p (suc k) [] h = absurd (omega arith)
length-leave p (suc k) (x ∷ xs) h = ground (arith, length-leave p k xs, length-leave p (suc k) xs)

-- The parts of a found group, by the reference.
select_group-found :
    (k : ℕ) (anchor : BufferedEntry) (rest : List BufferedEntry) (now : Time)
    {group remaining : List BufferedEntry}
    → select_group (anchor ∷ rest) (suc k) now ≡ some (group, remaining, true)
    → (k ≤ length (keep (fits_anchor now anchor) rest))
      × (group ≡ anchor ∷ take k (keep (fits_anchor now anchor) rest))
      × (remaining ≡ leave (fits_anchor now anchor) k rest)
select_group-found k anchor rest now e = ground (arith, select_group-eq-reference k anchor rest now)

not-found-nil :
    (k : ℕ) (now : Time) (r : List BufferedEntry × List BufferedEntry)
    → select_group [] (suc k) now ≢ some (r.0, r.1, true)
unfolding select_group
not-found-nil k now r e = ground arith

-- For a positive size n, a group that selectGroup finds has exactly n players, and with the
-- remaining buffer it makes up the buffer: no entry is lost or used twice.
pub select_group-perm :
    (buffer : List BufferedEntry) (n : ℕ) (now : Time) {group remaining : List BufferedEntry}
    → 0 < n
    → select_group buffer n now ≡ some (group, remaining, true)
    → (length group ≡ n) × (length remaining + n ≡ length buffer) × Perm buffer (group ++ remaining)
select_group-perm buffer zero now h e = absurd (omega arith)
select_group-perm [] (suc k) now {group} {remaining} h e =
    absurd (not-found-nil k now (group, remaining) e)
select_group-perm (anchor ∷ rest) (suc k) now {group} {remaining} h e =
    let (enough, g, r) = select_group-found k anchor rest now e in
    let fits = fits_anchor now anchor in
    (
      omega (arith, ap (length {A = BufferedEntry}) g, length-take k (keep fits rest)),
      omega (arith, ap (length {A = BufferedEntry}) r, length-leave fits k rest enough),
      rw (g, r) (Perm.cons anchor (take-leave-perm fits k rest)),
    )

All-take-keep {ℓ κ} :
    {A : Type ℓ} (P : A → Type κ) (p : A → Bool) (k : ℕ) (xs : List A)
    → ((x : A) → p x ≡ true → P x)
    → All P (take k (keep p xs))
All-take-keep P p zero xs h = tt
All-take-keep P p (suc k) [] h = tt
All-take-keep P p (suc k) (x ∷ xs) h = elim (Bool-cases (p x)) [
  | inl e ↦ rw e (h x e, All-take-keep P p k xs h)
  | inr e ↦ rw e (All-take-keep P p (suc k) xs h)
]

-- The rating of an entry is not negative: the ratings that the service hands out.
abbrev pub HasRating : BufferedEntry → ℕ → Type 0
HasRating be r = (be.entry.rating ≡ pos r) × (r < 2147483648)

-- The anchor's rating `a` is at most `d` away.
abbrev pub IsNear : ℕ → ℕ → BufferedEntry → Type 0
IsNear a d be = (r : ℕ) → HasRating be r → (r ≤ a + d) × (a ≤ r + d)

in_window-IsNear :
    (window : ℤ) (anchor be : BufferedEntry) (a r : ℕ)
    → window ≤ℤ pos 300
    → HasRating anchor a
    → HasRating be r
    → in_window window anchor.entry be ≡ true
    → (r ≤ a + 300) × (a ≤ r + 300)
unfolding in_window
in_window-IsNear window anchor be a r w (ha, la) (hr, lr) e =
    ground (arith, rating_diff_exact r a lr la)

-- For a positive size and an anchor at the head of the buffer whose rating is not negative and fits
-- an int32, a group that selectGroup finds starts with the anchor, and nobody else in it whose
-- rating is such a number is more than 300 points away.
pub select_group-IsNear :
    (anchor : BufferedEntry) (rest : List BufferedEntry) (n : ℕ) (now : Time) (a : ℕ)
    {group remaining : List BufferedEntry}
    → 0 < n
    → HasRating anchor a
    → select_group (anchor ∷ rest) n now ≡ some (group, remaining, true)
    → (others : List BufferedEntry) × (group ≡ anchor ∷ others) × All (IsNear a 300) others
select_group-IsNear anchor rest zero now a h rated e = absurd (omega arith)
select_group-IsNear anchor rest (suc k) now a h rated e =
    let fits = fits_anchor now anchor in
    let (enough, g, r) = select_group-found k anchor rest now e in
    (
      take k (keep fits rest),
      g,
      All-take-keep (IsNear a 300) fits k rest (λ be hit r hr.
          in_window-IsNear _ anchor be a r (rating_window-le now anchor.entry.enqueued_at) rated hr
            hit),
    )

-- selectGroup either leaves the buffer as it is, or splits it into a group of n and the rest.
pub select_group-cases :
    (buffer : List BufferedEntry) (n : ℕ) (now : Time)
    → 0 < n
    → (select_group buffer n now ≡ some ([], buffer, false))
      ⊎ ((group : List BufferedEntry) × (remaining : List BufferedEntry) × (select_group buffer n
              now
            ≡ some (group, remaining, true)))
select_group-cases buffer zero now h = absurd (omega arith)
select_group-cases [] (suc k) now h = unfold select_group in inl (ground arith)
select_group-cases (anchor ∷ rest) (suc k) now h =
    let fits = fits_anchor now anchor in
    elim (Bool-cases (leb k (length (keep fits rest)))) [
      | inl enough ↦ inr (
        anchor ∷ take k (keep fits rest),
        leave fits k rest,
        rw (select_group-eq-reference k anchor rest now, enough),
      )
      | inr few ↦ inl (rw (select_group-eq-reference k anchor rest now, few))
    ]
