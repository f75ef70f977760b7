-- ===== src/Redis/Scores.antt =====
-- A sorted set as a table from members to scores, and what the documented operations do to it.
use matchmaking.Shared.{
  keep, Bool, ℕ, zero, suc, String, ◌≡◌, refl, Option, none, some, List, [], ◌∷◌, ◌++◌, arith,
  str_eq, eq_iff, take, drop, if◌then◌else◌,
}
use matchmaking.Redis.{Scored, contains, insert_scored, without_scored, with_scored}

-- ZSCORE
unfoldable pub score_of : String → List Scored → Option ℕ
score_of m [] = none
score_of m (b ∷ bs) = let rest = score_of m bs in if str_eq m b.member then some b.score else rest

pub score_of-nil : (m : String) → score_of m [] ≡ none
unfolding score_of
score_of-nil m = refl

abbrev pub or_else {ℓ} : {A : Type ℓ} → Option A → Option A → Option A
or_else none y = y
or_else (some a) y = some a

-- Every member stands once.
abbrev pub IsUnique : List Scored → Type 0
IsUnique [] = Unit
IsUnique (b ∷ bs) = (score_of b.member bs ≡ none) × IsUnique bs

pub score_of-without_scored :
    (m : String) (xs : List String) (bs : List Scored)
    → score_of m (without_scored xs bs) ≡ (if contains m xs then none else score_of m bs)
unfolding score_of without_scored
score_of-without_scored m xs [] = ground arith
score_of-without_scored m xs (b ∷ bs) =
    ground (arith, score_of-without_scored m xs bs, eq_iff m b.member)

score_of-insert_scored :
    (m : String) (a : Scored) (bs : List Scored)
    → score_of a.member bs ≡ none
    → score_of m (insert_scored a bs) ≡ (if str_eq m a.member then some a.score else score_of m bs)
unfolding score_of insert_scored
score_of-insert_scored m a [] h = refl
score_of-insert_scored m a (b ∷ bs) h = ground (
  arith,
  score_of-insert_scored m a bs,
  eq_iff m a.member,
  eq_iff m b.member,
  eq_iff a.member b.member,
)

-- ZADD sets the score of one member.
pub score_of-with_scored :
    (m : String) (a : Scored) (bs : List Scored)
    → score_of m (with_scored a bs) ≡ (if str_eq m a.member then some a.score else score_of m bs)
unfolding with_scored contains
score_of-with_scored m a bs = ground (
  arith,
  score_of-insert_scored m a (without_scored (a.member ∷ []) bs),
  score_of-without_scored m (a.member ∷ []) bs,
  score_of-without_scored a.member (a.member ∷ []) bs,
  eq_iff m a.member,
  eq_iff a.member a.member,
)

pub score_of-append :
    (m : String) (xs ys : List Scored)
    → score_of m (xs ++ ys) ≡ or_else (score_of m xs) (score_of m ys)
unfolding score_of
score_of-append m [] ys = refl
score_of-append m (x ∷ xs) ys = ground (arith, score_of-append m xs ys)

pub score_of-take-drop :
    (m : String) (n : ℕ) (bs : List Scored)
    → or_else (score_of m (take n bs)) (score_of m (drop n bs)) ≡ score_of m bs
unfolding score_of
score_of-take-drop m zero bs = refl
score_of-take-drop m (suc n) [] = refl
score_of-take-drop m (suc n) (b ∷ bs) = ground (arith, score_of-take-drop m n bs)

pub IsUnique-take : (n : ℕ) (bs : List Scored) → IsUnique bs → IsUnique (take n bs)
IsUnique-take zero bs u = tt
IsUnique-take (suc n) [] u = tt
IsUnique-take (suc n) (b ∷ bs) (f, u) =
    (ground (arith, score_of-take-drop b.member n bs), IsUnique-take n bs u)

score_of-keep :
    (p : Scored → Bool) (m : String) (bs : List Scored)
    → score_of m bs ≡ none
    → score_of m (keep p bs) ≡ none
unfolding score_of
score_of-keep p m [] h = refl
score_of-keep p m (b ∷ bs) h = ground (arith, score_of-keep p m bs)

IsUnique-keep : (p : Scored → Bool) (bs : List Scored) → IsUnique bs → IsUnique (keep p bs)
IsUnique-keep p [] u = tt
IsUnique-keep p (b ∷ bs) (f, u) =
    ground (arith, IsUnique-keep p bs u, score_of-keep p b.member bs f)

-- ZREM keeps every member single.
pub IsUnique-without_scored :
    (xs : List String) (bs : List Scored) → IsUnique bs → IsUnique (without_scored xs bs)
unfolding without_scored
IsUnique-without_scored xs bs u = IsUnique-keep _ bs u

IsUnique-insert_scored :
    (a : Scored) (bs : List Scored)
    → score_of a.member bs ≡ none
    → IsUnique bs
    → IsUnique (insert_scored a bs)
unfolding insert_scored score_of
IsUnique-insert_scored a [] h u = (refl, tt)
IsUnique-insert_scored a (b ∷ bs) h (f, u) = ground (
  arith,
  IsUnique-insert_scored a bs,
  score_of-insert_scored b.member a bs,
  eq_iff a.member b.member,
  eq_iff b.member a.member,
)

-- ZADD keeps every member single.
pub IsUnique-with_scored :
    (a : Scored) (bs : List Scored) → IsUnique bs → IsUnique (with_scored a bs)
unfolding with_scored contains
IsUnique-with_scored a bs u =
    IsUnique-insert_scored a (without_scored (a.member ∷ []) bs)
      (ground
        (arith, score_of-without_scored a.member (a.member ∷ []) bs, eq_iff a.member a.member))
      (IsUnique-without_scored (a.member ∷ []) bs u)
