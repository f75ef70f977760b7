-- ===== src/Worker/Pop/Occurs.antt =====
-- How often a member stands in a list, and whether it stands in a sorted set.
use mathlib.Core.Logic.{∥∥₁_elim}
use mathlib.Core.List.{Perm, Permᴰ}
use native.Mathlib.Nat.{ℕ_set}
use matchmaking.Shared.{
  ℕ, zero, suc, ◌+◌, ◌≤◌, String, ◌≡◌, refl, ap, ◌∙◌, Bool, true, false, ◌||◌, Option, none, some,
  List, [], ◌∷◌, ◌++◌, map, arith, str_eq, eq_iff, take, drop, if◌then◌else◌,
}
use matchmaking.Effects.{answered}
use matchmaking.Redis.{Redis, Keyspace, Scored, contains}
use matchmaking.Redis.Scores.{score_of, or_else, IsUnique, score_of-take-drop, score_of-with_scored}
use matchmaking.Redis.Frames.{zsets-zadd}
use matchmaking.Worker.Scripts.{zadd_all}
use matchmaking.Worker.Select.{BufferedEntry}
use matchmaking.Worker.Pop.{members}

abbrev pub occurs : String → List String → ℕ
occurs m [] = 0
occurs m (x ∷ xs) = let rest = occurs m xs in if str_eq m x then suc rest else rest

abbrev pub listed : String → List Scored → Bool
listed m zs = answered (score_of m zs)

abbrev pub scored_members : List Scored → List String
scored_members = map (λ z. z.member)

pub occurs-append :
    (m : String) (xs ys : List String) → occurs m (xs ++ ys) ≡ occurs m xs + occurs m ys
occurs-append m [] ys = omega arith
occurs-append m (x ∷ xs) ys = ground (arith, occurs-append m xs ys)

pub members-append : (xs ys : List BufferedEntry) → members (xs ++ ys) ≡ members xs ++ members ys
members-append [] ys = refl
members-append (x ∷ xs) ys = ap (λ l. x.member ∷ l) (members-append xs ys)

pub occurs-contains : (m : String) (xs : List String) → contains m xs ≡ true → 1 ≤ occurs m xs
unfolding contains
occurs-contains m [] h = absurd (ground arith)
occurs-contains m (x ∷ xs) h = ground (arith, occurs-contains m xs)

swapped :
    (m : String) (c d : BufferedEntry) (n : ℕ)
    → (if str_eq m d.member
        then suc (if str_eq m c.member then suc n else n)
        else if str_eq m c.member
        then suc n
        else n)
      ≡ (if str_eq m c.member
          then suc (if str_eq m d.member then suc n else n)
          else if str_eq m d.member
          then suc n
          else n)
swapped m c d n = ground arith

same_member :
    (m : String) (a b : BufferedEntry) (n : ℕ)
    → a ≡ b
    → (if str_eq m a.member then suc n else n) ≡ (if str_eq m b.member then suc n else n)
same_member m a b n e = ap (λ (x : BufferedEntry). if str_eq m x.member then suc n else n) e

occurs-moved :
    (m : String) {xs ys : List BufferedEntry}
    → Permᴰ xs ys
    → occurs m (members xs) ≡ occurs m (members ys)
occurs-moved m Permᴰ.nil = refl
occurs-moved m (Permᴰ.cons {a} {b} {l₁} {l₂} e p) =
    ap (λ (n : ℕ). if str_eq m a.member then suc n else n) (occurs-moved m p)
    ∙ same_member m a b (occurs m (members l₂)) e
occurs-moved m (Permᴰ.swap {a} {b} {a'} {b'} {l} e f) =
    ap (λ (n : ℕ). if str_eq m a.member then suc n else n)
      (same_member m b a' (occurs m (members l)) f)
    ∙ same_member m a b' (occurs m (members (a' ∷ l))) e
    ∙ swapped m a' b' (occurs m (members l))
occurs-moved m (Permᴰ.trans p q) = occurs-moved m p ∙ occurs-moved m q

-- An order does not matter to how often a member stands.
pub occurs-perm :
    (m : String) {xs ys : List BufferedEntry}
    → Perm xs ys
    → occurs m (members xs) ≡ occurs m (members ys)
occurs-perm m {xs} {ys} p =
    ∥∥₁_elim p (ℕ_set (occurs m (members xs)) (occurs m (members ys))) (λ d. occurs-moved m d)

pub listed-occurs :
    (m : String) (zs : List Scored) → 1 ≤ occurs m (scored_members zs) → listed m zs ≡ true
unfolding score_of
listed-occurs m [] h = absurd (omega arith)
listed-occurs m (z ∷ zs) h = ground (arith, listed-occurs m zs)

pub occurs_unique : (m : String) (zs : List Scored) → IsUnique zs → occurs m (scored_members zs) ≤ 1
occurs_unique m [] u = omega arith
occurs_unique m (z ∷ zs) (f, u) =
    ground (arith, occurs_unique m zs u, listed-occurs m zs, eq_iff m z.member)

pub listed-or_else : (x y : Option ℕ) → answered (or_else x y) ≡ (answered x || answered y)
listed-or_else none y = refl
listed-or_else (some a) y = refl

pub IsUnique-drop : (n : ℕ) (zs : List Scored) → IsUnique zs → IsUnique (drop n zs)
IsUnique-drop zero zs u = u
IsUnique-drop (suc n) [] u = tt
IsUnique-drop (suc n) (z ∷ zs) (f, u) = IsUnique-drop n zs u

-- A member in the head of a set where each stands once is not in the tail.
pub unique_halves :
    (m : String) (n : ℕ) (zs : List Scored)
    → IsUnique zs
    → listed m (drop n zs) ≡ true
    → listed m (take n zs) ≡ false
unfolding score_of
unique_halves m zero zs u h = refl
unique_halves m (suc n) [] u h = refl
unique_halves m (suc n) (z ∷ zs) (f, u) h =
    ground (arith, unique_halves m n zs u h, score_of-take-drop m n zs, eq_iff m z.member)

pub listed-zadd_all :
    (R : Redis) (k m : String) (es : List Scored) (s : Keyspace)
    → listed m ((zadd_all R k es s).zsets k) ≡ (listed m es || listed m (s.zsets k))
unfolding zadd_all score_of
listed-zadd_all R k m [] s = refl
listed-zadd_all R k m (e ∷ es) s = ground (
  arith,
  listed-zadd_all R k m es (R.zadd k e.score e.member s),
  zsets-zadd R k e.score e.member s k,
  eq_iff k k,
  score_of-with_scored m (record { member = e.member; score = e.score }) (s.zsets k),
)
