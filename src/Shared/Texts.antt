-- ===== src/Shared/Texts.antt =====
-- Go's strings package on texts: Split, SplitN, TrimSpace, Join.
use Prim.Native.Nat.{ℕ, zero, suc}
use Prim.Native.Char.{Char, code}
use Prim.Native.String.{String, [], ◌∷◌, ◌++◌}
use mathlib.Core.Path.{◌≡◌, refl, ap, ◌∙◌}
use mathlib.Core.Bool.{Bool, true, false, not, ◌&&◌, ◌||◌}
use mathlib.Core.Option.{Option, none, some}
use mathlib.Core.List.{List}
use native.Mathlib.Omega.{arith}
use text.Mathlib.TextLemmas.{nil-append, cons-append}
use matchmaking.Shared.Tests.{and_parts, not-false, leb, eqb, if◌then◌else◌}

-- The character is the one of this code point.
abbrev pub has_code : ℕ → Char → Bool
has_code k c = eqb (code c) k

-- Every character of the text passes a test.
abbrev pub all_chars : (Char → Bool) → String → Bool
all_chars p [] = true
all_chars p (c ∷ s) = p c && all_chars p s

-- A character in front of the first part.
abbrev pub onto_first : Char → List String → List String
onto_first c List.[] = List.◌∷◌ (c ∷ []) List.[]
onto_first c (List.◌∷◌ p ps) = List.◌∷◌ (c ∷ p) ps

-- strings.Split at a separator of one character.
unfoldable pub split : String → ℕ → List String
split [] sep = List.◌∷◌ [] List.[]
split (c ∷ s) sep =
    let rest = split s sep in if has_code sep c then List.◌∷◌ [] rest else onto_first c rest

-- strings.Cut: the text before the first separator, and what follows it if there is one.
unfoldable pub cut : String → ℕ → String × Option String
cut [] sep = ([], none)
cut (c ∷ s) sep =
    let (before, after) = cut s sep in if has_code sep c then ([], some s) else (c ∷ before, after)

-- The part before a cut and the parts of what follows it; the text itself if it was not cut.
abbrev pub parts_of : String → (String → List String) → String × Option String → List String
parts_of s parts (before, none) = List.◌∷◌ s List.[]
parts_of s parts (before, some after) = List.◌∷◌ before (parts after)

-- strings.SplitN: at most n parts, for a positive n; the last one is the text that is left.
unfoldable pub split_n : String → ℕ → ℕ → List String
unfolding cut
split_n s sep zero = List.[]
split_n s sep (suc zero) = List.◌∷◌ s List.[]
split_n s sep (suc (suc n)) = parts_of s (λ after. split_n after sep (suc n)) (cut s sep)

-- strings.Join
unfoldable pub join : List String → String → String
join List.[] sep = []
join (List.◌∷◌ p List.[]) sep = p
join (List.◌∷◌ p (List.◌∷◌ q ps)) sep = p ++ sep ++ join (List.◌∷◌ q ps) sep

-- unicode.IsSpace
unfoldable pub is_space : Char → Bool
is_space c =
    let k = code c in
    (leb 9 k && leb k 13)
    || eqb k 32
    || eqb k 133
    || eqb k 160
    || eqb k 5760
    || (leb 8192 k && leb k 8202)
    || eqb k 8232
    || eqb k 8233
    || eqb k 8239
    || eqb k 8287
    || eqb k 12288

unfoldable pub trim_left : String → String
unfolding is_space
trim_left [] = []
trim_left (c ∷ s) = let rest = trim_left s in if is_space c then rest else c ∷ s

-- A character in front of a text that was trimmed on the right.
abbrev pub unless_blank : Char → String → String
unless_blank c [] = if is_space c then [] else c ∷ []
unless_blank c (d ∷ s) = c ∷ d ∷ s

unfoldable pub trim_right : String → String
unfolding is_space
trim_right [] = []
trim_right (c ∷ s) = unless_blank c (trim_right s)

-- strings.TrimSpace
unfoldable pub trim_space : String → String
unfolding trim_left trim_right
trim_space s = trim_right (trim_left s)

-- A text without separators in front of a separator is the first part.
pub split-append :
    (p rest : String) (sep : ℕ) (comma : Char)
    → all_chars (λ c. not (has_code sep c)) p ≡ true
    → has_code sep comma ≡ true
    → split (p ++ comma ∷ rest) sep ≡ List.◌∷◌ p (split rest sep)
unfolding split
split-append [] rest sep comma lacks is = rw nil-append (ground arith)
split-append (c ∷ p) rest sep comma lacks is =
    rw cons-append (ground (arith, split-append p rest sep comma))

pub split-lacks :
    (p : String) (sep : ℕ)
    → all_chars (λ c. not (has_code sep c)) p ≡ true
    → split p sep ≡ List.◌∷◌ p List.[]
unfolding split
split-lacks [] sep lacks = refl
split-lacks (c ∷ p) sep lacks = ground (arith, split-lacks p sep)

pub cut-append :
    (p rest : String) (sep : ℕ) (slash : Char)
    → all_chars (λ c. not (has_code sep c)) p ≡ true
    → has_code sep slash ≡ true
    → cut (p ++ slash ∷ rest) sep ≡ (p, some rest)
unfolding cut
cut-append [] rest sep slash lacks is = rw nil-append (ground arith)
cut-append (c ∷ p) rest sep slash lacks is =
    rw cons-append (ground (arith, cut-append p rest sep slash))

pub split_n-cut :
    (s : String) (sep n : ℕ) (a b : String)
    → cut s sep ≡ (a, some b)
    → split_n s sep (suc (suc n)) ≡ List.◌∷◌ a (split_n b sep (suc n))
unfolding split_n
split_n-cut s sep n a b e = ap (parts_of s (λ after. split_n after sep (suc n))) e

unless_blank-plain : (c : Char) (s : String) → is_space c ≡ false → unless_blank c s ≡ c ∷ s
unless_blank-plain c [] h = rw h
unless_blank-plain c (d ∷ s) h = refl

-- A text without blanks is trimmed to itself.
trim_right-plain : (s : String) → all_chars (λ c. not (is_space c)) s ≡ true → trim_right s ≡ s
unfolding trim_right
trim_right-plain [] h = refl
trim_right-plain (c ∷ s) h =
    let (first, others) = and_parts (not (is_space c)) (all_chars (λ d. not (is_space d)) s) h in
    rw (trim_right-plain s others) (unless_blank-plain c s (not-false (is_space c) first))

trim_left-plain : (s : String) → all_chars (λ c. not (is_space c)) s ≡ true → trim_left s ≡ s
unfolding trim_left
trim_left-plain [] h = refl
trim_left-plain (c ∷ s) h =
    let (first, others) = and_parts (not (is_space c)) (all_chars (λ d. not (is_space d)) s) h in
    rw (not-false (is_space c) first)

pub trim_space-plain : (s : String) → all_chars (λ c. not (is_space c)) s ≡ true → trim_space s ≡ s
unfolding trim_space
trim_space-plain s h = ap trim_right (trim_left-plain s h) ∙ trim_right-plain s h

pub all_chars-append :
    (p : Char → Bool) (s t : String)
    → all_chars p s ≡ true
    → all_chars p t ≡ true
    → all_chars p (s ++ t) ≡ true
all_chars-append p [] t hs ht = rw nil-append ht
all_chars-append p (c ∷ s) t hs ht =
    let (first, others) = and_parts (p c) (all_chars p s) hs in
    rw (cons-append, first) (all_chars-append p s t others ht)
