-- ===== src/Shared/Decimal.antt =====
-- Decimal numbers: fmt's %d, and strconv's ParseInt.
use Prim.Native.Nat.{ℕ, zero, suc, ◌+◌, ◌*◌, ◌-◌, ◌/◌, ◌%◌, ◌<◌, ◌≤◌}
use Prim.Native.Char.{Char, code}
use Prim.Native.String.{String, [], ◌∷◌}
use mathlib.Core.Path.{◌≡◌, refl, sym, ap, ◌∙◌}
use mathlib.Core.Logic.{inl, inr}
use mathlib.Core.Bool.{Bool, true, false, ◌&&◌}
use mathlib.Core.Option.{Option, none, some}
use native.Mathlib.Omega.{arith}
use matchmaking.Shared.Tests.{ltb, leb, eqb, if◌then◌else◌, Bool-cases}
use matchmaking.Shared.Int.{ℤ, pos, negsuc, pos_part, neg_part, sub_ℕ}

digit : ℕ → Char
digit zero = "0"
digit (suc zero) = "1"
digit (suc (suc zero)) = "2"
digit (suc (suc (suc zero))) = "3"
digit (suc (suc (suc (suc zero)))) = "4"
digit (suc (suc (suc (suc (suc zero))))) = "5"
digit (suc (suc (suc (suc (suc (suc zero)))))) = "6"
digit (suc (suc (suc (suc (suc (suc (suc zero))))))) = "7"
digit (suc (suc (suc (suc (suc (suc (suc (suc zero)))))))) = "8"
digit _ = "9"

-- The fuel bounds the number of digits.
print_digits : ℕ → ℕ → String → String
print_digits zero n acc = acc
print_digits (suc fuel) n acc =
    let text = digit (n % 10) ∷ acc in
    let rest = print_digits fuel (n / 10) text in if ltb n 10 then text else rest

unfoldable pub decimal : ℕ → String
unfolding digit print_digits
decimal n = print_digits (suc n) n ""

-- The sign before the digits of the absolute value.
unfoldable pub decimal_int : ℤ → String
unfolding decimal
decimal_int (pos n) = decimal n
decimal_int (negsuc n) = "-" ∷ decimal (suc n)

is_digit : Char → Bool
is_digit c = leb 48 (code c) && leb (code c) 57

-- The digits of a text, after those that stand for `n`.
parse_digits : ℕ → String → Option ℕ
unfolding is_digit
parse_digits n [] = some n
parse_digits n (c ∷ rest) =
    let more = parse_digits (n * 10 + (code c - 48)) rest in if is_digit c then more else none

parse_unsigned : String → Option ℕ
unfolding parse_digits
parse_unsigned [] = none
parse_unsigned (c ∷ rest) = parse_digits 0 (c ∷ rest)

-- 2 ^ 63
abbrev pub i64_half : ℕ
i64_half = 9223372036854775808

-- A magnitude with its sign, if it is an int64.
signed : Bool → Option ℕ → Option ℤ
signed minus none = none
signed false (some n) = if ltb n i64_half then some (pos n) else none
signed true (some n) = if leb n i64_half then some (sub_ℕ 0 n) else none

-- strconv.ParseInt of base 10 and 64 bits, and strconv.Atoi; `none` is the error.
unfoldable pub parse_int : String → Option ℤ
unfolding signed parse_unsigned
parse_int [] = none
parse_int (c ∷ rest) =
    if eqb (code c) 45
    then signed true (parse_unsigned rest)
    else if eqb (code c) 43
    then signed false (parse_unsigned rest)
    else signed false (parse_unsigned (c ∷ rest))

parse_digits-digit :
    (n d : ℕ) (rest : String)
    → d < 10
    → parse_digits n (digit d ∷ rest) ≡ parse_digits (n * 10 + d) rest
unfolding digit parse_digits
parse_digits-digit n zero rest h = refl
parse_digits-digit n (suc zero) rest h = refl
parse_digits-digit n (suc (suc zero)) rest h = refl
parse_digits-digit n (suc (suc (suc zero))) rest h = refl
parse_digits-digit n (suc (suc (suc (suc zero)))) rest h = refl
parse_digits-digit n (suc (suc (suc (suc (suc zero))))) rest h = refl
parse_digits-digit n (suc (suc (suc (suc (suc (suc zero)))))) rest h = refl
parse_digits-digit n (suc (suc (suc (suc (suc (suc (suc zero))))))) rest h = refl
parse_digits-digit n (suc (suc (suc (suc (suc (suc (suc (suc zero)))))))) rest h = refl
parse_digits-digit n (suc (suc (suc (suc (suc (suc (suc (suc (suc zero))))))))) rest h = refl
parse_digits-digit n (suc (suc (suc (suc (suc (suc (suc (suc (suc (suc d)))))))))) rest h =
    absurd (omega arith)

parse_digits-print_digits :
    (fuel n : ℕ) (acc : String)
    → n < fuel
    → parse_digits 0 (print_digits fuel n acc) ≡ parse_digits n acc
unfolding print_digits
parse_digits-print_digits zero n acc h = absurd (omega arith)
parse_digits-print_digits (suc fuel) n acc h = elim (Bool-cases (ltb n 10)) [
  | inl e ↦
      rw (e, parse_digits-digit 0 (n % 10) acc (ground arith))
        (ap (λ k. parse_digits k acc) (ground arith))
  | inr e ↦
      rw
        (
          e,
          parse_digits-print_digits fuel (n / 10) (digit (n % 10) ∷ acc) (ground arith),
          parse_digits-digit (n / 10) (n % 10) acc (ground arith),
        )
        (ap (λ k. parse_digits k acc) (ground arith))
]

-- The text begins with a digit.
StartsWithDigit : String → Type 0
StartsWithDigit text = (c : Char) × (rest : String) × (text ≡ c ∷ rest) × (is_digit c ≡ true)

digit-is_digit : (d : ℕ) → is_digit (digit d) ≡ true
unfolding digit is_digit
digit-is_digit zero = refl
digit-is_digit (suc zero) = refl
digit-is_digit (suc (suc zero)) = refl
digit-is_digit (suc (suc (suc zero))) = refl
digit-is_digit (suc (suc (suc (suc zero)))) = refl
digit-is_digit (suc (suc (suc (suc (suc zero))))) = refl
digit-is_digit (suc (suc (suc (suc (suc (suc zero)))))) = refl
digit-is_digit (suc (suc (suc (suc (suc (suc (suc zero))))))) = refl
digit-is_digit (suc (suc (suc (suc (suc (suc (suc (suc zero)))))))) = refl
digit-is_digit (suc (suc (suc (suc (suc (suc (suc (suc (suc d))))))))) = refl

digit-StartsWithDigit : (d : ℕ) (rest : String) → StartsWithDigit (digit d ∷ rest)
unfolding StartsWithDigit
digit-StartsWithDigit d rest = (digit d, rest, refl, digit-is_digit d)

print_digits-StartsWithDigit :
    (fuel n : ℕ) (acc : String) → StartsWithDigit acc → StartsWithDigit (print_digits fuel n acc)
unfolding print_digits
print_digits-StartsWithDigit zero n acc h = h
print_digits-StartsWithDigit (suc fuel) n acc h = elim (Bool-cases (ltb n 10)) [
  | inl e ↦ rw e (digit-StartsWithDigit (n % 10) acc)
  | inr e ↦ rw e (print_digits-StartsWithDigit fuel (n / 10) _ (digit-StartsWithDigit (n % 10) acc))
]

decimal-StartsWithDigit : (n : ℕ) → StartsWithDigit (decimal n)
unfolding decimal print_digits
decimal-StartsWithDigit n = elim (Bool-cases (ltb n 10)) [
  | inl e ↦ rw e (digit-StartsWithDigit (n % 10) "")
  | inr e ↦ rw e (print_digits-StartsWithDigit n (n / 10) _ (digit-StartsWithDigit (n % 10) ""))
]

parse_digits-decimal : (n : ℕ) → parse_digits 0 (decimal n) ≡ some n
unfolding decimal parse_digits
parse_digits-decimal n = parse_digits-print_digits (suc n) n "" (omega arith)

parse_unsigned-decimal : (n : ℕ) → parse_unsigned (decimal n) ≡ some n
unfolding parse_unsigned StartsWithDigit
parse_unsigned-decimal n =
    let (c, rest, e, _) = decimal-StartsWithDigit n in
    rw e (ap (parse_digits 0) (sym e) ∙ parse_digits-decimal n)

-- Reading back a printed int64.
pub parse_int-decimal_int :
    (x : ℤ) → pos_part x < i64_half → neg_part x ≤ i64_half → parse_int (decimal_int x) ≡ some x
unfolding parse_int decimal_int signed StartsWithDigit is_digit
parse_int-decimal_int (pos n) low high =
    let (c, rest, e, d) = decimal-StartsWithDigit n in
    rw e (ground (arith, d, e, parse_unsigned-decimal n))
parse_int-decimal_int (negsuc n) low high = ground (arith, parse_unsigned-decimal (suc n))
