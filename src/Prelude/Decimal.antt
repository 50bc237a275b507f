-- ===== src/Prelude/Decimal.antt =====
-- What the program uses of `strconv`, on 64-bit integers.
use Prim.Native.Nat.{ℕ, zero, suc, ◌+◌, ◌-◌, ◌*◌, ◌/◌, ◌%◌, ◌≤◌, ◌<◌}
use mathlib.Core.Path.{◌≡◌, refl}
use mathlib.Core.Logic.{inl, inr}
use mathlib.Core.Bool.{Bool, true, false, ◌&&◌}
use mathlib.Core.List.{[], ◌∷◌, ◌++◌}
use mathlib.Core.Option.{Option, none, some}
use native.Mathlib.Omega.{arith}
use erzhuang_project.Prelude.Tests.{if◌then◌else◌, ◌==◌, leb, ltb, Bool-cases}
use erzhuang_project.Prelude.Text.{Text, is_space, is_empty, trim_left, trim_right, trim_space}
use erzhuang_project.Prelude.Int.{ℤ, pos, negsuc}

-- Decimal digits of the fuel's worth of places.
digits : ℕ → ℕ → Text
digits zero n = []
digits (suc fuel) n =
    let more = digits fuel (n / 10) ++ (48 + n % 10) ∷ [] in
    if ltb n 10 then (48 + n) ∷ [] else more

-- `strconv.FormatInt(n, 10)` and `%d`, of what is not negative.
unfoldable pub format_nat : ℕ → Text
unfolding digits
format_nat n = digits (suc n) n

-- `%d`
abbrev pub format_int : ℤ → Text
format_int (pos n) = format_nat n
format_int (negsuc n) = 45 ∷ format_nat (n + 1)

abbrev pub is_ascii_digit : ℕ → Bool
is_ascii_digit c = leb 48 c && leb c 57

unfoldable pub parse_digits : ℕ → Text → Option ℕ
parse_digits acc [] = some acc
parse_digits acc (c ∷ s) =
    let rest = parse_digits (acc * 10 + (c - 48)) s in if is_ascii_digit c then rest else none

-- At least one digit.
unfoldable pub parse_nat : Text → Option ℕ
unfolding parse_digits
parse_nat [] = none
parse_nat (c ∷ s) = parse_digits 0 (c ∷ s)

abbrev max_int64 : ℕ
max_int64 = 9223372036854775807

-- The magnitude within the range of int64, or an error.
abbrev in_range : Bool → ℕ → Option ℤ
in_range negative n =
    if negative
    then (if leb n (max_int64 + 1) then some (if n == 0 then pos 0 else negsuc (n - 1)) else none)
    else (if leb n max_int64 then some (pos n) else none)

abbrev ranged : Bool → Option ℕ → Option ℤ
ranged negative none = none
ranged negative (some n) = in_range negative n

-- `strconv.ParseInt(s, 10, 64)` and `strconv.Atoi`: an optional sign, then digits.
unfoldable pub parse_int : Text → Option ℤ
unfolding parse_nat
parse_int [] = none
parse_int (c ∷ s) =
    if c == 43
    then ranged false (parse_nat s)
    else if c == 45
    then ranged true (parse_nat s)
    else ranged false (parse_nat (c ∷ s))

-- `strconv.ParseUint(s, 10, 64)` from the value so far: 2^64 - 1 at the first digit that goes out
-- of range, nothing at a character that is no digit.
unfoldable pub scan_uint : ℕ → Text → Option ℕ
scan_uint acc [] = some acc
scan_uint acc (c ∷ s) =
    let next = acc * 10 + (c - 48) in
    let rest = scan_uint next s in
    if is_ascii_digit c
    then (if ltb 18446744073709551615 next then some 18446744073709551615 else rest)
    else none

abbrev clamp : Bool → ℕ → ℤ
clamp negative n =
    if negative
    then (if n == 0 then pos 0 else if leb n max_int64 then negsuc (n - 1) else negsuc max_int64)
    else (if leb n max_int64 then pos n else pos max_int64)

abbrev clamped : Bool → Option ℕ → ℤ
clamped negative none = pos 0
clamped negative (some n) = clamp negative n

abbrev unsigned_value : Bool → Text → ℤ
unsigned_value negative [] = pos 0
unsigned_value negative (c ∷ s) = clamped negative (scan_uint 0 (c ∷ s))

-- The number that `strconv.Atoi` gives beside its error: 0 for what is no number, the nearest one
-- of the range for what is too large.
unfoldable pub atoi : Text → ℤ
unfolding scan_uint
atoi [] = pos 0
atoi (c ∷ s) =
    if c == 43
    then unsigned_value false s
    else if c == 45
    then unsigned_value true s
    else unsigned_value false (c ∷ s)

abbrev then_parse : Option ℕ → Text → Option ℕ
then_parse none t = none
then_parse (some a) t = parse_digits a t

parse_digits-append :
    (acc : ℕ) (s t : Text) → parse_digits acc (s ++ t) ≡ then_parse (parse_digits acc s) t
unfolding parse_digits
parse_digits-append acc [] t = refl
parse_digits-append acc (c ∷ s) t = ground (arith, parse_digits-append (acc * 10 + (c - 48)) s t)

parse_digits-digits : (fuel n : ℕ) → n < fuel → parse_digits 0 (digits fuel n) ≡ some n
unfolding digits
parse_digits-digits zero n h = absurd (omega arith)
parse_digits-digits (suc fuel) n h = elim (Bool-cases (ltb n 10)) [
  | inl small ↦ rw small (unfold parse_digits in ground arith)
  | inr big ↦
      rw
        (
          big,
          parse_digits-append 0 (digits fuel (n / 10)) ((48 + n % 10) ∷ []),
          parse_digits-digits fuel (n / 10) (ground arith),
        )
        (unfold parse_digits in ground arith)
]

-- The first digit is a digit, so it is no sign.
digits_head :
    (fuel n : ℕ) → n < fuel → (c : ℕ) × (s : Text) × (digits fuel n ≡ c ∷ s) × (48 ≤ c) × (c ≤ 57)
unfolding digits
digits_head zero n h = absurd (omega arith)
digits_head (suc fuel) n h = elim (Bool-cases (ltb n 10)) [
  | inl small ↦ (48 + n, [], rw small, omega arith, ground arith)
  | inr big ↦
      let (c, s, e, lo, hi) = digits_head fuel (n / 10) (ground arith) in
      (c, s ++ (48 + n % 10) ∷ [], rw (big, e), lo, hi)
]

-- What was printed is read back, within the range of int64.
pub parse_int-format_nat :
    (n : ℕ) → n ≤ 9223372036854775807 → parse_int (format_nat n) ≡ some (pos n)
unfolding format_nat
parse_int-format_nat n h =
    let (c, s, e, lo, hi) = digits_head (suc n) n (omega arith) in
    let read = parse_digits-digits (suc n) n (omega arith) in
    rw e (unfold parse_int in ground (arith, rw e at read))

-- Every character is a decimal digit.
abbrev pub AllDigits : Text → Type 0
AllDigits [] = Unit {0}
AllDigits (c ∷ s) = (48 ≤ c) × (c ≤ 57) × AllDigits s

AllDigits-append : (s t : Text) → AllDigits s → AllDigits t → AllDigits (s ++ t)
AllDigits-append [] t a b = b
AllDigits-append (c ∷ s) t a b = (a.0, a.1, AllDigits-append s t a.2 b)

digits-AllDigits : (fuel n : ℕ) → AllDigits (digits fuel n)
unfolding digits
digits-AllDigits zero n = tt
digits-AllDigits (suc fuel) n = elim (Bool-cases (ltb n 10)) [
  | inl small ↦ rw small (omega arith, ground arith, tt)
  | inr big ↦ rw big (
      AllDigits-append (digits fuel (n / 10)) _ (digits-AllDigits fuel (n / 10))
        (omega arith, omega arith, tt))
]

pub format_nat-AllDigits : (n : ℕ) → AllDigits (format_nat n)
unfolding format_nat
format_nat-AllDigits n = digits-AllDigits (suc n) n

digit_is_no_space : (c : ℕ) → 48 ≤ c → c ≤ 57 → is_space c ≡ false
unfolding is_space
digit_is_no_space c lo hi = ground arith

trim_right-digits : (s : Text) → AllDigits s → trim_right s ≡ s
unfolding trim_right
trim_right-digits [] a = refl
trim_right-digits (c ∷ s) a = rw (trim_right-digits s a.2, digit_is_no_space c a.0 a.1) (kept s)
  where
    kept : (t : Text) → (if is_empty t && false then [] else c ∷ t) ≡ c ∷ t
    kept [] = refl
    kept (d ∷ t) = refl

trim_left-digits : (s : Text) → AllDigits s → trim_left s ≡ s
unfolding trim_left
trim_left-digits [] a = refl
trim_left-digits (c ∷ s) a = rw (digit_is_no_space c a.0 a.1)

-- A printed number has no space to trim.
pub trim_space-format_nat : (n : ℕ) → trim_space (format_nat n) ≡ format_nat n
unfolding trim_space
trim_space-format_nat n =
    rw (trim_left-digits _ (format_nat-AllDigits n)) (trim_right-digits _ (format_nat-AllDigits n))
