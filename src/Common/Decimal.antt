-- ===== src/Common/Decimal.antt =====
-- `%d` and `%i` of a number that is not negative, `strtoul` of digits, and `atoi`.
use completed_projects.Common.{
  ℕ, is_space, ◌≤◌, length, ℤ, pos, negsuc, ◌==◌, false, ◌++◌, zero, suc, ◌+◌, ◌-◌, ◌*◌, ◌/◌, ◌%◌,
  ◌<◌, ◌≡◌, refl, ◌∙◌, [], ◌∷◌, ltb, leb, ◌&&◌, if◌then◌else◌, arith,
}
use completed_projects.Common.CString.{Bytes}

unfoldable pub digits_before : ℕ → ℕ → Bytes → Bytes
digits_before zero n acc = acc
digits_before (suc fuel) n acc =
    let rest = digits_before fuel (n / 10) ((48 + n % 10) ∷ acc) in
    if ltb n 10 then (48 + n) ∷ acc else rest

unfoldable pub decimal : ℕ → Bytes
unfolding digits_before
decimal n = digits_before (n + 1) n []

-- The number that some digits continue.
unfoldable pub read_digits : ℕ → Bytes → ℕ
read_digits a [] = a
read_digits a (c ∷ cs) =
    let rest = read_digits (a * 10 + (c - 48)) cs in if leb 48 c && leb c 57 then rest else a

-- `strtoul`, of a text with no sign and no space in front, in base 10.
unfoldable pub strtoul : Bytes → ℕ
unfolding read_digits
strtoul = read_digits 0

-- -n
negate : ℕ → ℤ
negate zero = pos zero
negate (suc n) = negsuc n

signed : Bytes → ℤ
signed [] = pos 0
signed (c ∷ cs) =
    if c == b'-'
    then negate (strtoul cs)
    else if c == b'+'
    then pos (strtoul cs)
    else pos (strtoul (c ∷ cs))

-- `atoi`, where the number is one that an `int` holds.
unfoldable pub atoi : Bytes → ℤ
unfolding strtoul negate signed
atoi [] = pos 0
atoi (c ∷ cs) = let rest = atoi cs in if is_space c then rest else signed (c ∷ cs)

read_digits-digits_before :
    (fuel n : ℕ) (acc : Bytes)
    → n < fuel
    → read_digits 0 (digits_before fuel n acc) ≡ read_digits n acc
unfolding digits_before read_digits
read_digits-digits_before zero n acc h = elim h [ ]
read_digits-digits_before (suc fuel) n acc h =
    ground (arith, read_digits-digits_before fuel (n / 10) ((48 + n % 10) ∷ acc))

-- What is printed is read back.
pub strtoul-decimal : (n : ℕ) → strtoul (decimal n) ≡ n
unfolding strtoul decimal
strtoul-decimal n = read_digits-digits_before (n + 1) n [] (omega arith)

digits_before-append :
    (fuel n : ℕ) (acc rest : Bytes)
    → digits_before fuel n acc ++ rest ≡ digits_before fuel n (acc ++ rest)
unfolding digits_before
digits_before-append zero n acc rest = refl
digits_before-append (suc fuel) n acc rest =
    ground (arith, digits_before-append fuel (n / 10) ((48 + n % 10) ∷ acc) rest)

-- Also with something behind it that does not begin with a digit.
pub strtoul-decimal-append :
    (n : ℕ) (c : ℕ) (rest : Bytes)
    → (leb 48 c && leb c 57) ≡ false
    → strtoul (decimal n ++ c ∷ rest) ≡ n
unfolding strtoul decimal
strtoul-decimal-append n c rest h =
    rw (digits_before-append (n + 1) n [] (c ∷ rest))
      (read_digits-digits_before (n + 1) n (c ∷ rest) (omega arith) ∙ unfold read_digits in rw h)

-- At most `k` digits below the `k`-th power of ten.
abbrev power_of_ten : ℕ → ℕ
power_of_ten zero = 1
power_of_ten (suc k) = 10 * power_of_ten k

length-digits_before :
    (k fuel n : ℕ) (acc : Bytes)
    → n < fuel
    → n < power_of_ten (suc k)
    → length (digits_before fuel n acc) ≤ suc k + length acc
unfolding digits_before
length-digits_before k zero n acc h l = elim h [ ]
length-digits_before zero (suc fuel) n acc h l = ground arith
length-digits_before (suc k) (suc fuel) n acc h l =
    ground (arith, length-digits_before k fuel (n / 10) ((48 + n % 10) ∷ acc))

-- A number below 1000 has at most three digits.
pub length-decimal : (n : ℕ) → n < 1000 → length (decimal n) ≤ 3
unfolding decimal
length-decimal n h = length-digits_before 2 (n + 1) n [] (omega arith) h

pub length-decimal_ten : (n : ℕ) → n < 10000000000 → length (decimal n) ≤ 10
unfolding decimal
length-decimal_ten n h = length-digits_before 9 (n + 1) n [] (omega arith) h
