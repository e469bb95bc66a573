-- ===== src/Common/CString.antt =====
-- C strings in arrays of bytes: the string of an array is what stands before its first NUL.
use Prim.Native.Nat.{ℕ, zero, suc, ◌+◌, ◌≤◌, ◌<◌}
use Prim.Native.Char.{code}
use Prim.Native.String.{String}
use mathlib.Core.Path.{◌≡◌, refl}
use mathlib.Core.Logic.{◌≢◌}
use mathlib.Core.Bool.{Bool, true, false}
use mathlib.Core.List.{List, [], ◌∷◌, ◌++◌, append_assoc}
use native.Mathlib.Omega.{arith}
use mathlib.Core.Option.{Option, none, some}
use completed_projects.Common.Checks.{ltb, ◌==◌, if◌then◌else◌}
use completed_projects.Common.Lists.{
  length, take, drop, replicate, length-append, length-take, length-drop, length-replicate,
}

abbrev pub Bytes : Type 0
Bytes = List ℕ

-- The bytes of an ASCII literal.
abbrev pub codes : String → Bytes
codes String.[] = []
codes (String.◌∷◌ c s) = code c ∷ codes s

abbrev pub c_str : Bytes → Bytes
c_str [] = []
c_str (c ∷ cs) = if c == 0 then [] else c ∷ c_str cs

-- No NUL among the bytes.
abbrev pub IsText : Bytes → Type 0
IsText [] = Unit {0}
IsText (c ∷ cs) = (c ≢ 0) × IsText cs

-- `strncpy(dst, src, n)`: n bytes are written, with NULs behind a shorter source.
unfoldable pub strncpy : ℕ → Bytes → Bytes → Bytes
strncpy n dst src = take n (c_str src ++ replicate n 0) ++ drop n dst

-- `strcpy` of a string to the front of an array; `none` is a write past its end.
abbrev pub strcpy : Bytes → Bytes → Option Bytes
strcpy dst src =
    if ltb (length src) (length dst) then some (src ++ 0 ∷ drop (length src + 1) dst) else none

-- `strcmp(a, b) == 0`, of two strings.
abbrev pub str_eq : Bytes → Bytes → Bool
str_eq [] [] = true
str_eq (a ∷ as') (b ∷ bs) = if a == b then str_eq as' bs else false
str_eq _ _ = false

pub str_eq_sound : (a b : Bytes) → str_eq a b ≡ true → a ≡ b
str_eq_sound [] [] h = refl
str_eq_sound (a ∷ as') (b ∷ bs) h = ground (arith, str_eq_sound as' bs)
str_eq_sound _ _ h = ground arith

pub str_eq_self : (a : Bytes) → str_eq a a ≡ true
str_eq_self [] = refl
str_eq_self (a ∷ as') = ground (arith, str_eq_self as')

pub c_str-IsText : (a : Bytes) → IsText (c_str a)
c_str-IsText [] = tt
c_str-IsText (a ∷ as') = ground (arith, c_str-IsText as')

-- A string without NUL and a NUL behind it is read back.
pub c_str-append_nul : (a rest : Bytes) → IsText a → c_str (a ++ 0 ∷ rest) ≡ a
c_str-append_nul [] rest h = refl
c_str-append_nul (a ∷ as') rest h = ground (arith, c_str-append_nul as' rest h.1)

pub c_str_of_text : (a : Bytes) → IsText a → c_str a ≡ a
c_str_of_text [] h = refl
c_str_of_text (a ∷ as') h = ground (arith, c_str_of_text as' h.1)

pub length-strncpy :
    (n : ℕ) (dst src : Bytes) → n ≤ length dst → length (strncpy n dst src) ≡ length dst
unfolding strncpy
length-strncpy n dst src h = omega (
  arith,
  length-append (take n (c_str src ++ replicate n 0)) (drop n dst),
  length-take n (c_str src ++ replicate n 0),
  length-append (c_str src) (replicate n 0),
  length-replicate n (let z : ℕ = 0 in z),
  length-drop n dst,
)

take-zeros :
    (n : ℕ) (m : ℕ) (a rest : Bytes)
    → IsText a
    → length a < n
    → n ≤ length a + m
    → c_str (take n (a ++ replicate m 0) ++ rest) ≡ a
take-zeros zero m a rest h l k = elim l [ ]
take-zeros (suc n) zero [] rest h l k = absurd (omega arith)
take-zeros (suc n) (suc m) [] rest h l k = refl
take-zeros (suc n) m (a ∷ as') rest h l k =
    ground (arith, take-zeros n m as' rest h.1 (omega arith) (omega arith))

-- A source shorter than the bound is copied whole.
pub c_str-strncpy :
    (n : ℕ) (dst src : Bytes) → length (c_str src) < n → c_str (strncpy n dst src) ≡ c_str src
unfolding strncpy
c_str-strncpy n dst src h =
    take-zeros n n (c_str src) (drop n dst) (c_str-IsText src) h (omega arith)

-- Also with something behind the array.
pub c_str-strncpy-append :
    (n : ℕ) (dst src rest : Bytes)
    → length (c_str src) < n
    → c_str (strncpy n dst src ++ rest) ≡ c_str src
unfolding strncpy
c_str-strncpy-append n dst src rest h =
    let first = take n (c_str src ++ replicate n 0) in
    rw (append_assoc first (drop n dst) rest)
      (take-zeros n n (c_str src) (drop n dst ++ rest) (c_str-IsText src) h (omega arith))

take-take-zeros :
    (n k m : ℕ) (a rest : Bytes)
    → IsText a
    → length a < n
    → n ≤ k
    → k ≤ length a + m
    → c_str (take n (take k (a ++ replicate m 0) ++ rest)) ≡ a
take-take-zeros zero k m a rest h l p q = elim l [ ]
take-take-zeros (suc n) zero m a rest h l p q = absurd (omega arith)
take-take-zeros (suc n) (suc k) zero [] rest h l p q = absurd (omega arith)
take-take-zeros (suc n) (suc k) (suc m) [] rest h l p q = refl
take-take-zeros (suc n) (suc k) m (a ∷ as') rest h l p q =
    ground (arith, take-take-zeros n k m as' rest h.1 (omega arith) (omega arith) (omega arith))

drop-take-zeros :
    (n k m : ℕ) (a rest : Bytes)
    → IsText a
    → n ≤ length a
    → length a < k
    → k ≤ length a + m
    → c_str (drop n (take k (a ++ replicate m 0) ++ rest)) ≡ drop n a
drop-take-zeros zero k m a rest h p l q = take-zeros k m a rest h l q
drop-take-zeros (suc n) k m [] rest h p l q = absurd (omega arith)
drop-take-zeros (suc n) zero m (a ∷ as') rest h p l q = elim l [ ]
drop-take-zeros (suc n) (suc k) m (a ∷ as') rest h p l q =
    drop-take-zeros n k m as' rest h.1 (omega arith) (omega arith) (omega arith)

-- A copy into an array of `n` bytes with a bound `m` that is larger: what is read back from the
-- array, if the source fits it, and from the bytes behind it, if not.
pub c_str-take-strncpy :
    (n m : ℕ) (dst src : Bytes)
    → length (c_str src) < n
    → n ≤ m
    → c_str (take n (strncpy m dst src)) ≡ c_str src
unfolding strncpy
c_str-take-strncpy n m dst src l h =
    take-take-zeros n m m (c_str src) (drop m dst) (c_str-IsText src) l h (omega arith)

pub c_str-drop-strncpy :
    (n m : ℕ) (dst src : Bytes)
    → n ≤ length (c_str src)
    → length (c_str src) < m
    → c_str (drop n (strncpy m dst src)) ≡ drop n (c_str src)
unfolding strncpy
c_str-drop-strncpy n m dst src h l =
    drop-take-zeros n m m (c_str src) (drop m dst) (c_str-IsText src) h l (omega arith)
