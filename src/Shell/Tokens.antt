-- ===== src/Shell/Tokens.antt =====
-- Unix_Command_Line_Shell/util.c: a line is cut into tokens.
use completed_projects.Common.{
  ℕ, zero, suc, ◌+◌, ◌<◌, Bool, false, Bool-cases, inl, inr, List, [], ◌∷◌, ◌++◌, ◌≡◌, ◌≢◌, refl,
  sym, ap, ◌∙◌, take, length, length-take, append_assoc, append-nil, ◌==◌, ◌||◌, if◌then◌else◌,
  arith,
}
use completed_projects.Common.CString.{Bytes}

abbrev pub arg_max : ℕ
arg_max = 255

-- The separators of `strtok(..., " \n")`.
abbrev pub is_separator : ℕ → Bool
is_separator c = c == b' ' || c == b'\n'

-- All that successive calls of `strtok` return; `tok` is what was seen of the next token.
unfoldable pub strtok_all : Bytes → Bytes → List Bytes
strtok_all [] [] = []
strtok_all (x ∷ tok) [] = (x ∷ tok) ∷ []
strtok_all [] (c ∷ line) = if is_separator c then strtok_all [] line else strtok_all (c ∷ []) line
strtok_all (x ∷ tok) (c ∷ line) =
    let cut = strtok_all [] line in
    let longer = strtok_all ((x ∷ tok) ++ c ∷ []) line in
    if is_separator c then (x ∷ tok) ∷ cut else longer

-- `parse_into_tokens`: the tokens and their number.
unfoldable pub parse_into_tokens : Bytes → List Bytes × ℕ
parse_into_tokens line = let tokens = take arg_max (strtok_all [] line) in (tokens, length tokens)

-- Not empty, and no separator in it.
abbrev pub NoSeparator : Bytes → Type 0
NoSeparator [] = Unit {0}
NoSeparator (c ∷ t) = (is_separator c ≡ false) × NoSeparator t

abbrev pub IsToken : Bytes → Type 0
IsToken t = (t ≢ []) × NoSeparator t

abbrev pub AllTokens : List Bytes → Type 0
AllTokens [] = Unit {0}
AllTokens (t ∷ ts) = IsToken t × AllTokens ts

-- The tokens as a line.
abbrev pub line_of : List Bytes → Bytes
line_of [] = b'\n' ∷ []
line_of (t ∷ ts) = t ++ b' ' ∷ line_of ts

strtok_all_started :
    (x : ℕ) (tok t rest : Bytes)
    → NoSeparator t
    → strtok_all (x ∷ tok) (t ++ b' ' ∷ rest) ≡ (x ∷ (tok ++ t)) ∷ strtok_all [] rest
unfolding strtok_all
strtok_all_started x tok [] rest h = ap (λ s. (x ∷ s) ∷ strtok_all [] rest) (sym (append-nil tok))
strtok_all_started x tok (c ∷ t) rest h = rw (h.0) (
    strtok_all_started x (tok ++ c ∷ []) t rest h.1
    ∙ ap (λ s. (x ∷ s) ∷ strtok_all [] rest) (append_assoc tok (c ∷ []) t))

strtok_all-line_of : (ts : List Bytes) → AllTokens ts → strtok_all [] (line_of ts) ≡ ts
unfolding strtok_all
strtok_all-line_of [] h = refl
strtok_all-line_of ([] ∷ ts) h = absurd (h.0.0 refl)
strtok_all-line_of ((c ∷ t) ∷ ts) h =
    rw (h.0.1.0) (
      strtok_all_started c [] t (line_of ts) h.0.1.1 ∙ ap (◌∷◌ (c ∷ t)) (strtok_all-line_of ts h.1))

-- Tokens written as a line with spaces between them are read back, up to 255 of them; what is behind
-- those is dropped.
pub parse_into_tokens-line_of :
    (ts : List Bytes)
    → AllTokens ts
    → parse_into_tokens (line_of ts) ≡ (take arg_max ts, length (take arg_max ts))
unfolding parse_into_tokens
parse_into_tokens-line_of ts h = rw (strtok_all-line_of ts h)

append-NoSeparator : (a b : Bytes) → NoSeparator a → NoSeparator b → NoSeparator (a ++ b)
append-NoSeparator [] b h k = k
append-NoSeparator (c ∷ a) b h k = (h.0, append-NoSeparator a b h.1 k)

strtok_all-AllTokens : (tok line : Bytes) → NoSeparator tok → AllTokens (strtok_all tok line)
unfolding strtok_all
strtok_all-AllTokens [] [] h = tt
strtok_all-AllTokens (x ∷ tok) [] h = ((λ e. cc, h), tt)
strtok_all-AllTokens [] (c ∷ line) h =
    let cut = strtok_all-AllTokens [] line tt in
    let longer = λ (k : is_separator c ≡ false). strtok_all-AllTokens (c ∷ []) line (k, tt) in
    elim (Bool-cases (is_separator c)) [ inl e ↦ rw e cut | inr e ↦ rw e (longer e) ]
strtok_all-AllTokens (x ∷ tok) (c ∷ line) h =
    let cut = strtok_all-AllTokens [] line tt in
    let longer = λ (k : is_separator c ≡ false).
      strtok_all-AllTokens ((x ∷ tok) ++ c ∷ []) line
        (append-NoSeparator (x ∷ tok) (c ∷ []) h (k, tt)) in
    elim (Bool-cases (is_separator c)) [
      | inl e ↦ rw e ((λ e. cc, h), cut)
      | inr e ↦ rw e (longer e)
    ]

take-AllTokens : (n : ℕ) (ts : List Bytes) → AllTokens ts → AllTokens (take n ts)
take-AllTokens zero ts h = tt
take-AllTokens (suc n) [] h = tt
take-AllTokens (suc n) (t ∷ ts) h = (h.0, take-AllTokens n ts h.1)

-- Whatever the line, the tokens are not empty, hold no separator, and leave room in the array for the
-- NULL behind them.
pub parse_into_tokens-AllTokens :
    (line : Bytes)
    → AllTokens (parse_into_tokens line).0
      × ((parse_into_tokens line).1 ≡ length (parse_into_tokens line).0)
      × ((parse_into_tokens line).1 < arg_max + 1)
unfolding parse_into_tokens
parse_into_tokens-AllTokens line = (
  take-AllTokens arg_max _ (strtok_all-AllTokens [] line tt),
  refl,
  omega (arith, length-take arg_max (strtok_all [] line)),
)
