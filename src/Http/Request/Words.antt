-- ===== src/Http/Request/Words.antt =====
-- server.c, the three copying loops of `populate_request`.
use completed_projects.Common.{
  is_space, ℕ, zero, suc, ◌+◌, ◌-◌, ◌≤◌, ◌<◌, true, false, Bool-cases, inl, inr, some, [], ◌∷◌,
  ◌++◌, ◌≡◌, ◌≢◌, refl, ap, ◌∙◌, get_or, set, drop, length, length-set, arith,
}
use completed_projects.Common.CString.{Bytes, IsText}
use completed_projects.Http.Data.{max_string_length, buffer_size, text}
use completed_projects.Http.Request.{copy_word}

-- A word: no space in it.
abbrev pub IsWord : Bytes → Type 0
IsWord [] = Unit {0}
IsWord (c ∷ w) = (is_space c ≡ false) × IsWord w

abbrev overlay : ℕ → Bytes → Bytes → Bytes
overlay j [] arr = arr
overlay j (c ∷ w) arr = overlay (suc j) w (set arr j c)

overlay-cons :
    (j : ℕ) (w : Bytes) (x : ℕ) (arr : Bytes) → overlay (suc j) w (x ∷ arr) ≡ x ∷ overlay j w arr
overlay-cons j [] x arr = refl
overlay-cons j (c ∷ w) x arr = overlay-cons (suc j) w x (set arr j c)

overlay_front : (w arr : Bytes) → length w ≤ length arr → overlay 0 w arr ≡ w ++ drop (length w) arr
overlay_front [] arr h = refl
overlay_front (c ∷ w) [] h = absurd (omega arith)
overlay_front (c ∷ w) (x ∷ arr) h =
    overlay-cons 0 w c arr ∙ ap (◌∷◌ c) (overlay_front w arr (omega arith))

get_or-drop : (i : ℕ) (buf : Bytes) (c : ℕ) (r : Bytes) → drop i buf ≡ c ∷ r → get_or buf i 0 ≡ c
get_or-drop zero [] c r h = cc
get_or-drop zero (x ∷ buf) c r h = cc
get_or-drop (suc i) [] c r h = cc
get_or-drop (suc i) (x ∷ buf) c r h = get_or-drop i buf c r h

pub drop_next :
    (i : ℕ) (buf : Bytes) (c : ℕ) (r : Bytes) → drop i buf ≡ c ∷ r → drop (suc i) buf ≡ r
drop_next zero [] c r h = cc
drop_next zero (x ∷ buf) c r h = cc
drop_next (suc i) [] c r h = cc
drop_next (suc i) (x ∷ buf) c r h = drop_next i buf c r h

copy_word-overlay :
    (w : Bytes) (rounds j i : ℕ) (buf arr : Bytes) (sp : ℕ) (rest : Bytes)
    → IsWord w
    → length w ≤ rounds
    → is_space sp ≡ true
    → drop i buf ≡ w ++ sp ∷ rest
    → (k : ℕ) × (copy_word rounds j i buf arr ≡ (overlay j w arr, k)) × (drop k buf ≡ sp ∷ rest)
unfolding copy_word
copy_word-overlay [] zero j i buf arr sp rest a l s d = (i, refl, d)
copy_word-overlay [] (suc rounds) j i buf arr sp rest a l s d =
    let here : get_or buf i 0 ≡ sp = get_or-drop i buf sp rest d in (i, rw (here, s), d)
copy_word-overlay (c ∷ w) zero j i buf arr sp rest a l s d = absurd (omega arith)
copy_word-overlay (c ∷ w) (suc rounds) j i buf arr sp rest a l s d =
    let here : get_or buf i 0 ≡ c = get_or-drop i buf c (w ++ sp ∷ rest) d in
    let (k, run, left) =
      copy_word-overlay w rounds (suc j) (suc i) buf (set arr j c) sp rest a.1 (omega arith) s
        (drop_next i buf c (w ++ sp ∷ rest) d) in
    (k, rw (here, a.0) run, left)

-- A word of at most 254 bytes is copied to the front of the array, up to the space behind it, and
-- the rest of the array stays as it was.
pub copy_word-append :
    (w : Bytes) (i : ℕ) (buf arr : Bytes) (sp : ℕ) (rest : Bytes)
    → IsWord w
    → length w < max_string_length
    → length w ≤ length arr
    → is_space sp ≡ true
    → drop i buf ≡ w ++ sp ∷ rest
    → (k : ℕ) × (copy_word (max_string_length - 1) 0 i buf arr ≡ (w ++ drop (length w) arr, k))
      × (drop k buf ≡ sp ∷ rest)
copy_word-append w i buf arr sp rest a l m s d =
    let (k, run, left) =
      copy_word-overlay w (max_string_length - 1) 0 i buf arr sp rest a (omega arith) s d in
    (k, run ∙ ap (λ b. (b, k)) (overlay_front w arr m), left)

pub text-append_nul : (w rest : Bytes) → IsText w → text (w ++ 0 ∷ rest) ≡ some w
text-append_nul [] rest h = refl
text-append_nul (c ∷ w) rest h = ground (arith, text-append_nul w rest h.1)

text-append_other :
    (w : Bytes) (x : ℕ) (rest : Bytes) → IsText w → x ≢ 0 → text (w ++ x ∷ rest) ≢ some w
text-append_other [] x rest h n e = ground arith
text-append_other (c ∷ w) x rest h n e = ground (arith, text-append_other w x rest h.1 n)

-- Where the byte behind the copied word was not NUL before, the word is not what is read back: the
-- loops write no NUL.
pub copy_word_unterminated :
    (w : Bytes) (i : ℕ) (buf arr : Bytes) (sp : ℕ) (rest : Bytes) (x : ℕ) (junk : Bytes)
    → IsWord w
    → IsText w
    → length w < max_string_length
    → length w ≤ length arr
    → is_space sp ≡ true
    → drop i buf ≡ w ++ sp ∷ rest
    → drop (length w) arr ≡ x ∷ junk
    → x ≢ 0
    → text (copy_word (max_string_length - 1) 0 i buf arr).0 ≢ some w
copy_word_unterminated w i buf arr sp rest x junk a t l m s d e n =
    let (k, run, left) = copy_word-append w i buf arr sp rest a l m s d in
    rw (run, e) (text-append_other w x junk t n)

copy_word_range :
    (rounds j i : ℕ) (buf arr : Bytes)
    → (i ≤ (copy_word rounds j i buf arr).1)
      × ((copy_word rounds j i buf arr).1 ≤ i + rounds)
      × (length (copy_word rounds j i buf arr).0 ≡ length arr)
unfolding copy_word
copy_word_range zero j i buf arr = (omega arith, omega arith, refl)
copy_word_range (suc rounds) j i buf arr =
    let c = get_or buf i 0 in
    let ih = copy_word_range rounds (suc j) (suc i) buf (set arr j c) in
    let same = length-set arr j c in
    elim (Bool-cases (is_space c)) [
      | inl e ↦ rw e (omega arith, omega arith, refl)
      | inr e ↦ rw e (omega (arith, ih.0), omega (arith, ih.1), ih.2 ∙ same)
    ]

-- Whatever was received, the three loops together never look behind the receive buffer.
pub copy_words_bounds :
    (buf a b c : Bytes)
    → let n = max_string_length - 1 in
      let i = (copy_word n 0 0 buf a).1 in
      let k = (copy_word n 0 (suc i) buf b).1 in (copy_word n 0 (suc k) buf c).1 < buffer_size
copy_words_bounds buf a b c =
    let n = max_string_length - 1 in
    let i = (copy_word n 0 0 buf a).1 in
    let k = (copy_word n 0 (suc i) buf b).1 in
    omega (
      arith,
      (copy_word_range n 0 0 buf a).1,
      (copy_word_range n 0 (suc i) buf b).1,
      (copy_word_range n 0 (suc k) buf c).1,
    )
