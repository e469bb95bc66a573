-- ===== src/Chat/Simpio/Editing.antt =====
-- simpio.c: the buffer, position and flags as the line that the user has typed so far.
use completed_projects.Common.{
  lt→ltb, ℕ, suc, ◌+◌, ◌-◌, ◌<◌, Bool, true, false, ◌≡◌, refl, ap, ◌∙◌, sym, [], ◌∷◌, ◌++◌, none,
  some, take, set, get_or, drop_last, length, length-set, length-take, take-set, take-set_past,
  get_or-set_self, drop_last-take, ltb, ◌==◌, if◌then◌else◌, arith,
}
use completed_projects.Common.CString.{Bytes}
use completed_projects.Chat.Blather.{max_line}
use completed_projects.Chat.Simpio.{
  store, Simpio, Key, eot, del, backspace, put, add_char, erase_char, edit, end_if, is_end,
  simpio_get_char,
}

-- The position lies in the buffer, at a NUL.
pub record IsTerminated (s : Simpio) : Type 0 where
  pub size : length s.buf ≡ max_line
  pub inside : s.pos < max_line
  pub nul : get_or s.buf s.pos 0 ≡ 0

pub record Editor : Type 0 where
  pub line : Bytes
  pub line_ready : Bool
  pub end_of_input : Bool

abbrev pub view : Simpio → Editor
view s = record {
  line = take s.pos s.buf;
  line_ready = s.line_ready;
  end_of_input = s.end_of_input;
}

abbrev pub is_empty : Bytes → Bool
is_empty [] = true
is_empty (c ∷ cs) = false

abbrev pub finish : Editor → Editor
finish e = if is_empty e.line then e else record e { line_ready = true }

-- What a key means to the user, without positions: a line can hold 1023 bytes.
abbrev pub press : Editor → Key → Editor
press e none = record e { end_of_input = true }
press e (some c) =
    if c == b'\n'
    then finish e
    else if c == eot
    then record (finish e) { end_of_input = true }
    else if c == backspace
    then record e { line = drop_last e.line }
    else if c == del
    then record e { line = drop_last e.line }
    else if ltb (length e.line) (max_line - 1)
    then record e { line = e.line ++ c ∷ [] }
    else e

put-IsTerminated : (s : Simpio) → IsTerminated s → IsTerminated (put s 0)
put-IsTerminated s v = record {
  size = ground (arith, v.size, v.inside, length-set s.buf s.pos 0);
  inside = v.inside;
  nul = ground (arith, v.size, v.inside, get_or-set_self s.pos s.buf 0 0);
}

-- A write inside the array.
store-inside : (buf : Bytes) (i c : ℕ) → i < length buf → store buf i c ≡ set buf i c
store-inside buf i c h = rw (lt→ltb i (length buf) h) refl

buf-put : (s : Simpio) → IsTerminated s → (put s 0).buf ≡ set s.buf s.pos 0
buf-put s v = store-inside s.buf s.pos 0 (omega (arith, v.size, v.inside))

buf-erase_char :
    (s : Simpio) → IsTerminated s → 0 < s.pos → (erase_char s).buf ≡ set s.buf (s.pos - 1) 0
buf-erase_char s v h = ground (arith, v.size, v.inside)

buf-add_char :
    (s : Simpio) (c : ℕ)
    → IsTerminated s
    → s.pos < max_line - 1
    → (add_char s (some c)).buf ≡ set (set s.buf s.pos c) (s.pos + 1) 0
buf-add_char s c v h =
    let one : store s.buf s.pos c ≡ set s.buf s.pos c =
      store-inside s.buf s.pos c (omega (arith, v.size, v.inside)) in
    ap (λ b. store b (s.pos + 1) 0) one
    ∙ store-inside (set s.buf s.pos c) (s.pos + 1) 0
        (omega (arith, v.size, length-set s.buf s.pos c))

erase_char-IsTerminated : (s : Simpio) → IsTerminated s → 0 < s.pos → IsTerminated (erase_char s)
erase_char-IsTerminated s v h =
    let e = buf-erase_char s v h in
    record {
      size = ap length e ∙ length-set s.buf (s.pos - 1) 0 ∙ v.size;
      inside = omega (arith, v.inside);
      nul =
          ap (λ b. get_or b (s.pos - 1) 0) e
          ∙ get_or-set_self (s.pos - 1) s.buf 0 0 (omega (arith, v.size, v.inside));
    }

add_char-IsTerminated :
    (s : Simpio) (c : ℕ)
    → IsTerminated s
    → s.pos < max_line - 1
    → IsTerminated (add_char s (some c))
add_char-IsTerminated s c v h =
    let e = buf-add_char s c v h in
    let one = length-set s.buf s.pos c in
    record {
      size = ap length e ∙ length-set (set s.buf s.pos c) (s.pos + 1) 0 ∙ one ∙ v.size;
      inside = omega arith;
      nul =
          ap (λ b. get_or b (s.pos + 1) 0) e
          ∙ get_or-set_self (s.pos + 1) (set s.buf s.pos c) 0 0 (omega (arith, v.size, one));
    }

edit-IsTerminated : (s : Simpio) (c : Key) → IsTerminated s → IsTerminated (edit s c)
unfolding edit
edit-IsTerminated s none v = ground arith
edit-IsTerminated s (some c) v =
    ground (arith, put-IsTerminated s v, erase_char-IsTerminated s v, add_char-IsTerminated s c v)

end_if-IsTerminated : (b : Bool) (s : Simpio) → IsTerminated s → IsTerminated (end_if b s)
end_if-IsTerminated true s v = record { size = v.size; inside = v.inside; nul = v.nul }
end_if-IsTerminated false s v = v

-- No key makes the editor write outside its buffer or lose the NUL at the end of the line.
pub simpio_get_char-IsTerminated :
    (s : Simpio) (c : Key) → IsTerminated s → IsTerminated (simpio_get_char s c)
unfolding simpio_get_char
simpio_get_char-IsTerminated s c v =
    end_if-IsTerminated (is_end c) (edit s c) (edit-IsTerminated s c v)

line-put : (s : Simpio) → IsTerminated s → take s.pos (put s 0).buf ≡ take s.pos s.buf
line-put s v = ap (take s.pos) (buf-put s v) ∙ take-set_past s.pos s.pos s.buf 0 (omega arith)

line-erase_char :
    (s : Simpio)
    → IsTerminated s
    → 0 < s.pos
    → take (s.pos - 1) (erase_char s).buf ≡ drop_last (take s.pos s.buf)
line-erase_char s v h =
    let less : suc (s.pos - 1) ≡ s.pos = omega arith in
    ap (take (s.pos - 1)) (buf-erase_char s v h)
    ∙ take-set_past (s.pos - 1) (s.pos - 1) s.buf 0 (omega arith)
    ∙ sym (drop_last-take (s.pos - 1) s.buf (omega (arith, v.size)))
    ∙ ap (λ n. drop_last (take n s.buf)) less

line-add_char :
    (s : Simpio) (c : ℕ)
    → IsTerminated s
    → s.pos < max_line - 1
    → take (s.pos + 1) (add_char s (some c)).buf ≡ take s.pos s.buf ++ c ∷ []
line-add_char s c v h =
    let more : s.pos + 1 ≡ suc s.pos = omega arith in
    ap (take (s.pos + 1)) (buf-add_char s c v h)
    ∙ take-set_past (s.pos + 1) (s.pos + 1) (set s.buf s.pos c) 0 (omega arith)
    ∙ ap (λ n. take n (set s.buf s.pos c)) more
    ∙ take-set s.pos s.buf c (omega (arith, v.size))

pub length-line : (s : Simpio) → IsTerminated s → length (take s.pos s.buf) ≡ s.pos
length-line s v = omega (arith, length-take s.pos s.buf, v.size)

is_empty-length : (l : Bytes) → is_empty l ≡ (length l == 0)
is_empty-length [] = refl
is_empty-length (c ∷ l) = ground arith

is_empty-line : (s : Simpio) → IsTerminated s → is_empty (take s.pos s.buf) ≡ (s.pos == 0)
is_empty-line s v = is_empty-length (take s.pos s.buf) ∙ ap (λ n. n == 0) (length-line s v)

-- Each key does to the typed line what it means to the user: the array, the position and the flags
-- carry out `press`.
pub view-simpio_get_char :
    (s : Simpio) (c : Key) → IsTerminated s → view (simpio_get_char s c) ≡ press (view s) c
unfolding simpio_get_char edit
view-simpio_get_char s none v = ground arith
view-simpio_get_char s (some c) v = ground (
  arith,
  line-put s v,
  line-erase_char s v,
  line-add_char s c v,
  length-line s v,
  is_empty-line s v,
)
