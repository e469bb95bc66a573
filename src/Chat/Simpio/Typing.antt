-- ===== src/Chat/Simpio/Typing.antt =====
-- simpio.c: a line typed at the terminal, up to the Enter key, as the string in the buffer.
use completed_projects.Common.{
  ℕ, zero, suc, ◌-◌, ◌≤◌, ◌<◌, true, false, Bool-cases, inl, inr, ◌≡◌, ◌≢◌, refl, ◌∙◌, sym, [], ◌∷◌,
  ◌++◌, some, take, get_or, length, take-append_of_le, append_assoc, length-append, ltb,
  if◌then◌else◌, arith,
}
use completed_projects.Common.CString.{Bytes, IsText, c_str}
use completed_projects.Chat.Blather.{max_line}
use completed_projects.Chat.Simpio.{Simpio, eot, del, backspace}
use completed_projects.Chat.Simpio.Editing.{IsTerminated, Editor, press}

-- A byte that is no control of the editor.
pub record IsOrdinary (c : ℕ) : Type 0 where
  pub not_nul : c ≢ 0
  pub not_enter : c ≢ b'\n'
  pub not_eot : c ≢ eot
  pub not_backspace : c ≢ backspace
  pub not_del : c ≢ del

abbrev pub IsOrdinaryText : Bytes → Type 0
IsOrdinaryText [] = Unit {0}
IsOrdinaryText (c ∷ cs) = IsOrdinary c × IsOrdinaryText cs

pub IsText-take : (n : ℕ) (l : Bytes) → IsOrdinaryText l → IsText (take n l)
IsText-take zero l h = tt
IsText-take (suc n) [] h = tt
IsText-take (suc n) (c ∷ l) h = (h.0.not_nul, IsText-take n l h.1)

-- The line is what C reads from the buffer.
c_str-take :
    (n : ℕ) (a : Bytes) → n < length a → get_or a n 0 ≡ 0 → IsText (take n a) → c_str a ≡ take n a
c_str-take n [] h z t = elim h [ ]
c_str-take zero (x ∷ a) h z t = ground arith
c_str-take (suc n) (x ∷ a) h z t = ground (arith, c_str-take n a (omega arith) z t.1)

pub c_str-line :
    (s : Simpio) → IsTerminated s → IsText (take s.pos s.buf) → c_str s.buf ≡ take s.pos s.buf
c_str-line s v t = c_str-take s.pos s.buf (omega (arith, v.size)) v.nul t

abbrev pub typing : Bytes → Editor
typing l = record { line = l; line_ready = false; end_of_input = false }

abbrev pub entered : Bytes → Editor
entered l = record { line = l; line_ready = true; end_of_input = false }

-- One more byte, if there is room.
abbrev pub grow : Bytes → ℕ → Bytes
grow l c = if ltb (length l) (max_line - 1) then l ++ c ∷ [] else l

pub press_ordinary :
    (l : Bytes) (c : ℕ) → IsOrdinary c → press (typing l) (some c) ≡ typing (grow l c)
press_ordinary l c o = ground arith

pub press_enter : (l : Bytes) → l ≢ [] → press (typing l) (some b'\n') ≡ entered l
press_enter [] h = absurd (h refl)
press_enter (c ∷ l) h = refl

pub take-grow :
    (l : Bytes) (c : ℕ) (xs : Bytes)
    → take (max_line - 1) (grow l c ++ xs) ≡ take (max_line - 1) (l ++ c ∷ xs)
take-grow l c xs = elim (Bool-cases (ltb (length l) (max_line - 1))) [
  | inl e ↦ rw e (rw append_assoc)
  | inr e ↦
      let full : max_line - 1 ≤ length l = ground arith in
      rw e (
        take-append_of_le (max_line - 1) l xs full
        ∙ sym (take-append_of_le (max_line - 1) l (c ∷ xs) full))
]

pub grow-ne-nil : (l : Bytes) (c : ℕ) → grow l c ≢ []
grow-ne-nil [] c h = cc
grow-ne-nil (x ∷ l) c h = ground arith

pub length-grow : (l : Bytes) (c : ℕ) → length l < max_line → length (grow l c) < max_line
length-grow l c h = ground (arith, length-append l (c ∷ []))
