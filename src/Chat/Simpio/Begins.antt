-- ===== src/Chat/Simpio/Begins.antt =====
-- simpio.c, `iprintf`: how what it writes begins, for messages of any length.
use completed_projects.Common.{
  ℕ, zero, suc, ◌+◌, ◌-◌, ◌≤◌, ◌≡◌, refl, ap, ◌∙◌, [], ◌∷◌, ◌++◌, take, drop, length, length-append,
  length-take, append_assoc, arith, ◌*◌,
}
use completed_projects.Common.CString.{Bytes, c_str}
use completed_projects.Chat.Blather.{max_line}
use completed_projects.Chat.Simpio.{
  Simpio, Stack, erase_line, bounded, print_at, print_mesg, iprintf,
}
use completed_projects.Chat.Simpio.Printing.{print_erase}

take_behind :
    (done rest : Bytes) (n : ℕ)
    → length done ≤ n
    → (more : Bytes) × (take n (done ++ rest) ≡ done ++ more)
take_behind [] rest n h = (take n rest, refl)
take_behind (c ∷ done) rest zero h = absurd (omega arith)
take_behind (c ∷ done) rest (suc n) h =
    let (more, e) = take_behind done rest n (omega arith) in (more, ap (◌∷◌ c) e)

-- A print behind some text leaves that text.
print_at_behind :
    (max : ℕ) (text done rest : Bytes) (off : ℕ)
    → length done ≤ off
    → (more : Bytes) × (print_at max text (done ++ rest, off) ≡ (done ++ more, off + length text))
unfolding print_at
print_at_behind max text done rest off h =
    let (kept, e) = take_behind done rest off h in
    let b = bounded max off text in
    let z = b ++ drop (off + length b) (done ++ rest) in
    (
      kept ++ z,
      ap (λ l. (l ++ z, off + length text)) e
          ∙ ap (λ l. (l, off + length text)) (append_assoc done kept z),
    )

print_mesg_begins :
    (mesg stack : Bytes)
    → (rest : Bytes) × (print_mesg mesg (erase_line ++ 0 ∷ drop 6 stack, 5)
        ≡ ((erase_line ++ take (max_line - 1) mesg) ++ rest, 5 + length mesg))
unfolding print_mesg
print_mesg_begins mesg stack =
    let cut = take (max_line - 1) mesg in
    let behind = drop (5 + length (cut ++ 0 ∷ [])) (erase_line ++ 0 ∷ drop 6 stack) in
    (0 ∷ behind, rw (append_assoc cut (0 ∷ []) behind) refl)

-- What `iprintf` writes begins with the code that erases the line and with the message, cut to 1023
-- bytes.
pub iprintf_begins :
    (stack : Stack) (s : Simpio) (mesg : Bytes)
    → (rest : Bytes) × (iprintf stack s mesg
        ≡ record s { out = s.out ++ ((erase_line ++ take (max_line - 1) mesg) ++ rest) })
unfolding iprintf
iprintf_begins stack s mesg =
    let max = max_line * 2 in
    let done = erase_line ++ take (max_line - 1) mesg in
    let size : length done ≤ 5 + length mesg = omega (
      arith,
      length-append erase_line (take (max_line - 1) mesg),
      length-take (max_line - 1) mesg,
    ) in
    let (rest1, e1) = print_mesg_begins mesg (stack s.out) in
    let (rest2, e2) = print_at_behind max (c_str s.prompt) done rest1 (5 + length mesg) size in
    let off = 5 + length mesg + length (c_str s.prompt) in
    let (rest3, e3) = print_at_behind max (c_str s.buf) done rest2 off (omega (arith, size)) in
    let (rest4, e4) = take_behind done rest3 (off + length (c_str s.buf)) (omega (arith, size)) in
    (rest4, ap (λ o. record s { out = s.out ++ o }) (rw (print_erase (stack s.out), e1, e2, e3) e4))
