-- ===== src/Chat/Simpio/Printing.antt =====
-- simpio.c, `iprintf`: what reaches the terminal, and what leaks to it from the stack.
use completed_projects.Common.{
  ℕ, ◌+◌, ◌-◌, ◌≤◌, ◌<◌, true, false, ◌≡◌, refl, ap, ◌∙◌, [], ◌∷◌, ◌++◌, take, drop, length,
  length-append, length-take, take_all, take-append, drop-drop, append_assoc, leb, ◌==◌, arith, ◌*◌,
}
use completed_projects.Common.CString.{Bytes, c_str}
use completed_projects.Chat.Blather.{max_line}
use completed_projects.Chat.Simpio.{
  Simpio, Stack, erase_line, bounded, print_at, print_mesg, iprintf,
}

bounded_fits :
    (max off : ℕ) (text : Bytes) → off + length text < max → bounded max off text ≡ text ++ 0 ∷ []
bounded_fits max off text h =
    let inside : leb off max ≡ true = ground arith in
    let some_room : (max - off == 0) ≡ false = ground arith in
    rw (inside, some_room, take_all (max - off - 1) text (omega arith)) refl

-- A print behind what is there.
print_at_lem :
    (max : ℕ) (done text rest : Bytes)
    → length done + length text < max
    → (rest' : Bytes) × (print_at max text (done ++ rest, length done)
        ≡ ((done ++ text) ++ rest', length (done ++ text)))
unfolding print_at
print_at_lem max done text rest h =
    let rest' = 0 ∷ drop (length done + length (text ++ 0 ∷ [])) (done ++ rest) in
    (
      rest',
      rw
          (
            bounded_fits max (length done) text h,
            take-append done rest,
            length-append done text,
            append_assoc done text rest',
            append_assoc text (0 ∷ [])
                (drop (length done + length (text ++ 0 ∷ [])) (done ++ rest)),
          )
          refl,
    )

-- The prompt and the line that is being typed, behind what is there.
print_rest :
    (s : Simpio) (done rest : Bytes)
    → length done + (length (c_str s.prompt) + length (c_str s.buf)) < max_line * 2
    → let max = max_line * 2 in
      let (output, off) =
        print_at max (c_str s.buf) (print_at max (c_str s.prompt) (done ++ rest, length done)) in
      take off output ≡ done ++ (c_str s.prompt ++ c_str s.buf)
print_rest s done rest h =
    let max = max_line * 2 in
    let p = c_str s.prompt in
    let (rest1, e1) = print_at_lem max done p rest (omega arith) in
    let (rest2, e2) =
      print_at_lem max (done ++ p) (c_str s.buf) rest1 (omega (arith, length-append done p)) in
    rw (e1, e2) (take-append ((done ++ p) ++ c_str s.buf) rest2 ∙ append_assoc done p (c_str s.buf))

-- The text in front of the message.
pub print_erase :
    (stack : Bytes)
    → print_at (max_line * 2) erase_line (stack, 0) ≡ (erase_line ++ 0 ∷ drop 6 stack, 5)
unfolding print_at
print_erase stack = refl

print_mesg_short :
    (mesg stack : Bytes)
    → length mesg < max_line
    → (rest : Bytes) × (print_mesg mesg (erase_line ++ 0 ∷ drop 6 stack, 5)
        ≡ ((erase_line ++ mesg) ++ rest, length (erase_line ++ mesg)))
unfolding print_mesg
print_mesg_short mesg stack h =
    let rest = drop (5 + length (mesg ++ 0 ∷ [])) (erase_line ++ 0 ∷ drop 6 stack) in
    (
      0 ∷ rest,
      rw
          (
            take_all (max_line - 1) mesg (omega arith),
            length-append erase_line mesg,
            append_assoc mesg (0 ∷ []) rest,
          )
          refl,
    )

-- A message below the bound, which fits the array together with the prompt and the typed line, is
-- printed whole behind the code that erases the line, with both behind it, and nothing else is.
pub iprintf-short :
    (stack : Stack) (s : Simpio) (mesg : Bytes)
    → length mesg < max_line
    → 5 + length mesg + (length (c_str s.prompt) + length (c_str s.buf)) < max_line * 2
    → iprintf stack s mesg
      ≡ record s { out = s.out ++ ((erase_line ++ mesg) ++ (c_str s.prompt ++ c_str s.buf)) }
unfolding iprintf
iprintf-short stack s mesg h k =
    let (rest, e) = print_mesg_short mesg (stack s.out) h in
    let fits =
      print_rest s (erase_line ++ mesg) rest (omega (arith, length-append erase_line mesg)) in
    ap (λ o. record s { out = s.out ++ o }) (rw (print_erase (stack s.out), e) fits)

print_mesg_long :
    (mesg stack leaked behind : Bytes)
    → max_line ≤ length mesg
    → drop (5 + max_line) stack ≡ leaked ++ behind
    → length leaked ≡ length mesg - max_line
    → let done = erase_line ++ (take (max_line - 1) mesg ++ 0 ∷ leaked) in
      print_mesg mesg (erase_line ++ 0 ∷ drop 6 stack, 5) ≡ (done ++ behind, length done)
unfolding print_mesg
print_mesg_long mesg stack leaked behind h d l =
    let cut = take (max_line - 1) mesg in
    let whole : length (cut ++ 0 ∷ []) ≡ max_line =
      omega (arith, length-append cut (0 ∷ []), length-take (max_line - 1) mesg) in
    let size : 5 + length (cut ++ 0 ∷ []) ≡ 5 + max_line = ap (λ n. 5 + n) whole in
    let left : drop (max_line - 1) (drop 6 stack) ≡ leaked ++ behind =
      drop-drop (max_line - 1) 6 stack ∙ d in
    let off : 5 + length mesg ≡ length (erase_line ++ (cut ++ 0 ∷ leaked)) =
      omega (arith, length-append cut (0 ∷ leaked), length-take (max_line - 1) mesg) in
    rw
      (
        size,
        left,
        off,
        append_assoc cut (0 ∷ []) (leaked ++ behind),
        append_assoc cut (0 ∷ leaked) behind,
      )
      refl

-- A longer message is cut to 1023 bytes, but the offset grows by its whole length: a NUL and as many
-- bytes of the stack as it is longer than 1024 are printed too, in front of the prompt.
pub iprintf-leaks :
    (stack : Stack) (s : Simpio) (mesg leaked behind : Bytes)
    → max_line ≤ length mesg
    → drop (5 + max_line) (stack s.out) ≡ leaked ++ behind
    → length leaked ≡ length mesg - max_line
    → 5 + length mesg + (length (c_str s.prompt) + length (c_str s.buf)) < max_line * 2
    → iprintf stack s mesg ≡ record s {
      out =
          s.out
          ++ ((erase_line ++ (take (max_line - 1) mesg ++ 0 ∷ leaked))
              ++ (c_str s.prompt ++ c_str s.buf));
    }
unfolding iprintf
iprintf-leaks stack s mesg leaked behind h d l k =
    let cut = take (max_line - 1) mesg in
    let done = erase_line ++ (cut ++ 0 ∷ leaked) in
    let e = print_mesg_long mesg (stack s.out) leaked behind h d l in
    let fits =
      print_rest s done behind
        (omega (arith, length-append cut (0 ∷ leaked), length-take (max_line - 1) mesg)) in
    ap (λ o. record s { out = s.out ++ o }) (rw (print_erase (stack s.out), e) fits)
