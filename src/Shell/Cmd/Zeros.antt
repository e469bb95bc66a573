-- ===== src/Shell/Cmd/Zeros.antt =====
-- cmd.c: `read_all` on output with a NUL in it, which `strcat` takes for its end.
use completed_projects.Common.{
  true, ℕ, zero, suc, ◌+◌, ◌-◌, ◌*◌, ◌<◌, ◌≤◌, false, some, [], ◌∷◌, ◌++◌, ◌≡◌, refl, sym, ap, ◌∙◌,
  take, drop, length, set, length-append, take_all, take-append, drop-append, take-set_past,
  append_assoc, ltb, le→ltb, arith, ◌>>=◌,
}
use completed_projects.Common.CString.{Bytes, IsText, c_str-append_nul}
use completed_projects.Shell.Cmd.{buf_size, append_text, read_more, read_all}
use completed_projects.Shell.Cmd.Output.{IsFresh, set-append, nonempty}

drop_all : (n : ℕ) (a : Bytes) → length a ≤ n → drop n a ≡ []
drop_all zero [] h = refl
drop_all zero (c ∷ a) h = absurd (omega arith)
drop_all (suc n) [] h = refl
drop_all (suc n) (c ∷ a) h = drop_all n a (omega arith)

read_more_end :
    (fresh : ℕ → Bytes) (fuel size : ℕ) (buf : Bytes) (n : ℕ)
    → 0 < fuel
    → read_more fresh fuel size buf n [] ≡ some (buf, n)
unfolding read_more
read_more_end fresh zero size buf n h = elim h [ ]
read_more_end fresh (suc fuel) size buf n h = refl

-- `strcat` to a buffer with a NUL in its middle.
append_text_inner :
    (a b got : Bytes)
    → IsText a
    → IsText got
    → (tail : Bytes) × (append_text (a ++ 0 ∷ b) (got ++ 0 ∷ []) ≡ (a ++ got) ++ 0 ∷ tail)
append_text_inner a b got h k = (
  drop (length (a ++ got) + 1) (a ++ 0 ∷ b),
  rw (c_str-append_nul a b h, c_str-append_nul got [] k) refl,
)

module _ (fresh : ℕ → Bytes) (a b : Bytes) (g : ℕ) (gs : Bytes) where
  -- One more read, which gets all that is left.
  read_more_last :
      (fuel size : ℕ) (x : ℕ) (r : Bytes)
      → IsText a
      → IsText (g ∷ gs)
      → 0 < fuel
      → length (g ∷ gs) ≤ size
      → (tail : Bytes) × (read_more fresh
            (suc fuel)
            size
            ((a ++ 0 ∷ b) ++ x ∷ r)
            (length (a ++ 0 ∷ b))
            (g ∷ gs)
          ≡ some ((a ++ (g ∷ gs)) ++ 0 ∷ tail, length (a ++ 0 ∷ b) + length (g ∷ gs)))
  unfolding read_more
  read_more_last fuel size x r h k f s =
      let new = fresh (size * 2 + 1 - length ((a ++ 0 ∷ b) ++ x ∷ r)) in
      let (tail, e) = append_text_inner a (b ++ 0 ∷ (r ++ new)) (g ∷ gs) h k in
      let grown : set ((a ++ 0 ∷ b) ++ x ∷ r) (length (a ++ 0 ∷ b)) 0 ++ new
          ≡ a ++ 0 ∷ (b ++ 0 ∷ (r ++ new)) =
        ap (λ s. s ++ new) (set-append (a ++ 0 ∷ b) x 0 r)
        ∙ append_assoc (a ++ 0 ∷ b) (0 ∷ r) new
        ∙ append_assoc a (0 ∷ b) (0 ∷ (r ++ new)) in
      (
        tail,
        rw (grown, take_all size (g ∷ gs) s, drop_all size (g ∷ gs) s, e)
            (read_more_end fresh fuel (size * 2) _ _ f),
      )

  -- If the first read fills the buffer with bytes of which one is NUL, and one more read gets the rest,
  -- which is not empty and holds no NUL, the rest overwrites what stands from the first NUL on; the
  -- size that is returned is that of everything.
  pub read_all-append :
      IsFresh fresh
      → IsText a
      → IsText (g ∷ gs)
      → length (a ++ 0 ∷ b) ≡ buf_size
      → length (g ∷ gs) ≤ buf_size
      → (buf : Bytes) × (read_all fresh true ((a ++ 0 ∷ b) ++ (g ∷ gs))
          ≡ some (buf, buf_size + length (g ∷ gs)))
        × (take (length (a ++ (g ∷ gs))) buf ≡ a ++ (g ∷ gs))
  unfolding read_all
  read_all-append f h k full s =
      let first = a ++ 0 ∷ b in
      let pipe = first ++ (g ∷ gs) in
      let got : take buf_size pipe ≡ first = rw (sym full) (take-append first (g ∷ gs)) in
      let left : drop buf_size pipe ≡ g ∷ gs = rw (sym full) (drop-append first (g ∷ gs)) in
      let (x, r, one) = nonempty (fresh 1) 0 (f 1) in
      let long : ltb (length first) buf_size ≡ false = le→ltb _ _ (omega (arith, full)) in
      let (tail, run) =
        read_more_last (length pipe) buf_size x r h k (omega (arith, length-append first (g ∷ gs)))
          s in
      let size_one : buf_size + 1 - length first ≡ 1 = omega (arith, full) in
      let room : fresh (buf_size + 1 - length first) ≡ x ∷ r = ap fresh size_one ∙ one in
      let fuel : length pipe + 1 ≡ suc (length pipe) = omega arith in
      let all = a ++ (g ∷ gs) in
      let n = length first + length (g ∷ gs) in
      (
        set (all ++ 0 ∷ tail) n 0,
        rw (got, left, long, room, fuel, run, ◌>>=◌)
            (ap (λ m. some (set (all ++ 0 ∷ tail) n 0, m)) (ap (λ m. m + length (g ∷ gs)) full)),
        take-set_past (length all) n (all ++ 0 ∷ tail) 0
              (omega (arith, length-append a (g ∷ gs), length-append a (0 ∷ b)))
            ∙ take-append all (0 ∷ tail),
      )
