-- ===== src/Shell/Cmd/Output.antt =====
-- cmd.c: `read_all` and what becomes of a job's output.
use completed_projects.Common.{
  ℕ, zero, suc, ◌+◌, ◌-◌, ◌*◌, ◌<◌, ◌≤◌, pos, true, false, Bool-cases, inl, inr, Option, some, [],
  ◌∷◌, ◌++◌, ◌≡◌, refl, sym, ap, ◌∙◌, take, drop, length, set, length-append, length-take,
  length-drop, take_all, take-append, take-append-drop, append_assoc, append-nil, ltb, ltb→lt,
  arith, ◌>>=◌, eqb_ℤ, eqb_ℤ_iff,
}
use completed_projects.Common.CString.{Bytes, codes, IsText, c_str-append_nul}
use completed_projects.Common.Decimal.{decimal, length-decimal}
use completed_projects.Shell.Cmd.{
  Cmd, Answer, exit_message, buf_size, append_text, read_more, read_all, cmd_fetch_output,
  cmd_print_output, cmd_update_state, finish, exit_text, snprintf, status_len,
}

-- What `malloc` and `realloc` add has the size that was asked for.
abbrev pub IsFresh : (ℕ → Bytes) → Type 0
IsFresh fresh = (k : ℕ) → length (fresh k) ≡ k

pub set-append :
    (seen : Bytes) (x v : ℕ) (r : Bytes) → set (seen ++ x ∷ r) (length seen) v ≡ seen ++ v ∷ r
set-append [] x v r = refl
set-append (c ∷ seen) x v r = ap (◌∷◌ c) (set-append seen x v r)

append-IsText : (a b : Bytes) → IsText a → IsText b → IsText (a ++ b)
append-IsText [] b h k = k
append-IsText (c ∷ a) b h k = (h.0, append-IsText a b h.1 k)

take-IsText : (n : ℕ) (a : Bytes) → IsText a → IsText (take n a)
take-IsText zero a h = tt
take-IsText (suc n) [] h = tt
take-IsText (suc n) (c ∷ a) h = (h.0, take-IsText n a h.1)

drop-IsText : (n : ℕ) (a : Bytes) → IsText a → IsText (drop n a)
drop-IsText zero a h = h
drop-IsText (suc n) [] h = tt
drop-IsText (suc n) (c ∷ a) h = drop-IsText n a h.1

-- `strcat` of what was read to what was seen.
append_text_lem :
    (seen r got : Bytes)
    → IsText seen
    → IsText got
    → append_text (seen ++ 0 ∷ r) (got ++ 0 ∷ [])
      ≡ (seen ++ got) ++ 0 ∷ drop (length (seen ++ got) + 1) (seen ++ 0 ∷ r)
append_text_lem seen r got h k = rw (c_str-append_nul seen r h, c_str-append_nul got [] k) refl

-- The buffer of a run that has read some bytes in all.
record Holds (all : Bytes) (out : Option (Bytes × ℕ)) : Type 0 where
  pub behind : ℕ
  pub junk : Bytes
  pub returns : out ≡ some (all ++ behind ∷ junk, length all)

read_more-Holds :
    (fresh : ℕ → Bytes) (fuel size : ℕ) (seen : Bytes) (x : ℕ) (r pipe : Bytes)
    → IsText seen
    → IsText pipe
    → length pipe < fuel
    → 0 < size
    → Holds (seen ++ pipe) (read_more fresh fuel size (seen ++ x ∷ r) (length seen) pipe)
unfolding read_more
read_more-Holds fresh zero size seen x r pipe h k f s = elim f [ ]
read_more-Holds fresh (suc fuel) size seen x r [] h k f s = record {
  behind = x;
  junk = r;
  returns = rw (append-nil seen);
}
read_more-Holds fresh (suc fuel) size seen x r (c ∷ cs) h k f s =
    let pipe : Bytes = c ∷ cs in
    let got = take size pipe in
    let new = fresh (size * 2 + 1 - length (seen ++ x ∷ r)) in
    let next = drop (length (seen ++ got) + 1) (seen ++ 0 ∷ (r ++ new)) in
    let rest =
      read_more-Holds fresh fuel (size * 2) (seen ++ got) 0 next (drop size pipe)
        (append-IsText seen got h (take-IsText size pipe k)) (drop-IsText size pipe k)
        (omega (arith, length-drop size pipe)) (omega arith) in
    let whole : (seen ++ got) ++ drop size pipe ≡ seen ++ pipe =
      append_assoc seen got (drop size pipe) ∙ ap (◌++◌ seen) (take-append-drop size pipe) in
    record {
      behind = rest.behind;
      junk = rest.junk;
      returns =
          rw
            (
              set-append seen x 0 r,
              append_assoc seen (0 ∷ r) new,
              append_text_lem seen (r ++ new) got h (take-IsText size pipe k),
              sym (length-append seen got),
              sym whole,
            )
            rest.returns;
    }

pub nonempty : (b : Bytes) (k : ℕ) → length b ≡ suc k → (x : ℕ) × (r : Bytes) × (b ≡ x ∷ r)
nonempty [] k h = absurd (omega arith)
nonempty (x ∷ r) k h = (x, r, refl)

-- The buffer before the loop, with at least one byte behind what was read.
first_read :
    (fresh : ℕ → Bytes) (pipe : Bytes)
    → IsFresh fresh
    → let first = take buf_size pipe in
      (x : ℕ) × (r : Bytes) × (first ++ fresh (buf_size + 1 - length first) ≡ first ++ x ∷ r)
first_read fresh pipe h =
    let first = take buf_size pipe in
    let short : length first ≤ buf_size = omega (arith, length-take buf_size pipe) in
    let room : length (fresh (buf_size + 1 - length first)) ≡ suc (buf_size - length first) =
      omega (arith, h (buf_size + 1 - length first)) in
    let (x, r, e) = nonempty (fresh (buf_size + 1 - length first)) _ room in
    (x, r, ap (◌++◌ first) e)

-- Output of any length without NUL is read whole, however often the buffer has to grow.
pub read_all-IsText :
    (fresh : ℕ → Bytes) (pipe : Bytes)
    → IsFresh fresh
    → IsText pipe
    → (buf : Bytes) × (read_all fresh true pipe ≡ some (buf, length pipe))
      × (take (length pipe) buf ≡ pipe)
unfolding read_all
read_all-IsText fresh pipe h k =
    let first = take buf_size pipe in
    let (x, r, e) = first_read fresh pipe h in
    elim (Bool-cases (ltb (length first) buf_size)) [
      | inl short ↦
          let whole : first ≡ pipe =
            take_all buf_size pipe (omega (arith, length-take buf_size pipe, ltb→lt _ _ short)) in
          (
            pipe ++ 0 ∷ r,
            rw (short, e, ◌>>=◌, whole) (ap (λ b. some (b, length pipe)) (set-append pipe x 0 r)),
            take-append pipe (0 ∷ r),
          )
      | inr long ↦
          let more =
            read_more-Holds fresh (length pipe + 1) buf_size first x r (drop buf_size pipe)
              (take-IsText buf_size pipe k) (drop-IsText buf_size pipe k)
              (omega (arith, length-drop buf_size pipe)) (omega arith) in
          (
            pipe ++ 0 ∷ more.junk,
            rw (long, e, more.returns, ◌>>=◌, take-append-drop buf_size pipe)
                (ap (λ b. some (b, length pipe)) (set-append pipe more.behind 0 more.junk)),
            take-append pipe (0 ∷ more.junk),
          )
    ]

-- What is to be known of a job that has just exited.
pub record Exited (a : Answer) (result : Option (Cmd × Bytes)) : Type 0 where
  pub job : Cmd
  pub printed : Bytes
  pub returns : result ≡ some (job, printed)
  pub ended : job.finished ≡ true
  pub with_code : job.status ≡ pos a.code
  pub shown : job.str_status ≡ exit_text a.code
  pub output_whole : cmd_print_output job ≡ a.pipe

exit_text_fits : (n : ℕ) → n < 256 → snprintf status_len (exit_text n) ≡ exit_text n
exit_text_fits n h =
    take_all (status_len - 1) (exit_text n)
      (omega (arith, length-append (decimal n) (codes ")"), length-decimal n (omega arith)))

-- A job that `waitpid` reports to have exited, with a pipe that can be read, is marked finished with
-- its exit code, which is shown whole, and its output, if it holds no NUL, is what will be printed for
-- it.
pub cmd_update_state-Exited :
    (fresh : ℕ → Bytes) (a : Answer) (cmd : Cmd)
    → IsFresh fresh
    → cmd.finished ≡ false
    → a.ret ≡ cmd.pid
    → a.exited ≡ true
    → a.readable ≡ true
    → a.code < 256
    → IsText a.pipe
    → Exited a (cmd_update_state fresh a cmd)
unfolding cmd_update_state finish cmd_fetch_output cmd_print_output
cmd_update_state-Exited fresh a cmd h f p e readable c t =
    let (buf, got, whole) = read_all-IsText fresh a.pipe h t in
    let same : eqb_ℤ a.ret cmd.pid ≡ true = (eqb_ℤ_iff a.ret cmd.pid).1 p in
    let ended = record cmd {
      finished = true;
      status = pos a.code;
      str_status = snprintf status_len (exit_text a.code);
    } in
    record {
      job = record ended { output = some buf; output_size = pos (length a.pipe) };
      printed = exit_message ended a.code ++ [];
      returns = rw (f, same, e, readable, got, ◌>>=◌) refl;
      ended = refl;
      with_code = refl;
      shown = exit_text_fits a.code c;
      output_whole = whole;
    }

-- A job that has finished is asked for no more and never changes again.
pub cmd_update_state_finished :
    (fresh : ℕ → Bytes) (a : Answer) (cmd : Cmd)
    → cmd.finished ≡ true
    → cmd_update_state fresh a cmd ≡ some (cmd, [])
unfolding cmd_update_state
cmd_update_state_finished fresh a cmd h = rw h refl
