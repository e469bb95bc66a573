-- ===== src/Shell/Session/Ends.antt =====
-- commando.c: `main` comes to an end on every input without `output-for`.
use completed_projects.Common.{
  ◌>>=◌, ℕ, zero, suc, ◌+◌, ◌-◌, ◌<◌, ◌≤◌, Bool, Bool-cases, inl, inr, none, some, List, [], ◌∷◌,
  ◌++◌, ◌≡◌, ap, length, arith, ◌==◌, if◌then◌else◌,
}
use completed_projects.Common.CString.{Bytes, codes, c_str}
use completed_projects.Shell.Tokens.{parse_into_tokens}
use completed_projects.Shell.Cmd.{Cmd, name_max}
use completed_projects.Shell.Commando.{Round, argument}
use completed_projects.Shell.Commando.Table.{Returns, Returns-bind, Returns-some, IsTable}
use completed_projects.Shell.Commando.Rounds.{AllRead, IsSafe, RoundEnd, main_line-Returns}
use completed_projects.Shell.Session.{
  max_line, take_line, fgets, echoes, echo_text, prompt, main_loop, main,
}

-- The first token fits the name of a job, and the command is not `output-for` with an argument.
abbrev pub IsPlain : List Bytes → Type 0
IsPlain [] = Unit {0}
IsPlain (t ∷ ts) = (length t ≤ name_max) × (argument (codes "output-for") (t ∷ ts) ≡ none)

-- The lines of the input, as successive calls of `fgets` return them.
unfoldable pub lines : ℕ → Bytes → List Bytes
lines zero input = []
lines (suc fuel) input = elim (fgets max_line input) [
  | none ↦ []
  | some (line, rest) ↦ line ∷ lines fuel rest
]

abbrev pub AllPlain : List Bytes → Type 0
AllPlain [] = Unit {0}
AllPlain (line ∷ ls) = IsPlain (parse_into_tokens (c_str line)).0 × AllPlain ls

IsPlain-IsSafe : (ctl : List Cmd) (ts : List Bytes) → IsPlain ts → IsSafe ctl ts
IsPlain-IsSafe ctl [] h = tt
IsPlain-IsSafe ctl (t ∷ ts) h = (h.0, λ job e. cc)

take_line-length : (n : ℕ) (input : Bytes) → length (take_line n input).1 ≤ length input
unfolding take_line
take_line-length zero input = omega arith
take_line-length (suc n) [] = omega arith
take_line-length (suc n) (c ∷ input) = let rest = take_line-length n input in ground (arith, rest)

take_line-shorter :
    (n c : ℕ) (input : Bytes) → length (take_line (suc n) (c ∷ input)).1 < suc (length input)
unfolding take_line
take_line-shorter n c input =
    let rest = take_line-length n input in
    elim (Bool-cases (c == b'\n')) [
      | inl e ↦ rw e (omega arith)
      | inr e ↦ rw e (omega (arith, rest))
    ]

abbrev pub SessionEnd : List Cmd × Bytes → Type 0
SessionEnd (ctl, out) = IsTable ctl

main_loop-Returns :
    (echo : Bool) (rounds : ℕ → Round) (fuel k : ℕ) (ctl : List Cmd) (input : Bytes)
    → length input < fuel
    → ((j : ℕ) → AllRead (rounds j))
    → AllPlain (lines fuel input)
    → IsTable ctl
    → Returns SessionEnd (main_loop echo rounds fuel k ctl input)
unfolding main_loop lines
main_loop-Returns echo rounds zero k ctl input h reads p t = absurd (omega arith)
main_loop-Returns echo rounds (suc fuel) k ctl [] h reads p t = t
main_loop-Returns echo rounds (suc fuel) k ctl (c ∷ input) h reads p t =
    let line = (take_line (max_line - 1) (c ∷ input)).0 in
    let rest = (take_line (max_line - 1) (c ∷ input)).1 in
    let tokens = (parse_into_tokens (c_str line)).0 in
    Returns-bind RoundEnd SessionEnd _ _
      (main_line-Returns (rounds k) ctl (c_str line) (reads k) t (IsPlain-IsSafe ctl tokens p.0))
      (λ x kept.
        Returns-bind {A = List Cmd × Bytes} {B = List Cmd × Bytes} SessionEnd SessionEnd
          (if x.0 then main_loop echo rounds fuel (k + 1) x.1 rest else some (x.1, []))
          (λ y. some (y.0, prompt ++ (echo_text echo line ++ (x.2 ++ y.1))))
          (elim (Bool-cases x.0) [
            | inl e ↦ rw e (
                main_loop-Returns echo rounds fuel (k + 1) x.1 rest
                  (omega (arith, take_line-shorter 1022 c input)) reads p.1 kept)
            | inr e ↦ rw e kept
          ])
          (λ y l. l))

-- `main` comes to its end on every input, with all that it has printed, whatever `fork` and `waitpid`
-- answer and with or without echo: if the first token of each line fits the name of a job, no line is
-- `output-for` with an argument, and the first read of the pipe succeeds for each job that is reported
-- to have exited.
pub main-Returns :
    (env : Bool) (args : List Bytes) (rounds : ℕ → Round) (input : Bytes)
    → ((j : ℕ) → AllRead (rounds j))
    → AllPlain (lines (length input + 1) input)
    → (out : Bytes) × (main env args rounds input ≡ some out)
unfolding main
main-Returns env args rounds input reads p =
    let ((ctl, out), e) = Returns-some SessionEnd _ (
      main_loop-Returns (echoes env args) rounds (length input + 1) 0 [] input (omega arith) reads p
        (omega arith, tt)) in
    (out, ap (λ o. o >>= λ y. some y.1) e)
