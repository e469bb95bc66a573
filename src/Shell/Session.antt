-- ===== src/Shell/Session.antt =====
-- Unix_Command_Line_Shell/commando.c: `main` on its whole input.
pub mod Ends
use completed_projects.Common.{
  ◌>>=◌, ℕ, zero, suc, ◌+◌, ◌-◌, Bool, true, false, Option, none, some, List, [], ◌∷◌, ◌++◌, length,
  ◌==◌, ◌||◌, if◌then◌else◌,
}
use completed_projects.Common.CString.{Bytes, codes, c_str, str_eq}
use completed_projects.Shell.Cmd.{Cmd}
use completed_projects.Shell.Commando.{Round, main_line}

abbrev pub max_line : ℕ
max_line = 1024

-- The bytes up to the first newline and those behind it, at most `n`.
unfoldable pub take_line : ℕ → Bytes → Bytes × Bytes
take_line zero input = ([], input)
take_line (suc n) [] = ([], [])
take_line (suc n) (c ∷ input) =
    let (line, rest) = take_line n input in if c == b'\n' then (c ∷ [], input) else (c ∷ line, rest)

-- `fgets(buf, size, stdin)`: the line, and what is left of the input; `none` at the end.
abbrev pub fgets : ℕ → Bytes → Option (Bytes × Bytes)
fgets size [] = none
fgets size (c ∷ input) = some (take_line (size - 1) (c ∷ input))

-- Whether `main` echoes its input, with the arguments behind the name of the program and whether
-- COMMANDO_ECHO is set.
unfoldable pub echoes : Bool → List Bytes → Bool
echoes env [] = false
echoes env (a ∷ args) = str_eq a (codes "--echo") || env

-- The text of a line that is echoed.
abbrev pub echo_text : Bool → Bytes → Bytes
echo_text echo line = if echo then c_str line else []

abbrev pub prompt : Bytes
prompt = codes "@> "

-- The main loop from round `k` on: the table at its end, and all that is printed. With no fuel,
-- `none`.
unfoldable pub main_loop : Bool → (ℕ → Round) → ℕ → ℕ → List Cmd → Bytes → Option (List Cmd × Bytes)
main_loop echo rounds zero k ctl input = none
main_loop echo rounds (suc fuel) k ctl input = elim (fgets max_line input) [
  | none ↦ some (ctl, prompt ++ codes "\nEnd of input\n")
  | some (line, rest) ↦ (do
    (go, ctl', out) ← main_line (rounds k) ctl (c_str line)
    (last, more) ← if go then main_loop echo rounds fuel (k + 1) ctl' rest else some (ctl', [])
    some (last, prompt ++ (echo_text echo line ++ (out ++ more))))
]

-- What `main` prints on its input.
unfoldable pub main : Bool → List Bytes → (ℕ → Round) → Bytes → Option Bytes
main env args rounds input = do
  (ctl, out) ← main_loop (echoes env args) rounds (length input + 1) 0 [] input
  some out
