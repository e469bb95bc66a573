-- ===== src/Chat/Simpio/Mode.antt =====
-- simpio.c: the mode of the terminal. The settings of standard input are those that the client finds
-- there; the two static structures begin as zeros.
use completed_projects.Common.{
  ℕ, Bool, true, false, List, [], ◌≡◌, refl, Bool-cases, inl, inr, if◌then◌else◌,
}

-- The flags of `c_lflag`.
pub data LocalFlag : Type 0 where
  icanon echo : LocalFlag
  other_flag : ℕ → LocalFlag

-- `struct termios`; the other fields are left as they are.
pub record Termios : Type 0 where
  pub c_lflag : LocalFlag → Bool
  pub others : List ℕ

abbrev pub zero_termios : Termios
zero_termios = record { c_lflag = λ f. false; others = [] }

-- Standard input, whether it is a terminal, and the static variables of the module.
pub record Tty : Type 0 where
  pub is_terminal : Bool
  pub settings : Termios
  pub oldt : Termios
  pub newt : Termios
  pub stdout_is_buffered : Bool

-- What fails if there is no terminal.
abbrev pub tcgetattr : Tty → Termios → Termios
tcgetattr t before = if t.is_terminal then t.settings else before

abbrev pub tcsetattr : Tty → Termios → Tty
tcsetattr t new = if t.is_terminal then record t { settings = new } else t

-- `~(ICANON | ECHO)`.
abbrev pub is_kept : LocalFlag → Bool
is_kept icanon = false
is_kept echo = false
is_kept (other_flag n) = true

abbrev pub without_lines : Termios → Termios
without_lines s = record s { c_lflag = λ f. if is_kept f then s.c_lflag f else false }

unfoldable pub simpio_noncanonical_terminal_mode : Tty → Tty
simpio_noncanonical_terminal_mode t =
    let old = tcgetattr t t.oldt in
    let t = record t { stdout_is_buffered = false; oldt = old; newt = without_lines old } in
    tcsetattr t t.newt

unfoldable pub simpio_reset_terminal_mode : Tty → Tty
simpio_reset_terminal_mode t = tcsetattr t t.oldt

-- After both calls the terminal is as it was, whether it is one or not.
pub restores :
    (t : Tty)
    → (simpio_reset_terminal_mode (simpio_noncanonical_terminal_mode t)).settings ≡ t.settings
unfolding simpio_noncanonical_terminal_mode simpio_reset_terminal_mode
restores t = elim (Bool-cases t.is_terminal) [ inl e ↦ simp e refl | inr e ↦ simp e refl ]
