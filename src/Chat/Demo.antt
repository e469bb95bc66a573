-- ===== src/Chat/Demo.antt =====
-- simpio-demo.c: a demonstration of the line editor, whose two workers share one terminal. As in
-- bl-client.c, a call of `iprintf` or `simpio_get_char` is one step, with what the worker does around
-- it, and a cancelled worker may run on for a while. The counters are taken to fit an `int`.
pub mod Stages
pub mod Screen
pub mod Lines
mod Tests
use completed_projects.Common.{
  ℕ, zero, suc, ◌+◌, ◌-◌, ◌%◌, Bool, true, false, none, some, List, [], ◌∷◌, ◌++◌, ◌≡◌, length,
  replicate, take, if◌then◌else◌,
}
use completed_projects.Common.CString.{Bytes, codes, c_str}
use completed_projects.Common.Decimal.{decimal}
use completed_projects.Chat.Blather.{max_name}
use completed_projects.Chat.Simpio.{
  Simpio, Stack, zero_simpio, simpio_reset, simpio_set_prompt, simpio_get_char, iprintf,
}
use completed_projects.Chat.Simpio.Mode.{
  Tty, simpio_noncanonical_terminal_mode, simpio_reset_terminal_mode,
}

-- Where the user worker stands: at the head of its loop, in the loop that reads a line, or returned.
pub data UserWorker : Type 0 where
  at_top reading returned : UserWorker

pub data BackgroundWorker : Type 0 where
  ticking stopped : BackgroundWorker

-- What the workers share, their counters, and the texts that each has given to `iprintf`.
pub record Workers : Type 0 where
  pub term : Simpio
  pub input : Bytes
  pub count : ℕ
  pub echoes : List Bytes
  pub ticks : ℕ
  pub ticked : List Bytes
  pub user : UserWorker
  pub background : BackgroundWorker
  pub cancel_background : Bool

-- `pthread_create` of both.
abbrev pub both_created : Simpio → Bytes → Workers
both_created s input = record {
  term = s;
  input = input;
  count = 1;
  echoes = [];
  ticks = 0;
  ticked = [];
  user = at_top;
  background = ticking;
  cancel_background = false;
}

-- `"%2d You entered: %s\n"`.
abbrev pub echo : ℕ → Bytes → Bytes
echo count line =
    let n = decimal count in
    replicate (2 - length n) b' ' ++ (n ++ (codes " You entered: " ++ (line ++ codes "\n")))

-- `text[i % 3]`.
abbrev pub background_text : ℕ → Bytes
background_text zero = codes "Background text #1"
background_text (suc zero) = codes "Background text #2"
background_text _ = codes "Background text #3"

-- `simpio_get_char` on what is left of the input.
abbrev pub get_char : Workers → Bytes → Workers
get_char t [] = record t { term = simpio_get_char t.term none; input = [] }
get_char t (c ∷ cs) = record t { term = simpio_get_char t.term (some c); input = cs }

module _ (stack : Stack) where
  unfoldable pub user_worker : Workers → UserWorker → Workers
  user_worker t at_top =
      if t.term.end_of_input
      then record t { cancel_background = true; user = returned }
      else record t { term = iprintf stack (simpio_reset t.term) []; user = reading }
  user_worker t reading =
      if t.term.line_ready
      then (let text = echo t.count (c_str t.term.buf) in
          record t {
            term = iprintf stack t.term text;
            count = t.count + 1;
            echoes = t.echoes ++ text ∷ [];
            user = at_top;
          })
      else if t.term.end_of_input
      then record t { user = at_top }
      else get_char t t.input
  user_worker t returned = t

  -- A round of the endless loop.
  unfoldable pub background_worker : Workers → Workers
  background_worker t =
      let text = codes "BKGND: " ++ (background_text (t.ticks % 3) ++ codes "\n") in
      record t {
        term = iprintf stack t.term text;
        ticks = t.ticks + 1;
        ticked = t.ticked ++ text ∷ [];
      }

  pub data Step (t : Workers) : Workers → Type 0 where
    user_runs : Step t (user_worker t t.user)
    background_runs : t.background ≡ ticking → Step t (background_worker t)
    background_stops : t.cancel_background ≡ true → Step t (record t { background = stopped })

  pub data Reach (s : Workers) : Workers → Type 0 where
    here : Reach s s
    next : {t u : Workers} → Reach s t → Step t u → Reach s u

-- The terminal before the workers start.
unfoldable pub set_up : Simpio → Simpio
set_up s = simpio_reset (simpio_set_prompt s (take (max_name - 1) (codes "fgnd>> ")))

-- A run of `main` that returns, which takes that both workers have ended: the terminal afterwards, what
-- the user worker has given to `iprintf`, and all that was written to the terminal. What is typed comes
-- from outside.
pub data Exits (stack : Stack) (tty : Tty) (input : Bytes) : Tty → List Bytes → Bytes → Type 0 where
  leaves :
      {t : Workers}
      → Reach stack (both_created (set_up zero_simpio) input) t
      → t.user ≡ returned
      → t.background ≡ stopped
      → Exits stack tty input
          (simpio_reset_terminal_mode (simpio_noncanonical_terminal_mode tty))
          t.echoes
          t.term.out
