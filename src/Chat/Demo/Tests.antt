-- ===== src/Chat/Demo/Tests.antt =====
-- A run of the demonstration at a concrete input.
use completed_projects.Common.{ℕ, zero, suc, true, List, [], ◌∷◌, ◌≡◌, refl, replicate, arith}
use completed_projects.Common.CString.{Bytes, codes}
use completed_projects.Chat.Simpio.{
  Stack, zero_simpio, iprintf, simpio_get_char, simpio_reset, simpio_set_prompt, print_at,
  print_mesg, edit,
}
use completed_projects.Chat.Simpio.Mode.{
  Tty, zero_termios, simpio_noncanonical_terminal_mode, simpio_reset_terminal_mode,
}
use completed_projects.Chat.Client.Conversation.{AreLines, script}
use completed_projects.Chat.Demo.{
  Workers, both_created, returned, ticking, stopped, user_worker, background_worker, user_runs,
  background_runs, background_stops, Reach, here, next, set_up, Exits, leaves, echo,
}
use completed_projects.Chat.Demo.Screen.{Shown}
use completed_projects.Chat.Demo.Lines.{Exits-numbered}

abbrev blank : Stack
blank out = replicate 3000 0

abbrev one_line : List Bytes
one_line = codes "a" ∷ []

one_line-AreLines : AreLines one_line
one_line-AreLines = (λ e. cc, (omega arith, tt), tt)

abbrev started : Workers
started = both_created (set_up zero_simpio) (script one_line)

-- So many steps of the user worker.
abbrev run : ℕ → Workers → Workers
run zero t = t
run (suc n) t = let before = run n t in user_worker blank before before.user

run-Reach : (n : ℕ) (s t : Workers) → Reach blank s t → Reach blank s (run n t)
run-Reach zero s t h = h
run-Reach (suc n) s t h = next (run-Reach n s t h) user_runs

-- The background worker comes in behind two steps.
abbrev interrupted : Workers
interrupted = background_worker blank (run 2 started)

abbrev user_done : Workers
user_done = run 6 interrupted

abbrev all_done : Workers
all_done = record user_done { background = stopped }

still_ticking : (run 2 started).background ≡ ticking
unfolding user_worker simpio_get_char iprintf simpio_reset set_up simpio_set_prompt zero_simpio
still_ticking = refl

user_done-ends : (user_done.user ≡ returned) × (user_done.cancel_background ≡ true)
unfolding user_worker background_worker zero_simpio simpio_get_char simpio_reset iprintf print_at
    print_mesg edit set_up simpio_set_prompt
user_done-ends = (refl, refl)

all_done-Reach : Reach blank started all_done
all_done-Reach =
    next
      (run-Reach 6 started interrupted
        (next (run-Reach 2 started started here) (background_runs still_ticking)))
      (background_stops user_done-ends.1)

abbrev screen : Tty
screen = record {
  is_terminal = true;
  settings = record { c_lflag = λ f. true; others = 7 ∷ [] };
  oldt = zero_termios;
  newt = zero_termios;
  stdout_is_buffered = true;
}

abbrev left_screen : Tty
left_screen = simpio_reset_terminal_mode (simpio_noncanonical_terminal_mode screen)

whole_run : Exits blank screen (script one_line) left_screen all_done.echoes all_done.term.out
whole_run = leaves all_done-Reach user_done-ends.0 refl

Exits-numbered_example :
    (left_screen.settings ≡ screen.settings)
    × (all_done.echoes ≡ echo 1 (codes "a") ∷ [])
    × Shown (echo 1 (codes "a") ∷ []) all_done.term.out
Exits-numbered_example =
    Exits-numbered blank screen left_screen one_line all_done.echoes all_done.term.out
      one_line-AreLines whole_run
