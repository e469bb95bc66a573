-- ===== src/Chat/Client/Process/Tests.antt =====
-- Runs of the threads of the chat client, and of its `main`, at concrete inputs.
use completed_projects.Common.{
  ◌>>=◌, ◌∙◌, sym, subst, some, ℕ, zero, suc, pos, true, List, [], ◌∷◌, ◌++◌, ◌≡◌, refl, arith,
}
use completed_projects.Common.CString.{Bytes, codes}
use completed_projects.Chat.Os.{write_join, ok}
use completed_projects.Chat.Simpio.{
  Simpio, zero_simpio, iprintf, simpio_get_char, simpio_reset, print_at, print_mesg, edit,
}
use completed_projects.Chat.Client.{user_mesg, depart_mesg}
use completed_projects.Chat.Client.Conversation.{AreLines, script}
use completed_projects.Chat.Client.Request.{padded, fifo_name, request, make_join-padded}
use completed_projects.Chat.Client.Joining.{joined, own_client, client_main, looks}
use completed_projects.Chat.Client.Threads.{
  Threads, both_created, user_returned, server_stopped, user_act, server_act, listening,
  server_stops, user_runs, server_runs, Reach, here, next,
}
use completed_projects.Chat.Simpio.{simpio_set_prompt}
use completed_projects.Chat.Simpio.Mode.{
  Tty, zero_termios, simpio_noncanonical_terminal_mode, simpio_reset_terminal_mode,
}
use completed_projects.Chat.Blather.{Join}
use completed_projects.Chat.Os.{open_file, read_only, write_only}
use completed_projects.Chat.Client.Request.{prepare, path_array}
use completed_projects.Chat.Client.Joining.{set_up_terminal, connect}
use completed_projects.Chat.Client.Process.Ending.{Reach-ends}
use completed_projects.Chat.Client.Process.{ServerEnded, UserEnded, Exits, leaves}
use completed_projects.Chat.Client.Process.Whole.{NoShutdown, Exits-sent}
use completed_projects.Chat.Client.Tests.{left_over, arrival, calm}

abbrev one_line : List Bytes
one_line = codes "a" ∷ []

one_line-AreLines : AreLines one_line
one_line-AreLines = (λ e. cc, (omega arith, tt), tt)

abbrev begun : Threads
begun = both_created zero_simpio (script one_line) (arrival ∷ [])

abbrev ann : Bytes
ann = codes "ann"

-- So many steps of the user thread.
abbrev run : ℕ → Threads → Threads
run zero t = t
run (suc n) t = let before = run n t in user_act left_over ann before before.user

run-Reach : (n : ℕ) (s t : Threads) → Reach left_over ann s t → Reach left_over ann s (run n t)
run-Reach zero s t h = h
run-Reach (suc n) s t h = next (run-Reach n s t h) user_runs

-- The arrival is shown behind the first two steps.
abbrev interrupted : Threads
interrupted = let before = run 2 begun in server_act left_over ann before before.arriving

interrupted-Reach : Reach left_over ann begun interrupted
unfolding user_act zero_simpio simpio_get_char iprintf simpio_reset
interrupted-Reach = next (run-Reach 2 begun begun here) (server_runs refl)

Reach-ends_example :
    (v : Threads) × Reach left_over ann interrupted v × UserEnded v.user × ServerEnded v.server
Reach-ends_example =
    Reach-ends left_over ann zero_simpio (script one_line) (arrival ∷ []) interrupted
      interrupted-Reach

-- A whole run of the client.
abbrev terminal : Simpio
terminal = set_up_terminal zero_simpio ann

abbrev started : Threads
started = both_created terminal (script one_line) (arrival ∷ [])

-- The user thread runs to its end, and the server thread is cancelled.
abbrev user_done : Threads
user_done = run 8 started

abbrev all_done : Threads
all_done = record user_done { server = server_stopped }

user_done-ends :
    (user_done.user ≡ user_returned)
    × (user_done.cancel_server ≡ true)
    × (user_done.server ≡ listening)
unfolding user_act zero_simpio simpio_get_char simpio_reset iprintf print_at print_mesg edit
    set_up_terminal simpio_set_prompt
user_done-ends = (refl, refl, refl)

all_done-Reach : Reach left_over ann started all_done
all_done-Reach =
    next (run-Reach 8 started started here)
      (server_stops (user_done-ends.1) (λ e. cc (sym user_done-ends.2 ∙ e)))

abbrev screen : Tty
screen = record {
  is_terminal = true;
  settings = record { c_lflag = λ f. true; others = 7 ∷ [] };
  oldt = zero_termios;
  newt = zero_termios;
  stdout_is_buffered = true;
}

abbrev ann_join : Join
ann_join = record {
  name = padded ann;
  to_client_fname = padded (fifo_name (codes "to_user_") 77);
  to_server_fname = padded (fifo_name (codes "to_server_") 77);
}

ann_prepares : prepare 77 (codes "srv" ∷ ann ∷ []) ≡ some (request (padded (codes "srv")) ann_join)
unfolding prepare path_array
ann_prepares = rw (make_join-padded 77 ann (omega arith) (omega arith), ◌>>=◌) refl

ann_joins :
    client_main calm (request (padded (codes "srv")) ann_join) []
    ≡ ok (joined (own_client ann_join (pos 5) (pos 5))) (
        looks calm (padded (codes "srv")) ann_join []
        ++ write_join (pos 5) ann_join
          ∷ open_file ann_join.to_client_fname read_only
          ∷ open_file ann_join.to_server_fname write_only
          ∷ [])
unfolding client_main connect
ann_joins = refl

abbrev left_screen : Tty
left_screen = simpio_reset_terminal_mode (simpio_noncanonical_terminal_mode screen)

whole_run :
    Exits calm left_over 77
      (codes "srv" ∷ ann ∷ [])
      screen
      (script one_line)
      (arrival ∷ [])
      left_screen
      (some all_done.written)
whole_run =
    leaves refl ann_prepares ann_joins all_done-Reach (subst UserEnded (sym user_done-ends.0) tt) tt

no_shutdown : NoShutdown (arrival ∷ [])
no_shutdown = (refl, tt)

Exits-sent_example :
    (left_screen.settings ≡ screen.settings)
    × (all_done.written ≡ user_mesg ann (codes "a") ∷ depart_mesg ann ∷ [])
Exits-sent_example =
    Exits-sent calm left_over 77 (codes "srv") ann one_line (arrival ∷ []) screen left_screen
      (some all_done.written) one_line-AreLines no_shutdown whole_run
