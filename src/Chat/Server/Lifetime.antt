-- ===== src/Chat/Server/Lifetime.antt =====
-- bl-server.c: `main`, with a signal that arrives between two rounds of the main loop, as it does while
-- the loop waits for its sources. A signal in the middle of an operation is left out.
use completed_projects.Common.{ℕ, zero, suc, List, [], ◌∷◌, ◌++◌, ◌≡◌, refl}
use completed_projects.Common.CString.{Bytes}
use completed_projects.Chat.Blather.{bl_shutdown, zero_mesg, Server, zero_server}
use completed_projects.Chat.Os.{Os, Trace, M, IsObliging, ok, pure, ◌>>=◌, close, remove}
use completed_projects.Chat.Ends.{Ends, Ends-bind, Anything}
use completed_projects.Chat.Server.{clients, server_start, server_shutdown, main_round}
use completed_projects.Chat.Server.Broadcast.{sends}
use completed_projects.Chat.Server.Clients.{IsValid}
use completed_projects.Chat.Server.Validity.{main_round-Ends}
use completed_projects.Chat.Server.Shutdown.{
  server_shutdown-every_second, every_second, every_other, removals,
}
use completed_projects.Chat.Server.Runs.{
  server_start-Ends, server_shutdown-Ends, zero_server-IsValid,
}

-- How the process ends, if no check fails: after the usage message, or with `exit(0)` in the handler.
pub data Ending : Type 0 where
  printed_usage : Ending
  shut_down : Server → Ending

unfoldable pub handle_signals : Os → Server → M Ending
handle_signals os s = do s' ← server_shutdown os s; pure (shut_down s')

-- The main loop, up to a number of rounds.
unfoldable pub rounds : Os → ℕ → Server → M Server
rounds os zero s = pure s
rounds os (suc n) s = do s' ← main_round os s; rounds os n s'

-- `main` on the arguments behind the program's name, with a signal after a number of rounds.
unfoldable pub server_main : Os → List Bytes → ℕ → M Ending
server_main os (name ∷ []) n = do
  s ← server_start os zero_server name
  last ← rounds os n s
  handle_signals os last
server_main os _ n = pure printed_usage

rounds-Ends :
    (os : Os) (n : ℕ) (s : Server) (t : Trace) → IsValid s → Ends IsValid (rounds os n s t)
unfolding rounds
rounds-Ends os zero s t v = v
rounds-Ends os (suc n) s t v =
    Ends-bind IsValid IsValid (main_round os s t) _ (main_round-Ends os s t v)
      λ s' u w. rounds-Ends os n s' u w

handle_signals-Ends :
    (os : Os) (s : Server) (t : Trace) → IsValid s → Ends Anything (handle_signals os s t)
unfolding handle_signals
handle_signals-Ends os s t v =
    Ends-bind IsValid Anything (server_shutdown os s t) _ (server_shutdown-Ends os s t v)
      λ s' u w. tt

-- Whatever the system answers, if the signal arrives between two rounds, behind any number of them,
-- those rounds and the shutdown come to an end: the process exits, in `check_fail` or with the
-- handler's work done.
pub server_main-Ends :
    (os : Os) (args : List Bytes) (n : ℕ) → Ends Anything (server_main os args n [])
unfolding server_main
server_main-Ends os [] n = tt
server_main-Ends os (name ∷ []) n =
    Ends-bind IsValid Anything (server_start os zero_server name []) _
      (server_start-Ends os zero_server name [] zero_server-IsValid)
      λ s t v.
        Ends-bind IsValid Anything (rounds os n s t) _ (rounds-Ends os n s t v)
          λ last u w. handle_signals-Ends os last u w
server_main-Ends os (name ∷ more ∷ args) n = tt

-- On a system on which nothing fails, a server that has run for any number of rounds answers the signal
-- by closing and removing the pipe for requests and telling every client that it shuts down, and exits;
-- of the clients' pipes it closes and removes those of every other client.
pub server_main-tells :
    (os : Os) (name : Bytes) (n : ℕ) (s last : Server) (t u : Trace)
    → IsObliging os
    → server_start os zero_server name [] ≡ ok s t
    → rounds os n s t ≡ ok last u
    → let told = record zero_mesg { kind = bl_shutdown } in
      (end : Server) × (server_main os (name ∷ []) n []
        ≡ ok (shut_down end) (
            u
            ++ (close last.join_fd ∷ remove last.server_name ∷ sends told (clients last))
            ++ removals (every_other (clients last))))
      × (clients end ≡ every_second (clients last))
unfolding server_main handle_signals
server_main-tells os name n s last t u obliging starts runs =
    let started : IsValid s =
      rw starts at (server_start-Ends os zero_server name [] zero_server-IsValid) in
    let valid : IsValid last = rw runs at (rounds-Ends os n s t started) in
    let (end, shuts, left) = server_shutdown-every_second os last u obliging valid in
    (end, rw (server_main, ◌>>=◌, starts, ◌>>=◌, runs, handle_signals, ◌>>=◌, shuts) refl, left)
