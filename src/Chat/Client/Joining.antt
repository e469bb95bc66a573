-- ===== src/Chat/Client/Joining.antt =====
-- bl-client.c, `main`: the calls up to the creation of the threads, and how they meet those of the
-- server.
use completed_projects.Common.{
  ◌-◌, ◌<◌, ℤ, pos, minus_one, eqb_ℤ, eqb_ℤ_iff, eqb_ℤ_ne, false, [], ◌∷◌, ◌++◌, ◌≡◌, ◌≢◌, ap, map,
  take, append_assoc, if◌then◌else◌,
}
use completed_projects.Common.CString.{Bytes, codes}
use completed_projects.Chat.Blather.{max_name, max_clients, Join, Client, Server, zero_client}
use completed_projects.Chat.Os.{
  Os, Trace, Access, read_only, write_only, Syscall, mkfifo, open_file, write_join, ok, M, pure,
  ◌>>=◌, call,
}
use completed_projects.Chat.Simpio.{Simpio, simpio_reset, simpio_set_prompt}
use completed_projects.Chat.Server.{push_client, new_client, server_add_client}
use completed_projects.Chat.Server.Clients.{to_fd, from_fd, server_add_client_opens}
use completed_projects.Chat.Client.Request.{Prepared, usage, request}

-- How far `main` gets; a client that has joined goes on with its threads.
pub data Outcome : Type 0 where
  printed_usage no_server : Outcome
  joined : Client → Outcome

-- The global `client`.
abbrev pub own_client : Join → ℤ → ℤ → Client
own_client join to_client_fd to_server_fd = record zero_client {
  name = join.name;
  to_client_fd = to_client_fd;
  to_server_fd = to_server_fd;
  to_client_fname = join.to_client_fname;
  to_server_fname = join.to_server_fname;
  data_ready = false;
}

unfoldable pub connect : Os → ℤ → Join → M Outcome
connect os join_fd join = do
  _ ← call os (write_join join_fd join)
  to_client ← call os (open_file join.to_client_fname read_only)
  to_server ← call os (open_file join.to_server_fname write_only)
  pure (joined (own_client join to_client.ret to_server.ret))

unfoldable pub client_main : Os → Prepared → M Outcome
unfolding connect
client_main os usage = pure printed_usage
client_main os (request server_name join) = do
  _ ← call os (mkfifo join.to_client_fname)
  _ ← call os (mkfifo join.to_server_fname)
  opened ← call os (open_file server_name write_only)
  if eqb_ℤ opened.ret minus_one then pure no_server else connect os opened.ret join

-- The terminal before the threads start: `snprintf(prompt, MAXNAME, "%s>> ", username)`.
unfoldable pub set_up_terminal : Simpio → Bytes → Simpio
set_up_terminal s username =
    simpio_reset (simpio_set_prompt s (take (max_name - 1) (username ++ codes ">> ")))

-- The other end of a pipe.
abbrev pub other_access : Access → Access
other_access read_only = write_only
other_access write_only = read_only

abbrev pub other_end : Syscall → Syscall
other_end (open_file f a) = open_file f (other_access a)
other_end c = c

six_calls :
    (t : Trace) (a b c d e f : Syscall)
    → (((((t ++ a ∷ []) ++ b ∷ []) ++ c ∷ []) ++ d ∷ []) ++ e ∷ []) ++ f ∷ []
      ≡ t ++ (a ∷ b ∷ c ∷ d ∷ e ∷ f ∷ [])
six_calls t a b c d e f = simp append_assoc

module _ (os : Os) (server_name : Bytes) (join : Join) (t : Trace) where
  -- The calls before the server is looked for, that one with them.
  abbrev pub looks : Trace
  looks =
      mkfifo join.to_client_fname
      ∷ mkfifo join.to_server_fname
      ∷ open_file server_name write_only
      ∷ []

  -- What the call of `open` on the server's pipe returns.
  abbrev pub server_fd : ℤ
  server_fd =
      (os ((t ++ mkfifo join.to_client_fname ∷ []) ++ mkfifo join.to_server_fname ∷ [])
        (open_file server_name write_only)).ret

  -- Without a server the client ends, and leaves its two pipes behind: they are never removed.
  pub client_main-no_server :
      server_fd ≡ minus_one
      → client_main os (request server_name join) t ≡ ok no_server (t ++ looks)
  unfolding client_main
  client_main-no_server h =
      rw ((eqb_ℤ_iff server_fd minus_one).1 h) (ap (ok no_server) (simp append_assoc))

  -- If the server exists and has room for the client, and both of its opens succeed: the server opens
  -- the two pipes of the request and takes the client, and the client, once its request is written,
  -- opens the same pipes in the same order, each for the other direction.
  pub client_main-meets :
      (os' : Os) (s : Server) (t' : Trace)
      → server_fd ≢ minus_one
      → s.n_clients < max_clients
      → to_fd os' s join t' ≢ minus_one
      → from_fd os' s join t' ≢ minus_one
      → (opens : Trace) × (a : ℤ) × (b : ℤ) × (server_add_client os' s join t'
          ≡ ok
              (push_client s (new_client join (to_fd os' s join t') (from_fd os' s join t')), pos 0)
              (t' ++ opens))
        × (client_main os (request server_name join) t
            ≡ ok
                (joined (own_client join a b))
                (t ++ (looks ++ write_join server_fd join ∷ map other_end opens)))
  unfolding client_main
  client_main-meets os' s t' h room p q =
      let opened =
        (((t ++ mkfifo join.to_client_fname ∷ []) ++ mkfifo join.to_server_fname ∷ [])
          ++ open_file server_name write_only ∷ [])
        ++ write_join server_fd join ∷ [] in
      let to_client = open_file join.to_client_fname read_only in
      let to_server = open_file join.to_server_fname write_only in
      let a = (os opened to_client).ret in
      let b = (os (opened ++ to_client ∷ []) to_server).ret in
      (
        open_file join.to_client_fname write_only ∷ open_file join.to_server_fname read_only ∷ [],
        a,
        b,
        server_add_client_opens os' s join t' room p q,
        rw (eqb_ℤ_ne h) (ap (ok (joined (own_client join a b))) (six_calls t _ _ _ _ _ _)),
      )
