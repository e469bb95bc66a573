-- ===== src/Chat/Server.antt =====
-- Unix_Chat_Service/server.c: the operations of the chat server, and bl-server.c, its main loop.
-- Every operation takes the operating system first and returns the new server. The debug output on
-- standard output is left out.
pub mod Clients
pub mod Broadcast
pub mod Validity
pub mod Runs
pub mod Shutdown
pub mod Joined
pub mod Handle
pub mod Lifetime
pub mod Received
pub mod Delivered
pub mod SameOrder
pub mod Told
pub mod Adding
pub mod RoundOrder
pub mod Slots
use completed_projects.Common.{
  ℕ, zero, suc, ◌+◌, ◌-◌, ℤ, pos, negsuc, minus_one, eqb_ℤ, ltb_ℤ, is_negative, Bool, true, false,
  List, [], ◌∷◌, map, take, set, get_or, ltb, ◌==◌, if◌then◌else◌,
}
use completed_projects.Common.CString.{Bytes, strncpy}
use completed_projects.Chat.Blather.{
  max_path, max_clients, Mesg, MesgKind, bl_mesg, bl_joined, bl_departed, bl_shutdown, Join, Client,
  Server, zero_mesg, zero_client, copy_name,
}
use completed_projects.Chat.Os.{
  Os, Reply, Syscall, read_only, write_only, mkfifo, open_file, close, remove, read_mesg, read_join,
  write_mesg, select, M, hang, pure, ◌>>=◌, ◌>>◌, call, check_fail, mesg_read, join_read,
}

-- The clients that are populated: the first `n_clients` slots of the array.
abbrev pub clients : Server → List Client
clients s = take s.n_clients s.client

abbrev pub server_get_client : Server → ℕ → Client
server_get_client s idx = get_or s.client idx zero_client

unfoldable pub server_start : Os → Server → Bytes → M Server
server_start os s server_name = do
  _ ← call os (remove server_name)
  made ← call os (mkfifo server_name)
  check_fail (eqb_ℤ made.ret minus_one)
  opened ← call os (open_file server_name read_only)
  pure (record s {
    join_fd = opened.ret;
    join_ready = false;
    n_clients = 0;
    time_sec = 0;
    server_name = strncpy max_path s.server_name server_name;
  })

-- The structure that `server_add_client` fills in.
unfoldable pub new_client : Join → ℤ → ℤ → Client
new_client join to_client_fd to_server_fd = record zero_client {
  name = strncpy max_path zero_client.name join.name;
  to_client_fd = to_client_fd;
  to_server_fd = to_server_fd;
  to_client_fname = strncpy max_path zero_client.to_client_fname join.to_client_fname;
  to_server_fname = strncpy max_path zero_client.to_server_fname join.to_server_fname;
  data_ready = false;
}

-- The new client takes the slot behind the populated ones.
unfoldable pub push_client : Server → Client → Server
push_client s c = record s { client = set s.client s.n_clients c; n_clients = s.n_clients + 1 }

unfoldable pub open_client : Os → Server → Join → M (Server × ℤ)
open_client os s join = do
  to_client ← call os (open_file join.to_client_fname write_only)
  check_fail (eqb_ℤ to_client.ret minus_one)
  to_server ← call os (open_file join.to_server_fname read_only)
  check_fail (eqb_ℤ to_server.ret minus_one)
  pure (push_client s (new_client join to_client.ret to_server.ret), pos 0)

unfoldable pub server_add_client : Os → Server → Join → M (Server × ℤ)
unfolding open_client
server_add_client os s join =
    if s.n_clients == max_clients then pure (s, minus_one) else open_client os s join

-- `for (i = idx+1; i < n_clients; i++) client[i-1] = client[i]`, with the rounds that are left.
unfoldable pub shift : ℕ → ℕ → List Client → List Client
shift zero i a = a
shift (suc k) i a = shift k (suc i) (set a i (get_or a (suc i) zero_client))

unfoldable pub drop_client : Server → ℕ → Server
drop_client s idx = record s {
  client = shift (s.n_clients - (idx + 1)) idx s.client;
  n_clients = s.n_clients - 1;
}

abbrev pub all_zero : Reply → Reply → Reply → Reply → Bool
all_zero a b c d =
    if eqb_ℤ a.ret (pos 0)
    then if eqb_ℤ b.ret (pos 0)
      then if eqb_ℤ c.ret (pos 0) then eqb_ℤ d.ret (pos 0) else false
      else false
    else false

-- Closes and removes the ends of a client's pipes: whether all four calls returned 0.
unfoldable pub close_client : Os → Client → M Bool
close_client os client = do
  tc_fd ← call os (close client.to_client_fd)
  ts_fd ← call os (close client.to_server_fd)
  tc_fname ← call os (remove client.to_client_fname)
  ts_fname ← call os (remove client.to_server_fname)
  pure (all_zero tc_fd ts_fd tc_fname ts_fname)

unfoldable pub server_remove_client : Os → Server → ℕ → M (Server × ℤ)
server_remove_client os s idx = do
  closed ← close_client os (server_get_client s idx)
  pure (if closed then (drop_client s idx, pos 0) else (s, minus_one))

-- One write to each client in turn; the loops of `server_broadcast` and `server_shutdown`.
unfoldable pub write_all : Os → Mesg → List Client → M (Unit {0})
write_all os mesg [] = pure tt
write_all os mesg (c ∷ cs) = do
  written ← call os (write_mesg c.to_client_fd mesg)
  check_fail (eqb_ℤ written.ret minus_one)
  write_all os mesg cs

broadcast_each : Os → Mesg → List Client → M ℤ
broadcast_each os mesg [] = pure (pos 0)
broadcast_each os mesg (c ∷ cs) = do
  written ← call os (write_mesg c.to_client_fd mesg)
  check_fail (eqb_ℤ written.ret minus_one)
  if is_negative written.ret then pure minus_one else broadcast_each os mesg cs

unfoldable pub server_broadcast : Os → Server → Mesg → M ℤ
unfolding broadcast_each
server_broadcast os s mesg = broadcast_each os mesg (clients s)

-- The loop that removes the clients: `i` rises while `n_clients` falls.
unfoldable pub remove_each : Os → ℕ → ℕ → Server → M Server
remove_each os zero i s = hang
remove_each os (suc fuel) i s =
    let removed =
      λ (r : Server × ℤ). check_fail (eqb_ℤ r.1 minus_one) >> remove_each os fuel (i + 1) r.0 in
    if ltb i s.n_clients then server_remove_client os s i >>= removed else pure s

unfoldable pub server_shutdown : Os → Server → M Server
server_shutdown os s = do
  _ ← call os (close s.join_fd)
  _ ← call os (remove s.server_name)
  write_all os (record zero_mesg { kind = bl_shutdown }) (clients s)
  remove_each os (s.n_clients + 1) 0 s

abbrev pub suc_ℤ : ℤ → ℤ
suc_ℤ (pos n) = pos (suc n)
suc_ℤ (negsuc zero) = pos 0
suc_ℤ (negsuc (suc n)) = negsuc n

unfoldable pub max_fd : ℤ → List Client → ℤ
max_fd m [] = m
max_fd m (c ∷ cs) = max_fd (if ltb_ℤ m c.to_server_fd then c.to_server_fd else m) cs

abbrev pub mark_ready : (ℤ → Bool) → Client → Client
mark_ready ready c = if ready c.to_server_fd then record c { data_ready = true } else c

-- The flags of the first `n` slots.
unfoldable pub mark_clients : (ℤ → Bool) → ℕ → List Client → List Client
mark_clients ready zero a = a
mark_clients ready (suc n) [] = []
mark_clients ready (suc n) (c ∷ cs) = mark_ready ready c ∷ mark_clients ready n cs

-- The call of `select` on the join descriptor and those of the clients.
abbrev pub selects : Server → Syscall
selects s =
    select (suc_ℤ (max_fd s.join_fd (clients s)))
      (s.join_fd ∷ map (λ c. c.to_server_fd) (clients s))

unfoldable pub server_check_sources : Os → Server → M Server
server_check_sources os s = do
  selected ← call os (selects s)
  check_fail (eqb_ℤ selected.ret minus_one)
  pure (record s {
    join_ready = if selected.ready s.join_fd then true else s.join_ready;
    client = mark_clients selected.ready s.n_clients s.client;
  })

abbrev pub server_join_ready : Server → Bool
server_join_ready s = s.join_ready

-- The announcement; the bound of the copy is MAXPATH, though `name` has MAXNAME bytes.
unfoldable pub joined_mesg : Join → Mesg
joined_mesg join = copy_name max_path (record zero_mesg { kind = bl_joined }) join.name

unfoldable pub server_handle_join : Os → Server → M Server
server_handle_join os s = do
  got ← call os (read_join s.join_fd)
  check_fail (eqb_ℤ got.ret minus_one)
  let join = join_read got got.ret
  added ← server_add_client os s join
  _ ← server_broadcast os added.0 (joined_mesg join)
  pure (record added.0 { join_ready = false })

abbrev pub server_client_ready : Server → ℕ → Bool
server_client_ready s idx = (server_get_client s idx).data_ready

-- The `if` on the kind of the message in `server_handle_client`.
unfoldable pub act_on : Os → Server → ℕ → Mesg → MesgKind → M Server
act_on os s idx mesg bl_mesg = do _ ← server_broadcast os s mesg; pure s
act_on os s idx mesg bl_departed = do
  removed ← server_remove_client os s idx
  _ ← server_broadcast os removed.0 mesg
  pure removed.0
act_on os s idx mesg _ = pure s

-- `client->data_ready = 0`, through a pointer to the slot.
unfoldable pub clear_ready : Server → ℕ → Server
clear_ready s idx = record s {
  client = set s.client idx (record (server_get_client s idx) { data_ready = false });
}

unfoldable pub server_handle_client : Os → Server → ℕ → M Server
server_handle_client os s idx = do
  got ← call os (read_mesg (server_get_client s idx).to_server_fd)
  check_fail (eqb_ℤ got.ret minus_one)
  let mesg = mesg_read got got.ret
  acted ← act_on os s idx mesg mesg.kind
  pure (clear_ready acted idx)

-- bl-server.c, `for (i = 0; i < n_clients; i++) if (ready) handle`.
unfoldable pub handle_clients : Os → ℕ → ℕ → Server → M Server
handle_clients os zero i s = hang
handle_clients os (suc fuel) i s =
    let next = λ (s' : Server). handle_clients os fuel (i + 1) s' in
    if ltb i s.n_clients
    then if server_client_ready s i then server_handle_client os s i >>= next else next s
    else pure s

-- One round of the `while (1)` of `main`.
unfoldable pub main_round : Os → Server → M Server
main_round os s = do
  checked ← server_check_sources os s
  joined ← if server_join_ready checked then server_handle_join os checked else pure checked
  handle_clients os (joined.n_clients + 1) 0 joined
