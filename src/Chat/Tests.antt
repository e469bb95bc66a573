-- ===== src/Chat/Tests.antt =====
-- Runs of the chat service at concrete inputs.
use completed_projects.Common.{
  ◌≤ℤ◌, negsuc, ◌==◌, if◌then◌else◌, ◌≢◌, ◌<◌, erase_idx, ℕ, ◌+◌, ℤ, pos, minus_one, false, true,
  List, [], ◌∷◌, ◌++◌, ◌≡◌, refl, replicate, arith,
}
use completed_projects.Common.CString.{codes, c_str, strncpy}
use completed_projects.Chat.Blather.{
  max_path, bl_shutdown, zero_mesg, Mesg, Join, Client, Server, zero_server, bl_departed,
  max_clients,
}
use completed_projects.Chat.Os.{
  Os, Syscall, Trace, mkfifo, open_file, read_only, close, remove, read_mesg, read_join, IsObliging,
  Result, ok, write_mesg, exits,
}
use completed_projects.Chat.Ends.{Ends, Anything}
use completed_projects.Chat.Server.{
  server_add_client, handle_clients, mark_clients, server_start, server_get_client,
  server_check_sources, server_handle_client, push_client, new_client, joined_mesg, clients,
  server_broadcast, server_handle_join, server_shutdown, main_round,
}
use completed_projects.Chat.Server.Clients.{IsValid, push_client-IsValid, removal}
use completed_projects.Chat.Server.Broadcast.{sends, server_broadcast_broken}
use completed_projects.Chat.Server.Handle.{
  clear_at, server_handle_join-full, server_handle_client-departs,
}
use completed_projects.Chat.Server.Lifetime.{
  shut_down, rounds, server_main, server_main-Ends, server_main-tells,
}
use completed_projects.Chat.Server.Joined.{body-joined_mesg}
use completed_projects.Chat.Server.Runs.{started, round, Reaches-IsValid}
use completed_projects.Chat.Room.{Run}
use completed_projects.Chat.Room.Views.{room, inputs, deliveries}
use completed_projects.Chat.Room.Refinement.Rounds.{Reaches-Run}
use completed_projects.Chat.Blather.{zero_client}
use completed_projects.Chat.Server.Shutdown.{
  server_shutdown-every_second, every_second, every_other, removals,
}

-- A system on which everything succeeds, every descriptor is ready, and readers get `said`.
abbrev answers : Mesg → Join → Syscall → ℤ
answers m j (read_mesg fd) = pos 1284
answers m j (read_join fd) = pos 3072
answers m j (open_file f a) = pos 5
answers m j _ = pos 0

abbrev pub calm : Mesg → Join → Os
calm m j t c = record { ret = answers m j c; mesg = m; join = j; ready = λ fd. true }

abbrev goodbye : Mesg
goodbye = record { kind = bl_departed; name = codes "ann"; body = [] }

abbrev pub request : Join
request = record { name = codes "dan"; to_client_fname = codes "c4"; to_server_fname = codes "s4" }

abbrev pub os : Os
os = calm goodbye request

os-IsObliging : IsObliging os
os-IsObliging = record { closes = λ t fd. refl; removes = λ t f. refl; writes = λ t fd m e. cc }

abbrev pub member : ℕ → Client
member n = record {
  name = codes "x";
  to_client_fd = pos n;
  to_server_fd = pos (n + 100);
  to_client_fname = n ∷ [];
  to_server_fname = (n + 100) ∷ [];
  data_ready = true;
  last_contact_time = 0;
}

abbrev pub three : Server
three = push_client (push_client (push_client zero_server (member 1)) (member 2)) (member 3)

zero_server-IsValid : IsValid zero_server
unfolding zero_server
zero_server-IsValid = record { slots = refl; fits = omega arith }

pub three-IsValid : IsValid three
unfolding push_client zero_server
three-IsValid =
    push_client-IsValid _ (member 3)
      (push_client-IsValid _ (member 2)
        (push_client-IsValid _ (member 1) zero_server-IsValid (omega arith)) (omega arith))
      (omega arith)

pub clients-three : clients three ≡ member 1 ∷ member 2 ∷ member 3 ∷ []
unfolding push_client zero_server
clients-three = refl

survivor : every_second (clients three) ≡ member 2 ∷ []
unfolding push_client zero_server
survivor = refl

abbrev pub state_of : Result Server → Server
state_of (ok s t) = s
state_of _ = zero_server

abbrev pub trace_of : Result Server → Trace
trace_of (ok s t) = t
trace_of _ = []

server_shutdown-every_second_example :
    let told = record zero_mesg { kind = bl_shutdown } in
    (s' : Server) × (server_shutdown os three []
      ≡ ok s' (
          (close three.join_fd ∷ remove three.server_name ∷ sends told (clients three))
          ++ removals (every_other (clients three))))
    × (clients s' ≡ every_second (clients three))
server_shutdown-every_second_example =
    server_shutdown-every_second os three [] os-IsObliging three-IsValid

abbrev begun : Server
begun = record zero_server {
  join_fd = pos 5;
  server_name = strncpy max_path zero_server.server_name (codes "srv");
}

abbrev start_calls : Trace
start_calls = remove (codes "srv") ∷ mkfifo (codes "srv") ∷ open_file (codes "srv") read_only ∷ []

starts : server_start os zero_server (codes "srv") [] ≡ ok begun start_calls
unfolding server_start zero_server
starts = refl

Reaches-IsValid_example : IsValid begun
Reaches-IsValid_example = Reaches-IsValid (started starts)

server_main-Ends_example : Ends Anything (server_main os (codes "srv" ∷ []) 2 [])
server_main-Ends_example = server_main-Ends os (codes "srv" ∷ []) 2

-- One round, in which a client joins.
abbrev after : Result Server
after = rounds os 1 begun start_calls

runs : after ≡ ok (state_of after) (trace_of after)
unfolding rounds main_round server_check_sources server_handle_join server_add_client
    server_broadcast zero_server handle_clients push_client mark_clients new_client
runs = refl

one_round : main_round os begun start_calls ≡ ok (state_of after) (trace_of after)
unfolding rounds main_round server_check_sources server_handle_join server_add_client
    server_broadcast zero_server handle_clients push_client mark_clients new_client
one_round = refl

Reaches-Run_example :
    Run [] (inputs os [] (trace_of after)) (room (state_of after)) (deliveries (trace_of after))
Reaches-Run_example =
    Reaches-Run os (λ u fd m. omega arith) (codes "srv") (state_of after) (trace_of after)
      (round (started starts) one_round)

-- In that round dan joined and was told so.
joined_room :
    (room (state_of after)
      ≡ record {
        name = strncpy max_path zero_client.name (codes "dan");
        hears = pos 5;
        speaks = pos 5;
      }
        ∷ [])
    × (deliveries (trace_of after) ≡ (pos 5, joined_mesg request) ∷ [])
unfolding rounds main_round server_check_sources server_handle_join server_add_client
    server_broadcast zero_server handle_clients push_client mark_clients new_client
joined_room = (refl, refl)

server_main-tells_example :
    let told = record zero_mesg { kind = bl_shutdown } in
    let last = state_of after in
    (end : Server) × (server_main os (codes "srv" ∷ []) 1 []
      ≡ ok (shut_down end) (
          trace_of after
          ++ (close last.join_fd ∷ remove last.server_name ∷ sends told (clients last))
          ++ removals (every_other (clients last))))
    × (clients end ≡ every_second (clients last))
server_main-tells_example =
    server_main-tells os (codes "srv") 1 begun (state_of after) start_calls (trace_of after)
      os-IsObliging starts runs

abbrev long_name : Join
long_name = record request { name = replicate 300 b'a' }

body-joined_mesg_example : c_str (joined_mesg long_name).body ≡ replicate 44 b'a'
body-joined_mesg_example = body-joined_mesg long_name (omega arith) (omega arith)

pub pos-ne-minus_one : (n : ℕ) → pos n ≢ minus_one
pos-ne-minus_one n e = cc

three-room : three.n_clients < max_clients
unfolding push_client zero_server
three-room = omega arith

three-some : 0 < three.n_clients
unfolding push_client zero_server
three-some = omega arith

abbrev everybody : List Client
everybody = clients three ++ new_client request (pos 5) (pos 5) ∷ []

abbrev full_house : Server
full_house = record zero_server { n_clients = max_clients }

server_handle_join-full_example :
    server_handle_join os full_house []
    ≡ ok
        (record full_house { join_ready = false })
        (read_join full_house.join_fd ∷ sends (joined_mesg request) (clients full_house))
server_handle_join-full_example =
    server_handle_join-full os full_house [] refl (pos-ne-minus_one 3072) (λ u fd. omega arith)

server_handle_client-departs_example :
    let c = server_get_client three 0 in
    (s' : Server) × (server_handle_client os three 0 []
      ≡ ok s'
          ((read_mesg c.to_server_fd ∷ removal c) ++ sends goodbye (erase_idx (clients three) 0)))
    × (clients s' ≡ clear_at (erase_idx (clients three) 0) 0)
server_handle_client-departs_example =
    server_handle_client-departs os three 0 [] three-IsValid three-some (pos-ne-minus_one 1284) refl
      (λ u. refl) (λ u fd. omega arith)

-- The client that moved into the slot has lost its flag.
lost_flag :
    clear_at (erase_idx (clients three) 0) 0
    ≡ record (member 2) { data_ready = false } ∷ member 3 ∷ []
unfolding push_client zero_server
lost_flag = refl

-- A system on which the pipe of client 2 is broken.
abbrev broken : Os
broken t (write_mesg (pos n) m) = record {
  ret = if n == 2 then minus_one else pos 1284;
  mesg = m;
  join = request;
  ready = λ fd. true;
}
broken t c = os t c

broken-ret : (u : Trace) (fd : ℤ) → minus_one ≤ℤ (broken u (write_mesg fd goodbye)).ret
broken-ret u (pos n) = ground arith
broken-ret u (negsuc n) = omega arith

server_broadcast_broken_example : (u : Trace) × (server_broadcast broken three goodbye [] ≡ exits u)
server_broadcast_broken_example =
    server_broadcast_broken broken three goodbye (member 1 ∷ []) (member 3 ∷ []) (member 2) []
      clients-three broken-ret (λ u. refl)
