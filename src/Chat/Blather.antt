-- ===== src/Chat/Blather.antt =====
-- Unix_Chat_Service/blather.h: the structures of the chat service and its limits.
use completed_projects.Common.{ℕ, ℤ, Bool, false, pos, List, ◌++◌, take, drop, replicate}
use completed_projects.Common.CString.{Bytes, strncpy}

abbrev pub max_line : ℕ
max_line = 1024

abbrev pub max_name : ℕ
max_name = 256

abbrev pub max_path : ℕ
max_path = 1024

abbrev pub max_clients : ℕ
max_clients = 256

-- Any other number that is read as a kind is `unknown`.
pub data MesgKind : Type 0 where
  bl_mesg bl_joined bl_departed bl_shutdown bl_disconnected bl_ping : MesgKind
  unknown : ℕ → MesgKind

-- `mesg_t`; `name` and `body` are arrays of 256 and 1024 bytes, one behind the other.
pub record Mesg : Type 0 where
  pub kind : MesgKind
  pub name : Bytes
  pub body : Bytes

pub record Join : Type 0 where
  pub name : Bytes
  pub to_client_fname : Bytes
  pub to_server_fname : Bytes

pub record Client : Type 0 where
  pub name : Bytes
  pub to_client_fd : ℤ
  pub to_server_fd : ℤ
  pub to_client_fname : Bytes
  pub to_server_fname : Bytes
  pub data_ready : Bool
  pub last_contact_time : ℕ

-- `server_t`, less the log descriptor and semaphore, which no code uses.
pub record Server : Type 0 where
  pub server_name : Bytes
  pub join_fd : ℤ
  pub join_ready : Bool
  pub n_clients : ℕ
  pub client : List Client
  pub time_sec : ℕ

-- What `memset(&x, 0, sizeof x)` leaves.
unfoldable pub zero_mesg : Mesg
zero_mesg = record { kind = unknown 0; name = replicate max_name 0; body = replicate max_line 0 }

unfoldable pub zero_join : Join
zero_join = record {
  name = replicate max_path 0;
  to_client_fname = replicate max_path 0;
  to_server_fname = replicate max_path 0;
}

unfoldable pub zero_client : Client
zero_client = record {
  name = replicate max_path 0;
  to_client_fd = pos 0;
  to_server_fd = pos 0;
  to_client_fname = replicate max_path 0;
  to_server_fname = replicate max_path 0;
  data_ready = false;
  last_contact_time = 0;
}

-- The static `server_actual`.
unfoldable pub zero_server : Server
zero_server = record {
  server_name = replicate max_path 0;
  join_fd = pos 0;
  join_ready = false;
  n_clients = 0;
  client = replicate max_clients zero_client;
  time_sec = 0;
}

-- `strncpy(mesg.name, src, n)`: past the end of `name` the copy goes on into `body`.
unfoldable pub copy_name : ℕ → Mesg → Bytes → Mesg
copy_name n mesg src =
    let region = strncpy n (mesg.name ++ mesg.body) src in
    record mesg { name = take max_name region; body = drop max_name region }
