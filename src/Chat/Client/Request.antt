-- ===== src/Chat/Client/Request.antt =====
-- bl-client.c, `main`: the names that a client makes up and its request to join, in arrays of their C
-- sizes; `none` is a write past the end of one.
use completed_projects.Common.{
  ℕ, ◌+◌, ◌<◌, Option, none, some, List, ◌≡◌, ◌++◌, [], ◌∷◌, drop, length, length-append,
  length-replicate, replicate, ltb, lt→ltb, if◌then◌else◌, arith, ◌>>=◌,
}
use completed_projects.Common.CString.{Bytes, codes, strcpy}
use completed_projects.Common.Decimal.{decimal, length-decimal_ten}
use completed_projects.Chat.Blather.{max_path, Join}

-- `char cpid[16]`.
abbrev pub cpid_size : ℕ
cpid_size = 16

-- `sprintf(cpid, "%d.fifo", pid)`.
unfoldable pub make_cpid : ℕ → Option Bytes
make_cpid pid =
    let s = decimal pid ++ codes ".fifo" in if ltb (length s) cpid_size then some s else none

-- A global array of MAXPATH zeros with a string copied to its front.
unfoldable pub path_array : Bytes → Option Bytes
path_array s = strcpy (replicate max_path 0) s

-- The global `join`, from the number of the process and the name of the user.
unfoldable pub make_join : ℕ → Bytes → Option Join
make_join pid username = do
  cpid ← make_cpid pid
  to_client ← path_array (codes "to_user_" ++ cpid)
  to_server ← path_array (codes "to_server_" ++ cpid)
  name ← path_array username
  some (record { name = name; to_client_fname = to_client; to_server_fname = to_server })

-- What `main` makes of its arguments: too few or too many, or the name of the server and the request.
pub data Prepared : Type 0 where
  usage : Prepared
  request : Bytes → Join → Prepared

unfoldable pub prepare : ℕ → List Bytes → Option Prepared
prepare pid (server_name ∷ username ∷ []) = do
  server ← path_array server_name
  join ← make_join pid username
  some (request server join)
prepare pid _ = some usage

-- A string and the zeros behind it.
abbrev pub padded : Bytes → Bytes
padded s = s ++ 0 ∷ drop (length s + 1) (replicate max_path 0)

path_array-padded : (s : Bytes) → length s < max_path → path_array s ≡ some (padded s)
unfolding path_array
path_array-padded s h =
    rw (length-replicate max_path (let z : ℕ = 0 in z), lt→ltb (length s) max_path h)

-- The pipes of a process.
abbrev pub fifo_name : Bytes → ℕ → Bytes
fifo_name prefix pid = prefix ++ (decimal pid ++ codes ".fifo")

-- For every process number that is a 32-bit `int`, and a user name of at most 1023 bytes, nothing is
-- written outside its array: the request holds the name and the two pipes named after the process.
pub make_join-padded :
    (pid : ℕ) (username : Bytes)
    → pid < 2147483648
    → length username < max_path
    → make_join pid username
      ≡ some (record {
        name = padded username;
        to_client_fname = padded (fifo_name (codes "to_user_") pid);
        to_server_fname = padded (fifo_name (codes "to_server_") pid);
      })
unfolding make_join make_cpid
make_join-padded pid username h k =
    let cpid = decimal pid ++ codes ".fifo" in
    let short : length cpid < cpid_size =
      omega (
        arith,
        length-append (decimal pid) (codes ".fifo"),
        length-decimal_ten pid (omega arith),
      ) in
    rw (
      lt→ltb (length cpid) cpid_size short,
      ◌>>=◌,
      path_array-padded (codes "to_user_" ++ cpid)
          (omega (arith, length-append (codes "to_user_") cpid)),
      path_array-padded (codes "to_server_" ++ cpid)
          (omega (arith, length-append (codes "to_server_") cpid)),
      path_array-padded username k,
    )
