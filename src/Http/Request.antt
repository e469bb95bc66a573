-- ===== src/Http/Request.antt =====
-- C_Server/src/server.c: parsing a request, the kind of file that it asks for, the query string.
pub mod Words
pub mod FileType
pub mod Parse
pub mod Overflow
use completed_projects.Common.{
  is_space, ◌>>=◌, ℕ, zero, suc, ◌+◌, ◌-◌, ℤ, pos, negsuc, Bool, true, false, Option, none, some,
  List, [], ◌∷◌, ◌++◌, get_or, set, ltb, ◌==◌, if◌then◌else◌,
}
use completed_projects.Common.CString.{strcpy, Bytes, codes, str_eq}
use completed_projects.Http.Data.{max_string_length, ConfigData, RequestData, text, strcat}

-- `while (!ISspace(buf[i]) && j < MAX_STRING_LENGTH - 1) arr[j++] = buf[i++]`, with the rounds that
-- the second test leaves; the result is the array and the last `i`. No NUL is written.
unfoldable pub copy_word : ℕ → ℕ → ℕ → Bytes → Bytes → Bytes × ℕ
copy_word zero j i buf arr = (arr, i)
copy_word (suc rounds) j i buf arr =
    let c = get_or buf i 0 in
    let rest = copy_word rounds (suc j) (suc i) buf (set arr j c) in
    if is_space c then (arr, i) else rest

-- The four bytes of a local array, compared with a literal of three.
abbrev pub is_type : Bytes → Bytes → Bool
is_type [] lit = false
is_type (a ∷ arr) [] = a == 0
is_type (a ∷ arr) (c ∷ lit) = if a == c then is_type arr lit else false

-- The loop of `file_type`: the first three bytes behind the first dot go to the array.
unfoldable pub copy_type : Bool → ℕ → Bytes → Bytes → Bytes
copy_type copy j [] arr = arr
copy_type false j (c ∷ path) arr = copy_type (c == b'.') j path arr
copy_type true j (c ∷ path) arr =
    let rest = copy_type true (suc j) path (set arr j c) in if ltb j 3 then rest else arr

-- `file_type`, with the array as it was before.
unfoldable pub file_type : Bytes → Bytes → ℤ
file_type arr path =
    let t = copy_type false 0 path arr in
    if is_type t (codes "jpg")
    then pos 1
    else if is_type t (codes "gif")
    then pos 2
    else if is_type t (codes "css")
    then negsuc 0
    else if is_type t (codes "cgi")
    then negsuc 1
    else pos 0

-- `if (!strcmp(rel_path, "/")) strcat(rel_path, index)`.
unfoldable pub default_path : ConfigData → Bytes → Option Bytes
default_path config rel = do
  t ← text rel
  if str_eq t (codes "/") then text config.index >>= strcat rel else some rel

-- `populate_request`, with the local array of `file_type` and the request as they were before.
unfoldable pub populate_request : ConfigData → Bytes → Bytes → RequestData → Option RequestData
populate_request config local buf r = do
  let (type, i) = copy_word (max_string_length - 1) 0 0 buf r.type
  let (rel, k) = copy_word (max_string_length - 1) 0 (suc i) buf r.rel_path
  let (protocol, m) = copy_word (max_string_length - 1) 0 (suc k) buf r.protocol
  root ← text config.root_path
  abs ← strcpy r.abs_path root
  rel' ← default_path config rel
  path ← text rel'
  abs' ← strcat abs path
  some (record {
    type = type;
    rel_path = rel';
    abs_path = abs';
    protocol = protocol;
    file_type = file_type local path;
  })

-- `get_query_string`: what was copied, and the return value.
unfoldable pub query_bytes : Bool → Bytes → Bytes
query_bytes copy [] = []
query_bytes true (c ∷ uri) = c ∷ query_bytes true uri
query_bytes false (c ∷ uri) = query_bytes (c == b'?') uri

unfoldable pub has_query : Bytes → Bool
has_query [] = false
has_query (c ∷ uri) = if c == b'?' then true else has_query uri

unfoldable pub get_query_string : Bytes → Bytes × ℕ
unfolding query_bytes has_query
get_query_string uri = (query_bytes false uri, if has_query uri then 1 else 0)
