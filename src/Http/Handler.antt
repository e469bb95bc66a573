-- ===== src/Http/Handler.antt =====
-- C_Server/src/server.c: the handling of one client, the configuration, and the limit of connections.
pub mod Dispatch
pub mod Accepting
use completed_projects.Common.{
  is_space, ◌>>=◌, ℕ, zero, suc, ◌+◌, ℤ, pos, negsuc, Bool, true, false, Option, none, some, List,
  [], ◌∷◌, ◌++◌, length, ltb, leb, if◌then◌else◌,
}
use completed_projects.Common.CString.{strcpy, Bytes, codes, str_eq}
use completed_projects.Common.Decimal.{atoi}
use completed_projects.Http.Data.{
  max_string_length, max_word_count, ConfigData, RequestData, text, str_eq_ignoring_case,
}
use completed_projects.Http.Request.{populate_request}
use completed_projects.Http.Response.{
  World, Writes, simple_ok, full_ok, simple_not_found, full_not_found, simple_not_implemented,
  full_not_implemented,
}

-- `if (!strcasecmp(protocol, HTTP09)) … else …`.
abbrev pub by_version : Bytes → Writes → Writes → Writes
by_version protocol simple full =
    if str_eq_ignoring_case protocol (codes "HTTP/0.9") then simple else full

unfoldable pub send_get_response : World → RequestData → Writes
send_get_response w r = do
  path ← text r.abs_path
  protocol ← text r.protocol
  if w.exists path
      then by_version protocol (simple_ok w r) (full_ok w r)
      else by_version protocol simple_not_found (full_not_found w r)

unfoldable pub handle_cgi : World → RequestData → Writes
handle_cgi w r = do
  protocol ← text r.protocol
  by_version protocol simple_not_implemented (full_not_implemented w r)

abbrev pub is_cgi : ℤ → Bool
is_cgi (negsuc (suc zero)) = true
is_cgi _ = false

-- The branches of `handle_request` once the request is parsed.
unfoldable pub answer : World → RequestData → Writes
answer w r = do
  type ← text r.type
  if is_cgi r.file_type
      then handle_cgi w r
      else if str_eq_ignoring_case type (codes "GET")
      then send_get_response w r
      else handle_cgi w r

-- `handle_request` on what was received: the writes before the socket is closed. The request and the
-- local array of `file_type` come as the stack left them.
unfoldable pub handle_request : World → ConfigData → Bytes → Bytes → RequestData → Writes
handle_request w config local buf r = do
  request ← populate_request config local buf r
  answer w request

-- `fscanf` with `%s`: the words between white space; `word` is what was read of the next one.
unfoldable pub split_words : Bytes → Bytes → List Bytes
split_words [] [] = []
split_words (x ∷ word) [] = (x ∷ word) ∷ []
split_words [] (c ∷ cs) = if is_space c then split_words [] cs else split_words (c ∷ []) cs
split_words (x ∷ word) (c ∷ cs) =
    let rest = split_words [] cs in
    let more = split_words ((x ∷ word) ++ c ∷ []) cs in
    if is_space c then (x ∷ word) ∷ rest else more

-- Whether the words fit the table of strings.
abbrev pub words_fit : ℕ → List Bytes → Bool
words_fit room [] = true
words_fit zero (w ∷ ws) = false
words_fit (suc room) (w ∷ ws) =
    if ltb (length w) max_string_length then words_fit room ws else false

-- One round of the second loop: the word `strings[j]`, and `strings[j+1]` if there is one.
unfoldable pub apply_word : ConfigData → Bytes → Option Bytes → Option ConfigData
apply_word c word next =
    if str_eq word (codes "MAX_CONNECTIONS")
    then (do n ← next; some (record c { max_connections = atoi n }))
    else if str_eq word (codes "ROOT")
    then (do n ← next; root ← strcpy c.root_path n; some (record c { root_path = root }))
    else if str_eq word (codes "INDEX")
    then (do n ← next; index ← strcpy c.index n; some (record c { index = index }))
    else if str_eq word (codes "PORT")
    then (do n ← next; some (record c { port = atoi n }))
    else some c

abbrev pub next_word : List Bytes → Option Bytes
next_word [] = none
next_word (w ∷ ws) = some w

unfoldable pub apply_words : ConfigData → List Bytes → Option ConfigData
apply_words c [] = some c
apply_words c (w ∷ ws) = do c' ← apply_word c w (next_word ws); apply_words c' ws

-- `populate_config` on the text of the configuration file.
unfoldable pub populate_config : ConfigData → Bytes → Option ConfigData
populate_config c file =
    let words = split_words [] file in
    if words_fit max_word_count words then apply_words c words else none

-- `num_connections <= max_connections`.
abbrev pub within : ℕ → ℤ → Bool
within n (pos m) = leb n m
within n (negsuc m) = false
