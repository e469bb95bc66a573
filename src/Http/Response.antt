-- ===== src/Http/Response.antt =====
-- C_Server/src/httpResponses.c: the responses, as the writes to the client's socket in order. The date
-- and what the disk holds come from the world; `none` is an access past the end of an array.
pub mod Errors
pub mod Files
pub mod Headers
use completed_projects.Common.{
  ◌>>=◌, ℕ, zero, suc, ◌+◌, ◌-◌, ℤ, pos, negsuc, Bool, true, false, Option, none, some, List, [],
  ◌∷◌, ◌++◌, take, drop, length, ltb, min, if◌then◌else◌,
}
use completed_projects.Common.CString.{Bytes, codes}
use completed_projects.Common.Decimal.{decimal}
use completed_projects.Http.Data.{
  buffer_size, max_response_line_size, max_entity_body_size, text_entity_body_size, RequestData,
  text,
}

-- A path leads to nothing that can be opened, to something that cannot be read, or to a file.
pub data File : Type 0 where
  closed unreadable : File
  contents : Bytes → File

pub record World : Type 0 where
  pub date : Bytes
  pub file : Bytes → File
  pub stack : Bytes
  pub exists : Bytes → Bool

abbrev pub Writes : Type 0
Writes = Option (List Bytes)

-- `sprintf` into an array of `n` bytes.
abbrev pub sprintf : ℕ → Bytes → Option Bytes
sprintf n s = if ltb (length s) n then some s else none

abbrev pub then_writes : Option (List Bytes) → List Bytes → Writes
then_writes none l = none
then_writes (some r) l = some (l ++ r)

unfoldable pub send_general_headers : World → List Bytes
send_general_headers w =
    (codes "Date: " ++ (w.date ++ codes "\r\n"))
    ∷ codes "Server: ServiceAce\r\n"
    ∷ codes "Connection: close\r\n"
    ∷ []

abbrev pub content_type_line : Bytes → Bytes
content_type_line type = codes "Content-Type: " ++ (type ++ codes "\r\n")

abbrev pub content_length_line : ℕ → Bytes
content_length_line n = codes "Content-Length: " ++ (decimal n ++ codes "\r\n\r\n")

unfoldable pub get_content_type : ℤ → Bytes
get_content_type (pos zero) = content_type_line (codes "text/html")
get_content_type (pos (suc zero)) = content_type_line (codes "image/jpeg")
get_content_type (pos (suc (suc zero))) = content_type_line (codes "image/gif")
get_content_type _ = content_type_line (codes "text/css")

unfoldable pub send_string_as_entity : Bytes → List Bytes
send_string_as_entity body =
    content_type_line (codes "text/html") ∷ content_length_line (length body) ∷ body ∷ []

-- What each `simple_` function does with its text, and each `full_` function with its status and body.
abbrev pub simple_error : Bytes → Writes
simple_error page = do line ← sprintf buffer_size page; some (line ∷ [])

unfoldable pub full_error : World → RequestData → Bytes → Bytes → Writes
full_error w r status body = do
  protocol ← text r.protocol
  line ← sprintf max_response_line_size (protocol ++ status)
  some (line ∷ (send_general_headers w ++ send_string_as_entity body))

unfoldable pub simple_bad_request : Writes
simple_bad_request = simple_error (
    codes
      "<html><h1>Client Error 400</h1><p>Server could not understand the request due to malformed syntax.</p></html>\r\n")

unfoldable pub full_bad_request : World → RequestData → Writes
full_bad_request w r = full_error w r (codes " 400 Bad Request\r\n") (
    codes
      "<html><h1>Client Error 400</h1><p>Server could not understand the request due to malformed syntax.</p></html>")

unfoldable pub simple_unauthorized : Writes
simple_unauthorized = simple_error (
    codes
      "<html><h1>Client Error 401</h1><p>The request requires user authentication.</p></html>\r\n")

unfoldable pub full_unauthorized : World → RequestData → Writes
full_unauthorized w r =
    full_error w r (codes " 401 Unauthorized\r\n") (
      codes
        "<html><h1>Client Error 401</h1><p>The request requires user authentication.</p></html>")

unfoldable pub simple_forbidden : Writes
simple_forbidden = simple_error (
    codes
      "<html><h1>Client Error 403</h1><p>The server refuses to fulfill this request.</p></html>\r\n")

unfoldable pub full_forbidden : World → RequestData → Writes
full_forbidden w r = full_error w r (codes " 403 Forbidden\r\n") (
    codes
      "<html><h1>Client Error 403</h1><p>The server refuses to fulfill this request.</p></html>")

unfoldable pub simple_not_found : Writes
simple_not_found = simple_error (
    codes
      "<html><h1>Client Error 404</h1><p>The server has not found anything matching the Request-URI.</p></html>\r\n")

unfoldable pub full_not_found : World → RequestData → Writes
full_not_found w r = full_error w r (codes " 404 Not Found\r\n") (
    codes
      "<html><h1>Client Error 404</h1><p>The server has not found anything matching the Request-URI.</p></html>")

unfoldable pub simple_internal_server_error : Writes
simple_internal_server_error = simple_error (
    codes
      "<html><h1>Server Error 500</h1><p>Server encountered an unexpected condition which prevented it from fulfilling the request.</p></html>\r\n")

unfoldable pub full_internal_server_error : World → RequestData → Writes
full_internal_server_error w r = full_error w r (codes " 500 Internal Server Error\r\n") (
    codes
      "<html><h1>Server Error 500</h1><p>Server encountered an unexpected condition which prevented it from fulfilling the request.</p></html>")

unfoldable pub simple_not_implemented : Writes
simple_not_implemented = simple_error (
    codes
      "<html><h1>Server Error 501</h1><p>Server does not support the functionality required to fulfill the request.</p></html>\r\n")

unfoldable pub full_not_implemented : World → RequestData → Writes
full_not_implemented w r = full_error w r (codes " 501 Method Not Implemented\r\n") (
    codes
      "<html><h1>Server Error 501</h1><p>Server does not support the functionality required to fulfill the request.</p></html>")

unfoldable pub simple_bad_gateway : Writes
simple_bad_gateway = simple_error (
    codes
      "<html><h1>Server Error 502</h1><p>Server received an invalid response from an upstream server.</p></html>\r\n")

unfoldable pub full_bad_gateway : World → RequestData → Writes
full_bad_gateway w r = full_error w r (codes " 502 Bad Gateway\r\n") (
    codes
      "<html><h1>Server Error 502</h1><p>Server received an invalid response from an upstream server.</p></html>")

unfoldable pub simple_service_unavailable : Writes
simple_service_unavailable = simple_error (
    codes
      "<html><h1>Server Error 503</h1><p>Server is temporarily unable to handle the request.</p></html>\r\n")

unfoldable pub full_service_unavailable : World → RequestData → Writes
full_service_unavailable w r = full_error w r (codes " 503 Service Unavailable\r\n") (
    codes
      "<html><h1>Server Error 503</h1><p>Server is temporarily unable to handle the request.</p></html>")

-- The buffer of `send_text_file` after the read, and the size that was read.
abbrev pub text_buffer : World → Bytes → Bytes
text_buffer w content =
    let got = take text_entity_body_size content in got ++ drop (length got) w.stack

unfoldable pub send_contents : World → RequestData → Bool → Bytes → Writes
send_contents w r simple content = do
  body ← text (text_buffer w content)
  let size = length (take text_entity_body_size content)
  some (
      if simple
      then body ∷ []
      else get_content_type r.file_type ∷ content_length_line size ∷ body ∷ [])

internal_error : World → RequestData → Bool → Writes
internal_error w r true = simple_internal_server_error
internal_error w r false = full_internal_server_error w r

text_file : World → RequestData → Bool → File → Writes
text_file w r simple (contents content) = send_contents w r simple content
text_file w r simple _ = internal_error w r simple

unfoldable pub send_text_file : World → RequestData → Bool → Writes
unfolding text_file internal_error
send_text_file w r simple = do path ← text r.abs_path; text_file w r simple (w.file path)

-- `while ((bytesRead = fread(buf, 1, sizeof buf, file)) > 0) write(...)`; with no fuel, `none`.
unfoldable pub send_chunks : ℕ → Bytes → Writes
send_chunks zero content = none
send_chunks (suc fuel) [] = some []
send_chunks (suc fuel) (c ∷ cs) = do
  rest ← send_chunks fuel (drop max_entity_body_size (c ∷ cs))
  some (take max_entity_body_size (c ∷ cs) ∷ rest)

unfoldable pub send_bytes : RequestData → Bool → Bytes → Writes
send_bytes r simple content = do
  chunks ← send_chunks (length content + 1) content
  some (
      if simple
      then chunks
      else get_content_type r.file_type ∷ content_length_line (length content) ∷ chunks)

-- A file of size 0 counts as one that could not be read.
graphics_file : World → RequestData → Bool → File → Writes
graphics_file w r simple (contents (c ∷ cs)) = send_bytes r simple (c ∷ cs)
graphics_file w r simple _ = internal_error w r simple

unfoldable pub send_graphics_file : World → RequestData → Bool → Writes
unfolding graphics_file internal_error
send_graphics_file w r simple = do path ← text r.abs_path; graphics_file w r simple (w.file path)

-- `if (file_type <= 0)`.
abbrev pub is_text_type : ℤ → Bool
is_text_type (pos (suc n)) = false
is_text_type _ = true

unfoldable pub send_file_as_entity : World → RequestData → Bool → Writes
send_file_as_entity w r simple =
    if is_text_type r.file_type then send_text_file w r simple else send_graphics_file w r simple

unfoldable pub simple_ok : World → RequestData → Writes
simple_ok w r = send_file_as_entity w r true

unfoldable pub full_ok : World → RequestData → Writes
full_ok w r = do
  protocol ← text r.protocol
  line ← sprintf max_response_line_size (protocol ++ codes " 200 OK\r\n")
  entity ← send_file_as_entity w r false
  some (line ∷ (send_general_headers w ++ entity))
