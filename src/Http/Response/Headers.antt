-- ===== src/Http/Response/Headers.antt =====
-- C_Server/src/httpResponses.c: the header lines in the arrays in which they are put together; `none`
-- is a write past the end of one. What `strftime` and `ctime` give is an argument.
use completed_projects.Common.{
  ◌>>=◌, ℕ, zero, suc, ◌<◌, ℤ, pos, negsuc, Option, some, List, [], ◌∷◌, ◌++◌, ◌≡◌, refl, length,
  length-append, lt→ltb, arith,
}
use completed_projects.Common.CString.{Bytes, codes}
use completed_projects.Common.Decimal.{decimal, length-decimal_ten}
use completed_projects.Http.Data.{max_string_length, max_response_line_size}
use completed_projects.Http.Response.{
  World, sprintf, send_general_headers, content_type_line, content_length_line, get_content_type,
}

unfoldable pub get_current_date : Bytes → Option Bytes
get_current_date buf = sprintf max_response_line_size (codes "Date: " ++ (buf ++ codes "\r\n"))

-- Nothing calls it. The text of `ctime` ends in a newline of its own.
unfoldable pub get_last_modified_date : Bytes → Option Bytes
get_last_modified_date ctime =
    sprintf max_response_line_size (codes "Last-Modified: " ++ (ctime ++ codes "\r\n"))

-- The three arrays of a `General_Header`.
unfoldable pub general_header : World → Option (List Bytes)
general_header w = do
  date ← get_current_date w.date
  server ← sprintf max_response_line_size (codes "Server: ServiceAce\r\n")
  connection ← sprintf max_response_line_size (codes "Connection: close\r\n")
  some (date ∷ server ∷ connection ∷ [])

-- `char type[16]` of `get_content_type`, and the line made of it.
abbrev type_size : ℕ
type_size = 16

unfoldable pub typed_line : Bytes → Option Bytes
typed_line type = do
  held ← sprintf type_size type
  sprintf max_response_line_size (content_type_line held)

abbrev pub file_mime : ℤ → Bytes
file_mime (pos zero) = codes "text/html"
file_mime (pos (suc zero)) = codes "image/jpeg"
file_mime (pos (suc (suc zero))) = codes "image/gif"
file_mime _ = codes "text/css"

unfoldable pub length_line : ℕ → Option Bytes
length_line n = sprintf max_response_line_size (content_length_line n)

sprintf_fits : (n : ℕ) (s : Bytes) → length s < n → sprintf n s ≡ some s
sprintf_fits n s h = rw (lt→ltb (length s) n h) refl

get_current_date_fits :
    (buf : Bytes)
    → length buf < max_string_length
    → get_current_date buf ≡ some (codes "Date: " ++ (buf ++ codes "\r\n"))
unfolding get_current_date
get_current_date_fits buf h =
    sprintf_fits max_response_line_size (codes "Date: " ++ (buf ++ codes "\r\n")) (
      omega (
        arith,
        length-append (codes "Date: ") (buf ++ codes "\r\n"),
        length-append buf (codes "\r\n"),
      ))

get_content_type_fits : (type : ℤ) → typed_line (file_mime type) ≡ some (get_content_type type)
unfolding typed_line get_content_type
get_content_type_fits (pos zero) = refl
get_content_type_fits (pos (suc zero)) = refl
get_content_type_fits (pos (suc (suc zero))) = refl
get_content_type_fits (pos (suc (suc (suc n)))) = refl
get_content_type_fits (negsuc n) = refl

-- Every header line fits its array, for a date that `strftime` can put into its buffer, every kind of
-- file, and the length of any body below ten digits.
pub headers_fit :
    (w : World) (type : ℤ) (n : ℕ)
    → length w.date < max_string_length
    → n < 10000000000
    → (general_header w ≡ some (send_general_headers w))
      × (typed_line (file_mime type) ≡ some (get_content_type type))
      × (length_line n ≡ some (content_length_line n))
unfolding general_header send_general_headers length_line
headers_fit w type n h k = (
  rw (get_current_date_fits w.date h, ◌>>=◌) refl,
  get_content_type_fits type,
  sprintf_fits max_response_line_size (content_length_line n) (
      omega (
        arith,
        length-append (codes "Content-Length: ") (decimal n ++ codes "\r\n\r\n"),
        length-append (decimal n) (codes "\r\n\r\n"),
        length-decimal_ten n k,
      )),
)
