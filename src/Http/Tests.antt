-- ===== src/Http/Tests.antt =====
-- Runs of the HTTP server at concrete inputs.
use completed_projects.Common.{
  minus_one, none, ◌≤◌, ◌+◌, ◌<◌, ℕ, suc, ◌≢◌, ℤ, pos, true, some, List, [], ◌∷◌, ◌++◌, ◌≡◌, refl,
  length, replicate, arith, if◌then◌else◌,
}
use completed_projects.Common.CString.{Bytes, codes, str_eq}
use completed_projects.Common.Decimal.{atoi, strtoul}
use completed_projects.Http.Data.{ConfigData, RequestData, text, max_string_length}
use completed_projects.Http.Request.{file_type, populate_request}
use completed_projects.Http.Request.Overflow.{populate_request_overflow}
use completed_projects.Http.Request.Parse.{Fits, cleared, held, populate_request-words}
use completed_projects.Http.Response.Headers.{
  general_header, typed_line, file_mime, length_line, headers_fit,
}
use completed_projects.Http.Response.{
  send_general_headers, get_content_type, content_length_line, World, File, closed, contents,
  send_general_headers, send_string_as_entity, full_error, get_content_type, content_length_line,
  full_ok, full_internal_server_error,
}
use completed_projects.Http.Response.Errors.{announced, Says, not_found, full_response-Says}
use completed_projects.Http.Response.Files.{flat, FitBuffer, full_ok-graphics, full_ok-closed}
use completed_projects.Http.Handler.{
  handle_request, split_words, apply_words, apply_word, populate_config,
}
use completed_projects.Http.Handler.Dispatch.{response, handle_request-response}
use completed_projects.Http.Setup.{
  Trace, System, open_file, dup2, bind, accept, pthread_create, main, int_max,
}
use completed_projects.Http.Setup.Running.{Served, main-Served}
use completed_projects.Http.Handler.Accepting.{admitted}

abbrev config : ConfigData
config = record {
  max_connections = pos 1;
  root_path = codes "/www" ++ 0 ∷ [];
  index = codes "index.html" ++ 0 ∷ [];
  port = pos 8080;
}

abbrev junk : RequestData
junk = record { type = []; rel_path = []; abs_path = []; protocol = []; file_type = pos 9 }

-- Files ending in g are images of three bytes, others are closed.
abbrev disk : Bytes → File
disk p =
    if str_eq p (codes "/www/a.jpg")
    then contents (1 ∷ 0 ∷ 2 ∷ [])
    else if str_eq p (codes "/www/a.css")
    then contents (codes "b{}")
    else closed

abbrev world : World
world = record {
  date = codes "now";
  file = disk;
  stack = codes "..." ++ replicate 10 0;
  exists = λ p. true;
}

abbrev received : Bytes
received = codes "GET /a.jpg HTTP/1.0\r\n\r\n"

get-Fits : Fits (codes "GET")
get-Fits = record { word = ground arith; is_text = omega arith; short = omega arith }

path-Fits : Fits (codes "/a.jpg")
path-Fits = record { word = ground arith; is_text = omega arith; short = omega arith }

version-Fits : Fits (codes "HTTP/1.0")
version-Fits = record { word = ground arith; is_text = omega arith; short = omega arith }

-- The request as the stack would hold it, had somebody cleared it.
abbrev before : RequestData
before = record junk { type = cleared; rel_path = cleared; abs_path = cleared; protocol = cleared }

populate_request-words_example :
    (req : RequestData) × (populate_request config (replicate 4 0) received before ≡ some req)
    × (text req.type ≡ some (codes "GET"))
    × (text req.rel_path ≡ some (codes "/a.jpg"))
    × (text req.protocol ≡ some (codes "HTTP/1.0"))
    × (text req.abs_path ≡ some (codes "/www/a.jpg"))
    × (req.file_type ≡ file_type (replicate 4 0) (codes "/a.jpg"))
populate_request-words_example =
    populate_request-words config (replicate 4 0) (codes "GET") (codes "/a.jpg") (codes "HTTP/1.0")
      (codes "\n\r\n") (codes "/www") (codes "index.html") cleared b'\r' junk get-Fits path-Fits
      version-Fits refl refl refl refl (omega arith)

handle_request-response_example :
    (req : RequestData) × (handle_request world config (replicate 4 0) received before
      ≡ response world
          (codes "GET")
          (codes "HTTP/1.0")
          (codes "/www/a.jpg")
          (file_type (replicate 4 0) (codes "/a.jpg"))
          req)
    × (text req.abs_path ≡ some (codes "/www/a.jpg"))
    × (req.file_type ≡ file_type (replicate 4 0) (codes "/a.jpg"))
    × (text req.rel_path ≡ some (codes "/a.jpg"))
    × (text req.protocol ≡ some (codes "HTTP/1.0"))
handle_request-response_example =
    handle_request-response world config (replicate 4 0) (codes "GET") (codes "/a.jpg")
      (codes "HTTP/1.0") (codes "\n\r\n") (codes "/www") (codes "index.html") cleared b'\r' junk
      get-Fits path-Fits version-Fits refl refl refl refl (omega arith)

abbrev asked : Bytes → ℤ → RequestData
asked path kind = record before {
  protocol = held (codes "HTTP/1.0");
  abs_path = held path;
  file_type = kind;
}

full_response-Says_example :
    Says not_found world (asked (codes "/www/a.jpg") (pos 1)) (codes "HTTP/1.0")
full_response-Says_example =
    full_response-Says not_found world (asked (codes "/www/a.jpg") (pos 1)) (codes "HTTP/1.0") refl
      (omega arith)

abbrev ok_line : Bytes
ok_line = codes "HTTP/1.0 200 OK\r\n"

full_ok-graphics_example :
    (chunks : List Bytes) × (full_ok world (asked (codes "/www/a.jpg") (pos 1))
      ≡ some (
          ok_line
          ∷ (send_general_headers world
              ++ (get_content_type (pos 1) ∷ content_length_line 3 ∷ chunks))))
    × (flat chunks ≡ 1 ∷ 0 ∷ 2 ∷ [])
    × FitBuffer chunks
    × (announced (content_length_line 3) ≡ length (flat chunks))
full_ok-graphics_example =
    full_ok-graphics world (asked (codes "/www/a.jpg") (pos 1)) (codes "HTTP/1.0")
      (codes "/www/a.jpg") 1 (0 ∷ 2 ∷ []) refl (omega arith) refl refl refl

abbrev internal_error : List Bytes
internal_error =
    codes "HTTP/1.0 500 Internal Server Error\r\n"
    ∷ (send_general_headers world
        ++ send_string_as_entity (
            codes
              "<html><h1>Server Error 500</h1><p>Server encountered an unexpected condition which prevented it from fulfilling the request.</p></html>"))

full_ok-closed_example :
    full_ok world (asked (codes "/www/x") (pos 0))
    ≡ some (ok_line ∷ (send_general_headers world ++ internal_error))
full_ok-closed_example =
    full_ok-closed world (asked (codes "/www/x") (pos 0)) (codes "HTTP/1.0") (codes "/www/x")
      internal_error refl (omega arith) refl refl
      (unfold full_internal_server_error full_error in refl)

abbrev conf_file : Bytes
conf_file = codes "# PORT 1\nINDEX i.html\nPORT 8081\n"

abbrev fresh : ConfigData
fresh = record {
  max_connections = pos 0;
  root_path = replicate 255 0;
  index = replicate 128 0;
  port = pos 0;
}

abbrev configured : ConfigData
configured = record fresh { index = codes "i.html" ++ replicate 122 0; port = pos 8081 }

reads : populate_config fresh conf_file ≡ some configured
unfolding populate_config split_words apply_words apply_word atoi strtoul
reads = refl

-- A system on which the socket cannot be bound, and `accept` fails.
abbrev failing : System
failing t (open_file name) = pos 3
failing t (bind s port) = minus_one
failing t (accept s) = minus_one
failing t (pthread_create new) = pos 0
failing t _ = pos 4

opened : (t : Trace) (name : Bytes) → failing t (open_file name) ≢ minus_one
opened t name e = cc

redirected : (t : Trace) (from to : ℤ) → failing t (dup2 from to) ≢ minus_one
redirected t from to e = cc

counted : admitted configured.max_connections ≤ int_max
counted = omega arith

main-Served_example :
    (t : Trace) × (main failing fresh conf_file (suc (admitted configured.max_connections))
      ≡ some (pos 1, t))
    × Served (admitted configured.max_connections) t
main-Served_example = main-Served failing fresh configured conf_file opened redirected reads counted

-- A configuration whose root is almost as long as its array.
abbrev deep : ConfigData
deep = record config { root_path = replicate 250 b'r' ++ 0 ∷ [] }

deep-room : length {A = ℕ} (replicate 250 b'r') < max_string_length
deep-room = omega arith

deep-full : max_string_length ≤ length {A = ℕ} (replicate 250 b'r') + length (codes "/a.jpg")
deep-full = omega arith

populate_request_overflow_example : populate_request deep (replicate 4 0) received before ≡ none
populate_request_overflow_example =
    populate_request_overflow deep (replicate 4 0) (codes "GET") (codes "/a.jpg") (codes "HTTP/1.0")
      (codes "\n\r\n") (replicate 250 b'r') cleared b'\r' junk get-Fits path-Fits version-Fits refl
      refl refl refl deep-room deep-full

headers_fit_example :
    (general_header world ≡ some (send_general_headers world))
    × (typed_line (file_mime (pos 1)) ≡ some (get_content_type (pos 1)))
    × (length_line 3 ≡ some (content_length_line 3))
headers_fit_example = headers_fit world (pos 1) 3 (omega arith) (omega arith)
