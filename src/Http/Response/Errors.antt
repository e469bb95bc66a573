-- ===== src/Http/Response/Errors.antt =====
-- httpResponses.c: the eight error responses, each as a page and as a full response.
use completed_projects.Common.{
  ◌>>=◌, ℕ, ◌<◌, some, [], ◌∷◌, ◌++◌, ◌≡◌, refl, drop, length, length-append, lt→ltb, arith,
}
use completed_projects.Common.CString.{Bytes, codes}
use completed_projects.Common.Decimal.{strtoul, strtoul-decimal-append}
use completed_projects.Http.Data.{max_response_line_size, max_string_length, RequestData, text}
use completed_projects.Http.Response.{
  World, Writes, send_general_headers, send_string_as_entity, content_type_line,
  content_length_line, full_error, simple_bad_request, full_bad_request, simple_unauthorized,
  full_unauthorized, simple_forbidden, full_forbidden, simple_not_found, full_not_found,
  simple_internal_server_error, full_internal_server_error, simple_not_implemented,
  full_not_implemented, simple_bad_gateway, full_bad_gateway, simple_service_unavailable,
  full_service_unavailable,
}

-- The number that a Content-Length line announces.
abbrev pub announced : Bytes → ℕ
announced line = strtoul (drop 16 line)

pub announced-content_length_line : (n : ℕ) → announced (content_length_line n) ≡ n
announced-content_length_line n = strtoul-decimal-append n b'\r' (codes "\n\r\n") refl

pub data Status : Type 0 where
  bad_request unauthorized forbidden not_found internal_server_error not_implemented bad_gateway
        service_unavailable :
      Status

abbrev pub simple_response : Status → Writes
simple_response bad_request = simple_bad_request
simple_response unauthorized = simple_unauthorized
simple_response forbidden = simple_forbidden
simple_response not_found = simple_not_found
simple_response internal_server_error = simple_internal_server_error
simple_response not_implemented = simple_not_implemented
simple_response bad_gateway = simple_bad_gateway
simple_response service_unavailable = simple_service_unavailable

abbrev pub full_response : Status → World → RequestData → Writes
full_response bad_request = full_bad_request
full_response unauthorized = full_unauthorized
full_response forbidden = full_forbidden
full_response not_found = full_not_found
full_response internal_server_error = full_internal_server_error
full_response not_implemented = full_not_implemented
full_response bad_gateway = full_bad_gateway
full_response service_unavailable = full_service_unavailable

-- The code of RFC 1945.
abbrev pub status_code : Status → ℕ
status_code bad_request = 400
status_code unauthorized = 401
status_code forbidden = 403
status_code not_found = 404
status_code internal_server_error = 500
status_code not_implemented = 501
status_code bad_gateway = 502
status_code service_unavailable = 503

full_error_lem :
    (w : World) (r : RequestData) (p status body : Bytes)
    → text r.protocol ≡ some p
    → length p < max_string_length
    → length status < 200
    → full_error w r status body
      ≡ some ((p ++ status) ∷ (send_general_headers w ++ send_string_as_entity body))
unfolding full_error send_general_headers
full_error_lem w r p status body e h k =
    let fits : length (p ++ status) < max_response_line_size =
      omega (arith, length-append p status) in
    rw (e, ◌>>=◌) (rw (lt→ltb (length (p ++ status)) max_response_line_size fits) refl)

-- What an error response says: after the protocol the code, then the general headers, then the type
-- and the length of the page, and the page.
pub record Says (s : Status) (w : World) (r : RequestData) (p : Bytes) : Type 0 where
  pub reason : Bytes
  pub page : Bytes
  pub full :
      full_response s w r
      ≡ some (
          (p ++ (codes " " ++ reason))
          ∷ (send_general_headers w
              ++ (content_type_line (codes "text/html")
                  ∷ content_length_line (length page)
                  ∷ page
                  ∷ [])))
  pub code : strtoul reason ≡ status_code s
  pub length_announced : announced (content_length_line (length page)) ≡ length page
  pub simple : simple_response s ≡ some ((page ++ codes "\r\n") ∷ [])

-- Whatever protocol the request named, each full error response has the status code of its name, one
-- page, and the length of that very page; the simple response is the same page with a line end.
pub full_response-Says :
    (s : Status) (w : World) (r : RequestData) (p : Bytes)
    → text r.protocol ≡ some p
    → length p < max_string_length
    → Says s w r p
unfolding send_string_as_entity strtoul simple_bad_request full_bad_request simple_unauthorized
    full_unauthorized simple_forbidden full_forbidden simple_not_found full_not_found
    simple_internal_server_error full_internal_server_error simple_not_implemented
    full_not_implemented simple_bad_gateway full_bad_gateway simple_service_unavailable
    full_service_unavailable
full_response-Says bad_request w r p e h = record {
  reason = codes "400 Bad Request\r\n";
  page =
      codes
        "<html><h1>Client Error 400</h1><p>Server could not understand the request due to malformed syntax.</p></html>";
  full = full_error_lem w r p _ _ e h (omega arith);
  code = refl;
  length_announced = announced-content_length_line _;
  simple = refl;
}
full_response-Says unauthorized w r p e h = record {
  reason = codes "401 Unauthorized\r\n";
  page =
      codes
        "<html><h1>Client Error 401</h1><p>The request requires user authentication.</p></html>";
  full = full_error_lem w r p _ _ e h (omega arith);
  code = refl;
  length_announced = announced-content_length_line _;
  simple = refl;
}
full_response-Says forbidden w r p e h = record {
  reason = codes "403 Forbidden\r\n";
  page =
      codes
        "<html><h1>Client Error 403</h1><p>The server refuses to fulfill this request.</p></html>";
  full = full_error_lem w r p _ _ e h (omega arith);
  code = refl;
  length_announced = announced-content_length_line _;
  simple = refl;
}
full_response-Says not_found w r p e h = record {
  reason = codes "404 Not Found\r\n";
  page =
      codes
        "<html><h1>Client Error 404</h1><p>The server has not found anything matching the Request-URI.</p></html>";
  full = full_error_lem w r p _ _ e h (omega arith);
  code = refl;
  length_announced = announced-content_length_line _;
  simple = refl;
}
full_response-Says internal_server_error w r p e h = record {
  reason = codes "500 Internal Server Error\r\n";
  page =
      codes
        "<html><h1>Server Error 500</h1><p>Server encountered an unexpected condition which prevented it from fulfilling the request.</p></html>";
  full = full_error_lem w r p _ _ e h (omega arith);
  code = refl;
  length_announced = announced-content_length_line _;
  simple = refl;
}
full_response-Says not_implemented w r p e h = record {
  reason = codes "501 Method Not Implemented\r\n";
  page =
      codes
        "<html><h1>Server Error 501</h1><p>Server does not support the functionality required to fulfill the request.</p></html>";
  full = full_error_lem w r p _ _ e h (omega arith);
  code = refl;
  length_announced = announced-content_length_line _;
  simple = refl;
}
full_response-Says bad_gateway w r p e h = record {
  reason = codes "502 Bad Gateway\r\n";
  page =
      codes
        "<html><h1>Server Error 502</h1><p>Server received an invalid response from an upstream server.</p></html>";
  full = full_error_lem w r p _ _ e h (omega arith);
  code = refl;
  length_announced = announced-content_length_line _;
  simple = refl;
}
full_response-Says service_unavailable w r p e h = record {
  reason = codes "503 Service Unavailable\r\n";
  page =
      codes
        "<html><h1>Server Error 503</h1><p>Server is temporarily unable to handle the request.</p></html>";
  full = full_error_lem w r p _ _ e h (omega arith);
  code = refl;
  length_announced = announced-content_length_line _;
  simple = refl;
}
