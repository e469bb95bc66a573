-- ===== src/Http/Handler/Dispatch.antt =====
-- server.c, `handle_request`: from the bytes that were received to the response.
use completed_projects.Common.{
  is_space, ◌>>=◌, ℕ, ◌+◌, ◌<◌, ℤ, true, some, ◌≡◌, refl, ap, ◌∙◌, ◌++◌, length, if◌then◌else◌,
}
use completed_projects.Common.CString.{Bytes, codes}
use completed_projects.Http.Data.{
  max_string_length, ConfigData, RequestData, text, str_eq_ignoring_case,
}
use completed_projects.Http.Request.{file_type}
use completed_projects.Http.Request.Parse.{
  Fits, target, blank, request_line, populate_request-words,
}
use completed_projects.Http.Response.{
  World, Writes, simple_ok, full_ok, simple_not_found, full_not_found, simple_not_implemented,
  full_not_implemented,
}
use completed_projects.Http.Handler.{
  by_version, is_cgi, answer, handle_request, handle_cgi, send_get_response,
}

-- The response that the words of a request ask for.
abbrev pub response : World → Bytes → Bytes → Bytes → ℤ → RequestData → Writes
response w method protocol path kind r =
    if is_cgi kind
    then by_version protocol simple_not_implemented (full_not_implemented w r)
    else if str_eq_ignoring_case method (codes "GET")
    then if w.exists path
      then by_version protocol (simple_ok w r) (full_ok w r)
      else by_version protocol simple_not_found (full_not_found w r)
    else by_version protocol simple_not_implemented (full_not_implemented w r)

answer-response :
    (w : World) (r : RequestData) (m v path : Bytes)
    → text r.type ≡ some m
    → text r.protocol ≡ some v
    → text r.abs_path ≡ some path
    → answer w r ≡ response w m v path r.file_type r
unfolding answer handle_cgi send_get_response
answer-response w r m v path em ev ep = rw (em, ev, ep, ◌>>=◌) refl

module _ (w : World) (config : ConfigData) (local m p v rest root index abs_path : Bytes) (sp : ℕ)
    (junk : RequestData) where
  -- A request of three words that fit, received into a cleared request, where the root with the path
  -- and the index file behind it fits too: paths that `file_type` takes for scripts, with its local
  -- array as the stack left it, and methods other than GET, in any case of letters, are answered as
  -- not implemented; any other GET by the request for the file at the root with the path (or the index
  -- file) behind it, or by 404 if there is none. The response is made from a request that holds that
  -- path, the kind that `file_type` found, and the protocol; HTTP/0.9 alone gets the simple responses.
  pub handle_request-response :
      Fits m
      → Fits p
      → Fits v
      → is_space sp ≡ true
      → text config.root_path ≡ some root
      → text config.index ≡ some index
      → length abs_path ≡ max_string_length
      → length root + (length p + length index) < max_string_length
      → (req : RequestData) × (handle_request w config local
            (request_line config local m p v rest root index abs_path sp junk)
            (blank config local m p v rest root index abs_path sp junk)
          ≡ response w m v (root ++ target p index) (file_type local (target p index)) req)
        × (text req.abs_path ≡ some (root ++ target p index))
        × (req.file_type ≡ file_type local (target p index))
        × (text req.rel_path ≡ some (target p index))
        × (text req.protocol ≡ some v)
  unfolding handle_request
  handle_request-response fm fp fv s er ei la h =
      let (req, e, t, rel, prot, abs, kind) =
        populate_request-words config local m p v rest root index abs_path sp junk fm fp fv s er ei
          la h in
      (
        req,
        rw (e, ◌>>=◌)
            (answer-response w req m v (root ++ target p index) t prot abs
              ∙ ap (λ k. response w m v (root ++ target p index) k req) kind),
        abs,
        kind,
        rel,
        prot,
      )
