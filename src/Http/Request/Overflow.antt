-- ===== src/Http/Request/Overflow.antt =====
-- server.c: `populate_request` on a path that does not fit behind the root.
use completed_projects.Common.{
  is_space, ◌>>=◌, ℕ, ◌+◌, ◌≤◌, ◌<◌, true, false, none, some, [], ◌++◌, ◌≡◌, refl, length,
  length-append, le→ltb, arith,
}
use completed_projects.Common.CString.{Bytes, codes, str_eq}
use completed_projects.Http.Data.{max_string_length, ConfigData, RequestData, text, strcat}
use completed_projects.Http.Request.{populate_request, default_path}
use completed_projects.Http.Request.Parse.{
  Fits, blank, request_line, copied, text-held, text-IsText, strcpy-text,
}

strcat_overflow :
    (dst t src : Bytes)
    → text dst ≡ some t
    → length dst ≤ length t + length src
    → strcat dst src ≡ none
strcat_overflow dst t src e h =
    rw (e, ◌>>=◌, le→ltb (length (t ++ src)) (length dst) (omega (arith, length-append t src))) refl

module _ (config : ConfigData) (local m p v rest root abs_path : Bytes) (sp : ℕ)
    (junk : RequestData) where
  -- A request whose three words fit their arrays, with a path that does not fit behind the root: the
  -- absolute path is written past the end of its array, whatever the client has sent behind it.
  pub populate_request_overflow :
      Fits m
      → Fits p
      → Fits v
      → is_space sp ≡ true
      → text config.root_path ≡ some root
      → str_eq p (codes "/") ≡ false
      → length abs_path ≡ max_string_length
      → length root < max_string_length
      → max_string_length ≤ length root + length p
      → populate_request config local
          (request_line config local m p v rest root [] abs_path sp junk)
          (blank config local m p v rest root [] abs_path sp junk)
        ≡ none
  unfolding populate_request default_path
  populate_request_overflow fm fp fv s er q la lr h =
      let (i, k, l, run1, run2, run3) =
        copied config local m p v rest root [] abs_path sp junk fm fp fv s in
      let (a, x, xt, xl) =
        strcpy-text abs_path root (text-IsText config.root_path root er) (omega arith) in
      let read = text-held p fp.is_text fp.short in
      rw
        (
          run1,
          run2,
          run3,
          er,
          x,
          read,
          q,
          ◌>>=◌,
          read,
          strcat_overflow a root p xt (omega arith),
          ◌>>=◌,
        )
        refl
