-- ===== src/Http/Response/Files.antt =====
-- httpResponses.c: sending a file, in chunks or as a text, and what happens when it cannot be opened.
use completed_projects.Common.{
  ◌>>=◌, ℕ, zero, suc, ◌+◌, ◌≤◌, ◌<◌, Bool-cases, inl, inr, true, false, some, List, [], ◌∷◌, ◌++◌,
  ◌≡◌, refl, ap, ◌∙◌, sym, take, drop, length, length-append, length-drop, length-take, take_all,
  take-append-drop, lt→ltb, arith,
}
use completed_projects.Common.CString.{Bytes, codes, IsText}
use completed_projects.Http.Data.{
  max_response_line_size, max_string_length, max_entity_body_size, text_entity_body_size,
  RequestData, text,
}
use completed_projects.Http.Response.{
  World, closed, contents, Writes, send_general_headers, get_content_type, content_length_line,
  send_contents, send_chunks, send_bytes, send_text_file, send_graphics_file, send_file_as_entity,
  is_text_type, full_ok, full_internal_server_error,
}
use completed_projects.Http.Request.Words.{text-append_nul}
use completed_projects.Http.Response.Errors.{announced, announced-content_length_line}

abbrev pub flat : List Bytes → Bytes
flat [] = []
flat (x ∷ xs) = x ++ flat xs

-- No chunk is larger than the buffer.
abbrev pub FitBuffer : List Bytes → Type 0
FitBuffer [] = Unit {0}
FitBuffer (x ∷ xs) = (length x ≤ max_entity_body_size) × FitBuffer xs

record Chunks (content : Bytes) (out : Writes) : Type 0 where
  pub chunks : List Bytes
  pub sends : out ≡ some chunks
  pub whole : flat chunks ≡ content
  pub fit : FitBuffer chunks

send_chunks-Chunks :
    (fuel : ℕ) (content : Bytes) → length content < fuel → Chunks content (send_chunks fuel content)
unfolding send_chunks
send_chunks-Chunks zero content h = elim h [ ]
send_chunks-Chunks (suc fuel) [] h = record { chunks = []; sends = refl; whole = refl; fit = tt }
send_chunks-Chunks (suc fuel) (c ∷ cs) h =
    let n = max_entity_body_size in
    let r = send_chunks-Chunks fuel (drop n (c ∷ cs)) (omega (arith, length-drop n (c ∷ cs))) in
    record {
      chunks = take n (c ∷ cs) ∷ r.chunks;
      sends = rw (r.sends, ◌>>=◌);
      whole = ap (◌++◌ (take n (c ∷ cs))) r.whole ∙ take-append-drop n (c ∷ cs);
      fit = (omega (arith, length-take n (c ∷ cs)), r.fit);
    }

-- The lines of a full 200 response in front of what the file gives.
full_ok_lem :
    (w : World) (r : RequestData) (p : Bytes) (entity : List Bytes)
    → text r.protocol ≡ some p
    → length p < max_string_length
    → send_file_as_entity w r false ≡ some entity
    → full_ok w r ≡ some ((p ++ codes " 200 OK\r\n") ∷ (send_general_headers w ++ entity))
unfolding full_ok
full_ok_lem w r p entity e h s =
    let fits : length (p ++ codes " 200 OK\r\n") < max_response_line_size =
      omega (arith, length-append p (codes " 200 OK\r\n")) in
    rw (e, ◌>>=◌) (rw (lt→ltb _ max_response_line_size fits) (rw (s, ◌>>=◌) refl))

module _ (w : World) (r : RequestData) (p path : Bytes) where
  -- An image of any size is sent whole: the chunks, none larger than the buffer, together are the file,
  -- and the length that is announced before them is that of the file.
  pub full_ok-graphics :
      (c : ℕ) (cs : Bytes)
      → text r.protocol ≡ some p
      → length p < max_string_length
      → text r.abs_path ≡ some path
      → is_text_type r.file_type ≡ false
      → w.file path ≡ contents (c ∷ cs)
      → (chunks : List Bytes) × (full_ok w r
          ≡ some (
              (p ++ codes " 200 OK\r\n")
              ∷ (send_general_headers w
                  ++ (get_content_type r.file_type
                      ∷ content_length_line (length (c ∷ cs))
                      ∷ chunks))))
        × (flat chunks ≡ c ∷ cs)
        × FitBuffer chunks
        × (announced (content_length_line (length (c ∷ cs))) ≡ length (flat chunks))
  unfolding send_file_as_entity send_graphics_file send_bytes
  full_ok-graphics c cs e h a t f =
      let r' = send_chunks-Chunks (length (c ∷ cs) + 1) (c ∷ cs) (omega arith) in
      (
        r'.chunks,
        full_ok_lem w r p _ e h (rw (t, a, f, r'.sends, ◌>>=◌)),
        r'.whole,
        r'.fit,
        announced-content_length_line (length (c ∷ cs)) ∙ ap length (sym r'.whole),
      )

  -- A text file that fits the buffer and holds no NUL is sent whole under its own length, if the byte
  -- of the buffer behind it happens to be NUL.
  pub full_ok-text :
      (content stack : Bytes)
      → text r.protocol ≡ some p
      → length p < max_string_length
      → text r.abs_path ≡ some path
      → is_text_type r.file_type ≡ true
      → w.file path ≡ contents content
      → IsText content
      → length content < text_entity_body_size
      → drop (length content) w.stack ≡ 0 ∷ stack
      → full_ok w r
        ≡ some (
            (p ++ codes " 200 OK\r\n")
            ∷ (send_general_headers w
                ++ (get_content_type r.file_type
                    ∷ content_length_line (length content)
                    ∷ content
                    ∷ [])))
  unfolding send_file_as_entity send_text_file send_contents
  full_ok-text content stack e h a t f x l z = full_ok_lem w r p _ e h (
      rw (
        t,
        a,
        f,
        take_all text_entity_body_size content (omega arith),
        z,
        text-append_nul content stack x,
        ◌>>=◌,
      ))

  -- A file that cannot be opened is answered twice: the status line of success and the general headers
  -- are out before the internal error is, with a status line of its own behind them.
  pub full_ok-closed :
      (err : List Bytes)
      → text r.protocol ≡ some p
      → length p < max_string_length
      → text r.abs_path ≡ some path
      → w.file path ≡ closed
      → full_internal_server_error w r ≡ some err
      → full_ok w r ≡ some ((p ++ codes " 200 OK\r\n") ∷ (send_general_headers w ++ err))
  unfolding send_file_as_entity send_text_file send_graphics_file
  full_ok-closed err e h a f g =
      full_ok_lem w r p err e h (elim (Bool-cases (is_text_type r.file_type)) [
        | inl q ↦ rw (q, a, f, ◌>>=◌) g
        | inr q ↦ rw (q, a, f, ◌>>=◌) g
      ])
