-- ===== src/Chat/Delivery.antt =====
-- server.c and bl-client.c together: a line on its way from one client through the server to the
-- terminals of all.
use completed_projects.Common.{
  ℕ, ◌<◌, ℤ, pos, minus_one, ◌≤ℤ◌, ◌≡◌, ◌≢◌, refl, ap, ◌∙◌, [], ◌∷◌, ◌++◌, some, length, eqb_ℤ_ne,
  append_assoc,
}
use completed_projects.Common.CString.{
  Bytes, IsText, c_str, codes, c_str_of_text, c_str-strncpy, c_str-strncpy-append,
}
use completed_projects.Chat.Blather.{max_line, max_name, bl_mesg, Mesg, Server, zero_mesg}
use completed_projects.Chat.Os.{Os, Trace, read_mesg, write_mesg, ok, mesg_read, ◌>>=◌}
use completed_projects.Chat.Server.{
  clients, server_get_client, act_on, clear_ready, server_handle_client,
}
use completed_projects.Chat.Server.Broadcast.{sends, server_broadcast-sends}
use completed_projects.Chat.Server.Handle.{clear_at, clients-clear_ready}
use completed_projects.Chat.Client.{user_mesg, notice}

notice-user_mesg :
    (u l : Bytes)
    → IsText u
    → IsText l
    → length u < max_name
    → length l < max_line
    → notice (user_mesg u l) bl_mesg
      ≡ some (codes "[" ++ (u ++ (codes "] : " ++ (l ++ codes "\n"))))
unfolding notice user_mesg
notice-user_mesg u l tu tl hu hl =
    let su : length (c_str u) < max_name = rw (c_str_of_text u tu) hu in
    let sl : length (c_str l) < max_line = rw (c_str_of_text l tl) hl in
    rw
      (
        c_str-strncpy-append max_name zero_mesg.name u (user_mesg u l).body su,
        c_str-strncpy max_line zero_mesg.body l sl,
        c_str_of_text u tu,
        c_str_of_text l tl,
      )
      refl

kind-user_mesg : (u l : Bytes) → (user_mesg u l).kind ≡ bl_mesg
unfolding user_mesg
kind-user_mesg u l = refl

act_on-sends :
    (os : Os) (s : Server) (idx : ℕ) (m : Mesg) (t : Trace)
    → m.kind ≡ bl_mesg
    → ((v : Trace) (fd : ℤ) → pos 0 ≤ℤ (os v (write_mesg fd m)).ret)
    → act_on os s idx m m.kind t ≡ ok s (t ++ sends m (clients s))
unfolding act_on
act_on-sends os s idx m t k w =
    ap (λ kind. act_on os s idx m kind t) k ∙ rw (server_broadcast-sends os s m t w, ◌>>=◌)

-- If the read from a client gives the message of a name that fits its array and of a line of less than
-- 1024 bytes, neither with a NUL, and no write to a client fails: the server writes that message to
-- every client, the sender too, as it came, and in the whole of the server only the flag of the sender
-- is cleared; the text of the notice that a client makes of it is the name and the line.
pub server_handle_client-delivers :
    (os : Os) (s : Server) (idx : ℕ) (t : Trace) (u l : Bytes)
    → IsText u
    → IsText l
    → length u < max_name
    → length l < max_line
    → (os t (read_mesg (server_get_client s idx).to_server_fd)).ret ≢ minus_one
    → (let got = os t (read_mesg (server_get_client s idx).to_server_fd) in
        mesg_read got got.ret ≡ user_mesg u l)
    → ((v : Trace) (fd : ℤ) → pos 0 ≤ℤ (os v (write_mesg fd (user_mesg u l))).ret)
    → (s' : Server) × (server_handle_client os s idx t
        ≡ ok s' (
            t
            ++ (read_mesg (server_get_client s idx).to_server_fd
                ∷ sends (user_mesg u l) (clients s))))
      × (s' ≡ clear_ready s idx)
      × (clients s' ≡ clear_at (clients s) idx)
      × (notice (user_mesg u l) (user_mesg u l).kind
          ≡ some (codes "[" ++ (u ++ (codes "] : " ++ (l ++ codes "\n")))))
unfolding server_handle_client
server_handle_client-delivers os s idx t u l tu tl hu hl r m w =
    let read = read_mesg (server_get_client s idx).to_server_fd in
    (
      clear_ready s idx,
      rw
          (
            eqb_ℤ_ne r,
            m,
            ◌>>=◌,
            act_on-sends os s idx (user_mesg u l) (t ++ read ∷ []) (kind-user_mesg u l) w,
          )
          (ap (ok (clear_ready s idx)) (append_assoc t (read ∷ []) _)),
      refl,
      clients-clear_ready s idx,
      unfold user_mesg in notice-user_mesg u l tu tl hu hl,
    )
