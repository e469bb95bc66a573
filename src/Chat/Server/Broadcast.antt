-- ===== src/Chat/Server/Broadcast.antt =====
-- server.c: `server_broadcast` reaches every client once, in the order of the array; one client whose
-- pipe is broken ends the server.
use completed_projects.Common.{
  ℤ, pos, minus_one, eqb_ℤ_ne, ◌≤ℤ◌, ◌≡◌, ◌≢◌, ap, ◌∙◌, List, [], ◌∷◌, ◌++◌, map, append_assoc,
  append-nil, nonneg_cases, minus_one_cases, inl, inr, sym, ◌⊎◌,
}
use completed_projects.Chat.Blather.{Mesg, Client, Server}
use completed_projects.Chat.Os.{Os, Trace, write_mesg, ok, exits}
use completed_projects.Chat.Server.{clients, broadcast_each, server_broadcast, write_all}

-- The writes of one message to some clients, in order.
abbrev pub sends : Mesg → List Client → Trace
sends mesg = map (λ c. write_mesg c.to_client_fd mesg)

broadcast_each-sends :
    (os : Os) (mesg : Mesg) (cs : List Client) (t : Trace)
    → ((u : Trace) (fd : ℤ) → pos 0 ≤ℤ (os u (write_mesg fd mesg)).ret)
    → broadcast_each os mesg cs t ≡ ok (pos 0) (t ++ sends mesg cs)
unfolding broadcast_each
broadcast_each-sends os mesg [] t h = ap (ok (pos 0)) (sym (append-nil t))
broadcast_each-sends os mesg (c ∷ cs) t h =
    let w = write_mesg c.to_client_fd mesg in
    let (n, e) = nonneg_cases (os t w).ret (h t c.to_client_fd) in
    rw e (
      broadcast_each-sends os mesg cs (t ++ w ∷ []) h
      ∙ ap (ok (pos 0)) (append_assoc t (w ∷ []) (sends mesg cs)))

-- Where no write fails, each client gets the message exactly once, in the order of the array, nothing
-- else is called, and 0 is returned.
pub server_broadcast-sends :
    (os : Os) (s : Server) (mesg : Mesg) (t : Trace)
    → ((u : Trace) (fd : ℤ) → pos 0 ≤ℤ (os u (write_mesg fd mesg)).ret)
    → server_broadcast os s mesg t ≡ ok (pos 0) (t ++ sends mesg (clients s))
unfolding server_broadcast
server_broadcast-sends os s mesg t h = broadcast_each-sends os mesg (clients s) t h

module _ (os : Os) (mesg : Mesg) (c : Client) (post : List Client) where
  broadcast_each_broken :
      (pre : List Client) (t : Trace)
      → ((u : Trace) (fd : ℤ) → minus_one ≤ℤ (os u (write_mesg fd mesg)).ret)
      → ((u : Trace) → (os u (write_mesg c.to_client_fd mesg)).ret ≡ minus_one)
      → (u : Trace) × (broadcast_each os mesg (pre ++ c ∷ post) t ≡ exits u)
  unfolding broadcast_each
  broadcast_each_broken [] t h dead = (t ++ write_mesg c.to_client_fd mesg ∷ [], rw (dead t))
  broadcast_each_broken (d ∷ pre) t h dead =
      let w = write_mesg d.to_client_fd mesg in
      elim (minus_one_cases (os t w).ret (h t d.to_client_fd)) [
        | inl e ↦ (t ++ w ∷ [], rw e)
        | inr (n, e) ↦ rw e (broadcast_each_broken pre (t ++ w ∷ []) h dead)
      ]

-- A single client whose pipe cannot be written to, wherever it stands in the array, makes the whole
-- server exit when any message is broadcast.
pub server_broadcast_broken :
    (os : Os) (s : Server) (mesg : Mesg) (pre post : List Client) (c : Client) (t : Trace)
    → clients s ≡ pre ++ c ∷ post
    → ((u : Trace) (fd : ℤ) → minus_one ≤ℤ (os u (write_mesg fd mesg)).ret)
    → ((u : Trace) → (os u (write_mesg c.to_client_fd mesg)).ret ≡ minus_one)
    → (u : Trace) × (server_broadcast os s mesg t ≡ exits u)
unfolding server_broadcast
server_broadcast_broken os s mesg pre post c t e h dead =
    rw e (broadcast_each_broken os mesg c post pre t h dead)

-- A write returns -1 or what it has written. Then a broadcast reaches everybody, or the server exits.
broadcast_each_cases :
    (os : Os) (mesg : Mesg) (cs : List Client) (t : Trace)
    → ((u : Trace) (fd : ℤ) → minus_one ≤ℤ (os u (write_mesg fd mesg)).ret)
    → (broadcast_each os mesg cs t ≡ ok (pos 0) (t ++ sends mesg cs))
      ⊎ ((u : Trace) × (broadcast_each os mesg cs t ≡ exits u))
unfolding broadcast_each
broadcast_each_cases os mesg [] t h = inl (ap (ok (pos 0)) (sym (append-nil t)))
broadcast_each_cases os mesg (c ∷ cs) t h =
    let w = write_mesg c.to_client_fd mesg in
    elim (minus_one_cases (os t w).ret (h t c.to_client_fd)) [
      | inl e ↦ inr (t ++ w ∷ [], rw e)
      | inr (n, e) ↦ elim (broadcast_each_cases os mesg cs (t ++ w ∷ []) h) [
        | inl f ↦ inl (rw e (f ∙ ap (ok (pos 0)) (append_assoc t (w ∷ []) (sends mesg cs))))
        | inr (u, f) ↦ inr (u, rw e f)
      ]
    ]

pub server_broadcast_cases :
    (os : Os) (s : Server) (mesg : Mesg) (t : Trace)
    → ((u : Trace) (fd : ℤ) → minus_one ≤ℤ (os u (write_mesg fd mesg)).ret)
    → (server_broadcast os s mesg t ≡ ok (pos 0) (t ++ sends mesg (clients s)))
      ⊎ ((u : Trace) × (server_broadcast os s mesg t ≡ exits u))
unfolding server_broadcast
server_broadcast_cases os s mesg t h = broadcast_each_cases os mesg (clients s) t h

pub write_all-sends :
    (os : Os) (mesg : Mesg) (cs : List Client) (t : Trace)
    → ((u : Trace) (fd : ℤ) → (os u (write_mesg fd mesg)).ret ≢ minus_one)
    → write_all os mesg cs t ≡ ok tt (t ++ sends mesg cs)
unfolding write_all
write_all-sends os mesg [] t h = ap (ok tt) (sym (append-nil t))
write_all-sends os mesg (c ∷ cs) t h =
    let w = write_mesg c.to_client_fd mesg in
    rw (eqb_ℤ_ne (h t c.to_client_fd)) (
      write_all-sends os mesg cs (t ++ w ∷ []) h
      ∙ ap (ok tt) (append_assoc t (w ∷ []) (sends mesg cs)))
