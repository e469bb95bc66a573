-- ===== src/Chat/Server/Shutdown.antt =====
-- server.c, `server_shutdown`: which clients the removing loop reaches. The index rises while the
-- array moves down under it, so that every second client is passed over.
use completed_projects.Common.{
  ℕ, zero, suc, ◌+◌, ◌≤◌, ◌<◌, true, false, Bool-cases, inl, inr, ◌≡◌, refl, ap, ◌∙◌, sym, List, [],
  ◌∷◌, ◌++◌, take, get_or, erase_idx, length, length-take, append_assoc, append-nil, ltb, ltb→lt,
  arith,
}
use completed_projects.Chat.Blather.{Client, Server, zero_client, zero_mesg, bl_shutdown}
use completed_projects.Chat.Os.{Os, Trace, IsObliging, close, remove, ok, ◌>>=◌}
use completed_projects.Chat.Server.Clients.{
  IsValid, drop_client-IsValid, drop_client-shrinks, clients-drop_client, server_remove_client_lem,
  lets_go, removal,
}
use completed_projects.Chat.Server.Broadcast.{sends, write_all-sends}
use completed_projects.Chat.Server.{
  clients, server_get_client, drop_client, remove_each, server_shutdown,
}

-- The second, fourth, … entry, and the first, third, ….
abbrev pub every_second : List Client → List Client
every_second [] = []
every_second (x ∷ []) = []
every_second (x ∷ y ∷ r) = y ∷ every_second r

abbrev pub every_other : List Client → List Client
every_other [] = []
every_other (x ∷ []) = x ∷ []
every_other (x ∷ y ∷ r) = x ∷ every_other r

abbrev survivors : ℕ → List Client → List Client
survivors zero l = every_second l
survivors (suc i) [] = []
survivors (suc i) (x ∷ l) = x ∷ survivors i l

abbrev victims : ℕ → List Client → List Client
victims zero l = every_other l
victims (suc i) [] = []
victims (suc i) (x ∷ l) = victims i l

survivors-erase_idx :
    (i : ℕ) (l : List Client) → i < length l → survivors (suc i) (erase_idx l i) ≡ survivors i l
survivors-erase_idx i [] h = elim h [ ]
survivors-erase_idx zero (x ∷ []) h = refl
survivors-erase_idx zero (x ∷ y ∷ l) h = refl
survivors-erase_idx (suc i) (x ∷ l) h = ap (◌∷◌ x) (survivors-erase_idx i l (omega arith))

survivors_past : (i : ℕ) (l : List Client) → length l ≤ i → survivors i l ≡ l
survivors_past zero [] h = refl
survivors_past zero (x ∷ l) h = absurd (omega arith)
survivors_past (suc i) [] h = refl
survivors_past (suc i) (x ∷ l) h = ap (◌∷◌ x) (survivors_past i l (omega arith))

victims_past : (i : ℕ) (l : List Client) → length l ≤ i → victims i l ≡ []
victims_past zero [] h = refl
victims_past zero (x ∷ l) h = absurd (omega arith)
victims_past (suc i) [] h = refl
victims_past (suc i) (x ∷ l) h = victims_past i l (omega arith)

victims-erase_idx :
    (i : ℕ) (l : List Client)
    → i < length l
    → victims i l ≡ get_or l i zero_client ∷ victims (suc i) (erase_idx l i)
victims-erase_idx i [] h = elim h [ ]
victims-erase_idx zero (x ∷ []) h = refl
victims-erase_idx zero (x ∷ y ∷ l) h = refl
victims-erase_idx (suc i) (x ∷ l) h = victims-erase_idx i l (omega arith)

get_or-take :
    (n i : ℕ) (a : List Client) → i < n → get_or (take n a) i zero_client ≡ get_or a i zero_client
get_or-take zero i a h = elim h [ ]
get_or-take (suc n) i [] h = refl
get_or-take (suc n) zero (x ∷ a) h = refl
get_or-take (suc n) (suc i) (x ∷ a) h = get_or-take n i a (omega arith)

length-clients : (s : Server) → IsValid s → length (clients s) ≡ s.n_clients
length-clients s v = omega (arith, length-take s.n_clients s.client, v.slots, v.fits)

-- The calls that remove some clients, one after the other.
abbrev pub removals : List Client → Trace
removals [] = []
removals (c ∷ cs) = removal c ++ removals cs

lets_go_obliging : (os : Os) (c : Client) (t : Trace) → IsObliging os → lets_go os c t ≡ true
lets_go_obliging os c t o = simp (o.closes, o.removes)

-- One round of the loop.
remove_each_step :
    (os : Os) (fuel i : ℕ) (s : Server) (t : Trace)
    → IsObliging os
    → ltb i s.n_clients ≡ true
    → remove_each os (suc fuel) i s t
      ≡ remove_each os fuel (suc i) (drop_client s i) (t ++ removal (server_get_client s i))
unfolding remove_each
remove_each_step os fuel i s t o e =
    let next : i + 1 ≡ suc i = omega arith in
    rw (e, server_remove_client_lem os s i t, ◌>>=◌)
      (rw (lets_go_obliging os (server_get_client s i) t o, next))

remove_each_stop :
    (os : Os) (fuel i : ℕ) (s : Server) (t : Trace)
    → ltb i s.n_clients ≡ false
    → remove_each os (suc fuel) i s t ≡ ok s t
unfolding remove_each
remove_each_stop os fuel i s t e = rw e

gone_first :
    (s : Server) (i : ℕ)
    → IsValid s
    → i < s.n_clients
    → i < length (clients s)
    → victims i (clients s) ≡ server_get_client s i ∷ victims (suc i) (clients (drop_client s i))
gone_first s i v inside here =
    victims-erase_idx i (clients s) here
    ∙ rw (get_or-take s.n_clients i s.client inside, sym (clients-drop_client s i v inside)) refl

remove_each-survivors :
    (os : Os) (fuel i n : ℕ) (s : Server) (t : Trace)
    → IsObliging os
    → IsValid s
    → s.n_clients ≤ n
    → i ≤ n
    → n < fuel + i
    → (s' : Server) × (remove_each os fuel i s t ≡ ok s' (t ++ removals (victims i (clients s))))
      × (clients s' ≡ survivors i (clients s))
remove_each-survivors os zero i n s t o v m l h = absurd (omega arith)
remove_each-survivors os (suc fuel) i n s t o v m l h = elim (Bool-cases (ltb i s.n_clients)) [
  | inr e ↦
      let past : length (clients s) ≤ i = ground (arith, length-clients s v) in
      (
        s,
        remove_each_stop os fuel i s t e
            ∙ rw (victims_past i (clients s) past) (ap (ok s) (sym (append-nil t))),
        sym (survivors_past i (clients s) past),
      )
  | inl e ↦
      let inside = ltb→lt i s.n_clients e in
      let here : i < length (clients s) = omega (arith, length-clients s v) in
      let c = server_get_client s i in
      let gone = drop_client s i in
      let (s', run, left) =
        remove_each-survivors os fuel (suc i) n gone (t ++ removal c) o (drop_client-IsValid s i v)
          (omega (arith, drop_client-shrinks s i)) (omega arith) (omega arith) in
      let list = clients-drop_client s i v inside in
      (
        s',
        remove_each_step os fuel i s t o e
            ∙ run
            ∙ ap (ok s') (append_assoc t (removal c) _)
            ∙ ap (λ l. ok s' (t ++ removals l)) (sym (gone_first s i v inside here)),
        left ∙ ap (survivors (suc i)) list ∙ survivors-erase_idx i (clients s) here,
      )
]

-- On a system where nothing fails, a shutdown tells every client, but closes and removes the pipes of
-- the first, third, fifth, … client alone: the second, fourth, … are still in the array at the end.
pub server_shutdown-every_second :
    (os : Os) (s : Server) (t : Trace)
    → IsObliging os
    → IsValid s
    → let told = record zero_mesg { kind = bl_shutdown } in
      (s' : Server) × (server_shutdown os s t
        ≡ ok s' (
            t
            ++ (close s.join_fd ∷ remove s.server_name ∷ sends told (clients s))
            ++ removals (every_other (clients s))))
      × (clients s' ≡ every_second (clients s))
unfolding server_shutdown
server_shutdown-every_second os s t o v =
    let told = record zero_mesg { kind = bl_shutdown } in
    let u = t ++ close s.join_fd ∷ [] ++ remove s.server_name ∷ [] in
    let (s', run, left) =
      remove_each-survivors os (s.n_clients + 1) 0 s.n_clients s (u ++ sends told (clients s)) o v
        (omega arith) (omega arith) (omega arith) in
    (
      s',
      rw (write_all-sends os told (clients s) u (λ w fd. o.writes w fd told), ◌>>=◌)
          (run ∙ simp append_assoc),
      left,
    )
