-- ===== src/Chat/Server/SameOrder.antt =====
-- server.c and bl-server.c: all clients get the same messages in the same order.
use completed_projects.Common.{
  ℕ, zero, suc, ◌+◌, ◌<◌, ℤ, pos, minus_one, ◌≤ℤ◌, eqb_ℤ, Bool-cases, inl, inr, List, [], ◌∷◌, ◌++◌,
  ◌≡◌, refl, ◌∙◌, append-nil, ltb, ltb→lt,
}
use completed_projects.Chat.Blather.{
  Mesg, MesgKind, bl_mesg, bl_joined, bl_departed, bl_shutdown, bl_disconnected, bl_ping, unknown,
  Server,
}
use completed_projects.Chat.Os.{Os, Trace, ok, pure, ◌>>=◌, read_mesg, write_mesg, mesg_read}
use completed_projects.Chat.Server.{
  clients, server_get_client, server_client_ready, drop_client, act_on, clear_ready,
  server_handle_client, handle_clients,
}
use completed_projects.Chat.Server.Clients.{IsValid, removal}
use completed_projects.Chat.Server.Clients.{removal_cases}
use completed_projects.Chat.Server.Broadcast.{sends, server_broadcast-sends}
use completed_projects.Chat.Server.Received.{received, received-append, fds, Has, AllDiffer}
use completed_projects.Chat.Server.Delivered.{
  Leaves, Leaves-bind, Leaves-weaken, told_fds, Delivered, Delivered-trans, silent-Delivered,
  told-Delivered, received-removal, drop-Delivered, clear_ready-Delivered,
}

module _ (os : Os)
    (writes : (v : Trace) (fd : ℤ) (m : Mesg) → pos 0 ≤ℤ (os v (write_mesg fd m)).ret) where
  departs-Delivered :
      (s : Server) (idx : ℕ) (m : Mesg) (t : Trace)
      → IsValid s
      → AllDiffer (told_fds s)
      → idx < s.n_clients
      → Leaves (Delivered s t) (act_on os s idx m bl_departed t)
  unfolding act_on
  departs-Delivered s idx m t v d inside =
      let u = t ++ removal (server_get_client s idx) in
      let gone = drop_client s idx in
      elim (removal_cases os s idx t) [
        | inl e ↦
            let left = drop-Delivered s idx t v d inside in
            rw (e, ◌>>=◌, server_broadcast-sends os gone m u (λ w fd. writes w fd m), ◌>>=◌)
              (Delivered-trans s t gone u gone (u ++ sends m (clients gone)) left
                (told-Delivered gone u m left.0 left.1))
        | inr e ↦
            let left = silent-Delivered s t u v d (λ fd. received-removal s idx fd t) in
            rw (e, ◌>>=◌, server_broadcast-sends os s m u (λ w fd. writes w fd m), ◌>>=◌)
              (Delivered-trans s t s u s (u ++ sends m (clients s)) left (told-Delivered s u m v d))
      ]

  act_on-Delivered :
      (s : Server) (idx : ℕ) (m : Mesg) (kind : MesgKind) (t : Trace)
      → IsValid s
      → AllDiffer (told_fds s)
      → idx < s.n_clients
      → Leaves (Delivered s t) (act_on os s idx m kind t)
  unfolding act_on
  act_on-Delivered s idx m bl_mesg t v d inside =
      rw (server_broadcast-sends os s m t (λ w fd. writes w fd m), ◌>>=◌) (told-Delivered s t m v d)
  act_on-Delivered s idx m bl_departed t v d inside = departs-Delivered s idx m t v d inside
  act_on-Delivered s idx m bl_joined t v d inside = silent-Delivered s t t v d (λ fd. refl)
  act_on-Delivered s idx m bl_shutdown t v d inside = silent-Delivered s t t v d (λ fd. refl)
  act_on-Delivered s idx m bl_disconnected t v d inside = silent-Delivered s t t v d (λ fd. refl)
  act_on-Delivered s idx m bl_ping t v d inside = silent-Delivered s t t v d (λ fd. refl)
  act_on-Delivered s idx m (unknown n) t v d inside = silent-Delivered s t t v d (λ fd. refl)

  server_handle_client-Delivered :
      (s : Server) (idx : ℕ) (t : Trace)
      → IsValid s
      → AllDiffer (told_fds s)
      → idx < s.n_clients
      → Leaves (Delivered s t) (server_handle_client os s idx t)
  unfolding server_handle_client
  server_handle_client-Delivered s idx t v d inside =
      let read = read_mesg (server_get_client s idx).to_server_fd in
      let got = os t read in
      let m = mesg_read got got.ret in
      let u = t ++ read ∷ [] in
      let reads =
        silent-Delivered s t u v d
          (λ fd. received-append fd t (read ∷ []) ∙ append-nil (received fd t)) in
      elim (Bool-cases (eqb_ℤ got.ret minus_one)) [
        | inl e ↦ rw e tt
        | inr e ↦ rw e (
            Leaves-bind (Delivered s u) (Delivered s t) (act_on os s idx m m.kind u)
              (λ a. pure (clear_ready a idx)) (act_on-Delivered s idx m m.kind u v d inside)
              λ a w k. clear_ready-Delivered s t a w idx (Delivered-trans s t s u a w reads k))
      ]

  pub handle_clients-Delivered :
      (fuel i : ℕ) (s : Server) (t : Trace)
      → IsValid s
      → AllDiffer (told_fds s)
      → Leaves (Delivered s t) (handle_clients os fuel i s t)
  unfolding handle_clients
  handle_clients-Delivered zero i s t v d = tt
  handle_clients-Delivered (suc fuel) i s t v d = elim (Bool-cases (ltb i s.n_clients)) [
    | inr e ↦ rw e (silent-Delivered s t t v d (λ fd. refl))
    | inl e ↦ rw e (elim (Bool-cases (server_client_ready s i)) [
      | inr f ↦ rw f (handle_clients-Delivered fuel (i + 1) s t v d)
      | inl f ↦ rw f (
          Leaves-bind (Delivered s t) (Delivered s t) (server_handle_client os s i t)
            (λ s'. handle_clients os fuel (i + 1) s')
            (server_handle_client-Delivered s i t v d (ltb→lt i s.n_clients e))
            λ s1 t1 k.
              Leaves-weaken s t s1 t1 (handle_clients os fuel (i + 1) s1 t1) k
                (handle_clients-Delivered fuel (i + 1) s1 t1 k.0 k.1))
    ])
  ]

  -- Over a pass of the server over its clients, any two that are there at its end have got exactly the
  -- same messages in the same order, also when others have left in between: if no write fails and no
  -- two clients share a descriptor.
  pub handle_clients_same_order :
      (fuel : ℕ) (s s' : Server) (t t' : Trace) (a b : ℤ)
      → IsValid s
      → AllDiffer (fds (clients s))
      → handle_clients os fuel 0 s t ≡ ok s' t'
      → Has a (fds (clients s'))
      → Has b (fds (clients s'))
      → (ms : List Mesg) × (received a t' ≡ received a t ++ ms)
        × (received b t' ≡ received b t ++ ms)
  handle_clients_same_order fuel s s' t t' a b v d e ha hb =
      let (v', d', (ms, h)) = rw e at (handle_clients-Delivered fuel 0 s t v d) in
      (ms, (h a ha).1, (h b hb).1)
