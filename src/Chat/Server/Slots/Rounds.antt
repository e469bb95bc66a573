-- ===== src/Chat/Server/Slots/Rounds.antt =====
-- server.c and bl-server.c: no operation of the server, and no round of its main loop, depends on what
-- stands behind the clients.
use completed_projects.Common.{
  ℕ, zero, suc, ◌+◌, ◌<◌, ℤ, minus_one, eqb_ℤ, Bool, true, false, Bool-cases, inl, inr, ◌≡◌, refl,
  sym, ap, ◌∙◌, List, [], ◌∷◌, ◌++◌, arith, ltb, ltb→lt, if◌then◌else◌, ◌==◌, map,
}
use completed_projects.Chat.Blather.{max_clients, Mesg, Client, Server}
use completed_projects.Chat.Os.{
  select, Os, Trace, pure, ◌>>=◌, read_join, join_read, open_file, read_only, write_only,
}
use completed_projects.Chat.Server.{
  clients, open_client, suc_ℤ, max_fd, selects, new_client, push_client, server_add_client,
  server_broadcast, joined_mesg, server_check_sources, server_join_ready, server_handle_join,
  server_client_ready, server_handle_client, handle_clients, main_round, mark_ready, mark_clients,
}
use completed_projects.Chat.Server.Slots.{
  with_slots, Holds, Mirrors, Mirrors-bind, slots-server_get_client, push_client-Holds,
}
use completed_projects.Chat.Server.Validity.{length-mark_clients}
use completed_projects.Chat.Server.Handle.{map-mark_clients}
use completed_projects.Chat.Server.Lifetime.{rounds}
use completed_projects.Chat.Server.Slots.Messages.{after-Mirrors, server_handle_client-Mirrors}

module _ (os : Os) where
  -- The end of `server_handle_join`.
  announces :
      (s s' kept : Server) (a : List Client) (m : Mesg) (t : Trace)
      → clients s' ≡ clients s
      → Holds kept a
      → Mirrors ((do _ ← server_broadcast os s m; pure (record kept { join_ready = false })) t) (
          (do
            _ ← server_broadcast os s' m
            pure (record (with_slots kept a) { join_ready = false }))
            t)
  announces s s' kept a m t e h =
      after-Mirrors os s s' a m (record kept { join_ready = false }) t e
        (record {
          valid = record { slots = h.valid.slots; fits = h.valid.fits };
          slots = h.slots;
          same = h.same;
        })

  server_handle_join-Mirrors :
      (s : Server) (a : List Client) (t : Trace)
      → Holds s a
      → Mirrors (server_handle_join os s t) (server_handle_join os (with_slots s a) t)
  unfolding server_handle_join server_add_client open_client push_client
  server_handle_join-Mirrors s a t h =
      let got = os t (read_join s.join_fd) in
      let join = join_read got got.ret in
      let u = t ++ read_join s.join_fd ∷ [] in
      let m = joined_mesg join in
      let to = open_file join.to_client_fname write_only in
      let from = open_file join.to_server_fname read_only in
      let fd = (os u to).ret in
      let fd' = (os (u ++ to ∷ []) from).ret in
      elim (Bool-cases (eqb_ℤ got.ret minus_one)) [
        | inl e ↦ rw e refl
        | inr e ↦ elim (Bool-cases (s.n_clients == max_clients)) [
          | inl full ↦ rw (e, full) (announces s (with_slots s a) s a m u h.same h)
          | inr room ↦ elim (Bool-cases (eqb_ℤ fd minus_one)) [
            | inl f ↦ rw (e, room, ◌>>=◌, f) refl
            | inr f ↦ elim (Bool-cases (eqb_ℤ fd' minus_one)) [
              | inl g ↦ rw (e, room, ◌>>=◌, f, g) refl
              | inr g ↦
                  let c = new_client join fd fd' in
                  let free : s.n_clients < max_clients = ground (arith, room, h.valid.fits) in
                  let k = push_client-Holds s a h c free in
                  let other = push_client (with_slots s a) c in
                  rw (e, room, ◌>>=◌, f, g)
                    (announces (push_client s c) other (push_client s c) other.client m _ k.same k)
            ]
          ]
        ]
      ]

  joins_if_asked-Mirrors :
      (asked : Bool) (s : Server) (a : List Client) (t : Trace)
      → Holds s a
      → Mirrors
          ((if asked then server_handle_join os s else pure s) t)
          ((if asked then server_handle_join os (with_slots s a) else pure (with_slots s a)) t)
  joins_if_asked-Mirrors true s a t h = server_handle_join-Mirrors s a t h
  joins_if_asked-Mirrors false s a t h = (a, refl, h)

  marked-Holds :
      (ready : ℤ → Bool) (s : Server) (a : List Client)
      → Holds s a
      → let asked = if ready s.join_fd then true else s.join_ready in
        Holds
          (record s { join_ready = asked; client = mark_clients ready s.n_clients s.client })
          (mark_clients ready s.n_clients a)
  marked-Holds ready s a h =
      let n = s.n_clients in
      record {
        valid = record {
          slots = length-mark_clients ready n s.client ∙ h.valid.slots;
          fits = h.valid.fits;
        };
        slots =
            length-mark_clients ready n a ∙ h.slots ∙ sym (length-mark_clients ready n s.client);
        same =
            map-mark_clients ready n a
            ∙ ap (map (mark_ready ready)) h.same
            ∙ sym (map-mark_clients ready n s.client);
      }

  server_check_sources-Mirrors :
      (s : Server) (a : List Client) (t : Trace)
      → Holds s a
      → Mirrors (server_check_sources os s t) (server_check_sources os (with_slots s a) t)
  unfolding server_check_sources
  server_check_sources-Mirrors s a t h =
      let asks : selects (with_slots s a) ≡ selects s =
        ap (λ cs. select (suc_ℤ (max_fd s.join_fd cs)) (s.join_fd ∷ map (λ c. c.to_server_fd) cs))
          h.same in
      let got = os t (selects s) in
      rw asks (elim (Bool-cases (eqb_ℤ got.ret minus_one)) [
        | inl e ↦ rw e refl
        | inr e ↦ rw e (mark_clients got.ready s.n_clients a, refl, marked-Holds got.ready s a h)
      ])

  handle_clients-Mirrors :
      (fuel i : ℕ) (s : Server) (a : List Client) (t : Trace)
      → Holds s a
      → Mirrors (handle_clients os fuel i s t) (handle_clients os fuel i (with_slots s a) t)
  unfolding handle_clients
  handle_clients-Mirrors zero i s a t h = refl
  handle_clients-Mirrors (suc fuel) i s a t h = elim (Bool-cases (ltb i s.n_clients)) [
    | inr e ↦ rw e (a, refl, h)
    | inl e ↦
        let inside = ltb→lt i s.n_clients e in
        let same : server_client_ready (with_slots s a) i ≡ server_client_ready s i =
          ap (λ (c : Client). c.data_ready) (slots-server_get_client s a h i inside) in
        rw (e, same)
          (elim (Bool-cases (server_client_ready s i)) [
            | inr f ↦ rw f (handle_clients-Mirrors fuel (i + 1) s a t h)
            | inl f ↦ rw f (
                Mirrors-bind (server_handle_client os s i t)
                  (server_handle_client os (with_slots s a) i t)
                  (λ s'. handle_clients os fuel (i + 1) s')
                  (server_handle_client-Mirrors os s a i t h inside)
                  λ s' a' t' h'. handle_clients-Mirrors fuel (i + 1) s' a' t' h')
          ])
  ]

  main_round-Mirrors :
      (s : Server) (a : List Client) (t : Trace)
      → Holds s a
      → Mirrors (main_round os s t) (main_round os (with_slots s a) t)
  unfolding main_round
  main_round-Mirrors s a t h =
      let joined =
        λ (c : Server). if server_join_ready c then server_handle_join os c else pure c in
      let serves = λ (j : Server). handle_clients os (j.n_clients + 1) 0 j in
      Mirrors-bind (server_check_sources os s t) (server_check_sources os (with_slots s a) t)
        (λ c. joined c >>= serves) (server_check_sources-Mirrors s a t h)
        λ c a' u k.
          Mirrors-bind (joined c u) (joined (with_slots c a') u) serves
            (joins_if_asked-Mirrors (server_join_ready c) c a' u k)
            λ j b w l. handle_clients-Mirrors (j.n_clients + 1) 0 j b w l

  -- Any number of rounds of the main loop are the same for two servers with intact arrays that
  -- differ only in the slots behind their clients, whatever stands there and whatever the system
  -- answers: they make the same calls, with the same messages, have the same end, and leave two
  -- such servers.
  pub rounds-Mirrors :
      (n : ℕ) (s : Server) (a : List Client) (t : Trace)
      → Holds s a
      → Mirrors (rounds os n s t) (rounds os n (with_slots s a) t)
  unfolding rounds
  rounds-Mirrors zero s a t h = (a, refl, h)
  rounds-Mirrors (suc n) s a t h =
      Mirrors-bind (main_round os s t) (main_round os (with_slots s a) t) (λ s'. rounds os n s')
        (main_round-Mirrors s a t h) λ s' a' t' h'. rounds-Mirrors n s' a' t' h'
