-- ===== src/Chat/Server/RoundOrder.antt =====
-- bl-server.c: the order of the messages over a whole round of the main loop, in which a client may
-- join.
use completed_projects.Common.{
  ◌+◌, ◌<◌, ℤ, pos, minus_one, ◌≤ℤ◌, eqb_ℤ, Bool, true, false, Bool-cases, inl, inr, List, [], ◌∷◌,
  ◌++◌, ◌≡◌, refl, sym, ap, subst, ◌∙◌, append-nil, ◌==◌, if◌then◌else◌, arith,
}
use completed_projects.Common.CString.{Bytes}
use completed_projects.Chat.Blather.{max_clients, Mesg, Join, Server}
use completed_projects.Chat.Os.{
  Os, Trace, Access, write_only, Result, ok, exits, stuck, pure, ◌>>=◌, open_file, read_join,
  join_read, write_mesg,
}
use completed_projects.Chat.Server.{
  clients, selects, new_client, joined_mesg, server_check_sources, server_add_client, open_client,
  server_broadcast, server_join_ready, server_handle_join, handle_clients, main_round,
}
use completed_projects.Chat.Server.Clients.{
  IsValid, clients-push_client, push_client-IsValid, to_fd, from_fd, opens_to, opens_from,
}
use completed_projects.Chat.Server.Broadcast.{sends, server_broadcast-sends}
use completed_projects.Chat.Server.Handle.{server_check_sources_flags}
use completed_projects.Chat.Server.Validity.{server_check_sources-Ends}
use completed_projects.Chat.Server.Received.{received, received-append, fds, Has, AllDiffer}
use completed_projects.Chat.Server.Delivered.{Leaves, Leaves-bind, told_fds}
use completed_projects.Chat.Server.SameOrder.{handle_clients-Delivered}
use completed_projects.Chat.Server.Told.{
  Told, Told-Delivered, fds-mark_ready, AllDiffer-append, Quiet, Quiet-sends, down-Told, eqb_ℤ-ne,
}

module _ (os : Os) where
  server_add_client-Quiet :
      (s : Server) (join : Join) (t : Trace)
      → IsValid s
      → AllDiffer (told_fds s)
      → ((v : Trace) (f : Bytes) (x : Access) → Has (os v (open_file f x)).ret (told_fds s) → ⊥)
      → Leaves (λ r u. Quiet s t r.0 u) (server_add_client os s join t)
  unfolding server_add_client open_client new_client
  server_add_client-Quiet s join t v d fresh = elim (Bool-cases (s.n_clients == max_clients)) [
    | inl e ↦ rw e (v, d, λ fd. refl)
    | inr e ↦
        let room : s.n_clients < max_clients = ground (arith, e, v.fits) in
        rw e (elim (Bool-cases (eqb_ℤ (to_fd os s join t) minus_one)) [
          | inl f ↦ rw f tt
          | inr f ↦ rw f (elim (Bool-cases (eqb_ℤ (from_fd os s join t) minus_one)) [
            | inl g ↦ rw g tt
            | inr g ↦
                let c = new_client join (to_fd os s join t) (from_fd os s join t) in
                let grown = clients-push_client s c v room in
                rw g (
                  push_client-IsValid s c v room,
                  subst (λ cs. AllDiffer (fds cs)) (sym grown)
                      (AllDiffer-append (clients s) c d (fresh t join.to_client_fname write_only)),
                  λ fd.
                      received-append fd (t ++ opens_to os s join t ∷ [])
                        (opens_from os s join t ∷ [])
                      ∙ append-nil (received fd (t ++ opens_to os s join t ∷ []))
                      ∙ received-append fd t (opens_to os s join t ∷ [])
                      ∙ append-nil (received fd t),
                )
          ])
        ])
  ]

  module _ (writes : (v : Trace) (fd : ℤ) (m : Mesg) → pos 0 ≤ℤ (os v (write_mesg fd m)).ret) where
    server_handle_join-Told :
        (s : Server) (t : Trace)
        → IsValid s
        → AllDiffer (told_fds s)
        → ((v : Trace) (f : Bytes) (x : Access) → Has (os v (open_file f x)).ret (told_fds s) → ⊥)
        → Leaves (Told s t) (server_handle_join os s t)
    unfolding server_handle_join
    server_handle_join-Told s t v d fresh =
        let read = read_join s.join_fd in
        let got = os t read in
        let join = join_read got got.ret in
        let u = t ++ read ∷ [] in
        let quiet : (fd : ℤ) → received fd u ≡ received fd t =
          λ fd. received-append fd t (read ∷ []) ∙ append-nil (received fd t) in
        elim (Bool-cases (eqb_ℤ got.ret minus_one)) [
          | inl e ↦ rw e tt
          | inr e ↦ rw e (
              Leaves-bind (λ r w. Quiet s u r.0 w) (Told s t) (server_add_client os s join u)
                (λ added. server_broadcast os added.0 (joined_mesg join) >>= λ _.
                  pure (record added.0 { join_ready = false }))
                (server_add_client-Quiet s join u v d fresh)
                λ added w (v', d', h).
                  rw
                    (
                      server_broadcast-sends os added.0 (joined_mesg join) w
                          (λ x fd. writes x fd (joined_mesg join)),
                      ◌>>=◌,
                    )
                    (down-Told s t added.0 (w ++ sends (joined_mesg join) (clients added.0)) (
                      Quiet-sends s t added.0 w (joined_mesg join)
                        (v', d', λ fd. h fd ∙ quiet fd))))
        ]

    joins_if_asked :
        (asked : Bool) (s : Server) (t : Trace)
        → IsValid s
        → AllDiffer (told_fds s)
        → ((v : Trace) (f : Bytes) (x : Access) → Has (os v (open_file f x)).ret (told_fds s) → ⊥)
        → Leaves (Told s t) ((if asked then server_handle_join os s else pure s) t)
    joins_if_asked true s t v d fresh = server_handle_join-Told s t v d fresh
    joins_if_asked false s t v d fresh =
        (v, d, ([], λ fd before after. sym (append-nil (received fd t))))

    -- What `select` changes is no client's descriptor.
    server_check_sources-Quiet :
        (s : Server) (t : Trace)
        → IsValid s
        → AllDiffer (told_fds s)
        → Leaves
            (λ s' t'. Quiet s t s' t' × (told_fds s' ≡ told_fds s))
            (server_check_sources os s t)
    unfolding server_check_sources
    server_check_sources-Quiet s t v d =
        elim (Bool-cases (eqb_ℤ (os t (selects s)).ret minus_one)) [
          | inl e ↦ rw e tt
          | inr e ↦
              let ready = (os t (selects s)).ready in
              let (s', run, same, flag) = server_check_sources_flags os s t (eqb_ℤ-ne _ _ e) in
              let kept : told_fds s' ≡ told_fds s =
                ap fds same ∙ fds-mark_ready ready (clients s) in
              let valid : IsValid s' = rw run at (server_check_sources-Ends os s t v) in
              subst (Leaves (λ s'' t'. Quiet s t s'' t' × (told_fds s'' ≡ told_fds s))) (sym run) (
                (
                  valid,
                  subst AllDiffer (sym kept) d,
                  λ fd. received-append fd t (selects s ∷ []) ∙ append-nil (received fd t),
                ),
                kept,
              )
        ]

    Quiet-Told :
        (s : Server) (t : Trace) (s1 : Server) (t1 : Trace) (r : Result Server)
        → Quiet s t s1 t1
        → told_fds s1 ≡ told_fds s
        → Leaves (Told s1 t1) r
        → Leaves (Told s t) r
    Quiet-Told s t s1 t1 (ok s2 t2) (v1, d1, q) same (v, d, (ms, h)) = (
      v,
      d,
      (
        ms,
        λ fd before after. h fd (subst (Has fd) (sym same) before) after ∙ ap (λ l. l ++ ms) (q fd),
      ),
    )
    Quiet-Told s t s1 t1 (exits t2) q same h = tt
    Quiet-Told s t s1 t1 stuck q same h = tt

    main_round-Told :
        (s : Server) (t : Trace)
        → IsValid s
        → AllDiffer (told_fds s)
        → ((v : Trace) (f : Bytes) (x : Access) → Has (os v (open_file f x)).ret (told_fds s) → ⊥)
        → Leaves (Told s t) (main_round os s t)
    unfolding main_round
    main_round-Told s t v d fresh =
        let joins =
          λ (c : Server). if server_join_ready c then server_handle_join os c else pure c in
        let serves = λ (j : Server). handle_clients os (j.n_clients + 1) 0 j in
        Leaves-bind (λ s' t'. Quiet s t s' t' × (told_fds s' ≡ told_fds s)) (Told s t)
          (server_check_sources os s t) (λ c. joins c >>= serves)
          (server_check_sources-Quiet s t v d)
          λ c u (q, same). Quiet-Told s t c u ((joins c >>= serves) u) q same (
            Leaves-bind (Told c u) (Told c u) (joins c u) serves
              (joins_if_asked (server_join_ready c) c u q.0 q.1
                (λ w f x k. fresh w f x (subst (Has (os w (open_file f x)).ret) same k)))
              λ j w k.
                Told-Delivered c u j w (serves j w) k
                  (handle_clients-Delivered os writes (j.n_clients + 1) 0 j w k.0 k.1))

    -- Over a round of the main loop, any two clients that are there before and after it have got exactly
    -- the same messages in the same order, announcements included, whoever joins or leaves in between:
    -- if no write fails, no two clients share a descriptor, and `open` returns none that a client has.
    pub main_round_same_order :
        (s s' : Server) (t t' : Trace) (a b : ℤ)
        → IsValid s
        → AllDiffer (fds (clients s))
        → ((v : Trace) (f : Bytes) (x : Access)
            → Has (os v (open_file f x)).ret (fds (clients s))
            → ⊥)
        → main_round os s t ≡ ok s' t'
        → Has a (fds (clients s))
        → Has a (fds (clients s'))
        → Has b (fds (clients s))
        → Has b (fds (clients s'))
        → (ms : List Mesg) × (received a t' ≡ received a t ++ ms)
          × (received b t' ≡ received b t ++ ms)
    main_round_same_order s s' t t' a b v d fresh e ha ha' hb hb' =
        let (v', d', (ms, h)) = rw e at (main_round-Told s t v d fresh) in
        (ms, h a ha ha', h b hb hb')
