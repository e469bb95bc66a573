-- ===== src/Chat/Room/Refinement/Rounds.antt =====
-- bl-server.c: the runs of the server are runs of the room, from the empty one on.
use completed_projects.Common.{
  ℕ, zero, suc, ◌+◌, ℤ, minus_one, ◌≤ℤ◌, eqb_ℤ, Bool, true, false, Bool-cases, inl, inr, [], ◌∷◌,
  ◌++◌, ◌≡◌, refl, sym, ap, subst, ◌∙◌, length, length-take, length-map, take-append-drop,
  append-nil, ltb, ltb→lt, if◌then◌else◌, arith,
}
use completed_projects.Common.CString.{Bytes, c_str, strncpy, c_str-strncpy}
use completed_projects.Chat.Blather.{
  max_path, max_name, Mesg, Join, Server, zero_server, zero_client, zero_mesg, copy_name,
}
use completed_projects.Chat.Os.{
  Os, Trace, Result, ok, exits, stuck, pure, ◌>>=◌, remove, mkfifo, open_file, read_only, read_join,
  join_read, write_mesg,
}
use completed_projects.Chat.Server.{
  clients, selects, push_client, new_client, joined_mesg, server_start, server_check_sources,
  server_join_ready, server_handle_join, server_client_ready, server_handle_client, handle_clients,
  main_round,
}
use completed_projects.Chat.Server.Clients.{
  IsValid, clients-push_client, push_client-IsValid, to_fd, from_fd, opens_to, opens_from,
}
use completed_projects.Chat.Server.Adding.{server_add_client_cases}
use completed_projects.Chat.Server.Handle.{server_check_sources_flags}
use completed_projects.Chat.Server.Validity.{server_check_sources-Ends}
use completed_projects.Chat.Server.Delivered.{Leaves, Leaves-bind}
use completed_projects.Chat.Server.Told.{eqb_ℤ-ne}
use completed_projects.Chat.Server.Runs.{Reaches, started, round, zero_server-IsValid}
use completed_projects.Chat.Room.{tell, asked, Announces, Enters, Step, joins, is_refused, Run}
use completed_projects.Chat.Room.Views.{
  member_of, room_of, room, deliveries, inputs, deliveries-append, inputs-append,
  room_of-mark_ready, room_of-append,
}
use completed_projects.Chat.Room.Refinement.{
  Follows, Follows-trans, quiet-Follows, broadcast-Follows, server_handle_client-Follows,
}

joined_mesg-Announces : (j : Join) → Announces j (joined_mesg j)
unfolding joined_mesg copy_name
joined_mesg-Announces j = record {
  kind = refl;
  names = λ h.
      let region = strncpy max_path (zero_mesg.name ++ zero_mesg.body) j.name in
      ap c_str (take-append-drop max_name region)
      ∙ c_str-strncpy max_path (zero_mesg.name ++ zero_mesg.body) j.name h;
}

new_client-Enters : (j : Join) (a b : ℤ) → Enters j (member_of (new_client j a b))
unfolding new_client
new_client-Enters j a b h = c_str-strncpy max_path zero_client.name j.name h

length-room : (s : Server) → IsValid s → length (room s) ≡ s.n_clients
length-room s v =
    length-map (clients s) member_of
    ∙ omega (arith, length-take s.n_clients s.client, v.slots, v.fits)

module _ (os : Os)
    (writes : (u : Trace) (fd : ℤ) (m : Mesg) → minus_one ≤ℤ (os u (write_mesg fd m)).ret) where
  server_handle_join-Follows :
      (s : Server) (t : Trace) → IsValid s → Leaves (Follows os s t) (server_handle_join os s t)
  unfolding server_handle_join
  server_handle_join-Follows s t v =
      let read = read_join s.join_fd in
      let got = os t read in
      let join = join_read got got.ret in
      let u = t ++ read ∷ [] in
      let m = joined_mesg join in
      let ins = asked join ∷ [] in
      let reads : inputs os [] u ≡ inputs os [] t ++ ins = inputs-append os [] t (read ∷ []) in
      let tells : deliveries u ≡ deliveries t =
        deliveries-append t (read ∷ []) ∙ append-nil (deliveries t) in
      let lowered = λ (x : Server). record x { join_ready = false } in
      elim (Bool-cases (eqb_ℤ got.ret minus_one)) [
        | inl e ↦ rw e tt
        | inr e ↦ elim (server_add_client_cases os s join u v) [
          | inl (full, f) ↦
              rw (e, ◌>>=◌, f)
                (broadcast-Follows os writes s t s u ins m (lowered s) v
                  (is_refused join m (joined_mesg-Announces join) (length-room s v ∙ full)) reads
                  tells (record { slots = v.slots; fits = v.fits }) refl)
          | inr (inl (w, f)) ↦ rw (e, ◌>>=◌, f) tt
          | inr (inr (free, f)) ↦
              let a = to_fd os s join u in
              let b = from_fd os s join u in
              let c = new_client join a b in
              let opens = opens_to os s join u ∷ opens_from os s join u ∷ [] in
              let grown = push_client s c in
              let v' = push_client-IsValid s c v free in
              let more : room grown ≡ room s ++ member_of c ∷ [] =
                ap room_of (clients-push_client s c v free) ∙ room_of-append (clients s) (c ∷ []) in
              let comes : Step (room s) ins (room grown) (tell m (room grown)) =
                subst (λ r. Step (room s) ins r (tell m r)) (sym more)
                  (joins join (member_of c) m (new_client-Enters join a b)
                    (joined_mesg-Announces join) (omega (arith, length-room s v, free))) in
              rw (e, ◌>>=◌, f)
                (broadcast-Follows os writes s t grown (u ++ opens) ins m (lowered grown) v' comes
                  (inputs-append os [] u opens ∙ append-nil (inputs os [] u) ∙ reads)
                  (deliveries-append u opens ∙ append-nil (deliveries u) ∙ tells)
                  (record { slots = v'.slots; fits = v'.fits }) refl)
        ]
      ]

  joins_if_asked-Follows :
      (asked : Bool) (s : Server) (t : Trace)
      → IsValid s
      → Leaves (Follows os s t) ((if asked then server_handle_join os s else pure s) t)
  joins_if_asked-Follows true s t v = server_handle_join-Follows s t v
  joins_if_asked-Follows false s t v = quiet-Follows os s t s t v refl refl refl

  server_check_sources-Follows :
      (s : Server) (t : Trace) → IsValid s → Leaves (Follows os s t) (server_check_sources os s t)
  unfolding server_check_sources
  server_check_sources-Follows s t v = elim (Bool-cases (eqb_ℤ (os t (selects s)).ret minus_one)) [
    | inl e ↦ rw e tt
    | inr e ↦
        let ready = (os t (selects s)).ready in
        let (s', run, same, flag) = server_check_sources_flags os s t (eqb_ℤ-ne _ _ e) in
        let valid : IsValid s' = rw run at (server_check_sources-Ends os s t v) in
        subst (Leaves (Follows os s t)) (sym run) (
          quiet-Follows os s t s' (t ++ selects s ∷ []) valid
            (ap room_of same ∙ room_of-mark_ready ready (clients s))
            (inputs-append os [] t (selects s ∷ []) ∙ append-nil (inputs os [] t))
            (deliveries-append t (selects s ∷ []) ∙ append-nil (deliveries t)))
  ]

  -- What a result follows, it follows from before as well.
  Leaves-Follows :
      (s : Server) (t : Trace) (s1 : Server) (t1 : Trace) (r : Result Server)
      → Follows os s t s1 t1
      → Leaves (Follows os s1 t1) r
      → Leaves (Follows os s t) r
  Leaves-Follows s t s1 t1 (ok s2 t2) f g = Follows-trans os s t s1 t1 s2 t2 f g
  Leaves-Follows s t s1 t1 (exits t2) f g = tt
  Leaves-Follows s t s1 t1 stuck f g = tt

  handle_clients-Follows :
      (fuel i : ℕ) (s : Server) (t : Trace)
      → IsValid s
      → Leaves (Follows os s t) (handle_clients os fuel i s t)
  unfolding handle_clients
  handle_clients-Follows zero i s t v = tt
  handle_clients-Follows (suc fuel) i s t v = elim (Bool-cases (ltb i s.n_clients)) [
    | inr e ↦ rw e (quiet-Follows os s t s t v refl refl refl)
    | inl e ↦ rw e (elim (Bool-cases (server_client_ready s i)) [
      | inr f ↦ rw f (handle_clients-Follows fuel (i + 1) s t v)
      | inl f ↦ rw f (
          Leaves-bind (Follows os s t) (Follows os s t) (server_handle_client os s i t)
            (λ s'. handle_clients os fuel (i + 1) s')
            (server_handle_client-Follows os writes s i t v (ltb→lt i s.n_clients e))
            λ s1 t1 k.
              Leaves-Follows s t s1 t1 (handle_clients os fuel (i + 1) s1 t1) k
                (handle_clients-Follows fuel (i + 1) s1 t1 k.valid))
    ])
  ]

  main_round-Follows :
      (s : Server) (t : Trace) → IsValid s → Leaves (Follows os s t) (main_round os s t)
  unfolding main_round
  main_round-Follows s t v =
      let joined =
        λ (c : Server). if server_join_ready c then server_handle_join os c else pure c in
      let serves = λ (j : Server). handle_clients os (j.n_clients + 1) 0 j in
      Leaves-bind (Follows os s t) (Follows os s t) (server_check_sources os s t)
        (λ c. joined c >>= serves) (server_check_sources-Follows s t v)
        λ c u f. Leaves-Follows s t c u ((joined c >>= serves) u) f (
          Leaves-bind (Follows os c u) (Follows os c u) (joined c u) serves
            (joins_if_asked-Follows (server_join_ready c) c u f.valid)
            λ j w g.
              Leaves-Follows c u j w (serves j w) g
                (handle_clients-Follows (j.n_clients + 1) 0 j w g.valid))

  server_start-Follows :
      (name : Bytes) → Leaves (Follows os zero_server []) (server_start os zero_server name [])
  unfolding server_start zero_server
  server_start-Follows name =
      let u = remove name ∷ [] in
      elim (Bool-cases (eqb_ℤ (os u (mkfifo name)).ret minus_one)) [
        | inl e ↦ rw e tt
        | inr e ↦ rw e (
            quiet-Follows os zero_server [] _ (u ++ mkfifo name ∷ open_file name read_only ∷ [])
              (record { slots = zero_server-IsValid.slots; fits = omega arith }) refl refl refl)
      ]

  Reaches-Follows :
      (name : Bytes) (s : Server) (t : Trace) → Reaches os name s t → Follows os zero_server [] s t
  Reaches-Follows name s t (started e) = rw e at (server_start-Follows name)
  Reaches-Follows name s t (round {s = s1} {t = t1} r e) =
      let before = Reaches-Follows name s1 t1 r in
      Follows-trans os zero_server [] s1 t1 s t before
        (rw e at (main_round-Follows s1 t1 before.valid))

  -- The server is a room: at the top of its main loop, however it got there and whatever the system
  -- answers, what it has read from its pipes and what it has written to its clients are what goes into
  -- and comes out of a run of the room from the empty one to the members that it has; if a write
  -- returns -1 or what it has written.
  pub Reaches-Run :
      (name : Bytes) (s : Server) (t : Trace)
      → Reaches os name s t
      → Run [] (inputs os [] t) (room s) (deliveries t)
  unfolding zero_server
  Reaches-Run name s t r =
      let f = Reaches-Follows name s t r in
      subst (λ i. Run [] i (room s) (deliveries t)) (sym f.reads)
        (subst (Run [] f.ins (room s)) (sym f.writes) f.run)
