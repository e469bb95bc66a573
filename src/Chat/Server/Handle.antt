-- ===== src/Chat/Server/Handle.antt =====
-- server.c: what a request to join, a message from a client and a look at the sources come to.
use completed_projects.Common.{
  ℕ, zero, suc, ◌<◌, ℤ, pos, minus_one, ◌≤ℤ◌, eqb_ℤ_ne, true, false, Bool, ◌≡◌, ◌≢◌, refl, ap, ◌∙◌,
  List, [], ◌∷◌, ◌++◌, map, take, set, get_or, erase_idx, append_assoc, arith, if◌then◌else◌,
}
use completed_projects.Chat.Blather.{max_clients, bl_departed, Join, Client, Server, zero_client}
use completed_projects.Chat.Os.{
  Os, Trace, select, read_join, read_mesg, write_mesg, ok, join_read, mesg_read, ◌>>=◌,
}
use completed_projects.Chat.Server.Clients.{
  IsValid, clients-drop_client, clients-push_client, server_add_client_opens,
  server_add_client_full, opens_to, opens_from, to_fd, from_fd, server_remove_client_goes, lets_go,
  removal,
}
use completed_projects.Chat.Server.Broadcast.{sends, server_broadcast-sends}
use completed_projects.Chat.Server.{
  clients, server_get_client, push_client, drop_client, new_client, joined_mesg, server_handle_join,
  selects, suc_ℤ, max_fd, mark_ready, mark_clients, server_check_sources, act_on, clear_ready,
  server_handle_client,
}

pub map-mark_clients :
    (ready : ℤ → Bool) (n : ℕ) (a : List Client)
    → take n (mark_clients ready n a) ≡ map (mark_ready ready) (take n a)
unfolding mark_clients
map-mark_clients ready zero a = refl
map-mark_clients ready (suc n) [] = refl
map-mark_clients ready (suc n) (c ∷ cs) =
    ap (◌∷◌ (mark_ready ready c)) (map-mark_clients ready n cs)

-- After `select`, exactly the clients whose descriptors are ready have been flagged anew, and every
-- other flag is as it was.
pub server_check_sources_flags :
    (os : Os) (s : Server) (t : Trace)
    → (os t (selects s)).ret ≢ minus_one
    → let ready = (os t (selects s)).ready in
      (s' : Server) × (server_check_sources os s t ≡ ok s' (t ++ selects s ∷ []))
      × (clients s' ≡ map (mark_ready ready) (clients s))
      × (s'.join_ready ≡ (if ready s.join_fd then true else s.join_ready))
unfolding server_check_sources
server_check_sources_flags os s t h =
    let ready = (os t (selects s)).ready in
    (
      record s {
        join_ready = if ready s.join_fd then true else s.join_ready;
        client = mark_clients ready s.n_clients s.client;
      },
      rw (eqb_ℤ_ne h),
      map-mark_clients ready s.n_clients s.client,
      refl,
    )

-- Every entry of the list has a descriptor below the bound.
abbrev pub Below : ℤ → List Client → Type 0
Below m [] = Unit {0}
Below m (c ∷ cs) = (c.to_server_fd ≤ℤ m) × Below m cs

max_fd_grows : (m : ℤ) (cs : List Client) → m ≤ℤ max_fd m cs
unfolding max_fd
max_fd_grows m [] = omega arith
max_fd_grows m (c ∷ cs) = ground (arith, max_fd_grows m cs, max_fd_grows c.to_server_fd cs)

max_fd-Below : (m : ℤ) (cs : List Client) → Below (max_fd m cs) cs
unfolding max_fd
max_fd-Below m [] = tt
max_fd-Below m (c ∷ cs) = ground (
  arith,
  max_fd-Below m cs,
  max_fd-Below c.to_server_fd cs,
  max_fd_grows m cs,
  max_fd_grows c.to_server_fd cs,
)

-- The first argument of `select` is one more than a number that no watched descriptor exceeds.
pub selects-Below :
    (s : Server)
    → (m : ℤ) × (selects s ≡ select (suc_ℤ m) (s.join_fd ∷ map (λ c. c.to_server_fd) (clients s)))
      × (s.join_fd ≤ℤ m)
      × Below m (clients s)
selects-Below s = (
  max_fd s.join_fd (clients s),
  refl,
  max_fd_grows s.join_fd (clients s),
  max_fd-Below s.join_fd (clients s),
)

module _ (os : Os) (s : Server) (t : Trace) where
  -- The request that a read from the join pipe delivers.
  abbrev pub requested : Join
  requested = let got = os t (read_join s.join_fd) in join_read got got.ret

  abbrev after_read : Trace
  after_read = t ++ read_join s.join_fd ∷ []

  -- A join that finds room: the newcomer is the last client, and everybody, the newcomer too, is told.
  pub server_handle_join-adds :
      IsValid s
      → s.n_clients < max_clients
      → (os t (read_join s.join_fd)).ret ≢ minus_one
      → to_fd os s requested after_read ≢ minus_one
      → from_fd os s requested after_read ≢ minus_one
      → ((u : Trace) (fd : ℤ) → pos 0 ≤ℤ (os u (write_mesg fd (joined_mesg requested))).ret)
      → let a = to_fd os s requested after_read in
        let b = from_fd os s requested after_read in
        let everybody = clients s ++ new_client requested a b ∷ [] in
        (s' : Server) × (server_handle_join os s t
          ≡ ok s' (
              t
              ++ (read_join s.join_fd
                  ∷ opens_to os s requested after_read
                  ∷ opens_from os s requested after_read
                  ∷ sends (joined_mesg requested) everybody)))
        × (clients s' ≡ everybody)
        × (s'.join_ready ≡ false)
  unfolding server_handle_join
  server_handle_join-adds v room r p q w =
      let a = to_fd os s requested after_read in
      let b = from_fd os s requested after_read in
      let s' = push_client s (new_client requested a b) in
      (
        record s' { join_ready = false },
        rw (eqb_ℤ_ne r, server_add_client_opens os s requested after_read room p q, ◌>>=◌)
            (rw (server_broadcast-sends os s' (joined_mesg requested) _ w, ◌>>=◌)
              (ap (ok (record s' { join_ready = false }))
                (simp (append_assoc, clients-push_client s (new_client requested a b) v room)))),
        clients-push_client s (new_client requested a b) v room,
        refl,
      )

  -- A join that finds the server full: nobody is added, and still every client is told that the name
  -- has joined.
  pub server_handle_join-full :
      s.n_clients ≡ max_clients
      → (os t (read_join s.join_fd)).ret ≢ minus_one
      → ((u : Trace) (fd : ℤ) → pos 0 ≤ℤ (os u (write_mesg fd (joined_mesg requested))).ret)
      → server_handle_join os s t
        ≡ ok
            (record s { join_ready = false })
            (t ++ (read_join s.join_fd ∷ sends (joined_mesg requested) (clients s)))
  unfolding server_handle_join
  server_handle_join-full full r w =
      rw (eqb_ℤ_ne r, server_add_client_full os s requested after_read full, ◌>>=◌)
        (rw (server_broadcast-sends os s (joined_mesg requested) _ w, ◌>>=◌)
          (ap (ok (record s { join_ready = false })) (simp append_assoc)))

-- The flag of one entry, cleared.
abbrev pub clear_at : List Client → ℕ → List Client
clear_at l i = set l i (record (get_or l i zero_client) { data_ready = false })

take-clear_at : (n i : ℕ) (a : List Client) → take n (clear_at a i) ≡ clear_at (take n a) i
take-clear_at zero i a = refl
take-clear_at (suc n) i [] = refl
take-clear_at (suc n) zero (x ∷ a) = refl
take-clear_at (suc n) (suc i) (x ∷ a) = ap (◌∷◌ x) (take-clear_at n i a)

pub clients-clear_ready :
    (s : Server) (idx : ℕ) → clients (clear_ready s idx) ≡ clear_at (clients s) idx
unfolding clear_ready
clients-clear_ready s idx = take-clear_at s.n_clients idx s.client

-- A client that says goodbye leaves the list, the others keep their order and are told; and the flag
-- that is cleared at the end is that of the client which moved into its slot.
pub server_handle_client-departs :
    (os : Os) (s : Server) (idx : ℕ) (t : Trace)
    → let c = server_get_client s idx in
      let got = os t (read_mesg c.to_server_fd) in
      IsValid s
      → idx < s.n_clients
      → got.ret ≢ minus_one
      → (mesg_read got got.ret).kind ≡ bl_departed
      → ((u : Trace) → lets_go os c u ≡ true)
      → ((u : Trace) (fd : ℤ) → pos 0 ≤ℤ (os u (write_mesg fd (mesg_read got got.ret))).ret)
      → (s' : Server) × (server_handle_client os s idx t
          ≡ ok s' (
              t
              ++ (read_mesg c.to_server_fd ∷ removal c)
              ++ sends (mesg_read got got.ret) (erase_idx (clients s) idx)))
        × (clients s' ≡ clear_at (erase_idx (clients s) idx) idx)
unfolding server_handle_client act_on
server_handle_client-departs os s idx t v inside r k o w =
    let c = server_get_client s idx in
    let got = os t (read_mesg c.to_server_fd) in
    let mesg = mesg_read got got.ret in
    let gone = drop_client s idx in
    let left = clients-drop_client s idx v inside in
    (
      clear_ready gone idx,
      rw
          (
            eqb_ℤ_ne r,
            k,
            act_on,
            server_remove_client_goes os s idx (t ++ read_mesg c.to_server_fd ∷ [])
                (o (t ++ read_mesg c.to_server_fd ∷ [])),
            ◌>>=◌,
          )
          (rw (server_broadcast-sends os gone mesg _ w, ◌>>=◌)
            (ap (ok (clear_ready gone idx)) (simp (append_assoc, left)))),
      clients-clear_ready gone idx ∙ ap (λ l. clear_at l idx) left,
    )
