-- ===== src/Chat/Server/Slots/Messages.antt =====
-- server.c: what a client says is handled the same whatever stands behind the clients.
use completed_projects.Common.{
  ℕ, ◌<◌, ℤ, pos, minus_one, eqb_ℤ, Bool, true, false, Bool-cases, inl, inr, ◌≡◌, refl, sym, subst,
  List, [], ◌∷◌, ◌++◌, if◌then◌else◌,
}
use completed_projects.Chat.Blather.{Mesg, MesgKind, bl_mesg, bl_departed, Client, Server}
use completed_projects.Chat.Os.{
  Os, Trace, Result, M, ok, exits, stuck, pure, ◌>>=◌, read_mesg, mesg_read,
}
use completed_projects.Chat.Server.{
  clients, server_get_client, drop_client, broadcast_each, server_broadcast, act_on, clear_ready,
  server_handle_client,
}
use completed_projects.Chat.Server.Clients.{lets_go, removal, server_remove_client_lem}
use completed_projects.Chat.Server.Slots.{
  with_slots, Holds, Mirrors, Mirrors-bind, slots-server_get_client, clear_ready-Holds,
  drop_client-Holds,
}

-- A broadcast whose result is thrown away: both servers make the same calls, or both exit.
thrown_away :
    (r : Result ℤ) (s : Server) (a : List Client)
    → Holds s a
    → Mirrors
        (elim r [ ok x t ↦ ok s t | exits t ↦ exits t | stuck ↦ stuck ])
        (elim r [ ok x t ↦ ok (with_slots s a) t | exits t ↦ exits t | stuck ↦ stuck ])
thrown_away (ok x t) s a h = (a, refl, h)
thrown_away (exits t) s a h = refl
thrown_away stuck s a h = refl

pub after-Mirrors :
    (os : Os) (s s' : Server) (a : List Client) (m : Mesg) (kept : Server) (t : Trace)
    → clients s' ≡ clients s
    → Holds kept a
    → Mirrors
        ((do _ ← server_broadcast os s m; pure kept) t)
        ((do _ ← server_broadcast os s' m; pure (with_slots kept a)) t)
unfolding server_broadcast
after-Mirrors os s s' a m kept t e h =
    subst
      (λ (cs : List Client).
        Mirrors ((broadcast_each os m (clients s) >>= (λ x. pure kept)) t)
          ((broadcast_each os m cs >>= (λ x. pure (with_slots kept a))) t))
      (sym e) (thrown_away (broadcast_each os m (clients s) t) kept a h)

module _ (os : Os) where
  -- What `act_on` does once a client has been removed, or not.
  abbrev told : Bool → Server → ℕ → Mesg → M Server
  told gone s idx m =
      let after : Server × ℤ = if gone then (drop_client s idx, pos 0) else (s, minus_one) in
      do _ ← server_broadcast os after.0 m; pure after.0

  act_on_departs :
      (s : Server) (idx : ℕ) (m : Mesg) (t : Trace) (c : Client)
      → server_get_client s idx ≡ c
      → act_on os s idx m bl_departed t ≡ told (lets_go os c t) s idx m (t ++ removal c)
  unfolding act_on
  act_on_departs s idx m t c e =
      subst (λ x. act_on os s idx m bl_departed t ≡ told (lets_go os x t) s idx m (t ++ removal x))
        e (rw (server_remove_client_lem os s idx t, ◌>>=◌) refl)

  removed-Mirrors :
      (gone : Bool) (s : Server) (a : List Client) (idx : ℕ) (m : Mesg) (t : Trace)
      → Holds s a
      → idx < s.n_clients
      → Mirrors (told gone s idx m t) (told gone (with_slots s a) idx m t)
  unfolding drop_client
  removed-Mirrors true s a idx m t h inside =
      let k = drop_client-Holds s a h idx inside in
      let other = drop_client (with_slots s a) idx in
      after-Mirrors os (drop_client s idx) other other.client m (drop_client s idx) t k.same k
  removed-Mirrors false s a idx m t h inside = after-Mirrors os s (with_slots s a) a m s t h.same h

  act_on-Mirrors :
      (s : Server) (a : List Client) (idx : ℕ) (m : Mesg) (kind : MesgKind) (t : Trace)
      → Holds s a
      → idx < s.n_clients
      → Mirrors (act_on os s idx m kind t) (act_on os (with_slots s a) idx m kind t)
  unfolding act_on
  act_on-Mirrors s a idx m bl_mesg t h inside = after-Mirrors os s (with_slots s a) a m s t h.same h
  act_on-Mirrors s a idx m bl_departed t h inside =
      let c = server_get_client s idx in
      let same = slots-server_get_client s a h idx inside in
      subst (Mirrors (act_on os s idx m bl_departed t))
        (sym (act_on_departs (with_slots s a) idx m t c same))
        (subst (λ r. Mirrors r (told (lets_go os c t) (with_slots s a) idx m (t ++ removal c)))
          (sym (act_on_departs s idx m t c refl))
          (removed-Mirrors (lets_go os c t) s a idx m (t ++ removal c) h inside))
  act_on-Mirrors s a idx m _ t h inside = (a, refl, h)

  cleared :
      (s : Server) (a : List Client) (t : Trace)
      → Holds s a
      → (idx : ℕ) → Mirrors (ok (clear_ready s idx) t) (ok (clear_ready (with_slots s a) idx) t)
  unfolding clear_ready
  cleared s a t h idx =
      ((clear_ready (with_slots s a) idx).client, refl, clear_ready-Holds s a h idx)

  pub server_handle_client-Mirrors :
      (s : Server) (a : List Client) (idx : ℕ) (t : Trace)
      → Holds s a
      → idx < s.n_clients
      → Mirrors (server_handle_client os s idx t) (server_handle_client os (with_slots s a) idx t)
  unfolding server_handle_client
  server_handle_client-Mirrors s a idx t h inside =
      let fd = (server_get_client s idx).to_server_fd in
      let got = os t (read_mesg fd) in
      let m = mesg_read got got.ret in
      let u = t ++ read_mesg fd ∷ [] in
      rw (slots-server_get_client s a h idx inside) (elim (Bool-cases (eqb_ℤ got.ret minus_one)) [
        | inl e ↦ rw e refl
        | inr e ↦ rw e (
            Mirrors-bind (act_on os s idx m m.kind u) (act_on os (with_slots s a) idx m m.kind u)
              (λ x. pure (clear_ready x idx)) (act_on-Mirrors s a idx m m.kind u h inside)
              λ s' a' t' h'. cleared s' a' t' h' idx)
      ])
