-- ===== src/Chat/Room/Refinement.antt =====
-- server.c: each operation of the server is a step of the room.
pub mod Rounds
use completed_projects.Common.{
  ℕ, zero, suc, ◌+◌, ◌<◌, ◌≤◌, ℤ, pos, minus_one, ◌≤ℤ◌, eqb_ℤ, minus_one_cases, Bool-cases, inl,
  inr, some, get_elem?, List, [], ◌∷◌, ◌++◌, ◌≡◌, refl, sym, ap, subst, ◌∙◌, length, length-set,
  erase_idx, append_assoc, append-nil, arith,
}
use completed_projects.Chat.Blather.{
  Mesg, MesgKind, bl_mesg, bl_joined, bl_departed, bl_shutdown, bl_disconnected, bl_ping, unknown,
  Client, Server,
}
use completed_projects.Chat.Os.{
  Os, Trace, Result, ok, exits, stuck, pure, ◌>>=◌, read_mesg, write_mesg, mesg_read,
}
use completed_projects.Chat.Server.{
  clients, server_get_client, drop_client, server_remove_client, act_on, clear_ready,
  server_broadcast, server_handle_client,
}
use completed_projects.Chat.Server.Clients.{
  removal_cases, IsValid, clients-drop_client, drop_client-IsValid, removal,
}
use completed_projects.Chat.Server.Broadcast.{sends, server_broadcast_cases}
use completed_projects.Chat.Server.Handle.{clients-clear_ready}
use completed_projects.Chat.Server.Delivered.{Leaves, Leaves-bind}
use completed_projects.Chat.Room.{
  Room, Delivery, tell, Input, said, IsIgnored, Step, says, leaves, stays, says_nothing, Run, done,
  then, Run-trans,
}
use completed_projects.Chat.Room.Views.{
  member_of, room_of, room, deliveries, inputs, deliveries-append, inputs-append, inputs-sends,
  deliveries-sends, room_of-clear_at, room_of-erase_idx, room-server_get_client,
}

-- What the server has read and written between two states is a run of the room.
pub record Follows (os : Os) (s : Server) (t : Trace) (s' : Server) (t' : Trace) : Type 0 where
  pub valid : IsValid s'
  pub ins : List Input
  pub out : List Delivery
  pub run : Run (room s) ins (room s') out
  pub reads : inputs os [] t' ≡ inputs os [] t ++ ins
  pub writes : deliveries t' ≡ deliveries t ++ out

module _ (os : Os) where
  pub Follows-trans :
      (s : Server) (t : Trace) (s1 : Server) (t1 : Trace) (s2 : Server) (t2 : Trace)
      → Follows os s t s1 t1
      → Follows os s1 t1 s2 t2
      → Follows os s t s2 t2
  Follows-trans s t s1 t1 s2 t2 f g = record {
    valid = g.valid;
    ins = f.ins ++ g.ins;
    out = f.out ++ g.out;
    run = Run-trans f.run g.run;
    reads = g.reads ∙ ap (λ l. l ++ g.ins) f.reads ∙ append_assoc (inputs os [] t) f.ins g.ins;
    writes = g.writes ∙ ap (λ l. l ++ g.out) f.writes ∙ append_assoc (deliveries t) f.out g.out;
  }

  -- Calls that read and write nothing of the room, and leave it as it is.
  pub quiet-Follows :
      (s : Server) (t : Trace) (s1 : Server) (t1 : Trace)
      → IsValid s1
      → room s1 ≡ room s
      → inputs os [] t1 ≡ inputs os [] t
      → deliveries t1 ≡ deliveries t
      → Follows os s t s1 t1
  quiet-Follows s t s1 t1 v same i d = record {
    valid = v;
    ins = [];
    out = [];
    run = subst (λ r. Run (room s) [] r []) (sym same) done;
    reads = i ∙ sym (append-nil (inputs os [] t));
    writes = d ∙ sym (append-nil (deliveries t));
  }

  -- One step, whose output is out already.
  pub Step-Follows :
      (s : Server) (t : Trace) (s1 : Server) (t1 : Trace) (ins : List Input) (out : List Delivery)
      → IsValid s1
      → Step (room s) ins (room s1) out
      → inputs os [] t1 ≡ inputs os [] t ++ ins
      → deliveries t1 ≡ deliveries t ++ out
      → Follows os s t s1 t1
  Step-Follows s t s1 t1 ins out v st i d = record {
    valid = v;
    ins = ins;
    out = out;
    run = then done st;
    reads = i;
    writes = d;
  }

  -- One step, whose message is told to everybody at the end.
  pub told-Follows :
      (s : Server) (t : Trace) (s1 : Server) (t1 : Trace) (ins : List Input) (m : Mesg)
      → IsValid s1
      → Step (room s) ins (room s1) (tell m (room s1))
      → inputs os [] t1 ≡ inputs os [] t ++ ins
      → deliveries t1 ≡ deliveries t
      → Follows os s t s1 (t1 ++ sends m (clients s1))
  told-Follows s t s1 t1 ins m v st i d =
      Step-Follows s t s1 (t1 ++ sends m (clients s1)) ins (tell m (room s1)) v st
        (inputs-append os [] t1 (sends m (clients s1))
          ∙ ap (◌++◌ (inputs os [] t1)) (inputs-sends os t1 m (clients s1))
          ∙ append-nil (inputs os [] t1)
          ∙ i)
        (deliveries-append t1 (sends m (clients s1))
          ∙ ap (◌++◌ (deliveries t1)) (deliveries-sends m (clients s1))
          ∙ ap (λ l. l ++ tell m (room s1)) d)

  pub clear_ready-Follows :
      (s : Server) (t : Trace) (s1 : Server) (t1 : Trace) (idx : ℕ)
      → Follows os s t s1 t1
      → Follows os s t (clear_ready s1 idx) t1
  unfolding clear_ready
  clear_ready-Follows s t s1 t1 idx f =
      let same : room (clear_ready s1 idx) ≡ room s1 =
        ap room_of (clients-clear_ready s1 idx) ∙ room_of-clear_at (clients s1) idx in
      record {
        valid = record { slots = length-set s1.client idx _ ∙ f.valid.slots; fits = f.valid.fits };
        ins = f.ins;
        out = f.out;
        run = subst (λ r. Run (room s) f.ins r f.out) (sym same) f.run;
        reads = f.reads;
        writes = f.writes;
      }

  -- A state that shows the same room.
  pub same-Follows :
      (s : Server) (t : Trace) (s1 s2 : Server) (t1 : Trace)
      → IsValid s2
      → room s2 ≡ room s1
      → Follows os s t s1 t1
      → Follows os s t s2 t1
  same-Follows s t s1 s2 t1 v same f = record {
    valid = v;
    ins = f.ins;
    out = f.out;
    run = subst (λ r. Run (room s) f.ins r f.out) (sym same) f.run;
    reads = f.reads;
    writes = f.writes;
  }

  module _
      (writes : (u : Trace) (fd : ℤ) (m : Mesg) → minus_one ≤ℤ (os u (write_mesg fd m)).ret) where
    -- A broadcast that completes a step, and what follows it.
    pub broadcast-Follows :
        (s : Server) (t : Trace) (s1 : Server) (t1 : Trace) (ins : List Input) (m : Mesg)
        (s2 : Server)
        → IsValid s1
        → Step (room s) ins (room s1) (tell m (room s1))
        → inputs os [] t1 ≡ inputs os [] t ++ ins
        → deliveries t1 ≡ deliveries t
        → IsValid s2
        → room s2 ≡ room s1
        → Leaves (Follows os s t) ((server_broadcast os s1 m >>= λ _. pure s2) t1)
    broadcast-Follows s t s1 t1 ins m s2 v st i d v2 same =
        elim (server_broadcast_cases os s1 m t1 (λ u fd. writes u fd m)) [
          | inr (u, e) ↦ rw (◌>>=◌, e) tt
          | inl e ↦
              rw (◌>>=◌, e)
                (same-Follows s t s1 s2 (t1 ++ sends m (clients s1)) v2 same
                  (told-Follows s t s1 t1 ins m v st i d))
        ]

    module _ (s : Server) (idx : ℕ) (m : Mesg) (t u : Trace) (v : IsValid s)
        (inside : idx < s.n_clients) where
      abbrev speaker : Client
      speaker = server_get_client s idx

      there : get_elem? (room s) idx ≡ some (member_of speaker)
      there = room-server_get_client s idx inside (omega (arith, v.fits, v.slots))

      departs-Follows :
          m.kind ≡ bl_departed
          → inputs os [] u ≡ inputs os [] t ++ said speaker.to_server_fd m ∷ []
          → deliveries u ≡ deliveries t
          → Leaves (Follows os s t) (act_on os s idx m bl_departed u)
      unfolding act_on
      departs-Follows k i d =
          let ins = said speaker.to_server_fd m ∷ [] in
          let w = u ++ removal speaker in
          let gone = drop_client s idx in
          let left : room gone ≡ erase_idx (room s) idx =
            ap room_of (clients-drop_client s idx v inside) ∙ room_of-erase_idx (clients s) idx in
          let reads : inputs os [] w ≡ inputs os [] t ++ ins =
            inputs-append os [] u (removal speaker) ∙ append-nil (inputs os [] u) ∙ i in
          let tells : deliveries w ≡ deliveries t =
            deliveries-append u (removal speaker) ∙ append-nil (deliveries u) ∙ d in
          let goes : Step (room s) ins (room gone) (tell m (room gone)) =
            subst (λ r. Step (room s) ins r (tell m r)) (sym left)
              (leaves idx (member_of speaker) m there k) in
          elim (removal_cases os s idx u) [
            | inl e ↦
                rw (◌>>=◌, e)
                  (broadcast-Follows s t gone w ins m gone (drop_client-IsValid s idx v) goes reads
                    tells (drop_client-IsValid s idx v) refl)
            | inr e ↦
                rw (◌>>=◌, e)
                  (broadcast-Follows s t s w ins m s v (stays idx (member_of speaker) m there k)
                    reads tells v refl)
          ]

      ignored-Follows :
          (kind : MesgKind)
          → m.kind ≡ kind
          → IsIgnored kind
          → inputs os [] u ≡ inputs os [] t ++ said speaker.to_server_fd m ∷ []
          → deliveries u ≡ deliveries t
          → Follows os s t s u
      ignored-Follows kind k h i d =
          Step-Follows s t s u (said speaker.to_server_fd m ∷ []) [] v
            (says_nothing idx (member_of speaker) m there (subst IsIgnored (sym k) h)) i
            (d ∙ sym (append-nil (deliveries t)))

      act_on-Follows :
          (kind : MesgKind)
          → m.kind ≡ kind
          → inputs os [] u ≡ inputs os [] t ++ said speaker.to_server_fd m ∷ []
          → deliveries u ≡ deliveries t
          → Leaves (Follows os s t) (act_on os s idx m kind u)
      unfolding act_on
      act_on-Follows bl_mesg k i d =
          broadcast-Follows s t s u (said speaker.to_server_fd m ∷ []) m s v
            (says idx (member_of speaker) m there k) i d v refl
      act_on-Follows bl_departed k i d = departs-Follows k i d
      act_on-Follows bl_joined k i d = ignored-Follows bl_joined k tt i d
      act_on-Follows bl_shutdown k i d = ignored-Follows bl_shutdown k tt i d
      act_on-Follows bl_disconnected k i d = ignored-Follows bl_disconnected k tt i d
      act_on-Follows bl_ping k i d = ignored-Follows bl_ping k tt i d
      act_on-Follows (unknown n) k i d = ignored-Follows (unknown n) k tt i d

    pub server_handle_client-Follows :
        (s : Server) (idx : ℕ) (t : Trace)
        → IsValid s
        → idx < s.n_clients
        → Leaves (Follows os s t) (server_handle_client os s idx t)
    unfolding server_handle_client
    server_handle_client-Follows s idx t v inside =
        let read = read_mesg (server_get_client s idx).to_server_fd in
        let got = os t read in
        let m = mesg_read got got.ret in
        let u = t ++ read ∷ [] in
        elim (Bool-cases (eqb_ℤ got.ret minus_one)) [
          | inl e ↦ rw e tt
          | inr e ↦ rw e (
              Leaves-bind (Follows os s t) (Follows os s t) (act_on os s idx m m.kind u)
                (λ a. pure (clear_ready a idx))
                (act_on-Follows s idx m t u v inside m.kind refl (inputs-append os [] t (read ∷ []))
                  (deliveries-append t (read ∷ []) ∙ append-nil (deliveries t)))
                λ a w k. clear_ready-Follows s t a w idx k)
        ]
