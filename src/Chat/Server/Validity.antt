-- ===== src/Chat/Server/Validity.antt =====
-- server.c and bl-server.c: what every operation, every round of the main loop and so every run of
-- the server keeps, whatever the operating system answers.
use completed_projects.Common.{
  ℕ, zero, suc, ◌+◌, ◌≤◌, ◌<◌, ℤ, minus_one, eqb_ℤ, Bool, false, Bool-cases, inl, inr, ◌≡◌, refl,
  ap, ◌∙◌, List, [], ◌∷◌, ◌++◌, length, ltb, ltb→lt, length-set, arith, if◌then◌else◌, ◌==◌,
}
use completed_projects.Chat.Blather.{
  max_clients, Mesg, MesgKind, bl_mesg, bl_departed, Join, Client, Server,
}
use completed_projects.Chat.Os.{
  Os, Trace, write_mesg, read_mesg, read_join, open_file, read_only, write_only, pure, join_read,
  mesg_read,
}
use completed_projects.Chat.Ends.{Ends, Ends-bind, Ends-weaken, Ends-if, Anything}
use completed_projects.Chat.Server.Clients.{
  IsValid, drop_client-IsValid, drop_client-shrinks, push_client-IsValid, server_remove_client_lem,
  lets_go,
}
use completed_projects.Chat.Server.{
  clients, server_get_client, server_add_client, server_remove_client, write_all, broadcast_each,
  server_broadcast, new_client, joined_mesg, server_check_sources, selects, mark_clients,
  server_join_ready, server_handle_join, server_client_ready, act_on, clear_ready,
  server_handle_client, handle_clients, main_round,
}

-- The array is intact, and no client was added.
pub record Kept (n : ℕ) (s : Server) : Type 0 where
  pub valid : IsValid s
  pub shrunk : s.n_clients ≤ n

broadcast_each-Ends :
    (os : Os) (mesg : Mesg) (cs : List Client) (t : Trace)
    → Ends Anything (broadcast_each os mesg cs t)
unfolding broadcast_each
broadcast_each-Ends os mesg [] t = tt
broadcast_each-Ends os mesg (c ∷ cs) t =
    ground (arith, broadcast_each-Ends os mesg cs (t ++ write_mesg c.to_client_fd mesg ∷ []))

server_broadcast-Ends :
    (os : Os) (s : Server) (mesg : Mesg) (t : Trace) → Ends Anything (server_broadcast os s mesg t)
unfolding server_broadcast
server_broadcast-Ends os s mesg t = broadcast_each-Ends os mesg (clients s) t

pub write_all-Ends :
    (os : Os) (mesg : Mesg) (cs : List Client) (t : Trace) → Ends Anything (write_all os mesg cs t)
unfolding write_all
write_all-Ends os mesg [] t = tt
write_all-Ends os mesg (c ∷ cs) t =
    ground (arith, write_all-Ends os mesg cs (t ++ write_mesg c.to_client_fd mesg ∷ []))

pub server_remove_client-Ends :
    (os : Os) (s : Server) (idx : ℕ) (t : Trace)
    → IsValid s
    → Ends (λ r. Kept s.n_clients r.0) (server_remove_client os s idx t)
server_remove_client-Ends os s idx t v =
    rw (server_remove_client_lem os s idx t)
      (elim (Bool-cases (lets_go os (server_get_client s idx) t)) [
        | inl e ↦
            rw e
              (record { valid = drop_client-IsValid s idx v; shrunk = drop_client-shrinks s idx })
        | inr e ↦ rw e (record { valid = v; shrunk = omega arith })
      ])

server_add_client-Ends :
    (os : Os) (s : Server) (join : Join) (t : Trace)
    → IsValid s
    → Ends (λ r. IsValid r.0) (server_add_client os s join t)
unfolding server_add_client
server_add_client-Ends os s join t v = elim (Bool-cases (s.n_clients == max_clients)) [
  | inl e ↦ rw e v
  | inr e ↦ rw e (
      let opened = os t (open_file join.to_client_fname write_only) in
      let opened' =
        os (t ++ open_file join.to_client_fname write_only ∷ [])
          (open_file join.to_server_fname read_only) in
      ground
        (arith, push_client-IsValid s (new_client join opened.ret opened'.ret) v (ground arith)))
]

act_on-Ends :
    (os : Os) (s : Server) (idx : ℕ) (mesg : Mesg) (kind : MesgKind) (t : Trace)
    → IsValid s
    → Ends (Kept s.n_clients) (act_on os s idx mesg kind t)
unfolding act_on
act_on-Ends os s idx mesg bl_mesg t v =
    Ends-bind Anything (Kept s.n_clients) (server_broadcast os s mesg t) (λ _. pure s)
      (server_broadcast-Ends os s mesg t) λ a t' p. record { valid = v; shrunk = omega arith }
act_on-Ends os s idx mesg bl_departed t v =
    Ends-bind (λ r. Kept s.n_clients r.0) (Kept s.n_clients) (server_remove_client os s idx t) _
      (server_remove_client-Ends os s idx t v)
      λ r t' k.
        Ends-bind Anything (Kept s.n_clients) (server_broadcast os r.0 mesg t') (λ _. pure r.0)
          (server_broadcast-Ends os r.0 mesg t') λ a t'' p. k
act_on-Ends os s idx mesg _ t v = record { valid = v; shrunk = omega arith }

clear_ready-Kept : (n : ℕ) (s : Server) (idx : ℕ) → Kept n s → Kept n (clear_ready s idx)
unfolding clear_ready
clear_ready-Kept n s idx k = record {
  valid = record {
    slots =
        length-set s.client idx (record (server_get_client s idx) { data_ready = false })
        ∙ k.valid.slots;
    fits = k.valid.fits;
  };
  shrunk = k.shrunk;
}

server_handle_client-Ends :
    (os : Os) (s : Server) (idx : ℕ) (t : Trace)
    → IsValid s
    → Ends (Kept s.n_clients) (server_handle_client os s idx t)
unfolding server_handle_client
server_handle_client-Ends os s idx t v =
    let fd = (server_get_client s idx).to_server_fd in
    let got = os t (read_mesg fd) in
    let mesg = mesg_read got got.ret in
    elim (Bool-cases (eqb_ℤ got.ret minus_one)) [
      | inl e ↦ rw e tt
      | inr e ↦ rw e (
          Ends-bind (Kept s.n_clients) (Kept s.n_clients)
            (act_on os s idx mesg mesg.kind (t ++ read_mesg fd ∷ []))
            (λ a. pure (clear_ready a idx))
            (act_on-Ends os s idx mesg mesg.kind (t ++ read_mesg fd ∷ []) v)
            λ a t' k. clear_ready-Kept s.n_clients a idx k)
    ]

pub Kept-weaken : {m n : ℕ} {s : Server} → Kept m s → m ≤ n → Kept n s
Kept-weaken k h = record { valid = k.valid; shrunk = omega arith }

-- The loop over the clients ends: one round more than there are clients is enough.
handle_clients-Ends :
    (os : Os) (fuel i n : ℕ) (s : Server) (t : Trace)
    → Kept n s
    → i ≤ n
    → n < fuel + i
    → Ends (Kept n) (handle_clients os fuel i s t)
unfolding handle_clients
handle_clients-Ends os zero i n s t k l h = absurd (omega arith)
handle_clients-Ends os (suc fuel) i n s t k l h = elim (Bool-cases (ltb i s.n_clients)) [
  | inr e ↦ rw e k
  | inl e ↦ rw e (
      let below = ltb→lt i s.n_clients e in
      let next = λ (s' : Server) (t' : Trace) (k' : Kept n s').
        handle_clients-Ends os fuel (i + 1) n s' t' k' (omega arith) (omega arith) in
      elim (Bool-cases (server_client_ready s i)) [
        | inr f ↦ rw f (next s t k)
        | inl f ↦ rw f (
            Ends-bind (Kept s.n_clients) (Kept n) (server_handle_client os s i t)
              (λ s'. handle_clients os fuel (i + 1) s') (server_handle_client-Ends os s i t k.valid)
              λ s' t' k'. next s' t' (Kept-weaken k' k.shrunk))
      ])
]

pub length-mark_clients :
    (ready : ℤ → Bool) (n : ℕ) (a : List Client) → length (mark_clients ready n a) ≡ length a
unfolding mark_clients
length-mark_clients ready zero a = refl
length-mark_clients ready (suc n) [] = refl
length-mark_clients ready (suc n) (c ∷ cs) = ap suc (length-mark_clients ready n cs)

pub server_check_sources-Ends :
    (os : Os) (s : Server) (t : Trace) → IsValid s → Ends IsValid (server_check_sources os s t)
unfolding server_check_sources
server_check_sources-Ends os s t v =
    let got = os t (selects s) in
    elim (Bool-cases (eqb_ℤ got.ret minus_one)) [
      | inl e ↦ rw e tt
      | inr e ↦ rw e (record {
        slots = length-mark_clients got.ready s.n_clients s.client ∙ v.slots;
        fits = v.fits;
      })
    ]

server_handle_join-Ends :
    (os : Os) (s : Server) (t : Trace) → IsValid s → Ends IsValid (server_handle_join os s t)
unfolding server_handle_join
server_handle_join-Ends os s t v =
    let got = os t (read_join s.join_fd) in
    let join = join_read got got.ret in
    let t' = t ++ read_join s.join_fd ∷ [] in
    elim (Bool-cases (eqb_ℤ got.ret minus_one)) [
      | inl e ↦ rw e tt
      | inr e ↦ rw e (
          Ends-bind (λ r. IsValid r.0) IsValid (server_add_client os s join t') _
            (server_add_client-Ends os s join t' v)
            λ r u w.
              Ends-bind Anything IsValid (server_broadcast os r.0 (joined_mesg join) u)
                (λ _. pure (record r.0 { join_ready = false }))
                (server_broadcast-Ends os r.0 (joined_mesg join) u)
                λ a u' _. record { slots = w.slots; fits = w.fits })
    ]

-- A round of the main loop ends for every operating system, by `exit` or with an intact array.
pub main_round-Ends :
    (os : Os) (s : Server) (t : Trace) → IsValid s → Ends IsValid (main_round os s t)
unfolding main_round
main_round-Ends os s t v =
    Ends-bind IsValid IsValid (server_check_sources os s t) _ (server_check_sources-Ends os s t v)
      λ checked u w.
        Ends-bind IsValid IsValid
          ((if server_join_ready checked then server_handle_join os checked else pure checked) u) _
          (Ends-if IsValid (server_join_ready checked) (server_handle_join os checked)
            (pure checked) u (server_handle_join-Ends os checked u w) w)
          λ joined u' w'.
            let n = joined.n_clients in
            Ends-weaken (Kept n) IsValid (handle_clients os (n + 1) 0 joined u') (λ a k. k.valid)
              (handle_clients-Ends os (n + 1) 0 n joined u'
                (record { valid = w'; shrunk = omega arith }) (omega arith) (omega arith))
