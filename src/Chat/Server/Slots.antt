-- ===== src/Chat/Server/Slots.antt =====
-- server.c and bl-server.c: two servers that differ only in the slots behind the populated ones, where
-- removed clients and old copies of others stand.
pub mod Messages
pub mod Rounds
use completed_projects.Common.{
  ℕ, zero, suc, ◌+◌, ◌-◌, ◌≤◌, ◌<◌, ℤ, pos, minus_one, eqb_ℤ, Bool, true, false, Bool-cases, inl,
  inr, ◌≡◌, refl, sym, ap, subst, ◌∙◌, List, [], ◌∷◌, ◌++◌, take, set, get_or, erase_idx, length,
  length-set, take-set, take-set_past, arith, ltb, ltb→lt, if◌then◌else◌, ◌==◌,
}
use completed_projects.Chat.Blather.{
  max_clients, Mesg, MesgKind, bl_mesg, bl_departed, Join, Client, Server, zero_client,
}
use completed_projects.Chat.Os.{
  Os, Trace, Result, M, ok, exits, stuck, pure, ◌>>=◌, read_mesg, mesg_read, read_join, join_read,
}
use completed_projects.Chat.Server.{
  clients, selects, server_get_client, new_client, push_client, drop_client, server_add_client,
  server_remove_client, server_broadcast, joined_mesg, server_check_sources, server_join_ready,
  server_handle_join, server_client_ready, act_on, clear_ready, server_handle_client,
  handle_clients, main_round,
}
use completed_projects.Chat.Server.Clients.{
  clients-drop_client, clients-push_client, drop_client-IsValid, push_client-IsValid, IsValid,
  lets_go, removal, server_remove_client_lem,
}

-- The same server with other slots.
abbrev pub with_slots : Server → List Client → Server
with_slots s a = record s { client = a }

-- The slots hold the clients of the server.
pub record Holds (s : Server) (a : List Client) : Type 0 where
  pub valid : IsValid s
  pub slots : length a ≡ length s.client
  pub same : take s.n_clients a ≡ clients s

-- The second result is the first but for the slots behind the clients.
abbrev pub Mirrors : Result Server → Result Server → Type 0
Mirrors (ok s t) r = (a : List Client) × (r ≡ ok (with_slots s a) t) × Holds s a
Mirrors (exits t) r = r ≡ exits t
Mirrors stuck r = r ≡ stuck

pub Mirrors-bind :
    (r r' : Result Server) (f : Server → M Server)
    → Mirrors r r'
    → ((s : Server) (a : List Client) (t : Trace)
        → Holds s a
        → Mirrors (f s t) (f (with_slots s a) t))
    → Mirrors
        (elim r [ ok s t ↦ f s t | exits t ↦ exits t | stuck ↦ stuck ])
        (elim r' [ ok s t ↦ f s t | exits t ↦ exits t | stuck ↦ stuck ])
Mirrors-bind (ok s t) r' f (a, e, h) k = rw e (k s a t h)
Mirrors-bind (exits t) r' f e k = rw e refl
Mirrors-bind stuck r' f e k = rw e refl

get_or-take :
    (idx n : ℕ) (a : List Client)
    → idx < n
    → get_or (take n a) idx zero_client ≡ get_or a idx zero_client
get_or-take idx zero a h = elim h [ ]
get_or-take idx (suc n) [] h = refl
get_or-take zero (suc n) (c ∷ cs) h = refl
get_or-take (suc idx) (suc n) (c ∷ cs) h = get_or-take idx n cs (omega arith)

take-set_inside :
    (n idx : ℕ) (a : List Client) (c : Client)
    → idx < n
    → take n (set a idx c) ≡ set (take n a) idx c
take-set_inside zero idx a c h = elim h [ ]
take-set_inside (suc n) idx [] c h = refl
take-set_inside (suc n) zero (d ∷ a) c h = refl
take-set_inside (suc n) (suc idx) (d ∷ a) c h = ap (◌∷◌ d) (take-set_inside n idx a c (omega arith))

set-inside :
    (n idx : ℕ) (a b : List Client) (c d : Client)
    → take n a ≡ take n b
    → (idx < n → c ≡ d)
    → take n (set a idx c) ≡ take n (set b idx d)
set-inside n idx a b c d e h = elim (Bool-cases (ltb idx n)) [
  | inl k ↦
      let below = ltb→lt idx n k in
      take-set_inside n idx a c below ∙ (rw (e, h below) (sym (take-set_inside n idx b d below)))
  | inr k ↦
      let past : n ≤ idx = ground (arith, k) in
      take-set_past n idx a c past ∙ e ∙ sym (take-set_past n idx b d past)
]

module _ (s : Server) (a : List Client) (h : Holds s a) where
  pub slots-server_get_client :
      (idx : ℕ)
      → idx < s.n_clients
      → server_get_client (with_slots s a) idx ≡ server_get_client s idx
  slots-server_get_client idx inside =
      sym (get_or-take idx s.n_clients a inside)
      ∙ ap (λ cs. get_or cs idx zero_client) h.same
      ∙ get_or-take idx s.n_clients s.client inside

  with_slots-IsValid : IsValid (with_slots s a)
  with_slots-IsValid = record { slots = h.slots ∙ h.valid.slots; fits = h.valid.fits }

  pub clear_ready-Holds :
      (idx : ℕ) → Holds (clear_ready s idx) ((clear_ready (with_slots s a) idx).client)
  unfolding clear_ready
  clear_ready-Holds idx =
      let cleared = λ (c : Client). record c { data_ready = false } in
      record {
        valid = record {
          slots = length-set s.client idx (cleared (server_get_client s idx)) ∙ h.valid.slots;
          fits = h.valid.fits;
        };
        slots =
            length-set a idx (cleared (server_get_client (with_slots s a) idx))
            ∙ h.slots
            ∙ sym (length-set s.client idx (cleared (server_get_client s idx)));
        same =
            set-inside s.n_clients idx a s.client _ _ h.same
              (λ inside. ap cleared (slots-server_get_client idx inside));
      }

  pub drop_client-Holds :
      (idx : ℕ)
      → idx < s.n_clients
      → Holds (drop_client s idx) ((drop_client (with_slots s a) idx).client)
  unfolding drop_client
  drop_client-Holds idx inside =
      let v = drop_client-IsValid s idx h.valid in
      let v' = drop_client-IsValid (with_slots s a) idx with_slots-IsValid in
      record {
        valid = v;
        slots = v'.slots ∙ sym v.slots;
        same =
            clients-drop_client (with_slots s a) idx with_slots-IsValid inside
            ∙ ap (λ cs. erase_idx cs idx) h.same
            ∙ sym (clients-drop_client s idx h.valid inside);
      }

  pub push_client-Holds :
      (c : Client)
      → s.n_clients < max_clients
      → Holds (push_client s c) ((push_client (with_slots s a) c).client)
  unfolding push_client
  push_client-Holds c free =
      let v = push_client-IsValid s c h.valid free in
      let v' = push_client-IsValid (with_slots s a) c with_slots-IsValid free in
      record {
        valid = v;
        slots = v'.slots ∙ sym v.slots;
        same =
            clients-push_client (with_slots s a) c with_slots-IsValid free
            ∙ ap (λ cs. cs ++ c ∷ []) h.same
            ∙ sym (clients-push_client s c h.valid free);
      }
