-- ===== src/Chat/Server/Clients.antt =====
-- server.c: the array of clients as the list of those connected. `server_add_client` appends to the
-- list and `server_remove_client` takes one entry out, with the ends of its pipes.
use completed_projects.Common.{
  ◌⊎◌, inl, inr, Bool-cases, ℕ, zero, suc, ◌+◌, ◌-◌, ◌≤◌, ◌<◌, ℤ, pos, minus_one, Bool, true, ◌≡◌,
  ◌≢◌, refl, ap, ◌∙◌, List, [], ◌∷◌, ◌++◌, take, get_or, erase_idx, length, append_assoc, arith,
  length-set, take-set, if◌then◌else◌, eqb_ℤ_ne,
}
use completed_projects.Chat.Blather.{max_clients, Join, Client, Server, zero_client}
use completed_projects.Chat.Os.{
  Os, Trace, Syscall, open_file, read_only, write_only, close, remove, ok, ◌>>=◌,
}
use completed_projects.Chat.Server.{
  clients, server_get_client, new_client, server_add_client, push_client, shift, drop_client,
  all_zero, close_client, server_remove_client,
}

-- The array has its full size, and the populated part lies in it.
pub record IsValid (s : Server) : Type 0 where
  pub slots : length s.client ≡ max_clients
  pub fits : s.n_clients ≤ max_clients

shift-cons : (k i : ℕ) (c : Client) (cs : List Client) → shift k (suc i) (c ∷ cs) ≡ c ∷ shift k i cs
unfolding shift
shift-cons zero i c cs = refl
shift-cons (suc k) i c cs = shift-cons k (suc i) c _

length-shift : (k i : ℕ) (a : List Client) → length (shift k i a) ≡ length a
unfolding shift
length-shift zero i a = refl
length-shift (suc k) i a = length-shift k (suc i) _ ∙ length-set a i (get_or a (suc i) zero_client)

take-shift_front :
    (k : ℕ) (c : Client) (cs : List Client)
    → k ≤ length cs
    → take k (shift k zero (c ∷ cs)) ≡ take k cs
unfolding shift
take-shift_front zero c cs h = refl
take-shift_front (suc k) c [] h = absurd (omega arith)
take-shift_front (suc k) c (d ∷ cs) h =
    rw (shift-cons k zero d (d ∷ cs)) (ap (◌∷◌ d) (take-shift_front k d cs (omega arith)))

take-shift :
    (i k n : ℕ) (a : List Client)
    → n ≡ i + k
    → n < length a
    → take n (shift k i a) ≡ erase_idx (take (suc n) a) i
take-shift i k n [] e h = elim h [ ]
take-shift zero k n (c ∷ cs) e h =
    let same : n ≡ k = omega arith in rw same (take-shift_front k c cs (omega arith))
take-shift (suc i) k zero (c ∷ cs) e h = absurd (omega arith)
take-shift (suc i) k (suc n) (c ∷ cs) e h =
    rw (shift-cons k i c cs) (ap (◌∷◌ c) (take-shift i k n cs (omega arith) (omega arith)))

take-shift_sub :
    (idx n : ℕ) (a : List Client)
    → n ≤ length a
    → idx < n
    → take (n - 1) (shift (n - (idx + 1)) idx a) ≡ erase_idx (take n a) idx
take-shift_sub idx zero a l h = elim h [ ]
take-shift_sub idx (suc m) a l h =
    let less : suc m - 1 ≡ m = omega arith in
    rw less (take-shift idx (suc m - (idx + 1)) m a (omega arith) (omega arith))

-- Closing the gap takes exactly the client at `idx` out of the list, and keeps the order.
pub clients-drop_client :
    (s : Server) (idx : ℕ)
    → IsValid s
    → idx < s.n_clients
    → clients (drop_client s idx) ≡ erase_idx (clients s) idx
unfolding drop_client
clients-drop_client s idx v h = take-shift_sub idx s.n_clients s.client (omega arith) h

pub drop_client-IsValid : (s : Server) (idx : ℕ) → IsValid s → IsValid (drop_client s idx)
unfolding drop_client
drop_client-IsValid s idx v = record {
  slots = length-shift (s.n_clients - (idx + 1)) idx s.client ∙ v.slots;
  fits = omega arith;
}

pub drop_client-shrinks : (s : Server) (idx : ℕ) → (drop_client s idx).n_clients ≤ s.n_clients
unfolding drop_client
drop_client-shrinks s idx = omega arith

-- The calls of one removal.
abbrev pub removal : Client → Trace
removal c =
    close c.to_client_fd
    ∷ close c.to_server_fd
    ∷ remove c.to_client_fname
    ∷ remove c.to_server_fname
    ∷ []

-- Whether the system answers all four calls of a removal with 0.
abbrev pub lets_go : Os → Client → Trace → Bool
lets_go os c t =
    let a = close c.to_client_fd in
    let b = close c.to_server_fd in
    let d = remove c.to_client_fname in
    all_zero (os t a) (os (t ++ a ∷ []) b) (os (t ++ a ∷ b ∷ []) d)
      (os (t ++ a ∷ b ∷ d ∷ []) (remove c.to_server_fname))

close_client_lem :
    (os : Os) (c : Client) (t : Trace) → close_client os c t ≡ ok (lets_go os c t) (t ++ removal c)
unfolding close_client
close_client_lem os c t = simp append_assoc

-- A removal makes its four calls whatever they return. The client leaves the list if all return 0,
-- and otherwise the server is as before and -1 is returned.
pub server_remove_client_lem :
    (os : Os) (s : Server) (idx : ℕ) (t : Trace)
    → let c = server_get_client s idx in
      server_remove_client os s idx t
      ≡ ok (if lets_go os c t then (drop_client s idx, pos 0) else (s, minus_one)) (t ++ removal c)
unfolding server_remove_client
server_remove_client_lem os s idx t = rw (close_client_lem os (server_get_client s idx) t, ◌>>=◌)

pub server_remove_client_goes :
    (os : Os) (s : Server) (idx : ℕ) (t : Trace)
    → lets_go os (server_get_client s idx) t ≡ true
    → server_remove_client os s idx t
      ≡ ok (drop_client s idx, pos 0) (t ++ removal (server_get_client s idx))
server_remove_client_goes os s idx t h =
    server_remove_client_lem os s idx t
    ∙ ap
        (λ (b : Bool).
          ok (if b then (drop_client s idx, pos 0) else (s, minus_one))
            (t ++ removal (server_get_client s idx)))
        h

-- A removal leaves the array without the client, or as it was.
pub removal_cases :
    (os : Os) (s : Server) (idx : ℕ) (t : Trace)
    → let u = t ++ removal (server_get_client s idx) in
      (server_remove_client os s idx t ≡ ok (drop_client s idx, pos 0) u)
      ⊎ (server_remove_client os s idx t ≡ ok (s, minus_one) u)
removal_cases os s idx t =
    let c = server_get_client s idx in
    let either = λ (b : Bool).
      ok (if b then (drop_client s idx, pos 0) else (s, minus_one)) (t ++ removal c) in
    let made = server_remove_client_lem os s idx t in
    elim (Bool-cases (lets_go os c t)) [
      | inl e ↦ inl (made ∙ ap either e)
      | inr e ↦ inr (made ∙ ap either e)
    ]

-- A client that is added is the last of the list; the others keep their places.
pub clients-push_client :
    (s : Server) (c : Client)
    → IsValid s
    → s.n_clients < max_clients
    → clients (push_client s c) ≡ clients s ++ c ∷ []
unfolding push_client
clients-push_client s c v h =
    let grown : s.n_clients + 1 ≡ suc s.n_clients = omega arith in
    rw grown (take-set s.n_clients s.client c (omega arith))

pub push_client-IsValid :
    (s : Server) (c : Client) → IsValid s → s.n_clients < max_clients → IsValid (push_client s c)
unfolding push_client
push_client-IsValid s c v h = record {
  slots = length-set s.client s.n_clients c ∙ v.slots;
  fits = omega arith;
}

module _ (os : Os) (s : Server) (join : Join) (t : Trace) where
  abbrev pub opens_to : Syscall
  opens_to = open_file join.to_client_fname write_only

  abbrev pub opens_from : Syscall
  opens_from = open_file join.to_server_fname read_only

  -- The two descriptors that the system gives out for a join.
  abbrev pub to_fd : ℤ
  to_fd = (os t opens_to).ret

  abbrev pub from_fd : ℤ
  from_fd = (os (t ++ opens_to ∷ []) opens_from).ret

  pub server_add_client_opens :
      s.n_clients < max_clients
      → to_fd ≢ minus_one
      → from_fd ≢ minus_one
      → server_add_client os s join t
        ≡ ok
            (push_client s (new_client join to_fd from_fd), pos 0)
            (t ++ opens_to ∷ opens_from ∷ [])
  unfolding server_add_client
  server_add_client_opens h p q =
      ground (arith, eqb_ℤ_ne p, eqb_ℤ_ne q, append_assoc t (opens_to ∷ []) (opens_from ∷ []))

  pub server_add_client_full :
      s.n_clients ≡ max_clients → server_add_client os s join t ≡ ok (s, minus_one) t
  unfolding server_add_client
  server_add_client_full h = ground arith
