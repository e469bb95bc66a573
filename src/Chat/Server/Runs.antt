-- ===== src/Chat/Server/Runs.antt =====
-- server.c and bl-server.c: the end of the server, and its runs from the start.
use completed_projects.Common.{
  ℕ, zero, suc, ◌+◌, ◌≤◌, ◌<◌, minus_one, eqb_ℤ, Bool-cases, inl, inr, ◌≡◌, [], ◌∷◌, ◌++◌, ltb,
  ltb→lt, arith, length-replicate,
}
use completed_projects.Common.CString.{Bytes}
use completed_projects.Chat.Blather.{max_clients, Server, zero_client, zero_server}
use completed_projects.Chat.Os.{Os, Trace, ok, remove, mkfifo}
use completed_projects.Chat.Ends.{Ends, Ends-bind, Ends-weaken, Anything}
use completed_projects.Chat.Server.Validity.{
  Kept, Kept-weaken, write_all-Ends, server_remove_client-Ends, main_round-Ends,
}
use completed_projects.Chat.Server.Clients.{IsValid}
use completed_projects.Chat.Server.{
  clients, server_start, server_remove_client, write_all, remove_each, server_shutdown, main_round,
}

remove_each-Ends :
    (os : Os) (fuel i n : ℕ) (s : Server) (t : Trace)
    → Kept n s
    → i ≤ n
    → n < fuel + i
    → Ends (Kept n) (remove_each os fuel i s t)
unfolding remove_each
remove_each-Ends os zero i n s t k l h = absurd (omega arith)
remove_each-Ends os (suc fuel) i n s t k l h = elim (Bool-cases (ltb i s.n_clients)) [
  | inr e ↦ rw e k
  | inl e ↦ rw e (
      let below = ltb→lt i s.n_clients e in
      Ends-bind (λ r. Kept s.n_clients r.0) (Kept n) (server_remove_client os s i t) _
        (server_remove_client-Ends os s i t k.valid)
        λ r u k'. elim (Bool-cases (eqb_ℤ r.1 minus_one)) [
          | inl f ↦ rw f tt
          | inr f ↦ rw f (
              remove_each-Ends os fuel (i + 1) n r.0 u (Kept-weaken k' k.shrunk) (omega arith)
                (omega arith))
        ])
]

-- `server_shutdown` ends too, for every operating system.
pub server_shutdown-Ends :
    (os : Os) (s : Server) (t : Trace) → IsValid s → Ends IsValid (server_shutdown os s t)
unfolding server_shutdown
server_shutdown-Ends os s t v =
    Ends-bind Anything IsValid (write_all os _ (clients s) _) _ (write_all-Ends os _ (clients s) _)
      λ _ u _.
        Ends-weaken (Kept s.n_clients) IsValid (remove_each os (s.n_clients + 1) 0 s u)
          (λ a k. k.valid)
          (remove_each-Ends os (s.n_clients + 1) 0 s.n_clients s u
            (record { valid = v; shrunk = omega arith }) (omega arith) (omega arith))

-- The states at the top of the main loop, with the calls made so far.
pub data Reaches (os : Os) (name : Bytes) : Server → Trace → Type 0 where
  started :
      {s : Server} {t : Trace} → server_start os zero_server name [] ≡ ok s t → Reaches os name s t
  round :
      {s s' : Server} {t t' : Trace}
      → Reaches os name s t
      → main_round os s t ≡ ok s' t'
      → Reaches os name s' t'

pub zero_server-IsValid : IsValid zero_server
unfolding zero_server
zero_server-IsValid = record {
  slots = length-replicate max_clients zero_client;
  fits = omega arith;
}

pub server_start-Ends :
    (os : Os) (s : Server) (name : Bytes) (t : Trace)
    → IsValid s
    → Ends IsValid (server_start os s name t)
unfolding server_start
server_start-Ends os s name t v =
    let u = t ++ remove name ∷ [] in
    elim (Bool-cases (eqb_ℤ (os u (mkfifo name)).ret minus_one)) [
      | inl e ↦ rw e tt
      | inr e ↦ rw e (record { slots = v.slots; fits = omega arith })
    ]

-- Whatever the system answers and whoever joins or leaves, the server never holds more clients than
-- it has room for, at the top of the main loop.
pub Reaches-IsValid :
    {os : Os} {name : Bytes} {s : Server} {t : Trace} → Reaches os name s t → IsValid s
Reaches-IsValid {os} {name} (started e) =
    rw e at (server_start-Ends os zero_server name [] zero_server-IsValid)
Reaches-IsValid {os} (round {s} {s'} {t} r e) = rw e at (main_round-Ends os s t (Reaches-IsValid r))
