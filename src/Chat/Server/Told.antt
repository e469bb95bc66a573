-- ===== src/Chat/Server/Told.antt =====
-- server.c: what the clients that stay have got, where others have come and gone.
use completed_projects.Common.{
  ℤ, eqb_ℤ, eqb_ℤ_iff, Bool, false, Bool-cases, inl, inr, List, [], ◌∷◌, ◌++◌, ◌≡◌, ◌≢◌, refl, sym,
  ap, ◌∙◌, append_assoc, map, ◌⊎◌,
}
use completed_projects.Chat.Blather.{Mesg, Client, Server}
use completed_projects.Chat.Os.{Trace, Result, ok, exits, stuck}
use completed_projects.Chat.Server.{clients, mark_ready}
use completed_projects.Chat.Server.Clients.{IsValid}
use completed_projects.Chat.Server.Broadcast.{sends}
use completed_projects.Chat.Server.Received.{
  received, received-append, fds, Has, AllDiffer, received-sends,
}
use completed_projects.Chat.Server.Delivered.{Leaves, told_fds, Delivered}

-- As Delivered, where clients may have come as well.
abbrev pub Told : Server → Trace → Server → Trace → Type 0
Told s t s' t' =
    IsValid s'
    × AllDiffer (told_fds s')
    × ((ms : List Mesg) × ((fd : ℤ)
          → Has fd (told_fds s)
          → Has fd (told_fds s')
          → received fd t' ≡ received fd t ++ ms))

pub Told-Delivered :
    (s : Server) (t : Trace) (s1 : Server) (t1 : Trace) (r : Result Server)
    → Told s t s1 t1
    → Leaves (Delivered s1 t1) r
    → Leaves (Told s t) r
Told-Delivered s t s1 t1 (ok s2 t2) (v, d, (ms, h)) (v', d', (ms', h')) = (
  v',
  d',
  (
    ms ++ ms',
    λ fd before after.
        let (between, e) = h' fd after in
        e ∙ ap (λ l. l ++ ms') (h fd before between) ∙ append_assoc (received fd t) ms ms',
  ),
)
Told-Delivered s t s1 t1 (exits t2) k h = tt
Told-Delivered s t s1 t1 stuck k h = tt

pub fds-mark_ready :
    (ready : ℤ → Bool) (cs : List Client) → fds (map (mark_ready ready) cs) ≡ fds cs
fds-mark_ready ready [] = refl
fds-mark_ready ready (c ∷ cs) = elim (Bool-cases (ready c.to_server_fd)) [
  | inl e ↦ rw e (ap (◌∷◌ c.to_client_fd) (fds-mark_ready ready cs))
  | inr e ↦ rw e (ap (◌∷◌ c.to_client_fd) (fds-mark_ready ready cs))
]

Has-last :
    (fd : ℤ) (cs : List Client) (c : Client)
    → Has fd (fds (cs ++ c ∷ []))
    → Has fd (fds cs) ⊎ (c.to_client_fd ≡ fd)
Has-last fd [] c (inl e) = inr e
Has-last fd [] c (inr k) = inl k
Has-last fd (d ∷ cs) c (inl e) = inl (inl e)
Has-last fd (d ∷ cs) c (inr k) = elim (Has-last fd cs c k) [ inl l ↦ inl (inr l) | inr e ↦ inr e ]

-- A client with a descriptor of its own joins the others.
pub AllDiffer-append :
    (cs : List Client) (c : Client)
    → AllDiffer (fds cs)
    → (Has c.to_client_fd (fds cs) → ⊥)
    → AllDiffer (fds (cs ++ c ∷ []))
AllDiffer-append [] c d h = (λ k. k, tt)
AllDiffer-append (x ∷ cs) c d h = (
  λ k. elim (Has-last x.to_client_fd cs c k) [ inl l ↦ d.0 l | inr e ↦ h (inl (sym e)) ],
  AllDiffer-append cs c d.1 (λ k. h (inr k)),
)

-- Calls in which nothing is written to a client.
abbrev pub Quiet : Server → Trace → Server → Trace → Type 0
Quiet s t s' t' = IsValid s' × AllDiffer (told_fds s') × ((fd : ℤ) → received fd t' ≡ received fd t)

pub Quiet-sends :
    (s : Server) (t : Trace) (s1 : Server) (t1 : Trace) (m : Mesg)
    → Quiet s t s1 t1
    → Told s t s1 (t1 ++ sends m (clients s1))
Quiet-sends s t s1 t1 m (v, d, h) = (
  v,
  d,
  (
    m ∷ [],
    λ fd before after.
        received-append fd t1 (sends m (clients s1))
        ∙ ap (λ l. l ++ received fd (sends m (clients s1))) (h fd)
        ∙ ap (◌++◌ (received fd t)) (received-sends fd m (clients s1) d after),
  ),
)

-- Only the flag of the join descriptor goes down.
pub down-Told :
    (s : Server) (t : Trace) (s1 : Server) (t1 : Trace)
    → Told s t s1 t1
    → Told s t (record s1 { join_ready = false }) t1
down-Told s t s1 t1 (v, d, h) = (record { slots = v.slots; fits = v.fits }, d, h)

pub eqb_ℤ-ne : (a b : ℤ) → eqb_ℤ a b ≡ false → a ≢ b
eqb_ℤ-ne a b e q = cc (sym ((eqb_ℤ_iff a b).1 q) ∙ e)
