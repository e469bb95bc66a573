-- ===== src/Chat/Server/Delivered.antt =====
-- server.c: what all clients have got since an earlier state of the server.
use completed_projects.Common.{
  ℕ, ◌<◌, ℤ, List, [], ◌∷◌, ◌++◌, ◌≡◌, sym, ap, subst, ◌∙◌, append_assoc, append-nil, length-set,
}
use completed_projects.Chat.Blather.{Mesg, Server}
use completed_projects.Chat.Os.{Trace, Result, M, ok, exits, stuck}
use completed_projects.Chat.Server.{clients, server_get_client, drop_client, clear_ready}
use completed_projects.Chat.Server.Clients.{
  IsValid, clients-drop_client, drop_client-IsValid, removal,
}
use completed_projects.Chat.Server.Broadcast.{sends}
use completed_projects.Chat.Server.Handle.{clients-clear_ready}
use completed_projects.Chat.Server.Received.{
  received, received-append, fds, Has, AllDiffer, received-sends, Has-erase_idx,
  AllDiffer-erase_idx, fds-clear_at,
}

-- If there is a result, then the state and the calls are related.
abbrev pub Leaves : {A : Type 0} → (A → Trace → Type 0) → Result A → Type 0
Leaves P (ok a t) = P a t
Leaves P _ = Unit {0}

pub Leaves-bind :
    {A B : Type 0} (P : A → Trace → Type 0) (Q : B → Trace → Type 0) (r : Result A) (f : A → M B)
    → Leaves P r
    → ((a : A) (t : Trace) → P a t → Leaves Q (f a t))
    → Leaves Q (elim r [ ok a t' ↦ f a t' | exits t' ↦ exits t' | stuck ↦ stuck ])
Leaves-bind P Q (ok a t) f h k = k a t h
Leaves-bind P Q (exits t) f h k = tt
Leaves-bind P Q stuck f h k = tt

abbrev pub told_fds : Server → List ℤ
told_fds s = fds (clients s)

-- Since one state all clients of another, which were there before, have got the same messages.
abbrev pub Delivered : Server → Trace → Server → Trace → Type 0
Delivered s t s' t' =
    IsValid s'
    × AllDiffer (told_fds s')
    × ((ms : List Mesg) × ((fd : ℤ)
          → Has fd (told_fds s')
          → Has fd (told_fds s) × (received fd t' ≡ received fd t ++ ms)))

pub Delivered-trans :
    (s : Server) (t : Trace) (s1 : Server) (t1 : Trace) (s2 : Server) (t2 : Trace)
    → Delivered s t s1 t1
    → Delivered s1 t1 s2 t2
    → Delivered s t s2 t2
Delivered-trans s t s1 t1 s2 t2 (v, d, (ms, h)) (v', d', (ms', h')) = (
  v',
  d',
  (
    ms ++ ms',
    λ fd k.
        let (k1, e1) = h' fd k in
        let (k2, e2) = h fd k1 in
        (k2, e1 ∙ ap (λ l. l ++ ms') e2 ∙ append_assoc (received fd t) ms ms'),
  ),
)

pub Leaves-weaken :
    (s : Server) (t : Trace) (s1 : Server) (t1 : Trace) (r : Result Server)
    → Delivered s t s1 t1
    → Leaves (Delivered s1 t1) r
    → Leaves (Delivered s t) r
Leaves-weaken s t s1 t1 (ok s2 t2) k h = Delivered-trans s t s1 t1 s2 t2 k h
Leaves-weaken s t s1 t1 (exits t2) k h = tt
Leaves-weaken s t s1 t1 stuck k h = tt

-- Calls that write to no client.
pub silent-Delivered :
    (s : Server) (t t' : Trace)
    → IsValid s
    → AllDiffer (told_fds s)
    → ((fd : ℤ) → received fd t' ≡ received fd t)
    → Delivered s t s t'
silent-Delivered s t t' v d h = (v, d, ([], λ fd k. (k, h fd ∙ sym (append-nil (received fd t)))))

pub told-Delivered :
    (s : Server) (t : Trace) (m : Mesg)
    → IsValid s
    → AllDiffer (told_fds s)
    → Delivered s t s (t ++ sends m (clients s))
told-Delivered s t m v d = (
  v,
  d,
  (
    m ∷ [],
    λ fd k. (
      k,
      received-append fd t (sends m (clients s))
          ∙ ap (◌++◌ (received fd t)) (received-sends fd m (clients s) d k),
    ),
  ),
)

pub received-removal :
    (s : Server) (idx : ℕ) (fd : ℤ) (t : Trace)
    → received fd (t ++ removal (server_get_client s idx)) ≡ received fd t
received-removal s idx fd t =
    received-append fd t (removal (server_get_client s idx)) ∙ append-nil (received fd t)

pub drop-Delivered :
    (s : Server) (idx : ℕ) (t : Trace)
    → IsValid s
    → AllDiffer (told_fds s)
    → idx < s.n_clients
    → Delivered s t (drop_client s idx) (t ++ removal (server_get_client s idx))
drop-Delivered s idx t v d inside =
    let left = clients-drop_client s idx v inside in
    (
      drop_client-IsValid s idx v,
      rw left (AllDiffer-erase_idx (clients s) idx d),
      (
        [],
        λ fd k. (
          Has-erase_idx fd (clients s) idx (subst (λ cs. Has fd (fds cs)) left k),
          received-removal s idx fd t ∙ sym (append-nil (received fd t)),
        ),
      ),
    )

pub clear_ready-Delivered :
    (s : Server) (t : Trace) (s1 : Server) (t1 : Trace) (idx : ℕ)
    → Delivered s t s1 t1
    → Delivered s t (clear_ready s1 idx) t1
unfolding clear_ready
clear_ready-Delivered s t s1 t1 idx (v, d, (ms, h)) =
    let same = ap fds (clients-clear_ready s1 idx) ∙ fds-clear_at (clients s1) idx in
    (
      record { slots = length-set s1.client idx _ ∙ v.slots; fits = v.fits },
      subst AllDiffer (sym same) d,
      (ms, λ fd k. h fd (subst (Has fd) same k)),
    )
