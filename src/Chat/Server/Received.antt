-- ===== src/Chat/Server/Received.antt =====
-- server.c: what arrives at one descriptor, read off the calls.
use completed_projects.Common.{
  ℕ, zero, suc, ℤ, eqb_ℤ, eqb_ℤ_iff, eqb_ℤ_ne, List, [], ◌∷◌, ◌++◌, ◌≡◌, refl, sym, ap, subst, ◌∙◌,
  ◌⊎◌, inl, inr, map, append_assoc, erase_idx, if◌then◌else◌,
}
use completed_projects.Chat.Blather.{Mesg, Client}
use completed_projects.Chat.Os.{Syscall, Trace, write_mesg}
use completed_projects.Chat.Server.Broadcast.{sends}
use completed_projects.Chat.Server.Handle.{clear_at}

-- The messages that a call writes to a descriptor.
abbrev pub arriving : ℤ → Syscall → List Mesg
arriving fd (write_mesg f m) = if eqb_ℤ f fd then m ∷ [] else []
arriving fd _ = []

-- All that was written to a descriptor, in order.
abbrev pub received : ℤ → Trace → List Mesg
received fd [] = []
received fd (c ∷ t) = arriving fd c ++ received fd t

pub received-append : (fd : ℤ) (t u : Trace) → received fd (t ++ u) ≡ received fd t ++ received fd u
received-append fd [] u = refl
received-append fd (c ∷ t) u =
    ap (◌++◌ (arriving fd c)) (received-append fd t u)
    ∙ sym (append_assoc (arriving fd c) (received fd t) (received fd u))

-- The descriptors to which the server writes.
abbrev pub fds : List Client → List ℤ
fds = map (λ c. c.to_client_fd)

abbrev pub Has : ℤ → List ℤ → Type 0
Has fd [] = ⊥
Has fd (f ∷ fs) = (f ≡ fd) ⊎ Has fd fs

-- No two are the same.
abbrev pub AllDiffer : List ℤ → Type 0
AllDiffer [] = Unit {0}
AllDiffer (f ∷ fs) = (Has f fs → ⊥) × AllDiffer fs

received-sends_none :
    (fd : ℤ) (m : Mesg) (cs : List Client) → (Has fd (fds cs) → ⊥) → received fd (sends m cs) ≡ []
received-sends_none fd m [] h = refl
received-sends_none fd m (c ∷ cs) h =
    rw (eqb_ℤ_ne {a = c.to_client_fd} {b = fd} (λ e. h (inl e)))
      (received-sends_none fd m cs (λ k. h (inr k)))

-- A broadcast arrives once.
pub received-sends :
    (fd : ℤ) (m : Mesg) (cs : List Client)
    → AllDiffer (fds cs)
    → Has fd (fds cs)
    → received fd (sends m cs) ≡ m ∷ []
received-sends fd m [] d h = elim h [ ]
received-sends fd m (c ∷ cs) d (inl e) =
    rw ((eqb_ℤ_iff c.to_client_fd fd).1 e)
      (ap (◌∷◌ m) (received-sends_none fd m cs (λ k. d.0 (subst (λ f. Has f (fds cs)) (sym e) k))))
received-sends fd m (c ∷ cs) d (inr k) =
    rw (eqb_ℤ_ne {a = c.to_client_fd} {b = fd} (λ e. d.0 (subst (λ f. Has f (fds cs)) (sym e) k)))
      (received-sends fd m cs d.1 k)

pub Has-erase_idx :
    (fd : ℤ) (cs : List Client) (i : ℕ) → Has fd (fds (erase_idx cs i)) → Has fd (fds cs)
Has-erase_idx fd [] i h = h
Has-erase_idx fd (c ∷ cs) zero h = inr h
Has-erase_idx fd (c ∷ cs) (suc i) (inl e) = inl e
Has-erase_idx fd (c ∷ cs) (suc i) (inr k) = inr (Has-erase_idx fd cs i k)

pub AllDiffer-erase_idx :
    (cs : List Client) (i : ℕ) → AllDiffer (fds cs) → AllDiffer (fds (erase_idx cs i))
AllDiffer-erase_idx [] i d = d
AllDiffer-erase_idx (c ∷ cs) zero d = d.1
AllDiffer-erase_idx (c ∷ cs) (suc i) d =
    (λ k. d.0 (Has-erase_idx c.to_client_fd cs i k), AllDiffer-erase_idx cs i d.1)

pub fds-clear_at : (cs : List Client) (i : ℕ) → fds (clear_at cs i) ≡ fds cs
fds-clear_at [] i = refl
fds-clear_at (c ∷ cs) zero = refl
fds-clear_at (c ∷ cs) (suc i) = ap (◌∷◌ c.to_client_fd) (fds-clear_at cs i)
