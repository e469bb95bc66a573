-- ===== src/Http/Setup/Serving.antt =====
-- server.c: the threads that `main` starts, and the descriptors that it closes.
use completed_projects.Common.{
  ℕ, zero, suc, ◌+◌, ℤ, is_negative, Bool, true, false, some, List, [], ◌∷◌, ◌++◌, ◌≡◌, refl, sym,
  ap, ◌∙◌, append-nil, append_assoc, length, length-append, if◌then◌else◌, arith, ltb, lt→ltb, ◌≤◌,
}
use completed_projects.Common.CString.{codes}
use completed_projects.Http.Handler.{within}
use completed_projects.Http.Handler.Accepting.{admitted, within-admitted, within_full}
use completed_projects.Http.Setup.{
  Call, open_file, perror, log, dup, socket, accept, pthread_create, close, Trace, System, made,
  open_socket, accept_one, serve, restore, int_max,
}

-- The values that a test finds in the calls of a trace.
abbrev pub collect : (Call × ℤ → List ℤ) → Trace → List ℤ
collect f [] = []
collect f (e ∷ t) = f e ++ collect f t

-- What `accept` returned.
abbrev pub accepts : Call × ℤ → List ℤ
accepts (accept s, answer) = answer ∷ []
accepts _ = []

-- The sockets for which a thread was asked for.
abbrev pub threads : Call × ℤ → List ℤ
threads (pthread_create new, answer) = new ∷ []
threads _ = []

abbrev pub closes : Call × ℤ → List ℤ
closes (close fd, answer) = fd ∷ []
closes _ = []

-- The descriptors that were made.
abbrev pub opens : Call × ℤ → List ℤ
opens (open_file name, fd) = fd ∷ []
opens (dup fd, copy) = copy ∷ []
opens (socket, s) = s ∷ []
opens _ = []

collect-append :
    (f : Call × ℤ → List ℤ) (t u : Trace) → collect f (t ++ u) ≡ collect f t ++ collect f u
collect-append f [] u = refl
collect-append f (e ∷ t) u =
    ap (λ l. f e ++ l) (collect-append f t u) ∙ sym (append_assoc (f e) (collect f t) (collect f u))

pub collect-made :
    (f : Call × ℤ → List ℤ) (os : System) (c : Call) (t : Trace)
    → collect f (made os c t) ≡ collect f t ++ f (c, os t c)
unfolding made
collect-made f os c t =
    collect-append f t ((c, os t c) ∷ []) ∙ ap (λ l. collect f t ++ l) (append-nil (f (c, os t c)))

-- A call in which nothing is found.
collect-made_other :
    (f : Call × ℤ → List ℤ) (os : System) (c : Call) (t : Trace)
    → f (c, os t c) ≡ []
    → collect f (made os c t) ≡ collect f t
collect-made_other f os c t h =
    collect-made f os c t ∙ ap (λ l. collect f t ++ l) h ∙ append-nil (collect f t)

-- A report on standard error, or none.
collect-report :
    (f : Call × ℤ → List ℤ) (os : System) (c : Call) (b : Bool) (t : Trace)
    → f (c, os t c) ≡ []
    → collect f (if b then made os c t else t) ≡ collect f t
collect-report f os c true t h = collect-made_other f os c t h
collect-report f os c false t h = refl

-- Nothing is found in the calls in which none of those four find anything.
abbrev pub SeesOnly : (Call × ℤ → List ℤ) → Type 0
SeesOnly f =
    (c : Call) (a : ℤ)
    → accepts (c, a) ≡ []
    → threads (c, a) ≡ []
    → closes (c, a) ≡ []
    → opens (c, a) ≡ []
    → f (c, a) ≡ []

pub open_socket-collect :
    (f : Call × ℤ → List ℤ) (os : System) (port : ℤ) (t : Trace)
    → SeesOnly f
    → collect f (open_socket os port t).1 ≡ collect f t ++ f (socket, (open_socket os port t).0)
unfolding open_socket
open_socket-collect f os port t h =
    collect-made_other f os _ _ (h _ _ refl refl refl refl)
    ∙ collect-report f os _ _ _ (h _ _ refl refl refl refl)
    ∙ collect-made_other f os _ _ (h _ _ refl refl refl refl)
    ∙ collect-report f os _ _ _ (h _ _ refl refl refl refl)
    ∙ collect-made f os _ _

-- What the accepting loop adds to a trace: the results of `accept`, with a thread for each.
abbrev pub Adds : ℕ → Trace → Trace → Type 0
Adds k t t' =
    (collect closes t' ≡ collect closes t)
    × (collect opens t' ≡ collect opens t)
    × ((more : List ℤ) × (collect accepts t' ≡ collect accepts t ++ more)
        × (collect threads t' ≡ collect threads t ++ more)
        × (length more ≡ k))

-- One of two calls in which nothing is found.
collect-either :
    (f : Call × ℤ → List ℤ) (os : System) (c d : Call) (b : Bool) (t : Trace)
    → f (c, os t c) ≡ []
    → f (d, os t d) ≡ []
    → collect f (if b then made os c t else made os d t) ≡ collect f t
collect-either f os c d true t h k = collect-made_other f os c t h
collect-either f os c d false t h k = collect-made_other f os d t k

collect-unless :
    (f : Call × ℤ → List ℤ) (os : System) (c : Call) (b : Bool) (t : Trace)
    → f (c, os t c) ≡ []
    → collect f (if b then t else made os c t) ≡ collect f t
collect-unless f os c true t h = refl
collect-unless f os c false t h = collect-made_other f os c t h

accept_one-collect :
    (f : Call × ℤ → List ℤ) (os : System) (s : ℤ) (t : Trace)
    → SeesOnly f
    → (r : ℤ) × (collect f (accept_one os s t)
        ≡ collect f t ++ (f (accept s, os t (accept s)) ++ f (pthread_create (os t (accept s)), r)))
unfolding accept_one
accept_one-collect f os s t h =
    let new = os t (accept s) in
    let t1 = made os (accept s) t in
    let t2 =
      if is_negative new
      then made os (perror (codes "Accept connection")) t1
      else made os (log (codes "got a connection\n")) t1 in
    let r = os t2 (pthread_create new) in
    (
      r,
      collect-unless f os _ _ _ (h _ _ refl refl refl refl)
          ∙ collect-made f os _ _
          ∙ ap (λ l. l ++ f (pthread_create new, r))
              (collect-either f os _ _ _ _ (h _ _ refl refl refl refl) (h _ _ refl refl refl refl)
                ∙ collect-made f os _ _)
          ∙ append_assoc (collect f t) _ _,
    )

accept_one-Adds : (os : System) (s : ℤ) (t : Trace) → Adds 1 t (accept_one os s t)
accept_one-Adds os s t = (
  (accept_one-collect closes os s t (λ c a x y z o. z)).1 ∙ append-nil (collect closes t),
  (accept_one-collect opens os s t (λ c a x y z o. o)).1 ∙ append-nil (collect opens t),
  (
    os t (accept s) ∷ [],
    (accept_one-collect accepts os s t (λ c a x y z o. x)).1,
    (accept_one-collect threads os s t (λ c a x y z o. y)).1,
    refl,
  ),
)

Adds-trans : (k : ℕ) (t u v : Trace) → Adds 1 t u → Adds k u v → Adds (suc k) t v
Adds-trans k t u v (c, o, (more, a, b, l)) (c', o', (more', a', b', l')) = (
  c' ∙ c,
  o' ∙ o,
  (
    more ++ more',
    a' ∙ ap (λ x. x ++ more') a ∙ append_assoc _ more more',
    b' ∙ ap (λ x. x ++ more') b ∙ append_assoc _ more more',
    omega (arith, length-append more more', l, l'),
  ),
)

pub serve-Adds :
    (os : System) (max s : ℤ) (k n : ℕ) (t : Trace)
    → n + k ≡ admitted max
    → admitted max ≤ int_max
    → (t' : Trace) × (serve os max s (suc k) n t ≡ some t') × Adds k t t'
unfolding serve
serve-Adds os max s zero n t h b =
    let full : within n max ≡ false = within_full max n (omega arith) in
    (
      t,
      rw full refl,
      (
        refl,
        refl,
        ([], sym (append-nil (collect accepts t)), sym (append-nil (collect threads t)), refl),
      ),
    )
serve-Adds os max s (suc k) n t h b =
    let (t', e, adds) = serve-Adds os max s k (n + 1) (accept_one os s t) (omega arith) b in
    let counts : ltb n int_max ≡ true = lt→ltb n int_max (omega arith) in
    (
      t',
      rw (within-admitted max n k h, counts, e) refl,
      Adds-trans k t (accept_one os s t) t' (accept_one-Adds os s t) adds,
    )

-- The end of `main` closes the logs, the copies of the console's descriptors, and the socket.
pub restore-collect :
    (f : Call × ℤ → List ℤ) (os : System) (access error out err s : ℤ) (t : Trace)
    → SeesOnly f
    → ((fd a : ℤ) → f (close fd, a) ≡ [])
    → collect f (restore os access error out err s t) ≡ collect f t
unfolding restore
restore-collect f os access error out err s t h k =
    collect-made_other f os _ _ (k _ _)
    ∙ collect-made_other f os _ _ (k _ _)
    ∙ collect-made_other f os _ _ (k _ _)
    ∙ collect-made_other f os _ _ (h _ _ refl refl refl refl)
    ∙ collect-made_other f os _ _ (h _ _ refl refl refl refl)
    ∙ collect-made_other f os _ _ (k _ _)
    ∙ collect-made_other f os _ _ (h _ _ refl refl refl refl)
    ∙ collect-made_other f os _ _ (k _ _)
    ∙ collect-made_other f os _ _ (h _ _ refl refl refl refl)

pub restore-closes :
    (os : System) (access error out err s : ℤ) (t : Trace)
    → collect closes t ≡ []
    → collect closes (restore os access error out err s t) ≡ access ∷ error ∷ out ∷ err ∷ s ∷ []
unfolding restore
restore-closes os access error out err s t h = simp (collect-made, h) refl
