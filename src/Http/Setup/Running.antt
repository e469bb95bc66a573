-- ===== src/Http/Setup/Running.antt =====
-- server.c: `main` from its start to its return.
use completed_projects.Common.{
  ◌>>=◌, ℕ, suc, ℤ, pos, minus_one, eqb_ℤ_ne, some, [], ◌∷◌, ◌++◌, ◌≡◌, ◌≢◌, refl, sym, ap, ◌∙◌,
  append-nil, length, arith, ◌≤◌, ◌⊎◌, inl, inr, Bool-cases, eqb_ℤ,
}
use completed_projects.Common.CString.{Bytes}
use completed_projects.Http.Data.{ConfigData}
use completed_projects.Http.Handler.{populate_config}
use completed_projects.Http.Handler.Accepting.{admitted}
use completed_projects.Http.Setup.{
  access_log, error_log, open_file, dup, dup2, Trace, System, made, stdout_fd, stderr_fd,
  open_socket, restore, run_server, main, int_max,
}
use completed_projects.Http.Setup.Serving.{
  collect, accepts, threads, closes, opens, open_socket-collect, serve-Adds, restore-collect,
  restore-closes,
}

-- `open` fails for one of the log files.
abbrev pub Refuses : System → Type 0
Refuses os =
    (os [] (open_file access_log) ≡ minus_one)
    ⊎ (os (made os (open_file access_log) []) (open_file error_log) ≡ minus_one)

-- A run of `main` that has served: it returns 1, with a thread for each result of `accept`, `k` of
-- them, and every descriptor that was made is closed.
abbrev pub Served : ℕ → Trace → Type 0
Served k t =
    (collect threads t ≡ collect accepts t)
    × (length (collect accepts t) ≡ k)
    × (collect closes t ≡ collect opens t)

run_server-Served :
    (os : System) (c config : ConfigData) (file : Bytes) (access error out err : ℤ) (t : Trace)
    → populate_config c file ≡ some config
    → admitted config.max_connections ≤ int_max
    → collect accepts t ≡ []
    → collect threads t ≡ []
    → collect closes t ≡ []
    → collect opens t ≡ access ∷ error ∷ out ∷ err ∷ []
    → (t' : Trace) × (run_server os c file
          (suc (admitted config.max_connections))
          access
          error
          out
          err
          t
        ≡ some (pos 1, t'))
      × Served (admitted config.max_connections) t'
unfolding run_server
run_server-Served os c config file access error out err t p m a b d e =
    let k = admitted config.max_connections in
    let (s, bound) = open_socket os config.port t in
    let (served, runs, (shut, made_none, (more, accepted, started, number))) =
      serve-Adds os config.max_connections s k 0 bound (omega arith) m in
    let closed = restore-closes os access error out err s served (
      shut
      ∙ open_socket-collect closes os config.port t (λ c a x y z o. z)
      ∙ append-nil (collect closes t)
      ∙ d) in
    let accepted_all : collect accepts (restore os access error out err s served) ≡ more =
      restore-collect accepts os access error out err s served (λ c a x y z o. x) (λ fd x. refl)
      ∙ accepted
      ∙ ap (λ l. l ++ more)
          (open_socket-collect accepts os config.port t (λ c a x y z o. x)
            ∙ append-nil (collect accepts t)
            ∙ a) in
    let started_all : collect threads (restore os access error out err s served) ≡ more =
      restore-collect threads os access error out err s served (λ c a x y z o. y) (λ fd x. refl)
      ∙ started
      ∙ ap (λ l. l ++ more)
          (open_socket-collect threads os config.port t (λ c a x y z o. y)
            ∙ append-nil (collect threads t)
            ∙ b) in
    let opened : collect opens (restore os access error out err s served)
        ≡ access ∷ error ∷ out ∷ err ∷ s ∷ [] =
      restore-collect opens os access error out err s served (λ c a x y z o. o) (λ fd x. refl)
      ∙ made_none
      ∙ open_socket-collect opens os config.port t (λ c a x y z o. o)
      ∙ ap (λ l. l ++ s ∷ []) e in
    (
      restore os access error out err s served,
      rw (p, ◌>>=◌, runs, ◌>>=◌) refl,
      (started_all ∙ sym accepted_all, ap length accepted_all ∙ number, closed ∙ sym opened),
    )

-- When the log files can be opened and the output goes to them, `main` returns 1 for every
-- configuration that is read and has a MAX_CONNECTIONS below the largest `int`: it has taken MAX_CONNECTIONS + 1 results of `accept` and asked for a
-- thread for each of them, also where `socket`, `bind` or `accept` failed, and it has closed the
-- descriptors of the logs, of the copies and of the socket.
pub main-Served :
    (os : System) (c config : ConfigData) (file : Bytes)
    → ((t : Trace) (name : Bytes) → os t (open_file name) ≢ minus_one)
    → ((t : Trace) (from to : ℤ) → os t (dup2 from to) ≢ minus_one)
    → populate_config c file ≡ some config
    → admitted config.max_connections ≤ int_max
    → (t : Trace) × (main os c file (suc (admitted config.max_connections)) ≡ some (pos 1, t))
      × Served (admitted config.max_connections) t
unfolding main made
main-Served os c config file opened redirected p m =
    let access = os [] (open_file access_log) in
    let one = made os (open_file access_log) [] in
    let error = os one (open_file error_log) in
    let two = made os (open_file error_log) one in
    let saved = made os (dup stderr_fd) (made os (dup stdout_fd) two) in
    let out = made os (dup2 access stdout_fd) saved in
    rw
      (
        eqb_ℤ_ne (opened [] access_log),
        eqb_ℤ_ne (opened one error_log),
        eqb_ℤ_ne (redirected saved access stdout_fd),
        eqb_ℤ_ne (redirected out error stderr_fd),
      )
      (run_server-Served os c config file access error _ _ _ p m refl refl refl refl)

-- When one of the log files cannot be opened, `main`
-- returns 0 without a call of `accept` or a thread, and closes nothing that it has opened.
pub main_refused :
    (os : System) (c : ConfigData) (file : Bytes) (fuel : ℕ)
    → Refuses os
    → (t : Trace) × (main os c file fuel ≡ some (pos 0, t))
      × (collect accepts t ≡ [])
      × (collect threads t ≡ [])
      × (collect closes t ≡ [])
unfolding main made
main_refused os c file fuel (inl h) = rw h (_, refl, refl, refl, refl)
main_refused os c file fuel (inr h) =
    elim (Bool-cases (eqb_ℤ (os [] (open_file access_log)) minus_one)) [
      | inl e ↦ rw e (_, refl, refl, refl, refl)
      | inr e ↦ rw (e, h) (_, refl, refl, refl, refl)
    ]
