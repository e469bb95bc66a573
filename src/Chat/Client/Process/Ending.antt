-- ===== src/Chat/Client/Process/Ending.antt =====
-- bl-client.c: from wherever the threads stand, both can come to their ends.
use completed_projects.Common.{
  ℕ, zero, suc, ◌+◌, ◌*◌, ◌≤◌, ◌<◌, Bool, true, false, Bool-cases, inl, inr, none, some, List, [],
  ◌∷◌, ◌≡◌, refl, sym, subst, ◌∙◌, length, arith,
}
use completed_projects.Common.CString.{Bytes}
use completed_projects.Chat.Blather.{Mesg}
use completed_projects.Chat.Simpio.{Simpio, Stack, simpio_get_char, simpio_reset, iprintf}
use completed_projects.Chat.Client.Threads.{
  UserThread, at_top, reading, user_returned, user_stopped, ServerThread, listening,
  server_returned, server_stopped, Threads, both_created, get_char, user_act, user_runs,
  server_stops, Reach, here, next,
}
use completed_projects.Chat.Client.Threads.Cancelling.{UserAsks, ServerAsks, Reach-IsOrderly}
use completed_projects.Chat.Client.Process.{UserEnded, ServerEnded}

-- How many steps the user thread is from its end at most, apart from the input.
abbrev weight : UserThread → Bool → Bool → ℕ
weight at_top ready end = 2
weight reading true end = 3
weight reading false true = 3
weight reading false false = 1
weight user_returned ready end = 0
weight user_stopped ready end = 0

abbrev waits : Bool → ℕ
waits true = 0
waits false = 4

abbrev measure : Threads → ℕ
measure t =
    4 * length t.input
    + (waits t.term.end_of_input + weight t.user t.term.line_ready t.term.end_of_input)

weight_le : (pc : UserThread) (ready end : Bool) → weight pc ready end ≤ 3
weight_le at_top ready end = omega arith
weight_le reading true end = omega arith
weight_le reading false true = omega arith
weight_le reading false false = omega arith
weight_le user_returned ready end = omega arith
weight_le user_stopped ready end = omega arith

waits_le : (end : Bool) → waits end ≤ 4
waits_le true = omega arith
waits_le false = omega arith

module _ (stack : Stack) (u : Bytes) where
  get_char-shorter :
      (t : Threads) (input : Bytes)
      → t.user ≡ reading
      → measure (get_char t input) < 4 * length input + 5
  unfolding simpio_get_char
  get_char-shorter t [] at =
      let s' = simpio_get_char t.term none in omega (arith, weight_le t.user s'.line_ready true)
  get_char-shorter t (c ∷ cs) at =
      let s' = simpio_get_char t.term (some c) in
      omega (arith, weight_le t.user s'.line_ready s'.end_of_input, waits_le s'.end_of_input)

  at_top-shorter : (t : Threads) → t.user ≡ at_top → measure (user_act stack u t at_top) < measure t
  unfolding user_act iprintf simpio_reset
  at_top-shorter t at = elim (Bool-cases t.term.end_of_input) [
    | inl e ↦ simp (e, at) (omega arith)
    | inr e ↦ simp (e, at) (omega arith)
  ]

  reading-shorter :
      (t : Threads) → t.user ≡ reading → measure (user_act stack u t reading) < measure t
  unfolding user_act
  reading-shorter t at = elim (Bool-cases t.term.line_ready) [
    | inl e ↦ simp (e, at) (omega arith)
    | inr e ↦ elim (Bool-cases t.term.end_of_input) [
      | inl f ↦ simp (e, f, at) (omega arith)
      | inr f ↦ simp (e, f, at) (omega (arith, get_char-shorter t t.input at))
    ]
  ]

  -- The user thread runs on until it has returned, unless it is stopped already.
  runs_on :
      (n : ℕ) (s t : Threads) (pc : UserThread)
      → t.user ≡ pc
      → measure t < n
      → Reach stack u s t
      → (v : Threads) × Reach stack u s v × UserEnded v.user
  runs_on zero s t pc at h r = elim h [ ]
  runs_on (suc n) s t at_top at h r =
      let t' = user_act stack u t at_top in
      let shorter = at_top-shorter t at in
      let more = subst (λ pc. Reach stack u s (user_act stack u t pc)) at (next r user_runs) in
      runs_on n s t' t'.user refl (omega arith) more
  runs_on (suc n) s t reading at h r =
      let t' = user_act stack u t reading in
      let shorter = reading-shorter t at in
      let more = subst (λ pc. Reach stack u s (user_act stack u t pc)) at (next r user_runs) in
      runs_on n s t' t'.user refl (omega arith) more
  runs_on (suc n) s t user_returned at h r = (t, r, subst UserEnded (sym at) tt)
  runs_on (suc n) s t user_stopped at h r = (t, r, subst UserEnded (sym at) tt)

  -- Then the server thread is stopped, unless it has ended.
  stops_server :
      (s t : Threads) (user : UserThread) (server : ServerThread)
      → t.user ≡ user
      → t.server ≡ server
      → UserEnded user
      → UserAsks user t.cancel_user t.cancel_server
      → ServerAsks server t.cancel_user t.cancel_server
      → Reach stack u s t
      → (v : Threads) × Reach stack u s v × UserEnded v.user × ServerEnded v.server
  stops_server s t user_returned listening p q e a b r = (
    record t { server = server_stopped },
    next r (server_stops a (λ k. cc (sym q ∙ k))),
    subst UserEnded (sym p) tt,
    tt,
  )
  stops_server s t user server_returned p q e a b r =
      (t, r, subst UserEnded (sym p) e, subst ServerEnded (sym q) tt)
  stops_server s t user server_stopped p q e a b r =
      (t, r, subst UserEnded (sym p) e, subst ServerEnded (sym q) tt)
  stops_server s t user_stopped listening p q e a b r = cc (sym a.0 ∙ b)
  stops_server s t at_top listening p q e a b r = elim e [ ]
  stops_server s t reading listening p q e a b r = elim e [ ]

  -- However far the threads have come, with whatever input and messages, they can go on to a state
  -- in which both have ended, as `main` waits for: the user thread gets to its end by itself, and
  -- the server thread is then stopped, if a shutdown has not ended it.
  pub Reach-ends :
      (s : Simpio) (input : Bytes) (arriving : List Mesg) (t : Threads)
      → Reach stack u (both_created s input arriving) t
      → (v : Threads) × Reach stack u t v × UserEnded v.user × ServerEnded v.server
  Reach-ends s input arriving t r =
      let (v, more, ended) = runs_on (suc (measure t)) t t t.user refl (omega arith) here in
      let orderly = Reach-IsOrderly stack u (Reach-IsOrderly stack u (refl, refl) r) more in
      stops_server t v v.user v.server refl refl ended orderly.0 orderly.1 more
