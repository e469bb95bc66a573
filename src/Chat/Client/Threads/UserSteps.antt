-- ===== src/Chat/Client/Threads/UserSteps.antt =====
-- bl-client.c: a step of the user thread writes the next of the messages that it would send alone.
use completed_projects.Common.{
  ℕ, zero, suc, true, false, ◌||◌, Bool-cases, inl, inr, Option, none, some, List, [], ◌∷◌, ◌++◌,
  ◌≡◌, refl, ap, ◌∙◌, sym, subst, append-nil, append_assoc, if◌then◌else◌, arith,
}
use completed_projects.Common.CString.{Bytes}
use completed_projects.Chat.Blather.{Mesg}
use completed_projects.Chat.Simpio.{Simpio, Stack, simpio_get_char, simpio_reset, iprintf}
use completed_projects.Chat.Client.{read_line, user_mesg, depart_mesg, user_line, user_to_server}
use completed_projects.Chat.Client.Threads.{
  UserThread, at_top, reading, user_returned, user_stopped, Threads, get_char, user_act,
}
use completed_projects.Chat.Client.Threads.Terminal.{messages, with_mesg, messages-wrote}

pub some_inj : {A : Type 0} {a b : A} → ◌≡◌ {A = Option A} (some a) (some b) → a ≡ b
some_inj h = cc

with_mesg-eq-some :
    (m : Mesg) (o : Option (List Mesg)) (rest : List Mesg)
    → with_mesg m o ≡ some rest
    → (r : List Mesg) × (o ≡ some r) × (m ∷ r ≡ rest)
with_mesg-eq-some m none rest h = cc
with_mesg-eq-some m (some r) rest h = (r, refl, cc)

module _ (stack : Stack) (u : Bytes) where
  -- What the user thread would send from where it stands.
  abbrev pub to_send : ℕ → UserThread → Simpio → Bytes → Option (List Mesg)
  to_send fuel at_top s input = messages (user_to_server stack fuel u s input)
  to_send fuel reading s input =
      if s.line_ready || s.end_of_input
      then messages (user_line u s (user_to_server stack fuel u s input))
      else messages (
          user_line u (read_line s input).0
            (user_to_server stack fuel u (read_line s input).0 (read_line s input).1))
  to_send fuel _ s input = some []

  -- What was written is the beginning of `all`; a thread that was not cancelled would write the rest.
  abbrev pub Sends : List Mesg → Threads → UserThread → Type 0
  Sends all t user_stopped = (rest : List Mesg) × (t.written ++ rest ≡ all)
  Sends all t pc =
      (fuel : ℕ) × (rest : List Mesg) × (to_send fuel pc t.term t.input ≡ some rest)
      × (t.written ++ rest ≡ all)

  user_act_returns :
      (t : Threads)
      → t.term.end_of_input ≡ true
      → user_act stack u t at_top ≡ record t {
        written = t.written ++ depart_mesg u ∷ [];
        cancel_server = true;
        user = user_returned;
      }
  unfolding user_act
  user_act_returns t e = rw e refl

  user_act_prompts :
      (t : Threads)
      → t.term.end_of_input ≡ false
      → user_act stack u t at_top
        ≡ record t { term = iprintf stack (simpio_reset t.term) []; user = reading }
  unfolding user_act
  user_act_prompts t e = rw e refl

  at_top-Sends :
      (all : List Mesg) (t : Threads)
      → Sends all t at_top
      → let t' = user_act stack u t at_top in Sends all t' t'.user
  unfolding user_to_server
  at_top-Sends all t (zero, rest, run, whole) = cc
  at_top-Sends all t (suc fuel, rest, run, whole) = elim (Bool-cases t.term.end_of_input) [
    | inl e ↦
        let last : ◌≡◌ {A = Option (List Mesg)} (some (depart_mesg u ∷ [])) (some rest) =
          simp e at run in
        subst (λ t'. Sends all t' t'.user) (sym (user_act_returns t e))
          (fuel, [], refl, append-nil _ ∙ ap (◌++◌ t.written) (some_inj last) ∙ whole)
    | inr e ↦
        subst (λ t'. Sends all t' t'.user) (sym (user_act_prompts t e))
          (fuel, rest, unfold iprintf simpio_reset in (simp e at run), whole)
  ]

  user_act_sends :
      (t : Threads)
      → t.term.line_ready ≡ true
      → user_act stack u t reading
        ≡ record t { written = t.written ++ user_mesg u t.term.buf ∷ []; user = at_top }
  unfolding user_act
  user_act_sends t e = rw e refl

  user_act_ends :
      (t : Threads)
      → t.term.line_ready ≡ false
      → t.term.end_of_input ≡ true
      → user_act stack u t reading ≡ record t { user = at_top }
  unfolding user_act
  user_act_ends t e f = rw (e, f) refl

  user_act_reads :
      (t : Threads)
      → t.term.line_ready ≡ false
      → t.term.end_of_input ≡ false
      → user_act stack u t reading ≡ get_char t t.input
  unfolding user_act
  user_act_reads t e f = rw (e, f) refl

  get_char_user : (t : Threads) (input : Bytes) → (get_char t input).user ≡ t.user
  get_char_user t [] = refl
  get_char_user t (c ∷ cs) = refl

  -- One more character.
  get_char-Sends :
      (all : List Mesg) (t : Threads) (fuel : ℕ) (rest : List Mesg) (input : Bytes)
      → messages (
          user_line u
            (read_line t.term input).0
            (user_to_server stack fuel u (read_line t.term input).0 (read_line t.term input).1))
        ≡ some rest
      → t.written ++ rest ≡ all
      → Sends all (get_char t input) reading
  unfolding read_line
  get_char-Sends all t fuel rest [] run whole =
      let s' = simpio_get_char t.term none in
      let ended : s'.end_of_input ≡ true = unfold simpio_get_char in refl in
      let stops : (s'.line_ready || s'.end_of_input) ≡ true = ground arith in
      (fuel, rest, rw stops run, whole)
  get_char-Sends all t fuel rest (c ∷ cs) run whole =
      let s' = simpio_get_char t.term (some c) in
      elim (Bool-cases (s'.line_ready || s'.end_of_input)) [
        | inl e ↦ (fuel, rest, rw e (rw e at run), whole)
        | inr e ↦ (fuel, rest, rw e (rw e at run), whole)
      ]

  reading-Sends :
      (all : List Mesg) (t : Threads)
      → t.user ≡ reading
      → Sends all t reading
      → let t' = user_act stack u t reading in Sends all t' t'.user
  reading-Sends all t at (fuel, rest, run, whole) = elim (Bool-cases t.term.line_ready) [
    | inl e ↦
        let m = user_mesg u t.term.buf in
        let alone = user_to_server stack fuel u t.term t.input in
        let (r, later, parts) =
          with_mesg-eq-some m (messages alone) rest
            (sym (messages-wrote m alone) ∙ (simp e at run)) in
        subst (λ t'. Sends all t' t'.user) (sym (user_act_sends t e))
          (fuel, r, later, append_assoc t.written (m ∷ []) r ∙ ap (◌++◌ t.written) parts ∙ whole)
    | inr e ↦ elim (Bool-cases t.term.end_of_input) [
      | inl f ↦
          subst (λ t'. Sends all t' t'.user) (sym (user_act_ends t e f))
            (fuel, rest, simp (e, f) at run, whole)
      | inr f ↦
          subst (λ t'. Sends all t' t'.user) (sym (user_act_reads t e f))
            (subst (Sends all (get_char t t.input)) (sym (get_char_user t t.input ∙ at))
              (get_char-Sends all t fuel rest t.input (simp (e, f) at run) whole))
    ]
  ]

  pub user_act-Sends :
      (all : List Mesg) (t : Threads) (pc : UserThread)
      → t.user ≡ pc
      → Sends all t pc
      → let t' = user_act stack u t pc in Sends all t' t'.user
  user_act-Sends all t at_top at h = at_top-Sends all t h
  user_act-Sends all t reading at h = reading-Sends all t at h
  user_act-Sends all t user_returned at h = unfold user_act in subst (Sends all t) (sym at) h
  user_act-Sends all t user_stopped at h = unfold user_act in subst (Sends all t) (sym at) h
