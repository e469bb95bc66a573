-- ===== src/Chat/Client/Threads/Cancelling.antt =====
-- bl-client.c: which thread cancels which, in any interleaving.
use completed_projects.Common.{
  Bool, true, false, Bool-cases, inl, inr, List, [], ◌∷◌, ◌++◌, ◌≡◌, ◌≢◌, refl, ◌∙◌, sym, subst,
  if◌then◌else◌,
}
use completed_projects.Common.CString.{Bytes}
use completed_projects.Chat.Blather.{Mesg}
use completed_projects.Chat.Simpio.{Simpio, Stack}
use completed_projects.Chat.Client.{is_shutdown, user_mesg}
use completed_projects.Chat.Client.Threads.{
  UserThread, at_top, reading, user_returned, user_stopped, ServerThread, listening,
  server_returned, server_stopped, Threads, both_created, get_char, user_act, server_act, Step,
  user_runs, server_runs, user_stops, server_stops, Reach, here, next,
}

-- The requests to cancel the user and the server thread, as the state of each thread tells them: a
-- thread that has returned has asked for the other, and one that is stopped has been asked.
abbrev pub UserAsks : UserThread → Bool → Bool → Type 0
UserAsks user_returned user server = server ≡ true
UserAsks user_stopped user server = (user ≡ true) × (server ≡ false)
UserAsks _ user server = server ≡ false

abbrev pub ServerAsks : ServerThread → Bool → Bool → Type 0
ServerAsks server_returned user server = user ≡ true
ServerAsks server_stopped user server = (server ≡ true) × (user ≡ false)
ServerAsks _ user server = user ≡ false

abbrev pub IsOrderly : Threads → Type 0
IsOrderly t =
    UserAsks t.user t.cancel_user t.cancel_server
    × ServerAsks t.server t.cancel_user t.cancel_server

UserAsks-true :
    (pc : UserThread) (server : Bool) → UserAsks pc false server → UserAsks pc true server
UserAsks-true at_top server h = h
UserAsks-true reading server h = h
UserAsks-true user_returned server h = h
UserAsks-true user_stopped server h = cc

ServerAsks-true :
    (pc : ServerThread) (user : Bool) → ServerAsks pc user false → ServerAsks pc user true
ServerAsks-true listening user h = h
ServerAsks-true server_returned user h = h
ServerAsks-true server_stopped user h = cc

if-IsOrderly :
    (c : Bool) (t t' : Threads) → IsOrderly t → IsOrderly t' → IsOrderly (if c then t else t')
if-IsOrderly true t t' h k = h
if-IsOrderly false t t' h k = k

module _ (stack : Stack) (u : Bytes) where
  get_char-IsOrderly : (t : Threads) (input : Bytes) → IsOrderly t → IsOrderly (get_char t input)
  get_char-IsOrderly t [] h = h
  get_char-IsOrderly t (c ∷ cs) h = h

  user_act-IsOrderly :
      (t : Threads) (pc : UserThread)
      → t.user ≡ pc
      → IsOrderly t
      → IsOrderly (user_act stack u t pc)
  unfolding user_act
  user_act-IsOrderly t at_top at (a, b) =
      let idle : t.cancel_server ≡ false = rw at at a in
      elim (Bool-cases t.term.end_of_input) [
        | inl e ↦ rw e (
          refl,
          ServerAsks-true t.server t.cancel_user (subst (ServerAsks t.server t.cancel_user) idle b),
        )
        | inr e ↦ rw e (idle, b)
      ]
  user_act-IsOrderly t reading at (a, b) =
      let idle : t.cancel_server ≡ false = rw at at a in
      let sends : Threads = record t {
        written = t.written ++ user_mesg u t.term.buf ∷ [];
        user = at_top;
      } in
      let ends : Threads = record t { user = at_top } in
      let reads = get_char t t.input in
      if-IsOrderly t.term.line_ready sends (if t.term.end_of_input then ends else reads) (idle, b)
        (if-IsOrderly t.term.end_of_input ends reads (idle, b)
          (get_char-IsOrderly t t.input (a, b)))
  user_act-IsOrderly t user_returned at h = h
  user_act-IsOrderly t user_stopped at h = h

  server_act-IsOrderly :
      (t : Threads) (arriving : List Mesg)
      → t.server ≡ listening
      → IsOrderly t
      → IsOrderly (server_act stack u t arriving)
  unfolding server_act
  server_act-IsOrderly t [] at h = h
  server_act-IsOrderly t (m ∷ ms) at (a, b) =
      let idle : t.cancel_user ≡ false = rw at at b in
      elim (Bool-cases (is_shutdown m.kind)) [
        | inl e ↦ rw e (
          UserAsks-true t.user t.cancel_server
              (subst (λ c. UserAsks t.user c t.cancel_server) idle a),
          refl,
        )
        | inr e ↦ rw e (a, b)
      ]

  user_stops-IsOrderly :
      (t : Threads) (pc : UserThread)
      → pc ≢ user_returned
      → t.cancel_user ≡ true
      → UserAsks pc t.cancel_user t.cancel_server
      → UserAsks user_stopped t.cancel_user t.cancel_server
  user_stops-IsOrderly t at_top n c h = (c, h)
  user_stops-IsOrderly t reading n c h = (c, h)
  user_stops-IsOrderly t user_returned n c h = absurd (n refl)
  user_stops-IsOrderly t user_stopped n c h = h

  server_stops-IsOrderly :
      (t : Threads) (pc : ServerThread)
      → pc ≢ server_returned
      → t.cancel_server ≡ true
      → ServerAsks pc t.cancel_user t.cancel_server
      → ServerAsks server_stopped t.cancel_user t.cancel_server
  server_stops-IsOrderly t listening n c h = (c, h)
  server_stops-IsOrderly t server_returned n c h = absurd (n refl)
  server_stops-IsOrderly t server_stopped n c h = h

  pub Step-IsOrderly : {t t' : Threads} → Step stack u t t' → IsOrderly t → IsOrderly t'
  Step-IsOrderly {t} user_runs h = user_act-IsOrderly t t.user refl h
  Step-IsOrderly {t} (server_runs l) h = server_act-IsOrderly t t.arriving l h
  Step-IsOrderly {t} (user_stops c n) (a, b) = (user_stops-IsOrderly t t.user n c a, b)
  Step-IsOrderly {t} (server_stops c n) (a, b) = (a, server_stops-IsOrderly t t.server n c b)

  pub Reach-IsOrderly : {t t' : Threads} → IsOrderly t → Reach stack u t t' → IsOrderly t'
  Reach-IsOrderly h here = h
  Reach-IsOrderly h (next r st) = Step-IsOrderly st (Reach-IsOrderly h r)

  -- In every interleaving a thread is stopped only after the other one has returned: never are both
  -- stopped.
  pub never_both_stopped :
      (s : Simpio) (input : Bytes) (arriving : List Mesg) (t : Threads)
      → Reach stack u (both_created s input arriving) t
      → ¬ ((t.user ≡ user_stopped) × (t.server ≡ server_stopped))
  never_both_stopped s input arriving t r (p, q) =
      let (a, b) = Reach-IsOrderly (refl, refl) r in
      let not_asked = rw p at a in let asked = rw q at b in cc (sym asked.0 ∙ not_asked.1)
