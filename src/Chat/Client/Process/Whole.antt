-- ===== src/Chat/Client/Process/Whole.antt =====
-- bl-client.c: what a whole run of the client has sent, and the terminal that it leaves.
use completed_projects.Common.{
  ℕ, Bool, true, false, Option, none, some, List, [], ◌∷◌, ◌≡◌, ◌≢◌, refl, sym, ◌∙◌, subst, length,
  if◌then◌else◌,
}
use completed_projects.Common.CString.{Bytes}
use completed_projects.Chat.Blather.{max_line, Mesg}
use completed_projects.Chat.Os.{Os}
use completed_projects.Chat.Simpio.{Stack, zero_simpio, simpio_reset, simpio_set_prompt}
use completed_projects.Chat.Simpio.Mode.{Tty, restores}
use completed_projects.Chat.Client.{is_shutdown}
use completed_projects.Chat.Client.Conversation.{script, AreLines, sent}
use completed_projects.Chat.Client.Joining.{set_up_terminal}
use completed_projects.Chat.Client.Threads.{
  UserThread, at_top, reading, user_returned, user_stopped, Threads, both_created, get_char,
  user_act, server_act, Step, user_runs, server_runs, user_stops, server_stops, Reach, here, next,
}
use completed_projects.Chat.Client.Threads.Interleaving.{returned-sent}
use completed_projects.Chat.Client.Process.{UserEnded, Exits, shows_usage, finds_no_server, leaves}

-- None of the messages is a shutdown.
abbrev pub NoShutdown : List Mesg → Type 0
NoShutdown [] = Unit {0}
NoShutdown (m ∷ ms) = (is_shutdown m.kind ≡ false) × NoShutdown ms

-- The server thread goes on, so nobody asks for the user thread, and it runs to its end.
record IsUndisturbed (t : Threads) : Type 0 where
  coming : NoShutdown t.arriving
  unasked : t.cancel_user ≡ false
  running : t.user ≢ user_stopped

module _ (stack : Stack) (u : Bytes) where
  get_char-IsUndisturbed :
      (t : Threads) (input : Bytes) → IsUndisturbed t → IsUndisturbed (get_char t input)
  get_char-IsUndisturbed t [] h = record {
    coming = h.coming;
    unasked = h.unasked;
    running = h.running;
  }
  get_char-IsUndisturbed t (c ∷ cs) h = record {
    coming = h.coming;
    unasked = h.unasked;
    running = h.running;
  }

  if-IsUndisturbed :
      (c : Bool) (t t' : Threads)
      → IsUndisturbed t
      → IsUndisturbed t'
      → IsUndisturbed (if c then t else t')
  if-IsUndisturbed true t t' h k = h
  if-IsUndisturbed false t t' h k = k

  user_act-IsUndisturbed :
      (t : Threads) (pc : UserThread)
      → t.user ≡ pc
      → IsUndisturbed t
      → IsUndisturbed (user_act stack u t pc)
  unfolding user_act
  user_act-IsUndisturbed t at_top at h =
      if-IsUndisturbed t.term.end_of_input _ _
        (record { coming = h.coming; unasked = h.unasked; running = λ e. cc })
        (record { coming = h.coming; unasked = h.unasked; running = λ e. cc })
  user_act-IsUndisturbed t reading at h =
      if-IsUndisturbed t.term.line_ready _ _
        (record { coming = h.coming; unasked = h.unasked; running = λ e. cc })
        (if-IsUndisturbed t.term.end_of_input _ _
          (record { coming = h.coming; unasked = h.unasked; running = λ e. cc })
          (get_char-IsUndisturbed t t.input h))
  user_act-IsUndisturbed t user_returned at h = h
  user_act-IsUndisturbed t user_stopped at h = h

  server_act-IsUndisturbed :
      (t : Threads) (arriving : List Mesg)
      → t.arriving ≡ arriving
      → IsUndisturbed t
      → IsUndisturbed (server_act stack u t arriving)
  unfolding server_act
  server_act-IsUndisturbed t [] at h = h
  server_act-IsUndisturbed t (m ∷ ms) at h =
      let coming = subst NoShutdown at h.coming in
      rw (coming.0) (record { coming = coming.1; unasked = h.unasked; running = h.running })

  Step-IsUndisturbed : {t t' : Threads} → Step stack u t t' → IsUndisturbed t → IsUndisturbed t'
  Step-IsUndisturbed {t} user_runs h = user_act-IsUndisturbed t t.user refl h
  Step-IsUndisturbed {t} (server_runs l) h = server_act-IsUndisturbed t t.arriving refl h
  Step-IsUndisturbed {t} (user_stops c n) h = cc (sym c ∙ h.unasked)
  Step-IsUndisturbed {t} (server_stops c n) h = record {
    coming = h.coming;
    unasked = h.unasked;
    running = h.running;
  }

  Reach-IsUndisturbed : {t t' : Threads} → IsUndisturbed t → Reach stack u t t' → IsUndisturbed t'
  Reach-IsUndisturbed h here = h
  Reach-IsUndisturbed h (next r st) = Step-IsUndisturbed st (Reach-IsUndisturbed h r)

-- The terminal is set up as the user thread expects it.
set_up_terminal_ready :
    (u : Bytes)
    → (length (set_up_terminal zero_simpio u).buf ≡ max_line)
      × ((set_up_terminal zero_simpio u).end_of_input ≡ false)
unfolding set_up_terminal simpio_reset simpio_set_prompt zero_simpio
set_up_terminal_ready u = (refl, refl)

-- What is written is all that was typed, if the client has joined.
abbrev pub SendsAll : Bytes → List Bytes → Option (List Mesg) → Type 0
SendsAll u ls none = Unit {0}
SendsAll u ls (some ms) = ms ≡ sent u ls

second_argument : {a b c d : Bytes} → ◌≡◌ {A = List Bytes} (a ∷ b ∷ []) (c ∷ d ∷ []) → b ≡ d
second_argument h = cc

module _ (stack : Stack) (u : Bytes) (ls : List Bytes) (arriving : List Mesg) where
  ended-sent :
      (t : Threads) (pc : UserThread)
      → AreLines ls
      → NoShutdown arriving
      → Reach stack u (both_created (set_up_terminal zero_simpio u) (script ls) arriving) t
      → t.user ≡ pc
      → UserEnded pc
      → t.written ≡ sent u ls
  ended-sent t user_returned a n r e h =
      let ready = set_up_terminal_ready u in
      returned-sent stack u ls (set_up_terminal zero_simpio u) arriving t a ready.0 ready.1 r e
  ended-sent t user_stopped a n r e h =
      let begun : IsUndisturbed
          (both_created (set_up_terminal zero_simpio u) (script ls) arriving) =
        record { coming = n; unasked = refl; running = λ e. cc } in
      absurd ((Reach-IsUndisturbed stack u begun r).running e)
  ended-sent t at_top a n r e h = elim h [ ]
  ended-sent t reading a n r e h = elim h [ ]

module _ (os : Os) (stack : Stack) (pid : ℕ) (arriving : List Mesg) where
  run_restores :
      {args : List Bytes} {tty tty' : Tty} {input : Bytes} {w : Option (List Mesg)}
      → Exits os stack pid args tty input arriving tty' w
      → tty'.settings ≡ tty.settings
  run_restores (shows_usage p c) = refl
  run_restores (finds_no_server p c) = refl
  run_restores {tty = tty} (leaves same p c r user_end server_end) = restores tty

  run_sends :
      {args : List Bytes} {tty tty' : Tty} {input : Bytes} {w : Option (List Mesg)}
      (server u : Bytes) (ls : List Bytes)
      → args ≡ server ∷ u ∷ []
      → input ≡ script ls
      → AreLines ls
      → NoShutdown arriving
      → Exits os stack pid args tty input arriving tty' w
      → SendsAll u ls w
  run_sends server u ls e i a n (shows_usage p c) = tt
  run_sends server u ls e i a n (finds_no_server p c) = tt
  run_sends {input = input} server u ls e i a n
        (leaves {username = u'} {th = th} same p c r user_end server_end) =
      let name : u' ≡ u = second_argument (sym same ∙ e) in
      let begun =
        subst (λ x. Reach stack x (both_created (set_up_terminal zero_simpio x) input arriving) th)
          name r in
      let typed =
        subst (λ x. Reach stack u (both_created (set_up_terminal zero_simpio u) x arriving) th) i
          begun in
      ended-sent stack u ls arriving th th.user a n typed refl user_end

module _ (os : Os) (stack : Stack) (pid : ℕ) (server u : Bytes) (ls : List Bytes)
    (arriving : List Mesg) (tty tty' : Tty) (w : Option (List Mesg)) where
  -- If what is typed is lines and the server sends no shutdown: whenever `main` returns, standard
  -- input has the settings that it had before, and a client that has joined has sent every typed
  -- line, with the goodbye behind them, however the threads were interleaved.
  pub Exits-sent :
      AreLines ls
      → NoShutdown arriving
      → Exits os stack pid (server ∷ u ∷ []) tty (script ls) arriving tty' w
      → (tty'.settings ≡ tty.settings) × SendsAll u ls w
  Exits-sent a n x = (
    run_restores os stack pid arriving x,
    run_sends os stack pid arriving server u ls refl refl a n x,
  )
