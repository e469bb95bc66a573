-- ===== src/Chat/Client/Threads/Interleaving.antt =====
-- bl-client.c: the two threads at once. Whatever order they run in, what is sent is what the user
-- thread would send alone.
use completed_projects.Common.{
  ℕ, ◌+◌, true, false, ◌||◌, Bool-cases, inl, inr, List, [], ◌∷◌, ◌++◌, ◌≡◌, refl, ap, ◌∙◌, sym,
  subst, append-nil, length, arith,
}
use completed_projects.Common.CString.{Bytes}
use completed_projects.Chat.Blather.{max_line, Mesg}
use completed_projects.Chat.Simpio.{Simpio, Stack}
use completed_projects.Chat.Client.{read_line, user_to_server, is_shutdown, show_mesg}
use completed_projects.Chat.Client.Conversation.{script, AreLines, sent, user_to_server-sent}
use completed_projects.Chat.Client.Threads.{
  UserThread, at_top, reading, user_returned, user_stopped, server_returned, server_stopped,
  Threads, both_created, server_act, Step, user_runs, server_runs, user_stops, server_stops, Reach,
  here, next,
}
use completed_projects.Chat.Client.Threads.Terminal.{
  Alike, read_line-Alike, messages, user_line-Alike, user_to_server-Alike, show_mesg-Alike,
}
use completed_projects.Chat.Client.Threads.UserSteps.{some_inj, to_send, Sends, user_act-Sends}

module _ (stack : Stack) (u : Bytes) where
  to_send-Alike :
      (fuel : ℕ) (s s' : Simpio) (cs : Bytes)
      → Alike s s'
      → to_send stack u fuel reading s cs ≡ to_send stack u fuel reading s' cs
  to_send-Alike fuel s s' cs h =
      let r = read_line s cs in
      let r' = read_line s' cs in
      let (alike, left_over) = read_line-Alike s s' cs h in
      let after_line =
        user_to_server-Alike stack fuel u r.0 r'.0 r.1 alike
        ∙ ap (λ cs'. messages (user_to_server stack fuel u r'.0 cs')) left_over in
      let same : (s.line_ready || s.end_of_input) ≡ (s'.line_ready || s'.end_of_input) =
        ap (λ (x : Simpio). x.line_ready || x.end_of_input) h in
      elim (Bool-cases (s.line_ready || s.end_of_input)) [
        | inl e ↦
            rw (e, sym same ∙ e)
              (user_line-Alike u s s' _ _ h (user_to_server-Alike stack fuel u s s' cs h))
        | inr e ↦ rw (e, sym same ∙ e) (user_line-Alike u r.0 r'.0 _ _ alike after_line)
      ]

  -- Only the terminal changes, and only in what it shows.
  Sends-Alike :
      (all : List Mesg) (t t' : Threads) (pc : UserThread)
      → Alike t'.term t.term
      → t'.input ≡ t.input
      → t'.written ≡ t.written
      → Sends stack u all t pc
      → Sends stack u all t' pc
  Sends-Alike all t t' at_top a i w (fuel, rest, run, whole) = (
    fuel,
    rest,
    user_to_server-Alike stack fuel u t'.term t.term t'.input a
        ∙ ap (λ cs. messages (user_to_server stack fuel u t.term cs)) i
        ∙ run,
    ap (λ ms. ms ++ rest) w ∙ whole,
  )
  Sends-Alike all t t' reading a i w (fuel, rest, run, whole) = (
    fuel,
    rest,
    to_send-Alike fuel t'.term t.term t'.input a ∙ ap (to_send stack u fuel reading t.term) i ∙ run,
    ap (λ ms. ms ++ rest) w ∙ whole,
  )
  Sends-Alike all t t' user_returned a i w (fuel, rest, run, whole) =
      (fuel, rest, run, ap (λ ms. ms ++ rest) w ∙ whole)
  Sends-Alike all t t' user_stopped a i w (rest, whole) = (rest, ap (λ ms. ms ++ rest) w ∙ whole)

  server_act-Sends :
      (all : List Mesg) (t : Threads) (arriving : List Mesg)
      → Sends stack u all t t.user
      → let t' = server_act stack u t arriving in Sends stack u all t' t'.user
  unfolding server_act
  server_act-Sends all t [] h = h
  server_act-Sends all t (m ∷ ms) h =
      let alike = show_mesg-Alike stack t.term m in
      let shown : Threads = record t { term = show_mesg stack t.term m; arriving = ms } in
      let ended : Threads = record shown { cancel_user = true; server = server_returned } in
      elim (Bool-cases (is_shutdown m.kind)) [
        | inl e ↦ rw e (Sends-Alike all t ended t.user alike refl refl h)
        | inr e ↦ rw e (Sends-Alike all t shown t.user alike refl refl h)
      ]

  stop-Sends :
      (all : List Mesg) (t t' : Threads) (pc : UserThread)
      → t'.written ≡ t.written
      → Sends stack u all t pc
      → Sends stack u all t' user_stopped
  stop-Sends all t t' at_top w (fuel, rest, run, whole) = (rest, ap (λ ms. ms ++ rest) w ∙ whole)
  stop-Sends all t t' reading w (fuel, rest, run, whole) = (rest, ap (λ ms. ms ++ rest) w ∙ whole)
  stop-Sends all t t' user_returned w (fuel, rest, run, whole) =
      (rest, ap (λ ms. ms ++ rest) w ∙ whole)
  stop-Sends all t t' user_stopped w (rest, whole) = (rest, ap (λ ms. ms ++ rest) w ∙ whole)

  Step-Sends :
      (all : List Mesg) {t t' : Threads}
      → Step stack u t t'
      → Sends stack u all t t.user
      → Sends stack u all t' t'.user
  Step-Sends all {t} user_runs h = user_act-Sends stack u all t t.user refl h
  Step-Sends all {t} (server_runs l) h = server_act-Sends all t t.arriving h
  Step-Sends all {t} (user_stops c n) h =
      stop-Sends all t (record t { user = user_stopped }) t.user refl h
  Step-Sends all {t} (server_stops c n) h =
      Sends-Alike all t (record t { server = server_stopped }) t.user refl refl refl h

  Reach-Sends :
      (all : List Mesg) {t t' : Threads}
      → Sends stack u all t t.user
      → Reach stack u t t'
      → Sends stack u all t' t'.user
  Reach-Sends all h here = h
  Reach-Sends all h (next r st) = Step-Sends all st (Reach-Sends all h r)

  module _ (ls : List Bytes) (s : Simpio) (arriving : List Mesg) (t : Threads) where
    start-Sends :
        AreLines ls
        → length s.buf ≡ max_line
        → s.end_of_input ≡ false
        → Reach stack u (both_created s (script ls) arriving) t
        → Sends stack u (sent u ls) t t.user
    start-Sends a b e r =
        let fuel = length ls + 2 in
        let (s', alone) = user_to_server-sent stack u ls fuel s a b e (omega arith) in
        Reach-Sends (sent u ls) (fuel, sent u ls, ap messages alone, refl) r

    -- However the two threads are interleaved, and whatever the server sends meanwhile, what has been
    -- written to the server is at any moment the beginning of what the user thread sends alone.
    pub Reach-sent :
        AreLines ls
        → length s.buf ≡ max_line
        → s.end_of_input ≡ false
        → Reach stack u (both_created s (script ls) arriving) t
        → (rest : List Mesg) × (t.written ++ rest ≡ sent u ls)
    Reach-sent a b e r = let h = start-Sends a b e r in written_part t.user h
      where
        written_part :
            (pc : UserThread)
            → Sends stack u (sent u ls) t pc
            → (rest : List Mesg) × (t.written ++ rest ≡ sent u ls)
        written_part at_top (fuel, rest, run, whole) = (rest, whole)
        written_part reading (fuel, rest, run, whole) = (rest, whole)
        written_part user_returned (fuel, rest, run, whole) = (rest, whole)
        written_part user_stopped (rest, whole) = (rest, whole)

    -- Once the user thread has returned, all of it has been written: no line is lost or changed by what
    -- the server thread shows.
    pub returned-sent :
        AreLines ls
        → length s.buf ≡ max_line
        → s.end_of_input ≡ false
        → Reach stack u (both_created s (script ls) arriving) t
        → t.user ≡ user_returned
        → t.written ≡ sent u ls
    returned-sent a b e r back =
        let (fuel, rest, run, whole) =
          subst (Sends stack u (sent u ls) t) back (start-Sends a b e r) in
        sym (append-nil t.written) ∙ ap (◌++◌ t.written) (some_inj run) ∙ whole
