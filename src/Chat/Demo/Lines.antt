-- ===== src/Chat/Demo/Lines.antt =====
-- simpio-demo.c: every line that is typed is echoed with its number, whatever is shown in between.
use completed_projects.Common.{false, ◌≡◌, refl, sym, subst, List, [], length}
use completed_projects.Common.CString.{Bytes}
use completed_projects.Chat.Blather.{max_line}
use completed_projects.Chat.Simpio.{Stack, zero_simpio, simpio_reset, simpio_set_prompt}
use completed_projects.Chat.Simpio.Mode.{Tty, restores}
use completed_projects.Chat.Client.Conversation.{script, AreLines}
use completed_projects.Chat.Demo.{
  UserWorker, at_top, reading, returned, stopped, Workers, both_created, user_worker,
  background_worker, Step, user_runs, background_runs, background_stops, Reach, here, next, set_up,
  Exits, leaves,
}
use completed_projects.Chat.Demo.Screen.{Shown, nothing, Reach-Shown}
use completed_projects.Chat.Demo.Stages.{
  Stage, numbered, before_line, before_return, within_line, behind_line, behind_lines, at_end, over,
  background_worker-Stage, at_top-Stage, reading-Stage,
}

module _ (stack : Stack) (all : List Bytes) where
  user_worker-Stage :
      (t : Workers) (pc : UserWorker)
      → t.user ≡ pc
      → Stage all t pc
      → let t' = user_worker stack t pc in Stage all t' t'.user
  unfolding user_worker
  user_worker-Stage t at_top at h = at_top-Stage stack all t h
  user_worker-Stage t reading at h = reading-Stage stack all t at h
  user_worker-Stage t returned at h = subst (Stage all t) (sym at) h

  stopped-Stage :
      (t : Workers) (pc : UserWorker)
      → Stage all t pc
      → Stage all (record t { background = stopped }) pc
  stopped-Stage t at_top (before_line rest e b a i w) = before_line rest e b a i w
  stopped-Stage t at_top (before_return e w) = before_return e w
  stopped-Stage t reading (within_line l xs rest v s o ne a i x w) =
      within_line l xs rest v s o ne a i x w
  stopped-Stage t reading (behind_line l rest v s x a i w) = behind_line l rest v s x a i w
  stopped-Stage t reading (behind_lines v s i w) = behind_lines v s i w
  stopped-Stage t reading (at_end e f w) = at_end e f w
  stopped-Stage t returned (over w) = over w

  Step-Stage : {t t' : Workers} → Step stack t t' → Stage all t t.user → Stage all t' t'.user
  Step-Stage {t} user_runs h = user_worker-Stage t t.user refl h
  Step-Stage {t} (background_runs e) h =
      unfold background_worker in background_worker-Stage stack all t t.user h
  Step-Stage {t} (background_stops e) h = stopped-Stage t t.user h

  Reach-Stage : {s t : Workers} → Stage all s s.user → Reach stack s t → Stage all t t.user
  Reach-Stage h here = h
  Reach-Stage h (next r st) = Step-Stage st (Reach-Stage h r)

returned-all :
    (all : List Bytes) (t : Workers) (pc : UserWorker)
    → pc ≡ returned
    → Stage all t pc
    → t.echoes ≡ all
returned-all all t at_top e h = cc
returned-all all t reading e h = cc
returned-all all t returned e (over w) = w

set_up_ready :
    (length (set_up zero_simpio).buf ≡ max_line)
    × ((set_up zero_simpio).end_of_input ≡ false)
    × ((set_up zero_simpio).out ≡ [])
unfolding set_up simpio_reset simpio_set_prompt zero_simpio
set_up_ready = (refl, refl, refl)

run_echoes :
    (stack : Stack) {tty tty' : Tty} {input : Bytes} {echoes : List Bytes} {out : Bytes}
    (ls : List Bytes)
    → input ≡ script ls
    → AreLines ls
    → Exits stack tty input tty' echoes out
    → (tty'.settings ≡ tty.settings) × (echoes ≡ numbered 1 ls) × Shown (numbered 1 ls) out
run_echoes stack {tty = tty} ls i a (leaves {t = t} r e stops) =
    let begun : Stage (numbered 1 ls) (both_created (set_up zero_simpio) _) at_top =
      before_line ls set_up_ready.1 set_up_ready.0 a i refl in
    let all = returned-all (numbered 1 ls) t t.user e (Reach-Stage stack (numbered 1 ls) begun r) in
    let blank : Shown [] (set_up zero_simpio).out = subst (Shown []) (sym set_up_ready.2) nothing in
    (restores tty, all, subst (λ l. Shown l t.term.out) all (Reach-Shown stack blank r))

-- If what is typed is lines: when `main` of the demonstration returns, every line has been handed to
-- `iprintf` once, in order and with its number, cut to the 1023 bytes that the editor holds, and the
-- texts made of them stand on the screen in that order, each behind the code that erases the line and
-- cut to 1023 bytes as a whole, however often the background worker came in between; and standard
-- input has the settings that it had before.
pub Exits-numbered :
    (stack : Stack) (tty tty' : Tty) (ls echoes : List Bytes) (out : Bytes)
    → AreLines ls
    → Exits stack tty (script ls) tty' echoes out
    → (tty'.settings ≡ tty.settings) × (echoes ≡ numbered 1 ls) × Shown (numbered 1 ls) out
Exits-numbered stack tty tty' ls echoes out a x = run_echoes stack ls refl a x
