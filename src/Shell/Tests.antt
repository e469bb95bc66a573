-- ===== src/Shell/Tests.antt =====
-- Runs of the shell at concrete inputs.
use completed_projects.Common.{
  subst, ℕ, minus_one, false, ◌≢◌, ◌+◌, ◌<◌, ◌≤◌, pos, true, Option, none, some, List, [], ◌∷◌,
  ◌++◌, ◌≡◌, refl, take, length, replicate, length-replicate, arith, inl,
}
use completed_projects.Common.CString.{Bytes, codes, IsText}
use completed_projects.Common.Decimal.{atoi, strtoul}
use completed_projects.Shell.Tokens.{
  arg_max, strtok_all, parse_into_tokens, AllTokens, line_of, parse_into_tokens-line_of,
}
use completed_projects.Shell.Cmd.{
  Nohang, do_block, no_block, Cmd, Answer, buf_size, name_max, max_child, read_all,
  cmd_update_state,
}
use completed_projects.Shell.Cmd.Output.{IsFresh, Exited, cmd_update_state-Exited}
use completed_projects.Shell.Cmd.Zeros.{read_all-append}
use completed_projects.Shell.Commando.Child.{IsProgram, main_tokens_child}
use completed_projects.Shell.Cmd.{exit_text}
use completed_projects.Shell.Commando.Unforked.{NoneExits, main_tokens_unforked_exits}
use completed_projects.Shell.Session.{take_line, main}
use completed_projects.Shell.Session.Ends.{lines, AllPlain, main-Returns}
use completed_projects.Shell.Commando.{main_tokens, Round, run_job, main_line, job_at}
use completed_projects.Shell.Commando.Table.{Returns, IsTable}
use completed_projects.Shell.Commando.Jobs.{started, run_job_full}
use completed_projects.Shell.Commando.WaitAll.{
  AllReport, AllCollected, wait_all, main_tokens-wait_all,
}
use completed_projects.Shell.Commando.Rounds.{AllRead, IsSafe, RoundEnd, main_line-Returns}

abbrev words : List Bytes
words = codes "ls" ∷ codes "-l" ∷ []

words-AllTokens : AllTokens words
words-AllTokens = ((λ e. cc, (refl, (refl, tt))), ((λ e. cc, (refl, (refl, tt))), tt))

parse_into_tokens-line_of_example :
    parse_into_tokens (line_of words) ≡ (take arg_max words, length (take arg_max words))
parse_into_tokens-line_of_example = parse_into_tokens-line_of words words-AllTokens

cuts : parse_into_tokens (codes " ls  -l\n") ≡ (words, 2)
unfolding parse_into_tokens strtok_all
cuts = refl

abbrev fresh : ℕ → Bytes
fresh k = replicate k b'?'

fresh-IsFresh : IsFresh fresh
fresh-IsFresh k = length-replicate k b'?'

hello-IsText : IsText (codes "hello\n")
hello-IsText = omega arith

abbrev filler : Bytes
filler = replicate 1020 b'y'

abc-IsText : IsText (codes "abc")
abc-IsText = omega arith

filler_full : length (codes "abc" ++ 0 ∷ filler) ≡ buf_size
filler_full = refl

short : length (codes "hello\n") ≤ buf_size
short = omega arith

read_all-append_example :
    (buf : Bytes) × (read_all fresh true ((codes "abc" ++ 0 ∷ filler) ++ codes "hello\n")
      ≡ some (buf, buf_size + 6))
    × (take 9 buf ≡ codes "abchello\n")
read_all-append_example =
    read_all-append fresh (codes "abc") filler b'h' (codes "ello\n") fresh-IsFresh abc-IsText
      hello-IsText filler_full short

abbrev job : Cmd
job = started (pos 41) (codes "ls") []

abbrev exits : Answer
exits = record { ret = pos 41; exited = true; code = 3; readable = true; pipe = codes "hello\n" }

code_small : 3 < 256
code_small = omega arith

cmd_update_state-Exited_example : Exited exits (cmd_update_state fresh exits job)
cmd_update_state-Exited_example =
    cmd_update_state-Exited fresh exits job fresh-IsFresh refl refl refl refl code_small
      hello-IsText

abbrev round : Round
round = record { fork = pos 42; waits = λ h i. exits; later = λ h i. exits; fresh = fresh }

job-IsTable : IsTable (job ∷ [])
job-IsTable = (omega arith, (inl (refl, refl, refl), tt))

abbrev line : Bytes
line = codes "output-for 0\n"

abbrev NamesJob : Option Bytes → Type 0
NamesJob none = Unit {0}
NamesJob (some j) = job_at (job ∷ []) (atoi j) ≡ some job

zero-NamesJob : NamesJob (some (codes "0"))
unfolding atoi strtoul
zero-NamesJob = refl

line-IsSafe : IsSafe (job ∷ []) (parse_into_tokens line).0
unfolding parse_into_tokens strtok_all
line-IsSafe = (omega arith, λ j e. (job, subst NamesJob e zero-NamesJob))

round-AllRead : AllRead round
round-AllRead = ((λ h j e. refl), λ h j e. refl)

main_line-Returns_example : Returns RoundEnd (main_line round (job ∷ []) line)
main_line-Returns_example =
    main_line-Returns round (job ∷ []) line round-AllRead job-IsTable line-IsSafe

ls_short : length (codes "ls") ≤ name_max
ls_short = omega arith

parent : round.fork ≢ pos 0
parent e = cc

none_yet : length {A = Cmd} [] < max_child
none_yet = omega arith

abbrev child : Round
child = record {
  fork = pos 0;
  waits = λ h i. exits;
  later = λ h i. record exits { exited = false };
  fresh = fresh;
}

ls-IsProgram : IsProgram (codes "ls")
ls-IsProgram = (refl, refl, refl, refl, refl, refl, refl, refl)

child_runs : (j : ℕ) → (child.later no_block j).exited ≡ false
child_runs j = refl

main_tokens_child_example :
    main_tokens child [] (codes "ls" ∷ []) ≡ some (true, started minus_one (codes "ls") [] ∷ [], [])
main_tokens_child_example =
    main_tokens_child child [] (codes "ls") [] ls-IsProgram ls_short none_yet refl child_runs

-- `fork` and then `waitpid` fail, and the stack holds an exit with code 7.
abbrev unforked : Round
unforked = record {
  fork = minus_one;
  waits = λ h i. exits;
  later = λ h i. record { ret = minus_one; exited = true; code = 7; readable = true; pipe = [] };
  fresh = fresh;
}

job-NoneExits : NoneExits unforked.later no_block 0 (job ∷ [])
job-NoneExits = (λ f e. cc, tt)

main_tokens_unforked_exits_example :
    (j : Cmd) × (out : Bytes) × (main_tokens unforked (job ∷ []) (codes "ls" ∷ [])
      ≡ some (true, (job ∷ []) ++ j ∷ [], out))
    × (j.finished ≡ true)
    × (j.status ≡ pos 7)
    × (j.str_status ≡ exit_text 7)
main_tokens_unforked_exits_example =
    main_tokens_unforked_exits unforked (job ∷ []) (codes "ls") [] fresh-IsFresh ls-IsProgram
      ls_short (omega arith) refl job-NoneExits refl refl refl (omega arith) (omega arith)

abbrev input : Bytes
input = codes "ls -l\nexit\n"

input-AllPlain : AllPlain (lines (length input + 1) input)
unfolding lines take_line parse_into_tokens strtok_all
input-AllPlain = ((omega arith, refl), ((omega arith, refl), tt))

main-Returns_example :
    (out : Bytes) × (main false (codes "--echo" ∷ []) (λ k. round) input ≡ some out)
main-Returns_example =
    main-Returns false (codes "--echo" ∷ []) (λ k. round) input (λ k. round-AllRead) input-AllPlain

abbrev others : List Cmd
others = replicate 1023 job

others_full : length (others ++ job ∷ []) ≡ max_child
others_full = refl

run_job_full_example :
    run_job round (others ++ job ∷ []) (codes "ls" ∷ [])
    ≡ some (others ++ record job { str_status = codes "RUN"; pid = pos 42 } ∷ [], [])
run_job_full_example = run_job_full round others job (codes "ls") [] ls_short others_full parent

abbrev answers : Nohang → ℕ → Answer
answers do_block i = exits
answers no_block i = record exits { ret = pos 0; exited = false }

-- A system on which a job is only reported by a blocking call.
abbrev slow : Round
slow = record round { waits = answers }

job-AllReport : AllReport (slow.waits do_block) 0 (job ∷ [])
job-AllReport = ((λ e. (refl, refl, refl, code_small, hello-IsText)), tt)

main_tokens-wait_all_example :
    (ctl' : List Cmd) × (out : Bytes) × (main_tokens slow (job ∷ []) (wait_all ∷ [])
      ≡ some (true, ctl', out))
    × AllCollected (slow.waits do_block) 0 (job ∷ []) ctl'
main_tokens-wait_all_example = main_tokens-wait_all slow (job ∷ []) [] fresh-IsFresh job-AllReport
