-- ===== src/Chat/Demo/Stages.antt =====
-- simpio-demo.c: where the user worker stands in the lines that are typed, step by step.
use completed_projects.Common.{
  ℕ, ◌+◌, ◌-◌, ◌<◌, true, false, ◌≡◌, ◌≢◌, refl, sym, ap, subst, ◌∙◌, none, some, List, [], ◌∷◌,
  ◌++◌, take, take_all, length, append-nil, append_assoc, arith,
}
use completed_projects.Common.CString.{Bytes, c_str, IsText}
use completed_projects.Chat.Blather.{max_line}
use completed_projects.Chat.Simpio.{Stack, simpio_reset, simpio_get_char, iprintf}
use completed_projects.Chat.Simpio.Editing.{
  IsTerminated, Editor, view, press, view-simpio_get_char, simpio_get_char-IsTerminated,
}
use completed_projects.Chat.Client.Conversation.{length-line-lt}
use completed_projects.Chat.Simpio.Typing.{
  IsOrdinaryText, IsText-take, c_str-line, typing, entered, grow, press_ordinary, press_enter,
  take-grow, grow-ne-nil,
}
use completed_projects.Chat.Client.Conversation.{
  script, AreLines, ready-IsTerminated, view-ready, append-ne-nil,
}
use completed_projects.Chat.Demo.{
  UserWorker, at_top, reading, returned, Workers, echo, get_char, user_worker, background_worker,
}

-- The echoes of some lines, from a number on; the editor holds 1023 bytes of each.
abbrev pub numbered : ℕ → List Bytes → List Bytes
numbered n [] = []
numbered n (l ∷ ls) = echo n (take (max_line - 1) l) ∷ numbered (n + 1) ls

-- How far the user worker is, if `all` is to be echoed in the end.
pub data Stage (all : List Bytes) (t : Workers) : UserWorker → Type 0 where
  before_line :
      (rest : List Bytes)
      → t.term.end_of_input ≡ false
      → length t.term.buf ≡ max_line
      → AreLines rest
      → t.input ≡ script rest
      → t.echoes ++ numbered t.count rest ≡ all
      → Stage all t at_top
  before_return : t.term.end_of_input ≡ true → t.echoes ≡ all → Stage all t at_top
  within_line :
      (l xs : Bytes) (rest : List Bytes)
      → IsTerminated t.term
      → view t.term ≡ typing l
      → IsOrdinaryText xs
      → l ++ xs ≢ []
      → AreLines rest
      → t.input ≡ xs ++ b'\n' ∷ script rest
      → IsText (take (max_line - 1) (l ++ xs))
      → t.echoes ++ (echo t.count (take (max_line - 1) (l ++ xs)) ∷ numbered (t.count + 1) rest)
        ≡ all
      → Stage all t reading
  behind_line :
      (l : Bytes) (rest : List Bytes)
      → IsTerminated t.term
      → view t.term ≡ entered l
      → IsText l
      → AreLines rest
      → t.input ≡ script rest
      → t.echoes ++ (echo t.count l ∷ numbered (t.count + 1) rest) ≡ all
      → Stage all t reading
  behind_lines :
      IsTerminated t.term
      → view t.term ≡ typing []
      → t.input ≡ []
      → t.echoes ≡ all
      → Stage all t reading
  at_end :
      t.term.line_ready ≡ false → t.term.end_of_input ≡ true → t.echoes ≡ all → Stage all t reading
  over : t.echoes ≡ all → Stage all t returned

module _ (stack : Stack) (all : List Bytes) where
  -- The background worker touches nothing but the screen.
  pub background_worker-Stage :
      (t : Workers) (pc : UserWorker) → Stage all t pc → Stage all (background_worker stack t) pc
  unfolding background_worker iprintf
  background_worker-Stage t at_top (before_line rest e b a i w) = before_line rest e b a i w
  background_worker-Stage t at_top (before_return e w) = before_return e w
  background_worker-Stage t reading (within_line l xs rest v s o ne a i x w) =
      within_line l xs rest (record { size = v.size; inside = v.inside; nul = v.nul }) s o ne a i x
        w
  background_worker-Stage t reading (behind_line l rest v s x a i w) =
      behind_line l rest (record { size = v.size; inside = v.inside; nul = v.nul }) s x a i w
  background_worker-Stage t reading (behind_lines v s i w) =
      behind_lines (record { size = v.size; inside = v.inside; nul = v.nul }) s i w
  background_worker-Stage t reading (at_end e f w) = at_end e f w
  background_worker-Stage t returned (over w) = over w

  -- The first key of a round, with a line to come or at the end of the input.
  prompted-Stage :
      (t : Workers) (rest : List Bytes)
      → t.term.end_of_input ≡ false
      → length t.term.buf ≡ max_line
      → AreLines rest
      → t.input ≡ script rest
      → t.echoes ++ numbered t.count rest ≡ all
      → Stage all
          (record t { term = iprintf stack (simpio_reset t.term) []; user = reading })
          reading
  prompted-Stage t [] e b a i w =
      behind_lines (ready-IsTerminated stack t.term b) (view-ready stack t.term) i
        (sym (append-nil t.echoes) ∙ w)
  prompted-Stage t (l ∷ rest) e b a i w =
      within_line [] l rest (ready-IsTerminated stack t.term b) (view-ready stack t.term) a.1 a.0
        a.2 i (IsText-take (max_line - 1) l a.1) w

  pub at_top-Stage :
      (t : Workers)
      → Stage all t at_top
      → let t' = user_worker stack t at_top in Stage all t' t'.user
  unfolding user_worker
  at_top-Stage t (before_line rest e b a i w) = simp e (prompted-Stage t rest e b a i w)
  at_top-Stage t (before_return e w) = simp e (over w)

  -- Enter.
  enter-Stage :
      (t : Workers) (l : Bytes) (rest : List Bytes)
      → IsTerminated t.term
      → view t.term ≡ typing l
      → l ≢ []
      → AreLines rest
      → IsText (take (max_line - 1) l)
      → t.echoes ++ (echo t.count (take (max_line - 1) l) ∷ numbered (t.count + 1) rest) ≡ all
      → Stage all (get_char t (b'\n' ∷ script rest)) reading
  enter-Stage t l rest v e ne a x w =
      let held : length l < max_line =
        subst (λ k. length k < max_line) (ap (λ (y : Editor). y.line) e)
          (length-line-lt t.term v) in
      let whole : take (max_line - 1) l ≡ l = take_all (max_line - 1) l (omega arith) in
      behind_line l rest (simpio_get_char-IsTerminated t.term (some b'\n') v)
        (view-simpio_get_char t.term (some b'\n') v
          ∙ ap (λ y. press y (some b'\n')) e
          ∙ press_enter l ne)
        (subst IsText whole x) a refl
        (subst (λ k. t.echoes ++ (echo t.count k ∷ numbered (t.count + 1) rest) ≡ all) whole w)

  get_char-Stage :
      (t : Workers) (l xs : Bytes) (rest : List Bytes)
      → IsTerminated t.term
      → view t.term ≡ typing l
      → IsOrdinaryText xs
      → l ++ xs ≢ []
      → AreLines rest
      → IsText (take (max_line - 1) (l ++ xs))
      → t.echoes ++ (echo t.count (take (max_line - 1) (l ++ xs)) ∷ numbered (t.count + 1) rest)
        ≡ all
      → Stage all (get_char t (xs ++ b'\n' ∷ script rest)) reading
  get_char-Stage t l [] rest v e o ne a x w =
      enter-Stage t l rest v e (λ h. ne (append-nil l ∙ h)) a
        (subst (λ k. IsText (take (max_line - 1) k)) (append-nil l) x)
        (subst
          (λ k.
            t.echoes ++ (echo t.count (take (max_line - 1) k) ∷ numbered (t.count + 1) rest) ≡ all)
          (append-nil l) w)
  get_char-Stage t l (c ∷ xs) rest v e o ne a x w =
      let same = sym (take-grow l c xs) in
      within_line (grow l c) xs rest (simpio_get_char-IsTerminated t.term (some c) v)
        (view-simpio_get_char t.term (some c) v
          ∙ ap (λ y. press y (some c)) e
          ∙ press_ordinary l c o.0)
        o.1 (append-ne-nil (grow l c) xs (grow-ne-nil l c)) a refl (subst IsText same x)
        (subst (λ k. t.echoes ++ (echo t.count k ∷ numbered (t.count + 1) rest) ≡ all) same w)

  last_key-Stage :
      (t : Workers)
      → IsTerminated t.term
      → view t.term ≡ typing []
      → t.echoes ≡ all
      → Stage all (get_char t []) reading
  last_key-Stage t v e w =
      let shown : view (simpio_get_char t.term none) ≡ press (typing []) none =
        view-simpio_get_char t.term none v ∙ ap (λ y. press y none) e in
      at_end (ap (λ (y : Editor). y.line_ready) shown) (ap (λ (y : Editor). y.end_of_input) shown) w

  get_char_user : (t : Workers) (input : Bytes) → (get_char t input).user ≡ t.user
  get_char_user t [] = refl
  get_char_user t (c ∷ cs) = refl

  -- The loop asks for one more character.
  asks :
      (t : Workers) (input : Bytes)
      → t.user ≡ reading
      → t.term.line_ready ≡ false
      → t.term.end_of_input ≡ false
      → t.input ≡ input
      → Stage all (get_char t input) reading
      → let t' = user_worker stack t reading in Stage all t' t'.user
  unfolding user_worker
  asks t input at e f i h =
      simp (e, f)
        (subst (Stage all (get_char t t.input)) (sym (get_char_user t t.input ∙ at))
          (subst (λ x. Stage all (get_char t x) reading) (sym i) h))

  -- The line has been echoed.
  echoed-Stage :
      (t : Workers) (l held : Bytes) (rest : List Bytes)
      → held ≡ l
      → t.term.end_of_input ≡ false
      → length t.term.buf ≡ max_line
      → AreLines rest
      → t.input ≡ script rest
      → t.echoes ++ (echo t.count l ∷ numbered (t.count + 1) rest) ≡ all
      → Stage all
          (record t {
            term = iprintf stack t.term (echo t.count held);
            count = t.count + 1;
            echoes = t.echoes ++ echo t.count held ∷ [];
            user = at_top;
          })
          at_top
  unfolding iprintf
  echoed-Stage t l held rest h e b a i w = before_line rest e b a i (
      append_assoc t.echoes (echo t.count held ∷ []) (numbered (t.count + 1) rest)
      ∙ ap (λ k. t.echoes ++ (echo t.count k ∷ numbered (t.count + 1) rest)) h
      ∙ w)

  pub reading-Stage :
      (t : Workers)
      → t.user ≡ reading
      → Stage all t reading
      → let t' = user_worker stack t reading in Stage all t' t'.user
  unfolding user_worker
  reading-Stage t at (within_line l xs rest v e o ne a i x w) =
      asks t (xs ++ b'\n' ∷ script rest) at (ap (λ (y : Editor). y.line_ready) e)
        (ap (λ (y : Editor). y.end_of_input) e) i (get_char-Stage t l xs rest v e o ne a x w)
  reading-Stage t at (behind_lines v e i w) =
      asks t [] at (ap (λ (y : Editor). y.line_ready) e) (ap (λ (y : Editor). y.end_of_input) e) i
        (last_key-Stage t v e w)
  reading-Stage t at (behind_line l rest v e x a i w) =
      let up : t.term.line_ready ≡ true = ap (λ (y : Editor). y.line_ready) e in
      let line : take t.term.pos t.term.buf ≡ l = ap (λ (y : Editor). y.line) e in
      let text : c_str t.term.buf ≡ l = c_str-line t.term v (subst IsText (sym line) x) ∙ line in
      simp up (
        echoed-Stage t l (c_str t.term.buf) rest text (ap (λ (y : Editor). y.end_of_input) e) v.size
          a i w)
  reading-Stage t at (at_end e f w) = simp (e, f) (before_return f w)
