-- ===== src/Chat/Demo/Screen.antt =====
-- simpio-demo.c: what stands on the screen of the demonstration.
use completed_projects.Common.{
  ◌-◌, Bool-cases, inl, inr, ◌⊎◌, none, some, true, false, List, [], ◌∷◌, ◌++◌, ◌≡◌, refl, sym, ap,
  subst, take, arith, Bool,
}
use completed_projects.Common.CString.{Bytes, codes}
use completed_projects.Chat.Blather.{max_line}
use completed_projects.Chat.Simpio.{
  Simpio, Stack, Key, erase_line, edit, end_if, is_end, simpio_get_char, simpio_reset, iprintf,
}
use completed_projects.Chat.Simpio.Begins.{iprintf_begins}
use completed_projects.Chat.Demo.{
  UserWorker, at_top, reading, returned, Workers, get_char, user_worker, background_worker, Step,
  user_runs, background_runs, background_stops, Reach, here, next,
}

-- Some texts stand on the screen one behind the other, each behind the code that erases the line and
-- cut to 1023 bytes, with anything in between.
pub data Shown : List Bytes → Bytes → Type 0 where
  nothing : Shown [] []
  other : {texts : List Bytes} {out : Bytes} (x : Bytes) → Shown texts out → Shown texts (out ++ x)
  one_more :
      {texts : List Bytes} {out : Bytes} (text x : Bytes)
      → Shown texts out
      → Shown (texts ++ text ∷ []) (out ++ ((erase_line ++ take (max_line - 1) text) ++ x))

-- A key writes nothing, itself, or what erases a character.
edit-out :
    (s : Simpio) (c : Key)
    → ((edit s c).out ≡ s.out) ⊎ ((x : Bytes) × ((edit s c).out ≡ s.out ++ x))
unfolding edit
edit-out s none = inl (ground arith)
edit-out s (some c) =
    let cases : ((edit s (some c)).out ≡ s.out)
        ⊎ (((edit s (some c)).out ≡ s.out ++ c ∷ [])
            ⊎ ((edit s (some c)).out ≡ s.out ++ codes "\u{8} \u{8}")) =
      ground arith in
    elim cases [
      | inl e ↦ inl e
      | inr (inl e) ↦ inr (c ∷ [], e)
      | inr (inr e) ↦ inr (codes "\u{8} \u{8}", e)
    ]

end_if-out : (b : Bool) (s : Simpio) → (end_if b s).out ≡ s.out
end_if-out true s = refl
end_if-out false s = refl

simpio_get_char-Shown :
    (s : Simpio) (c : Key) (texts : List Bytes)
    → Shown texts s.out
    → Shown texts (simpio_get_char s c).out
unfolding simpio_get_char
simpio_get_char-Shown s c texts h =
    subst (Shown texts) (sym (end_if-out (is_end c) (edit s c))) (elim (edit-out s c) [
      | inl e ↦ subst (Shown texts) (sym e) h
      | inr (x, e) ↦ subst (Shown texts) (sym e) (other x h)
    ])

iprintf-Shown :
    (stack : Stack) (s : Simpio) (mesg : Bytes) (texts : List Bytes)
    → Shown texts s.out
    → Shown texts (iprintf stack s mesg).out
iprintf-Shown stack s mesg texts h =
    let (rest, e) = iprintf_begins stack s mesg in
    subst (Shown texts) (sym (ap (λ (r : Simpio). r.out) e))
      (other ((erase_line ++ take (max_line - 1) mesg) ++ rest) h)

iprintf-one_more :
    (stack : Stack) (s : Simpio) (mesg : Bytes) (texts : List Bytes)
    → Shown texts s.out
    → Shown (texts ++ mesg ∷ []) (iprintf stack s mesg).out
iprintf-one_more stack s mesg texts h =
    let (rest, e) = iprintf_begins stack s mesg in
    subst (Shown (texts ++ mesg ∷ [])) (sym (ap (λ (r : Simpio). r.out) e)) (one_more mesg rest h)

abbrev ShowsEchoes : Workers → Type 0
ShowsEchoes t = Shown t.echoes t.term.out

get_char-Shown : (t : Workers) (input : Bytes) → ShowsEchoes t → ShowsEchoes (get_char t input)
get_char-Shown t [] h = simpio_get_char-Shown t.term none t.echoes h
get_char-Shown t (c ∷ cs) h = simpio_get_char-Shown t.term (some c) t.echoes h

module _ (stack : Stack) where
  user_worker-Shown :
      (t : Workers) (pc : UserWorker) → ShowsEchoes t → ShowsEchoes (user_worker stack t pc)
  unfolding user_worker simpio_reset
  user_worker-Shown t at_top h = elim (Bool-cases t.term.end_of_input) [
    | inl e ↦ simp e h
    | inr e ↦ simp e (iprintf-Shown stack (simpio_reset t.term) [] t.echoes h)
  ]
  user_worker-Shown t reading h = elim (Bool-cases t.term.line_ready) [
    | inl e ↦ simp e (iprintf-one_more stack t.term _ t.echoes h)
    | inr e ↦ simp e (elim (Bool-cases t.term.end_of_input) [
      | inl f ↦ simp f h
      | inr f ↦ simp f (get_char-Shown t t.input h)
    ])
  ]
  user_worker-Shown t returned h = h

  Step-Shown : {t t' : Workers} → Step stack t t' → ShowsEchoes t → ShowsEchoes t'
  Step-Shown {t} user_runs h = user_worker-Shown t t.user h
  Step-Shown {t} (background_runs e) h =
      unfold background_worker in iprintf-Shown stack t.term _ t.echoes h
  Step-Shown {t} (background_stops e) h = h

  pub Reach-Shown : {s t : Workers} → ShowsEchoes s → Reach stack s t → ShowsEchoes t
  Reach-Shown h here = h
  Reach-Shown h (next r st) = Step-Shown st (Reach-Shown h r)
