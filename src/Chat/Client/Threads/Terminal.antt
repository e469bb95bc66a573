-- ===== src/Chat/Client/Threads/Terminal.antt =====
-- bl-client.c: what the user thread reads and sends does not depend on what the terminal shows.
use completed_projects.Common.{
  ℕ, zero, suc, Bool, true, false, ◌||◌, Bool-cases, inl, inr, Option, none, some, List, [], ◌∷◌,
  ◌≡◌, refl, ap, ◌∙◌, sym, if◌then◌else◌, arith,
}
use completed_projects.Common.CString.{Bytes}
use completed_projects.Chat.Blather.{Mesg}
use completed_projects.Chat.Simpio.{
  Simpio, Key, Stack, edit, end_if, is_end, simpio_get_char, simpio_reset, iprintf,
}
use completed_projects.Chat.Client.{
  read_line, user_mesg, Session, left, unfinished, wrote, user_line, user_to_server, notice,
  is_shutdown, show_notice, show_mesg,
}

-- The editor without the text on the terminal.
abbrev pub quiet : Simpio → Simpio
quiet s = record s { out = [] }

quiet-edit : (s : Simpio) (c : Key) → quiet (edit s c) ≡ quiet (edit (quiet s) c)
unfolding edit
quiet-edit s none = ground arith
quiet-edit s (some c) = ground arith

quiet-end_if : (b : Bool) (s : Simpio) → quiet (end_if b s) ≡ end_if b (quiet s)
quiet-end_if true s = refl
quiet-end_if false s = refl

-- Two editors that differ in the text shown at most.
abbrev pub Alike : Simpio → Simpio → Type 0
Alike s s' = quiet s ≡ quiet s'

pub simpio_get_char-Alike :
    (s s' : Simpio) (c : Key) → Alike s s' → Alike (simpio_get_char s c) (simpio_get_char s' c)
unfolding simpio_get_char
simpio_get_char-Alike s s' c h =
    let forget = λ (r : Simpio).
      quiet-end_if (is_end c) (edit r c) ∙ ap (end_if (is_end c)) (quiet-edit r c) in
    forget s ∙ ap (λ r. end_if (is_end c) (quiet (edit r c))) h ∙ sym (forget s')

module _ (s s' : Simpio) (h : Alike s s') where
  pub same_ready : s.line_ready ≡ s'.line_ready
  same_ready = ap (λ (r : Simpio). r.line_ready) h

  pub same_end : s.end_of_input ≡ s'.end_of_input
  same_end = ap (λ (r : Simpio). r.end_of_input) h

  pub same_mesg : (u : Bytes) → user_mesg u s.buf ≡ user_mesg u s'.buf
  same_mesg u = ap (λ (r : Simpio). user_mesg u r.buf) h

  next_prompt :
      (stack : Stack)
      → Alike (iprintf stack (simpio_reset s) []) (iprintf stack (simpio_reset s') [])
  unfolding iprintf simpio_reset
  next_prompt stack = ap simpio_reset h

pub read_line-Alike :
    (s s' : Simpio) (cs : Bytes)
    → Alike s s'
    → Alike (read_line s cs).0 (read_line s' cs).0 × ((read_line s cs).1 ≡ (read_line s' cs).1)
unfolding read_line
read_line-Alike s s' [] h = (simpio_get_char-Alike s s' none h, refl)
read_line-Alike s s' (c ∷ cs) h =
    let t = simpio_get_char s (some c) in
    let t' = simpio_get_char s' (some c) in
    let k = simpio_get_char-Alike s s' (some c) h in
    let rest = read_line-Alike t t' cs k in
    let same : (t.line_ready || t.end_of_input) ≡ (t'.line_ready || t'.end_of_input) =
      ap (λ (r : Simpio). r.line_ready || r.end_of_input) k in
    elim (Bool-cases (t.line_ready || t.end_of_input)) [
      | inl e ↦ rw (e, sym same ∙ e) (k, refl)
      | inr e ↦ rw (e, sym same ∙ e) rest
    ]

-- The messages of a run of the user thread.
abbrev pub messages : Session → Option (List Mesg)
messages (left ms s) = some ms
messages unfinished = none

abbrev pub with_mesg : Mesg → Option (List Mesg) → Option (List Mesg)
with_mesg m none = none
with_mesg m (some ms) = some (m ∷ ms)

pub messages-wrote : (m : Mesg) (r : Session) → messages (wrote m r) ≡ with_mesg m (messages r)
messages-wrote m (left ms s) = refl
messages-wrote m unfinished = refl

pub messages-user_line :
    (u : Bytes) (s : Simpio) (r : Session)
    → messages (user_line u s r)
      ≡ (if s.line_ready then with_mesg (user_mesg u s.buf) (messages r) else messages r)
messages-user_line u s r = elim (Bool-cases s.line_ready) [
  | inl e ↦ simp e (messages-wrote (user_mesg u s.buf) r)
  | inr e ↦ simp e refl
]

pub user_line-Alike :
    (u : Bytes) (s s' : Simpio) (r r' : Session)
    → Alike s s'
    → messages r ≡ messages r'
    → messages (user_line u s r) ≡ messages (user_line u s' r')
user_line-Alike u s s' r r' h k =
    rw
      (
        messages-user_line u s r,
        messages-user_line u s' r',
        same_ready s s' h,
        same_mesg s s' h u,
        k,
      )
      refl

-- The messages that the user thread sends are the same whatever the terminal shows.
pub user_to_server-Alike :
    (stack : Stack) (fuel : ℕ) (u : Bytes) (s s' : Simpio) (cs : Bytes)
    → Alike s s'
    → messages (user_to_server stack fuel u s cs) ≡ messages (user_to_server stack fuel u s' cs)
unfolding user_to_server
user_to_server-Alike stack zero u s s' cs h = refl
user_to_server-Alike stack (suc fuel) u s s' cs h =
    let r = read_line (iprintf stack (simpio_reset s) []) cs in
    let r' = read_line (iprintf stack (simpio_reset s') []) cs in
    let (alike, left_over) = read_line-Alike _ _ cs (next_prompt s s' h stack) in
    let ih =
      user_to_server-Alike stack fuel u r.0 r'.0 r.1 alike
      ∙ ap (λ cs'. messages (user_to_server stack fuel u r'.0 cs')) left_over in
    elim (Bool-cases s.end_of_input) [
      | inl e ↦ simp (e, sym (same_end s s' h) ∙ e) refl
      | inr e ↦ simp (e, sym (same_end s s' h) ∙ e) (user_line-Alike u r.0 r'.0 _ _ alike ih)
    ]

-- What the server thread shows changes nothing else.
pub show_mesg-Alike : (stack : Stack) (s : Simpio) (m : Mesg) → Alike (show_mesg stack s m) s
unfolding show_mesg
show_mesg-Alike stack s m = elim (Bool-cases (is_shutdown m.kind)) [
  | inl e ↦ rw e (show_notice-Alike (notice m m.kind))
  | inr e ↦ rw e (show_notice-Alike (notice m m.kind))
]
  where
    show_notice-Alike : (text : Option Bytes) → Alike (show_notice stack s text) s
    show_notice-Alike none = refl
    show_notice-Alike (some text) = unfold iprintf in refl
