-- ===== src/Chat/Client/Conversation.antt =====
-- bl-client.c: what a user types, line by line, is what the server is sent.
use completed_projects.Common.{
  ℕ, zero, suc, ◌+◌, ◌-◌, ◌≤◌, ◌<◌, true, false, ◌≡◌, ◌≢◌, refl, ap, ◌∙◌, sym, List, [], ◌∷◌, ◌++◌,
  none, some, take, length, length-set, take_all, arith, append-nil, get_or-set_self,
}
use completed_projects.Common.CString.{Bytes, c_str, c_str_of_text, strncpy}
use completed_projects.Chat.Blather.{max_line, Mesg}
use completed_projects.Chat.Simpio.{Simpio, simpio_get_char, simpio_reset, Stack, iprintf}
use completed_projects.Chat.Simpio.Editing.{
  IsTerminated, Editor, view, press, view-simpio_get_char, simpio_get_char-IsTerminated,
  length-line,
}
use completed_projects.Chat.Simpio.Typing.{
  IsOrdinaryText, IsText-take, c_str-line, typing, entered, grow, press_ordinary, press_enter,
  take-grow, grow-ne-nil,
}
use completed_projects.Chat.Client.{read_line, user_mesg, depart_mesg, left, wrote, user_to_server}

abbrev pub line : Simpio → Bytes
line s = take s.pos s.buf

pub length-line-lt : (s : Simpio) → IsTerminated s → length (line s) < max_line
length-line-lt s v = omega (arith, length-line s v)

-- What one typed line leads to: the loop stops behind its Enter, with the line in the editor.
record Types (s : Simpio) (input rest l : Bytes) : Type 0 where
  result : Simpio
  stops : read_line s input ≡ (result, rest)
  valid : IsTerminated result
  shows : view result ≡ entered l

read_line_next :
    (s : Simpio) (c : ℕ) (cs l : Bytes)
    → view (simpio_get_char s (some c)) ≡ typing l
    → read_line s (c ∷ cs) ≡ read_line (simpio_get_char s (some c)) cs
unfolding read_line
read_line_next s c cs l e = ground arith

read_line_enter :
    (s : Simpio) (c : ℕ) (cs l : Bytes)
    → view (simpio_get_char s (some c)) ≡ entered l
    → read_line s (c ∷ cs) ≡ (simpio_get_char s (some c), cs)
unfolding read_line
read_line_enter s c cs l e = ground arith

pub append-ne-nil : (a b : Bytes) → a ≢ [] → a ++ b ≢ []
append-ne-nil [] b h = absurd (h refl)
append-ne-nil (x ∷ a) b h = λ e. cc

read_line-Types :
    (xs rest l : Bytes) (s : Simpio)
    → IsTerminated s
    → view s ≡ typing l
    → IsOrdinaryText xs
    → l ++ xs ≢ []
    → Types s (xs ++ b'\n' ∷ rest) rest (take (max_line - 1) (l ++ xs))
read_line-Types [] rest l s v e o ne =
    let same : length (line s) ≡ length l = ap (λ (x : Editor). length x.line) e in
    let short : length l ≤ max_line - 1 = omega (arith, length-line-lt s v) in
    let s' = simpio_get_char s (some b'\n') in
    let shown : view s' ≡ entered l =
      view-simpio_get_char s (some b'\n') v
      ∙ ap (λ x. press x (some b'\n')) e
      ∙ press_enter l (λ h. ne (append-nil l ∙ h)) in
    record {
      result = s';
      stops = read_line_enter s b'\n' rest l shown;
      valid = simpio_get_char-IsTerminated s (some b'\n') v;
      shows =
          shown
          ∙ ap entered
              (sym (ap (take (max_line - 1)) (append-nil l) ∙ take_all (max_line - 1) l short));
    }
read_line-Types (c ∷ xs) rest l s v e o ne =
    let s' = simpio_get_char s (some c) in
    let shown : view s' ≡ typing (grow l c) =
      view-simpio_get_char s (some c) v ∙ ap (λ x. press x (some c)) e ∙ press_ordinary l c o.0 in
    let v' = simpio_get_char-IsTerminated s (some c) v in
    let r =
      read_line-Types xs rest (grow l c) s' v' shown o.1
        (append-ne-nil (grow l c) xs (grow-ne-nil l c)) in
    record {
      result = r.result;
      stops = read_line_next s c (xs ++ b'\n' ∷ rest) (grow l c) shown ∙ r.stops;
      valid = r.valid;
      shows = r.shows ∙ ap entered (take-grow l c xs);
    }

-- The input for some lines, each with its Enter.
abbrev pub script : List Bytes → Bytes
script [] = []
script (l ∷ ls) = l ++ b'\n' ∷ script ls

abbrev pub AreLines : List Bytes → Type 0
AreLines [] = Unit {0}
AreLines (l ∷ ls) = (l ≢ []) × IsOrdinaryText l × AreLines ls

-- The editor at the start of a round.
abbrev pub ready : Stack → Simpio → Simpio
ready stack s = iprintf stack (simpio_reset s) []

pub ready-IsTerminated :
    (stack : Stack) (s : Simpio) → length s.buf ≡ max_line → IsTerminated (ready stack s)
unfolding iprintf simpio_reset
ready-IsTerminated stack s h = record {
  size = length-set s.buf 0 0 ∙ h;
  inside = omega arith;
  nul = get_or-set_self 0 s.buf 0 0 (omega arith);
}

pub view-ready : (stack : Stack) (s : Simpio) → view (ready stack s) ≡ typing []
unfolding iprintf simpio_reset
view-ready stack s = refl

-- Two buffers that hold the same string make the same message.
user_mesg-c_str : (u a b : Bytes) → c_str a ≡ c_str b → user_mesg u a ≡ user_mesg u b
unfolding user_mesg strncpy
user_mesg-c_str u a b h = rw h

user_mesg-line :
    (u : Bytes) (s : Simpio) (l : Bytes)
    → IsTerminated s
    → view s ≡ entered (take (max_line - 1) l)
    → IsOrdinaryText l
    → user_mesg u s.buf ≡ user_mesg u (take (max_line - 1) l)
user_mesg-line u s l v e o =
    let held : line s ≡ take (max_line - 1) l = ap (λ (x : Editor). x.line) e in
    let text = IsText-take (max_line - 1) l o in
    user_mesg-c_str u s.buf (take (max_line - 1) l)
      (c_str-line s v (rw held text) ∙ held ∙ sym (c_str_of_text (take (max_line - 1) l) text))

-- What the thread is to send for some lines.
abbrev pub sent : Bytes → List Bytes → List Mesg
sent u [] = depart_mesg u ∷ []
sent u (l ∷ ls) = user_mesg u (take (max_line - 1) l) ∷ sent u ls

module _ (stack : Stack) (u : Bytes) where
  round_line :
      (fuel : ℕ) (s s' : Simpio) (input rest : Bytes)
      → s.end_of_input ≡ false
      → read_line (ready stack s) input ≡ (s', rest)
      → s'.line_ready ≡ true
      → user_to_server stack (suc fuel) u s input
        ≡ wrote (user_mesg u s'.buf) (user_to_server stack fuel u s' rest)
  unfolding user_to_server
  round_line fuel s s' input rest e r l = simp (e, r, l)

  -- At the end of the input.
  last_rounds :
      (fuel : ℕ) (s : Simpio)
      → length s.buf ≡ max_line
      → s.end_of_input ≡ false
      → (s' : Simpio) × (user_to_server stack (suc (suc fuel)) u s []
          ≡ left (depart_mesg u ∷ []) s')
  unfolding user_to_server read_line
  last_rounds fuel s b e =
      let s' = simpio_get_char (ready stack s) none in
      let shown : view s' ≡ record (typing []) { end_of_input = true } =
        view-simpio_get_char (ready stack s) none (ready-IsTerminated stack s b)
        ∙ ap (λ x. press x none) (view-ready stack s) in
      let ended : s'.end_of_input ≡ true = ap (λ (x : Editor). x.end_of_input) shown in
      let no_line : s'.line_ready ≡ false = ap (λ (x : Editor). x.line_ready) shown in
      (s', simp (e, ended, no_line))

  -- The user thread ends at the end of the input, and has then sent one message for each line that was
  -- typed, in order, with the first 1023 bytes of the line for a body, and a goodbye behind them.
  pub user_to_server-sent :
      (ls : List Bytes) (fuel : ℕ) (s : Simpio)
      → AreLines ls
      → length s.buf ≡ max_line
      → s.end_of_input ≡ false
      → length ls + 1 < fuel
      → (s' : Simpio) × (user_to_server stack fuel u s (script ls) ≡ left (sent u ls) s')
  user_to_server-sent ls zero s a b e h = elim h [ ]
  user_to_server-sent [] (suc zero) s a b e h = absurd (omega arith)
  user_to_server-sent [] (suc (suc fuel)) s a b e h = last_rounds fuel s b e
  user_to_server-sent (l ∷ ls) (suc fuel) s a b e h =
      let r =
        read_line-Types l (script ls) [] (ready stack s) (ready-IsTerminated stack s b)
          (view-ready stack s) a.1 a.0 in
      let up : r.result.line_ready ≡ true = ap (λ (x : Editor). x.line_ready) r.shows in
      let open_still : r.result.end_of_input ≡ false =
        ap (λ (x : Editor). x.end_of_input) r.shows in
      let (s', later) =
        user_to_server-sent ls fuel r.result a.2 r.valid.size open_still (omega arith) in
      (
        s',
        round_line fuel s r.result (script (l ∷ ls)) (script ls) e r.stops up
            ∙ rw (later, user_mesg-line u r.result l r.valid r.shows a.1),
      )
