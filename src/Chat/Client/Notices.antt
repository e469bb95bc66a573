-- ===== src/Chat/Client/Notices.antt =====
-- bl-client.c, the server thread: what it shows of the messages that arrive.
use completed_projects.Common.{
  ◌+◌, ◌*◌, ◌<◌, true, false, Option, none, some, List, [], ◌∷◌, ◌++◌, ◌≡◌, ap, ◌∙◌, sym,
  append-nil, append_assoc, length,
}
use completed_projects.Common.CString.{Bytes, c_str, codes}
use completed_projects.Chat.Blather.{max_line, Mesg}
use completed_projects.Chat.Simpio.{Simpio, Stack, erase_line}
use completed_projects.Chat.Simpio.Printing.{iprintf-short}
use completed_projects.Chat.Client.{notice, is_shutdown, show_notice, show_mesg, server_to_user}

-- What stands behind every text: the prompt and the line that is being typed.
abbrev pub input_line : Simpio → Bytes
input_line s = c_str s.prompt ++ c_str s.buf

-- A text behind the code that erases the line, with the input line behind it.
abbrev pub framed : Bytes → Option Bytes → Bytes
framed behind none = []
framed behind (some text) = (erase_line ++ text) ++ behind

abbrev pub all_framed : Bytes → List Mesg → Bytes
all_framed behind [] = []
all_framed behind (m ∷ ms) = framed behind (notice m m.kind) ++ all_framed behind ms

-- The text fits the bounds of `iprintf`.
abbrev pub TextFits : Simpio → Option Bytes → Type 0
TextFits s none = Unit {0}
TextFits s (some text) =
    (length text < max_line)
    × (5 + length text + (length (c_str s.prompt) + length (c_str s.buf)) < max_line * 2)

-- Messages before a shutdown, with texts that fit.
abbrev pub AllFit : Simpio → List Mesg → Type 0
AllFit s [] = Unit {0}
AllFit s (m ∷ ms) = (is_shutdown m.kind ≡ false) × TextFits s (notice m m.kind) × AllFit s ms

abbrev add_out : Simpio → Bytes → Simpio
add_out s text = record s { out = s.out ++ text }

show_notice-framed :
    (stack : Stack) (s : Simpio) (text : Option Bytes)
    → TextFits s text
    → show_notice stack s text ≡ add_out s (framed (input_line s) text)
show_notice-framed stack s none h = ap (λ o. record s { out = o }) (sym (append-nil s.out))
show_notice-framed stack s (some text) h = iprintf-short stack s text h.0 h.1

module _ (stack : Stack) (m : Mesg) (post : List Mesg) where
  -- If each notice has less than 1024 bytes and fits with the prompt and the line typed so far into the
  -- 2048 bytes of the buffer: the server thread shows the messages in the order of their arrival, each
  -- by its notice, and passes over those of other kinds; at the first shutdown it ends, and reads no
  -- more.
  pub server_to_user-shows :
      (s : Simpio) (pre : List Mesg)
      → AllFit s pre
      → is_shutdown m.kind ≡ true
      → TextFits s (notice m m.kind)
      → server_to_user stack s (pre ++ m ∷ post) ≡ (
        record s { out = s.out ++ (all_framed (input_line s) (pre ++ m ∷ []) ++ codes "\n") },
        true,
      )
  unfolding server_to_user show_mesg
  server_to_user-shows s [] h d f =
      rw (d, show_notice-framed stack s (notice m m.kind) f)
        (ap (λ o. (record s { out = o }, true)) (simp (append-nil, append_assoc)))
  server_to_user-shows s (p ∷ pre) h d f =
      let shown = framed (input_line s) (notice p p.kind) in
      rw (h.0, show_notice-framed stack s (notice p p.kind) h.1)
        (server_to_user-shows (add_out s shown) pre h.2 d f
          ∙ ap (λ o. (record s { out = o }, true)) (simp append_assoc))
