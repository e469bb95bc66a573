-- ===== src/Chat/Simpio.antt =====
-- Unix_Chat_Service/simpio.c: the line editor of the chat client.
pub mod Editing
pub mod Typing
pub mod Printing
pub mod Begins
pub mod Mode
use completed_projects.Common.{
  ℕ, ◌+◌, ◌-◌, ◌*◌, Bool, true, false, not, ◌&&◌, ◌||◌, Option, none, some, List, [], ◌∷◌, ◌++◌,
  set, replicate, ltb, leb, ◌==◌, if◌then◌else◌, take, drop, length,
}
use completed_projects.Common.CString.{Bytes, c_str, codes, strncpy}
use completed_projects.Chat.Blather.{max_line, max_name}

abbrev pub eot : ℕ
eot = 4

abbrev pub del : ℕ
del = 127

abbrev pub backspace : ℕ
backspace = 8

-- `simpio_t`; `out` is all that was written to `outfile`.
pub record Simpio : Type 0 where
  pub buf : Bytes
  pub prompt : Bytes
  pub pos : ℕ
  pub line_ready : Bool
  pub end_of_input : Bool
  pub out : Bytes

unfoldable pub zero_simpio : Simpio
zero_simpio = record {
  buf = replicate max_line 0;
  prompt = replicate max_name 0;
  pos = 0;
  line_ready = false;
  end_of_input = false;
  out = [];
}

unfoldable pub simpio_reset : Simpio → Simpio
simpio_reset s = record s { pos = 0; buf = set s.buf 0 0; line_ready = false; end_of_input = false }

unfoldable pub simpio_set_prompt : Simpio → Bytes → Simpio
simpio_set_prompt s prompt = record s { prompt = strncpy max_name s.prompt prompt }

-- What `fgetc` returns: `none` is EOF.
abbrev pub Key : Type 0
Key = Option ℕ

abbrev pub is_key : Key → ℕ → Bool
is_key none n = false
is_key (some c) n = c == n

-- `buf[i] = c`; the empty buffer is what becomes of a write outside the array.
abbrev pub store : Bytes → ℕ → ℕ → Bytes
store buf i c = if ltb i (length buf) then set buf i c else []

-- `buf[pos] = c`.
abbrev pub put : Simpio → ℕ → Simpio
put s c = record s { buf = store s.buf s.pos c }

-- A normal character is added, with a NUL behind it, and echoed.
abbrev pub add_char : Simpio → Key → Simpio
add_char s none = s
add_char s (some c) = record s {
  pos = s.pos + 1;
  buf = store (store s.buf s.pos c) (s.pos + 1) 0;
  out = s.out ++ c ∷ [];
}

-- `pos = pos - 1; buf[pos] = 0`: at the position 0 that is a write in front of the array.
abbrev pub erase_char : Simpio → Simpio
erase_char s = record s {
  pos = s.pos - 1;
  buf = if s.pos == 0 then [] else store s.buf (s.pos - 1) 0;
  out = s.out ++ codes "\u{8} \u{8}";
}

abbrev is_erase : Key → Bool
is_erase c = is_key c backspace || is_key c del

-- The chain of `else if`.
unfoldable pub edit : Simpio → Key → Simpio
edit s c =
    if is_key c b'\n' && ltb 0 s.pos
    then record (put s 0) { line_ready = true }
    else if (is_erase c || is_key c b'\n') && s.pos == 0
    then s
    else if is_key c eot && ltb 0 s.pos
    then record (put s 0) { line_ready = true }
    else if is_erase c && ltb 0 s.pos
    then erase_char s
    else if not (is_key c eot) && ltb s.pos (max_line - 1)
    then add_char s c
    else s

abbrev pub is_end : Key → Bool
is_end none = true
is_end (some c) = c == eot

abbrev pub end_if : Bool → Simpio → Simpio
end_if true s = record s { end_of_input = true }
end_if false s = s

unfoldable pub simpio_get_char : Simpio → Key → Simpio
simpio_get_char s c = end_if (is_end c) (edit s c)

-- What stands on the stack, from the first byte of a local array on, when the text so far has been
-- written: nobody clears it.
abbrev pub Stack : Type 0
Stack = Bytes → Bytes

-- `snprintf(output + off, max - off, "%s", text)`, with the bytes from `output` on and `off`: the
-- offset grows by the whole length, also where the text is cut. Past the array the bound is negative,
-- which as a `size_t` cuts nothing.
abbrev pub bounded : ℕ → ℕ → Bytes → Bytes
bounded max off text =
    if leb off max
    then if max - off == 0 then [] else take (max - off - 1) text ++ 0 ∷ []
    else text ++ 0 ∷ []

abbrev pub write_at : Bytes → ℕ → Bytes → Bytes
write_at region off bytes = take off region ++ (bytes ++ drop (off + length bytes) region)

unfoldable pub print_at : ℕ → Bytes → Bytes × ℕ → Bytes × ℕ
print_at max text (region, off) = (write_at region off (bounded max off text), off + length text)

-- The message has a bound of its own: `vsnprintf(output + off, MAXLINE, fmt, myargs)`.
unfoldable pub print_mesg : Bytes → Bytes × ℕ → Bytes × ℕ
print_mesg mesg (region, off) =
    (write_at region off (take (max_line - 1) mesg ++ 0 ∷ []), off + length mesg)

abbrev pub erase_line : Bytes
erase_line = codes "\u{1b}[2K\r"

-- `iprintf` of a message that is formatted already.
unfoldable pub iprintf : Stack → Simpio → Bytes → Simpio
iprintf stack s mesg =
    let max = max_line * 2 in
    let erased = print_at max erase_line (stack s.out, 0) in
    let prompted = print_at max (c_str s.prompt) (print_mesg mesg erased) in
    let (output, off) = print_at max (c_str s.buf) prompted in
    record s { out = s.out ++ take off output }
