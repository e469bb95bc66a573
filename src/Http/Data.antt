-- ===== src/Http/Data.antt =====
-- C_Server/src/server.h: limits and structures, and C strings in arrays that nobody has cleared.
use completed_projects.Common.{
  ◌>>=◌, ℕ, ℤ, ◌+◌, Bool, true, false, Option, none, some, [], ◌∷◌, ◌++◌, ◌==◌, ◌&&◌, leb,
  if◌then◌else◌,
}
use completed_projects.Common.CString.{Bytes, strcpy}

abbrev pub max_path : ℕ
max_path = 255

abbrev pub max_idx : ℕ
max_idx = 128

abbrev pub buffer_size : ℕ
buffer_size = 1024

abbrev pub max_string_length : ℕ
max_string_length = 255

abbrev pub max_response_line_size : ℕ
max_response_line_size = 512

abbrev pub max_word_count : ℕ
max_word_count = 255

abbrev pub max_entity_body_size : ℕ
max_entity_body_size = 32768

abbrev pub text_entity_body_size : ℕ
text_entity_body_size = 8096

-- `config_data`; the two strings are arrays of 255 and 128 bytes.
pub record ConfigData : Type 0 where
  pub max_connections : ℤ
  pub root_path : Bytes
  pub index : Bytes
  pub port : ℤ

-- `request_data`; the strings are arrays of 255 bytes, with whatever stood in them before.
pub record RequestData : Type 0 where
  pub type : Bytes
  pub rel_path : Bytes
  pub abs_path : Bytes
  pub protocol : Bytes
  pub file_type : ℤ

-- The string of an array; `none` is a read past its end, where no NUL is found.
abbrev pub text : Bytes → Option Bytes
text [] = none
text (c ∷ cs) = if c == 0 then some [] else elim (text cs) [ none ↦ none | some t ↦ some (c ∷ t) ]

-- `strcat`.
abbrev pub strcat : Bytes → Bytes → Option Bytes
strcat dst src = do t ← text dst; strcpy dst (t ++ src)

-- `!strcasecmp(a, b)`, over ASCII.
abbrev pub lower : ℕ → ℕ
lower c = if leb b'A' c && leb c b'Z' then c + 32 else c

abbrev pub str_eq_ignoring_case : Bytes → Bytes → Bool
str_eq_ignoring_case [] [] = true
str_eq_ignoring_case (a ∷ as') (b ∷ bs) =
    if lower a == lower b then str_eq_ignoring_case as' bs else false
str_eq_ignoring_case _ _ = false
