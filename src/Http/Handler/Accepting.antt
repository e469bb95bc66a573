-- ===== src/Http/Handler/Accepting.antt =====
-- server.c: the limit of connections in `main`, and the configuration file.
use completed_projects.Common.{
  ◌>>=◌, ℕ, suc, ◌+◌, ◌≤◌, ℤ, pos, negsuc, true, false, Bool-cases, inl, inr, Option, none, some,
  List, [], ◌∷◌, ◌++◌, ◌≡◌, refl, ◌∙◌, arith,
}
use completed_projects.Common.CString.{strcpy, Bytes, codes, str_eq}
use completed_projects.Common.Decimal.{atoi}
use completed_projects.Http.Data.{max_word_count, ConfigData}
use completed_projects.Http.Handler.{
  apply_word, apply_words, next_word, split_words, words_fit, populate_config, within,
}

-- How many connections a configuration admits.
abbrev pub admitted : ℤ → ℕ
admitted (pos n) = n + 1
admitted (negsuc n) = 0

pub within-admitted : (m : ℤ) (n k : ℕ) → n + suc k ≡ admitted m → within n m ≡ true
within-admitted (pos m) n k h = ground arith
within-admitted (negsuc m) n k h = absurd (omega arith)

pub within_full : (m : ℤ) (n : ℕ) → admitted m ≤ n → within n m ≡ false
within_full (pos m) n h = ground arith
within_full (negsuc m) n h = refl

-- No word of the list is the keyword PORT.
abbrev pub NoPort : List Bytes → Type 0
NoPort [] = Unit {0}
NoPort (w ∷ ws) = (str_eq w (codes "PORT") ≡ false) × NoPort ws

-- The port of a configuration, if there is one.
abbrev HasPort : ℤ → Option ConfigData → Type 0
HasPort n none = Unit {0}
HasPort n (some c) = c.port ≡ n

HasPort-bind :
    (n : ℤ) (o : Option Bytes) (f : Bytes → ConfigData)
    → ((a : Bytes) → (f a).port ≡ n)
    → HasPort n (o >>= λ a. some (f a))
HasPort-bind n none f h = tt
HasPort-bind n (some a) f h = h a

apply_word-HasPort :
    (c : ConfigData) (w : Bytes) (next : Option Bytes)
    → str_eq w (codes "PORT") ≡ false
    → HasPort c.port (apply_word c w next)
unfolding apply_word
apply_word-HasPort c w none h = elim (Bool-cases (str_eq w (codes "MAX_CONNECTIONS"))) [
  | inl e ↦ rw e tt
  | inr e ↦ rw e (elim (Bool-cases (str_eq w (codes "ROOT"))) [
    | inl f ↦ rw f tt
    | inr f ↦
        rw f (elim (Bool-cases (str_eq w (codes "INDEX"))) [
          | inl g ↦ rw g tt
          | inr g ↦ rw (g, h) refl
        ])
  ])
]
apply_word-HasPort c w (some n) h = elim (Bool-cases (str_eq w (codes "MAX_CONNECTIONS"))) [
  | inl e ↦ rw e refl
  | inr e ↦ rw e (elim (Bool-cases (str_eq w (codes "ROOT"))) [
    | inl f ↦ rw f (HasPort-bind c.port (strcpy c.root_path n) _ (λ a. refl))
    | inr f ↦ rw f (elim (Bool-cases (str_eq w (codes "INDEX"))) [
      | inl g ↦ rw g (HasPort-bind c.port (strcpy c.index n) _ (λ a. refl))
      | inr g ↦ rw (g, h) refl
    ])
  ])
]

>>=-eq-some :
    (o : Option ConfigData) (f : ConfigData → Option ConfigData) {c : ConfigData}
    → (o >>= f) ≡ some c
    → (a : ConfigData) × (o ≡ some a) × (f a ≡ some c)
>>=-eq-some none f h = cc
>>=-eq-some (some a) f h = (a, refl, h)

apply_words-port_kept :
    (ws : List Bytes) (c c' : ConfigData)
    → NoPort ws
    → apply_words c ws ≡ some c'
    → c'.port ≡ c.port
unfolding apply_words
apply_words-port_kept [] c c' h e = ground arith
apply_words-port_kept (w ∷ ws) c c' h e =
    let (a, first, later) = >>=-eq-some (apply_word c w (next_word ws)) (λ x. apply_words x ws) e in
    apply_words-port_kept ws a c' h.1 later
    ∙ (rw first at (apply_word-HasPort c w (next_word ws) h.0))

apply_words_port :
    (pre post : List Bytes) (v : Bytes) (c c' : ConfigData)
    → NoPort (v ∷ post)
    → apply_words c (pre ++ codes "PORT" ∷ v ∷ post) ≡ some c'
    → c'.port ≡ atoi v
unfolding apply_words
apply_words_port [] post v c c' h e =
    apply_words-port_kept (v ∷ post) (record c { port = atoi v }) c' h (unfold apply_word in e)
apply_words_port (w ∷ pre) post v c c' h e =
    let rest = pre ++ codes "PORT" ∷ v ∷ post in
    let (a, first, later) =
      >>=-eq-some (apply_word c w (next_word rest)) (λ x. apply_words x rest) e in
    apply_words_port pre post v a c' h later

-- A configuration file that is read at all gives the server the port that stands behind the last word
-- PORT, whatever stands before it, comments included.
pub populate_config_port :
    (file : Bytes) (pre post : List Bytes) (v : Bytes) (c c' : ConfigData)
    → split_words [] file ≡ pre ++ codes "PORT" ∷ v ∷ post
    → NoPort (v ∷ post)
    → populate_config c file ≡ some c'
    → c'.port ≡ atoi v
unfolding populate_config
populate_config_port file pre post v c c' w h e =
    elim (Bool-cases (words_fit max_word_count (split_words [] file))) [
      | inl f ↦ apply_words_port pre post v c c' h (rw (f, w) at e)
      | inr f ↦ absurd (none-ne-some (rw f at e))
    ]
  where
    none-ne-some : ◌≡◌ {A = Option ConfigData} none (some c') → ⊥
    none-ne-some x = cc
