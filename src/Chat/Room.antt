-- ===== src/Chat/Room.antt =====
-- What the chat server promises: a room of members, each with the pipe on which it hears, in which
-- people join, speak and leave, and what happens is told to everybody.
pub mod Views
pub mod Refinement
use completed_projects.Common.{
  ℕ, ◌<◌, ℤ, List, [], ◌∷◌, ◌++◌, ◌≡◌, refl, sym, ap, subst, some, get_elem?, ◌∙◌, map, length,
  erase_idx, append_assoc, append-nil,
}
use completed_projects.Common.CString.{Bytes, c_str}
use completed_projects.Chat.Blather.{
  max_path, max_clients, Join, Mesg, MesgKind, bl_mesg, bl_joined, bl_departed,
}

pub record Member : Type 0 where
  pub name : Bytes
  pub hears : ℤ
  pub speaks : ℤ

abbrev pub Room : Type 0
Room = List Member

-- A message that was written to a pipe.
abbrev pub Delivery : Type 0
Delivery = ℤ × Mesg

-- Everybody is told.
abbrev pub tell : Mesg → Room → List Delivery
tell m = map (λ p. (p.hears, m))

-- What the server reads: a request to join, or a message from the pipe of a member.
pub data Input : Type 0 where
  asked : Join → Input
  said : ℤ → Mesg → Input

-- The announcement of a newcomer names it, if the name has its NUL in the array of the request.
pub record Announces (j : Join) (m : Mesg) : Type 0 where
  pub kind : m.kind ≡ bl_joined
  pub names : length (c_str j.name) < max_path → c_str (m.name ++ m.body) ≡ c_str j.name

-- A member as it comes in, with its two pipes.
abbrev pub Enters : Join → Member → Type 0
Enters j p = length (c_str j.name) < max_path → c_str p.name ≡ c_str j.name

-- Messages that change nothing.
abbrev pub IsIgnored : MesgKind → Type 0
IsIgnored bl_mesg = ⊥
IsIgnored bl_departed = ⊥
IsIgnored _ = Unit {0}

-- What may happen in a room: what is read, the room afterwards, and what is written. A newcomer that
-- finds the room full is announced all the same, and one that leaves stays a member if its pipes
-- cannot be closed.
pub data Step (room : Room) : List Input → Room → List Delivery → Type 0 where
  joins :
      (j : Join) (p : Member) (m : Mesg)
      → Enters j p
      → Announces j m
      → length room < max_clients
      → Step room (asked j ∷ []) (room ++ p ∷ []) (tell m (room ++ p ∷ []))
  is_refused :
      (j : Join) (m : Mesg)
      → Announces j m
      → length room ≡ max_clients
      → Step room (asked j ∷ []) room (tell m room)
  says :
      (i : ℕ) (p : Member) (m : Mesg)
      → get_elem? room i ≡ some p
      → m.kind ≡ bl_mesg
      → Step room (said p.speaks m ∷ []) room (tell m room)
  leaves :
      (i : ℕ) (p : Member) (m : Mesg)
      → get_elem? room i ≡ some p
      → m.kind ≡ bl_departed
      → Step room (said p.speaks m ∷ []) (erase_idx room i) (tell m (erase_idx room i))
  stays :
      (i : ℕ) (p : Member) (m : Mesg)
      → get_elem? room i ≡ some p
      → m.kind ≡ bl_departed
      → Step room (said p.speaks m ∷ []) room (tell m room)
  says_nothing :
      (i : ℕ) (p : Member) (m : Mesg)
      → get_elem? room i ≡ some p
      → IsIgnored m.kind
      → Step room (said p.speaks m ∷ []) room []

-- Steps in a row.
pub data Run (room : Room) : List Input → Room → List Delivery → Type 0 where
  done : Run room [] room []
  then :
      {ins next_ins : List Input} {r1 r2 : Room} {out more : List Delivery}
      → Run room ins r1 out
      → Step r1 next_ins r2 more
      → Run room (ins ++ next_ins) r2 (out ++ more)

subst2 :
    {A B : Type 0} (P : A → B → Type 0) {a a' : A} {b b' : B} → a ≡ a' → b ≡ b' → P a b → P a' b'
subst2 P {a} {a'} {b} {b'} e f h = subst (λ x. P x b') e (subst (P a) f h)

pub Run-trans :
    {ins : List Input} {r r1 : Room} {out : List Delivery} {more_ins : List Input} {r2 : Room}
    {more : List Delivery}
    → Run r ins r1 out
    → Run r1 more_ins r2 more
    → Run r (ins ++ more_ins) r2 (out ++ more)
Run-trans {ins} {r} {r1} {out} h done =
    subst2 (λ i o. Run r i r1 o) (sym (append-nil ins)) (sym (append-nil out)) h
Run-trans {ins} {r} {r1} {out} {r2 = r2} h
      (then {ins = i} {next_ins = j} {out = a} {more = b} k st) =
    subst2 (λ i' o. Run r i' r2 o) (append_assoc ins i j) (append_assoc out a b)
      (then (Run-trans h k) st)
