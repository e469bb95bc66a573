-- ===== src/Chat/Os.antt =====
-- The operating system under the chat server. Its answer to a call may depend on all the calls
-- made before, so the server is proved for every system; code that fails a check leaves by `exit`.
use completed_projects.Common.{
  ℤ, Bool, true, false, List, [], ◌∷◌, ◌++◌, pos, suc, minus_one, ◌≡◌, ◌≢◌,
}
use completed_projects.Common.CString.{Bytes}
use completed_projects.Chat.Blather.{Mesg, Join, zero_mesg, zero_join}

pub data Access : Type 0 where
  read_only write_only : Access

-- The calls with the arguments that matter; sizes are those of the structures.
pub data Syscall : Type 0 where
  mkfifo : Bytes → Syscall
  open_file : Bytes → Access → Syscall
  close : ℤ → Syscall
  remove : Bytes → Syscall
  read_mesg : ℤ → Syscall
  read_join : ℤ → Syscall
  write_mesg : ℤ → Mesg → Syscall
  write_join : ℤ → Join → Syscall
  select : ℤ → List ℤ → Syscall

-- The return value, the structure that a successful read leaves, and the set that `select` leaves.
pub record Reply : Type 0 where
  pub ret : ℤ
  pub mesg : Mesg
  pub join : Join
  pub ready : ℤ → Bool

-- The calls made, oldest first.
abbrev pub Trace : Type 0
Trace = List Syscall

abbrev pub Os : Type 0
Os = Trace → Syscall → Reply

-- `exits` is the `exit(1)` of `check_fail`; `stuck` is a loop whose fuel ran out.
pub data Result (A : Type 0) : Type 0 where
  ok : A → Trace → Result A
  exits : Trace → Result A
  stuck : Result A

abbrev pub M : Type 0 → Type 0
M A = Trace → Result A

abbrev pub pure : {A : Type 0} → A → M A
pure a t = ok a t

abbrev pub hang : {A : Type 0} → M A
hang t = stuck

infixl 5 ◌>>=◌ ◌>>◌
abbrev pub ◌>>=◌ : {A B : Type 0} → M A → (A → M B) → M B
◌>>=◌ m f t = elim (m t) [ ok a t' ↦ f a t' | exits t' ↦ exits t' | stuck ↦ stuck ]

abbrev pub ◌>>◌ : {B : Type 0} → M (Unit {0}) → M B → M B
m >> k = m >>= λ _. k

abbrev pub call : Os → Syscall → M Reply
call os c t = ok (os t c) (t ++ c ∷ [])

-- util.c, `check_fail`; the message on standard error is left out.
abbrev pub check_fail : Bool → M (Unit {0})
check_fail true t = exits t
check_fail false t = ok tt t

-- The structure in memory after a read over zeros: nothing read leaves the zeros.
abbrev pub mesg_read : Reply → ℤ → Mesg
mesg_read r (pos (suc n)) = r.mesg
mesg_read r _ = zero_mesg

abbrev pub join_read : Reply → ℤ → Join
join_read r (pos (suc n)) = r.join
join_read r _ = zero_join

-- A system on which nothing that the server asks for fails.
pub record IsObliging (os : Os) : Type 0 where
  pub closes : (t : Trace) (fd : ℤ) → (os t (close fd)).ret ≡ pos 0
  pub removes : (t : Trace) (f : Bytes) → (os t (remove f)).ret ≡ pos 0
  pub writes : (t : Trace) (fd : ℤ) (m : Mesg) → (os t (write_mesg fd m)).ret ≢ minus_one
