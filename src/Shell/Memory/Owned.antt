-- ===== src/Shell/Memory/Owned.antt =====
-- cmd.c, cmdctl.c and commando.c: what is freed is what is owned.
use completed_projects.Common.{
  ℤ, pos, negsuc, ◌==◌, true, ◌≤◌, ℕ, false, Bool-cases, inl, inr, Option, none, some, List, [],
  ◌∷◌, ◌++◌, ◌≡◌, sym, ap, subst, ◌∙◌, map, length, append_assoc, append-nil,
}
use completed_projects.Common.CString.{Bytes}
use completed_projects.Shell.Cmd.{name_max}
use completed_projects.Shell.Memory.{
  only, Event, allocated, freed, Blocks, Reads, addresses, cmd_free_blocks, cmdctl_freeall_blocks,
}

-- The calls so far, and the blocks that are then owned: a call of `free` takes one of them out, so no
-- block is freed twice, and nothing but a block.
pub data Owns : List Event → List ℕ → Type 0 where
  nothing : Owns [] []
  allocates :
      {es : List Event} (a : ℕ) (pre post : List ℕ)
      → Owns es (pre ++ post)
      → Owns (es ++ allocated a ∷ []) (pre ++ a ∷ post)
  frees :
      {es : List Event} (a : ℕ) (pre post : List ℕ)
      → Owns es (pre ++ a ∷ post)
      → Owns (es ++ freed a ∷ []) (pre ++ post)

-- The blocks of a job, in the order in which they are freed.
abbrev pub blocks_of : Blocks → List ℕ
blocks_of b = b.argv ++ (addresses b.output ++ b.cell ∷ [])

abbrev pub all_blocks : List Blocks → List ℕ
all_blocks [] = []
all_blocks (b ∷ bs) = blocks_of b ++ all_blocks bs

pub all_blocks-append :
    (bs : List Blocks) (b : Blocks) → all_blocks (bs ++ b ∷ []) ≡ all_blocks bs ++ blocks_of b
all_blocks-append [] b = append-nil (blocks_of b)
all_blocks-append (c ∷ bs) b =
    ap (λ l. blocks_of c ++ l) (all_blocks-append bs b)
    ∙ sym (append_assoc (blocks_of c) (all_blocks bs) (blocks_of b))

-- The same behind a first block.
pub allocates_behind :
    (es : List Event) (a b : ℕ) (pre post : List ℕ)
    → Owns es (pre ++ b ∷ post)
    → Owns (es ++ allocated a ∷ []) (pre ++ b ∷ a ∷ post)
allocates_behind es a b pre post h =
    subst (Owns (es ++ allocated a ∷ [])) (append_assoc pre (b ∷ []) (a ∷ post))
      (allocates a (pre ++ b ∷ []) post (subst (Owns es) (sym (append_assoc pre (b ∷ []) post)) h))

pub frees_behind :
    (es : List Event) (a b : ℕ) (pre post : List ℕ)
    → Owns es (pre ++ b ∷ a ∷ post)
    → Owns (es ++ freed a ∷ []) (pre ++ b ∷ post)
frees_behind es a b pre post h =
    subst (Owns (es ++ freed a ∷ [])) (append_assoc pre (b ∷ []) post) (
      frees a (pre ++ b ∷ []) post (subst (Owns es) (sym (append_assoc pre (b ∷ []) (a ∷ post))) h))

pub frees_all :
    (as' : List ℕ) (es : List Event) (pre post : List ℕ)
    → Owns es (pre ++ (as' ++ post))
    → Owns (es ++ map freed as') (pre ++ post)
frees_all [] es pre post h = subst (λ e. Owns e (pre ++ post)) (sym (append-nil es)) h
frees_all (a ∷ as') es pre post h =
    subst (λ e. Owns e (pre ++ post)) (append_assoc es (freed a ∷ []) (map freed as'))
      (frees_all as' (es ++ freed a ∷ []) pre post (frees a pre (as' ++ post) h))

cmd_free-Owns :
    (b : Blocks) (es : List Event) (pre post : List ℕ)
    → Owns es (pre ++ (blocks_of b ++ post))
    → Owns (cmd_free_blocks b es) (pre ++ post)
unfolding cmd_free_blocks
cmd_free-Owns b es pre post h =
    let out = addresses b.output in
    let apart : blocks_of b ++ post ≡ b.argv ++ (out ++ b.cell ∷ post) =
      append_assoc b.argv (out ++ b.cell ∷ []) post
      ∙ ap (λ l. b.argv ++ l) (append_assoc out (b.cell ∷ []) post) in
    let args =
      frees_all b.argv es pre (out ++ b.cell ∷ post) (subst (λ l. Owns es (pre ++ l)) apart h) in
    frees b.cell pre post (frees_all out (es ++ map freed b.argv) pre (b.cell ∷ post) args)

pub cmdctl_freeall-Owns :
    (ctl : ℕ) (bs : List Blocks) (es : List Event) (post : List ℕ)
    → Owns es (ctl ∷ (all_blocks bs ++ post))
    → Owns (cmdctl_freeall_blocks ctl bs es) post
unfolding cmdctl_freeall_blocks
cmdctl_freeall-Owns ctl [] es post h = frees ctl [] post h
cmdctl_freeall-Owns ctl (b ∷ bs) es post h =
    cmdctl_freeall-Owns ctl bs (cmd_free_blocks b es) post (
      cmd_free-Owns b es (ctl ∷ []) (all_blocks bs ++ post)
        (subst (λ l. Owns es (ctl ∷ l)) (append_assoc (blocks_of b) (all_blocks bs) post) h))

pub regroup :
    (pre as' bs post : List ℕ) → pre ++ ((as' ++ bs) ++ post) ≡ (pre ++ as') ++ (bs ++ post)
regroup pre as' bs post =
    ap (λ l. pre ++ l) (append_assoc as' bs post) ∙ sym (append_assoc pre as' (bs ++ post))

-- Only a finished job has its output.
abbrev pub HasOutput : Blocks → Type 0
HasOutput b = b.finished ≡ false → b.output ≡ none

abbrev pub AllHaveOutput : List Blocks → Type 0
AllHaveOutput [] = Unit {0}
AllHaveOutput (b ∷ bs) = HasOutput b × AllHaveOutput bs

-- If the job has exited, the first read of its pipe succeeds.
abbrev pub Works : Option Reads → Type 0
Works none = Unit {0}
Works (some r) = r.readable ≡ true

abbrev pub AllWork : (ℕ → Option Reads) → Type 0
AllWork exits = (i : ℕ) → Works (exits i)

pub only-AllWork : (job : ℤ) (now : ℕ → Option Reads) → AllWork now → AllWork (only job now)
only-AllWork (pos n) now h i = elim (Bool-cases (i == n)) [ inl e ↦ rw e (h i) | inr e ↦ rw e tt ]
only-AllWork (negsuc n) now h i = tt

-- The first token fits the name of a job.
abbrev pub NameFits : List Bytes → Type 0
NameFits [] = ⊥
NameFits (t ∷ ts) = length t ≤ name_max
