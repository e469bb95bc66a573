-- ===== src/Shell/Memory/Updates.antt =====
-- cmd.c and cmdctl.c: the blocks of the jobs as they are made and updated.
use completed_projects.Common.{
  true, lt→ltb, arith, ℕ, zero, suc, ◌+◌, Bool-cases, inl, inr, Option, none, some, List, [], ◌∷◌,
  ◌++◌, ◌≡◌, refl, sym, ap, subst, length, append_assoc,
}
use completed_projects.Common.CString.{Bytes}
use completed_projects.Shell.Cmd.{name_max}
use completed_projects.Shell.Commando.Table.{Returns, Returns-bind}
use completed_projects.Shell.Memory.{
  Event, allocated, freed, Heap, Blocks, Reads, addresses, strdup_all, cmd_new_blocks,
  read_more_blocks, read_all_blocks, cmd_update_blocks, cmdctl_update_blocks,
}
use completed_projects.Shell.Memory.Owned.{
  Owns, allocates, frees, blocks_of, all_blocks, allocates_behind, frees_behind, regroup, HasOutput,
  AllHaveOutput, Works, AllWork, NameFits,
}

module _ (heap : Heap) where
  strdup_all-Owns :
      (ts : List Bytes) (es : List Event) (pre post : List ℕ)
      → Owns es (pre ++ post)
      → let (as', es') = strdup_all heap ts es in Owns es' (pre ++ (as' ++ post))
  unfolding strdup_all
  strdup_all-Owns [] es pre post h = h
  strdup_all-Owns (t ∷ ts) es pre post h =
      let a = heap es in
      let (as', es') = strdup_all heap ts (es ++ allocated a ∷ []) in
      subst (Owns es') (append_assoc pre (a ∷ []) (as' ++ post)) (
        strdup_all-Owns ts (es ++ allocated a ∷ []) (pre ++ a ∷ []) post (
          subst (Owns (es ++ allocated a ∷ [])) (sym (append_assoc pre (a ∷ []) post))
            (allocates a pre post h)))

  -- The blocks of a job that was just made.
  abbrev pub IsMade : List ℕ → List ℕ → Blocks × List Event → Type 0
  IsMade pre post (b, es) = Owns es (pre ++ (blocks_of b ++ post)) × (b.output ≡ none)

  pub cmd_new-Owns :
      (ts : List Bytes) (es : List Event) (pre post : List ℕ)
      → NameFits ts
      → Owns es (pre ++ post)
      → Returns (IsMade pre post) (cmd_new_blocks heap ts es)
  unfolding cmd_new_blocks
  cmd_new-Owns [] es pre post k h = elim k [ ]
  cmd_new-Owns (t ∷ ts) es pre post k h =
      let a = heap es in
      let (as', es') = strdup_all heap (t ∷ ts) (es ++ allocated a ∷ []) in
      rw (lt→ltb (length t) (name_max + 1) (omega arith)) (
        subst (λ l. Owns es' (pre ++ l)) (sym (append_assoc as' (a ∷ []) post))
            (strdup_all-Owns (t ∷ ts) (es ++ allocated a ∷ []) pre (a ∷ post)
              (allocates a pre post h)),
        refl,
      )

  read_more-Owns :
      (more : List ℕ) (buf : ℕ) (es : List Event) (pre post : List ℕ)
      → Owns es (pre ++ buf ∷ post)
      → let (buf', es') = read_more_blocks heap more buf es in Owns es' (pre ++ buf' ∷ post)
  unfolding read_more_blocks
  read_more-Owns [] buf es pre post h =
      frees (heap es) pre (buf ∷ post) (allocates (heap es) pre (buf ∷ post) h)
  read_more-Owns (zero ∷ more) buf es pre post h =
      frees (heap es) pre (buf ∷ post) (allocates (heap es) pre (buf ∷ post) h)
  read_more-Owns (suc n ∷ more) buf es pre post h =
      let temp = heap es in
      let moved = (es ++ allocated temp ∷ []) ++ freed buf ∷ [] in
      let grown = heap moved in
      read_more-Owns more grown ((moved ++ allocated grown ∷ []) ++ freed temp ∷ []) pre post (
        frees_behind (moved ++ allocated grown ∷ []) temp grown pre post (
          allocates grown pre (temp ∷ post)
            (frees buf pre (temp ∷ post) (allocates_behind es temp buf pre post h))))

  read_all-Owns :
      (r : Reads) (es : List Event) (pre post : List ℕ)
      → r.readable ≡ true
      → Owns es (pre ++ post)
      → Returns (λ got. Owns got.1 (pre ++ got.0 ∷ post)) (read_all_blocks heap r es)
  unfolding read_all_blocks
  read_all-Owns r es pre post k h =
      let first = allocates (heap es) pre post h in
      rw k (elim (Bool-cases r.fills) [
        | inl e ↦
            simp e (read_more-Owns r.more (heap es) (es ++ allocated (heap es) ∷ []) pre post first)
        | inr e ↦ simp e first
      ])

  -- The blocks of a job that was updated.
  abbrev IsUpdated : List ℕ → List ℕ → Blocks × List Event → Type 0
  IsUpdated pre post (b, es) = Owns es (pre ++ (blocks_of b ++ post)) × HasOutput b

  cmd_update-Owns :
      (r : Option Reads) (b : Blocks) (es : List Event) (pre post : List ℕ)
      → Works r
      → HasOutput b
      → Owns es (pre ++ (blocks_of b ++ post))
      → Returns (IsUpdated pre post) (cmd_update_blocks heap r b es)
  unfolding cmd_update_blocks
  cmd_update-Owns none b es pre post k f h = (h, f)
  cmd_update-Owns (some r) b es pre post k f h = elim (Bool-cases b.finished) [
    | inl e ↦ simp e (h, λ k. cc)
    | inr e ↦
        let held = λ (out : Option ℕ). addresses out ++ b.cell ∷ [] in
        let before : Owns es ((pre ++ b.argv) ++ b.cell ∷ post) =
          subst (λ out. Owns es ((pre ++ b.argv) ++ (held out ++ post))) (f e)
            (subst (Owns es) (regroup pre b.argv (held b.output) post) h) in
        simp e (
          Returns-bind (λ got. Owns got.1 ((pre ++ b.argv) ++ got.0 ∷ b.cell ∷ post))
            (IsUpdated pre post) _ _ (read_all-Owns r es (pre ++ b.argv) (b.cell ∷ post) k before)
            (λ got owns. (
              subst (Owns got.1) (sym (regroup pre b.argv (held (some got.0)) post)) owns,
              λ c. cc,
            )))
  ]

  -- The blocks of some jobs that were updated, as many as before.
  abbrev pub AreUpdated : ℕ → List ℕ → List ℕ → List Blocks × List Event → Type 0
  AreUpdated n pre post (bs, es) =
      Owns es (pre ++ (all_blocks bs ++ post)) × AllHaveOutput bs × (length bs ≡ n)

  pub cmdctl_update-Owns :
      (exits : ℕ → Option Reads) (i : ℕ) (bs : List Blocks) (es : List Event) (pre post : List ℕ)
      → AllWork exits
      → AllHaveOutput bs
      → Owns es (pre ++ (all_blocks bs ++ post))
      → Returns (AreUpdated (length bs) pre post) (cmdctl_update_blocks heap exits i bs es)
  unfolding cmdctl_update_blocks
  cmdctl_update-Owns exits i [] es pre post k f h = (h, tt, refl)
  cmdctl_update-Owns exits i (b ∷ bs) es pre post k f h =
      Returns-bind (IsUpdated pre (all_blocks bs ++ post)) (AreUpdated (suc (length bs)) pre post) _
        _
        (cmd_update-Owns (exits i) b es pre (all_blocks bs ++ post) (k i) f.0
          (subst (λ l. Owns es (pre ++ l)) (append_assoc (blocks_of b) (all_blocks bs) post) h))
        (λ one first.
          let mine = pre ++ blocks_of one.0 in
          Returns-bind (AreUpdated (length bs) mine post) (AreUpdated (suc (length bs)) pre post) _
            _
            (cmdctl_update-Owns exits (i + 1) bs one.1 mine post k f.1 (
              subst (Owns one.1) (sym (append_assoc pre (blocks_of one.0) (all_blocks bs ++ post)))
                first.0))
            (λ rest more. (
              subst (Owns rest.1) (sym (regroup pre (blocks_of one.0) (all_blocks rest.0) post))
                  more.0,
              (first.1, more.1),
              ap suc more.2,
            )))
