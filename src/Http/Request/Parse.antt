-- ===== src/Http/Request/Parse.antt =====
-- server.c: `populate_request` on a request line of three words.
use completed_projects.Common.{
  is_space, ◌>>=◌, ℕ, zero, suc, ◌+◌, ◌-◌, ◌≤◌, ◌<◌, true, Bool-cases, inl, inr, Option, none, some,
  [], ◌∷◌, ◌++◌, ◌≡◌, refl, drop, length, length-append, length-drop, length-replicate,
  if◌then◌else◌, arith, replicate,
}
use completed_projects.Common.CString.{strcpy, Bytes, IsText, codes, str_eq}
use completed_projects.Http.Data.{max_string_length, ConfigData, RequestData, text, strcat}
use completed_projects.Http.Request.{copy_word, file_type, populate_request, default_path}
use completed_projects.Http.Request.Words.{IsWord, copy_word-append, drop_next, text-append_nul}

-- A word of a request that fits its array.
pub record Fits (w : Bytes) : Type 0 where
  pub word : IsWord w
  pub is_text : IsText w
  pub short : length w < max_string_length

-- The array for a string, cleared.
abbrev pub cleared : Bytes
cleared = replicate max_string_length 0

-- A word in an array that was cleared.
abbrev pub held : Bytes → Bytes
held w = w ++ drop (length w) cleared

drop-replicate :
    (n m : ℕ) → n < m → (r : Bytes) × (drop n (replicate m (let z : ℕ = 0 in z)) ≡ 0 ∷ r)
drop-replicate n zero h = elim h [ ]
drop-replicate zero (suc m) h = (replicate m 0, refl)
drop-replicate (suc n) (suc m) h = drop-replicate n m (omega arith)

pub text-held : (w : Bytes) → IsText w → length w < max_string_length → text (held w) ≡ some w
text-held w t h =
    let (r, e) = drop-replicate (length w) max_string_length h in rw e (text-append_nul w r t)

length-held : (w : Bytes) → length w < max_string_length → length (held w) ≡ max_string_length
length-held w h = omega (
  arith,
  length-append w (drop (length w) cleared),
  length-drop (length w) cleared,
  length-replicate max_string_length (let z : ℕ = 0 in z),
)

IsText-append : (a b : Bytes) → IsText a → IsText b → IsText (a ++ b)
IsText-append [] b h k = k
IsText-append (c ∷ a) b h k = (h.0, IsText-append a b h.1 k)

abbrev IsTextIfAny : Option Bytes → Type 0
IsTextIfAny none = Unit {0}
IsTextIfAny (some t) = IsText t

text-IsTextIfAny : (a : Bytes) → IsTextIfAny (text a)
text-IsTextIfAny [] = tt
text-IsTextIfAny (c ∷ a) = ground (arith, text-IsTextIfAny a)

pub text-IsText : (a t : Bytes) → text a ≡ some t → IsText t
text-IsText a t e = rw e at (text-IsTextIfAny a)

-- A string that fits is written whole, and read back.
pub strcpy-text :
    (dst src : Bytes)
    → IsText src
    → length src < length dst
    → (a : Bytes) × (strcpy dst src ≡ some a) × (text a ≡ some src) × (length a ≡ length dst)
strcpy-text dst src t h = (
  src ++ 0 ∷ drop (length src + 1) dst,
  ground arith,
  text-append_nul src _ t,
  omega
      (arith, length-append src (0 ∷ drop (length src + 1) dst), length-drop (length src + 1) dst),
)

strcat-text :
    (dst t src : Bytes)
    → text dst ≡ some t
    → IsText src
    → length t + length src < length dst
    → (a : Bytes) × (strcat dst src ≡ some a) × (text a ≡ some (t ++ src)) × (length a ≡ length dst)
strcat-text dst t src e k h =
    let (a, x, y, z) =
      strcpy-text dst (t ++ src) (IsText-append t src (text-IsText dst t e) k)
        (omega (arith, length-append t src)) in
    (a, rw e x, y, z)

-- The path that is looked up: the index file stands for `/`.
abbrev pub target : Bytes → Bytes → Bytes
target p index = if str_eq p (codes "/") then p ++ index else p

length-target : (p index : Bytes) → length (target p index) ≤ length p + length index
length-target p index = ground (arith, length-append p index)

default_path-target :
    (config : ConfigData) (p index : Bytes)
    → text config.index ≡ some index
    → IsText p
    → length p + length index < max_string_length
    → (a : Bytes) × (default_path config (held p) ≡ some a) × (text a ≡ some (target p index))
unfolding default_path
default_path-target config p index e t h =
    let read = text-held p t (omega arith) in
    elim (Bool-cases (str_eq p (codes "/"))) [
      | inl q ↦
          let (a, x, y, z) =
            strcat-text (held p) p index read (text-IsText config.index index e)
              (omega (arith, length-held p (omega arith))) in
          (a, rw (read, ◌>>=◌) (rw (q, e) x), rw q y)
      | inr q ↦ (held p, rw (read, ◌>>=◌) (rw q refl), rw q read)
    ]

module _ (config : ConfigData) (local m p v rest root index abs_path : Bytes) (sp : ℕ)
    (junk : RequestData) where
  -- The request before the call: the three words cleared.
  abbrev pub blank : RequestData
  blank = record junk {
    type = cleared;
    rel_path = cleared;
    abs_path = abs_path;
    protocol = cleared;
  }

  abbrev pub request_line : Bytes
  request_line = m ++ b' ' ∷ (p ++ b' ' ∷ (v ++ sp ∷ rest))

  -- The three loops copy the three words.
  pub copied :
      Fits m
      → Fits p
      → Fits v
      → is_space sp ≡ true
      → (i : ℕ) × (k : ℕ) × (l : ℕ) × (copy_word (max_string_length - 1) 0 0 request_line cleared
          ≡ (held m, i))
        × (copy_word (max_string_length - 1) 0 (suc i) request_line cleared ≡ (held p, k))
        × (copy_word (max_string_length - 1) 0 (suc k) request_line cleared ≡ (held v, l))
  copied fm fp fv s =
      let full = length-replicate max_string_length (let z : ℕ = 0 in z) in
      let buf = request_line in
      let (i, run1, d1) =
        copy_word-append m 0 buf cleared b' ' (p ++ b' ' ∷ (v ++ sp ∷ rest)) fm.word fm.short
          (omega (arith, full, fm.short)) refl refl in
      let (k, run2, d2) =
        copy_word-append p (suc i) buf cleared b' ' (v ++ sp ∷ rest) fp.word fp.short
          (omega (arith, full, fp.short)) refl (drop_next i buf b' ' _ d1) in
      let (l, run3, d3) =
        copy_word-append v (suc k) buf cleared sp rest fv.word fv.short
          (omega (arith, full, fv.short)) s (drop_next k buf b' ' _ d2) in
      (i, k, l, run1, run2, run3)

  -- A request line of three words that fit, received into a request that was cleared before, with a
  -- root and a path that fit together: the words are the type, the path (with the index file for `/`)
  -- and the protocol, the absolute path is the root with the path behind it, and the kind of file is
  -- that of the path.
  pub populate_request-words :
      Fits m
      → Fits p
      → Fits v
      → is_space sp ≡ true
      → text config.root_path ≡ some root
      → text config.index ≡ some index
      → length abs_path ≡ max_string_length
      → length root + (length p + length index) < max_string_length
      → (req : RequestData) × (populate_request config local request_line blank ≡ some req)
        × (text req.type ≡ some m)
        × (text req.rel_path ≡ some (target p index))
        × (text req.protocol ≡ some v)
        × (text req.abs_path ≡ some (root ++ target p index))
        × (req.file_type ≡ file_type local (target p index))
  unfolding populate_request
  populate_request-words fm fp fv s er ei la h =
      let (i, k, l, run1, run2, run3) = copied fm fp fv s in
      let (a, x, xt, xl) =
        strcpy-text abs_path root (text-IsText config.root_path root er) (omega arith) in
      let (rel, y, yt) = default_path-target config p index ei fp.is_text (omega arith) in
      let tt' = text-IsText rel (target p index) yt in
      let (abs, z, zt, zl) =
        strcat-text a root (target p index) xt tt' (omega (arith, length-target p index)) in
      (
        record {
          type = held m;
          rel_path = rel;
          abs_path = abs;
          protocol = held v;
          file_type = file_type local (target p index);
        },
        rw (run1, run2, run3, er, x, y, yt, z, ◌>>=◌),
        text-held m fm.is_text fm.short,
        yt,
        text-held v fv.is_text fv.short,
        zt,
        refl,
      )
