-- ===== src/Http/Request/FileType.antt =====
-- server.c: `file_type`, whose array of four bytes is not cleared, and `get_query_string`.
use completed_projects.Common.{
  ℕ, zero, suc, ℤ, pos, negsuc, Bool, true, false, [], ◌∷◌, ◌++◌, ◌≡◌, ◌≢◌, refl, ap, ltb, le→ltb,
  ◌==◌, if◌then◌else◌, arith,
}
use completed_projects.Common.CString.{Bytes, codes, str_eq}
use completed_projects.Http.Request.{copy_type, file_type, query_bytes, has_query, get_query_string}

-- A byte does not occur.
abbrev pub Lacks : ℕ → Bytes → Type 0
Lacks b [] = Unit {0}
Lacks b (c ∷ cs) = (c ≢ b) × Lacks b cs

copy_type-append :
    (pre path arr : Bytes)
    → Lacks b'.' pre
    → copy_type false 0 (pre ++ b'.' ∷ path) arr ≡ copy_type true 0 path arr
unfolding copy_type
copy_type-append [] path arr h = refl
copy_type-append (c ∷ pre) path arr h = ground (arith, copy_type-append pre path arr h.1)

copy_type_full : (path arr : Bytes) → copy_type true 3 path arr ≡ arr
unfolding copy_type
copy_type_full [] arr = refl
copy_type_full (c ∷ path) arr = refl

copy_type_three :
    (a b c x y z w : ℕ) (path : Bytes)
    → copy_type true 0 (a ∷ b ∷ c ∷ path) (x ∷ y ∷ z ∷ w ∷ []) ≡ a ∷ b ∷ c ∷ w ∷ []
copy_type_three a b c x y z w path = unfold copy_type in copy_type_full path _

-- What the three bytes of an extension stand for.
abbrev pub of_extension : Bytes → ℤ
of_extension e =
    if str_eq e (codes "jpg")
    then pos 1
    else if str_eq e (codes "gif")
    then pos 2
    else if str_eq e (codes "css")
    then negsuc 0
    else if str_eq e (codes "cgi")
    then negsuc 1
    else pos 0

-- If the array ends in NUL, the three bytes behind the first dot of the path decide, whatever follows
-- them.
pub file_type-of_extension :
    (pre path : Bytes) (a b c x y z : ℕ)
    → Lacks b'.' pre
    → file_type (x ∷ y ∷ z ∷ 0 ∷ []) (pre ++ b'.' ∷ a ∷ b ∷ c ∷ path)
      ≡ of_extension (a ∷ b ∷ c ∷ [])
unfolding file_type
file_type-of_extension pre path a b c x y z h =
    rw
      (
        copy_type-append pre (a ∷ b ∷ c ∷ path) (x ∷ y ∷ z ∷ 0 ∷ []) h,
        copy_type_three a b c x y z 0 path,
      )
      (ground arith)

-- The array after the loop: its last byte is never written.
copy_type_last :
    (copy : Bool) (j : ℕ) (path : Bytes) (x y z w : ℕ)
    → (a : ℕ) × (b : ℕ) × (c : ℕ) × (copy_type copy j path (x ∷ y ∷ z ∷ w ∷ [])
        ≡ a ∷ b ∷ c ∷ w ∷ [])
unfolding copy_type
copy_type_last copy j [] x y z w = (x, y, z, refl)
copy_type_last false j (c ∷ path) x y z w = copy_type_last (c == b'.') j path x y z w
copy_type_last true zero (c ∷ path) x y z w = copy_type_last true 1 path c y z w
copy_type_last true (suc zero) (c ∷ path) x y z w = copy_type_last true 2 path x c z w
copy_type_last true (suc (suc zero)) (c ∷ path) x y z w = copy_type_last true 3 path x y c w
copy_type_last true (suc (suc (suc j))) (c ∷ path) x y z w = (
  x,
  y,
  z,
  let full : ltb (suc (suc (suc j))) 3 ≡ false = le→ltb (suc (suc (suc j))) 3 (omega arith) in
      rw full,
)

-- If the last byte of the array is not NUL before the call, no file is recognised: every path is taken
-- for HTML, images, style sheets and scripts too.
pub file_type_uncleared :
    (path : Bytes) (x y z w : ℕ) → w ≢ 0 → file_type (x ∷ y ∷ z ∷ w ∷ []) path ≡ pos 0
unfolding file_type
file_type_uncleared path x y z w h =
    let (a, b, c, e) = copy_type_last false 0 path x y z w in rw e (ground arith)

query_bytes-true : (q : Bytes) → query_bytes true q ≡ q
unfolding query_bytes
query_bytes-true [] = refl
query_bytes-true (c ∷ q) = ap (◌∷◌ c) (query_bytes-true q)

-- The query string is all that follows the first question mark, further question marks included.
pub get_query_string-append :
    (pre q : Bytes) → Lacks b'?' pre → get_query_string (pre ++ b'?' ∷ q) ≡ (q, 1)
unfolding get_query_string query_bytes has_query
get_query_string-append [] q h = ap (λ x. (x, 1)) (query_bytes-true q)
get_query_string-append (c ∷ pre) q h = ground (arith, get_query_string-append pre q h.1)

-- Without one, nothing is copied and 0 is returned.
pub get_query_string_none : (uri : Bytes) → Lacks b'?' uri → get_query_string uri ≡ ([], 0)
unfolding get_query_string query_bytes has_query
get_query_string_none [] h = refl
get_query_string_none (c ∷ uri) h = ground (arith, get_query_string_none uri h.1)
