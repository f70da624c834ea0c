-- ===== src/Paths/Join.antt =====
-- Appending to a path: normalizing the first part before makes no difference, and what `path_join`
-- does on each outcome.
use nand_vfs_mx35lf.Base.{
  ℕ, zero, suc, ◌+◌, ◌≤◌, ◌<◌, ◌≡◌, ◌≢◌, refl, sym, ap, ◌∙◌, Bool, true, false, none, some, List,
  [], ◌∷◌, ◌++◌, ltb, ◌&&◌, length, reverse, take, length-append, length-take, not, arith,
}
use nand_vfs_mx35lf.Paths.{
  done, Segment, max_ltfs_path_len, strtok, is_absolute, path_normalize, has_scheme, path_join,
}
use nand_vfs_mx35lf.Paths.Tokens.{AllNames, strtok-slash}
use nand_vfs_mx35lf.Paths.Segments.{resolve, resolve-append}
use nand_vfs_mx35lf.Paths.Render.{render}
use nand_vfs_mx35lf.Paths.Normal.{
  segments_of, normal, segments_of-AllNames, resolve-normal, is_absolute-normal, length-normal,
  path_normalize-normal, result_normal,
}

is_absolute-append : (p q : List ℕ) → p ≢ [] → is_absolute (p ++ q) ≡ is_absolute p
is_absolute-append [] q h = absurd (h refl)
is_absolute-append (c ∷ p) q h = refl

render-nonempty :
    (absolute : Bool) (tokens : List Segment) → AllNames tokens → render absolute tokens ≢ []
render-nonempty true [] names = λ e. cc
render-nonempty true (s ∷ tokens) names = λ e. cc
render-nonempty false [] names = λ e. cc
render-nonempty false ([] ∷ tokens) names = absurd names.0
render-nonempty false ((c ∷ s) ∷ tokens) names = λ e. cc

normal-nonempty : (path : List ℕ) → normal path ≢ []
normal-nonempty path =
    render-nonempty (is_absolute path) (reverse (segments_of path)) (segments_of-AllNames path)

segments_of-slash :
    (p q : List ℕ)
    → p ≢ []
    → segments_of (p ++ b'/' ∷ q) ≡ resolve (is_absolute p) (strtok [] q) (segments_of p)
segments_of-slash p q h =
    rw (is_absolute-append p (b'/' ∷ q) h, strtok-slash [] p q)
      (resolve-append (is_absolute p) (strtok [] p) (strtok [] q) [])

normal-slash : (p q : List ℕ) → p ≢ [] → normal (normal p ++ b'/' ∷ q) ≡ normal (p ++ b'/' ∷ q)
normal-slash p q h =
    rw
      (
        segments_of-slash p q h,
        segments_of-slash (normal p) q (normal-nonempty p),
        is_absolute-append p (b'/' ∷ q) h,
        is_absolute-append (normal p) (b'/' ∷ q) (normal-nonempty p),
        is_absolute-normal p,
        resolve-normal p,
      )
      refl

nonempty_length : (path : List ℕ) → path ≢ [] → 1 ≤ length path
nonempty_length [] h = absurd (h refl)
nonempty_length (c ∷ path) h = omega arith

-- Where a path that is not empty is followed by a '/' and more, and the whole fits in the buffer
-- and in 255 bytes, it may be normalized first: the result is the same.
pub path_normalize-append :
    (path more result : List ℕ) (size size' : ℕ)
    → path ≢ []
    → path_normalize path size ≡ done result
    → length path + 1 + length more < size'
    → length path + 1 + length more < max_ltfs_path_len
    → path_normalize (result ++ b'/' ∷ more) size' ≡ path_normalize (path ++ b'/' ∷ more) size'
path_normalize-append path more result size size' full e h h' =
    let (fits, same_) = result_normal path result size e in
    let short : length (normal path) ≤ length path =
      length-normal path (length path) (omega arith) (nonempty_length path full) in
    rw (sym same_) (
      path_normalize-normal (normal path ++ b'/' ∷ more) size' (omega arith)
        (omega (arith, length-append (normal path) (b'/' ∷ more)))
        (omega (arith, length-append (normal path) (b'/' ∷ more)))
      ∙ ap done (normal-slash path more full)
      ∙ sym (
          path_normalize-normal (path ++ b'/' ∷ more) size' (omega arith)
            (omega (arith, length-append path (b'/' ∷ more)))
            (omega (arith, length-append path (b'/' ∷ more)))))

take_of_le : (n : ℕ) (xs : List ℕ) → length xs ≤ n → take n xs ≡ xs
take_of_le zero [] h = refl
take_of_le zero (x ∷ xs) h = absurd (omega arith)
take_of_le (suc n) [] h = refl
take_of_le (suc n) (x ∷ xs) h = ap (λ ys. x ∷ ys) (take_of_le n xs (omega arith))

-- Two strings that fit in the buffer with a '/' and the NUL are not cut.
join_fits :
    (base append : List ℕ) (size : ℕ)
    → size ≤ max_ltfs_path_len
    → has_scheme base ≡ false
    → length base + 1 + length append + 1 ≤ size
    → path_join base size append ≡ done (some (normal (base ++ b'/' ∷ append)))
unfolding path_join
join_fits base append size h plain room =
    let passes : (ltb 0 size && not (has_scheme base)) ≡ true = ground arith in
    let fits : ltb size (length base + 1 + length append + 1) ≡ false = ground arith in
    rw
      (
        take_of_le max_ltfs_path_len base (omega arith),
        take_of_le max_ltfs_path_len append (omega arith),
        passes,
        fits,
        path_normalize-normal (base ++ b'/' ∷ append) size (omega arith)
            (omega (arith, length-append base (b'/' ∷ append)))
            (omega (arith, length-append base (b'/' ∷ append))),
      )
      refl

ltb_of_lt : (a b : ℕ) → a < b → ltb a b ≡ true
ltb_of_lt a b h = ground arith

join_too_long :
    (base append : List ℕ) (size : ℕ)
    → 0 < size
    → size ≤ max_ltfs_path_len
    → has_scheme base ≡ false
    → size < length base + 1 + length append + 1
    → path_join base size append ≡ done none
unfolding path_join
join_too_long base append size h h' plain over =
    let passes : (ltb 0 size && not (has_scheme base)) ≡ true = ground arith in
    let long : ltb size
          (length (take max_ltfs_path_len base) + 1 + length (take max_ltfs_path_len append) + 1)
        ≡ true =
      ltb_of_lt _ _
        (omega (arith, length-take max_ltfs_path_len base, length-take max_ltfs_path_len append)) in
    rw (passes, long) refl

-- Appending to a base without "://", in a buffer of at most 256 bytes, fails no assert. It returns
-- false exactly when the base, a '/', what is appended and the NUL do not fit in the buffer, and
-- leaves the normal form of base/append there otherwise.
pub path_join_lem :
    (base append : List ℕ) (size : ℕ)
    → 0 < size
    → size ≤ max_ltfs_path_len
    → has_scheme base ≡ false
    → (size < length base + 1 + length append + 1 → path_join base size append ≡ done none)
      × (length base + 1 + length append + 1 ≤ size
          → path_join base size append ≡ done (some (normal (base ++ b'/' ∷ append))))
path_join_lem base append size h h' plain =
    (join_too_long base append size h h' plain, join_fits base append size h' plain)
