-- ===== src/Paths/Normal.antt =====
-- What `path_normalize` does: the normal form of a path, the asserts, and normalizing twice.
use nand_vfs_mx35lf.Base.{
  ℕ, zero, suc, ◌+◌, ◌-◌, ◌≤◌, ◌<◌, ◌≡◌, ◌≢◌, ◌↔◌, refl, sym, ap, ◌∙◌, Bool, true, false, inl, inr,
  Bool-cases, List, [], ◌∷◌, ◌++◌, ltb, ◌&&◌, ◌==◌, length, reverse, if◌then◌else◌, arith,
}
use nand_vfs_mx35lf.Paths.{
  aborted, done, Segment, max_segments, max_ltfs_path_len, strtok, take_tokens, rebuild, terminate,
  same, is_absolute, path_normalize,
}
use nand_vfs_mx35lf.Paths.Tokens.{AllNames, weight, strtok-AllNames, weight-strtok, length-AllNames}
use nand_vfs_mx35lf.Paths.Segments.{
  IsResolved, resolve, take_tokens-resolve, weight-resolve, resolve-IsResolved, resolve-reverse,
}
use nand_vfs_mx35lf.Paths.Render.{
  render, terminate-rebuild, weight-reverse, length-render, strtok-render, is_absolute-render,
}

-- The segments that a path leads to, the last in front.
abbrev pub segments_of : List ℕ → List Segment
segments_of path = resolve (is_absolute path) (strtok [] path) []

abbrev pub normal : List ℕ → List ℕ
normal path = render (is_absolute path) (reverse (segments_of path))

segments_of-IsResolved : (path : List ℕ) → IsResolved (is_absolute path) (segments_of path)
segments_of-IsResolved path =
    resolve-IsResolved (is_absolute path) (strtok [] path) [] (strtok-AllNames [] path tt) tt

IsResolved-AllNames :
    (absolute : Bool) (segments : List Segment) → IsResolved absolute segments → AllNames segments
IsResolved-AllNames absolute [] h = tt
IsResolved-AllNames absolute (s ∷ segments) h = (h.0.0, IsResolved-AllNames absolute segments h.1)

AllNames-append : (us vs : List Segment) → AllNames us → AllNames vs → AllNames (us ++ vs)
AllNames-append [] vs hu hv = hv
AllNames-append (u ∷ us) vs hu hv = (hu.0, AllNames-append us vs hu.1 hv)

AllNames-reverse : (segments : List Segment) → AllNames segments → AllNames (reverse segments)
AllNames-reverse [] h = tt
AllNames-reverse (s ∷ segments) h =
    AllNames-append (reverse segments) (s ∷ []) (AllNames-reverse segments h.1) (h.0, tt)

pub segments_of-AllNames : (path : List ℕ) → AllNames (reverse (segments_of path))
segments_of-AllNames path =
    AllNames-reverse (segments_of path)
      (IsResolved-AllNames (is_absolute path) (segments_of path) (segments_of-IsResolved path))

tokens_fit :
    (path : List ℕ)
    → length path < max_ltfs_path_len
    → length (strtok [] path) + length {A = Segment} [] ≤ max_segments
tokens_fit path h =
    omega
      (arith, length-AllNames (strtok [] path) (strtok-AllNames [] path tt), weight-strtok [] path)

-- The '/' of an absolute path is no byte of a token.
weight-tokens :
    (path : List ℕ) → weight (strtok [] path) ≤ length path + (if is_absolute path then 0 else 1)
unfolding strtok
weight-tokens [] = omega arith
weight-tokens (c ∷ path) = elim (Bool-cases (c == b'/')) [
  | inl e ↦ rw e (omega (arith, weight-strtok [] path))
  | inr e ↦ rw e (omega (arith, weight-strtok (c ∷ []) path))
]

pub length-normal : (path : List ℕ) (n : ℕ) → length path ≤ n → 1 ≤ n → length (normal path) ≤ n
length-normal path n h h' =
    length-render (is_absolute path) n (reverse (segments_of path))
      (omega (
        arith,
        weight-reverse (segments_of path),
        weight-resolve (is_absolute path) (strtok [] path) [],
        weight-tokens path,
      ))
      h'

pub path_normalize-normal :
    (path : List ℕ) (size : ℕ)
    → 2 ≤ size
    → length path < size
    → length path < max_ltfs_path_len
    → path_normalize path size ≡ done (normal path)
unfolding path_normalize
path_normalize-normal path size h h' h'' =
    let passes : (ltb 0 size && ltb (length path) size && ltb (length path) max_ltfs_path_len)
        ≡ true =
      ground arith in
    rw (passes, take_tokens-resolve (is_absolute path) (strtok [] path) [] (tokens_fit path h''))
      (terminate-rebuild (is_absolute path) size (reverse (segments_of path))
        (segments_of-AllNames path) h)

-- A path shorter than its buffer of at least two bytes and than 256 bytes passes every assert of
-- `path_normalize`. What is left in the buffer is the text of the segments that the tokens of the
-- path lead to, one after the other from the root or the start, and ends inside the buffer. No
-- segment of it is empty, holds a '/' or is "."; a ".." stands in a relative path only, with
-- nothing but ".." before it.
pub path_normalize-IsResolved :
    (path : List ℕ) (size : ℕ)
    → 2 ≤ size
    → length path < size
    → length path < max_ltfs_path_len
    → (path_normalize path size ≡ done (render (is_absolute path) (reverse (segments_of path))))
      × IsResolved (is_absolute path) (segments_of path)
      × (length (render (is_absolute path) (reverse (segments_of path))) < size)
path_normalize-IsResolved path size h h' h'' =
    let fits : length (normal path) ≤ size - 1 =
      length-normal path (size - 1) (omega arith) (omega arith) in
    (path_normalize-normal path size h h' h'', segments_of-IsResolved path, omega arith)

path_normalize-one : (path : List ℕ) → path_normalize path 1 ≡ aborted
unfolding path_normalize take_tokens strtok rebuild terminate
path_normalize-one [] = refl
path_normalize-one (c ∷ path) = ground arith

path_normalize-long :
    (path : List ℕ) (size : ℕ)
    → (ltb 0 size && ltb (length path) size && ltb (length path) max_ltfs_path_len) ≡ false
    → path_normalize path size ≡ aborted
unfolding path_normalize
path_normalize-long path size h = rw h refl

done-ne-aborted : {A : Type 0} {a : A} → done a ≢ aborted
done-ne-aborted = λ e. cc

done-injective : {A : Type 0} {a b : A} → done a ≡ done b → a ≡ b
done-injective e = cc

returned :
    (path : List ℕ) (size : ℕ)
    → path_normalize path size ≢ aborted
    → (ltb 0 size && ltb (length path) size && ltb (length path) max_ltfs_path_len) ≡ true
    → (2 ≤ size) × (length path < size) × (length path < max_ltfs_path_len)
returned path zero returns fits = absurd cc
returned path (suc zero) returns fits = absurd (returns (path_normalize-one path))
returned path (suc (suc size)) returns fits = ground arith

-- The asserts of `path_normalize` all pass exactly when the path is shorter than its buffer and
-- than 256 bytes and the buffer has two bytes at least.
pub path_normalize-aborted_iff :
    (path : List ℕ) (size : ℕ)
    → (path_normalize path size ≢ aborted)
      ↔ ((2 ≤ size) × (length path < size) × (length path < max_ltfs_path_len))
path_normalize-aborted_iff path size = (
  λ returns.
      elim (Bool-cases
        (ltb 0 size && ltb (length path) size && ltb (length path) max_ltfs_path_len)) [
          | inl fits ↦ returned path size returns fits
          | inr e ↦ absurd (returns (path_normalize-long path size e))
        ],
  λ fits e.
      absurd (done-ne-aborted (sym (path_normalize-normal path size fits.0 fits.1 fits.2) ∙ e)),
)

resolve-render :
    (absolute : Bool) (tokens : List Segment)
    → AllNames tokens
    → resolve absolute (strtok [] (render absolute tokens)) [] ≡ resolve absolute tokens []
unfolding strtok same
resolve-render true [] names = refl
resolve-render false [] names = refl
resolve-render absolute (s ∷ tokens) names =
    ap (λ ts. resolve absolute ts []) (strtok-render absolute s tokens names)

-- The text of a path leads to the segments of the path.
pub resolve-normal :
    (path : List ℕ) → resolve (is_absolute path) (strtok [] (normal path)) [] ≡ segments_of path
resolve-normal path =
    resolve-render (is_absolute path) (reverse (segments_of path)) (segments_of-AllNames path)
    ∙ resolve-reverse (is_absolute path) (segments_of path) (segments_of-IsResolved path)

pub is_absolute-normal : (path : List ℕ) → is_absolute (normal path) ≡ is_absolute path
is_absolute-normal path =
    is_absolute-render (is_absolute path) (reverse (segments_of path)) (segments_of-AllNames path)

normal-normal : (path : List ℕ) → normal (normal path) ≡ normal path
normal-normal path = rw (is_absolute-normal path, resolve-normal path) refl

-- A call that returns has left the normal path.
pub result_normal :
    (path result : List ℕ) (size : ℕ)
    → path_normalize path size ≡ done result
    → ((2 ≤ size) × (length path < size) × (length path < max_ltfs_path_len))
      × (normal path ≡ result)
result_normal path result size e =
    let fits : (2 ≤ size) × (length path < size) × (length path < max_ltfs_path_len) =
      (path_normalize-aborted_iff path size).0 (λ e'. absurd (done-ne-aborted (sym e ∙ e'))) in
    (fits, done-injective (sym (path_normalize-normal path size fits.0 fits.1 fits.2) ∙ e))

-- What `path_normalize` leaves in a buffer it leaves alone in a buffer of any size that holds it:
-- normalizing a second time changes nothing.
pub path_normalize-path_normalize :
    (path result : List ℕ) (size size' : ℕ)
    → path_normalize path size ≡ done result
    → 2 ≤ size'
    → length result < size'
    → path_normalize result size' ≡ done result
path_normalize-path_normalize path result size size' e h h' =
    let (fits, same_) = result_normal path result size e in
    rw (sym same_) (
      path_normalize-normal (normal path) size' h (omega (arith, ap length same_))
        (omega (arith, length-normal path 255 (omega arith) (omega arith)))
      ∙ ap done (normal-normal path))
