-- ===== src/Paths/Render.antt =====
-- The path that `path_normalize` writes from the segments: its text, its length, and the tokens that
-- it gives back.
use nand_vfs_mx35lf.Base.{
  ℕ, ◌+◌, ◌≤◌, ◌≡◌, refl, sym, Bool, true, false, List, [], ◌∷◌, ◌++◌, length, length-append,
  reverse, ap, ◌∙◌, if◌then◌else◌, arith,
}
use mathlib.Core.List.{append_assoc, append-nil}
use nand_vfs_mx35lf.Paths.{
  done, Segment, dot, strtok, ends_slash, rebuild, terminate, root, is_absolute, close,
}
use nand_vfs_mx35lf.Paths.Tokens.{IsName, AllNames, weight, strtok-append}

-- Each segment behind a '/'.
abbrev pub slashed : List Segment → List ℕ
slashed [] = []
slashed (s ∷ segments) = b'/' ∷ (s ++ slashed segments)

-- The text of a path with these segments.
abbrev pub render : Bool → List Segment → List ℕ
render true [] = b'/' ∷ []
render true (s ∷ segments) = slashed (s ∷ segments)
render false [] = dot
render false (s ∷ segments) = s ++ slashed segments

ends_slash-append : (path : List ℕ) (s : Segment) → IsName s → ends_slash (path ++ s) ≡ false
unfolding ends_slash
ends_slash-append path [] h = absurd h
ends_slash-append [] (c ∷ []) h = h.0
ends_slash-append [] (c ∷ d ∷ s) h = ends_slash-append [] (d ∷ s) h.1
ends_slash-append (x ∷ []) (c ∷ s) h = ends_slash-append [] (c ∷ s) h
ends_slash-append (x ∷ y ∷ path) (c ∷ s) h = ends_slash-append (y ∷ path) (c ∷ s) h

rebuild-slashed :
    (x : ℕ) (path : List ℕ) (segments : List Segment)
    → ends_slash (x ∷ path) ≡ false
    → AllNames segments
    → rebuild (x ∷ path) segments ≡ (x ∷ path) ++ slashed segments
unfolding rebuild
rebuild-slashed x path [] h names = sym (append-nil (x ∷ path))
rebuild-slashed x path (s ∷ segments) h names = rw h (
    rw
      (rebuild-slashed x ((path ++ b'/' ∷ []) ++ s) segments
        (ends_slash-append (x ∷ (path ++ b'/' ∷ [])) s names.0) names.1)
      (simp append_assoc refl))

rebuild-render :
    (absolute : Bool) (s : Segment) (segments : List Segment)
    → AllNames (s ∷ segments)
    → rebuild (root absolute) (s ∷ segments) ≡ render absolute (s ∷ segments)
unfolding rebuild ends_slash
rebuild-render absolute [] segments names = absurd names.0
rebuild-render true (c ∷ s) segments names =
    rebuild-slashed b'/' (c ∷ s) segments (ends_slash-append (b'/' ∷ []) (c ∷ s) names.0) names.1
rebuild-render false (c ∷ s) segments names =
    rebuild-slashed c s segments (ends_slash-append [] (c ∷ s) names.0) names.1

slashed-names :
    (path : List ℕ) (s : Segment) (segments : List Segment)
    → AllNames (s ∷ segments)
    → ends_slash (path ++ (s ++ slashed segments)) ≡ false
slashed-names path s [] names = rw (append-nil s) (ends_slash-append path s names.0)
slashed-names path s (t ∷ segments) names =
    let e : path ++ (s ++ b'/' ∷ (t ++ slashed segments))
        ≡ (path ++ (s ++ b'/' ∷ [])) ++ (t ++ slashed segments) =
      simp append_assoc refl in
    rw e (slashed-names (path ++ (s ++ b'/' ∷ [])) t segments names.1)

ends_slash-render :
    (absolute : Bool) (s : Segment) (segments : List Segment)
    → AllNames (s ∷ segments)
    → ends_slash (render absolute (s ∷ segments)) ≡ false
ends_slash-render true s segments names = slashed-names (b'/' ∷ []) s segments names
ends_slash-render false s segments names = slashed-names [] s segments names

terminate-render :
    (absolute : Bool) (size : ℕ) (s : Segment) (segments : List Segment)
    → AllNames (s ∷ segments)
    → terminate absolute size (render absolute (s ∷ segments))
      ≡ done (render absolute (s ∷ segments))
unfolding terminate
terminate-render absolute size [] segments names = absurd names.0
terminate-render true size (c ∷ s) segments names =
    let e : ends_slash (b'/' ∷ c ∷ (s ++ slashed segments)) ≡ false =
      ends_slash-render true (c ∷ s) segments names in
    ground arith
terminate-render false size (c ∷ s) segments names =
    let e : ends_slash (c ∷ (s ++ slashed segments)) ≡ false =
      ends_slash-render false (c ∷ s) segments names in
    ground arith

-- The last part of `path_normalize` leaves the text of the segments.
pub terminate-rebuild :
    (absolute : Bool) (size : ℕ) (segments : List Segment)
    → AllNames segments
    → 2 ≤ size
    → terminate absolute size (rebuild (root absolute) segments) ≡ done (render absolute segments)
unfolding terminate rebuild ends_slash
terminate-rebuild true size [] names h = refl
terminate-rebuild false size [] names h = ground arith
terminate-rebuild absolute size (s ∷ segments) names h =
    rw (rebuild-render absolute s segments names) (terminate-render absolute size s segments names)

length-slashed : (segments : List Segment) → length (slashed segments) ≡ weight segments
length-slashed [] = refl
length-slashed (s ∷ segments) =
    omega (arith, length-append s (slashed segments), length-slashed segments)

weight-append : (us vs : List Segment) → weight (us ++ vs) ≡ weight us + weight vs
weight-append [] vs = omega arith
weight-append (u ∷ us) vs = omega (arith, weight-append us vs)

pub weight-reverse : (segments : List Segment) → weight (reverse segments) ≡ weight segments
weight-reverse [] = refl
weight-reverse (s ∷ segments) =
    omega (arith, weight-append (reverse segments) (s ∷ []), weight-reverse segments)

-- A path that starts with no '/' has one byte less than its segments weigh.
pub length-render :
    (absolute : Bool) (n : ℕ) (segments : List Segment)
    → weight segments ≤ n + (if absolute then 0 else 1)
    → 1 ≤ n
    → length (render absolute segments) ≤ n
length-render true n [] h h' = omega arith
length-render true n (s ∷ segments) h h' = omega (arith, length-slashed (s ∷ segments))
length-render false n [] h h' = omega arith
length-render false n (s ∷ segments) h h' =
    omega (arith, length-append s (slashed segments), length-slashed segments)

strtok-slashed :
    (token : Segment) (segments : List Segment)
    → AllNames segments
    → strtok token (slashed segments) ≡ close token segments
unfolding strtok
strtok-slashed token [] names = refl
strtok-slashed token ([] ∷ segments) names = absurd names.0
strtok-slashed token ((c ∷ s) ∷ segments) names =
    ap (close token) (
      strtok-append [] (c ∷ s) (slashed segments) names.0 ∙ strtok-slashed (c ∷ s) segments names.1)

pub strtok-render :
    (absolute : Bool) (s : Segment) (segments : List Segment)
    → AllNames (s ∷ segments)
    → strtok [] (render absolute (s ∷ segments)) ≡ s ∷ segments
strtok-render true s segments names = strtok-slashed [] (s ∷ segments) names
strtok-render false [] segments names = absurd names.0
strtok-render false (c ∷ s) segments names =
    strtok-append [] (c ∷ s) (slashed segments) names.0 ∙ strtok-slashed (c ∷ s) segments names.1

pub is_absolute-render :
    (absolute : Bool) (segments : List Segment)
    → AllNames segments
    → is_absolute (render absolute segments) ≡ absolute
is_absolute-render true [] names = refl
is_absolute-render true (s ∷ segments) names = refl
is_absolute-render false [] names = refl
is_absolute-render false ([] ∷ segments) names = absurd names.0
is_absolute-render false ((c ∷ s) ∷ segments) names = names.0.0
