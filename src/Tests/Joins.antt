-- ===== src/Tests/Joins.antt =====
-- The theorems on the path helpers, on paths as the example builds them.
use nand_vfs_mx35lf.Base.{
  ℕ, ◌+◌, ◌≤◌, ◌<◌, ◌≡◌, ◌≢◌, ◌↔◌, refl, false, none, some, List, [], ◌∷◌, ◌++◌, length, reverse,
  arith,
}
use nand_vfs_mx35lf.Paths.{
  aborted, done, same, path_copy, strtok, take_token, take_tokens, push_segment, climb_relative,
  rebuild, ends_slash, terminate, path_normalize, path_join, has_scheme, is_absolute,
  max_ltfs_path_len,
}
use nand_vfs_mx35lf.Paths.Segments.{IsResolved}
use nand_vfs_mx35lf.Paths.Render.{render}
use nand_vfs_mx35lf.Paths.Normal.{
  segments_of, normal, path_normalize-IsResolved, path_normalize-aborted_iff,
  path_normalize-path_normalize,
}
use nand_vfs_mx35lf.Paths.Join.{path_normalize-append, path_join_lem}

-- "/a/../b//./"
abbrev winding : List ℕ
winding = b'/' ∷ b'a' ∷ b'/' ∷ b'.' ∷ b'.' ∷ b'/' ∷ b'b' ∷ b'/' ∷ b'/' ∷ b'.' ∷ b'/' ∷ []

-- "/b"
abbrev straight : List ℕ
straight = b'/' ∷ b'b' ∷ []

-- "../c"
abbrev sibling : List ℕ
sibling = b'.' ∷ b'.' ∷ b'/' ∷ b'c' ∷ []

winding_normal : path_normalize winding 16 ≡ done straight
unfolding path_normalize strtok take_tokens take_token same push_segment climb_relative rebuild
    ends_slash terminate
winding_normal = refl

-- A relative path keeps its leading "..", and an empty one becomes ".".
relative_normal : path_normalize sibling 16 ≡ done sibling
unfolding path_normalize strtok take_tokens take_token same push_segment climb_relative rebuild
    ends_slash terminate
relative_normal = refl

empty_normal : path_normalize [] 16 ≡ done (b'.' ∷ [])
unfolding path_normalize strtok take_tokens rebuild terminate
empty_normal = refl

copied : path_copy 5 sibling ≡ done (some sibling)
unfolding path_copy
copied = refl

copy_refused : path_copy 4 sibling ≡ done none
unfolding path_copy
copy_refused = refl

path_normalize-IsResolved_example :
    (path_normalize winding 16
      ≡ done (render (is_absolute winding) (reverse (segments_of winding))))
    × IsResolved (is_absolute winding) (segments_of winding)
    × (length (render (is_absolute winding) (reverse (segments_of winding))) < 16)
path_normalize-IsResolved_example =
    path_normalize-IsResolved winding 16 (omega arith) (omega arith) (omega arith)

path_normalize-aborted_iff_example :
    (path_normalize winding 16 ≢ aborted)
    ↔ ((2 ≤ 16) × (length winding < 16) × (length winding < max_ltfs_path_len))
path_normalize-aborted_iff_example = path_normalize-aborted_iff winding 16

path_normalize-path_normalize_example : path_normalize straight 3 ≡ done straight
path_normalize-path_normalize_example =
    path_normalize-path_normalize winding straight 16 3 winding_normal (omega arith) (omega arith)

path_normalize-append_example :
    path_normalize (straight ++ b'/' ∷ sibling) 32 ≡ path_normalize (winding ++ b'/' ∷ sibling) 32
path_normalize-append_example =
    path_normalize-append winding sibling straight 16 32 (λ e. cc) winding_normal (omega arith)
      (omega arith)

no_scheme : has_scheme winding ≡ false
unfolding has_scheme
no_scheme = refl

path_join_lem_example :
    (32 < length winding + 1 + length sibling + 1 → path_join winding 32 sibling ≡ done none)
    × (length winding + 1 + length sibling + 1 ≤ 32
        → path_join winding 32 sibling ≡ done (some (normal (winding ++ b'/' ∷ sibling))))
path_join_lem_example = path_join_lem winding sibling 32 (omega arith) (omega arith) no_scheme

-- Joining "/a/../b//./" and "../c" gives "/c".
joined : path_join winding 32 sibling ≡ done (some (b'/' ∷ b'c' ∷ []))
unfolding path_join path_normalize has_scheme strtok take_tokens take_token same push_segment
    climb_relative rebuild ends_slash terminate
joined = refl
