-- ===== src/Paths.antt =====
-- The path helpers of example/main/nand_vfs_test_.c: path_copy, path_normalize and path_join. A C
-- string is the list of its bytes without the final NUL.
pub mod Tokens
pub mod Segments
pub mod Render
pub mod Normal
pub mod Join
use nand_vfs_mx35lf.Base.{
  ℕ, suc, ◌+◌, ◌-◌, Bool, true, false, ◌&&◌, not, Option, none, some, List, [], ◌∷◌, ◌++◌, ltb, leb,
  ◌==◌, if◌then◌else◌, length, reverse, take,
}

-- A call either fails an `assert`, which stops the program, or returns.
pub data Checked (A : Type 0) : Type 0 where
  aborted : Checked A
  done : A → Checked A

abbrev pub Segment : Type 0
Segment = List ℕ

abbrev pub max_ltfs_path_len : ℕ
max_ltfs_path_len = 256

-- `MAX_LTFS_PATH_LEN / 2 + 1`
abbrev pub max_segments : ℕ
max_segments = 129

abbrev pub dot : Segment
dot = b'.' ∷ []

abbrev pub dot_dot : Segment
dot_dot = b'.' ∷ b'.' ∷ []

-- `strcmp(a, b) == 0`
unfoldable pub same : List ℕ → List ℕ → Bool
same [] [] = true
same (x ∷ xs) (y ∷ ys) = (x == y) && same xs ys
same _ _ = false

-- What `path_copy` leaves in the destination; `none` is a return of false.
unfoldable pub path_copy : (dst_sz : ℕ) → List ℕ → Checked (Option (List ℕ))
path_copy dst_sz src =
    if ltb 0 dst_sz then done (if ltb dst_sz (length src + 1) then none else some src) else aborted

-- The token that has been read, if it is not empty, before the later ones.
abbrev pub close : Segment → List Segment → List Segment
close [] tokens = tokens
close (c ∷ token) tokens = (c ∷ token) ∷ tokens

-- The tokens that `strtok_r` with the delimiter "/" gives one after the other.
unfoldable pub strtok : Segment → List ℕ → List Segment
strtok token [] = close token []
strtok token (c ∷ rest) =
    let ends = close token (strtok [] rest) in
    let goes_on = strtok (token ++ c ∷ []) rest in if c == b'/' then ends else goes_on

-- The stack of segments has its top in front: it is the array `segments` from its end.
unfoldable pub push_segment : Segment → List Segment → Checked (List Segment)
push_segment tok segments =
    if ltb (length segments) max_segments then done (tok ∷ segments) else aborted

-- `if (seg_count > 0) seg_count--;`
abbrev pub pop_segment : List Segment → List Segment
pop_segment [] = []
pop_segment (s ∷ segments) = segments

-- A ".." of a relative path.
unfoldable pub climb_relative : Segment → List Segment → Checked (List Segment)
climb_relative tok [] = push_segment tok []
climb_relative tok (s ∷ segments) =
    if not (same s dot_dot) then done segments else push_segment tok (s ∷ segments)

-- One round of the loop over the tokens.
unfoldable pub take_token : (absolute : Bool) → Segment → List Segment → Checked (List Segment)
take_token absolute tok segments =
    if same tok dot
    then done segments
    else if same tok dot_dot
    then (if absolute then done (pop_segment segments) else climb_relative tok segments)
    else push_segment tok segments

unfoldable pub take_tokens :
    (absolute : Bool) → List Segment → List Segment → Checked (List Segment)
take_tokens absolute [] segments = done segments
take_tokens absolute (tok ∷ tokens) segments = elim (take_token absolute tok segments) [
  | aborted ↦ aborted
  | done segments' ↦ take_tokens absolute tokens segments'
]

-- `path[pos - 1] == '/'`, false at 0.
unfoldable pub ends_slash : List ℕ → Bool
ends_slash [] = false
ends_slash (c ∷ []) = c == b'/'
ends_slash (c ∷ d ∷ path) = ends_slash (d ∷ path)

-- The separator that goes in front of a segment.
abbrev pub separated : List ℕ → List ℕ
separated [] = []
separated (c ∷ path) = if not (ends_slash (c ∷ path)) then (c ∷ path) ++ b'/' ∷ [] else c ∷ path

-- The loop that rebuilds the path; the list is what stands below `pos`.
unfoldable pub rebuild : List ℕ → List Segment → List ℕ
rebuild path [] = path
rebuild path (s ∷ segments) = rebuild (separated path ++ s) segments

unfoldable pub drop_last : List ℕ → List ℕ
drop_last [] = []
drop_last (c ∷ []) = []
drop_last (c ∷ d ∷ path) = c ∷ drop_last (d ∷ path)

-- From `if (pos == 0)` on.
unfoldable pub terminate : (absolute : Bool) → (size : ℕ) → List ℕ → Checked (List ℕ)
terminate absolute size [] =
    if leb 2 size then done (if absolute then b'/' ∷ [] else dot) else aborted
terminate absolute size (c ∷ path) =
    done (
      if ltb 1 (length (c ∷ path)) && ends_slash (c ∷ path) then drop_last (c ∷ path) else c ∷ path)

-- `in_len > 0 && path[0] == '/'`
abbrev pub is_absolute : List ℕ → Bool
is_absolute [] = false
is_absolute (c ∷ path) = c == b'/'

abbrev pub root : Bool → List ℕ
root true = b'/' ∷ []
root false = []

-- The path left in a buffer of `size` bytes.
unfoldable pub path_normalize : List ℕ → (size : ℕ) → Checked (List ℕ)
path_normalize path size =
    let absolute = is_absolute path in
    if ltb 0 size && ltb (length path) size && ltb (length path) max_ltfs_path_len
    then (elim (take_tokens absolute (strtok [] path) []) [
      | aborted ↦ aborted
      | done segments ↦ terminate absolute size (rebuild (root absolute) (reverse segments))
    ])
    else aborted

-- Whether "://" occurs: `strstr(base, "://") != NULL`.
unfoldable pub has_scheme : List ℕ → Bool
has_scheme (a ∷ b ∷ c ∷ path) =
    let rest = has_scheme (b ∷ c ∷ path) in
    if (a == b':') && (b == b'/') && (c == b'/') then true else rest
has_scheme _ = false

-- `strnlen(s, MAX_LTFS_PATH_LEN)` cuts both strings. `none` is a return of false.
unfoldable pub path_join : List ℕ → (base_size : ℕ) → List ℕ → Checked (Option (List ℕ))
path_join base base_size append =
    let left = take max_ltfs_path_len base in
    let right = take max_ltfs_path_len append in
    if ltb 0 base_size && not (has_scheme base)
    then (if ltb base_size (length left + 1 + length right + 1)
        then done none
        else (elim (path_normalize (left ++ b'/' ∷ right) base_size) [
          | aborted ↦ aborted
          | done path ↦ done (some path)
        ]))
    else aborted
