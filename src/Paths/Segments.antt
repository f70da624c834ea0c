-- ===== src/Paths/Segments.antt =====
-- The stack of segments of `path_normalize`: a description of what the loop leaves on it without
-- the asserts, the form that the stack keeps, and the room it needs.
use nand_vfs_mx35lf.Base.{
  suc, ◌+◌, ◌≤◌, ◌≡◌, refl, ◌⊎◌, inl, inr, Bool, true, false, Bool-cases, List, [], ◌∷◌, ◌++◌,
  if◌then◌else◌, length, reverse, arith,
}
use nand_vfs_mx35lf.Paths.{
  done, Segment, max_segments, dot, dot_dot, same, push_segment, climb_relative, take_token,
  take_tokens,
}
use nand_vfs_mx35lf.Paths.Tokens.{IsName, AllNames, weight}

-- ".." at a stack of names: an absolute path stays at the root, a relative one keeps a ".." that
-- has no name before it.
abbrev pub up : Bool → Segment → List Segment → List Segment
up true tok [] = []
up true tok (s ∷ segments) = segments
up false tok [] = tok ∷ []
up false tok (s ∷ segments) = if same s dot_dot then tok ∷ s ∷ segments else segments

abbrev pub visit : Bool → Segment → List Segment → List Segment
visit absolute tok segments =
    if same tok dot
    then segments
    else if same tok dot_dot
    then up absolute tok segments
    else tok ∷ segments

-- Where the tokens lead from a stack.
abbrev pub resolve : Bool → List Segment → List Segment → List Segment
resolve absolute [] segments = segments
resolve absolute (tok ∷ tokens) segments = resolve absolute tokens (visit absolute tok segments)

take_token-visit :
    (absolute : Bool) (tok : Segment) (segments : List Segment)
    → suc (length segments) ≤ max_segments
    → take_token absolute tok segments ≡ done (visit absolute tok segments)
unfolding take_token push_segment climb_relative
take_token-visit true tok [] h = ground arith
take_token-visit true tok (s ∷ segments) h = ground arith
take_token-visit false tok [] h = ground arith
take_token-visit false tok (s ∷ segments) h = ground arith

length-visit :
    (absolute : Bool) (tok : Segment) (segments : List Segment)
    → length (visit absolute tok segments) ≤ suc (length segments)
length-visit true tok [] = ground arith
length-visit true tok (s ∷ segments) = ground arith
length-visit false tok [] = ground arith
length-visit false tok (s ∷ segments) = ground arith

-- While the tokens and the stack fit in the array no assert of the loop fails.
pub take_tokens-resolve :
    (absolute : Bool) (tokens segments : List Segment)
    → length tokens + length segments ≤ max_segments
    → take_tokens absolute tokens segments ≡ done (resolve absolute tokens segments)
unfolding take_tokens
take_tokens-resolve absolute [] segments h = refl
take_tokens-resolve absolute (tok ∷ tokens) segments h =
    rw (take_token-visit absolute tok segments (omega arith), take_tokens)
      (take_tokens-resolve absolute tokens (visit absolute tok segments)
        (omega (arith, length-visit absolute tok segments)))

weight-visit :
    (absolute : Bool) (tok : Segment) (segments : List Segment)
    → weight (visit absolute tok segments) ≤ length tok + 1 + weight segments
weight-visit true tok [] = ground arith
weight-visit true tok (s ∷ segments) = ground arith
weight-visit false tok [] = ground arith
weight-visit false tok (s ∷ segments) = ground arith

pub weight-resolve :
    (absolute : Bool) (tokens segments : List Segment)
    → weight (resolve absolute tokens segments) ≤ weight tokens + weight segments
weight-resolve absolute [] segments = omega arith
weight-resolve absolute (tok ∷ tokens) segments = omega (
  arith,
  weight-visit absolute tok segments,
  weight-resolve absolute tokens (visit absolute tok segments),
)

pub resolve-append :
    (absolute : Bool) (us vs segments : List Segment)
    → resolve absolute (us ++ vs) segments ≡ resolve absolute vs (resolve absolute us segments)
resolve-append absolute [] vs segments = refl
resolve-append absolute (u ∷ us) vs segments =
    resolve-append absolute us vs (visit absolute u segments)

abbrev pub AllUp : List Segment → Type 0
AllUp [] = Unit
AllUp (s ∷ segments) = (same s dot_dot ≡ true) × AllUp segments

-- A segment that may stand on the others: a name other than "."; and "..", in a relative path
-- alone, where all below it is "..".
abbrev pub MayStand : Bool → Segment → List Segment → Type 0
MayStand absolute s segments =
    IsName s
    × (same s dot ≡ false)
    × ((same s dot_dot ≡ false) ⊎ ((absolute ≡ false) × AllUp segments))

-- A stack that has nothing left to resolve.
abbrev pub IsResolved : Bool → List Segment → Type 0
IsResolved absolute [] = Unit
IsResolved absolute (s ∷ segments) = MayStand absolute s segments × IsResolved absolute segments

top-AllUp :
    (absolute : Bool) (s : Segment) (segments : List Segment)
    → IsResolved absolute (s ∷ segments)
    → same s dot_dot ≡ true
    → AllUp (s ∷ segments)
top-AllUp absolute s segments h e = elim h.0.2 [ inl no_ ↦ absurd cc | inr yes_ ↦ (e, yes_.1) ]

up-IsResolved :
    (absolute : Bool) (tok : Segment) (segments : List Segment)
    → IsName tok
    → same tok dot ≡ false
    → IsResolved absolute segments
    → IsResolved absolute (up absolute tok segments)
up-IsResolved true tok [] name plain h = tt
up-IsResolved true tok (s ∷ segments) name plain h = h.1
up-IsResolved false tok [] name plain h = ((name, plain, inr (refl, tt)), tt)
up-IsResolved false tok (s ∷ segments) name plain h = elim (Bool-cases (same s dot_dot)) [
  | inl e ↦ rw e ((name, plain, inr (refl, top-AllUp false s segments h e)), h)
  | inr e ↦ rw e (h.1)
]

visit-IsResolved :
    (absolute : Bool) (tok : Segment) (segments : List Segment)
    → IsName tok
    → IsResolved absolute segments
    → IsResolved absolute (visit absolute tok segments)
visit-IsResolved absolute tok segments name h = elim (Bool-cases (same tok dot)) [
  | inl d ↦ rw d h
  | inr d ↦ elim (Bool-cases (same tok dot_dot)) [
    | inl e ↦ rw (d, e) (up-IsResolved absolute tok segments name d h)
    | inr e ↦ rw (d, e) ((name, d, inl e), h)
  ]
]

pub resolve-IsResolved :
    (absolute : Bool) (tokens segments : List Segment)
    → AllNames tokens
    → IsResolved absolute segments
    → IsResolved absolute (resolve absolute tokens segments)
resolve-IsResolved absolute [] segments names h = h
resolve-IsResolved absolute (tok ∷ tokens) segments names h =
    resolve-IsResolved absolute tokens (visit absolute tok segments) names.1
      (visit-IsResolved absolute tok segments names.0 h)

visit-AllUp :
    (s : Segment) (segments : List Segment) → AllUp segments → up false s segments ≡ s ∷ segments
visit-AllUp s [] h = refl
visit-AllUp s (t ∷ segments) h = rw (h.0) refl

visit_of_MayStand :
    (absolute : Bool) (s : Segment) (segments : List Segment)
    → MayStand absolute s segments
    → visit absolute s segments ≡ s ∷ segments
visit_of_MayStand true s segments h = elim h.2 [ inl e ↦ rw (h.1, e) refl | inr e ↦ absurd cc ]
visit_of_MayStand false s segments h = elim (Bool-cases (same s dot_dot)) [
  | inr e ↦ rw (h.1, e) refl
  | inl e ↦ rw (h.1, e) (elim h.2 [ inl no_ ↦ absurd cc | inr all ↦ visit-AllUp s segments all.1 ])
]

-- A resolved stack, read from its bottom, leads to itself.
pub resolve-reverse :
    (absolute : Bool) (segments : List Segment)
    → IsResolved absolute segments
    → resolve absolute (reverse segments) [] ≡ segments
resolve-reverse absolute [] h = refl
resolve-reverse absolute (s ∷ segments) h =
    rw
      (
        resolve-append absolute (reverse segments) (s ∷ []) [],
        resolve-reverse absolute segments h.1,
      )
      (visit_of_MayStand absolute s segments h.0)
