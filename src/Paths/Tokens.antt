-- ===== src/Paths/Tokens.antt =====
-- What `strtok_r` with the delimiter "/" gives in `path_normalize`: names without a '/', no more of
-- them and no longer than the path.
use nand_vfs_mx35lf.Base.{
  ℕ, ◌+◌, ◌*◌, ◌≤◌, ◌≡◌, refl, inl, inr, false, Bool-cases, List, [], ◌∷◌, ◌++◌, ◌==◌, length,
  length-append, arith,
}
use mathlib.Core.List.{append_assoc, append-nil}
use nand_vfs_mx35lf.Paths.{Segment, close, strtok}

abbrev pub HasNoSlash : Segment → Type 0
HasNoSlash [] = Unit
HasNoSlash (c ∷ s) = ((c == b'/') ≡ false) × HasNoSlash s

-- A token is a name: it is not empty and holds no '/'.
abbrev pub IsName : Segment → Type 0
IsName [] = ⊥
IsName (c ∷ s) = HasNoSlash (c ∷ s)

abbrev pub AllNames : List Segment → Type 0
AllNames [] = Unit
AllNames (s ∷ tokens) = IsName s × AllNames tokens

-- The bytes that the tokens take in a path, each with a separator.
abbrev pub weight : List Segment → ℕ
weight [] = 0
weight (s ∷ tokens) = length s + 1 + weight tokens

HasNoSlash-append : (s t : Segment) → HasNoSlash s → HasNoSlash t → HasNoSlash (s ++ t)
HasNoSlash-append [] t hs ht = ht
HasNoSlash-append (c ∷ s) t hs ht = (hs.0, HasNoSlash-append s t hs.1 ht)

AllNames-close :
    (s : Segment) (tokens : List Segment)
    → HasNoSlash s
    → AllNames tokens
    → AllNames (close s tokens)
AllNames-close [] tokens hs h = h
AllNames-close (c ∷ s) tokens hs h = (hs, h)

pub strtok-AllNames :
    (token : Segment) (path : List ℕ) → HasNoSlash token → AllNames (strtok token path)
unfolding strtok
strtok-AllNames token [] h = AllNames-close token [] h tt
strtok-AllNames token (c ∷ path) h = elim (Bool-cases (c == b'/')) [
  | inl e ↦ rw e (AllNames-close token _ h (strtok-AllNames [] path tt))
  | inr e ↦
      rw e (strtok-AllNames (token ++ c ∷ []) path (HasNoSlash-append token (c ∷ []) h (e, tt)))
]

weight-close :
    (s : Segment) (tokens : List Segment) → weight (close s tokens) ≤ length s + 1 + weight tokens
weight-close [] tokens = omega arith
weight-close (c ∷ s) tokens = omega arith

pub weight-strtok :
    (token : Segment) (path : List ℕ) → weight (strtok token path) ≤ length token + length path + 1
unfolding strtok
weight-strtok token [] = omega (arith, weight-close token [])
weight-strtok token (c ∷ path) = elim (Bool-cases (c == b'/')) [
  | inl e ↦ rw e (omega (arith, weight-close token (strtok [] path), weight-strtok [] path))
  | inr e ↦ rw e (omega (arith, weight-strtok (token ++ c ∷ []) path, length-append token (c ∷ [])))
]

-- Each name takes two bytes at least.
pub length-AllNames : (tokens : List Segment) → AllNames tokens → 2 * length tokens ≤ weight tokens
length-AllNames [] h = omega arith
length-AllNames ([] ∷ tokens) h = absurd h.0
length-AllNames ((c ∷ s) ∷ tokens) h = omega (arith, length-AllNames tokens h.1)

-- A byte that is no '/' joins the token.
pub strtok-append :
    (token s : Segment) (path : List ℕ)
    → HasNoSlash s
    → strtok token (s ++ path) ≡ strtok (token ++ s) path
unfolding strtok
strtok-append token [] path h = rw (append-nil token) refl
strtok-append token (c ∷ s) path h =
    rw (h.0, strtok-append (token ++ c ∷ []) s path h.1, append_assoc token (c ∷ []) s) refl

close-append : (s : Segment) (us vs : List Segment) → close s (us ++ vs) ≡ close s us ++ vs
close-append [] us vs = refl
close-append (c ∷ s) us vs = refl

-- The tokens of two paths with a '/' between them are those of the one and those of the other.
pub strtok-slash :
    (token : Segment) (p q : List ℕ) → strtok token (p ++ b'/' ∷ q) ≡ strtok token p ++ strtok [] q
unfolding strtok
strtok-slash token [] q = close-append token [] (strtok [] q)
strtok-slash token (c ∷ p) q = elim (Bool-cases (c == b'/')) [
  | inl e ↦ rw (e, strtok-slash [] p q) (close-append token (strtok [] p) (strtok [] q))
  | inr e ↦ rw e (strtok-slash (token ++ c ∷ []) p q)
]
