-- ===== src/Base/Effect.antt =====
-- Calls that change a state and return an error code or a value. The state comes back after an
-- error too, as in C.
use mathlib.Core.Bool.{Bool, true, false}
use mathlib.Core.Path.{◌≡◌, refl}

pub data Result (E A : Type 0) : Type 0 where
  ok : A → Result E A
  fail : E → Result E A

abbrev pub Op : Type 0 → Type 0 → Type 0 → Type 0
Op S E A = S → Result E A × S

abbrev pub recode : {E A : Type 0} → E → Result E A → Result E A
recode e (ok a) = ok a
recode e (fail _) = fail e

module _ {S E A : Type 0} where
  unfoldable pub pure : A → Op S E A
  pure a s = (ok a, s)

  -- `return ret;` of a code that an earlier call gave.
  unfoldable pub return_code : Result E A → Op S E A
  return_code r s = (r, s)

  unfoldable pub throw : E → Op S E A
  throw e s = (fail e, s)

  -- `ret = f();` with the code kept, whatever it is.
  unfoldable pub attempt : Op S E A → Op S E (Result E A)
  attempt m s = let (r, s') = m s in (ok r, s')

  -- `(ret == OK) ? OK : e`
  unfoldable pub relabel : E → Op S E A → Op S E A
  relabel e m s = let (r, s') = m s in (recode e r, s')

-- Goes on with the value, or returns the error at once.
abbrev pub resume : {S E A B : Type 0} → Result E A → (A → Op S E B) → Op S E B
resume (ok a) f s = f a s
resume (fail e) f s = (fail e, s)

infixl 5 ◌>>=◌ ◌>>◌
unfoldable pub ◌>>=◌ : {S E A B : Type 0} → Op S E A → (A → Op S E B) → Op S E B
◌>>=◌ m f s = let (r, s') = m s in resume r f s'

abbrev pub ◌>>◌ : {S E A B : Type 0} → Op S E A → Op S E B → Op S E B
m >> k = m >>= λ _. k

module _ {S E : Type 0} where
  unfoldable pub modify : (S → S) → Op S E (Unit {0})
  modify f s = (ok tt, f s)

  unfoldable pub gets : {A : Type 0} → (S → A) → Op S E A
  gets f s = (ok (f s), s)

  -- `if (!b) return e;`
  unfoldable pub guard : Bool → E → Op S E (Unit {0})
  guard true e s = (ok tt, s)
  guard false e s = (fail e, s)

-- A test that is passed, and one that is not.
module _ {S E A : Type 0} (e : E) (k : Op S E A) (s : S) where
  pub guard-passed : {b : Bool} → b ≡ true → (guard b e >> k) s ≡ k s
  unfolding ◌>>=◌ guard
  guard-passed h = rw h refl

  pub guard-refused : {b : Bool} → b ≡ false → (guard b e >> k) s ≡ (fail e, s)
  unfolding ◌>>=◌ guard
  guard-refused h = rw h refl
