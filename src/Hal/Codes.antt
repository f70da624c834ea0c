-- ===== src/Hal/Codes.antt =====
-- Calls of the driver that end with no code that the hooks of src/dhara/dhara/nand.c translate.
use nand_vfs_mx35lf.Base.{
  ◌≡◌, refl, Bool, true, false, Result, ok, fail, Op, resume, recode, pure, throw, attempt, relabel,
  gets, modify, guard, return_code, ◌>>=◌, if◌then◌else◌,
}
use nand_vfs_mx35lf.Driver.Types.{NandErr, bad_spi, ecc_err, p_fail, e_fail}

-- A code that no hook has an error of the translation layer for.
abbrev pub Unmapped : NandErr → Type 0
Unmapped ecc_err = ⊥
Unmapped p_fail = ⊥
Unmapped e_fail = ⊥
Unmapped _ = Unit

-- A result that has a value as stated, or a code that is not mapped.
abbrev pub Outcome : {A : Type 0} → (A → Type 0) → Result NandErr A → Type 0
Outcome Q (ok a) = Q a
Outcome Q (fail e) = Unmapped e

abbrev pub Never : {A : Type 0} → A → Type 0
Never _ = ⊥

abbrev pub Always : {A : Type 0} → A → Type 0
Always _ = Unit

pub record Yields {S A : Type 0} (m : Op S NandErr A) (Q : A → Type 0) : Type 0 where
  pub run : (s : S) → Outcome Q (m s).0

module _ {S A : Type 0} {m : Op S NandErr A} {Q : A → Type 0} where
  pub bind-Yields :
      {B : Type 0} {f : A → Op S NandErr B} {Q' : B → Type 0}
      → Yields m Q
      → ((a : A) → Q a → Yields (f a) Q')
      → Yields (m >>= f) Q'
  unfolding ◌>>=◌
  bind-Yields {B} {f} {Q'} y next = record { run = λ s. go (m s).0 (m s).1 (y.run s) }
    where
      go : (r : Result NandErr A) (t : S) → Outcome Q r → Outcome Q' (resume r f t).0
      go (ok a) t q = (next a q).run t
      go (fail e) t q = q

  pub attempt-Yields : Yields m Q → Yields (attempt m) (Outcome Q)
  unfolding attempt
  attempt-Yields y = record { run = λ s. y.run s }

  pub relabel-Yields : Yields m Q → Yields (relabel bad_spi m) Q
  unfolding relabel
  relabel-Yields y = record { run = λ s. go (m s).0 (y.run s) }
    where
      go : (r : Result NandErr A) → Outcome Q r → Outcome Q (recode bad_spi r)
      go (ok a) q = q
      go (fail e) q = tt

-- The code of a call, whatever it is, does not end the sequence.
pub code-Yields : {S A : Type 0} (m : Op S NandErr A) → Yields (attempt m) Always
unfolding attempt
code-Yields m = record { run = λ s. tt }

module _ {S A : Type 0} {m : Op S NandErr A} where
  pub if-Yields :
      {n : Op S NandErr A} {Q : A → Type 0} (b : Bool)
      → Yields m Q
      → Yields n Q
      → Yields (if b then m else n) Q
  if-Yields true h k = h
  if-Yields false h k = k

  pub never-Yields : {Q : A → Type 0} → Yields m Never → Yields m Q
  never-Yields {Q} y = record { run = λ s. go (m s).0 (y.run s) }
    where
      go : (r : Result NandErr A) → Outcome Never r → Outcome Q r
      go (ok a) h = absurd h
      go (fail e) h = h

-- A call that fails is not followed by another.
pub stops :
    {S A B : Type 0} {m : Op S NandErr A} (f : A → Op S NandErr B)
    → Yields m Never
    → Yields (m >>= f) Never
stops f y = bind-Yields y λ a h. absurd h

module _ {S : Type 0} where
  pub throw-Yields :
      {A : Type 0} {Q : A → Type 0} (e : NandErr) → Unmapped e → Yields {S = S} (throw e) Q
  unfolding throw
  throw-Yields e h = record { run = λ s. h }

  pub guard-Yields : (b : Bool) (e : NandErr) → Unmapped e → Yields {S = S} (guard b e) Always
  unfolding guard
  guard-Yields true e h = record { run = λ s. tt }
  guard-Yields false e h = record { run = λ s. h }

  pub gets-Yields : {A : Type 0} (f : S → A) → Yields (gets f) Always
  unfolding gets
  gets-Yields f = record { run = λ s. tt }

  pub modify-Yields : (f : S → S) → Yields (modify f) Always
  unfolding modify
  modify-Yields f = record { run = λ s. tt }

  pub pure-Yields : {A : Type 0} {Q : A → Type 0} (a : A) → Q a → Yields {S = S} (pure a) Q
  unfolding pure
  pure-Yields a h = record { run = λ s. h }

  pub return_code-Yields :
      {A : Type 0} {Q : A → Type 0} (r : Result NandErr A)
      → Outcome Q r
      → Yields {S = S} (return_code r) Q
  unfolding return_code
  return_code-Yields r h = record { run = λ s. h }

-- A call that fails has one of the codes.
pub failed :
    {S A : Type 0} {m : Op S NandErr A}
    → Yields m Never
    → (s : S) → (e : NandErr) × ((m s).0 ≡ fail e) × Unmapped e
failed {S} {A} {m} y s = go (m s).0 (y.run s)
  where
    go : (r : Result NandErr A) → Outcome Never r → (e : NandErr) × (r ≡ fail e) × Unmapped e
    go (ok a) h = absurd h
    go (fail e) h = (e, refl, h)
