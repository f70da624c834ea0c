-- ===== src/Base/Frames.antt =====
-- Rules for what a call leaves as it was: a relation between the state before and after, which
-- holds of a sequence when it holds of its parts.

use nand_vfs_mx35lf.Base.Effect.{
  Result, ok, fail, Op, resume, pure, throw, attempt, relabel, ◌>>=◌, guard, return_code,
}
use nand_vfs_mx35lf.Base.Effect.{gets, modify}
use mathlib.Core.Bool.{Bool, true, false}
use nand_vfs_mx35lf.Base.Tests.{if◌then◌else◌}

-- Each run ends in a state that is related to the one it began in.
pub record Keeps {S E A : Type 0} (R : S → S → Type 0) (m : Op S E A) : Type 0 where
  pub run : (s : S) → R s (m s).1

pub record IsPreorder {S : Type 0} (R : S → S → Type 0) : Type 0 where
  pub same : (s : S) → R s s
  pub then_on : (s t u : S) → R s t → R t u → R s u

module _ {S : Type 0} {R : S → S → Type 0} (p : IsPreorder R) where
  resume-Keeps :
      {E A B : Type 0} (r : Result E A) (f : A → Op S E B) (s t : S)
      → R s t
      → ((a : A) → Keeps R (f a))
      → R s (resume r f t).1
  resume-Keeps (ok a) f s t h k = p.then_on s t (f a t).1 h ((k a).run t)
  resume-Keeps (fail e) f s t h k = h

  pub bind-Keeps :
      {E A B : Type 0} {m : Op S E A} {f : A → Op S E B}
      → Keeps R m
      → ((a : A) → Keeps R (f a))
      → Keeps R (m >>= f)
  unfolding ◌>>=◌
  bind-Keeps {m} {f} km kf = record { run = λ s. resume-Keeps (m s).0 f s (m s).1 (km.run s) kf }

  pub pure-Keeps : {E A : Type 0} (a : A) → Keeps R (pure {E = E} a)
  unfolding pure
  pure-Keeps a = record { run = λ s. p.same s }

  pub throw-Keeps : {E A : Type 0} (e : E) → Keeps R (throw {A = A} e)
  unfolding throw
  throw-Keeps e = record { run = λ s. p.same s }

  pub gets-Keeps : {E A : Type 0} (f : S → A) → Keeps R (gets {E = E} f)
  unfolding gets
  gets-Keeps f = record { run = λ s. p.same s }

  pub return_code-Keeps : {E A : Type 0} (r : Result E A) → Keeps R (return_code r)
  unfolding return_code
  return_code-Keeps r = record { run = λ s. p.same s }

  pub guard-Keeps : {E : Type 0} (b : Bool) (e : E) → Keeps R (guard b e)
  unfolding guard
  guard-Keeps true e = record { run = λ s. p.same s }
  guard-Keeps false e = record { run = λ s. p.same s }

module _ {S : Type 0} {R : S → S → Type 0} where
  pub modify-Keeps : {E : Type 0} (f : S → S) → ((s : S) → R s (f s)) → Keeps R (modify {E = E} f)
  unfolding modify
  modify-Keeps f k = record { run = k }

  pub attempt-Keeps : {E A : Type 0} {m : Op S E A} → Keeps R m → Keeps R (attempt m)
  unfolding attempt
  attempt-Keeps k = record { run = λ s. k.run s }

  pub relabel-Keeps : {E A : Type 0} {m : Op S E A} (e : E) → Keeps R m → Keeps R (relabel e m)
  unfolding relabel
  relabel-Keeps e k = record { run = λ s. k.run s }

  pub if-Keeps :
      {E A : Type 0} (b : Bool) {m n : Op S E A}
      → Keeps R m
      → Keeps R n
      → Keeps R (if b then m else n)
  if-Keeps true km kn = km
  if-Keeps false km kn = kn
