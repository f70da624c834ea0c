-- ===== src/Base/Partial.antt =====
-- Partial correctness of a call: what is known of its value and state when it returns no error.

use nand_vfs_mx35lf.Base.Effect.{Result, ok, fail, Op, resume, modify, ◌>>=◌}
use nand_vfs_mx35lf.Base.Frames.{Keeps}

abbrev pub Returned : {S E A : Type 0} → (A → S → Type 0) → Result E A → S → Type 0
Returned Q (ok a) t = Q a t
Returned Q (fail e) t = Unit {0}

pub record Ensures {S E A : Type 0} (m : Op S E A) (Q : A → S → Type 0) : Type 0 where
  pub run : (s : S) → Returned Q (m s).0 (m s).1

module _ {S E A B : Type 0} {m : Op S E A} {f : A → Op S E B} {Q : B → S → Type 0} where
  -- A value that is known, and the call that goes on with it.
  pub with-Ensures :
      {R : A → Type 0}
      → Ensures m (λ a _. R a)
      → ((a : A) → R a → Ensures (f a) Q)
      → Ensures (m >>= f) Q
  unfolding ◌>>=◌
  with-Ensures {R} e next = record { run = λ s. go (m s).0 (m s).1 (e.run s) }
    where
      go :
          (r : Result E A) (t : S)
          → Returned (λ a _. R a) r t
          → Returned Q (resume r f t).0 (resume r f t).1
      go (ok a) t h = (next a h).run t
      go (fail x) t h = tt

module _ {S E A B : Type 0} {f : A → Op S E B} {Q : B → S → Type 0} where
  -- The last call decides.
  pub then-Ensures : (m : Op S E A) → ((a : A) → Ensures (f a) Q) → Ensures (m >>= f) Q
  then-Ensures m next =
      with-Ensures {R = λ _. Unit {0}} (record { run = λ s. go (m s).0 (m s).1 }) λ a _. next a
    where
      go : (r : Result E A) (t : S) → Returned (λ _ _. Unit {0}) r t
      go (ok a) t = tt
      go (fail x) t = tt

module _ {S E A B : Type 0} (Q : B → S → Type 0) where
  -- A step of which only the relation of its two states is known.
  pub Keeps-Returned :
      {R : S → S → Type 0} (m : Op S E A) (f : A → Op S E B) (s : S)
      → Keeps R m
      → ((a : A) (t : S) → R s t → Returned Q (f a t).0 (f a t).1)
      → Returned Q ((m >>= f) s).0 ((m >>= f) s).1
  unfolding ◌>>=◌
  Keeps-Returned {R} m f s k next = go (m s).0 (m s).1 (k.run s)
    where
      go : (r : Result E A) (t : S) → R s t → Returned Q (resume r f t).0 (resume r f t).1
      go (ok a) t h = next a t h
      go (fail x) t h = tt

module _ {S E : Type 0} {Q : Unit {0} → S → Type 0} where
  pub modify-Ensures : (f : S → S) → ((s : S) → Q tt (f s)) → Ensures (modify {E = E} f) Q
  unfolding modify
  modify-Ensures f h = record { run = h }
