-- ===== src/Base/Total.antt =====
-- Total correctness of a call: it returns no error, and its value and state are as stated.
use nand_vfs_mx35lf.Base.Effect.{
  Result, ok, fail, Op, resume, recode, pure, attempt, relabel, gets, modify, guard, return_code,
  ◌>>=◌, ◌>>◌,
}
use mathlib.Core.Bool.{Bool, true}
use mathlib.Core.Path.{◌≡◌, refl, subst, sym}

abbrev pub Good : {S E A : Type 0} → (A → S → Type 0) → Result E A → S → Type 0
Good Q (ok a) t = Q a t
Good Q (fail e) t = ⊥

pub record Gives {S E A : Type 0} (m : Op S E A) (s : S) (Q : A → S → Type 0) : Type 0 where
  pub run : Good Q (m s).0 (m s).1

module _ {S E A : Type 0} {m : Op S E A} {s : S} {Q : A → S → Type 0} where
  pub bind-Gives :
      {B : Type 0} {f : A → Op S E B} {Q' : B → S → Type 0}
      → Gives m s Q
      → ((a : A) (t : S) → Q a t → Gives (f a) t Q')
      → Gives (m >>= f) s Q'
  unfolding ◌>>=◌
  bind-Gives {f} {Q'} g next = record { run = go (m s).0 (m s).1 g.run }
    where
      go : (r : Result E A) (t : S) → Good Q r t → Good Q' (resume r f t).0 (resume r f t).1
      go (ok a) t q = (next a t q).run
      go (fail e) t q = absurd q

  pub weaken-Gives :
      {Q' : A → S → Type 0} → Gives m s Q → ((a : A) (t : S) → Q a t → Q' a t) → Gives m s Q'
  weaken-Gives {Q'} g k = record { run = go (m s).0 (m s).1 g.run }
    where
      go : (r : Result E A) (t : S) → Good Q r t → Good Q' r t
      go (ok a) t q = k a t q
      go (fail e) t q = absurd q

  -- A fact about the state alone, beside what is known of a success.
  pub also-Gives : {K : S → Type 0} → Gives m s Q → K (m s).1 → Gives m s (λ a t. Q a t × K t)
  also-Gives {K} g k = record { run = go (m s).0 (m s).1 g.run k }
    where
      go : (r : Result E A) (t : S) → Good Q r t → K t → Good (λ a t. Q a t × K t) r t
      go (ok a) t q k = (q, k)
      go (fail e) t q k = absurd q

  -- The value, where it is known from elsewhere.
  pub known-Gives : (a : A) → Gives m s Q → (m s).0 ≡ ok a → Gives m s (λ b t. (b ≡ a) × Q b t)
  known-Gives a g e = record { run = go (m s).0 (m s).1 g.run e }
    where
      go : (r : Result E A) (t : S) → Good Q r t → r ≡ ok a → Good (λ b t. (b ≡ a) × Q b t) r t
      go (ok b) t q e = (cc, q)
      go (fail x) t q e = absurd q

  pub relabel-Gives : (e : E) → Gives m s Q → Gives (relabel e m) s Q
  unfolding relabel
  relabel-Gives e g = record { run = go (m s).0 (m s).1 g.run }
    where
      go : (r : Result E A) (t : S) → Good Q r t → Good Q (recode e r) t
      go (ok a) t q = q
      go (fail e') t q = absurd q

  -- The code of an attempt that succeeds is `ok`.
  pub attempt-Gives : Gives m s Q → Gives (attempt m) s (λ r t. (a : A) × (r ≡ ok a) × Q a t)
  unfolding attempt
  attempt-Gives g = record { run = go (m s).0 (m s).1 g.run }
    where
      go : (r : Result E A) (t : S) → Good Q r t → (a : A) × (r ≡ ok a) × Q a t
      go (ok a) t q = (a, refl, q)
      go (fail e) t q = absurd q

module _ {S E A : Type 0} {s : S} {Q : A → S → Type 0} where
  pub pure-Gives : (a : A) → Q a s → Gives (pure {E = E} a) s Q
  unfolding pure
  pure-Gives a q = record { run = q }

  pub gets-Gives : (f : S → A) → Q (f s) s → Gives (gets {E = E} f) s Q
  unfolding gets
  gets-Gives f q = record { run = q }

  pub return_code-Gives : {a : A} {r : Result E A} → r ≡ ok a → Q a s → Gives (return_code r) s Q
  unfolding return_code
  return_code-Gives {a} {r} h q =
      subst (λ r'. Gives (return_code r') s Q) (sym h) (record { run = q })

module _ {S E : Type 0} {s : S} {Q : Unit {0} → S → Type 0} where
  pub modify-Gives : (f : S → S) → Q tt (f s) → Gives (modify {E = E} f) s Q
  unfolding modify
  modify-Gives f q = record { run = q }

  pub guard-Gives : {b : Bool} (e : E) → b ≡ true → Q tt s → Gives (guard b e) s Q
  unfolding guard
  guard-Gives {b} e h q = subst (λ c. Gives (guard c e) s Q) (sym h) (record { run = q })

-- A test that is passed, and a value that is only returned, in front of a call.
module _ {S E B : Type 0} {s : S} {Q : B → S → Type 0} where
  pub guarded-Gives :
      {b : Bool} (e : E) {op : Op S E B} → b ≡ true → Gives op s Q → Gives (guard b e >> op) s Q
  unfolding guard ◌>>=◌
  guarded-Gives {b} e {op} h g =
      subst (λ c. Gives (guard c e >> op) s Q) (sym h) (record { run = g.run })

  pub returned-Gives :
      {A : Type 0} (a : A) (f : A → Op S E B) → Gives (f a) s Q → Gives (pure a >>= f) s Q
  unfolding pure ◌>>=◌
  returned-Gives a f g = record { run = g.run }
