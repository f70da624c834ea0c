-- ===== src/Base/Triple.antt =====
-- A call that, from each state of a kind, returns no error, and gives a value and a state as stated.
use nand_vfs_mx35lf.Base.Effect.{Op, pure, modify, ◌>>=◌}
use nand_vfs_mx35lf.Base.Total.{Gives, bind-Gives, weaken-Gives, pure-Gives, modify-Gives}
use nand_vfs_mx35lf.Base.Tests.{if◌then◌else◌}
use mathlib.Core.Bool.{Bool, true, false}

pub record Triple {S E A : Type 0} (Q : S → Type 0) (op : Op S E A) (Q' : A → S → Type 0)
    : Type 0 where
  pub run : (s : S) → Q s → Gives op s Q'

module _ {S E : Type 0} {Q : S → Type 0} where
  pub seq :
      {A B : Type 0} {op : Op S E A} {f : A → Op S E B} {M : A → S → Type 0} {Q' : B → S → Type 0}
      → Triple Q op M
      → ((a : A) → Triple (M a) (f a) Q')
      → Triple Q (op >>= f) Q'
  seq h k = record { run = λ s q. bind-Gives (h.run s q) λ a t m. (k a).run t m }

  pub giving :
      {A : Type 0} {Q' : A → S → Type 0} (a : A)
      → ((s : S) → Q s → Q' a s)
      → Triple {E = E} Q (pure a) Q'
  giving a h = record { run = λ s q. pure-Gives a (h s q) }

  pub change :
      {Q' : S → Type 0} (f : S → S)
      → ((s : S) → Q s → Q' (f s))
      → Triple {E = E} Q (modify f) (λ _. Q')
  change f h = record { run = λ s q. modify-Gives f (h s q) }

  pub weaken :
      {A : Type 0} {op : Op S E A} {M Q' : A → S → Type 0}
      → Triple Q op M
      → ((a : A) (s : S) → M a s → Q' a s)
      → Triple Q op Q'
  weaken h k = record { run = λ s q. weaken-Gives (h.run s q) k }

  pub either_way :
      {A : Type 0} {m n : Op S E A} {Q' : A → S → Type 0} (b : Bool)
      → Triple Q m Q'
      → Triple Q n Q'
      → Triple Q (if b then m else n) Q'
  either_way true h k = h
  either_way false h k = k
