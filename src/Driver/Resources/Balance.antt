-- ===== src/Driver/Resources/Balance.antt =====
-- `nand_mx35lf1_init` and `nand_mx35lf1_deinit` of src/mx35lf1_driver.c keep the books of the
-- resources.

use nand_vfs_mx35lf.Base.{
  ℕ, ◌+◌, ◌≡◌, refl, ap, ◌∙◌, true, false, Option, none, some, Result, ok, fail, arith,
  if◌then◌else◌, ◌>>=◌, pure, gets, guard, modify,
}
use nand_vfs_mx35lf.Driver.Types.{NandErr, valid, NandConfig, Block, Platform, Driver}
use nand_vfs_mx35lf.Driver.Api.{nand_check_arg, nand_check_handle, nand_lock, nand_unlock}
use nand_vfs_mx35lf.Driver.Lifecycle.{
  allocate, allocated, present, blank_tx, attach, nand_mx35lf1_init, nand_mx35lf1_deinit,
}
use nand_vfs_mx35lf.Driver.Lifecycle.Rule.{attach_rule, init_rule, Attached, with_device}
use nand_vfs_mx35lf.Driver.Lifecycle.Laws.{nand_mx35lf1_init-InitOutcome, InitOutcome}
use nand_vfs_mx35lf.Driver.Resources.{
  Ledger, one, owned, Owns, release_resources-Owns, allocate-Owns, blank_tx-owned, bring_up-Keeps,
}

module _ {P : Platform} (L : Ledger P) where
  -- What an attempt to take the resources comes to, beside `n` others.
  abbrev Taken : ℕ → Result NandErr (Unit {0}) → Driver P → Type 0
  Taken n (ok _) t = Owns L n t × (owned t.handle ≡ 4)
  Taken n (fail e) t = L.live t.world ≡ n

  attached :
      (cfg : NandConfig) (n : ℕ) (r : Result NandErr (Unit {0})) (t : Driver P)
      → Owns L n t
      → owned t.handle ≡ 4
      → Attached (Taken n) cfg r t
  attached cfg n (ok _) t k four = (k, four)
  attached cfg n (fail e) t k four = release_resources-Owns L n t k

  attach-Taken :
      (cfg : NandConfig) (n : ℕ) (s : Driver P)
      → Owns L n s
      → s.handle.spi ≡ none
      → owned s.handle ≡ 3
      → Taken n (attach P cfg s).0 (attach P cfg s).1
  attach-Taken cfg n s h bare three =
      let none_ : one s.handle.spi ≡ 0 = ap (one {A = ℕ}) bare in
      attach_rule (Taken n) cfg s
        (λ w e.
          release_resources-Owns L n (record s { world = w })
            (omega (arith, rw e at (L.adds cfg s.world), h)))
        λ d w e.
          let kept = (bring_up-Keeps L cfg).run (with_device (Taken n) cfg s d w) in
          attached cfg n _ _
            (omega (arith, rw e at (L.adds cfg s.world), h, none_, kept.live, kept.owned))
            (omega (arith, three, none_, kept.owned))

  three_of :
      (lock : Option ℕ) (tx rx : Option Block)
      → (if present P lock then (if present P tx then present P rx else false) else false) ≡ true
      → one {A = ℕ} none + one tx + one rx + one lock ≡ 3
  three_of none tx rx h = absurd cc
  three_of (some m) none rx h = absurd cc
  three_of (some m) (some b) none h = absurd cc
  three_of (some m) (some b) (some c) h = refl

  allocate-owned :
      (s : Driver P) → allocated P (allocate P s).handle ≡ true → owned (allocate P s).handle ≡ 3
  unfolding allocate
  allocate-owned s h = three_of _ _ _ h

  no_spi : (s : Driver P) → (blank_tx P (allocate P s)).handle.spi ≡ none
  unfolding blank_tx allocate
  no_spi s = refl

  blank_tx-Owns : (n : ℕ) (s : Driver P) → Owns L n s → Owns L n (blank_tx P s)
  unfolding blank_tx
  blank_tx-Owns n s h = omega (arith, h, blank_tx-owned L s)

  -- An initialization that is refused takes nothing either.
  init-Taken :
      (cfg : NandConfig) (s : Driver P)
      → Taken
          (L.live s.world)
          (nand_mx35lf1_init P valid (some cfg) s).0
          (nand_mx35lf1_init P valid (some cfg) s).1
  init-Taken cfg s =
      init_rule (Taken (L.live s.world)) cfg s (λ _. refl)
        (λ _. release_resources-Owns L _ (allocate P s) (allocate-Owns L s))
        λ h.
          attach-Taken cfg _ (blank_tx P (allocate P s))
            (blank_tx-Owns _ (allocate P s) (allocate-Owns L s)) (no_spi s)
            (blank_tx-owned L (allocate P s) ∙ allocate-owned s h)

  taken :
      (lock : Option ℕ) (w : P.State)
      → let w' : P.State = elim lock [ none ↦ w | some m ↦ P.take_mutex m w ] in
        L.live w' ≡ L.live w
  taken none w = refl
  taken (some m) w = L.takes m w

  given :
      (lock : Option ℕ) (w : P.State)
      → let w' : P.State = elim lock [ none ↦ w | some m ↦ P.give_mutex m w ] in
        L.live w' ≡ L.live w
  given none w = refl
  given (some m) w = L.gives m w

  deinit-live :
      (n : ℕ) (t : Driver P)
      → t.handle.initialized ≡ true
      → Owns L n t
      → L.live (nand_mx35lf1_deinit P valid t).1.world ≡ n
  unfolding nand_mx35lf1_deinit nand_check_arg nand_check_handle ◌>>=◌ pure gets guard modify
      nand_lock nand_unlock
  deinit-live n t opened h =
      let t₁ = nand_lock P t in
      let t₂ : Driver P = record t₁ { handle = record (t₁.handle) { initialized = false } } in
      let t₃ = nand_unlock P t₂ in
      let e : L.live t₃.world ≡ L.live t.world =
        given t.handle.lock t₁.world ∙ taken t.handle.lock t.world in
      rw opened (release_resources-Owns L n t₃ (e ∙ h))

  -- Beside `n` resources that are out for others: after a success four more are out, until
  -- `nand_mx35lf1_deinit`; after an error none.
  abbrev pub Balanced : ℕ → Result NandErr (Unit {0}) → Driver P → Type 0
  Balanced n (ok _) t =
      (L.live t.world ≡ n + 4) × (L.live (nand_mx35lf1_deinit P valid t).1.world ≡ n)
  Balanced n (fail e) t = L.live t.world ≡ n

  balanced :
      (cfg : NandConfig) (n : ℕ) (r : Result NandErr (Unit {0})) (t : Driver P)
      → Taken n r t
      → InitOutcome cfg r t
      → Balanced n r t
  balanced cfg n (fail e) t k o = k
  balanced cfg n (ok _) t k o = (omega (arith, k.0, k.1), deinit-live n t o.0 k.0)

  -- On a handle that is not initialized, with a platform that counts what it hands out:
  -- `nand_mx35lf1_init` with a configuration that returns OK has taken four resources, the bus
  -- device, two buffers and the mutex, and a `nand_mx35lf1_deinit` that follows gives all of them
  -- back; with an error, at whatever step, it has given back all that it took.
  pub nand_mx35lf1_init-Balanced :
      (cfg : NandConfig) (s : Driver P)
      → s.handle.initialized ≡ false
      → Balanced
          (L.live s.world)
          (nand_mx35lf1_init P valid (some cfg) s).0
          (nand_mx35lf1_init P valid (some cfg) s).1
  nand_mx35lf1_init-Balanced cfg s closed =
      balanced cfg _ _ _ (init-Taken cfg s) (nand_mx35lf1_init-InitOutcome cfg s closed)
