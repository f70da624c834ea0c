-- ===== src/Driver/Lifecycle/Rule.antt =====
-- The branches of `nand_mx35lf1_init` of src/mx35lf1_driver.c: what holds of each holds of the call.
use mathlib.Core.Path.{subst}
use nand_vfs_mx35lf.Base.{
  ℕ, ◌≡◌, refl, sym, Bool, true, false, Option, none, some, Result, ok, fail, if◌then◌else◌,
  Bool-cases, inl, inr, guard-passed, guard-refused, ◌>>=◌, pure, gets,
}
use nand_vfs_mx35lf.Driver.Types.{
  NandErr, no_mem, bad_spi, invalid_arg, valid, NandConfig, Platform, Driver,
}
use nand_vfs_mx35lf.Driver.Api.{nand_check_arg}
use nand_vfs_mx35lf.Driver.Lifecycle.{
  release_resources, allocate, allocated, blank_tx, bring_up, attach, nand_mx35lf1_init,
}

module _ {P : Platform} (O : Result NandErr (Unit {0}) → Driver P → Type 0) (cfg : NandConfig) where
  -- The device that `spi_bus_add_device` has given.
  abbrev pub with_device : Driver P → ℕ → P.State → Driver P
  with_device s d w = record s { handle = record (s.handle) { spi = some d }; world = w }

  -- The outcome after a bring-up, whose error is followed by the release.
  abbrev pub Attached : Result NandErr (Unit {0}) → Driver P → Type 0
  Attached (ok _) t = O (ok tt) t
  Attached (fail e) t = O (fail e) (release_resources P t)

  pub attach_rule :
      (s : Driver P)
      → ((w : P.State)
          → P.add_device cfg s.world ≡ (none, w)
          → O (fail bad_spi) (release_resources P (record s { world = w })))
      → ((d : ℕ) (w : P.State)
          → P.add_device cfg s.world ≡ (some d, w)
          → Attached (bring_up P cfg (with_device s d w)).0 (bring_up P cfg (with_device s d w)).1)
      → O (attach P cfg s).0 (attach P cfg s).1
  unfolding attach
  attach_rule s missing added = go (P.add_device cfg s.world).0 (P.add_device cfg s.world).1 refl
    where
      brought :
          (r : Result NandErr (Unit {0})) (t : Driver P)
          → Attached r t
          → let o : Result NandErr (Unit {0}) × Driver P = elim r [
            | ok _ ↦ (ok tt, t)
            | fail e ↦ (fail e, release_resources P t)
          ] in
            O o.0 o.1
      brought (ok _) t h = h
      brought (fail e) t h = h

      go :
          (device : Option ℕ) (w : P.State)
          → P.add_device cfg s.world ≡ (device, w)
          → let o : Result NandErr (Unit {0}) × Driver P = elim device [
            | none ↦ (fail bad_spi, release_resources P (record s { world = w }))
            | some d ↦
                let (ret, s') = bring_up P cfg (with_device s d w) in
                elim ret [ ok _ ↦ (ok tt, s') | fail e ↦ (fail e, release_resources P s') ]
          ] in
            O o.0 o.1
      go none w e = missing w e
      go (some d) w e = brought _ _ (added d w e)

  after_allocate :
      (s : Driver P) (b : Bool)
      → (b ≡ false → O (fail no_mem) (release_resources P (allocate P s)))
      → (b ≡ true
          → O
              (attach P cfg (blank_tx P (allocate P s))).0
              (attach P cfg (blank_tx P (allocate P s))).1)
      → let o : Result NandErr (Unit {0}) × Driver P =
          if b
          then attach P cfg (blank_tx P (allocate P s))
          else (fail no_mem, release_resources P (allocate P s)) in
        O o.0 o.1
  after_allocate s true short full = full refl
  after_allocate s false short full = short refl

  pub init_rule :
      (s : Driver P)
      → (s.handle.initialized ≡ true → O (fail invalid_arg) s)
      → (allocated P (allocate P s).handle ≡ false
          → O (fail no_mem) (release_resources P (allocate P s)))
      → (allocated P (allocate P s).handle ≡ true
          → O
              (attach P cfg (blank_tx P (allocate P s))).0
              (attach P cfg (blank_tx P (allocate P s))).1)
      → O (nand_mx35lf1_init P valid (some cfg) s).0 (nand_mx35lf1_init P valid (some cfg) s).1
  unfolding nand_mx35lf1_init nand_check_arg ◌>>=◌ pure gets
  init_rule s opened short full = elim (Bool-cases s.handle.initialized) [
    | inl h ↦
        subst (λ (o : Result NandErr (Unit {0}) × Driver P). O o.0 o.1)
          (sym (guard-refused invalid_arg _ s (rw h refl))) (opened h)
    | inr h ↦
        subst (λ (o : Result NandErr (Unit {0}) × Driver P). O o.0 o.1)
          (sym (guard-passed invalid_arg _ s (rw h refl)))
          (after_allocate s (allocated P (allocate P s).handle) short full)
  ]
