-- ===== src/Driver/Lifecycle/Laws.antt =====
-- The outcomes of `nand_mx35lf1_init` and `nand_mx35lf1_deinit` of src/mx35lf1_driver.c.

use nand_vfs_mx35lf.Base.{
  guard-refused, ℕ, ◌≡◌, refl, sym, ap, ◌∙◌, ◌≢◌, true, false, not, ◌||◌, Option, none, some,
  Result, ok, fail, ◌==◌, ==_iff, if◌then◌else◌, get_or, Bool-cases, inl, inr, ◌⊎◌, Ensures,
  Returned, with-Ensures, then-Ensures, modify-Ensures, ◌>>=◌, pure, throw, gets, guard, modify,
}
use nand_vfs_mx35lf.Driver.Types.{
  NandErr, invalid_arg, device_id, Ptr, null, valid, NandConfig, zero_handle, Platform, Driver,
  DriverOp, nand_manufacturer_id, nand_device_id,
}
use nand_vfs_mx35lf.Driver.Commands.{nand_read_id}
use nand_vfs_mx35lf.Driver.Api.{nand_check_arg, nand_check_handle}
use nand_vfs_mx35lf.Driver.Lifecycle.Rule.{attach_rule, init_rule, Attached}
use nand_vfs_mx35lf.Driver.Lifecycle.{
  release_resources, allocate, blank_tx, device_info, bring_up, nand_mx35lf1_init,
  nand_mx35lf1_deinit,
}

same_pair : {a b c d : ℕ} → a ≡ b → c ≡ d → ◌≡◌ {A = ℕ × ℕ} (a, c) (b, d)
same_pair h k = rw (h, k) refl

module _ {P : Platform} where
  chip_id :
      (m d : ℕ)
      → let op : DriverOp P (ℕ × ℕ) =
          if not (m == nand_manufacturer_id) || not (d == nand_device_id)
          then throw device_id
          else pure (m, d) in
        Ensures op (λ p _. p ≡ (nand_manufacturer_id, nand_device_id))
  unfolding throw pure
  chip_id m d = elim (Bool-cases (m == nand_manufacturer_id)) [
    | inr a ↦ rw a (record { run = λ s. tt })
    | inl a ↦ elim (Bool-cases (d == nand_device_id)) [
      | inr b ↦ rw (a, b) (record { run = λ s. tt })
      | inl b ↦ rw (a, b) (record { run = λ s. same_pair ((==_iff _ _).0 a) ((==_iff _ _).0 b) })
    ]
  ]

  read_id-Ensures : Ensures (nand_read_id P) (λ p _. p ≡ (nand_manufacturer_id, nand_device_id))
  unfolding nand_read_id
  read_id-Ensures = then-Ensures _ λ rx. chip_id (get_or rx 2 0) (get_or rx 3 0)

  -- The handle of a driver that is up.
  abbrev pub Up : NandConfig → Driver P → Type 0
  Up cfg t =
      (t.handle.initialized ≡ true)
      × (t.handle.info ≡ device_info P cfg nand_manufacturer_id nand_device_id)

  pub bring_up-Ensures : (cfg : NandConfig) → Ensures (bring_up P cfg) (λ _ t. Up cfg t)
  unfolding bring_up
  bring_up-Ensures cfg = then-Ensures _ λ _. then-Ensures _ λ _. then-Ensures _ λ _.
      with-Ensures read_id-Ensures λ p e. then-Ensures _ λ _.
        then-Ensures _
          λ _. modify-Ensures _ λ s. (refl, ap (λ (q : ℕ × ℕ). device_info P cfg q.0 q.1) e)

  -- What an initialization comes to.
  abbrev pub InitOutcome : NandConfig → Result NandErr (Unit {0}) → Driver P → Type 0
  InitOutcome cfg (ok _) t = Up cfg t
  InitOutcome cfg (fail e) t = t.handle ≡ zero_handle

  released :
      (cfg : NandConfig) (r : Result NandErr (Unit {0})) (t : Driver P)
      → Returned (λ _ u. Up cfg u) r t
      → Attached (InitOutcome cfg) cfg r t
  unfolding release_resources
  released cfg (ok _) t h = h
  released cfg (fail e) t h = refl

  -- On a handle that is not initialized, `nand_mx35lf1_init` with a configuration returns OK with
  -- the handle marked as initialized and holding the numbers of the supported chip and its
  -- geometry, or an error with the handle zeroed, whatever the bus and the memory answer.
  pub nand_mx35lf1_init-InitOutcome :
      (cfg : NandConfig) (s : Driver P)
      → s.handle.initialized ≡ false
      → InitOutcome cfg
          (nand_mx35lf1_init P valid (some cfg) s).0
          (nand_mx35lf1_init P valid (some cfg) s).1
  unfolding release_resources
  nand_mx35lf1_init-InitOutcome cfg s closed =
      init_rule (InitOutcome cfg) cfg s (λ h. absurd (distinct (sym closed ∙ h))) (λ _. refl)
        λ _.
          attach_rule (InitOutcome cfg) cfg (blank_tx P (allocate P s)) (λ w e. refl)
            λ d w e. released cfg _ _ ((bring_up-Ensures cfg).run _)
    where
      distinct : false ≢ true
      distinct = λ q. cc

  -- Without a handle or a configuration, or on a handle that is initialized already, it returns
  -- NAND_RET_INVALID_ARG and changes nothing.
  nand_mx35lf1_init-refused :
      (h : Ptr) (cfg : Option NandConfig) (s : Driver P)
      → (h ≡ null) ⊎ (cfg ≡ none) ⊎ (s.handle.initialized ≡ true)
      → nand_mx35lf1_init P h cfg s ≡ (fail invalid_arg, s)
  unfolding nand_mx35lf1_init nand_check_arg ◌>>=◌ pure gets throw
  nand_mx35lf1_init-refused null none s bad = refl
  nand_mx35lf1_init-refused null (some cfg) s bad = refl
  nand_mx35lf1_init-refused valid none s bad = refl
  nand_mx35lf1_init-refused valid (some cfg) s (inl h) = cc
  nand_mx35lf1_init-refused valid (some cfg) s (inr (inl h)) = cc
  nand_mx35lf1_init-refused valid (some cfg) s (inr (inr h)) =
      guard-refused invalid_arg _ s (rw h refl)

  -- A handle that is released is zeroed, and a second release is refused: it returns
  -- NAND_RET_INVALID_ARG and changes nothing.
  nand_mx35lf1_deinit-twice :
      (s : Driver P)
      → s.handle.initialized ≡ true
      → let (r, t) = nand_mx35lf1_deinit P valid s in
        (r ≡ ok tt)
        × (t.handle ≡ zero_handle)
        × (nand_mx35lf1_deinit P valid t ≡ (fail invalid_arg, t))
  unfolding nand_mx35lf1_deinit nand_check_arg nand_check_handle ◌>>=◌ pure gets guard modify
      release_resources
  nand_mx35lf1_deinit-twice s opened = rw opened (refl, refl, refl)
