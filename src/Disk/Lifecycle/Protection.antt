-- ===== src/Disk/Lifecycle/Protection.antt =====
-- The disk of src/nand_diskio.c over a translation layer that reaches the chip by the hooks of
-- src/dhara/dhara/nand.c alone: what the hooks keep holds of the driver while the drive is ready.
use mathlib.Core.Path.{subst}
use nand_vfs_mx35lf.Base.{
  ℕ, ◌≡◌, refl, sym, ◌∙◌, Bool, true, false, ◌&&◌, Option, none, some, List, Result, ok, fail,
  Bool-cases, inl, inr, if◌then◌else◌,
}
use nand_vfs_mx35lf.Driver.Types.{NandErr, valid, NandConfig, Platform, Driver}
use nand_vfs_mx35lf.Driver.Lifecycle.{nand_mx35lf1_init, nand_mx35lf1_deinit}
use nand_vfs_mx35lf.Driver.Protection.{Protects}
use nand_vfs_mx35lf.Driver.Protection.Calls.{
  IsProtected, StaysProtected, stays, after_call-IsProtected,
}
use nand_vfs_mx35lf.Driver.Protection.Init.{nand_mx35lf1_init-IsProtected}
use nand_vfs_mx35lf.Hal.{
  DharaError, e_none, e_bad_block, e_ecc, e_too_bad, e_recover, e_journal_full, e_not_found,
  e_map_full, e_corrupt_map, e_max, HookSteps,
}
use nand_vfs_mx35lf.Hal.Laws.{HookSteps-related}
use nand_vfs_mx35lf.Disk.{
  Ftl, Disk, DStatus, initialized, sta_noinit, sta_nodisk, pdrv_nand_ftl, with_map, clear_map,
  get_ctx, resumed, start_map, disk_initialize_dhara, finish_init, diskio_nand_dhara_init,
  diskio_nand_dhara_deinit,
}
use nand_vfs_mx35lf.Disk.Calls.{
  IsTransferred, disk_read_dhara-related, disk_write_dhara-related, disk_ioctl_dhara-related,
}
use nand_vfs_mx35lf.Disk.Lifecycle.{diskio_nand_dhara_deinit-down}
use nand_vfs_mx35lf.Disk.Lifecycle.Steps.{Step, initialize, read, write, ioctl, init, deinit}

-- Each call of the map works on the driver by a sequence of hooks.
pub record IsHooked {P : Platform} (F : Ftl P) : Type 0 where
  pub resumes : (w : F.Map × Driver P) → HookSteps P w.1 (F.map_resume w).1.1
  pub clears : (w : F.Map × Driver P) → HookSteps P w.1 (F.map_clear w).1
  pub reads : (sector : ℕ) (w : F.Map × Driver P) → HookSteps P w.1 (F.map_read sector w).1.1
  pub writes :
      (sector : ℕ) (page : List ℕ) (w : F.Map × Driver P)
      → HookSteps P w.1 (F.map_write sector page w).1.1
  pub trims : (sector : ℕ) (w : F.Map × Driver P) → HookSteps P w.1 (F.map_trim sector w).1.1
  pub syncs : (w : F.Map × Driver P) → HookSteps P w.1 (F.map_sync w).1.1

module _ {P : Platform} {F : Ftl P} (B : Protects P) where
  -- While the drive is ready the chip is protected.
  abbrev pub WhileReady : Disk F → Type 0
  WhileReady d = d.ready ≡ true → IsProtected B d.driver

  record Transfer (d e : Disk F) : Type 0 where
    ready : e.ready ≡ d.ready
    driver : StaysProtected B d.driver e.driver

module _ {P : Platform} {F : Ftl P} (hooked : IsHooked F) (B : Protects P)
    (mode : P.protected_mode ≡ true) (gc_ratio : ℕ) where
  hooks : (s t : Driver P) → HookSteps P s t → StaysProtected B s t
  hooks = HookSteps-related (stays B) (after_call-IsProtected B mode)

  Transfer-IsTransferred : IsTransferred F gc_ratio (Transfer B)
  unfolding with_map
  Transfer-IsTransferred = record {
    preorder = record {
      same = λ d. record { ready = refl; driver = λ h. h };
      then_on =
          λ d e f h k. record { ready = k.ready ∙ h.ready; driver = λ p. k.driver (h.driver p) };
    };
    reads = λ sector d. record {
      ready = refl;
      driver = hooks _ _ (hooked.reads sector (d.map, d.driver));
    };
    writes = λ sector page d. record {
      ready = refl;
      driver = hooks _ _ (hooked.writes sector page (d.map, d.driver));
    };
    trims = λ sector d. record {
      ready = refl;
      driver = hooks _ _ (hooked.trims sector (d.map, d.driver));
    };
    syncs = λ d. record { ready = refl; driver = hooks _ _ (hooked.syncs (d.map, d.driver)) };
  }

  transferred : (d e : Disk F) → Transfer B d e → WhileReady B d → WhileReady B e
  transferred d e h w ready = h.driver (w (sym h.ready ∙ ready))

  false_ne_true : {A : Type 0} → ◌≡◌ {A = Bool} false true → A
  false_ne_true e = absurd cc

  cleared : (d : Disk F) → IsProtected B d.driver → IsProtected B (clear_map F gc_ratio d).driver
  unfolding clear_map
  cleared d h = hooks _ _ (hooked.clears (d.map, d.driver)) h

  if-WhileReady :
      {A : Type 0} (b : Bool) (x y : A × Disk F)
      → (b ≡ true → WhileReady B x.1)
      → (b ≡ false → WhileReady B y.1)
      → WhileReady B (if b then x else y).1
  if-WhileReady true x y h k = h refl
  if-WhileReady false x y h k = k refl

  idle-WhileReady : (d : Disk F) → d.ready ≡ false → WhileReady B d
  idle-WhileReady d idle e = false_ne_true (sym idle ∙ e)

  corrupt :
      (d : Disk F)
      → d.ready ≡ false
      → IsProtected B d.driver
      → WhileReady B (resumed F gc_ratio (fail e_none) d).1
  unfolding resumed
  corrupt d idle h =
      if-WhileReady d.reset_on_corrupt _ _ (λ _ _. cleared d h)
        λ _. idle-WhileReady (record d { driver = (nand_mx35lf1_deinit P valid d.driver).1 }) idle

  resumed-WhileReady :
      (r : Result DharaError (Unit {0})) (d : Disk F)
      → d.ready ≡ false
      → IsProtected B d.driver
      → WhileReady B (resumed F gc_ratio r d).1
  unfolding resumed
  resumed-WhileReady (ok _) d idle h = λ _. h
  resumed-WhileReady (fail e_none) d idle h = corrupt d idle h
  resumed-WhileReady (fail e_bad_block) d idle h = corrupt d idle h
  resumed-WhileReady (fail e_ecc) d idle h = corrupt d idle h
  resumed-WhileReady (fail e_too_bad) d idle h = λ _. cleared d h
  resumed-WhileReady (fail e_recover) d idle h = corrupt d idle h
  resumed-WhileReady (fail e_journal_full) d idle h = corrupt d idle h
  resumed-WhileReady (fail e_not_found) d idle h = corrupt d idle h
  resumed-WhileReady (fail e_map_full) d idle h = corrupt d idle h
  resumed-WhileReady (fail e_corrupt_map) d idle h = corrupt d idle h
  resumed-WhileReady (fail e_max) d idle h = corrupt d idle h

  start_map-WhileReady :
      (r : Result NandErr (Unit {0})) (d : Disk F)
      → d.ready ≡ false
      → (r ≡ ok tt → IsProtected B d.driver)
      → WhileReady B (start_map F gc_ratio r d).1
  unfolding start_map with_map
  start_map-WhileReady (fail e) d idle h = idle-WhileReady d idle
  start_map-WhileReady (ok _) d idle h =
      resumed-WhileReady _ _ idle (hooks _ _ (hooked.resumes _) (h refl))

  started :
      (d : Disk F)
      → d.ready ≡ false
      → let (ret, s) = nand_mx35lf1_init P valid (some d.config) d.driver in
        WhileReady B (start_map F gc_ratio ret (record d { driver = s })).1
  started d idle =
      start_map-WhileReady _ _ idle (nand_mx35lf1_init-IsProtected B mode d.config d.driver)

  initialize-WhileReady :
      (pdrv : ℕ) (d : Disk F)
      → WhileReady B d
      → WhileReady B (disk_initialize_dhara F gc_ratio pdrv d).1
  unfolding disk_initialize_dhara
  initialize-WhileReady pdrv d w =
      if-WhileReady (get_ctx F gc_ratio pdrv && d.in_use) _ _
        (λ _. if-WhileReady d.ready _ _ (λ _. w) (started d)) λ _. w

  finish-WhileReady :
      (r : DStatus) (d : Disk F) → WhileReady B d → WhileReady B (finish_init F gc_ratio r d).1
  unfolding finish_init
  finish-WhileReady initialized d w = w
  finish-WhileReady sta_noinit d w = w
  finish-WhileReady sta_nodisk d w = w

  init-WhileReady :
      (cfg : Option NandConfig) (reset_on_corrupt : Bool) (d : Disk F)
      → WhileReady B d
      → WhileReady B (diskio_nand_dhara_init F gc_ratio cfg reset_on_corrupt d).1
  unfolding diskio_nand_dhara_init
  init-WhileReady none reset_on_corrupt d w = w
  init-WhileReady (some cfg) reset_on_corrupt d w =
      if-WhileReady d.in_use _ _ (λ _. w)
        λ _. finish-WhileReady _ _ (initialize-WhileReady pdrv_nand_ftl _ (λ e. false_ne_true e))

  deinit_free : (d : Disk F) → d.in_use ≡ false → (diskio_nand_dhara_deinit F gc_ratio d).1 ≡ d
  unfolding diskio_nand_dhara_deinit
  deinit_free d free = rw free refl

  deinit-WhileReady :
      (d : Disk F) → WhileReady B d → WhileReady B (diskio_nand_dhara_deinit F gc_ratio d).1
  deinit-WhileReady d w = elim (Bool-cases d.in_use) [
    | inl used ↦
        idle-WhileReady (diskio_nand_dhara_deinit F gc_ratio d).1
          (diskio_nand_dhara_deinit-down gc_ratio d used).2
    | inr free ↦ subst (WhileReady B) (sym (deinit_free d free)) w
  ]

  -- In the protected mode, on a bus that answers the frames that disable writes and set a feature
  -- register, over a translation layer that works on the driver by the hooks alone: in whatever
  -- order the disk is initialized, read, written, controlled and released, and whatever fails
  -- below it, while the drive is ready the write latch is clear and all blocks are locked.
  pub Step-WhileReady : (d e : Disk F) → Step gc_ratio d e → WhileReady B d → WhileReady B e
  Step-WhileReady d _ (initialize pdrv _) w = initialize-WhileReady pdrv d w
  Step-WhileReady d _ (read pdrv sector count _) w =
      transferred d _ (disk_read_dhara-related Transfer-IsTransferred pdrv sector count d) w
  Step-WhileReady d _ (write pdrv buff sector count _) w =
      transferred d _ (disk_write_dhara-related Transfer-IsTransferred pdrv buff sector count d) w
  Step-WhileReady d e (ioctl pdrv cmd _ _ r h) w =
      transferred d e (disk_ioctl_dhara-related Transfer-IsTransferred pdrv cmd d e r h) w
  Step-WhileReady d _ (init cfg reset_on_corrupt _) w = init-WhileReady cfg reset_on_corrupt d w
  Step-WhileReady d _ (deinit _) w = deinit-WhileReady d w
