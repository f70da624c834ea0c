-- ===== src/Disk/Lifecycle.antt =====
-- The initialization and the release of the disk of src/nand_diskio.c.
pub mod Steps
pub mod Protection
use nand_vfs_mx35lf.Base.{
  ℕ, ◌≡◌, refl, sym, ◌∙◌, Bool, true, false, ◌&&◌, Option, none, some, List, Result, ok, fail,
  arith, Bool-cases, inl, inr, ◌≢◌,
}
use nand_vfs_mx35lf.Driver.Types.{NandErr, NandConfig, Platform}
use nand_vfs_mx35lf.Hal.{
  DharaError, e_none, e_bad_block, e_ecc, e_too_bad, e_recover, e_journal_full, e_not_found,
  e_map_full, e_corrupt_map, e_max,
}
use nand_vfs_mx35lf.Disk.{
  Ftl, Disk, DStatus, initialized, sta_noinit, sta_nodisk, DError, EspErr, esp_fail, IoctlCommand,
  pdrv_nand_ftl, nand_geometry, with_map, clear_map, get_ctx, resumed, start_map,
  disk_initialize_dhara, disk_read_dhara, disk_write_dhara, disk_ioctl_dhara, finish_init,
  diskio_nand_dhara_init, stop_map, diskio_nand_dhara_deinit,
}
use nand_vfs_mx35lf.Disk.Calls.{
  SameContext, SameContext-IsTransferred, disk_read_dhara-related, disk_write_dhara-related,
  disk_ioctl_dhara-related,
}

module _ {P : Platform} {F : Ftl P} where
  module _ (gc_ratio : ℕ) where
    -- What an initialization of the drive may do to a context that is in use.
    pub record Started (in_use registered : Bool) (r : DStatus × Disk F) : Type 0 where
      pub used : r.1.in_use ≡ in_use
      pub known : r.1.registered ≡ registered
      pub up : r.0 ≡ initialized → r.1.ready ≡ true
      pub down : r.0 ≡ sta_noinit → r.1.ready ≡ false
      pub not_nodisk : r.0 ≢ sta_nodisk

    corrupt-Started :
        (d : Disk F)
        → d.ready ≡ false
        → Started d.in_use d.registered (resumed F gc_ratio (fail e_none) d)
    unfolding resumed clear_map
    corrupt-Started d idle = elim (Bool-cases d.reset_on_corrupt) [
      | inl h ↦ rw h (record {
        used = refl;
        known = refl;
        up = λ _. refl;
        down = λ e. cc;
        not_nodisk = λ e. cc;
      })
      | inr h ↦ rw h (record {
        used = refl;
        known = refl;
        up = λ e. cc;
        down = λ _. idle;
        not_nodisk = λ e. cc;
      })
    ]

    resumed-Started :
        (r : Result DharaError (Unit {0})) (d : Disk F)
        → d.ready ≡ false
        → Started d.in_use d.registered (resumed F gc_ratio r d)
    unfolding resumed clear_map
    resumed-Started (ok _) d idle = ground arith
    resumed-Started (fail e_none) d idle = corrupt-Started d idle
    resumed-Started (fail e_bad_block) d idle = corrupt-Started d idle
    resumed-Started (fail e_ecc) d idle = corrupt-Started d idle
    resumed-Started (fail e_too_bad) d idle = ground arith
    resumed-Started (fail e_recover) d idle = corrupt-Started d idle
    resumed-Started (fail e_journal_full) d idle = corrupt-Started d idle
    resumed-Started (fail e_not_found) d idle = corrupt-Started d idle
    resumed-Started (fail e_map_full) d idle = corrupt-Started d idle
    resumed-Started (fail e_corrupt_map) d idle = corrupt-Started d idle
    resumed-Started (fail e_max) d idle = corrupt-Started d idle

    pub start_map-Started :
        (r : Result NandErr (Unit {0})) (d : Disk F)
        → d.ready ≡ false
        → Started d.in_use d.registered (start_map F gc_ratio r d)
    unfolding start_map with_map
    start_map-Started (fail _) d idle = ground arith
    start_map-Started (ok _) d idle =
        let d₁ : Disk F = record d {
          nand = nand_geometry;
          map = F.map_init nand_geometry gc_ratio d.map;
        } in
        resumed-Started (with_map F gc_ratio F.map_resume d₁).0
          (with_map F gc_ratio F.map_resume d₁).1 idle

    initialize-Started :
        (d : Disk F)
        → d.in_use ≡ true
        → Started d.in_use d.registered (disk_initialize_dhara F gc_ratio pdrv_nand_ftl d)
    unfolding disk_initialize_dhara
    initialize-Started d used = elim (Bool-cases d.ready) [
      | inl h ↦
          rw (used, h)
            (record {
              used = refl;
              known = refl;
              up = λ _. refl;
              down = λ e. cc;
              not_nodisk = λ e. cc;
            })
      | inr h ↦ rw (used, h) (start_map-Started _ _ refl)
    ]

    -- What an attempt to bring the disk up comes to.
    abbrev pub InitOutcome : Result EspErr (Unit {0}) → Disk F → Type 0
    InitOutcome (ok _) e = (e.in_use ≡ true) × (e.registered ≡ true) × (e.ready ≡ true)
    InitOutcome (fail x) e =
        (x ≡ esp_fail) × (e.in_use ≡ false) × (e.registered ≡ false) × (e.ready ≡ false)

    finish_init-InitOutcome :
        (r : DStatus) (d : Disk F)
        → Started true true (r, d)
        → InitOutcome (finish_init F gc_ratio r d).0 (finish_init F gc_ratio r d).1
    unfolding finish_init
    finish_init-InitOutcome initialized d h = (h.used, h.known, h.up refl)
    finish_init-InitOutcome sta_noinit d h = (refl, refl, refl, h.down refl)
    finish_init-InitOutcome sta_nodisk d h = absurd (h.not_nodisk refl)

    -- With a configuration and a context that is free, the initialization returns ESP_OK with the
    -- drive in use, registered and ready, or ESP_FAIL with none of these, whatever the driver and
    -- the translation layer do.
    pub diskio_nand_dhara_init-InitOutcome :
        (cfg : NandConfig) (reset_on_corrupt : Bool) (d : Disk F)
        → d.in_use ≡ false
        → InitOutcome
            (diskio_nand_dhara_init F gc_ratio (some cfg) reset_on_corrupt d).0
            (diskio_nand_dhara_init F gc_ratio (some cfg) reset_on_corrupt d).1
    unfolding diskio_nand_dhara_init
    diskio_nand_dhara_init-InitOutcome cfg reset_on_corrupt d free =
        rw free (finish_init-InitOutcome _ _ (initialize-Started _ refl))

    -- After the release of a context that is in use, it is neither in use nor registered nor ready,
    -- whether the last sync succeeded or not.
    pub diskio_nand_dhara_deinit-down :
        (d : Disk F)
        → d.in_use ≡ true
        → let e = (diskio_nand_dhara_deinit F gc_ratio d).1 in
          (e.in_use ≡ false) × (e.registered ≡ false) × (e.ready ≡ false)
    unfolding diskio_nand_dhara_deinit stop_map
    diskio_nand_dhara_deinit-down d used = elim (Bool-cases d.ready) [
      | inl h ↦ rw (used, h) (refl, refl, refl)
      | inr h ↦ rw (used, h) (refl, refl, refl)
    ]

    pub diskio_nand_dhara_deinit-free :
        (d : Disk F) → (diskio_nand_dhara_deinit F gc_ratio d).1.in_use ≡ false
    diskio_nand_dhara_deinit-free d = elim (Bool-cases d.in_use) [
      | inl used ↦ (diskio_nand_dhara_deinit-down d used).0
      | inr free ↦ unfold diskio_nand_dhara_deinit in (rw free refl)
    ]
