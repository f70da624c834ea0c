-- ===== src/Disk/Lifecycle/Steps.antt =====
-- The calls of src/nand_diskio.c in any order: initialization, transfers and release.
use nand_vfs_mx35lf.Base.{
  ℕ, ◌≡◌, refl, sym, ◌∙◌, Bool, true, false, ◌&&◌, Option, none, some, List, Result, ok, fail,
  arith, Bool-cases, inl, inr, ◌≢◌,
}
use nand_vfs_mx35lf.Driver.Types.{NandConfig, Platform}
use nand_vfs_mx35lf.Disk.{
  Ftl, Disk, DStatus, DError, EspErr, IoctlCommand, get_ctx, disk_initialize_dhara, disk_read_dhara,
  disk_write_dhara, disk_ioctl_dhara, diskio_nand_dhara_init, diskio_nand_dhara_deinit,
}
use nand_vfs_mx35lf.Disk.Calls.{
  SameContext, SameContext-IsTransferred, disk_read_dhara-related, disk_write_dhara-related,
  disk_ioctl_dhara-related,
}
use nand_vfs_mx35lf.Disk.Lifecycle.{
  Started, InitOutcome, start_map-Started, diskio_nand_dhara_init-InitOutcome,
  diskio_nand_dhara_deinit-down,
}

used_of : (b c : Bool) → (b && c) ≡ true → c ≡ true
used_of b c h = ground arith

module _ {P : Platform} {F : Ftl P} where
  -- The drive is ready only while the context is in use, and FatFs has the driver of exactly the
  -- contexts in use.
  pub record IsWellFormed (d : Disk F) : Type 0 where
    pub ready : d.ready ≡ true → d.in_use ≡ true
    pub registered : d.registered ≡ d.in_use

  same-IsWellFormed : (d e : Disk F) → SameContext d e → IsWellFormed d → IsWellFormed e
  same-IsWellFormed d e h w = record {
    ready = λ r. h.in_use ∙ w.ready (sym h.ready ∙ r);
    registered = h.registered ∙ w.registered ∙ sym h.in_use;
  }

  -- A call of one of the functions by FatFs or by the mount point, from a state to the next.
  pub data Step (gc_ratio : ℕ) : Disk F → Disk F → Type 0 where
    initialize :
        (pdrv : ℕ) (d : Disk F) → Step gc_ratio d (disk_initialize_dhara F gc_ratio pdrv d).1
    read :
        (pdrv sector count : ℕ) (d : Disk F)
        → Step gc_ratio d (disk_read_dhara F gc_ratio pdrv sector count d).1
    write :
        (pdrv : ℕ) (buff : List ℕ) (sector count : ℕ) (d : Disk F)
        → Step gc_ratio d (disk_write_dhara F gc_ratio pdrv buff sector count d).1
    ioctl :
        (pdrv : ℕ) (cmd : IoctlCommand) (d e : Disk F) (r : Result DError (Option ℕ))
        → disk_ioctl_dhara F gc_ratio pdrv cmd d ≡ some (r, e)
        → Step gc_ratio d e
    init :
        (cfg : Option NandConfig) (reset_on_corrupt : Bool) (d : Disk F)
        → Step gc_ratio d (diskio_nand_dhara_init F gc_ratio cfg reset_on_corrupt d).1
    deinit : (d : Disk F) → Step gc_ratio d (diskio_nand_dhara_deinit F gc_ratio d).1

  module _ (gc_ratio : ℕ) where
    outcome-IsWellFormed :
        (r : Result EspErr (Unit {0})) (e : Disk F) → InitOutcome gc_ratio r e → IsWellFormed e
    outcome-IsWellFormed (ok _) e h = record { ready = λ _. h.0; registered = h.1 ∙ sym h.0 }
    outcome-IsWellFormed (fail x) e h = record {
      ready = λ r. absurd (true_ne_false (sym r ∙ h.3));
      registered = h.2 ∙ sym h.1;
    }
      where
        true_ne_false : true ≢ false
        true_ne_false = λ q. cc

    idle-IsWellFormed :
        (d : Disk F) → d.in_use ≡ false → d.registered ≡ false → d.ready ≡ false → IsWellFormed d
    idle-IsWellFormed d h k l = ground arith

    init-IsWellFormed :
        (cfg : Option NandConfig) (reset_on_corrupt : Bool) (d : Disk F)
        → IsWellFormed d
        → IsWellFormed (diskio_nand_dhara_init F gc_ratio cfg reset_on_corrupt d).1
    unfolding diskio_nand_dhara_init
    init-IsWellFormed none reset_on_corrupt d w = w
    init-IsWellFormed (some cfg) reset_on_corrupt d w = elim (Bool-cases d.in_use) [
      | inl used ↦ rw used (rw used at w)
      | inr free ↦
          outcome-IsWellFormed _ _
            (diskio_nand_dhara_init-InitOutcome gc_ratio cfg reset_on_corrupt d free)
    ]

    brought_up-IsWellFormed :
        (d : Disk F) (r : DStatus × Disk F)
        → IsWellFormed d
        → d.in_use ≡ true
        → Started gc_ratio d.in_use d.registered r
        → IsWellFormed r.1
    brought_up-IsWellFormed d r w used h = record {
      ready = λ _. h.used ∙ used;
      registered = h.known ∙ w.registered ∙ sym h.used;
    }

    initialize-IsWellFormed :
        (pdrv : ℕ) (d : Disk F)
        → IsWellFormed d
        → IsWellFormed (disk_initialize_dhara F gc_ratio pdrv d).1
    unfolding disk_initialize_dhara
    initialize-IsWellFormed pdrv d w = elim (Bool-cases (get_ctx F gc_ratio pdrv && d.in_use)) [
      | inr h ↦ rw h w
      | inl h ↦ rw h (elim (Bool-cases d.ready) [
        | inl up ↦ rw up (rw up at w)
        | inr idle ↦ rw idle (
            brought_up-IsWellFormed d _ w (used_of (get_ctx F gc_ratio pdrv) d.in_use h)
              (start_map-Started gc_ratio _ _ refl))
      ])
    ]

    deinit-IsWellFormed :
        (d : Disk F) → IsWellFormed d → IsWellFormed (diskio_nand_dhara_deinit F gc_ratio d).1
    deinit-IsWellFormed d w = elim (Bool-cases d.in_use) [
      | inl used ↦
          let h = diskio_nand_dhara_deinit-down gc_ratio d used in idle-IsWellFormed _ h.0 h.1 h.2
      | inr free ↦ unfold diskio_nand_dhara_deinit in (rw free (rw free at w))
    ]

    -- Every call keeps the context well-formed: it is in use whenever it is ready, and registered with
    -- FatFs exactly while it is in use.
    pub Step-IsWellFormed : (d e : Disk F) → Step gc_ratio d e → IsWellFormed d → IsWellFormed e
    Step-IsWellFormed d _ (initialize pdrv _) w = initialize-IsWellFormed pdrv d w
    Step-IsWellFormed d _ (read pdrv sector count _) w =
        same-IsWellFormed d _
          (disk_read_dhara-related (SameContext-IsTransferred gc_ratio) pdrv sector count d) w
    Step-IsWellFormed d _ (write pdrv buff sector count _) w =
        same-IsWellFormed d _
          (disk_write_dhara-related (SameContext-IsTransferred gc_ratio) pdrv buff sector count d) w
    Step-IsWellFormed d e (ioctl pdrv cmd _ _ r h) w =
        same-IsWellFormed d e
          (disk_ioctl_dhara-related (SameContext-IsTransferred gc_ratio) pdrv cmd d e r h) w
    Step-IsWellFormed d _ (init cfg reset_on_corrupt _) w =
        init-IsWellFormed cfg reset_on_corrupt d w
    Step-IsWellFormed d _ (deinit _) w = deinit-IsWellFormed d w
