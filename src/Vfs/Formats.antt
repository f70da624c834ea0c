-- ===== src/Vfs/Formats.antt =====
-- When the registration of src/nand_vfs.c may format the volume.
use nand_vfs_mx35lf.Base.{
  ℕ, ◌+◌, ◌≤◌, refl, Bool, some, List, Result, ok, fail, arith, if◌then◌else◌, Bool-cases, take,
  ◌-◌, inl, inr,
}
use nand_vfs_mx35lf.Driver.Types.{Platform}
use nand_vfs_mx35lf.Disk.{Ftl, EspErr}
use nand_vfs_mx35lf.Vfs.{
  vfs_nand_base_path_max_len, Services, VfsNandConf, Vfs, with_services, check_conf, init_bus,
  register_disk, vfs_nand_register,
}
use nand_vfs_mx35lf.Vfs.Counts.{SameCounts, Formats, register_disk-AtMost}

module _ {P : Platform} {F : Ftl P} {V : Services F} (K : Formats V) (gc_ratio max_files : ℕ)
    (conf : VfsNandConf V.BusConfig) where
  init_bus-SameCounts :
      (v : Vfs V)
      → SameCounts K.count K.bare v.services (init_bus V gc_ratio max_files conf v).1.services
  unfolding init_bus with_services
  init_bus-SameCounts v = elim (Bool-cases conf.init_spi_bus) [
    | inl h ↦ rw h (K.starts conf.nand_conf.spi_host conf.spi_bus v.services)
    | inr h ↦ rw h (record { formats = refl; finds = refl })
  ]

  -- What a registration from the state `v` on may leave.
  abbrev Justified : {A : Type 0} → Vfs V → A × Vfs V → Type 0
  Justified v (r, w) =
      (K.count w.services ≤ K.count v.services + (if conf.format_if_mounted_failed then 1 else 0))
      × (K.count w.services + K.bare v.services ≤ K.bare w.services + K.count v.services)

  checked :
      (r : Result EspErr (List ℕ)) (bus : Result EspErr Bool) (v w : Vfs V)
      → SameCounts K.count K.bare v.services w.services
      → let o : Result EspErr (Unit {0}) × Vfs V = elim r [
        | fail e ↦ (fail e, v)
        | ok path ↦ elim bus [
          | fail e ↦ (fail e, w)
          | ok owns ↦
              register_disk V gc_ratio max_files conf owns
                (record w { base_path = take (vfs_nand_base_path_max_len - 1) path })
        ]
      ] in
        Justified v o
  checked (fail e) bus v w h = (omega arith, omega arith)
  checked (ok path) (fail e) v w h = (omega (arith, h.formats), omega (arith, h.formats, h.finds))
  checked (ok path) (ok owns) v w h =
      let (most, each) =
        register_disk-AtMost K gc_ratio max_files
          (K.count v.services + (if conf.format_if_mounted_failed then 1 else 0))
          (K.count v.services) (K.bare v.services) conf owns
          (record w { base_path = take (vfs_nand_base_path_max_len - 1) path })
          (omega (arith, h.formats), omega (arith, h.formats, h.finds)) in
      (omega (arith, most), omega (arith, each))

  -- A registration runs `f_mkfs` once at most, and not at all unless the configuration asks for it
  -- and a mount of this registration has found no file system: it runs `f_mkfs` no more often than
  -- `f_mount` returns FR_NO_FILESYSTEM, whatever the services answer and whichever step fails.
  pub vfs_nand_register-count :
      (v : Vfs V)
      → let w = (vfs_nand_register V gc_ratio max_files (some conf) v).1 in
        (K.count w.services ≤ K.count v.services + (if conf.format_if_mounted_failed then 1 else 0))
        × (K.count w.services + K.bare v.services ≤ K.bare w.services + K.count v.services)
  unfolding vfs_nand_register
  vfs_nand_register-count v =
      checked (check_conf V gc_ratio max_files conf v) (init_bus V gc_ratio max_files conf v).0 v
        (init_bus V gc_ratio max_files conf v).1 (init_bus-SameCounts v)
