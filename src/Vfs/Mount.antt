-- ===== src/Vfs/Mount.antt =====
-- The steps of `vfs_nand_register` of src/nand_vfs.c from the disk on, and what their failures leave.
use mathlib.Core.Path.{subst}
use nand_vfs_mx35lf.Base.{
  ℕ, ◌≡◌, refl, ◌∙◌, Bool, true, false, List, [], Result, ok, fail, arith, if◌then◌else◌,
  Bool-cases, inl, inr,
}
use nand_vfs_mx35lf.Driver.Types.{valid, Platform, SpiHost}
use nand_vfs_mx35lf.Driver.Api.{nand_mx35lf1_mounted}
use nand_vfs_mx35lf.Disk.{Ftl, Disk, EspErr, esp_fail}
use nand_vfs_mx35lf.Disk.Lifecycle.{
  InitOutcome, diskio_nand_dhara_init-InitOutcome, diskio_nand_dhara_deinit-free,
}
use nand_vfs_mx35lf.Vfs.{
  FResult, fr_ok, fr_no_filesystem, fr_error, Services, VfsNandConf, Vfs, with_disk, with_services,
  with_diskio, vfs_nand_format, fail_bus, fail_diskio, fail_vfs, remount, mount_volume,
  mount_result, register_vfs, register_disk,
}
use nand_vfs_mx35lf.Vfs.Path.{IsMountPath}

module _ {P : Platform} {F : Ftl P} where
  -- What a service may not do to the disk: it reaches it through the callbacks that
  -- `ff_diskio_register` was given, and these neither take nor release the context.
  pub record KeepsDisk (V : Services F) : Type 0 where
    pub registers :
        (path : List ℕ) (n : ℕ) (w : Disk F × V.State)
        → (V.esp_vfs_fat_register_cfg path n w).1.0.in_use ≡ w.0.in_use
    pub unregisters :
        (path : List ℕ) (w : Disk F × V.State)
        → (V.esp_vfs_fat_unregister_path path w).1.0.in_use ≡ w.0.in_use
    pub mounts : (fs : ℕ) (w : Disk F × V.State) → (V.f_mount fs w).1.0.in_use ≡ w.0.in_use
    pub formats : (w : Disk F × V.State) → (V.f_mkfs w).1.0.in_use ≡ w.0.in_use
    pub informs :
        (path : List ℕ) (w : Disk F × V.State) → (V.esp_vfs_fat_info path w).1.0.in_use ≡ w.0.in_use

module _ {P : Platform} {F : Ftl P} {V : Services F} where
  -- The volume is registered exactly while the disk is in use, and the path is kept as long.
  pub record IsTidy (v : Vfs V) : Type 0 where
    pub path : v.registered ≡ true → IsMountPath v.base_path
    pub no_path : v.registered ≡ false → v.base_path ≡ []
    pub in_use : v.disk.in_use ≡ v.registered

  -- What a registration comes to, for a path.
  abbrev pub RegisterOutcome : List ℕ → Result EspErr (Unit {0}) → Vfs V → Type 0
  RegisterOutcome path (ok _) w =
      (w.registered ≡ true) × (w.base_path ≡ path) × (w.disk.in_use ≡ true)
  RegisterOutcome path (fail e) w =
      (w.registered ≡ false) × (w.base_path ≡ []) × (w.disk.in_use ≡ false)

  -- A call of a service keeps the static variables, and whether the disk is in use.
  pub record Same (v w : Vfs V) : Type 0 where
    pub registered : w.registered ≡ v.registered
    pub base_path : w.base_path ≡ v.base_path
    pub in_use : w.disk.in_use ≡ v.disk.in_use

  pub Same-refl : (v : Vfs V) → Same v v
  Same-refl v = ground arith

  pub Same-trans : (u v w : Vfs V) → Same u v → Same v w → Same u w
  Same-trans u v w h k = ground arith

  module _ (gc_ratio max_files : ℕ) (K : KeepsDisk V) where
    pub with_disk-Same :
        {R : Type 0} (op : Disk F × V.State → R × (Disk F × V.State)) (v : Vfs V)
        → ((w : Disk F × V.State) → (op w).1.0.in_use ≡ w.0.in_use)
        → Same v (with_disk V gc_ratio max_files op v).1
    unfolding with_disk
    with_disk-Same op v k = record {
      registered = refl;
      base_path = refl;
      in_use = k (v.disk, v.services);
    }

    pub format-Same : (v : Vfs V) → Same v (vfs_nand_format V gc_ratio max_files v).1
    unfolding vfs_nand_format with_services with_disk
    format-Same v = elim (Bool-cases (nand_mx35lf1_mounted P valid v.disk.driver)) [
      | inr h ↦ rw h (Same-refl v)
      | inl h ↦ rw h (elim (Bool-cases (V.malloc_workbuf v.services).0) [
        | inr k ↦ rw k (record { registered = refl; base_path = refl; in_use = refl })
        | inl k ↦
            rw k (record { registered = refl; base_path = refl; in_use = K.formats (v.disk, _) })
      ])
    ]

    remount-Same :
        (fs : ℕ) (r : Result EspErr (Unit {0})) (v : Vfs V)
        → Same v (remount V gc_ratio max_files fs r v).1
    unfolding remount
    remount-Same fs (ok _) v = with_disk-Same (V.f_mount fs) v (K.mounts fs)
    remount-Same fs (fail _) v = Same-refl v

    mounted :
        (fs : ℕ) (format : Bool) (u : Vfs V) (r : FResult) (v : Vfs V)
        → Same u v
        → let o : FResult × Vfs V = elim r [
          | fr_ok ↦ (fr_ok, v)
          | fr_error n ↦ (fr_error n, v)
          | fr_no_filesystem ↦
              if format
              then (let (ret, w) = vfs_nand_format V gc_ratio max_files v in
                  remount V gc_ratio max_files fs ret w)
              else (fr_no_filesystem, v)
        ] in
          Same u o.1
    mounted fs format u fr_ok v h = h
    mounted fs format u (fr_error n) v h = h
    mounted fs true u fr_no_filesystem v h =
        Same-trans u v _ h (Same-trans v _ _ (format-Same v) (remount-Same fs _ _))
    mounted fs false u fr_no_filesystem v h = h

    mount_volume-Same :
        (fs : ℕ) (format : Bool) (v : Vfs V)
        → Same v (mount_volume V gc_ratio max_files fs format v).1
    unfolding mount_volume
    mount_volume-Same fs format v =
        mounted fs format v _ _ (with_disk-Same (V.f_mount fs) v (K.mounts fs))

    fail_bus-RegisterOutcome :
        (path : List ℕ) (owns_bus : Bool) (host : SpiHost) (e : EspErr) (v : Vfs V)
        → v.registered ≡ false
        → v.disk.in_use ≡ false
        → RegisterOutcome path
            (fail_bus V gc_ratio max_files owns_bus host e v).0
            (fail_bus V gc_ratio max_files owns_bus host e v).1
    unfolding fail_bus with_services
    fail_bus-RegisterOutcome path true host e v h k = (h, refl, k)
    fail_bus-RegisterOutcome path false host e v h k = (h, refl, k)

    fail_diskio-RegisterOutcome :
        (path : List ℕ) (owns_bus : Bool) (host : SpiHost) (e : EspErr) (v : Vfs V)
        → v.registered ≡ false
        → RegisterOutcome path
            (fail_diskio V gc_ratio max_files owns_bus host e v).0
            (fail_diskio V gc_ratio max_files owns_bus host e v).1
    unfolding fail_diskio with_diskio
    fail_diskio-RegisterOutcome path owns_bus host e v h =
        fail_bus-RegisterOutcome path owns_bus host e _ h
          (diskio_nand_dhara_deinit-free gc_ratio v.disk)

    unmounted :
        (owns_bus : Bool) (host : SpiHost) (v : Vfs V)
        → v.registered ≡ false
        → RegisterOutcome v.base_path
            (fail_vfs V gc_ratio max_files owns_bus host esp_fail v).0
            (fail_vfs V gc_ratio max_files owns_bus host esp_fail v).1
    unfolding fail_vfs
    unmounted owns_bus host v h =
        let left =
          with_disk-Same (V.esp_vfs_fat_unregister_path v.base_path) v
            (K.unregisters v.base_path) in
        fail_diskio-RegisterOutcome v.base_path owns_bus host esp_fail _ (left.registered ∙ h)

    mount_result-RegisterOutcome :
        (owns_bus : Bool) (host : SpiHost) (r : FResult) (v : Vfs V)
        → v.registered ≡ false
        → v.disk.in_use ≡ true
        → RegisterOutcome v.base_path
            (mount_result V gc_ratio max_files owns_bus host r v).0
            (mount_result V gc_ratio max_files owns_bus host r v).1
    unfolding mount_result
    mount_result-RegisterOutcome owns_bus host fr_ok v h k = (refl, refl, k)
    mount_result-RegisterOutcome owns_bus host fr_no_filesystem v h k = unmounted owns_bus host v h
    mount_result-RegisterOutcome owns_bus host (fr_error n) v h k = unmounted owns_bus host v h

    vfs_registered :
        (conf : VfsNandConf V.BusConfig) (owns_bus : Bool) (u : Vfs V) (r : Result EspErr ℕ)
        (v : Vfs V)
        → Same u v
        → u.registered ≡ false
        → u.disk.in_use ≡ true
        → let o : Result EspErr (Unit {0}) × Vfs V = elim r [
          | fail e ↦ fail_diskio V gc_ratio max_files owns_bus conf.nand_conf.spi_host e v
          | ok fs ↦
              let (fr, w) = mount_volume V gc_ratio max_files fs conf.format_if_mounted_failed v in
              mount_result V gc_ratio max_files owns_bus conf.nand_conf.spi_host fr w
        ] in
          RegisterOutcome u.base_path o.0 o.1
    vfs_registered conf owns_bus u (fail e) v h k l =
        fail_diskio-RegisterOutcome u.base_path owns_bus conf.nand_conf.spi_host e v
          (h.registered ∙ k)
    vfs_registered conf owns_bus u (ok fs) v h k l =
        let m = Same-trans u v _ h (mount_volume-Same fs conf.format_if_mounted_failed v) in
        let (fr, w) = mount_volume V gc_ratio max_files fs conf.format_if_mounted_failed v in
        subst
          (λ path.
            RegisterOutcome path
              (mount_result V gc_ratio max_files owns_bus conf.nand_conf.spi_host fr w).0
              (mount_result V gc_ratio max_files owns_bus conf.nand_conf.spi_host fr w).1)
          m.base_path
          (mount_result-RegisterOutcome owns_bus conf.nand_conf.spi_host fr w (m.registered ∙ k)
            (m.in_use ∙ l))

    register_vfs-RegisterOutcome :
        (conf : VfsNandConf V.BusConfig) (owns_bus : Bool) (v : Vfs V)
        → v.registered ≡ false
        → v.disk.in_use ≡ true
        → RegisterOutcome v.base_path
            (register_vfs V gc_ratio max_files conf owns_bus v).0
            (register_vfs V gc_ratio max_files conf owns_bus v).1
    unfolding register_vfs
    register_vfs-RegisterOutcome conf owns_bus v h k =
        vfs_registered conf owns_bus v _ _
          (with_disk-Same (V.esp_vfs_fat_register_cfg v.base_path max_files) v
            (K.registers v.base_path max_files))
          h k

    disk_registered :
        (conf : VfsNandConf V.BusConfig) (owns_bus : Bool) (r : Result EspErr (Unit {0}))
        (v : Vfs V)
        → v.registered ≡ false
        → InitOutcome gc_ratio r v.disk
        → let o : Result EspErr (Unit {0}) × Vfs V = elim r [
          | fail e ↦ fail_bus V gc_ratio max_files owns_bus conf.nand_conf.spi_host e v
          | ok _ ↦ register_vfs V gc_ratio max_files conf owns_bus v
        ] in
          RegisterOutcome v.base_path o.0 o.1
    disk_registered conf owns_bus (fail e) v h k =
        fail_bus-RegisterOutcome v.base_path owns_bus conf.nand_conf.spi_host e v h k.1
    disk_registered conf owns_bus (ok _) v h k = register_vfs-RegisterOutcome conf owns_bus v h k.0

    pub register_disk-RegisterOutcome :
        (conf : VfsNandConf V.BusConfig) (owns_bus : Bool) (v : Vfs V)
        → v.registered ≡ false
        → v.disk.in_use ≡ false
        → RegisterOutcome v.base_path
            (register_disk V gc_ratio max_files conf owns_bus v).0
            (register_disk V gc_ratio max_files conf owns_bus v).1
    unfolding register_disk with_diskio
    register_disk-RegisterOutcome conf owns_bus v h k = disk_registered conf owns_bus _ _ h (
        diskio_nand_dhara_init-InitOutcome gc_ratio conf.nand_conf conf.format_if_mounted_failed
          v.disk k)
