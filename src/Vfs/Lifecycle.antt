-- ===== src/Vfs/Lifecycle.antt =====
-- The registration of src/nand_vfs.c: its outcomes.
pub mod Steps
use mathlib.Core.Path.{subst}
use nand_vfs_mx35lf.Base.{
  ℕ, ◌+◌, ◌-◌, ◌%◌, ◌^◌, ◌<◌, ◌≡◌, refl, sym, ◌∙◌, Bool, true, false, Option, none, some, List, [],
  Result, ok, fail, arith, if◌then◌else◌, length, take, Bool-cases, inl, inr, ◌≢◌,
}
use nand_vfs_mx35lf.Driver.Types.{Platform}
use nand_vfs_mx35lf.Disk.{Ftl, EspErr, esp_err_invalid_arg, esp_err_invalid_state}
use nand_vfs_mx35lf.Disk.Lifecycle.{diskio_nand_dhara_deinit-free}
use nand_vfs_mx35lf.Vfs.{
  Services, VfsNandConf, Vfs, with_disk, with_services, with_diskio, vfs_nand_format,
  vfs_nand_base_path_max_len, check_path, check_conf, init_bus, register_disk, is_host,
  vfs_nand_register, vfs_nand_unregister, vfs_nand_info,
}
use nand_vfs_mx35lf.Vfs.Path.{IsMountPath, path_take, check_path_iff}
use nand_vfs_mx35lf.Vfs.Mount.{
  KeepsDisk, IsTidy, RegisterOutcome, Same, Same-refl, with_disk-Same, format-Same,
  register_disk-RegisterOutcome,
}

tests :
    (registered host free : Bool) (path p : List ℕ)
    → let o : Result EspErr (List ℕ) =
        if registered
        then fail esp_err_invalid_state
        else (if host
            then (if free then ok path else fail esp_err_invalid_arg)
            else fail esp_err_invalid_arg) in
      o ≡ ok p → (p ≡ path) × (free ≡ true) × (registered ≡ false)
tests true host free path p h = absurd cc
tests false true true path p h = (cc, refl, refl)
tests false true false path p h = absurd cc
tests false false free path p h = absurd cc

module _ {P : Platform} {F : Ftl P} {V : Services F} (gc_ratio max_files : ℕ)
    (K : KeepsDisk V) where
  pub accepted :
      (conf : VfsNandConf V.BusConfig) (v : Vfs V) (path p : List ℕ)
      → conf.base_path ≡ some path
      → check_conf V gc_ratio max_files conf v ≡ ok p
      → (p ≡ path) × (check_path path ≡ true) × (v.registered ≡ false)
  unfolding check_conf
  accepted conf v path p e h =
      tests v.registered (is_host conf.nand_conf.spi_host) (check_path path) path p (rw e at h)

  pub bus_up :
      (conf : VfsNandConf V.BusConfig) (path p : List ℕ) (u : Vfs V) (bus : Result EspErr Bool)
      (v : Vfs V)
      → p ≡ path
      → length path < vfs_nand_base_path_max_len
      → IsTidy u
      → u.registered ≡ false
      → Same u v
      → let o : Result EspErr (Unit {0}) × Vfs V = elim bus [
        | fail e ↦ (fail e, v)
        | ok owns_bus ↦
            register_disk V gc_ratio max_files conf owns_bus
              (record v { base_path = take (vfs_nand_base_path_max_len - 1) p })
      ] in
        RegisterOutcome path o.0 o.1
  bus_up conf path p u (fail e) v same short tidy h k =
      (k.registered ∙ h, k.base_path ∙ tidy.no_path h, k.in_use ∙ tidy.in_use ∙ h)
  bus_up conf path p u (ok owns_bus) v same short tidy h k =
      rw (same, path_take (vfs_nand_base_path_max_len - 1) path (omega arith))
        (register_disk-RegisterOutcome gc_ratio max_files K conf owns_bus
          (record v { base_path = path }) (k.registered ∙ h) (k.in_use ∙ tidy.in_use ∙ h))

  pub init_bus-Same :
      (conf : VfsNandConf V.BusConfig) (v : Vfs V) → Same v (init_bus V gc_ratio max_files conf v).1
  unfolding init_bus with_services
  init_bus-Same conf v = elim (Bool-cases conf.init_spi_bus) [
    | inl h ↦ rw h (record { registered = refl; base_path = refl; in_use = refl })
    | inr h ↦ rw h (Same-refl v)
  ]

  checked :
      (conf : VfsNandConf V.BusConfig) (path : List ℕ) (v : Vfs V) (c : Result EspErr (List ℕ))
      → conf.base_path ≡ some path
      → check_conf V gc_ratio max_files conf v ≡ c
      → IsTidy v
      → v.registered ≡ false
      → let o : Result EspErr (Unit {0}) × Vfs V = elim c [
        | fail e ↦ (fail e, v)
        | ok p ↦
            let (bus, w) = init_bus V gc_ratio max_files conf v in
            elim bus [
              | fail e ↦ (fail e, w)
              | ok owns_bus ↦
                  register_disk V gc_ratio max_files conf owns_bus
                    (record w { base_path = take (vfs_nand_base_path_max_len - 1) p })
            ]
      ] in
        RegisterOutcome path o.0 o.1
  checked conf path v (fail e) known h tidy free = (free, tidy.no_path free, tidy.in_use ∙ free)
  checked conf path v (ok p) known h tidy free =
      let (same, passed, _) = accepted conf v path p known h in
      bus_up conf path p v _ _ same ((check_path_iff path).0 passed).short tidy free
        (init_bus-Same conf v)

  -- Over services that neither take nor release the disk, from a tidy mount point that is not
  -- registered and with a path given, `vfs_nand_register` returns ESP_OK with the volume
  -- registered under the path that was asked for and the disk in use, or an error with the volume
  -- not registered, the path cleared and the disk released, whichever of its steps failed.
  pub vfs_nand_register-RegisterOutcome :
      (conf : VfsNandConf V.BusConfig) (path : List ℕ) (v : Vfs V)
      → conf.base_path ≡ some path
      → IsTidy v
      → v.registered ≡ false
      → RegisterOutcome path
          (vfs_nand_register V gc_ratio max_files (some conf) v).0
          (vfs_nand_register V gc_ratio max_files (some conf) v).1
  unfolding vfs_nand_register
  vfs_nand_register-RegisterOutcome conf path v known tidy free =
      checked conf path v (check_conf V gc_ratio max_files conf v) known refl tidy free
