-- ===== src/Vfs.antt =====
-- The mount point: src/nand_vfs.c over include/nand_vfs.h. FatFs, its VFS glue and the SPI bus of
-- ESP-IDF are parameters.
pub mod Path
pub mod Mount
pub mod Lifecycle
pub mod Counts
pub mod Formats
use nand_vfs_mx35lf.Base.{
  ℕ, ◌+◌, ◌-◌, ◌%◌, ◌^◌, Bool, true, false, ◌&&◌, ◌||◌, not, Option, none, some, List, [], ◌∷◌,
  Result, ok, fail, ltb, leb, ◌==◌, if◌then◌else◌, length, get_or, take, Op,
}
use nand_vfs_mx35lf.Driver.Types.{
  SpiHost, spi1_host, spi2_host, spi3_host, NandConfig, Platform, valid,
}
use nand_vfs_mx35lf.Driver.Api.{nand_mx35lf1_mounted}
use nand_vfs_mx35lf.Disk.{
  Ftl, Disk, EspErr, esp_fail, esp_err_no_mem, esp_err_invalid_arg, esp_err_invalid_state,
  diskio_nand_dhara_init, diskio_nand_dhara_deinit,
}

-- `FRESULT`
pub data FResult : Type 0 where
  fr_ok fr_no_filesystem : FResult
  fr_error : ℕ → FResult

-- The services that the mount point calls, over a state of their own. Those that reach the disk
-- driver by its callbacks work on the disk too. `BusConfig` is `spi_bus_config_t`.
pub record Services {P : Platform} (F : Ftl P) : Type 1 where
  pub State : Type 0
  pub BusConfig : Type 0
  pub spi_bus_initialize : SpiHost → BusConfig → Op State EspErr (Unit {0})
  pub spi_bus_free : SpiHost → Op State EspErr (Unit {0})
  -- Gives the FATFS object.
  pub esp_vfs_fat_register_cfg : List ℕ → (max_files : ℕ) → Op (Disk F × State) EspErr ℕ
  pub esp_vfs_fat_unregister_path : List ℕ → Op (Disk F × State) EspErr (Unit {0})
  pub f_mount : ℕ → Disk F × State → FResult × (Disk F × State)
  pub f_mkfs : Disk F × State → FResult × (Disk F × State)
  -- The total and the free bytes.
  pub esp_vfs_fat_info : List ℕ → Op (Disk F × State) EspErr (ℕ × ℕ)
  pub malloc_workbuf : State → Bool × State
  pub free_workbuf : State → State

abbrev pub vfs_nand_base_path_max_len : ℕ
vfs_nand_base_path_max_len = 15

-- `vfs_nand_conf_t`; a string is its bytes, and `none` is NULL.
pub record VfsNandConf (BusConfig : Type 0) : Type 0 where
  pub base_path : Option (List ℕ)
  pub format_if_mounted_failed : Bool
  pub init_spi_bus : Bool
  pub spi_bus : BusConfig
  pub nand_conf : NandConfig

-- The static variables of src/nand_vfs.c, the disk below them, and the services.
pub record Vfs {P : Platform} {F : Ftl P} (V : Services F) : Type 0 where
  pub base_path : List ℕ
  pub registered : Bool
  pub owns_bus : Bool
  pub spi_host : SpiHost
  pub disk : Disk F
  pub services : V.State

abbrev pub is_host : SpiHost → Bool
is_host spi1_host = false
is_host spi2_host = true
is_host spi3_host = true

-- The tests on the path.
unfoldable pub check_path : List ℕ → Bool
check_path path =
    let len = length path in
    if (len == 0) || leb vfs_nand_base_path_max_len len
    then false
    else (if not (get_or path 0 0 == b'/') || (ltb 1 len && (get_or path (len - 1) 0 == b'/'))
        then false
        else true)

-- `max_files` is CONFIG_VFS_NAND_MAX_OPENED_FILES.
module _ {P : Platform} {F : Ftl P} (V : Services F) (gc_ratio max_files : ℕ) where
  abbrev pub VfsOp : Type 0 → Type 0
  VfsOp A = Op (Vfs V) EspErr A

  -- A service that may reach the disk.
  unfoldable pub with_disk :
      {R : Type 0} → (Disk F × V.State → R × (Disk F × V.State)) → Vfs V → R × Vfs V
  with_disk op v =
      let (r, (d, w)) = op (v.disk, v.services) in (r, record v { disk = d; services = w })

  unfoldable pub with_services : {R : Type 0} → (V.State → R × V.State) → Vfs V → R × Vfs V
  with_services op v = let (r, w) = op v.services in (r, record v { services = w })

  unfoldable pub with_diskio : {R : Type 0} → (Disk F → R × Disk F) → Vfs V → R × Vfs V
  with_diskio op v = let (r, d) = op v.disk in (r, record v { disk = d })

  -- `nand_mx35lf1_mounted(diskio_nand_get_handle())`
  abbrev pub driver_mounted : Vfs V → Bool
  driver_mounted v = nand_mx35lf1_mounted P valid v.disk.driver

  unfoldable pub vfs_nand_mounted : Vfs V → Bool
  vfs_nand_mounted v = v.registered && driver_mounted v

  abbrev pub mkfs_result : FResult → Result EspErr (Unit {0})
  mkfs_result fr_ok = ok tt
  mkfs_result _ = fail esp_fail

  unfoldable pub vfs_nand_format : VfsOp (Unit {0})
  vfs_nand_format v =
      if driver_mounted v
      then (let (allocated, v₁) = with_services V.malloc_workbuf v in
          if allocated
          then (let (res, v₂) = with_disk V.f_mkfs v₁ in
              (mkfs_result res, record v₂ { services = V.free_workbuf v₂.services }))
          else (fail esp_err_no_mem, v₁))
      else (fail esp_err_invalid_state, v)

  -- The arguments, in the order of their tests.
  unfoldable pub check_conf : VfsNandConf V.BusConfig → Vfs V → Result EspErr (List ℕ)
  check_conf conf v = elim conf.base_path [
    | none ↦ fail esp_err_invalid_arg
    | some path ↦
        if v.registered
        then fail esp_err_invalid_state
        else (if is_host conf.nand_conf.spi_host
            then (if check_path path then ok path else fail esp_err_invalid_arg)
            else fail esp_err_invalid_arg)
  ]

  -- Whether the bus was initialized here; a bus that is in use already is shared.
  abbrev bus_owner : Result EspErr (Unit {0}) → Result EspErr Bool
  bus_owner (ok _) = ok true
  bus_owner (fail esp_err_invalid_state) = ok false
  bus_owner (fail e) = fail e

  unfoldable pub init_bus : VfsNandConf V.BusConfig → VfsOp Bool
  init_bus conf v =
      if conf.init_spi_bus
      then (let (r, v') =
            with_services (V.spi_bus_initialize conf.nand_conf.spi_host conf.spi_bus) v in
          (bus_owner r, v'))
      else (ok false, v)

  -- `fail_bus:`
  unfoldable pub fail_bus : Bool → SpiHost → EspErr → VfsOp (Unit {0})
  fail_bus owns_bus host e v =
      let v' = if owns_bus then (with_services (V.spi_bus_free host) v).1 else v in
      (fail e, record v' { base_path = [] })

  -- `fail_diskio:`
  unfoldable pub fail_diskio : Bool → SpiHost → EspErr → VfsOp (Unit {0})
  fail_diskio owns_bus host e v =
      fail_bus owns_bus host e (with_diskio (diskio_nand_dhara_deinit F gc_ratio) v).1

  -- `fail_vfs:`
  unfoldable pub fail_vfs : Bool → SpiHost → EspErr → VfsOp (Unit {0})
  fail_vfs owns_bus host e v =
      fail_diskio owns_bus host e (with_disk (V.esp_vfs_fat_unregister_path v.base_path) v).1

  -- The second mount, after a format that succeeded.
  unfoldable pub remount : ℕ → Result EspErr (Unit {0}) → Vfs V → FResult × Vfs V
  remount fs (ok _) v = with_disk (V.f_mount fs) v
  remount fs (fail _) v = (fr_no_filesystem, v)

  -- The mount, with the format of a volume that has no file system where that is asked for.
  unfoldable pub mount_volume : ℕ → Bool → Vfs V → FResult × Vfs V
  mount_volume fs format v =
      let (fr, v₁) = with_disk (V.f_mount fs) v in
      elim fr [
        | fr_ok ↦ (fr_ok, v₁)
        | fr_error n ↦ (fr_error n, v₁)
        | fr_no_filesystem ↦
            if format
            then (let (ret, v₂) = vfs_nand_format v₁ in remount fs ret v₂)
            else (fr_no_filesystem, v₁)
      ]

  unfoldable pub mount_result : Bool → SpiHost → FResult → VfsOp (Unit {0})
  mount_result owns_bus host fr_ok v =
      (ok tt, record v { registered = true; owns_bus = owns_bus; spi_host = host })
  mount_result owns_bus host _ v = fail_vfs owns_bus host esp_fail v

  -- From the registration of the VFS on, with the disk up.
  unfoldable pub register_vfs : VfsNandConf V.BusConfig → Bool → VfsOp (Unit {0})
  register_vfs conf owns_bus v =
      let (r, v₁) = with_disk (V.esp_vfs_fat_register_cfg v.base_path max_files) v in
      elim r [
        | fail e ↦ fail_diskio owns_bus conf.nand_conf.spi_host e v₁
        | ok fs ↦
            let (fr, v₂) = mount_volume fs conf.format_if_mounted_failed v₁ in
            mount_result owns_bus conf.nand_conf.spi_host fr v₂
      ]

  -- From the disk on, with the bus up and the path stored.
  unfoldable pub register_disk : VfsNandConf V.BusConfig → Bool → VfsOp (Unit {0})
  register_disk conf owns_bus v =
      let (r, v₁) =
        with_diskio
          (diskio_nand_dhara_init F gc_ratio (some conf.nand_conf) conf.format_if_mounted_failed)
          v in
      elim r [
        | fail e ↦ fail_bus owns_bus conf.nand_conf.spi_host e v₁
        | ok _ ↦ register_vfs conf owns_bus v₁
      ]

  unfoldable pub vfs_nand_register : Option (VfsNandConf V.BusConfig) → VfsOp (Unit {0})
  vfs_nand_register none v = (fail esp_err_invalid_arg, v)
  vfs_nand_register (some conf) v = elim (check_conf conf v) [
    | fail e ↦ (fail e, v)
    | ok path ↦
        let (bus, v₁) = init_bus conf v in
        elim bus [
          | fail e ↦ (fail e, v₁)
          | ok owns_bus ↦
              register_disk conf owns_bus
                (record v₁ { base_path = take (vfs_nand_base_path_max_len - 1) path })
        ]
  ]

  unfoldable pub vfs_nand_unregister : Vfs V → Vfs V
  vfs_nand_unregister v =
      if v.registered
      then (let v₁ = (with_disk (V.esp_vfs_fat_unregister_path v.base_path) v).1 in
          let v₂ = (with_diskio (diskio_nand_dhara_deinit F gc_ratio) v₁).1 in
          let v₃ = if v₂.owns_bus then (with_services (V.spi_bus_free v₂.spi_host) v₂).1 else v₂ in
          record v₃ { owns_bus = false; registered = false; base_path = [] })
      else v

  -- The total and the used bytes, as `size_t` of 32 bits after a subtraction of 64.
  unfoldable pub vfs_nand_info : VfsOp (ℕ × ℕ)
  vfs_nand_info v =
      if v.registered
      then (let (r, v') = with_disk (V.esp_vfs_fat_info v.base_path) v in
          elim r [
            | fail e ↦ (fail e, v')
            | ok (total, free) ↦
                (ok (total % 2 ^ 32, ((total + 2 ^ 64 - free) % 2 ^ 64) % 2 ^ 32), v')
          ])
      else (fail esp_err_invalid_state, v)
