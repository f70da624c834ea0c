-- ===== src/Disk.antt =====
-- The FatFs disk driver: src/nand_diskio.c over include/nand_diskio.h. The translation layer of
-- src/dhara is a library of its own, and a parameter here.
pub mod Calls
pub mod Lifecycle
pub mod Trim
pub mod Store
pub mod Resume
use nand_vfs_mx35lf.Base.{
  ℕ, zero, suc, ◌+◌, ◌-◌, ◌%◌, ◌^◌, Bool, true, false, ◌&&◌, not, Option, none, some, List, [], ◌∷◌,
  ◌++◌, Result, ok, fail, leb, ◌==◌, if◌then◌else◌, take, drop, Op, attempt,
}
use nand_vfs_mx35lf.Driver.Types.{
  valid, NandErr, NandConfig, Platform, Driver, nand_page_size, nand_pages_per_block,
  nand_blocks_per_lun,
}
use nand_vfs_mx35lf.Driver.Lifecycle.{nand_mx35lf1_init, nand_mx35lf1_deinit}
use nand_vfs_mx35lf.Hal.{DharaError, e_none, e_too_bad}

-- `struct dhara_nand`
pub record Geometry : Type 0 where
  pub log2_page_size : ℕ
  pub log2_ppb : ℕ
  pub num_blocks : ℕ

-- The functions of src/dhara/dhara/map.h that the disk driver calls. They work on the map and,
-- through the hooks of src/dhara/dhara/nand.c, on the driver. An error is the value that the
-- caller's error variable, set to DHARA_E_NONE before, holds after a return of -1.
pub record Ftl (P : Platform) : Type 1 where
  pub Map : Type 0
  pub map_init : Geometry → (gc_ratio : ℕ) → Map → Map
  pub map_resume : Op (Map × Driver P) DharaError (Unit {0})
  pub map_clear : Map × Driver P → Map × Driver P
  pub map_capacity : Map → ℕ
  pub map_read : ℕ → Op (Map × Driver P) DharaError (List ℕ)
  pub map_write : ℕ → List ℕ → Op (Map × Driver P) DharaError (Unit {0})
  pub map_trim : ℕ → Op (Map × Driver P) DharaError (Unit {0})
  pub map_sync : Op (Map × Driver P) DharaError (Unit {0})

-- `diskio_nand_ctx_t`, and whether `dhara_diskio_impl` is registered with FatFs for drive 0.
-- `dhara_buffer` belongs to the map.
pub record Disk {P : Platform} (F : Ftl P) : Type 0 where
  pub map : F.Map
  pub nand : Geometry
  pub driver : Driver P
  pub config : NandConfig
  pub reset_on_corrupt : Bool
  pub in_use : Bool
  pub ready : Bool
  pub registered : Bool

-- `DSTATUS`: 0, STA_NOINIT, STA_NODISK
pub data DStatus : Type 0 where
  initialized sta_noinit sta_nodisk : DStatus

-- The `DRESULT` values other than RES_OK that the driver returns.
pub data DError : Type 0 where
  res_error res_parerr : DError

-- `esp_err_t` without ESP_OK.
pub data EspErr : Type 0 where
  esp_fail esp_err_no_mem esp_err_invalid_arg esp_err_invalid_state : EspErr
  esp_err : ℕ → EspErr

-- The commands of `disk_ioctl_dhara`; CTRL_TRIM carries the two sectors that its buffer holds.
pub data IoctlCommand : Type 0 where
  ctrl_sync get_sector_count get_sector_size get_block_size : IoctlCommand
  ctrl_trim : (start end : ℕ) → IoctlCommand
  other : ℕ → IoctlCommand

abbrev pub pdrv_nand_ftl : ℕ
pdrv_nand_ftl = 0

abbrev pub nand_geometry : Geometry
nand_geometry = record { log2_page_size = 11; log2_ppb = 6; num_blocks = nand_blocks_per_lun }

-- `gc_ratio` is CONFIG_DHARA_GARBAGE_COLLECTOR_RATIO.
module _ {P : Platform} (F : Ftl P) (gc_ratio : ℕ) where
  -- Whether `get_ctx` finds a context.
  abbrev pub get_ctx : ℕ → Bool
  get_ctx pdrv = pdrv == pdrv_nand_ftl

  -- A call of the translation layer on the context's map and driver.
  unfoldable pub with_map :
      {A : Type 0} → Op (F.Map × Driver P) DharaError A → Op (Disk F) DharaError A
  with_map op d = let (r, (m, s)) = op (d.map, d.driver) in (r, record d { map = m; driver = s })

  unfoldable pub clear_map : Disk F → Disk F
  clear_map d = let (m, s) = F.map_clear (d.map, d.driver) in record d { map = m; driver = s }

  -- What is done about the outcome of `dhara_map_resume`.
  unfoldable pub resumed : Result DharaError (Unit {0}) → Disk F → DStatus × Disk F
  resumed (ok _) d = (initialized, record d { ready = true })
  resumed (fail e_too_bad) d = (initialized, record (clear_map d) { ready = true })
  resumed (fail _) d =
      if d.reset_on_corrupt
      then (initialized, record (clear_map d) { ready = true })
      else (sta_noinit, record d { driver = (nand_mx35lf1_deinit P valid d.driver).1 })

  -- The steps after a driver initialization that gave `ret`.
  unfoldable pub start_map : Result NandErr (Unit {0}) → Disk F → DStatus × Disk F
  start_map (fail _) d = (sta_noinit, d)
  start_map (ok _) d =
      let d₁ = record d { nand = nand_geometry; map = F.map_init nand_geometry gc_ratio d.map } in
      let (r, d₂) = with_map F.map_resume d₁ in resumed r d₂

  unfoldable pub disk_initialize_dhara : ℕ → Disk F → DStatus × Disk F
  disk_initialize_dhara pdrv d =
      if get_ctx pdrv && d.in_use
      then (if d.ready
          then (initialized, d)
          else (let (ret, s) = nand_mx35lf1_init P valid (some d.config) d.driver in
              start_map ret (record d { driver = s })))
      else (sta_nodisk, d)

  unfoldable pub disk_status_dhara : ℕ → Disk F → DStatus
  disk_status_dhara pdrv d =
      if get_ctx pdrv && d.in_use then (if d.ready then initialized else sta_noinit) else sta_nodisk

  -- `!ctx || !ctx->in_use || !ctx->ready`, negated.
  unfoldable pub available : ℕ → Disk F → Bool
  available pdrv d = get_ctx pdrv && d.in_use && d.ready

  -- The rounds that are left; the pages read so far come first. What an error leaves in the
  -- buffer is not returned.
  unfoldable pub read_loop : (count sector : ℕ) → List ℕ → Op (Disk F) DError (List ℕ)
  read_loop zero sector buff d = (ok buff, d)
  read_loop (suc count) sector buff d =
      let (r, d') = with_map (F.map_read sector) d in
      elim r [
        | fail _ ↦ (fail res_error, d')
        | ok page ↦ read_loop count ((sector + 1) % 2 ^ 32) (buff ++ page) d'
      ]

  unfoldable pub disk_read_dhara : (pdrv sector count : ℕ) → Op (Disk F) DError (List ℕ)
  disk_read_dhara pdrv sector count d =
      if available pdrv d then read_loop count sector [] d else (fail res_parerr, d)

  unfoldable pub write_loop : (count sector : ℕ) → List ℕ → Op (Disk F) DError (Unit {0})
  write_loop zero sector buff d = (ok tt, d)
  write_loop (suc count) sector buff d =
      let (r, d') = with_map (F.map_write sector (take nand_page_size buff)) d in
      elim r [
        | fail _ ↦ (fail res_error, d')
        | ok _ ↦ write_loop count ((sector + 1) % 2 ^ 32) (drop nand_page_size buff) d'
      ]

  unfoldable pub disk_write_dhara :
      (pdrv : ℕ) → List ℕ → (sector count : ℕ) → Op (Disk F) DError (Unit {0})
  disk_write_dhara pdrv buff sector count d =
      if available pdrv d then write_loop count sector buff d else (fail res_parerr, d)

  -- The loop of CTRL_TRIM over 32-bit sector numbers; `none` means that it has not ended within
  -- the rounds.
  unfoldable pub trim_loop :
      (rounds start end : ℕ) → Disk F → Option (Result DError (Unit {0}) × Disk F)
  trim_loop zero start end d = none
  trim_loop (suc rounds) start end d =
      let (r, d') = with_map (F.map_trim start) d in
      let rest = trim_loop rounds ((start + 1) % 2 ^ 32) end d' in
      if leb start end
      then elim r [ fail _ ↦ some (fail res_error, d') | ok _ ↦ rest ]
      else some (ok tt, d)

  -- The rounds of the loop up to its last test.
  abbrev pub trim_rounds : ℕ → ℕ → ℕ
  trim_rounds start end = suc (end + 1 - start)

  abbrev pub no_value : Result DError (Unit {0}) × Disk F → Result DError (Option ℕ) × Disk F
  no_value (ok _, d) = (ok none, d)
  no_value (fail e, d) = (fail e, d)

  abbrev sync_result : {E : Type 0} → Result E (Unit {0}) → Result DError (Option ℕ)
  sync_result (ok _) = ok none
  sync_result (fail _) = fail res_error

  -- The command on a context that is ready: the code, and the value stored in the buffer.
  unfoldable pub run_ioctl : IoctlCommand → Disk F → Option (Result DError (Option ℕ) × Disk F)
  run_ioctl ctrl_sync d = let (r, d') = with_map F.map_sync d in some (sync_result r, d')
  run_ioctl get_sector_count d = some (ok (some (F.map_capacity d.map)), d)
  run_ioctl get_sector_size d = some (ok (some nand_page_size), d)
  run_ioctl get_block_size d = some (ok (some nand_pages_per_block), d)
  run_ioctl (ctrl_trim start end) d = elim (trim_loop (trim_rounds start end) start end d) [
    | none ↦ none
    | some r ↦ some (no_value r)
  ]
  run_ioctl (other _) d = some (fail res_parerr, d)

  unfoldable pub disk_ioctl_dhara :
      ℕ → IoctlCommand → Disk F → Option (Result DError (Option ℕ) × Disk F)
  disk_ioctl_dhara pdrv cmd d =
      if available pdrv d then run_ioctl cmd d else some (fail res_parerr, d)

  -- What `diskio_nand_dhara_init` returns for the status of the drive.
  unfoldable pub finish_init : DStatus → Op (Disk F) EspErr (Unit {0})
  finish_init initialized d = (ok tt, d)
  finish_init _ d = (fail esp_fail, record d { registered = false; in_use = false })

  unfoldable pub diskio_nand_dhara_init : Option NandConfig → Bool → Op (Disk F) EspErr (Unit {0})
  diskio_nand_dhara_init none reset_on_corrupt d = (fail esp_err_invalid_arg, d)
  diskio_nand_dhara_init (some cfg) reset_on_corrupt d =
      if d.in_use
      then (fail esp_err_invalid_state, d)
      else (let d₁ = record d {
        config = cfg;
        reset_on_corrupt = reset_on_corrupt;
        ready = false;
        in_use = true;
        registered = true;
      } in
          let (status, d₂) = disk_initialize_dhara pdrv_nand_ftl d₁ in finish_init status d₂)

  -- The sync and the release of a drive that is ready.
  unfoldable pub stop_map : Disk F → Result EspErr (Unit {0}) × Disk F
  stop_map d =
      let (r, d') = with_map F.map_sync d in
      (
        elim r [ ok _ ↦ ok tt | fail _ ↦ fail esp_fail ],
        record d' { ready = false; driver = (nand_mx35lf1_deinit P valid d'.driver).1 },
      )

  unfoldable pub diskio_nand_dhara_deinit : Op (Disk F) EspErr (Unit {0})
  diskio_nand_dhara_deinit d =
      if d.in_use
      then (let (result, d') : Result EspErr (Unit {0}) × Disk F =
            if d.ready then stop_map d else (ok tt, d) in
          (result, record d' { registered = false; in_use = false }))
      else (fail esp_err_invalid_state, d)
