-- ===== src/Driver/Lifecycle.antt =====
-- `nand_mx35lf1_init`, `nand_mx35lf1_deinit` and the release of the driver's resources, of
-- src/mx35lf1_driver.c.
pub mod Laws
pub mod Rule
pub mod Quiet
pub mod Opened
use nand_vfs_mx35lf.Base.{
  ℕ, Bool, true, false, not, Option, none, some, ok, fail, if◌then◌else◌, replicate, throw, gets,
  guard, modify, ◌>>=◌, ◌>>◌,
}
use nand_vfs_mx35lf.Driver.Types.{
  invalid_arg, no_mem, bad_spi, Ptr, NandConfig, NandInfo, Block, NandHandle, zero_handle, Platform,
  Driver, DriverOp, nand_page_size, nand_spare_size, nand_pages_per_block, nand_blocks_per_lun,
  nand_spi_max_transfer, nand_timeout_reset_ms,
}
use nand_vfs_mx35lf.Driver.Spi.{unlock_all_blocks, nand_write_protect, configure_ecc}
use nand_vfs_mx35lf.Driver.Commands.{nand_reset, nand_read_id}
use nand_vfs_mx35lf.Driver.Api.{nand_check_arg, nand_check_handle, nand_lock, nand_unlock}

module _ (P : Platform) where
  -- `heap_caps_free`, which accepts NULL.
  abbrev pub heap_caps_free : Option Block → P.State → P.State
  heap_caps_free none w = w
  heap_caps_free (some b) w = P.free b w

  -- `if (h->spi) spi_bus_remove_device(h->spi);`
  abbrev pub remove_spi : Option ℕ → P.State → P.State
  remove_spi none w = w
  remove_spi (some d) w = P.remove_device d w

  abbrev pub delete_lock : Option ℕ → P.State → P.State
  delete_lock none w = w
  delete_lock (some m) w = P.delete_mutex m w

  unfoldable pub release_resources : Driver P → Driver P
  release_resources s =
      let w₁ = remove_spi s.handle.spi s.world in
      let w₂ = heap_caps_free s.handle.tx_buf w₁ in
      let w₃ = heap_caps_free s.handle.rx_buf w₂ in
      record s { handle = zero_handle; world = delete_lock s.handle.lock w₃ }

  -- The three allocations, in the zeroed handle.
  unfoldable pub allocate : Driver P → Driver P
  allocate s =
      let (lock, w₁) = P.create_mutex s.world in
      let (tx, w₂) = P.malloc nand_spi_max_transfer w₁ in
      let (rx, w₃) = P.malloc nand_spi_max_transfer w₂ in
      record s { handle = record zero_handle { lock = lock; tx_buf = tx; rx_buf = rx }; world = w₃ }

  abbrev pub present {ℓ} : {A : Type ℓ} → Option A → Bool
  present none = false
  present (some _) = true

  -- `h->lock && h->tx_buf && h->rx_buf`
  abbrev pub allocated : NandHandle → Bool
  allocated h =
      if present h.lock then (if present h.tx_buf then present h.rx_buf else false) else false

  -- `memset(h->tx_buf, 0xFF, NAND_SPI_MAX_TRANSFER)`
  abbrev pub blank : Option Block → Option Block
  blank none = none
  blank (some b) = some (record b { bytes = replicate nand_spi_max_transfer 255 })

  unfoldable pub blank_tx : Driver P → Driver P
  blank_tx s = record s { handle = record (s.handle) { tx_buf = blank s.handle.tx_buf } }

  -- `vTaskDelay(pdMS_TO_TICKS(ms))`
  unfoldable pub settle : ℕ → DriverOp P (Unit {0})
  settle ms = modify (λ s. record s { world = P.task_delay (P.ms_to_ticks ms) s.world })

  -- The device information of a chip that answered with these numbers.
  abbrev pub device_info : NandConfig → ℕ → ℕ → NandInfo
  device_info cfg manufacturer device = record {
    manufacturer_id = manufacturer;
    device_id = device;
    total_blocks = nand_blocks_per_lun;
    pages_per_block = nand_pages_per_block;
    page_size = nand_page_size;
    spare_size = nand_spare_size;
    ecc_enabled = not cfg.disable_ecc;
  }

  -- What follows once the device is on the bus; an error here goes to `fail:`.
  unfoldable pub bring_up : NandConfig → DriverOp P (Unit {0})
  bring_up cfg = do
    settle nand_timeout_reset_ms
    nand_reset P
    settle nand_timeout_reset_ms
    (manufacturer, device) ← nand_read_id P
    (if P.protected_mode then nand_write_protect P else unlock_all_blocks P)
    configure_ecc P (not cfg.disable_ecc)
    modify (λ s. record s {
      handle = record (s.handle) { info = device_info cfg manufacturer device; initialized = true };
    })

  -- The device on the bus, its bring-up, and the release after an error.
  unfoldable pub attach : NandConfig → DriverOp P (Unit {0})
  attach cfg s =
      let (device, w) = P.add_device cfg s.world in
      elim device [
        | none ↦ (fail bad_spi, release_resources (record s { world = w }))
        | some d ↦
            let (ret, s') =
              bring_up cfg (record s { handle = record (s.handle) { spi = some d }; world = w }) in
            elim ret [ ok _ ↦ (ok tt, s') | fail e ↦ (fail e, release_resources s') ]
      ]

  unfoldable pub nand_mx35lf1_init : Ptr → Option NandConfig → DriverOp P (Unit {0})
  nand_mx35lf1_init h none = do nand_check_arg P h; throw invalid_arg
  nand_mx35lf1_init h (some cfg) = do
    nand_check_arg P h
    guard (not (← gets (λ s. s.handle.initialized))) invalid_arg
    λ s.
        let s' = allocate s in
        if allocated s'.handle
        then attach cfg (blank_tx s')
        else (fail no_mem, release_resources s')

  unfoldable pub nand_mx35lf1_deinit : Ptr → DriverOp P (Unit {0})
  nand_mx35lf1_deinit h = do
    nand_check_arg P h
    nand_check_handle P
    modify (λ s.
        let s' = nand_lock P s in
        let s'' = record s' { handle = record (s'.handle) { initialized = false } } in
        release_resources (nand_unlock P s''))
