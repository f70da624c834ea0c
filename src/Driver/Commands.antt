-- ===== src/Driver/Commands.antt =====
-- The command sequences of src/mx35lf1_driver.c that run with the mutex held, and the reset and
-- identification of the chip.
use nand_vfs_mx35lf.Base.{
  ℕ, ◌+◌, Bool, true, ◌||◌, not, Option, none, some, List, [], ◌∷◌, ◌++◌, ◌==◌, if◌then◌else◌,
  get_or, take, drop, overwrite, pure, throw, relabel, modify, gets, return_code, ◌>>=◌, ◌>>◌,
}
use nand_vfs_mx35lf.Driver.Types.{
  bad_spi, device_id, p_fail, e_fail, Block, Platform, Driver, DriverOp, cmd_reset, cmd_read_id,
  cmd_prog_load, cmd_prog_execute, cmd_page_read, cmd_read_cache_x1, cmd_block_erase,
  nand_manufacturer_id, nand_device_id, nand_op_timeout, nand_page_size,
}
use nand_vfs_mx35lf.Driver.Address.{row_bytes, column_bytes, nand_row_addr}
use nand_vfs_mx35lf.Driver.Spi.{
  p_fail_bit, e_fail_bit, get_ret_from_ecc_status, spi_xfer, spi_write, wait_ready,
}

-- What the buffer that a pointer leads to holds.
abbrev pub contents : Option Block → List ℕ
contents none = []
contents (some b) = b.bytes

-- Bytes copied to the start of a buffer.
abbrev pub fill : List ℕ → Option Block → Option Block
fill xs none = none
fill xs (some b) = some (record b { bytes = overwrite xs b.bytes })

module _ (P : Platform) where
  unfoldable pub nand_reset : DriverOp P (Unit {0})
  nand_reset = do spi_write P (cmd_reset ∷ []); wait_ready P nand_op_timeout; pure tt

  -- Gives the manufacturer and the device.
  unfoldable pub nand_read_id : DriverOp P (ℕ × ℕ)
  nand_read_id = do
    rx_data ← relabel bad_spi (spi_xfer P (cmd_read_id ∷ 0 ∷ 0 ∷ 0 ∷ []) true)
    let manufacturer = get_or rx_data 2 0
    let device = get_or rx_data 3 0
    if not (manufacturer == nand_manufacturer_id) || not (device == nand_device_id)
        then throw device_id
        else pure (manufacturer, device)

  -- `tx_buf` with the bytes at its start.
  unfoldable pub load_tx : List ℕ → Driver P → Driver P
  load_tx xs s = record s { handle = record (s.handle) { tx_buf = fill xs s.handle.tx_buf } }

  unfoldable pub load_rx : List ℕ → Driver P → Driver P
  load_rx xs s = record s { handle = record (s.handle) { rx_buf = fill xs s.handle.rx_buf } }

  unfoldable pub program_load : ℕ → List ℕ → ℕ → DriverOp P (Unit {0})
  program_load column data_in write_len = do
    modify (load_tx (cmd_prog_load ∷ column_bytes column ++ take write_len data_in))
    tx ← gets (λ s. contents s.handle.tx_buf)
    relabel bad_spi (spi_write P (take (3 + write_len) tx))

  unfoldable pub program_execute : ℕ → DriverOp P (Unit {0})
  program_execute row = do
    spi_write P (cmd_prog_execute ∷ row_bytes row)
    status ← wait_ready P nand_op_timeout
    if p_fail_bit status == 0 then pure tt else throw p_fail

  unfoldable pub page_read : ℕ → DriverOp P (Unit {0})
  page_read row = do
    spi_write P (cmd_page_read ∷ row_bytes row)
    status ← wait_ready P nand_op_timeout
    return_code (get_ret_from_ecc_status status)

  unfoldable pub read_from_cache_raw : ℕ → ℕ → DriverOp P (Unit {0})
  read_from_cache_raw column read_len = do
    modify (load_tx (cmd_read_cache_x1 ∷ column_bytes column ++ (0 ∷ [])))
    tx ← gets (λ s. contents s.handle.tx_buf)
    rx ← spi_xfer P (take (4 + read_len) tx) true
    modify (load_rx rx)

  unfoldable pub read_from_cache : ℕ → ℕ → DriverOp P (List ℕ)
  read_from_cache column read_len = do
    read_from_cache_raw column read_len
    gets (λ s. take read_len (drop 4 (contents s.handle.rx_buf)))

  unfoldable pub block_erase : ℕ → DriverOp P (Unit {0})
  block_erase row = do
    spi_write P (cmd_block_erase ∷ row_bytes row)
    status ← wait_ready P nand_op_timeout
    if e_fail_bit status == 0 then pure tt else throw e_fail

  unfoldable pub do_page_read : ℕ → ℕ → ℕ → DriverOp P (List ℕ)
  do_page_read row column read_len = do page_read row; read_from_cache column read_len

  unfoldable pub read_bad_marker : ℕ → DriverOp P Bool
  read_bad_marker block = do
    mark ← do_page_read (nand_row_addr block 0) nand_page_size 2
    pure ((get_or mark 0 0 == 0) || (get_or mark 1 0 == 0))
