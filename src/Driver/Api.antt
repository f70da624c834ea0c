-- ===== src/Driver/Api.antt =====
-- The page and block functions of include/mx35lf1_driver.h. A pointer argument is given by whether
-- it is NULL; what the C code stores through an out pointer is the value of the result.
use nand_vfs_mx35lf.Base.{
  ℕ, zero, suc, ◌+◌, Bool, true, false, ◌&&◌, Option, none, some, List, [], ◌∷◌, Result, ok, fail,
  ◌==◌, if◌then◌else◌, pure, throw, return_code, attempt, gets, guard, modify, ◌>>=◌, ◌>>◌,
}
use nand_vfs_mx35lf.Driver.Types.{
  NandErr, bad_address, invalid_len, invalid_arg, Ptr, null, valid, NandInfo, Block, Platform,
  Driver, DriverOp, nand_page_size, nand_page_full_size, nand_blocks_per_lun,
}
use nand_vfs_mx35lf.Driver.Address.{
  nand_row_addr, row_block, row_first_page, validate_row_address, validate_column_address,
  validate_length,
}
use nand_vfs_mx35lf.Driver.Spi.{write_enable, write_begin, write_end}
use nand_vfs_mx35lf.Driver.Commands.{
  program_load, program_execute, page_read, block_erase, do_page_read, read_bad_marker,
}

-- The words of four bytes are compared with 0xffffffff; the fuel is the number of words.
unfoldable pub words_blank : ℕ → List ℕ → Bool
words_blank zero bytes = true
words_blank (suc words) (a ∷ b ∷ c ∷ d ∷ bytes) =
    let rest = words_blank words bytes in
    if (a == 255) && (b == 255) && (c == 255) && (d == 255) then rest else false
words_blank (suc words) _ = false

-- `result` and `failed` of `nand_mx35lf1_clear`.
pub record Tally : Type 0 where
  pub result : Result NandErr (Unit {0})
  pub failed : ℕ

-- `failed++; result = ret;` after an error.
unfoldable pub count_failure : Result NandErr (Unit {0}) → Tally → Tally
count_failure (ok _) t = t
count_failure (fail e) t = record { result = fail e; failed = t.failed + 1 }

module _ (P : Platform) where
  -- NAND_CHECK_ARG
  unfoldable pub nand_check_arg : Ptr → DriverOp P (Unit {0})
  nand_check_arg null = throw invalid_arg
  nand_check_arg valid = pure tt

  -- NAND_CHECK_HANDLE
  unfoldable pub nand_check_handle : DriverOp P (Unit {0})
  nand_check_handle = do guard (← gets (λ s. s.handle.initialized)) invalid_arg

  -- NAND_LOCK and NAND_UNLOCK
  unfoldable pub nand_lock : Driver P → Driver P
  nand_lock s = record s {
    held = s.held + 1;
    world = elim s.handle.lock [ none ↦ s.world | some m ↦ P.take_mutex m s.world ];
  }

  unfoldable pub nand_unlock : Driver P → Driver P
  nand_unlock s = record s {
    held = Prim.Native.Nat.pred s.held;
    world = elim s.handle.lock [ none ↦ s.world | some m ↦ P.give_mutex m s.world ];
  }

  -- A call made between NAND_LOCK and NAND_UNLOCK, whose code is returned.
  unfoldable pub locked : {A : Type 0} → DriverOp P A → DriverOp P A
  locked op s = let (ret, s') = op (nand_lock s) in (ret, nand_unlock s')

  -- From `write_begin` to `write_end`, round the commands of a write.
  unfoldable pub write_session : DriverOp P (Unit {0}) → DriverOp P (Unit {0})
  write_session op = do write_begin P; ret ← attempt op; write_end P ret

  unfoldable pub nand_mx35lf1_page_program :
      Ptr → ℕ → ℕ → Option (List ℕ) → ℕ → DriverOp P (Unit {0})
  nand_mx35lf1_page_program h row column none write_len = do
    nand_check_arg h
    nand_check_handle
    throw invalid_arg
  nand_mx35lf1_page_program h row column (some data_in) write_len = do
    nand_check_arg h
    nand_check_handle
    guard (validate_row_address row && validate_column_address column) bad_address
    guard (validate_length column write_len) invalid_len
    locked (
        write_session
          (do write_enable P; program_load P column data_in write_len; program_execute P row))

  unfoldable pub nand_mx35lf1_page_read : Ptr → ℕ → ℕ → Ptr → ℕ → DriverOp P (List ℕ)
  nand_mx35lf1_page_read h row column data_out read_len = do
    nand_check_arg h
    nand_check_handle
    nand_check_arg data_out
    guard (validate_row_address row && validate_column_address column) bad_address
    guard (validate_length column read_len) invalid_len
    locked (do_page_read P row column read_len)

  unfoldable pub nand_mx35lf1_page_copy : Ptr → ℕ → ℕ → DriverOp P (Unit {0})
  nand_mx35lf1_page_copy h src dst = do
    nand_check_arg h
    nand_check_handle
    guard (validate_row_address src && validate_row_address dst) bad_address
    locked (do page_read P src; write_session (do write_enable P; program_execute P dst))

  unfoldable pub nand_mx35lf1_block_erase : Ptr → ℕ → DriverOp P (Unit {0})
  nand_mx35lf1_block_erase h row = do
    nand_check_arg h
    nand_check_handle
    let row' = row_first_page row
    guard (validate_row_address row') bad_address
    locked (write_session (do write_enable P; block_erase P row'))

  unfoldable pub nand_mx35lf1_block_is_bad : Ptr → ℕ → Ptr → DriverOp P Bool
  nand_mx35lf1_block_is_bad h row is_bad = do
    nand_check_arg h
    nand_check_handle
    nand_check_arg is_bad
    guard (validate_row_address row) bad_address
    locked (read_bad_marker P (row_block row))

  unfoldable pub nand_mx35lf1_block_mark_bad : Ptr → ℕ → DriverOp P (Unit {0})
  nand_mx35lf1_block_mark_bad h row = do
    nand_check_arg h
    nand_check_handle
    guard (validate_row_address row) bad_address
    nand_mx35lf1_page_program h (row_first_page row) nand_page_size (some (0 ∷ 0 ∷ [])) 2

  -- `malloc(NAND_PAGE_FULL_SIZE)`
  unfoldable pub malloc_page : DriverOp P (Option Block)
  malloc_page s =
      let (m, w) = P.malloc nand_page_full_size s.world in (ok m, record s { world = w })

  -- The scan of the page with the buffer, which is freed on both paths.
  unfoldable pub scan_page : Ptr → ℕ → Option Block → DriverOp P Bool
  scan_page h row none = throw invalid_arg
  scan_page h row (some buffer) = locked (do
    ret ← attempt (nand_mx35lf1_page_read h row 0 valid nand_page_full_size)
    modify (λ s. record s { world = P.free buffer s.world })
    bytes ← return_code ret
    pure (words_blank 528 bytes))

  unfoldable pub nand_mx35lf1_page_is_free : Ptr → ℕ → Ptr → DriverOp P Bool
  nand_mx35lf1_page_is_free h row is_free = do
    nand_check_arg h
    nand_check_handle
    nand_check_arg is_free
    guard (validate_row_address row) bad_address
    buffer ← malloc_page
    scan_page h row buffer

  -- The erase of block `i` in the loop of `nand_mx35lf1_clear`, if it was read as good.
  unfoldable pub clear_marked : Ptr → ℕ → Tally → Result NandErr Bool → DriverOp P Tally
  clear_marked h i t (fail e) = pure (count_failure (fail e) t)
  clear_marked h i t (ok true) = pure t
  clear_marked h i t (ok false) = do
    ret ← attempt (nand_mx35lf1_block_erase h (nand_row_addr i 0))
    pure (count_failure ret t)

  -- One round of the loop.
  unfoldable pub clear_block : Ptr → ℕ → Tally → DriverOp P Tally
  clear_block h i t = do
    marked ← attempt (nand_mx35lf1_block_is_bad h (nand_row_addr i 0) valid)
    clear_marked h i t marked

  -- The rounds that are left, from block `i`.
  unfoldable pub clear_loop : Ptr → ℕ → ℕ → Tally → DriverOp P Tally
  clear_loop h zero i t = pure t
  clear_loop h (suc rounds) i t = do t' ← clear_block h i t; clear_loop h rounds (i + 1) t'

  unfoldable pub nand_mx35lf1_clear : Ptr → DriverOp P (Unit {0})
  nand_mx35lf1_clear h = do
    nand_check_arg h
    nand_check_handle
    t ← clear_loop h nand_blocks_per_lun 0 (record { result = ok tt; failed = 0 })
    return_code t.result

  unfoldable pub nand_mx35lf1_mounted : Ptr → Driver P → Bool
  nand_mx35lf1_mounted null s = false
  nand_mx35lf1_mounted valid s = s.handle.initialized

  unfoldable pub nand_mx35lf1_get_info : Ptr → Ptr → DriverOp P NandInfo
  nand_mx35lf1_get_info h info_out = do
    nand_check_arg h
    nand_check_arg info_out
    gets (λ s. s.handle.info)
