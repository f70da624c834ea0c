-- ===== src/Driver/Calls.antt =====
-- The page and block functions of include/mx35lf1_driver.h as calls on an open handle, and what
-- each leaves as it was.
pub mod Parts
pub mod Rows
pub mod Targets
pub mod Device
use nand_vfs_mx35lf.Base.{
  ℕ, zero, suc, ◌+◌, ◌≡◌, refl, ◌∙◌, Bool, true, false, Option, none, some, List, Result, ok, fail,
  pure, ◌>>=◌, ◌>>◌, attempt, Keeps, IsPreorder, bind-Keeps, if-Keeps, pure-Keeps, throw-Keeps,
  gets-Keeps, modify-Keeps, guard-Keeps, attempt-Keeps, return_code-Keeps, arith,
}
use nand_vfs_mx35lf.Driver.Types.{
  NandErr, Ptr, null, valid, NandInfo, Block, Platform, Driver, DriverOp,
}
use nand_vfs_mx35lf.Driver.Api.{
  nand_check_arg, nand_check_handle, nand_lock, nand_unlock, locked, write_session,
  nand_mx35lf1_page_program, nand_mx35lf1_page_read, nand_mx35lf1_page_copy,
  nand_mx35lf1_block_erase, nand_mx35lf1_block_is_bad, nand_mx35lf1_block_mark_bad,
  nand_mx35lf1_page_is_free, clear_block, malloc_page, scan_page, clear_marked, Tally, clear_loop,
  nand_mx35lf1_clear,
}
use nand_vfs_mx35lf.Driver.Spi.{write_enable}
use nand_vfs_mx35lf.Driver.Commands
use nand_vfs_mx35lf.Driver.Commands.{
  program_load, program_execute, read_from_cache, do_page_read, read_bad_marker,
}

-- A call of the interface, with its arguments.
pub data Call : Type 0 where
  page_program : Ptr → ℕ → ℕ → Option (List ℕ) → ℕ → Call
  page_read : Ptr → ℕ → ℕ → Ptr → ℕ → Call
  page_copy : Ptr → ℕ → ℕ → Call
  block_erase : Ptr → ℕ → Call
  block_is_bad : Ptr → ℕ → Ptr → Call
  block_mark_bad : Ptr → ℕ → Call
  page_is_free : Ptr → ℕ → Ptr → Call
  clear : Ptr → Call

-- The state in which the call returns.
unfoldable pub after_call : (P : Platform) → Call → Driver P → Driver P
after_call P (page_program h row column bytes len) s =
    (nand_mx35lf1_page_program P h row column bytes len s).1
after_call P (page_read h row column out len) s =
    (nand_mx35lf1_page_read P h row column out len s).1
after_call P (page_copy h src dst) s = (nand_mx35lf1_page_copy P h src dst s).1
after_call P (block_erase h row) s = (nand_mx35lf1_block_erase P h row s).1
after_call P (block_is_bad h row out) s = (nand_mx35lf1_block_is_bad P h row out s).1
after_call P (block_mark_bad h row) s = (nand_mx35lf1_block_mark_bad P h row s).1
after_call P (page_is_free h row out) s = (nand_mx35lf1_page_is_free P h row out s).1
after_call P (clear h) s = (nand_mx35lf1_clear P h s).1

-- A relation that the parts of the calls which write nothing respect: a page read into the chip's
-- register, a transfer out of it, a pair of NAND_LOCK and NAND_UNLOCK, and the temporary buffer.
pub record IsShared (P : Platform) (R : Driver P → Driver P → Type 0) : Type 0 where
  pub preorder : IsPreorder R
  pub pages : (row : ℕ) → Keeps R (Commands.page_read P row)
  pub caches : (column len : ℕ) → Keeps R (read_from_cache P column len)
  pub unlocks : (s t : Driver P) → R (nand_lock P s) t → R s (nand_unlock P t)
  pub mallocs : (n : ℕ) (s : Driver P) → R s (record s { world = (P.malloc n s.world).1 })
  pub frees : (b : Block) (s : Driver P) → R s (record s { world = P.free b s.world })

-- The three kinds of write session.
abbrev pub program_session : (P : Platform) → ℕ → ℕ → List ℕ → ℕ → DriverOp P (Unit {0})
program_session P row column bytes len =
    write_session P (write_enable P >> (program_load P column bytes len >> program_execute P row))

abbrev pub copy_session : (P : Platform) → ℕ → DriverOp P (Unit {0})
copy_session P row = write_session P (write_enable P >> program_execute P row)

abbrev pub erase_session : (P : Platform) → ℕ → DriverOp P (Unit {0})
erase_session P row = write_session P (write_enable P >> Commands.block_erase P row)

-- A relation that every part of the calls respects.
pub record IsGuarded (P : Platform) (R : Driver P → Driver P → Type 0) : Type 0 where
  pub shared : IsShared P R
  pub programs :
      (row column : ℕ) (bytes : List ℕ) (len : ℕ) → Keeps R (program_session P row column bytes len)
  pub copies : (row : ℕ) → Keeps R (copy_session P row)
  pub erases : (row : ℕ) → Keeps R (erase_session P row)
