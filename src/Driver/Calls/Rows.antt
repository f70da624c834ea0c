-- ===== src/Driver/Calls/Rows.antt =====
-- What the calls of include/mx35lf1_driver.h can do to the rows of a chip that may fail any command.

use nand_vfs_mx35lf.Base.{
  ℕ, zero, suc, ◌+◌, ◌<◌, ◌≡◌, ◌≢◌, refl, ◌∙◌, Bool, true, false, Option, none, some, List, [], ◌∷◌,
  ◌++◌, Result, ok, fail, arith, take, ◌>>=◌, ◌>>◌, Keeps, IsPreorder, bind-Keeps, pure-Keeps,
  throw-Keeps, gets-Keeps, modify-Keeps, if-Keeps, relabel-Keeps, return_code-Keeps, attempt-Keeps,
  modify, gets, relabel,
}
use nand_vfs_mx35lf.Driver.Types.{
  NandErr, Block, Platform, Driver, DriverOp, cmd_prog_load, cmd_prog_execute, cmd_read_cache_x1,
  cmd_block_erase,
}
use nand_vfs_mx35lf.Driver.Address.{row_bytes, column_bytes, row_block}
use nand_vfs_mx35lf.Driver.Spi.{
  spi_xfer, spi_write, set_feature, write_enable, write_disable, unlock_all_blocks, lock_all_blocks,
  nand_write_protect, write_begin, write_end, wait_ready,
}
use nand_vfs_mx35lf.Driver.Commands.{
  contents, fill, load_tx, load_rx, program_load, program_execute, page_read, read_from_cache_raw,
  read_from_cache, block_erase,
}
use nand_vfs_mx35lf.Driver.Api.{write_session}
use nand_vfs_mx35lf.Driver.Stable.{polled-Keeps}

-- A frame that does not make the chip write to its array: one that is empty, or whose command is
-- neither a program nor an erase.
abbrev pub Harmless : List ℕ → Type 0
Harmless [] = Unit
Harmless (cmd ∷ rest) = (cmd ≢ cmd_prog_execute) × (cmd ≢ cmd_block_erase)

-- A chip that may fail any command: it may answer anything or nothing, report any status, and leave a
-- page that it programs, or a block that it erases, in any state. It writes to no other row.
pub record Rows (P : Platform) : Type 0 where
  pub array : P.State → ℕ → List ℕ
  pub transmits :
      (polling : Bool) (tx : List ℕ) (receives : Bool) (w : P.State) (i : ℕ)
      → Harmless tx
      → array (P.transmit polling tx receives w).1 i ≡ array w i
  pub programs :
      (polling : Bool) (row : ℕ) (receives : Bool) (w : P.State) (i : ℕ)
      → row < 65536
      → i ≢ row
      → array (P.transmit polling (cmd_prog_execute ∷ row_bytes row) receives w).1 i ≡ array w i
  pub erases :
      (polling : Bool) (row : ℕ) (receives : Bool) (w : P.State) (i : ℕ)
      → row < 65536
      → row_block i ≢ row_block row
      → array (P.transmit polling (cmd_block_erase ∷ row_bytes row) receives w).1 i ≡ array w i
  pub delays : (us : ℕ) (w : P.State) (i : ℕ) → array (P.delay_us us w) i ≡ array w i
  pub yields : (ticks : ℕ) (w : P.State) (i : ℕ) → array (P.task_delay ticks w) i ≡ array w i
  pub takes : (m : ℕ) (w : P.State) (i : ℕ) → array (P.take_mutex m w) i ≡ array w i
  pub gives : (m : ℕ) (w : P.State) (i : ℕ) → array (P.give_mutex m w) i ≡ array w i
  pub mallocs : (n : ℕ) (w : P.State) (i : ℕ) → array (P.malloc n w).1 i ≡ array w i
  pub frees : (b : Block) (w : P.State) (i : ℕ) → array (P.free b w) i ≡ array w i

-- A frame taken from the buffer after it was filled has the command that it was filled with.
Harmless-fill :
    (cmd n : ℕ) (xs : List ℕ) (b : Option Block)
    → Harmless (cmd ∷ [])
    → Harmless (take n (contents (fill (cmd ∷ xs) b)))
Harmless-fill cmd zero xs b h = tt
Harmless-fill cmd (suc n) xs none h = tt
Harmless-fill cmd (suc n) xs (some b) h = h

module _ {P : Platform} (C : Rows P) (i : ℕ) where
  -- Row `i` is as it was.
  abbrev pub SameRow : Driver P → Driver P → Type 0
  SameRow s t = C.array t.world i ≡ C.array s.world i

  pub same_row : IsPreorder SameRow
  same_row = record { same = λ s. refl; then_on = λ s t u h k. k ∙ h }

  spi_xfer-SameRow :
      (tx : List ℕ) (receives : Bool) → Harmless tx → Keeps SameRow (spi_xfer P tx receives)
  unfolding spi_xfer
  spi_xfer-SameRow tx receives h = record { run = λ s. C.transmits _ tx receives s.world i h }

  spi_write-SameRow : (tx : List ℕ) → Harmless tx → Keeps SameRow (spi_write P tx)
  unfolding spi_write
  spi_write-SameRow tx h =
      bind-Keeps same_row (spi_xfer-SameRow tx false h) λ _. pure-Keeps same_row tt

  wait_ready-SameRow : (timeout_ms : ℕ) → Keeps SameRow (wait_ready P timeout_ms)
  wait_ready-SameRow = polled-Keeps (record {
    preorder = same_row;
    polls = λ polling s. C.transmits polling _ true s.world i (omega arith, omega arith);
    delays = λ us s. C.delays us s.world i;
    yields = λ ticks s. C.yields ticks s.world i;
  })

  set_feature-SameRow : (reg value : ℕ) → Keeps SameRow (set_feature P reg value)
  unfolding set_feature
  set_feature-SameRow reg value = relabel-Keeps _ (spi_write-SameRow _ (omega arith, omega arith))

  protect-SameRow : Keeps SameRow (nand_write_protect P)
  unfolding nand_write_protect write_disable lock_all_blocks
  protect-SameRow =
      bind-Keeps same_row (spi_write-SameRow _ (omega arith, omega arith))
        λ _. set_feature-SameRow _ _

  write_begin-SameRow : Keeps SameRow (write_begin P)
  unfolding write_begin unlock_all_blocks
  write_begin-SameRow = if-Keeps P.protected_mode (set_feature-SameRow _ _) (pure-Keeps same_row tt)

  write_end-SameRow : (ret : Result NandErr (Unit {0})) → Keeps SameRow (write_end P ret)
  unfolding write_end write_disable
  write_end-SameRow (ok done) = if-Keeps P.protected_mode protect-SameRow (pure-Keeps same_row tt)
  write_end-SameRow (fail e) =
      bind-Keeps same_row
        (attempt-Keeps (
          if-Keeps P.protected_mode protect-SameRow
            (spi_write-SameRow _ (omega arith, omega arith))))
        λ _. throw-Keeps same_row e

  -- A session whose command leaves the row alone.
  pub session-SameRow :
      {op : DriverOp P (Unit {0})}
      → Keeps SameRow op
      → Keeps SameRow (write_session P (write_enable P >> op))
  unfolding write_session write_enable
  session-SameRow k = bind-Keeps same_row write_begin-SameRow λ _.
      bind-Keeps same_row
        (attempt-Keeps
          (bind-Keeps same_row (spi_write-SameRow _ (omega arith, omega arith)) λ _. k))
        write_end-SameRow

  pub program_load-SameRow :
      (column : ℕ) (bytes : List ℕ) (len : ℕ) → Keeps SameRow (program_load P column bytes len)
  unfolding program_load load_tx modify gets ◌>>=◌ relabel
  program_load-SameRow column bytes len = record {
    run = λ s.
        (spi_write-SameRow (take (3 + len) _) (
            Harmless-fill cmd_prog_load (3 + len) (column_bytes column ++ take len bytes)
              s.handle.tx_buf (omega arith, omega arith))).run
          _;
  }

  pub read_from_cache-SameRow : (column len : ℕ) → Keeps SameRow (read_from_cache P column len)
  unfolding read_from_cache read_from_cache_raw load_tx load_rx spi_xfer modify gets ◌>>=◌
  read_from_cache-SameRow column len =
      bind-Keeps same_row
        (record {
          run = λ s.
              (bind-Keeps same_row
                  (spi_xfer-SameRow (take (4 + len) _) true (
                    Harmless-fill cmd_read_cache_x1 (4 + len) (column_bytes column ++ 0 ∷ [])
                      s.handle.tx_buf (omega arith, omega arith)))
                  λ rx. modify-Keeps (load_rx P rx) (λ t. refl)).run
                (load_tx P (cmd_read_cache_x1 ∷ column_bytes column ++ 0 ∷ []) s);
        })
        λ _. gets-Keeps same_row _

  pub page_read-SameRow : (row : ℕ) → Keeps SameRow (page_read P row)
  unfolding page_read
  page_read-SameRow row =
      bind-Keeps same_row (spi_write-SameRow _ (omega arith, omega arith))
        λ _. bind-Keeps same_row (wait_ready-SameRow _) λ status. return_code-Keeps same_row _

  pub program_execute-SameRow :
      (row : ℕ) → row < 65536 → i ≢ row → Keeps SameRow (program_execute P row)
  unfolding program_execute spi_write spi_xfer
  program_execute-SameRow row h other =
      bind-Keeps same_row
        (bind-Keeps same_row (record { run = λ s. C.programs _ row false s.world i h other })
          λ _. pure-Keeps same_row tt)
        λ _.
          bind-Keeps same_row (wait_ready-SameRow _)
            λ status. if-Keeps _ (pure-Keeps same_row tt) (throw-Keeps same_row _)

  pub block_erase-SameRow :
      (row : ℕ) → row < 65536 → row_block i ≢ row_block row → Keeps SameRow (block_erase P row)
  unfolding block_erase spi_write spi_xfer
  block_erase-SameRow row h other =
      bind-Keeps same_row
        (bind-Keeps same_row (record { run = λ s. C.erases _ row false s.world i h other })
          λ _. pure-Keeps same_row tt)
        λ _.
          bind-Keeps same_row (wait_ready-SameRow _)
            λ status. if-Keeps _ (pure-Keeps same_row tt) (throw-Keeps same_row _)
