-- ===== src/Tests/Clears.antt =====
-- The theorems on erased pages, on the simulated board with the slow chip.
use nand_vfs_mx35lf.Base.{
  ℕ, ◌<◌, ◌≡◌, ◌≢◌, ◌↔◌, refl, Bool, true, false, some, none, List, arith, ◌==◌, if◌then◌else◌,
  length, replicate, length-replicate, Gives, ◌>>◌,
}
use nand_vfs_mx35lf.Driver.Types.{valid, Driver, nand_page_full_size}
use nand_vfs_mx35lf.Driver.Address.{nand_row_addr, row_block}
use nand_vfs_mx35lf.Driver.Api.{
  nand_mx35lf1_clear, nand_mx35lf1_block_erase, nand_mx35lf1_page_is_free,
}
use nand_vfs_mx35lf.Driver.Blank.{AllErased}
use nand_vfs_mx35lf.Driver.Chip.{View, blank_page}
use nand_vfs_mx35lf.Driver.Chip.Wire.{At}
use nand_vfs_mx35lf.Driver.Chip.Writes.{after_read}
use nand_vfs_mx35lf.Driver.Chip.Reads.{marked}
use nand_vfs_mx35lf.Driver.Chip.RoundTrip.{length-blank_page}
use nand_vfs_mx35lf.Driver.Chip.Clear.Loop.{nand_mx35lf1_clear_lem}
use nand_vfs_mx35lf.Driver.Chip.Free.{page_is_free_iff, page_is_free-block_erase}
use nand_vfs_mx35lf.Tests.Bench.{erased_chip}
use nand_vfs_mx35lf.Tests.Bench.Slow.{slow, slow_opened}
use nand_vfs_mx35lf.Tests.Bench.Healthy.{slow_chip, opened-At}

-- A chip whose block 3 is marked as bad, with zeros in its first page.
abbrev worn_row : Bool → List ℕ
worn_row true = replicate nand_page_full_size 0
worn_row false = blank_page

abbrev worn : View
worn = record erased_chip { array = λ row. worn_row (row == 192) }

abbrev worn_board : Driver slow
worn_board = record slow_opened { world = record { chip = worn; clock = 0; due = 0 } }

worn-At : At slow_chip worn worn_board
worn-At = record { open_handle = opened-At.open_handle; view = refl; ready = omega arith }

worn_full : (b : Bool) → length (worn_row b) ≡ nand_page_full_size
worn_full true = length-replicate {A = ℕ} nand_page_full_size 0
worn_full false = length-blank_page

some_ne_none : {A : Type 0} (a : A) → some a ≢ none
some_ne_none a = λ e. cc

same_block : row_block 192 ≡ row_block 200
unfolding row_block
same_block = refl

nand_mx35lf1_clear_lem_example : Gives (nand_mx35lf1_clear slow valid) worn_board (λ _ t.
    (w : View) × At slow_chip w t
    × ((row : ℕ)
        → row < 65536
        → w.array row ≡ (
            if marked (worn.array (nand_row_addr (row_block row) 0))
            then worn.array row
            else blank_page)))
nand_mx35lf1_clear_lem_example =
    nand_mx35lf1_clear_lem slow_chip worn-At refl
      (λ block h. worn_full (nand_row_addr block 0 == 192))

page_is_free_iff_example :
    Gives (nand_mx35lf1_page_is_free slow valid 192 valid) worn_board (λ free t.
      ((free ≡ true) ↔ AllErased (worn.array 192)) × At slow_chip (after_read slow_chip 192 worn) t)
page_is_free_iff_example =
    page_is_free_iff slow_chip (λ w. some_ne_none _) 192 worn-At (omega arith) (worn_full true)

page_is_free-block_erase_example :
    Gives
      (nand_mx35lf1_block_erase slow valid 200 >> nand_mx35lf1_page_is_free slow valid 192 valid)
      worn_board
      (λ free _. free ≡ true)
page_is_free-block_erase_example =
    page_is_free-block_erase slow_chip worn-At refl (λ w. some_ne_none _) 200 192 (omega arith)
      (omega arith) same_block
