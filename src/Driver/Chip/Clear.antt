-- ===== src/Driver/Chip/Clear.antt =====
-- The array of a chip whose good blocks are erased one after the other.
pub mod Loop
use mathlib.Core.Path.{subst}
use nand_vfs_mx35lf.Base.{
  ℕ, zero, suc, ◌+◌, ◌/◌, ◌<◌, ◌≡◌, refl, sym, ap, ◌∙◌, Bool, true, false, ◌&&◌, not, List, ltb,
  ◌==◌, Bool-cases, inl, inr, if◌then◌else◌, arith, length, Result, ok, fail, Gives, bind-Gives,
  pure-Gives, attempt-Gives, return_code-Gives,
}
use nand_vfs_mx35lf.Driver.Types.{
  NandErr, valid, Platform, Driver, nand_page_full_size, nand_blocks_per_lun,
}
use nand_vfs_mx35lf.Driver.Address.{nand_row_addr, row_block, row_first_page}
use nand_vfs_mx35lf.Driver.Address.Laws.{nand_row_addr_fields, validate_row_address_iff}
use nand_vfs_mx35lf.Driver.Api.{
  Tally, count_failure, clear_marked, clear_block, clear_loop, nand_mx35lf1_clear,
}
use nand_vfs_mx35lf.Driver.Chip.{View, Chip, blank_page, erase_rows}
use nand_vfs_mx35lf.Driver.Chip.Wire.{At}
use nand_vfs_mx35lf.Driver.Chip.Steps.{Writable}
use nand_vfs_mx35lf.Driver.Chip.Writes.{checked-At, after_erase, block_erase-At}
use nand_vfs_mx35lf.Driver.Chip.Reads.{marked, block_is_bad-At}

-- A row of an array in which the blocks below `i` have been erased but for those marked as bad.
abbrev pub cleared : ℕ → (ℕ → List ℕ) → ℕ → List ℕ
cleared i array row =
    if ltb (row_block row) i && not (marked (array (nand_row_addr (row_block row) 0)))
    then blank_page
    else array row

pub own_row : (i : ℕ) → i < 1024 → (nand_row_addr i 0 < 65536) × (row_block (nand_row_addr i 0) ≡ i)
own_row i h =
    let fields = nand_row_addr_fields i 0 h (omega arith) in
    ((validate_row_address_iff (nand_row_addr i 0)).0.0 fields.0, fields.1)

pub own_block : (i : ℕ) → i < 1024 → row_first_page (nand_row_addr i 0) / 64 ≡ i
unfolding nand_row_addr row_first_page
own_block i h = omega arith

pub row_block_lt : (row : ℕ) → row < 65536 → row_block row < 1024
unfolding row_block
row_block_lt row h = omega arith

below_next : (k i : ℕ) → (k == i) ≡ false → ltb k (i + 1) ≡ ltb k i
below_next k i h = ground arith

itself : (k i : ℕ) → (k == i) ≡ true → (k ≡ i) × (ltb k (i + 1) ≡ true) × (ltb k i ≡ false)
itself k i h = ground arith

module _ (array : ℕ → List ℕ) where
  abbrev pub bad : ℕ → Bool
  bad block = marked (array (nand_row_addr block 0))

  -- One more block: untouched if it is marked, erased if not.
  pub cleared_marked : (i row : ℕ) → bad i ≡ true → cleared (i + 1) array row ≡ cleared i array row
  cleared_marked i row h = elim (Bool-cases (row_block row == i)) [
    | inr e ↦ rw (below_next (row_block row) i e) refl
    | inl e ↦
        let (same, next, below) = itself (row_block row) i e in
        let m : bad (row_block row) ≡ true = ap bad same ∙ h in rw (next, below, m) refl
  ]

  pub cleared_erased :
      (i row : ℕ)
      → bad i ≡ false
      → (if row_block row == i then blank_page else cleared i array row) ≡ cleared (i + 1) array row
  cleared_erased i row h = elim (Bool-cases (row_block row == i)) [
    | inr e ↦ rw (e, below_next (row_block row) i e) refl
    | inl e ↦
        let (same, next, below) = itself (row_block row) i e in
        let m : bad (row_block row) ≡ false = ap bad same ∙ h in rw (e, next, m) refl
  ]

  -- The own first page of a block that has not been reached.
  pub cleared_own :
      (i : ℕ) → i < 1024 → cleared i array (nand_row_addr i 0) ≡ array (nand_row_addr i 0)
  cleared_own i h =
      let below : ltb (row_block (nand_row_addr i 0)) i ≡ false =
        rw (own_row i h).1 (not_below i) in
      rw below refl
    where
      not_below : (i : ℕ) → ltb i i ≡ false
      not_below i = ground arith
