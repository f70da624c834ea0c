-- ===== src/Driver/Address.antt =====
-- Row and column addresses: NAND_ROW_ADDR of include/mx35lf1_driver.h, and the validation
-- functions of src/mx35lf1_driver.c. A row address is a `uint32_t`, a column a `uint16_t`.
pub mod Laws
use nand_vfs_mx35lf.Base.{
  ℕ, ◌+◌, ◌-◌, ◌*◌, ◌/◌, ◌%◌, ◌^◌, Bool, true, false, List, [], ◌∷◌, ◌&&◌, ◌||◌, ltb, leb,
  if◌then◌else◌,
}
use nand_vfs_mx35lf.Driver.Types.{
  nand_page_size, nand_spare_size, nand_page_full_size, nand_max_block_address,
  nand_max_page_address,
}

-- NAND_ROW_ADDR: the shift wraps at 32 bits, and leaves the six bits of the page clear.
unfoldable pub nand_row_addr : ℕ → ℕ → ℕ
nand_row_addr block page = (block * 64) % 2 ^ 32 + page % 64

-- `row >> 6`
unfoldable pub row_block : ℕ → ℕ
row_block row = row / 64

-- `row & ~0x3F`
unfoldable pub row_first_page : ℕ → ℕ
row_first_page row = row - row % 64

unfoldable pub validate_row_address : ℕ → Bool
validate_row_address row =
    let block = row / 64 in
    let page = row % 64 in
    if ltb nand_max_block_address block || ltb nand_max_page_address page then false else true

unfoldable pub validate_column_address : ℕ → Bool
validate_column_address address =
    if leb (nand_page_size + nand_spare_size) address then false else true

-- The subtraction is one of `unsigned int`.
unfoldable pub validate_length : ℕ → ℕ → Bool
validate_length column len = ltb 0 len && leb len ((nand_page_full_size + 2 ^ 32 - column) % 2 ^ 32)

-- The three address bytes that follow an opcode: `row >> 16`, `row >> 8`, `row`, each cut to a byte.
unfoldable pub row_bytes : ℕ → List ℕ
row_bytes row = (row / 2 ^ 16) % 256 ∷ (row / 2 ^ 8) % 256 ∷ row % 256 ∷ []

-- The two column bytes: `column >> 8`, `column`.
unfoldable pub column_bytes : ℕ → List ℕ
column_bytes column = (column / 2 ^ 8) % 256 ∷ column % 256 ∷ []
