-- ===== src/Driver/Address/Laws.antt =====
-- Row addresses name the blocks and pages of the chip once each, and the transfer lengths that the
-- driver accepts stay inside a page and inside its buffers.
use nand_vfs_mx35lf.Base.{ℕ, ◌+◌, ◌*◌, ◌%◌, ◌≤◌, ◌<◌, ◌≡◌, ◌↔◌, true, List, [], ◌∷◌, arith}
use nand_vfs_mx35lf.Driver.Types.{nand_page_full_size, nand_spi_max_transfer}
use nand_vfs_mx35lf.Driver.Address.{
  nand_row_addr, row_block, row_first_page, validate_row_address, validate_column_address,
  validate_length, row_bytes, column_bytes,
}

-- For a block below 1024 and a page below 64, the row address passes its test, gives back the block
-- and the page, and the first page of its block is page 0 of the block.
pub nand_row_addr_fields :
    (block page : ℕ)
    → block < 1024
    → page < 64
    → (validate_row_address (nand_row_addr block page) ≡ true)
      × (row_block (nand_row_addr block page) ≡ block)
      × (nand_row_addr block page % 64 ≡ page)
      × (row_first_page (nand_row_addr block page) ≡ nand_row_addr block 0)
unfolding nand_row_addr row_block row_first_page validate_row_address
nand_row_addr_fields block page hb hp = (ground arith, omega arith, omega arith, omega arith)

-- The valid addresses are those below 1024 blocks of 64 pages, and each is composed of its block
-- and page.
pub validate_row_address_iff :
    (row : ℕ)
    → ((validate_row_address row ≡ true) ↔ (row < 65536))
      × (row < 65536 → nand_row_addr (row_block row) (row % 64) ≡ row)
unfolding nand_row_addr row_block validate_row_address
validate_row_address_iff row = (ground arith, λ h. omega arith)

-- The number that three address bytes stand for, most significant first.
abbrev pub from_bytes : List ℕ → ℕ
from_bytes (a ∷ b ∷ c ∷ []) = (a * 256 + b) * 256 + c
from_bytes _ = 0

abbrev pub from_column_bytes : List ℕ → ℕ
from_column_bytes (a ∷ b ∷ []) = a * 256 + b
from_column_bytes _ = 0

-- A row and a column that pass their tests are given back by the address bytes of the frame.
row_bytes-injective :
    (row column : ℕ)
    → validate_row_address row ≡ true
    → validate_column_address column ≡ true
    → (from_bytes (row_bytes row) ≡ row) × (from_column_bytes (column_bytes column) ≡ column)
unfolding row_bytes column_bytes validate_row_address validate_column_address
row_bytes-injective row column hr hc = (ground arith, ground arith)

-- At a valid column the lengths accepted are those that stay within the page, though the
-- subtraction of the test wraps; with the four bytes of a read command they fit the DMA buffers.
pub validate_length_iff :
    (column len : ℕ)
    → validate_column_address column ≡ true
    → ((validate_length column len ≡ true) ↔ ((0 < len) × (column + len ≤ nand_page_full_size)))
      × (validate_length column len ≡ true → 4 + len ≤ nand_spi_max_transfer)
unfolding validate_length validate_column_address
validate_length_iff column len h = ground arith
