-- ===== src/Driver/Chip/RoundTrip.antt =====
-- What is written to a healthy chip is read back: programs, copies, marks and erases.
use nand_vfs_mx35lf.Base.{
  ℕ, ◌+◌, ◌≤◌, ◌<◌, ◌≡◌, refl, sym, ap, ◌∙◌, true, some, List, [], ◌∷◌, ◌++◌, arith, ==_iff, length,
  get_or, take, drop, get_or-drop, drop-append_of_le, take-append, length-replicate, length-append,
  length-take, length-drop, ◌>>◌, Gives, bind-Gives, weaken-Gives,
}
use nand_vfs_mx35lf.Driver.Types.{valid, Platform, Driver, nand_page_size, nand_page_full_size}
use nand_vfs_mx35lf.Driver.Address.{
  nand_row_addr, row_block, row_first_page, validate_column_address, validate_length,
}
use nand_vfs_mx35lf.Driver.Address.Laws.{validate_length_iff}
use nand_vfs_mx35lf.Driver.Api.{
  nand_mx35lf1_page_program, nand_mx35lf1_page_read, nand_mx35lf1_page_copy,
  nand_mx35lf1_block_is_bad, nand_mx35lf1_block_mark_bad,
}
use nand_vfs_mx35lf.Driver.Chip.{View, Chip, blank_page, place, store_row}
use nand_vfs_mx35lf.Driver.Chip.Wire.{At}
use nand_vfs_mx35lf.Driver.Chip.Steps.{Writable}
use nand_vfs_mx35lf.Driver.Chip.Writes.{page_program-At, page_read-At}
use nand_vfs_mx35lf.Driver.Chip.Reads.{marked, block_is_bad-At, block_mark_bad-At, page_copy-At}

pub length-blank_page : length blank_page ≡ nand_page_full_size
unfolding blank_page
length-blank_page = length-replicate {A = ℕ} nand_page_full_size 255

drop-place :
    (column : ℕ) (bytes : List ℕ)
    → column ≤ nand_page_full_size
    → drop column (place column bytes blank_page) ≡ bytes ++ drop (column + length bytes) blank_page
drop-place column bytes h = drop-append_of_le column blank_page _ (omega (arith, length-blank_page))

pub length-place :
    (column : ℕ) (bytes : List ℕ)
    → column + length bytes ≤ nand_page_full_size
    → length (place column bytes blank_page) ≡ nand_page_full_size
length-place column bytes h = omega (
  arith,
  length-append (take column blank_page) (bytes ++ drop (column + length bytes) blank_page),
  length-append bytes (drop (column + length bytes) blank_page),
  length-take column blank_page,
  length-drop (column + length bytes) blank_page,
  length-blank_page,
)

pub store_row_self :
    (row : ℕ) (page : List ℕ) (array : ℕ → List ℕ) → store_row row page array row ≡ page
store_row_self row page array = rw ((==_iff row row).1 refl)

-- The bytes at a column of a page programmed over an erased one.
read_programmed :
    {P : Platform} (C : Chip P) (old : List ℕ) (column : ℕ) (bytes : List ℕ)
    → old ≡ blank_page
    → column ≤ nand_page_full_size
    → take (length bytes) (drop column (C.merge old (place column bytes blank_page))) ≡ bytes
read_programmed C old column bytes e h =
    rw (e, C.merge_blank (place column bytes blank_page), drop-place column bytes h)
      (take-append bytes _)

column_le : (column : ℕ) → validate_column_address column ≡ true → column ≤ nand_page_full_size
unfolding validate_column_address
column_le column h = ground arith

first_row : (row : ℕ) → row < 65536 → row_first_page row ≡ nand_row_addr (row_block row) 0
unfolding row_first_page nand_row_addr row_block
first_row row h = omega arith

same_row :
    (row row' : ℕ)
    → row < 65536
    → row_block row' ≡ row_block row
    → nand_row_addr (row_block row') 0 ≡ row_first_page row
same_row row row' h same = ap (λ b. nand_row_addr b 0) same ∙ sym (first_row row h)

marked_of_zero : (page : List ℕ) → get_or page 2048 0 ≡ 0 → marked page ≡ true
marked_of_zero page h = rw ((==_iff _ _).1 h)

-- The first byte put in at a column.
get_or-place :
    (column b : ℕ) (bytes : List ℕ)
    → column ≤ nand_page_full_size
    → get_or (place column (b ∷ bytes) blank_page) column 255 ≡ b
get_or-place column b bytes h =
    let e : column + 0 ≡ column = omega arith in
    let shifted = get_or-drop column 0 (place column (b ∷ bytes) blank_page) 255 in
    rw e at (sym shifted ∙ ap (λ page. get_or page 0 255) (drop-place column (b ∷ bytes) h))

-- A marker that has been programmed reads as one, whatever the spare bytes held.
marked_programmed :
    {P : Platform} (C : Chip P) (old : List ℕ)
    → marked (C.merge old (place nand_page_size (0 ∷ 0 ∷ []) blank_page)) ≡ true
marked_programmed C old =
    marked_of_zero (C.merge old (place nand_page_size (0 ∷ 0 ∷ []) blank_page)) (
      C.merge_zero old (place nand_page_size (0 ∷ 0 ∷ []) blank_page) 2048
        (get_or-place nand_page_size 0 (0 ∷ []) (omega arith)))

module _ {P : Platform} (C : Chip P) {v : View} {s : Driver P} (a : At C v s)
    (writable : Writable C v) where
  full_programmed :
      (row column : ℕ) (bytes : List ℕ)
      → validate_column_address column ≡ true
      → validate_length column (length bytes) ≡ true
      → v.array row ≡ blank_page
      → length (store_row row (C.merge (v.array row) (place column bytes blank_page)) v.array row)
        ≡ nand_page_full_size
  full_programmed row column bytes hc hl erased =
      rw
        (
          store_row_self row (C.merge (v.array row) (place column bytes blank_page)) v.array,
          erased,
          C.merge_blank (place column bytes blank_page),
        )
        (length-place column bytes ((validate_length_iff column (length bytes) hc).0.0 hl).1)

  -- On a healthy chip that is ready and can be written, and is busy after each command on its array
  -- for no longer than the poll allows, behind an open handle: when a valid row is erased and the
  -- column and the length pass their tests, a program followed by a read of as many bytes from the
  -- column succeeds, and the read gives the bytes programmed.
  pub page_read-page_program :
      (row column : ℕ) (bytes : List ℕ)
      → row < 65536
      → validate_column_address column ≡ true
      → validate_length column (length bytes) ≡ true
      → v.array row ≡ blank_page
      → Gives
          (nand_mx35lf1_page_program P valid row column (some bytes) (length bytes)
            >> nand_mx35lf1_page_read P valid row column valid (length bytes))
          s
          (λ got _. got ≡ bytes)
  page_read-page_program row column bytes hr hc hl erased =
      bind-Gives (page_program-At C a row column bytes (length bytes) hr hc hl refl writable)
        λ _ t (_, b).
          weaken-Gives
            (page_read-At C b row column (length bytes) hr hc hl
              (full_programmed row column bytes hc hl erased))
            λ got u (e, _).
              e
              ∙ ap (λ page. take (length bytes) (drop column page)) (store_row_self row _ v.array)
              ∙ read_programmed C (v.array row) column bytes erased (column_le column hc)

  abbrev programmed : ℕ → List ℕ
  programmed row =
      C.merge (v.array (row_first_page row)) (place nand_page_size (0 ∷ 0 ∷ []) blank_page)

  full_marked :
      (row row' : ℕ)
      → row < 65536
      → row_block row' ≡ row_block row
      → length (v.array (row_first_page row)) ≡ nand_page_full_size
      → length (
          store_row
            (row_first_page row)
            (programmed row)
            v.array
            (nand_row_addr (row_block row') 0))
        ≡ nand_page_full_size
  full_marked row row' h same full =
      let marker = length-place nand_page_size (0 ∷ 0 ∷ []) (omega arith) in
      rw (same_row row row' h same, store_row_self (row_first_page row) (programmed row) v.array)
        (C.merge_length (v.array (row_first_page row))
            (place nand_page_size (0 ∷ 0 ∷ []) blank_page) (full ∙ sym marker)
          ∙ marker)

  -- On a healthy chip that is ready and can be written, and is busy after each command on its array
  -- for no longer than the poll allows, behind an open handle, with a first page of the block of
  -- full length: after a mark through a valid row, a test through any valid row of the same block
  -- succeeds and finds the block bad, whatever the page held.
  pub block_is_bad-block_mark_bad :
      (row row' : ℕ)
      → row < 65536
      → row' < 65536
      → row_block row' ≡ row_block row
      → length (v.array (row_first_page row)) ≡ nand_page_full_size
      → Gives
          (nand_mx35lf1_block_mark_bad P valid row >> nand_mx35lf1_block_is_bad P valid row' valid)
          s
          (λ is_bad _. is_bad ≡ true)
  block_is_bad-block_mark_bad row row' h h' same full =
      bind-Gives (block_mark_bad-At C a row h writable) λ _ t (_, b).
        weaken-Gives (block_is_bad-At C b row' h' (full_marked row row' h same full))
          λ is_bad u (e, _).
            e
            ∙ ap (λ i. marked (store_row (row_first_page row) (programmed row) v.array i))
                (same_row row row' h same)
            ∙ ap marked (store_row_self (row_first_page row) _ v.array)
            ∙ marked_programmed C (v.array (row_first_page row))

  copied :
      (src dst : ℕ)
      → v.array dst ≡ blank_page
      → store_row dst (C.merge (v.array dst) (v.array src)) v.array dst ≡ v.array src
  copied src dst erased =
      store_row_self dst _ v.array
      ∙ ap (λ old. C.merge old (v.array src)) erased
      ∙ C.merge_blank (v.array src)

  -- On a healthy chip that is ready and can be written, and is busy after each command on its array
  -- for no longer than the poll allows, behind an open handle: after a copy of a valid row of full
  -- length to an erased valid row, a read from the copy succeeds and gives the bytes that the
  -- source holds at the column, when the column and the length pass their tests.
  pub page_read-page_copy :
      (src dst column len : ℕ)
      → src < 65536
      → dst < 65536
      → validate_column_address column ≡ true
      → validate_length column len ≡ true
      → v.array dst ≡ blank_page
      → length (v.array src) ≡ nand_page_full_size
      → Gives
          (nand_mx35lf1_page_copy P valid src dst
            >> nand_mx35lf1_page_read P valid dst column valid len)
          s
          (λ got _. got ≡ take len (drop column (v.array src)))
  page_read-page_copy src dst column len hs hd hc hl erased full =
      bind-Gives (page_copy-At C a src dst hs hd writable) λ _ t (_, b).
        weaken-Gives
          (page_read-At C b dst column len hd hc hl (ap length (copied src dst erased) ∙ full))
          λ got u (e, _). e ∙ ap (λ page. take len (drop column page)) (copied src dst erased)
