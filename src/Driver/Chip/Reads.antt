-- ===== src/Driver/Chip/Reads.antt =====
-- The bad-block marker and the copy of a page on a healthy chip.
use nand_vfs_mx35lf.Base.{
  ℕ, ◌<◌, ◌≡◌, refl, Bool, false, ◌||◌, List, [], ◌∷◌, arith, ◌==◌, length, get_or, take, drop,
  get_or-take, get_or-drop, Gives, bind-Gives, weaken-Gives, pure-Gives, guarded-Gives,
  returned-Gives,
}
use nand_vfs_mx35lf.Driver.Types.{valid, Platform, Driver, nand_page_size, nand_page_full_size}
use nand_vfs_mx35lf.Driver.Address.{
  nand_row_addr, row_block, row_first_page, validate_column_address, validate_length,
}
use nand_vfs_mx35lf.Driver.Address.Laws.{validate_row_address_iff}
use nand_vfs_mx35lf.Driver.Commands.{read_bad_marker}
use nand_vfs_mx35lf.Driver.Api.{
  nand_check_arg, nand_mx35lf1_page_copy, nand_mx35lf1_block_is_bad, nand_mx35lf1_block_mark_bad,
}
use nand_vfs_mx35lf.Driver.Chip.{View, Chip, store_row}
use nand_vfs_mx35lf.Driver.Chip.Wire.{At}
use nand_vfs_mx35lf.Driver.Chip.Steps.{
  begun, closed, Writable, write_enable-At, program_execute-At, page_read-At, write_session-At,
}
use nand_vfs_mx35lf.Driver.Chip.Pages.{do_page_read-At}
use nand_vfs_mx35lf.Driver.Chip.Writes.{
  checked-At, locked-At, both, first, after_program, after_read, page_program-At,
}

-- The marker of a page: one of its first two spare bytes is zero.
abbrev pub marked : List ℕ → Bool
marked page = (get_or page 2048 0 == 0) || (get_or page 2049 0 == 0)

mark_bytes :
    (page : List ℕ)
    → ((get_or (take 2 (drop 2048 page)) 0 0 == 0) || (get_or (take 2 (drop 2048 page)) 1 0 == 0))
      ≡ marked page
mark_bytes page = rw (
  get_or-take 2 0 (drop 2048 page) 0 (omega arith),
  get_or-take 2 1 (drop 2048 page) 0 (omega arith),
  get_or-drop 2048 0 page 0,
  get_or-drop 2048 1 page 0,
)

row_lt : (block : ℕ) → block < 1024 → nand_row_addr block 0 < 65536
unfolding nand_row_addr
row_lt block h = omega arith

block_lt : (row : ℕ) → row < 65536 → row_block row < 1024
unfolding row_block
block_lt row h = omega arith

module _ {P : Platform} (C : Chip P) {v : View} {s : Driver P} (a : At C v s) where
  pub read_bad_marker-At :
      (block : ℕ)
      → block < 1024
      → length (v.array (nand_row_addr block 0)) ≡ nand_page_full_size
      → Gives (read_bad_marker P block) s (λ is_bad t.
        (is_bad ≡ marked (v.array (nand_row_addr block 0)))
        × At C (after_read C (nand_row_addr block 0) v) t)
  unfolding read_bad_marker
  read_bad_marker-At block h full =
      bind-Gives
        (do_page_read-At C a (nand_row_addr block 0) nand_page_size 2 (row_lt block h) (omega arith)
          full)
        λ mark t (e, b). pure-Gives _ (rw e (mark_bytes (v.array (nand_row_addr block 0))), b)

module _ {P : Platform} (C : Chip P) {v : View} {s : Driver P} (a : At C v s) where
  pub block_is_bad-At :
      (row : ℕ)
      → row < 65536
      → length (v.array (nand_row_addr (row_block row) 0)) ≡ nand_page_full_size
      → Gives (nand_mx35lf1_block_is_bad P valid row valid) s (λ is_bad t.
        (is_bad ≡ marked (v.array (nand_row_addr (row_block row) 0)))
        × At C (after_read C (nand_row_addr (row_block row) 0) v) t)
  unfolding nand_mx35lf1_block_is_bad nand_check_arg
  block_is_bad-At row h full = checked-At C a (
      returned-Gives tt _ (
        guarded-Gives _ ((validate_row_address_iff row).0.1 h)
          (locked-At C a λ t b. read_bad_marker-At C b (row_block row) (block_lt row h) full)))

  pub block_mark_bad-At :
      (row : ℕ)
      → row < 65536
      → Writable C v
      → Gives (nand_mx35lf1_block_mark_bad P valid row) s (λ _ t.
        Unit {0} × At C (after_program C (row_first_page row) nand_page_size (0 ∷ 0 ∷ []) v) t)
  unfolding nand_mx35lf1_block_mark_bad validate_column_address validate_length
  block_mark_bad-At row h writable = checked-At C a (
      guarded-Gives _ ((validate_row_address_iff row).0.1 h) (
        page_program-At C a (row_first_page row) nand_page_size (0 ∷ 0 ∷ []) 2 (first row h) refl
          refl refl writable))

  -- The chip after a copy.
  abbrev pub after_copy : ℕ → ℕ → View → View
  after_copy src dst v = closed C (record (begun C v) {
    array = store_row dst (C.merge (v.array dst) (v.array src)) v.array;
    cache = v.array src;
    wel = false;
  })

  pub page_copy-At :
      (src dst : ℕ)
      → src < 65536
      → dst < 65536
      → Writable C v
      → Gives
          (nand_mx35lf1_page_copy P valid src dst)
          s
          (λ _ t. Unit {0} × At C (after_copy src dst v) t)
  unfolding nand_mx35lf1_page_copy
  page_copy-At src dst hs hd writable = checked-At C a (
      guarded-Gives _
        (both _ _ ((validate_row_address_iff src).0.1 hs) ((validate_row_address_iff dst).0.1 hd))
        (locked-At C a λ t b. bind-Gives (page_read-At C b src hs) λ _ t b.
          weaken-Gives
            (write_session-At C b λ t c.
              bind-Gives (write_enable-At C c) λ _ t c. program_execute-At C c dst hd refl writable)
            λ _ u d. (tt, d)))
