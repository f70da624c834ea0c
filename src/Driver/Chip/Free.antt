-- ===== src/Driver/Chip/Free.antt =====
-- `nand_mx35lf1_page_is_free` on a healthy chip, and after an erase.
use mathlib.Core.Path.{subst}
use nand_vfs_mx35lf.Base.{
  ℕ, ◌-◌, ◌%◌, ◌/◌, ◌<◌, ◌≡◌, ◌≢◌, ◌↔◌, refl, sym, ap, ◌∙◌, Bool, true, Option, none, some, List,
  arith, length, ◌==◌, ◌>>◌, Gives, bind-Gives, weaken-Gives, pure-Gives, attempt-Gives,
  modify-Gives, return_code-Gives, guarded-Gives, returned-Gives,
}
use nand_vfs_mx35lf.Driver.Types.{valid, Block, Platform, Driver, nand_page_full_size}
use nand_vfs_mx35lf.Driver.Address.{
  row_first_page, row_block, validate_column_address, validate_length,
}
use nand_vfs_mx35lf.Driver.Address.Laws.{validate_row_address_iff}
use nand_vfs_mx35lf.Driver.Api.{
  words_blank, malloc_page, scan_page, nand_check_arg, nand_mx35lf1_page_is_free,
  nand_mx35lf1_block_erase,
}
use nand_vfs_mx35lf.Driver.Blank.{AllErased, words_blank_iff, AllErased-replicate}
use nand_vfs_mx35lf.Driver.Chip.{View, Chip, blank_page, erase_rows}
use nand_vfs_mx35lf.Driver.Chip.Wire.{At, At-world}
use nand_vfs_mx35lf.Driver.Chip.Steps.{Writable}
use nand_vfs_mx35lf.Driver.Chip.Pages.{take-length}
use nand_vfs_mx35lf.Driver.Chip.Writes.{
  checked-At, locked-At, after_read, page_read-At, block_erase-At,
}
use nand_vfs_mx35lf.Driver.Chip.RoundTrip.{length-blank_page}

pub column_ok : validate_column_address 0 ≡ true
unfolding validate_column_address
column_ok = refl

length_ok : validate_length 0 nand_page_full_size ≡ true
unfolding validate_length
length_ok = refl

iff_of_eq :
    (page : List ℕ) (free : Bool)
    → length page ≡ nand_page_full_size
    → free ≡ words_blank 528 page
    → (free ≡ true) ↔ AllErased page
iff_of_eq page free full e =
    let meaning = words_blank_iff 528 page (omega (arith, full)) in
    (λ h. meaning.0 (sym e ∙ h), λ h. e ∙ meaning.1 h)

module _ {P : Platform} (C : Chip P) {v : View} where
  scan_page-At :
      {s : Driver P} (row : ℕ) (buffer : Block)
      → At C v s
      → row < 65536
      → length (v.array row) ≡ nand_page_full_size
      → Gives
          (scan_page P valid row (some buffer))
          s
          (λ free t. (free ≡ words_blank 528 (v.array row)) × At C (after_read C row v) t)
  unfolding scan_page
  scan_page-At {s} row buffer a h full = locked-At C a λ t b.
      bind-Gives
        (attempt-Gives (page_read-At C b row 0 nand_page_full_size h column_ok length_ok full))
        λ r u (bytes, e, (same, c)).
          bind-Gives {Q = λ _ w. At C (after_read C row v) w}
            (modify-Gives _ (At-world C (P.free buffer u.world) c (C.frees buffer u.world)))
            λ _ w d.
              bind-Gives {Q = λ x w'. (x ≡ bytes) × At C (after_read C row v) w'}
                (return_code-Gives e (refl, d))
                λ x w' (e', d').
                  pure-Gives _
                    (ap (words_blank 528) (e' ∙ same ∙ take-length (v.array row) _ full), d')

  module _ (served : (w : P.State) → (P.malloc nand_page_full_size w).0 ≢ none) where
    malloc_page-At :
        {s : Driver P} → At C v s → Gives (malloc_page P) s (λ buffer t. (buffer ≢ none) × At C v t)
    unfolding malloc_page
    malloc_page-At {s} a = record {
      run = (served s.world, At-world C _ a (C.mallocs nand_page_full_size s.world));
    }

    scanned :
        {s : Driver P} (row : ℕ) (buffer : Option Block)
        → buffer ≢ none
        → At C v s
        → row < 65536
        → length (v.array row) ≡ nand_page_full_size
        → Gives
            (scan_page P valid row buffer)
            s
            (λ free t. (free ≡ words_blank 528 (v.array row)) × At C (after_read C row v) t)
    scanned row none got a h full = absurd (got refl)
    scanned row (some buffer) got a h full = scan_page-At row buffer a h full

    -- On a healthy chip that is ready, and is busy after each command on its array for no longer
    -- than the poll allows, behind an open handle, when the heap serves a page: the test of a valid
    -- row that holds a full page succeeds, finds the page free exactly when each byte of it is
    -- 0xFF, and leaves the array as it was.
    pub page_is_free_iff :
        {s : Driver P} (row : ℕ)
        → At C v s
        → row < 65536
        → length (v.array row) ≡ nand_page_full_size
        → Gives
            (nand_mx35lf1_page_is_free P valid row valid)
            s
            (λ free t. ((free ≡ true) ↔ AllErased (v.array row)) × At C (after_read C row v) t)
    unfolding nand_mx35lf1_page_is_free nand_check_arg
    page_is_free_iff row a h full = checked-At C a (
        returned-Gives tt _ (
          guarded-Gives _ ((validate_row_address_iff row).0.1 h) (
            bind-Gives (malloc_page-At a) λ buffer t (got, b).
              weaken-Gives (scanned row buffer got b h full)
                λ free u (e, c). (iff_of_eq (v.array row) free full e, c))))

pub AllErased-blank_page : AllErased blank_page
unfolding blank_page
AllErased-blank_page = AllErased-replicate nand_page_full_size

pub erased_row :
    (row row' : ℕ) (array : ℕ → List ℕ)
    → row_block row' ≡ row_block row
    → erase_rows (row_first_page row / 64) array row' ≡ blank_page
unfolding row_block row_first_page
erased_row row row' array same =
    let inside : (row' / 64 == (row - row % 64) / 64) ≡ true = ground arith in rw inside refl

-- On a healthy chip that is ready and can be written, and is busy after each command on its array
-- for no longer than the poll allows, behind an open handle, when the heap serves a page: after an
-- erase through a valid row, the test of each valid row of the same block succeeds and finds the
-- page free.
pub page_is_free-block_erase :
    {P : Platform} (C : Chip P) {v : View} {s : Driver P}
    → At C v s
    → Writable C v
    → ((w : P.State) → (P.malloc nand_page_full_size w).0 ≢ none)
    → (row row' : ℕ) → row < 65536
    → row' < 65536
    → row_block row' ≡ row_block row
    → Gives
        (nand_mx35lf1_block_erase P valid row >> nand_mx35lf1_page_is_free P valid row' valid)
        s
        (λ free _. free ≡ true)
page_is_free-block_erase C {v} {s} a writable served row row' h h' same =
    bind-Gives (block_erase-At C a row h writable) λ _ t (_, b).
      let blank = erased_row row row' v.array same in
      weaken-Gives (page_is_free_iff C served row' b h' (ap length blank ∙ length-blank_page))
        λ free u (meaning, _). meaning.1 (subst AllErased (sym blank) AllErased-blank_page)
