-- ===== src/Driver/Calls/Targets.antt =====
-- Each page and block function of include/mx35lf1_driver.h writes to the rows of its target alone, on a
-- chip that may fail any command.

use nand_vfs_mx35lf.Base.{
  ℕ, ◌<◌, ◌≡◌, ◌≢◌, refl, ◌∙◌, true, Option, none, some, List, arith, Keeps, bind-Keeps,
}
use nand_vfs_mx35lf.Driver.Types.{Platform, Driver, nand_page_size}
use nand_vfs_mx35lf.Driver.Address.{row_first_page, row_block, validate_row_address}
use nand_vfs_mx35lf.Driver.Address.Laws.{validate_row_address_iff}
use nand_vfs_mx35lf.Driver.Api.{nand_lock, nand_unlock}
use nand_vfs_mx35lf.Driver.Calls.{
  Call, page_program, page_copy, block_mark_bad, block_is_bad, page_is_free, clear, after_call,
  IsShared, program_session, copy_session, erase_session,
}
use nand_vfs_mx35lf.Driver.Calls
use nand_vfs_mx35lf.Driver.Calls.Parts.{
  api_program-Keeps, api_read-Keeps, api_copy-Keeps, api_erase-Keeps, api_is_bad-Keeps,
  api_mark_bad-Keeps, api_is_free-Keeps,
}
use nand_vfs_mx35lf.Driver.Calls.Rows.{
  Rows, SameRow, same_row, session-SameRow, program_load-SameRow, read_from_cache-SameRow,
  page_read-SameRow, program_execute-SameRow, block_erase-SameRow,
}

in_range : (row : ℕ) → validate_row_address row ≡ true → row < 65536
in_range row h = (validate_row_address_iff row).0.0 h

module _ {P : Platform} (C : Rows P) (i : ℕ) where
  -- The mutex is not of the chip.
  takes :
      (m : Option ℕ) (w : P.State)
      → C.array (elim m [ none ↦ w | some k ↦ P.take_mutex k w ]) i ≡ C.array w i
  takes none w = refl
  takes (some k) w = C.takes k w i

  gives :
      (m : Option ℕ) (w : P.State)
      → C.array (elim m [ none ↦ w | some k ↦ P.give_mutex k w ]) i ≡ C.array w i
  gives none w = refl
  gives (some k) w = C.gives k w i

  unlocks : (s t : Driver P) → SameRow C i (nand_lock P s) t → SameRow C i s (nand_unlock P t)
  unfolding nand_lock nand_unlock
  unlocks s t h = gives t.handle.lock t.world ∙ h ∙ takes s.handle.lock s.world

  SameRow-IsShared : IsShared P (SameRow C i)
  SameRow-IsShared = record {
    preorder = same_row C i;
    pages = page_read-SameRow C i;
    caches = read_from_cache-SameRow C i;
    unlocks = unlocks;
    mallocs = λ n s. C.mallocs n s.world i;
    frees = λ b s. C.frees b s.world i;
  }

  program_session-SameRow :
      (row column : ℕ)
      → i ≢ row
      → (len : ℕ) → validate_row_address row ≡ true
      → (bytes : List ℕ) → Keeps (SameRow C i) (program_session P row column bytes len)
  program_session-SameRow row column other len h bytes = session-SameRow C i (
      bind-Keeps (same_row C i) (program_load-SameRow C i column bytes len)
        λ _. program_execute-SameRow C i row (in_range row h) other)

-- The rows that a call may write to: `clear` any, and the tests and the read none.
abbrev pub Target : Call → ℕ → Type 0
Target (page_program h row column bytes len) i = i ≡ row
Target (Calls.page_read h row column out len) i = ⊥
Target (page_copy h src dst) i = i ≡ dst
Target (Calls.block_erase h row) i = row_block i ≡ row_block row
Target (block_is_bad h row out) i = ⊥
Target (block_mark_bad h row) i = i ≡ row_first_page row
Target (page_is_free h row out) i = ⊥
Target (clear h) i = Unit

own_block : (row : ℕ) → row_block (row_first_page row) ≡ row_block row
unfolding row_block row_first_page
own_block row = omega arith

module _ {P : Platform} (C : Rows P) where
  -- On a chip that may fail any command, but writes to no row other than the one it programs or those
  -- of the block it erases: a page or block function leaves every row as it was that is not of its
  -- target, whatever its arguments are, whatever code it returns, and wherever it stops. The target
  -- of a program, a copy or a mark is one row, that of an erase is one block, a read and the two
  -- tests have none, and that of `nand_mx35lf1_clear` is the chip.
  pub after_call-elsewhere :
      (c : Call) (s : Driver P) (i : ℕ)
      → ¬ Target c i
      → C.array (after_call P c s).world i ≡ C.array s.world i
  unfolding after_call
  after_call-elsewhere (page_program h row column bytes len) s i other =
      (api_program-Keeps (SameRow-IsShared C i) h row column bytes len
          (program_session-SameRow C i row column other len)).run
        s
  after_call-elsewhere (Calls.page_read h row column out len) s i other =
      (api_read-Keeps (SameRow-IsShared C i) h row column out len).run s
  after_call-elsewhere (page_copy h src dst) s i other =
      (api_copy-Keeps (SameRow-IsShared C i) h src dst
          (λ k. session-SameRow C i (program_execute-SameRow C i dst (in_range dst k) other))).run
        s
  after_call-elsewhere (Calls.block_erase h row) s i other =
      (api_erase-Keeps (SameRow-IsShared C i) h row (λ k. session-SameRow C i (
          block_erase-SameRow C i (row_first_page row) (in_range (row_first_page row) k)
            (λ e. other (e ∙ own_block row))))).run
        s
  after_call-elsewhere (block_is_bad h row out) s i other =
      (api_is_bad-Keeps (SameRow-IsShared C i) h row out).run s
  after_call-elsewhere (block_mark_bad h row) s i other =
      (api_mark_bad-Keeps (SameRow-IsShared C i) h row
          (program_session-SameRow C i (row_first_page row) nand_page_size other 2)).run
        s
  after_call-elsewhere (page_is_free h row out) s i other =
      (api_is_free-Keeps (SameRow-IsShared C i) h row out).run s
  after_call-elsewhere (clear h) s i other = absurd (other tt)
