-- ===== src/Hal.antt =====
-- The hooks of the flash translation layer onto the driver: src/dhara/dhara/nand.c. They work on
-- the handle of src/nand_diskio.c, which is never NULL.
pub mod Laws
pub mod Codes
pub mod Elsewhere
pub mod Silent
use nand_vfs_mx35lf.Base.{
  ℕ, ◌%◌, ◌^◌, Bool, true, false, Option, none, some, List, [], ℤ, pos, negsuc, Result, ok, fail,
}
use nand_vfs_mx35lf.Driver.Types.{
  NandErr, ecc_err, p_fail, e_fail, valid, Platform, Driver, nand_page_size,
}
use nand_vfs_mx35lf.Driver.Address.{nand_row_addr}
use nand_vfs_mx35lf.Driver.Api.{
  nand_mx35lf1_page_program, nand_mx35lf1_page_read, nand_mx35lf1_page_copy,
  nand_mx35lf1_block_erase, nand_mx35lf1_block_is_bad, nand_mx35lf1_block_mark_bad,
  nand_mx35lf1_page_is_free,
}

-- `dhara_error_t`
pub data DharaError : Type 0 where
  e_none e_bad_block e_ecc e_too_bad e_recover e_journal_full e_not_found e_map_full : DharaError
  e_corrupt_map e_max : DharaError

-- `dhara_set_error` on the variable that a `dhara_error_t *` leads to; `none` is NULL.
unfoldable pub dhara_set_error : Option DharaError → DharaError → Option DharaError
dhara_set_error none e = none
dhara_set_error (some _) e = some e

-- What a hook returns, and the error variable after it.
pub record HookResult : Type 0 where
  pub ret : ℤ
  pub err : Option DharaError

abbrev success : Option DharaError → HookResult
success err = record { ret = pos 0; err = err }

abbrev failure : Option DharaError → HookResult
failure err = record { ret = negsuc 0; err = err }

-- How `dhara_nand_erase`, `dhara_nand_prog`, `dhara_nand_read` and `dhara_nand_copy` report a code.
unfoldable pub erase_result : {A : Type 0} → Result NandErr A → Option DharaError → HookResult
erase_result (ok _) err = success err
erase_result (fail e_fail) err = failure (dhara_set_error err e_bad_block)
erase_result (fail _) err = failure err

unfoldable pub prog_result : {A : Type 0} → Result NandErr A → Option DharaError → HookResult
prog_result (ok _) err = success err
prog_result (fail p_fail) err = failure (dhara_set_error err e_bad_block)
prog_result (fail _) err = failure err

unfoldable pub read_result : {A : Type 0} → Result NandErr A → Option DharaError → HookResult
read_result (ok _) err = success err
read_result (fail ecc_err) err = failure (dhara_set_error err e_ecc)
read_result (fail _) err = failure err

unfoldable pub copy_result : {A : Type 0} → Result NandErr A → Option DharaError → HookResult
copy_result (ok _) err = success err
copy_result (fail ecc_err) err = failure (dhara_set_error err e_ecc)
copy_result (fail p_fail) err = failure (dhara_set_error err e_bad_block)
copy_result (fail _) err = failure err

-- A test whose call failed counts as the given answer.
abbrev answer_or : Bool → Result NandErr Bool → Bool
answer_or b (ok a) = a
answer_or b (fail _) = b

-- The bytes that a read stored, none after an error.
abbrev stored : Result NandErr (List ℕ) → List ℕ
stored (ok bytes) = bytes
stored (fail _) = []

module _ (P : Platform) where
  unfoldable pub dhara_nand_is_bad : ℕ → Driver P → Bool × Driver P
  dhara_nand_is_bad b s =
      let (ret, s') = nand_mx35lf1_block_is_bad P valid (nand_row_addr b 0) valid s in
      (answer_or true ret, s')

  unfoldable pub dhara_nand_mark_bad : ℕ → Driver P → Driver P
  dhara_nand_mark_bad b s = (nand_mx35lf1_block_mark_bad P valid (nand_row_addr b 0) s).1

  unfoldable pub dhara_nand_erase : ℕ → Option DharaError → Driver P → HookResult × Driver P
  dhara_nand_erase b err s =
      let (ret, s') = nand_mx35lf1_block_erase P valid (nand_row_addr b 0) s in
      (erase_result ret err, s')

  unfoldable pub dhara_nand_prog : ℕ → List ℕ → Option DharaError → Driver P → HookResult × Driver P
  dhara_nand_prog p bytes err s =
      let (ret, s') = nand_mx35lf1_page_program P valid p 0 (some bytes) nand_page_size s in
      (prog_result ret err, s')

  unfoldable pub dhara_nand_is_free : ℕ → Driver P → Bool × Driver P
  dhara_nand_is_free p s =
      let (ret, s') = nand_mx35lf1_page_is_free P valid p valid s in (answer_or false ret, s')

  -- The `size_t` offset becomes a 16-bit column.
  unfoldable pub dhara_nand_read :
      ℕ → (offset length : ℕ) → Option DharaError → Driver P → (HookResult × List ℕ) × Driver P
  dhara_nand_read p offset length err s =
      let (ret, s') = nand_mx35lf1_page_read P valid p (offset % 2 ^ 16) valid length s in
      ((read_result ret err, stored ret), s')

  unfoldable pub dhara_nand_copy : ℕ → ℕ → Option DharaError → Driver P → HookResult × Driver P
  dhara_nand_copy src dst err s =
      let (ret, s') = nand_mx35lf1_page_copy P valid src dst s in (copy_result ret err, s')

  -- What the translation layer can do to the driver: a sequence of calls of the hooks.
  pub data HookSteps : Driver P → Driver P → Type 0 where
    done : (s : Driver P) → HookSteps s s
    is_bad : (b : ℕ) {s t : Driver P} → HookSteps s t → HookSteps s (dhara_nand_is_bad b t).1
    mark_bad : (b : ℕ) {s t : Driver P} → HookSteps s t → HookSteps s (dhara_nand_mark_bad b t)
    erase :
        (b : ℕ) (err : Option DharaError) {s t : Driver P}
        → HookSteps s t
        → HookSteps s (dhara_nand_erase b err t).1
    prog :
        (p : ℕ) (bytes : List ℕ) (err : Option DharaError) {s t : Driver P}
        → HookSteps s t
        → HookSteps s (dhara_nand_prog p bytes err t).1
    is_free : (p : ℕ) {s t : Driver P} → HookSteps s t → HookSteps s (dhara_nand_is_free p t).1
    read :
        (p offset length : ℕ) (err : Option DharaError) {s t : Driver P}
        → HookSteps s t
        → HookSteps s (dhara_nand_read p offset length err t).1
    copy :
        (src dst : ℕ) (err : Option DharaError) {s t : Driver P}
        → HookSteps s t
        → HookSteps s (dhara_nand_copy src dst err t).1
