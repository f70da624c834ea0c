-- ===== src/Driver/Errors/Laws.antt =====
-- The names of the error codes.
use nand_vfs_mx35lf.Base.{ℕ, suc, ◌<◌, ◌≡◌, refl, String, pos, negsuc, arith}
use nand_vfs_mx35lf.Driver.Types.{
  NandErr, bad_spi, timeout, device_id, bad_address, invalid_len, ecc_refresh, ecc_err, p_fail,
  e_fail, invalid_arg, no_mem, verify_fail, err_code,
}
use nand_vfs_mx35lf.Driver.Errors.{nand_err_to_str}

-- The identifier of the enumerator in include/mx35lf1_driver.h.
abbrev pub identifier : NandErr → String
identifier bad_spi = "NAND_RET_BAD_SPI"
identifier timeout = "NAND_RET_TIMEOUT"
identifier device_id = "NAND_RET_DEVICE_ID"
identifier bad_address = "NAND_RET_BAD_ADDRESS"
identifier invalid_len = "NAND_RET_INVALID_LEN"
identifier ecc_refresh = "NAND_RET_ECC_REFRESH"
identifier ecc_err = "NAND_RET_ECC_ERR"
identifier p_fail = "NAND_RET_P_FAIL"
identifier e_fail = "NAND_RET_E_FAIL"
identifier invalid_arg = "NAND_RET_E_INVALID_ARG"
identifier no_mem = "NAND_RET_NO_MEM"
identifier verify_fail = "NAND_RET_VERIFY_FAIL"

-- Each enumerator's code is printed as its identifier, and a code that is no enumerator's as
-- "unknown".
nand_err_to_str-identifier :
    ((e : NandErr) → nand_err_to_str (err_code e) ≡ identifier e)
    × ((n : ℕ) → nand_err_to_str (pos (suc n)) ≡ "unknown")
    × ((n : ℕ) → 11 < n → nand_err_to_str (negsuc n) ≡ "unknown")
unfolding nand_err_to_str err_code
nand_err_to_str-identifier = (names, λ n. ground arith, λ n h. ground arith)
  where
    names : (e : NandErr) → nand_err_to_str (err_code e) ≡ identifier e
    names bad_spi = refl
    names timeout = refl
    names device_id = refl
    names bad_address = refl
    names invalid_len = refl
    names ecc_refresh = refl
    names ecc_err = refl
    names p_fail = refl
    names e_fail = refl
    names invalid_arg = refl
    names no_mem = refl
    names verify_fail = refl
