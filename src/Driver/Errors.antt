-- ===== src/Driver/Errors.antt =====
-- `nand_err_to_str` of src/mx35lf1_driver.c.
pub mod Laws
use nand_vfs_mx35lf.Base.{
  ℕ, zero, suc, Bool, ◌||◌, String, List, [], ◌∷◌, ℤ, pos, negsuc, ltb, if◌then◌else◌, get_or,
}

-- `code > 0`, and `code < -(n + 1)`.
abbrev positive : ℤ → Bool
positive (pos n) = ltb 0 n
positive (negsuc n) = ltb 0 0

abbrev below_negsuc : ℕ → ℤ → Bool
below_negsuc n (pos m) = ltb 0 0
below_negsuc n (negsuc m) = ltb n m

-- The cases of the switch in the order of their values, from -1 down to -12.
abbrev case_names : List String
case_names =
    "NAND_RET_BAD_SPI" ∷ "NAND_RET_TIMEOUT" ∷ "NAND_RET_DEVICE_ID" ∷ "NAND_RET_BAD_ADDRESS"
    ∷ "NAND_RET_INVALID_LEN" ∷ "NAND_RET_ECC_REFRESH" ∷ "NAND_RET_ECC_ERR" ∷ "NAND_RET_P_FAIL"
    ∷ "NAND_RET_E_FAIL" ∷ "NAND_RET_E_INVALID_ARG" ∷ "NAND_RET_NO_MEM" ∷ "NAND_RET_VERIFY_FAIL" ∷ []

abbrev switch_name : ℤ → String
switch_name (pos zero) = "NAND_RET_OK"
switch_name (pos (suc n)) = "unknown"
switch_name (negsuc n) = get_or case_names n "unknown"

unfoldable pub nand_err_to_str : ℤ → String
nand_err_to_str code = if positive code || below_negsuc 11 code then "unknown" else switch_name code
