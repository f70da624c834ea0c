-- ===== src/Vfs/Path.antt =====
-- The mount paths that src/nand_vfs.c accepts.

use nand_vfs_mx35lf.Base.{
  ℕ, suc, ◌-◌, ◌≤◌, ◌<◌, ◌≡◌, refl, ap, true, List, [], ◌∷◌, arith, length, get_or, take, ◌↔◌, zero,
}
use nand_vfs_mx35lf.Vfs.{vfs_nand_base_path_max_len, check_path}

-- A mount path: short enough for the buffer that keeps it, one that starts with a slash and does
-- not end with another.
pub record IsMountPath (path : List ℕ) : Type 0 where
  pub not_empty : 1 ≤ length path
  pub short : length path < vfs_nand_base_path_max_len
  pub absolute : get_or path 0 0 ≡ b'/'
  pub no_slash : 1 < length path → (get_or path (length path - 1) 0 ≡ b'/' → ⊥)

pub path_take : (n : ℕ) (path : List ℕ) → length path ≤ n → take n path ≡ path
path_take zero [] h = refl
path_take (suc n) [] h = refl
path_take zero (x ∷ path) h = absurd (omega arith)
path_take (suc n) (x ∷ path) h = ap (λ p. x ∷ p) (path_take n path (omega arith))

-- The test of `vfs_nand_register` on the path accepts exactly the mount paths: those of 1 to 14
-- bytes that start with a slash, and end with no other one.
pub check_path_iff : (path : List ℕ) → (check_path path ≡ true) ↔ IsMountPath path
unfolding check_path
check_path_iff path = (
  λ h. record {
    not_empty = ground arith;
    short = ground arith;
    absolute = ground arith;
    no_slash = λ k q. ground arith;
  },
  λ m. ground arith,
)
