-- ===== src/Driver/Lifecycle/Quiet.antt =====
-- The bring-up of the chip in `nand_mx35lf1_init` of src/mx35lf1_driver.c only transmits and waits,
-- and then marks the handle.
use nand_vfs_mx35lf.Base.{ℕ, true, Keeps, bind-Keeps, if-Keeps, modify-Keeps}
use nand_vfs_mx35lf.Driver.Types.{NandConfig, Platform, Driver}
use nand_vfs_mx35lf.Driver.Stable.{
  IsQuiet, unlock_all_blocks-Keeps, nand_write_protect-Keeps, configure_ecc-Keeps,
}
use nand_vfs_mx35lf.Driver.Stable.Commands.{nand_reset-Keeps, nand_read_id-Keeps}
use nand_vfs_mx35lf.Driver.Lifecycle.{settle, device_info, bring_up}

module _ {P : Platform} {R : Driver P → Driver P → Type 0} (q : IsQuiet P R) where
  open q use {preorder}

  pub settle-Keeps : (ms : ℕ) → Keeps R (settle P ms)
  unfolding settle
  settle-Keeps ms = modify-Keeps _ λ s. q.yields _ s

  pub bring_up_quiet :
      ((cfg : NandConfig) (m d : ℕ) (s : Driver P)
        → R s (record s {
          handle = record (s.handle) { info = device_info P cfg m d; initialized = true };
        }))
      → (cfg : NandConfig) → Keeps R (bring_up P cfg)
  unfolding bring_up
  bring_up_quiet marks cfg = bind-Keeps preorder (settle-Keeps _) λ _.
      bind-Keeps preorder (nand_reset-Keeps q) λ _. bind-Keeps preorder (settle-Keeps _) λ _.
        bind-Keeps preorder (nand_read_id-Keeps q) λ p.
          bind-Keeps preorder
            (if-Keeps P.protected_mode (nand_write_protect-Keeps q) (unlock_all_blocks-Keeps q))
            λ _.
              bind-Keeps preorder (configure_ecc-Keeps q _) λ _. modify-Keeps _ (marks cfg p.0 p.1)
