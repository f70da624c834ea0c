-- ===== src/Tests/Balances.antt =====
-- The books of the driver's resources, on a platform that counts what it hands out.
use nand_vfs_mx35lf.Base.{
  ℕ, ◌+◌, ◌-◌, ◌≡◌, refl, true, some, [], ◌∷◌, ok, replicate, ◌>>=◌, pure, throw, attempt, relabel,
  gets, modify, guard, return_code,
}
use nand_vfs_mx35lf.Driver.Types.{NandConfig, zero_handle, Platform, Driver, valid}
use nand_vfs_mx35lf.Driver.Spi.{
  wait_loop, wait_ready, spi_xfer, spi_write, set_feature, get_feature, nand_write_protect,
  write_disable, lock_all_blocks, configure_ecc, set_ecc_en,
}
use nand_vfs_mx35lf.Driver.Commands.{nand_reset, nand_read_id}
use nand_vfs_mx35lf.Driver.Api.{nand_check_arg}
use nand_vfs_mx35lf.Driver.Lifecycle.{
  nand_mx35lf1_init, allocate, attach, bring_up, settle, blank_tx,
}
use nand_vfs_mx35lf.Driver.Resources.{Ledger}
use nand_vfs_mx35lf.Driver.Resources.Balance.{Balanced, nand_mx35lf1_init-Balanced}
use nand_vfs_mx35lf.Tests.Bench.{config}

-- The state is the count. The chip answers every frame with its two numbers.
abbrev counting : Platform
counting = record {
  State = ℕ;
  protected_mode = true;
  transmit = λ polling tx receives w. (some (0 ∷ 0 ∷ 0xc2 ∷ 0x12 ∷ []), w);
  time = λ w. 0;
  delay_us = λ us w. w;
  task_delay = λ ticks w. w;
  ms_to_ticks = λ ms. ms;
  malloc = λ n w. (some (record { address = 64; bytes = replicate n 0 }), w + 1);
  free = λ b w. w - 1;
  create_mutex = λ w. (some 1, w + 1);
  delete_mutex = λ m w. w - 1;
  take_mutex = λ m w. w;
  give_mutex = λ m w. w;
  add_device = λ cfg w. (some 0, w + 1);
  remove_device = λ d w. w - 1;
}

books : Ledger counting
books = record {
  live = λ w. w;
  mallocs = λ n w. refl;
  creates = λ w. refl;
  adds = λ cfg w. refl;
  frees = λ b w. refl;
  deletes = λ m w. refl;
  removes = λ d w. refl;
  transmits = λ polling tx receives w. refl;
  delays = λ us w. refl;
  yields = λ ticks w. refl;
  takes = λ m w. refl;
  gives = λ m w. refl;
}

abbrev closed_handle : Driver counting
closed_handle = record { handle = zero_handle; held = 0; world = 7 }

abbrev raw_config : NandConfig
raw_config = record config { disable_ecc = true }

-- The initialization that the witness is about succeeds.
opens : (nand_mx35lf1_init counting valid (some raw_config) closed_handle).0 ≡ ok tt
unfolding nand_mx35lf1_init nand_check_arg allocate attach bring_up settle blank_tx nand_reset
    nand_read_id wait_loop wait_ready spi_xfer spi_write set_feature get_feature nand_write_protect
    write_disable lock_all_blocks configure_ecc set_ecc_en ◌>>=◌ pure throw attempt relabel gets
    modify guard return_code
opens = refl

nand_mx35lf1_init-Balanced_example :
    Balanced books
      (books.live closed_handle.world)
      (nand_mx35lf1_init counting valid (some raw_config) closed_handle).0
      (nand_mx35lf1_init counting valid (some raw_config) closed_handle).1
nand_mx35lf1_init-Balanced_example = nand_mx35lf1_init-Balanced books raw_config closed_handle refl
