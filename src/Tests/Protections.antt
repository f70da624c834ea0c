-- ===== src/Tests/Protections.antt =====
-- The theorems on the write protection, on the simulated board and on one whose chip reports every
-- failure.
use mathlib.Core.Path.{subst}
use nand_vfs_mx35lf.Base.{
  ℕ, ◌≡◌, ◌≢◌, ◌⊎◌, inl, inr, refl, sym, true, false, none, some, List, [], ◌∷◌, arith, ok, ◌>>=◌,
  pure, throw, attempt, relabel, gets, modify, guard, return_code,
}
use nand_vfs_mx35lf.Driver.Types.{valid, Platform, Driver}
use nand_vfs_mx35lf.Driver.Spi.{
  wait_loop, wait_ready, spi_xfer, spi_write, set_feature, get_feature, nand_write_protect,
  write_disable, lock_all_blocks, configure_ecc, set_ecc_en,
}
use nand_vfs_mx35lf.Driver.Commands.{nand_reset, nand_read_id}
use nand_vfs_mx35lf.Driver.Api.{nand_check_arg}
use nand_vfs_mx35lf.Driver.Lifecycle.{
  nand_mx35lf1_init, allocate, attach, bring_up, settle, blank_tx,
}
use nand_vfs_mx35lf.Driver.Lifecycle.Opened.{nand_mx35lf1_init-IsOpen}
use nand_vfs_mx35lf.Driver.Chip.Wire.{IsOpen}
use nand_vfs_mx35lf.Driver.Calls.{after_call, page_program}
use nand_vfs_mx35lf.Driver.Protection.{Latches, is_reading, Protects}
use nand_vfs_mx35lf.Driver.Protection.Calls.{IsProtected, after_call-IsProtected}
use nand_vfs_mx35lf.Driver.Protection.Init.{nand_mx35lf1_init-IsProtected}
use nand_vfs_mx35lf.Driver.Chip.{View}
use nand_vfs_mx35lf.Hal.{dhara_nand_read, dhara_nand_prog, done, read, prog}
use nand_vfs_mx35lf.Disk.{Ftl, Disk, nand_geometry, disk_write_dhara}
use nand_vfs_mx35lf.Disk.Lifecycle.Steps.{write}
use nand_vfs_mx35lf.Disk.Lifecycle.Protection.{IsHooked, WhileReady, Step-WhileReady}
use nand_vfs_mx35lf.Tests.Bench.{board, react, fresh, opened, config}

abbrev latches_of : View → Latches
latches_of v = record { wel = v.wel; unlocked = v.unlocked }

answered : (xs : List ℕ) → some xs ≢ none
answered xs = λ e. cc

reading : (cmd : ℕ) → is_reading cmd ≡ true → (cmd ≡ 15) ⊎ (cmd ≡ 19) ⊎ (cmd ≡ 3)
reading cmd h = ground arith

reads_keep :
    (cmd : ℕ) (rest : List ℕ) (v : View)
    → is_reading cmd ≡ true
    → latches_of (react (cmd ∷ rest) v) ≡ latches_of v
reads_keep cmd rest v h = elim (reading cmd h) [
  | inl e ↦ subst (λ c. latches_of (react (c ∷ rest) v) ≡ latches_of v) (sym e) refl
  | inr (inl e) ↦ subst (λ c. latches_of (react (c ∷ rest) v) ≡ latches_of v) (sym e) refl
  | inr (inr e) ↦ subst (λ c. latches_of (react (c ∷ rest) v) ≡ latches_of v) (sym e) refl
]

abbrev board_protects : Protects board
board_protects = record {
  latches = λ w. latches_of w.chip;
  answers_disable = λ polling w. answered _;
  answers_feature = λ polling reg value w. answered _;
  disables = λ polling w. refl;
  locks = λ polling w. refl;
  configures = λ polling value w. refl;
  reads = λ polling cmd rest receives w h. reads_keep cmd rest w.chip h;
  delays = λ us w. refl;
  yields = λ ticks w. refl;
  takes = λ m w. refl;
  gives = λ m w. refl;
  mallocs = λ n w. refl;
  frees = λ b w. refl;
}

-- A chip whose status is ready with P_FAIL and E_FAIL set.
abbrev failing : Platform
failing = record board {
  transmit = λ polling tx receives w. (some (0 ∷ 0 ∷ 12 ∷ []), record w { chip = react tx w.chip });
}

abbrev failing_open : Driver failing
failing_open = record { handle = opened.handle; held = 0; world = opened.world }

abbrev failing_protects : Protects failing
failing_protects = record {
  latches = λ w. latches_of w.chip;
  answers_disable = λ polling w. answered _;
  answers_feature = λ polling reg value w. answered _;
  disables = λ polling w. refl;
  locks = λ polling w. refl;
  configures = λ polling value w. refl;
  reads = λ polling cmd rest receives w h. reads_keep cmd rest w.chip h;
  delays = λ us w. refl;
  yields = λ ticks w. refl;
  takes = λ m w. refl;
  gives = λ m w. refl;
  mallocs = λ n w. refl;
  frees = λ b w. refl;
}

after_call-IsProtected_example :
    IsProtected failing_protects
      (after_call failing (page_program valid 130 0 (some (7 ∷ [])) 1) failing_open)
after_call-IsProtected_example =
    after_call-IsProtected failing_protects refl (page_program valid 130 0 (some (7 ∷ [])) 1)
      failing_open (record { tx = 64; tx_buf = refl; latches = refl })

-- The board's register reads as zero, which is right when the ECC is off.
init_ok : (nand_mx35lf1_init board valid (some config) fresh).0 ≡ ok tt
unfolding nand_mx35lf1_init nand_check_arg allocate attach bring_up settle blank_tx nand_reset
    nand_read_id wait_loop wait_ready spi_xfer spi_write set_feature get_feature nand_write_protect
    write_disable lock_all_blocks configure_ecc set_ecc_en ◌>>=◌ pure throw attempt relabel gets
    modify guard return_code
init_ok = refl

nand_mx35lf1_init-IsProtected_example :
    IsProtected board_protects (nand_mx35lf1_init board valid (some config) fresh).1
nand_mx35lf1_init-IsProtected_example =
    nand_mx35lf1_init-IsProtected board_protects refl config fresh init_ok

nand_mx35lf1_init-IsOpen_example :
    IsOpen (nand_mx35lf1_init board valid (some config) fresh).1.handle
nand_mx35lf1_init-IsOpen_example = nand_mx35lf1_init-IsOpen config fresh init_ok

-- A translation layer that keeps each sector in the row of its number.
abbrev direct : Ftl failing
direct = record {
  Map = Unit {0};
  map_init = λ g gc_ratio m. m;
  map_resume = λ w. (ok tt, w);
  map_clear = λ w. w;
  map_capacity = λ m. 65536;
  map_read = λ sector w.
      let (got, s) = dhara_nand_read failing sector 0 2048 none w.1 in (ok got.1, (w.0, s));
  map_write = λ sector page w. (ok tt, (w.0, (dhara_nand_prog failing sector page none w.1).1));
  map_trim = λ sector w. (ok tt, w);
  map_sync = λ w. (ok tt, w);
}

direct-IsHooked : IsHooked direct
direct-IsHooked = record {
  resumes = λ w. done w.1;
  clears = λ w. done w.1;
  reads = λ sector w. read sector 0 2048 none (done w.1);
  writes = λ sector page w. prog sector page none (done w.1);
  trims = λ sector w. done w.1;
  syncs = λ w. done w.1;
}

abbrev failing_disk : Disk direct
failing_disk = record {
  map = tt;
  nand = nand_geometry;
  driver = failing_open;
  config = config;
  reset_on_corrupt = false;
  in_use = true;
  ready = true;
  registered = true;
}

Step-WhileReady_example :
    WhileReady failing_protects (disk_write_dhara direct 4 0 (7 ∷ 8 ∷ []) 130 1 failing_disk).1
Step-WhileReady_example =
    Step-WhileReady direct-IsHooked failing_protects refl 4 failing_disk _
      (write 0 (7 ∷ 8 ∷ []) 130 1 failing_disk)
      λ _. record { tx = 64; tx_buf = refl; latches = refl }
