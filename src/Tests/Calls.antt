-- ===== src/Tests/Calls.antt =====
-- The theorems on single calls of the driver and of the hooks, on the simulated board and on one
-- whose bus fails.
use nand_vfs_mx35lf.Base.{[], ◌∷◌, ◌+◌, ◌*◌, ◌≤◌, ◌<◌, ◌≡◌, refl, ◌↔◌, true, false, none, some}
use nand_vfs_mx35lf.Driver.Types.{
  valid, Platform, Driver, nand_page_full_size, nand_spi_max_transfer,
}
use nand_vfs_mx35lf.Driver.Address.{validate_row_address, validate_column_address, validate_length}
use nand_vfs_mx35lf.Driver.Address.Laws.{validate_length_iff}
use nand_vfs_mx35lf.Driver.Spi.{wait_ready}
use nand_vfs_mx35lf.Driver.Calls.{after_call, page_copy}
use nand_vfs_mx35lf.Driver.Calls.Device.{SameDevice, after_call-SameDevice}
use nand_vfs_mx35lf.Driver.Poll.{Outcome, wait_ready-Outcome}
use nand_vfs_mx35lf.Driver.Lifecycle.{nand_mx35lf1_init}
use nand_vfs_mx35lf.Driver.Lifecycle.Laws.{InitOutcome, nand_mx35lf1_init-InitOutcome}
use nand_vfs_mx35lf.Hal.{
  e_none, dhara_nand_erase, dhara_nand_is_bad, dhara_nand_is_free, dhara_nand_prog, dhara_nand_read,
  dhara_nand_copy,
}
use nand_vfs_mx35lf.Hal.Silent.{unreported, silent_hooks}
use nand_vfs_mx35lf.Tests.Bench.{board, board_clock, fresh, opened, config}

after_call-SameDevice_example :
    SameDevice opened (after_call board (page_copy valid 130 200) opened)
after_call-SameDevice_example = after_call-SameDevice (page_copy valid 130 200) opened

wait_ready-Outcome_example : Outcome board_clock (0 + 3000 * 1000) (wait_ready board 3000 opened)
wait_ready-Outcome_example = wait_ready-Outcome board_clock 3000 opened

nand_mx35lf1_init-InitOutcome_example :
    InitOutcome config
      (nand_mx35lf1_init board valid (some config) fresh).0
      (nand_mx35lf1_init board valid (some config) fresh).1
nand_mx35lf1_init-InitOutcome_example = nand_mx35lf1_init-InitOutcome config fresh refl

-- The board with a bus on which every transfer fails.
abbrev broken : Platform
broken = record board { transmit = λ polling tx receives w. (none, w) }

abbrev stuck : Driver broken
stuck = record { handle = opened.handle; held = 0; world = opened.world }

silent_hooks_example :
    ((dhara_nand_is_bad broken 2 stuck).0 ≡ true)
    × ((dhara_nand_is_free broken 130 stuck).0 ≡ false)
    × ((dhara_nand_erase broken 2 (some e_none) stuck).0 ≡ unreported (some e_none))
    × ((dhara_nand_prog broken 130 (7 ∷ 8 ∷ []) (some e_none) stuck).0 ≡ unreported (some e_none))
    × ((dhara_nand_read broken 130 4 16 (some e_none) stuck).0 ≡ (unreported (some e_none), []))
    × ((dhara_nand_copy broken 130 200 (some e_none) stuck).0 ≡ unreported (some e_none))
silent_hooks_example =
    silent_hooks (λ polling tx receives w. refl) stuck 2 130 4 16 130 200 (7 ∷ 8 ∷ []) (some e_none)

row_ok : validate_row_address 65535 ≡ true
unfolding validate_row_address
row_ok = refl

column_ok : validate_column_address 2111 ≡ true
unfolding validate_column_address
column_ok = refl

validate_length_iff_example :
    ((validate_length 2111 1 ≡ true) ↔ ((0 < 1) × (2111 + 1 ≤ nand_page_full_size)))
    × (validate_length 2111 1 ≡ true → 4 + 1 ≤ nand_spi_max_transfer)
validate_length_iff_example = validate_length_iff 2111 1 column_ok
