-- ===== src/Tests/Failures.antt =====
-- The theorem on the rows that a call may write to, on a board whose transfers all fail and whose
-- programs and erases leave empty pages.
use nand_vfs_mx35lf.Base.{
  ℕ, ◌/◌, ◌<◌, ◌≡◌, ◌≢◌, refl, true, none, some, List, [], ◌∷◌, arith, ◌==◌, if◌then◌else◌,
  replicate,
}
use nand_vfs_mx35lf.Driver.Types.{Platform, Driver, valid, cmd_prog_execute, cmd_block_erase}
use nand_vfs_mx35lf.Driver.Address.{row_bytes, row_block, row_first_page, nand_row_addr}
use nand_vfs_mx35lf.Driver.Calls.{block_erase, after_call}
use nand_vfs_mx35lf.Driver.Calls.Rows.{Harmless, Rows}
use nand_vfs_mx35lf.Driver.Calls.Targets.{after_call-elsewhere}
use nand_vfs_mx35lf.Hal.{
  HookSteps, done, prog, erase, mark_bad, dhara_nand_prog, dhara_nand_erase, dhara_nand_mark_bad,
}
use nand_vfs_mx35lf.Hal.Elsewhere.{Spares, HookSteps-elsewhere}
use nand_vfs_mx35lf.Tests.Bench.{row_of, opened}
use nand_vfs_mx35lf.Tests.Bench.Healthy.{row_of-row_bytes}

abbrev spoil : List ℕ → (ℕ → List ℕ) → ℕ → List ℕ
spoil [] rows i = rows i
spoil (cmd ∷ xs) rows i =
    if cmd == 0x10
    then (if i == row_of xs then [] else rows i)
    else if cmd == 0xd8
    then (if i / 64 == row_of xs / 64 then [] else rows i)
    else rows i

abbrev broken : Platform
broken = record {
  State = ℕ → List ℕ;
  protected_mode = true;
  transmit = λ polling tx receives w. (none, spoil tx w);
  time = λ w. 0;
  delay_us = λ us w. w;
  task_delay = λ ticks w. w;
  ms_to_ticks = λ ms. ms;
  malloc = λ n w. (some (record { address = 64; bytes = replicate n 0 }), w);
  free = λ b w. w;
  create_mutex = λ w. (some 1, w);
  delete_mutex = λ m w. w;
  take_mutex = λ m w. w;
  give_mutex = λ m w. w;
  add_device = λ cfg w. (some 0, w);
  remove_device = λ d w. w;
}

harmless : (tx : List ℕ) (w : ℕ → List ℕ) (i : ℕ) → Harmless tx → spoil tx w i ≡ w i
harmless [] w i h = refl
harmless (cmd ∷ xs) w i h = ground arith

programs :
    (row i : ℕ) (w : ℕ → List ℕ)
    → row < 65536
    → i ≢ row
    → spoil (cmd_prog_execute ∷ row_bytes row) w i ≡ w i
programs row i w h other = ground (arith, row_of-row_bytes row h)

erases :
    (row i : ℕ) (w : ℕ → List ℕ)
    → row < 65536
    → row_block i ≢ row_block row
    → spoil (cmd_block_erase ∷ row_bytes row) w i ≡ w i
unfolding row_block
erases row i w h other = ground (arith, row_of-row_bytes row h)

abbrev broken-Rows : Rows broken
broken-Rows = record {
  array = λ w. w;
  transmits = λ polling tx receives w i h. harmless tx w i h;
  programs = λ polling row receives w i h other. programs row i w h other;
  erases = λ polling row receives w i h other. erases row i w h other;
  delays = λ us w i. refl;
  yields = λ ticks w i. refl;
  takes = λ m w i. refl;
  gives = λ m w i. refl;
  mallocs = λ n w i. refl;
  frees = λ b w i. refl;
}

abbrev spoiled : Driver broken
spoiled = record { handle = opened.handle; held = 0; world = λ row. row ∷ [] }

another_block : row_block 40 ≢ row_block 200
unfolding row_block
another_block = λ e. absurd (omega arith)

after_call-elsewhere_example :
    broken-Rows.array (after_call broken (block_erase valid 200) spoiled).world 40 ≡ 40 ∷ []
after_call-elsewhere_example =
    after_call-elsewhere broken-Rows (block_erase valid 200) spoiled 40 another_block

-- A program, an erase of its block, and a mark of another block.
abbrev steps : HookSteps broken spoiled (
    dhara_nand_mark_bad broken 9
      (dhara_nand_erase broken 3 none (dhara_nand_prog broken 200 [] none spoiled).1).1)
steps = mark_bad 9 (erase 3 none (prog 200 [] none (done spoiled)))

spared : Spares 40 steps
unfolding row_block row_first_page nand_row_addr
spared = (((tt, λ e. absurd (omega arith)), λ e. absurd (omega arith)), λ e. absurd (omega arith))

HookSteps-elsewhere_example :
    broken-Rows.array
      (dhara_nand_mark_bad broken 9
        (dhara_nand_erase broken 3 none (dhara_nand_prog broken 200 [] none spoiled).1).1).world
      40
    ≡ 40 ∷ []
HookSteps-elsewhere_example = HookSteps-elsewhere broken-Rows 40 spoiled _ steps spared
