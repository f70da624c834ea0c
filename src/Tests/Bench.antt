-- ===== src/Tests/Bench.antt =====
-- A simulated board: a chip with every block erased and its ECC on, behind a bus that never fails, a
-- clock, and a heap that never runs out.
pub mod Healthy
pub mod Slow
use nand_vfs_mx35lf.Base.{
  ℕ, zero, suc, ◌+◌, ◌-◌, ◌*◌, ◌/◌, ◌≤◌, ◌<◌, ◌≡◌, refl, sym, ap, ◌∙◌, true, false, ◌&&◌, some,
  List, [], ◌∷◌, ◌++◌, arith, ◌==◌, if◌then◌else◌, length, get_or, take, drop, replicate,
  length-replicate, take-append, length-take, length-drop, pos,
}
use nand_vfs_mx35lf.Driver.Types.{
  Block, NandConfig, zero_handle, Platform, Driver, spi2_host, nand_page_full_size,
  nand_spi_max_transfer,
}
use nand_vfs_mx35lf.Driver.Address.{row_bytes, column_bytes}
use nand_vfs_mx35lf.Driver.Chip.{View, Chip, blank_page, place, store_row, erase_rows}
use nand_vfs_mx35lf.Driver.Chip.Wire.{At}
use nand_vfs_mx35lf.Driver.Poll.{IsClock}

pub record Board : Type 0 where
  pub chip : View
  pub clock : ℕ

-- A row and a column as the frames carry them.
abbrev pub row_of : List ℕ → ℕ
row_of xs = get_or xs 0 0 * 65536 + get_or xs 1 0 * 256 + get_or xs 2 0

abbrev pub column_of : List ℕ → ℕ
column_of xs = get_or xs 0 0 * 256 + get_or xs 1 0

abbrev pub program : ℕ → View → View
program row v =
    if v.wel && v.unlocked
    then record v { array = store_row row v.cache v.array; wel = false }
    else v

abbrev pub erase : ℕ → View → View
erase row v =
    if v.wel && v.unlocked
    then record v { array = erase_rows (row / 64) v.array; wel = false }
    else v

abbrev pub feature : ℕ → ℕ → View → View
feature reg value v = if reg == 0xa0 then record v { unlocked = value == 0 } else v

abbrev pub react : List ℕ → View → View
react [] v = v
react (cmd ∷ xs) v =
    if cmd == 0x06
    then record v { wel = true }
    else if cmd == 0x04
    then record v { wel = false }
    else if cmd == 0x1f
    then feature (get_or xs 0 0) (get_or xs 1 0) v
    else if cmd == 0x02
    then record v { cache = place (column_of xs) (drop 2 xs) blank_page }
    else if cmd == 0x10
    then program (row_of xs) v
    else if cmd == 0x13
    then record v { cache = v.array (row_of xs) }
    else if cmd == 0xd8
    then erase (row_of xs) v
    else v

abbrev pub reply : List ℕ → View → List ℕ
reply [] v = []
reply (cmd ∷ xs) v =
    if cmd == 0x03
    then 0 ∷ 0 ∷ 0 ∷ 0 ∷ take (length xs - 3) (drop (column_of xs) v.cache)
    else if cmd == 0x9f
    then 0 ∷ 0 ∷ 0xc2 ∷ 0x12 ∷ []
    else if (cmd == 0x0f) && (get_or xs 0 0 == 0xb0)
    then 0 ∷ 0 ∷ 0x10 ∷ []
    else 0 ∷ 0 ∷ 0 ∷ []

abbrev pub board : Platform
board = record {
  State = Board;
  protected_mode = true;
  transmit = λ polling tx receives w. (some (reply tx w.chip), record w { chip = react tx w.chip });
  time = λ w. w.clock;
  delay_us = λ us w. record w { clock = w.clock + us + 1 };
  task_delay = λ ticks w. record w { clock = w.clock + ticks * 1000 + 1 };
  ms_to_ticks = λ ms. ms;
  malloc = λ n w. (some (record { address = 64; bytes = replicate n 0 }), w);
  free = λ b w. w;
  create_mutex = λ w. (some 1, w);
  delete_mutex = λ m w. w;
  take_mutex = λ m w. w;
  give_mutex = λ m w. w;
  add_device = λ cfg w. (some 0, w);
  remove_device = λ d w. w;
}

pub board_clock : IsClock board
board_clock = record {
  transmits = λ polling tx receives w. omega arith;
  delays = λ us w. omega arith;
  yields = λ ticks w. omega arith;
}

abbrev pub erased_chip : View
erased_chip = record {
  array = λ row. blank_page;
  cache = blank_page;
  wel = false;
  unlocked = false;
}

abbrev pub config : NandConfig
config = record {
  spi_host = spi2_host;
  pin_cs = pos 5;
  clock_speed_hz = pos 40000000;
  disable_ecc = false;
}

-- The driver before its initialization, and an open one.
abbrev pub fresh : Driver board
fresh = record { handle = zero_handle; held = 0; world = record { chip = erased_chip; clock = 0 } }

abbrev pub buffer : ℕ → Block
buffer address = record { address = address; bytes = replicate nand_spi_max_transfer 255 }

abbrev pub opened : Driver board
opened = record fresh {
  handle = record zero_handle {
    spi = some 0;
    initialized = true;
    lock = some 1;
    tx_buf = some (buffer 64);
    rx_buf = some (buffer 4096);
  };
}
