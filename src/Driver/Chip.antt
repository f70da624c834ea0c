-- ===== src/Driver/Chip.antt =====
-- What the driver relies on of a healthy MX35LF1GE4AB behind the SPI bus, as its data sheet
-- documents the commands of include/mx35lf1_cmd.h. The chip is not under the repository: it is a
-- parameter, and these are the hypotheses about it. From an array command on it is busy for a time,
-- during which nothing is known of what it does on a frame that does not read the status.
pub mod Wire
pub mod Waits
pub mod Steps
pub mod Pages
pub mod Writes
pub mod Reads
pub mod RoundTrip
pub mod Clear
pub mod Free
use nand_vfs_mx35lf.Base.{
  ℕ, ◌+◌, ◌*◌, ◌/◌, ◌≤◌, ◌<◌, ◌≡◌, Bool, true, false, ◌||◌, Option, some, List, [], ◌∷◌, ◌++◌, ◌==◌,
  if◌then◌else◌, length, get_or, take, drop, replicate,
}
use nand_vfs_mx35lf.Driver.Types.{
  Block, Platform, cmd_write_enable, cmd_write_disable, cmd_set_feature, cmd_get_feature,
  cmd_prog_load, cmd_prog_execute, cmd_page_read, cmd_read_cache_x1, cmd_block_erase,
  nand_feat_block_prot, nand_feat_status, nand_page_full_size, cmd_reset, nand_op_timeout,
}
use nand_vfs_mx35lf.Driver.Address.{row_bytes, column_bytes}
use nand_vfs_mx35lf.Driver.Poll.{IsClock}
use nand_vfs_mx35lf.Driver.Spi.{all_locked, oip, e_fail_bit, p_fail_bit, eccs0_2}

-- The parts of the chip that the commands work on: 2112 bytes for each row, the page register, the
-- write enable latch, and whether the block protection is off. While the chip is busy this is what
-- it will hold at the end.
pub record View : Type 0 where
  pub array : ℕ → List ℕ
  pub cache : List ℕ
  pub wel : Bool
  pub unlocked : Bool

unfoldable pub blank_page : List ℕ
blank_page = replicate nand_page_full_size 255

-- The bytes put into a page from a column on.
abbrev pub place : ℕ → List ℕ → List ℕ → List ℕ
place column bytes page = take column page ++ (bytes ++ drop (column + length bytes) page)

abbrev pub store_row : ℕ → List ℕ → (ℕ → List ℕ) → ℕ → List ℕ
store_row row page array j = if j == row then page else array j

abbrev pub erase_rows : ℕ → (ℕ → List ℕ) → ℕ → List ℕ
erase_rows block array j = if j / 64 == block then blank_page else array j

-- The status of a chip whose last command has succeeded.
pub record IsHealthy (status : ℕ) : Type 0 where
  pub ready : oip status ≡ 0
  pub erased : e_fail_bit status ≡ 0
  pub programmed : p_fail_bit status ≡ 0
  pub corrected : eccs0_2 status ≤ 1

-- The frame of `get_feature` for the status register.
abbrev pub status_frame : List ℕ
status_frame = cmd_get_feature ∷ nand_feat_status ∷ 0 ∷ []

-- The commands after which the chip is busy.
abbrev pub is_array_command : List ℕ → Bool
is_array_command [] = false
is_array_command (cmd ∷ xs) =
    (cmd == cmd_prog_execute)
    || (cmd == cmd_page_read)
    || (cmd == cmd_block_erase)
    || (cmd == cmd_reset)

-- A step that the chip takes no part in: its contents are the same, it is busy until the same time,
-- and the clock does not go back.
pub record Aside {S : Type 0} (view : S → View) (busy_until time : S → ℕ) (w w' : S) : Type 0 where
  pub seen : view w' ≡ view w
  pub due : busy_until w' ≡ busy_until w
  pub later : time w ≤ time w'

pub record Chip (P : Platform) : Type 0 where
  pub view : P.State → View
  -- The time from which on the chip is ready, in microseconds of the clock.
  pub busy_until : P.State → ℕ
  -- What the chip does on a frame, and what it sends back, when it is ready.
  pub react : List ℕ → View → View
  pub reply : List ℕ → View → List ℕ
  pub status : P.State → List ℕ
  -- A page as it is left by programming the register over its old bytes.
  pub merge : List ℕ → List ℕ → List ℕ
  pub clock : IsClock P
  pub answers :
      (polling : Bool) (tx : List ℕ) (receives : Bool) (w : P.State)
      → busy_until w ≤ P.time w
      → (P.transmit polling tx receives w).0 ≡ some (reply tx (view w))
  pub reacts :
      (polling : Bool) (tx : List ℕ) (receives : Bool) (w : P.State)
      → busy_until w ≤ P.time w
      → view (P.transmit polling tx receives w).1 ≡ react tx (view w)
  -- The longest that an array command takes, and the longest that a read of the status takes.
  pub longest : ℕ
  pub transfer : ℕ
  pub in_time : longest + transfer ≤ nand_op_timeout * 1000
  pub starts :
      (polling : Bool) (tx : List ℕ) (receives : Bool) (w : P.State)
      → busy_until w ≤ P.time w
      → busy_until (P.transmit polling tx receives w).1
        ≤ P.time (P.transmit polling tx receives w).1 + longest
  pub stays :
      (polling : Bool) (tx : List ℕ) (receives : Bool) (w : P.State)
      → is_array_command tx ≡ false
      → busy_until w ≤ P.time w
      → busy_until (P.transmit polling tx receives w).1
        ≤ P.time (P.transmit polling tx receives w).1
  -- The status is sent at any time: OIP is set while the chip is busy. A healthy chip that is ready
  -- has no failure bit and no uncorrected error.
  pub tells :
      (polling : Bool) (w : P.State) → (P.transmit polling status_frame true w).0 ≡ some (status w)
  pub polls :
      (polling : Bool) (w : P.State)
      → Aside view busy_until P.time w (P.transmit polling status_frame true w).1
  pub takes_up_to :
      (polling : Bool) (w : P.State)
      → P.time (P.transmit polling status_frame true w).1 ≤ P.time w + transfer
  pub is_busy : (w : P.State) → P.time w < busy_until w → oip (get_or (status w) 2 0) ≡ 1
  pub is_ready : (w : P.State) → busy_until w ≤ P.time w → IsHealthy (get_or (status w) 2 0)
  -- What the microcontroller does by itself does not reach the chip.
  pub delays : (us : ℕ) (w : P.State) → Aside view busy_until P.time w (P.delay_us us w)
  pub yields : (ticks : ℕ) (w : P.State) → Aside view busy_until P.time w (P.task_delay ticks w)
  pub takes : (m : ℕ) (w : P.State) → Aside view busy_until P.time w (P.take_mutex m w)
  pub gives : (m : ℕ) (w : P.State) → Aside view busy_until P.time w (P.give_mutex m w)
  pub mallocs : (n : ℕ) (w : P.State) → Aside view busy_until P.time w (P.malloc n w).1
  pub frees : (b : Block) (w : P.State) → Aside view busy_until P.time w (P.free b w)
  -- The commands.
  pub enables : (v : View) → react (cmd_write_enable ∷ []) v ≡ record v { wel = true }
  pub disables : (v : View) → react (cmd_write_disable ∷ []) v ≡ record v { wel = false }
  pub unlocks :
      (v : View)
      → react (cmd_set_feature ∷ nand_feat_block_prot ∷ 0 ∷ []) v ≡ record v { unlocked = true }
  pub locks :
      (v : View)
      → react (cmd_set_feature ∷ nand_feat_block_prot ∷ all_locked ∷ []) v
        ≡ record v { unlocked = false }
  -- The rest of the register is filled with ones.
  pub loads :
      (column : ℕ) (bytes : List ℕ) (v : View)
      → column + length bytes ≤ nand_page_full_size
      → react (cmd_prog_load ∷ column_bytes column ++ bytes) v
        ≡ record v { cache = place column bytes blank_page }
  pub programs :
      (row : ℕ) (v : View)
      → row < 65536
      → v.wel ≡ true
      → v.unlocked ≡ true
      → react (cmd_prog_execute ∷ row_bytes row) v
        ≡ record v { array = store_row row (merge (v.array row) v.cache) v.array; wel = false }
  pub reads :
      (row : ℕ) (v : View)
      → row < 65536
      → react (cmd_page_read ∷ row_bytes row) v ≡ record v { cache = v.array row }
  pub erases :
      (row : ℕ) (v : View)
      → row < 65536
      → v.wel ≡ true
      → v.unlocked ≡ true
      → react (cmd_block_erase ∷ row_bytes row) v
        ≡ record v { array = erase_rows (row / 64) v.array; wel = false }
  pub sends :
      (column : ℕ) (rest : List ℕ) (v : View)
      → react (cmd_read_cache_x1 ∷ column_bytes column ++ (0 ∷ rest)) v ≡ v
  -- Behind the command, column and dummy bytes the register comes back, a byte for each one sent.
  pub shifts_out :
      (column : ℕ) (rest : List ℕ) (v : View)
      → column + length rest ≤ nand_page_full_size
      → length v.cache ≡ nand_page_full_size
      → (ys : List ℕ)
      → take
          (length rest)
          (drop 4 (reply (cmd_read_cache_x1 ∷ column_bytes column ++ (0 ∷ rest)) v ++ ys))
        ≡ take (length rest) (drop column v.cache)
  -- Programming keeps the length of a page, and only clears bits: erased bytes take the new value,
  -- and a zero is kept.
  pub merge_length :
      (old new : List ℕ) → length old ≡ length new → length (merge old new) ≡ length new
  pub merge_blank : (page : List ℕ) → merge blank_page page ≡ page
  pub merge_zero :
      (old new : List ℕ) (i : ℕ) → get_or new i 255 ≡ 0 → get_or (merge old new) i 0 ≡ 0
