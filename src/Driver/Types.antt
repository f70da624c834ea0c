-- ===== src/Driver/Types.antt =====
-- The types and constants of include/mx35lf1_driver.h and include/mx35lf1_cmd.h, and the
-- services of ESP-IDF and FreeRTOS that the driver calls.
use nand_vfs_mx35lf.Base.{
  ℕ, ◌+◌, Bool, false, Option, none, List, ℤ, pos, negsuc, Result, ok, fail, Op,
}

-- `nand_err_t` without `NAND_RET_OK`, which is the `ok` of a result.
pub data NandErr : Type 0 where
  bad_spi timeout device_id bad_address invalid_len ecc_refresh : NandErr
  ecc_err p_fail e_fail invalid_arg no_mem verify_fail : NandErr

-- The numeric value of the code.
unfoldable pub err_code : NandErr → ℤ
err_code bad_spi = negsuc 0
err_code timeout = negsuc 1
err_code device_id = negsuc 2
err_code bad_address = negsuc 3
err_code invalid_len = negsuc 4
err_code ecc_refresh = negsuc 5
err_code ecc_err = negsuc 6
err_code p_fail = negsuc 7
err_code e_fail = negsuc 8
err_code invalid_arg = negsuc 9
err_code no_mem = negsuc 10
err_code verify_fail = negsuc 11

unfoldable pub ret_code : {A : Type 0} → Result NandErr A → ℤ
ret_code (ok _) = pos 0
ret_code (fail e) = err_code e

-- DEVICE GEOMETRY
abbrev pub nand_page_size : ℕ
nand_page_size = 2048

abbrev pub nand_spare_size : ℕ
nand_spare_size = 64

abbrev pub nand_page_full_size : ℕ
nand_page_full_size = nand_page_size + nand_spare_size

abbrev pub nand_pages_per_block : ℕ
nand_pages_per_block = 64

abbrev pub nand_blocks_per_lun : ℕ
nand_blocks_per_lun = 1024

abbrev pub nand_max_page_address : ℕ
nand_max_page_address = 63

abbrev pub nand_max_block_address : ℕ
nand_max_block_address = 1023

abbrev pub nand_spi_max_transfer : ℕ
nand_spi_max_transfer = nand_page_full_size + 8

abbrev pub nand_op_timeout : ℕ
nand_op_timeout = 3000

abbrev pub nand_timeout_reset_ms : ℕ
nand_timeout_reset_ms = 10

-- SPI COMMAND OPCODES
abbrev pub cmd_write_enable : ℕ
cmd_write_enable = 0x06

abbrev pub cmd_write_disable : ℕ
cmd_write_disable = 0x04

abbrev pub cmd_get_feature : ℕ
cmd_get_feature = 0x0f

abbrev pub cmd_set_feature : ℕ
cmd_set_feature = 0x1f

abbrev pub cmd_page_read : ℕ
cmd_page_read = 0x13

abbrev pub cmd_read_cache_x1 : ℕ
cmd_read_cache_x1 = 0x03

abbrev pub cmd_read_id : ℕ
cmd_read_id = 0x9f

abbrev pub cmd_prog_load : ℕ
cmd_prog_load = 0x02

abbrev pub cmd_prog_execute : ℕ
cmd_prog_execute = 0x10

abbrev pub cmd_block_erase : ℕ
cmd_block_erase = 0xd8

abbrev pub cmd_reset : ℕ
cmd_reset = 0xff

-- FEATURE REGISTER ADDRESSES
abbrev pub nand_feat_block_prot : ℕ
nand_feat_block_prot = 0xa0

abbrev pub nand_feat_secure_otp : ℕ
nand_feat_secure_otp = 0xb0

abbrev pub nand_feat_status : ℕ
nand_feat_status = 0xc0

-- DEVICE IDENTIFICATION
abbrev pub nand_manufacturer_id : ℕ
nand_manufacturer_id = 0xc2

abbrev pub nand_device_id : ℕ
nand_device_id = 0x12

pub data SpiHost : Type 0 where
  spi1_host spi2_host spi3_host : SpiHost

pub record NandConfig : Type 0 where
  pub spi_host : SpiHost
  pub pin_cs : ℤ
  pub clock_speed_hz : ℤ
  pub disable_ecc : Bool

pub record NandInfo : Type 0 where
  pub manufacturer_id : ℕ
  pub device_id : ℕ
  pub total_blocks : ℕ
  pub pages_per_block : ℕ
  pub page_size : ℕ
  pub spare_size : ℕ
  pub ecc_enabled : Bool

-- A heap block: where it lies and what it holds.
pub record Block : Type 0 where
  pub address : ℕ
  pub bytes : List ℕ

-- `nand_handle_t`; `none` is a NULL pointer or handle.
pub record NandHandle : Type 0 where
  pub spi : Option ℕ
  pub info : NandInfo
  pub initialized : Bool
  pub lock : Option ℕ
  pub tx_buf : Option Block
  pub rx_buf : Option Block

abbrev no_info : NandInfo
no_info = record {
  manufacturer_id = 0;
  device_id = 0;
  total_blocks = 0;
  pages_per_block = 0;
  page_size = 0;
  spare_size = 0;
  ecc_enabled = false;
}

-- The handle after `memset(h, 0, sizeof(*h))`.
abbrev pub zero_handle : NandHandle
zero_handle = record {
  spi = none;
  info = no_info;
  initialized = false;
  lock = none;
  tx_buf = none;
  rx_buf = none;
}

-- Whether a pointer argument is NULL.
pub data Ptr : Type 0 where
  null valid : Ptr

-- ESP-IDF and FreeRTOS: the outcome of each call may be anything, and depends on the calls before
-- it through the state. `protected_mode` is CONFIG_NAND_MX35_PROTECTED_MODE. `transmit` gives the
-- bytes received, or `none` for a code other than ESP_OK.
pub record Platform : Type 1 where
  pub State : Type 0
  pub protected_mode : Bool
  pub transmit : (polling : Bool) → List ℕ → (receives : Bool) → State → Option (List ℕ) × State
  pub time : State → ℕ
  pub delay_us : ℕ → State → State
  pub task_delay : ℕ → State → State
  pub ms_to_ticks : ℕ → ℕ
  pub malloc : ℕ → State → Option Block × State
  pub free : Block → State → State
  pub create_mutex : State → Option ℕ × State
  pub delete_mutex : ℕ → State → State
  pub take_mutex : ℕ → State → State
  pub give_mutex : ℕ → State → State
  pub add_device : NandConfig → State → Option ℕ × State
  pub remove_device : ℕ → State → State

-- The driver between two calls: the handle, how often this task holds the mutex, and the platform.
pub record Driver (P : Platform) : Type 0 where
  pub handle : NandHandle
  pub held : ℕ
  pub world : P.State

abbrev pub DriverOp : Platform → Type 0 → Type 0
DriverOp P A = Op (Driver P) NandErr A
