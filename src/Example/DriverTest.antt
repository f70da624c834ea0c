-- ===== src/Example/DriverTest.antt =====
-- The self test of the driver, example/main/nand_driver_test.c. A test that returns false is an error,
-- after which `app_main` returns. The static buffers and what is logged of the chip are in the state.
pub mod Stage
pub mod Passes
pub mod Run
use Prim.Native.Char.{code}
use nand_vfs_mx35lf.Base.{
  ℕ, ◌+◌, Bool, String, some, List, [], ◌∷◌, ◌++◌, Result, ok, fail, Op, pos, false, length, gets,
  modify, attempt, ◌>>=◌, ◌>>◌,
}
use nand_vfs_mx35lf.Driver.Types.{
  NandErr, SpiHost, spi2_host, valid, NandConfig, NandInfo, Platform, Driver, DriverOp,
}
use nand_vfs_mx35lf.Driver.Address.{nand_row_addr}
use nand_vfs_mx35lf.Driver.Api.{
  nand_mx35lf1_block_erase, nand_mx35lf1_block_is_bad, nand_mx35lf1_page_is_free,
  nand_mx35lf1_page_program, nand_mx35lf1_page_read, nand_mx35lf1_page_copy, nand_mx35lf1_get_info,
  nand_mx35lf1_mounted,
}
use nand_vfs_mx35lf.Driver.Lifecycle.{nand_mx35lf1_init}

abbrev pub test_block : ℕ
test_block = 773

abbrev pub test_page : ℕ
test_page = 0

-- The bytes of a text.
abbrev pub codes : String → List ℕ
codes String.[] = []
codes (String.◌∷◌ c s) = code c ∷ codes s

-- `msg`, with the NUL that `sizeof(msg)` counts.
abbrev pub msg : List ℕ
msg = codes "Sample test message for the mx35lf1 NAND driver to test the funcionality" ++ 0 ∷ []

abbrev pub driver_config : NandConfig
driver_config = record {
  spi_host = spi2_host;
  pin_cs = pos 15;
  clock_speed_hz = pos 50000000;
  disable_ecc = false;
}

-- What is logged of the chip: the answers to "is bad?" and "is free?", and what `print_info` shows. A
-- `fail` there is an `info` that the driver has not set.
pub data Report : Type 0 where
  chip_info : Result (Unit {0}) NandInfo → (mounted : Bool) → Report
  block_bad : Bool → Report
  page_free : Bool → Report

-- The static variables, with the log.
pub record SelfTest (P : Platform) : Type 0 where
  pub driver : Driver P
  pub receive : List ℕ
  pub copied_data : List ℕ
  pub logged : List Report

-- `log_result(name, ret == NAND_RET_OK, ...)`: the code itself is dropped.
abbrev pub log_result : {A : Type 0} → Result NandErr A → Result (Unit {0}) A
log_result (ok a) = ok a
log_result (fail e) = fail tt

-- `spi_bus_initialize` is of ESP-IDF; its result is not looked at.
module _ (P : Platform) (spi_bus_initialize : SpiHost → P.State → P.State) where
  abbrev pub TestOp : Type 0 → Type 0
  TestOp A = Op (SelfTest P) (Unit {0}) A

  -- A call on the static handle.
  unfoldable pub on_handle : {A : Type 0} → DriverOp P A → TestOp A
  on_handle op t = let (ret, d) = op t.driver in (log_result ret, record t { driver = d })

  unfoldable pub log_report : Report → TestOp (Unit {0})
  log_report line = modify (λ t. record t { logged = t.logged ++ line ∷ [] })

  unfoldable pub test_init : TestOp (Unit {0})
  test_init = do
    modify (λ t. record t {
      driver = record (t.driver) { world = spi_bus_initialize spi2_host t.driver.world };
    })
    on_handle (nand_mx35lf1_init P valid (some driver_config))

  -- The code of `nand_mx35lf1_get_info` is not looked at.
  unfoldable pub print_info : TestOp (Unit {0})
  print_info = do
    info ← attempt (on_handle (nand_mx35lf1_get_info P valid valid))
    mounted ← gets (λ t. nand_mx35lf1_mounted P valid t.driver)
    log_report (chip_info info mounted)

  unfoldable pub test_block_erase : ℕ → TestOp (Unit {0})
  test_block_erase row = on_handle (nand_mx35lf1_block_erase P valid row)

  unfoldable pub test_block_is_bad : ℕ → TestOp (Unit {0})
  test_block_is_bad row = do
    is_bad ← on_handle (nand_mx35lf1_block_is_bad P valid row valid)
    log_report (block_bad is_bad)

  unfoldable pub test_page_is_free : ℕ → TestOp (Unit {0})
  test_page_is_free row = do
    is_free ← on_handle (nand_mx35lf1_page_is_free P valid row valid)
    log_report (page_free is_free)

  unfoldable pub test_page_program : ℕ → ℕ → TestOp (Unit {0})
  test_page_program row column =
      on_handle (nand_mx35lf1_page_program P valid row column (some msg) (length msg))

  -- `buffer` says where the bytes go.
  unfoldable pub test_page_read :
      ℕ → ℕ → (buffer : List ℕ → SelfTest P → SelfTest P) → (size : ℕ) → TestOp (Unit {0})
  test_page_read row column buffer size = do
    bytes ← on_handle (nand_mx35lf1_page_read P valid row column valid size)
    modify (buffer bytes)

  unfoldable pub test_page_copy : ℕ → ℕ → TestOp (Unit {0})
  test_page_copy src dst = on_handle (nand_mx35lf1_page_copy P valid src dst)

  abbrev pub into_receive : List ℕ → SelfTest P → SelfTest P
  into_receive bytes t = record t { receive = bytes }

  abbrev pub into_copied_data : List ℕ → SelfTest P → SelfTest P
  into_copied_data bytes t = record t { copied_data = bytes }

  -- The tests of `app_main` on a row and on the row of the copy.
  unfoldable pub run_tests : (row row_dst column column_dst : ℕ) → TestOp (Unit {0})
  run_tests row row_dst column column_dst = do
    test_block_erase row
    test_block_is_bad row
    test_block_erase row
    test_page_is_free row
    test_page_program row column
    test_page_read row column into_receive (length msg)
    test_page_is_free row
    test_page_copy row row_dst
    test_page_read row_dst column_dst into_copied_data (length msg)

  unfoldable pub app_main : TestOp (Unit {0})
  app_main = do
    test_init
    print_info
    run_tests (nand_row_addr test_block test_page) (nand_row_addr (test_block + 1) test_page) 0 0
