-- ===== src/Example/DriverTest/Run.antt =====
-- `app_main` of example/main/nand_driver_test.c on a healthy chip runs to its end.
use mathlib.Core.Path.{subst}
use nand_vfs_mx35lf.Base.{
  ℕ, ◌+◌, ◌≤◌, ◌<◌, ◌≡◌, ◌≢◌, refl, sym, ap, ◌∙◌, true, false, none, some, List, [], ◌∷◌, ◌++◌,
  pure, Result, ok, fail, Op, arith, length, take, ◌>>=◌, Good, Gives, bind-Gives, weaken-Gives,
  modify, gets, attempt,
}
use nand_vfs_mx35lf.Driver.Types.{
  NandErr, SpiHost, spi2_host, valid, NandConfig, Platform, Driver, nand_page_full_size,
  nand_manufacturer_id, nand_device_id,
}
use nand_vfs_mx35lf.Driver.Address.{nand_row_addr, row_block}
use nand_vfs_mx35lf.Driver.Address.Laws.{nand_row_addr_fields, validate_row_address_iff}
use nand_vfs_mx35lf.Driver.Api.{nand_check_arg, nand_mx35lf1_get_info, nand_mx35lf1_mounted}
use nand_vfs_mx35lf.Driver.Lifecycle.{device_info, nand_mx35lf1_init}
use nand_vfs_mx35lf.Driver.Lifecycle.Laws.{Up, InitOutcome, nand_mx35lf1_init-InitOutcome}
use nand_vfs_mx35lf.Driver.Lifecycle.Opened.{nand_mx35lf1_init-IsOpen}
use nand_vfs_mx35lf.Driver.Chip.{Chip}
use nand_vfs_mx35lf.Driver.Chip.Wire.{IsOpen}
use nand_vfs_mx35lf.Driver.Chip.Steps.{Writable}
use nand_vfs_mx35lf.Example.DriverTest.{
  SelfTest, Report, chip_info, block_bad, page_free, msg, test_block, test_page, driver_config,
  log_result, on_handle, log_report, test_init, print_info, app_main,
}
use nand_vfs_mx35lf.Example.DriverTest.Stage.{message_page, Stage, log-Stage}
use nand_vfs_mx35lf.Example.DriverTest.Passes.{run_tests-Stage}

-- A call whose code is known.
of_code :
    {S E A : Type 0} {m : Op S E A} {s : S} {a : A}
    → (m s).0 ≡ ok a
    → Gives m s (λ _ t. t ≡ (m s).1)
of_code {m} {s} h = record { run = subst (λ r. Good (λ _ t. t ≡ (m s).1) r (m s).1) (sym h) refl }

code_of_log_result : (r : Result NandErr (Unit {0})) → log_result r ≡ ok tt → r ≡ ok tt
code_of_log_result (ok _) h = refl
code_of_log_result (fail e) h = absurd cc

-- What `print_info` shows of the supported chip.
abbrev pub supported_chip : Platform → Report
supported_chip P =
    chip_info (ok (device_info P driver_config nand_manufacturer_id nand_device_id)) true

up_of_outcome :
    {P : Platform} (cfg : NandConfig) (r : Result NandErr (Unit {0})) (t : Driver P)
    → r ≡ ok tt
    → InitOutcome cfg r t
    → Up cfg t
up_of_outcome cfg (ok _) t h o = o
up_of_outcome cfg (fail e) t h o = absurd cc

abbrev pub test_row : ℕ
test_row = nand_row_addr test_block test_page

abbrev pub copy_row : ℕ
copy_row = nand_row_addr (test_block + 1) test_page

row_ok : (block : ℕ) → block < 1024 → nand_row_addr block 0 < 65536
row_ok block h = (validate_row_address_iff _).0.0 (nand_row_addr_fields block 0 h (omega arith)).0

own_block : (block : ℕ) → block < 1024 → row_block (nand_row_addr block 0) ≡ block
own_block block h = (nand_row_addr_fields block 0 h (omega arith)).1

module _ {P : Platform} (C : Chip P) (spi_bus_initialize : SpiHost → P.State → P.State)
    (served : (w : P.State) → (P.malloc nand_page_full_size w).0 ≢ none) where
  abbrev begin : SelfTest P → SelfTest P
  begin t = (test_init P spi_bus_initialize t).1

  initialized :
      (t : SelfTest P)
      → t.driver.handle.initialized ≡ false
      → (test_init P spi_bus_initialize t).0 ≡ ok tt
      → Up driver_config (begin t).driver × IsOpen (begin t).driver.handle
  unfolding test_init on_handle modify ◌>>=◌
  initialized t closed h =
      let s : Driver P = record (t.driver) {
        world = spi_bus_initialize spi2_host t.driver.world;
      } in
      let e = code_of_log_result (nand_mx35lf1_init P valid (some driver_config) s).0 h in
      (
        up_of_outcome driver_config _ _ e (nand_mx35lf1_init-InitOutcome driver_config s closed),
        nand_mx35lf1_init-IsOpen driver_config s e,
      )

  same_log : (t : SelfTest P) → (begin t).logged ≡ t.logged
  unfolding test_init on_handle modify ◌>>=◌
  same_log t = refl

  print_info-Stage :
      {page copy receive : List ℕ} {logged : List Report} {t : SelfTest P}
      → Up driver_config t.driver
      → Stage C spi_bus_initialize test_row copy_row page copy receive logged t
      → Gives (print_info P spi_bus_initialize) t (λ _.
        Stage C spi_bus_initialize test_row copy_row page copy receive
          (logged ++ supported_chip P ∷ []))
  unfolding print_info on_handle log_report nand_mx35lf1_get_info nand_mx35lf1_mounted
      nand_check_arg gets pure modify attempt ◌>>=◌
  print_info-Stage {page} {copy} {receive} {logged} {t} up s =
      let info = t.driver.handle.info in
      let mounted = t.driver.handle.initialized in
      let shown =
        log-Stage C spi_bus_initialize test_row copy_row (chip_info (ok info) mounted) s in
      let same : chip_info (ok info) mounted ≡ supported_chip P =
        ap (chip_info (ok info)) up.0 ∙ ap (λ i. chip_info (ok i) true) up.1 in
      record {
        run =
            subst
              (λ line.
                Stage C spi_bus_initialize test_row copy_row page copy receive (logged ++ line ∷ [])
                  (log_report P spi_bus_initialize (chip_info (ok info) mounted) t).1)
              same shown.run;
      }

  -- When the initialization succeeds, and leaves a healthy chip that is ready and can be written,
  -- and is busy after each command on its array for no longer than the poll allows, behind a heap
  -- that serves a page, with a full page in the row of the copy: the self test runs to its end. It
  -- receives the message that it programmed, and copies it over what the row of the copy held,
  -- which it does not erase. Of the chip it shows the numbers that are supported; it logs that the
  -- block is not bad, whatever mark it had before the first erase, and that the page is free before
  -- the program and not after it.
  pub app_main_lem :
      (t : SelfTest P)
      → t.logged ≡ []
      → t.driver.handle.initialized ≡ false
      → (test_init P spi_bus_initialize t).0 ≡ ok tt
      → C.busy_until (test_init P spi_bus_initialize t).1.driver.world
        ≤ P.time (test_init P spi_bus_initialize t).1.driver.world
      → Writable C (C.view (test_init P spi_bus_initialize t).1.driver.world)
      → length ((C.view (test_init P spi_bus_initialize t).1.driver.world).array copy_row)
        ≡ nand_page_full_size
      → Gives (app_main P spi_bus_initialize) t (λ _ w.
        (w.receive ≡ msg)
        × (w.copied_data
            ≡ take (length msg) (
                C.merge
                  ((C.view (test_init P spi_bus_initialize t).1.driver.world).array copy_row)
                  message_page))
        × (w.logged ≡ supported_chip P ∷ block_bad false ∷ page_free true ∷ page_free false ∷ []))
  unfolding app_main
  app_main_lem t empty closed h ready writable full =
      let (up, opened) = initialized t closed h in
      let start : Stage C spi_bus_initialize test_row copy_row
          ((C.view (begin t).driver.world).array test_row)
          ((C.view (begin t).driver.world).array copy_row) (begin t).receive [] (begin t) =
        record {
          now = C.view (begin t).driver.world;
          at_now = record { open_handle = opened; view = refl; ready = ready };
          page_now = refl;
          copy_now = refl;
          writable = writable;
          receive_now = refl;
          logged_now = same_log t ∙ empty;
        } in
      bind-Gives (of_code h) λ _ u e.
        bind-Gives
          (print_info-Stage (subst (λ u'. Up driver_config u'.driver) (sym e) up) (
            subst
              (λ u'.
                Stage C spi_bus_initialize test_row copy_row
                  ((C.view (begin t).driver.world).array test_row)
                  ((C.view (begin t).driver.world).array copy_row) (begin t).receive [] u')
              (sym e) start))
          λ _ w s.
            weaken-Gives
              (run_tests-Stage C spi_bus_initialize test_row copy_row (row_ok 773 (omega arith))
                (row_ok 774 (omega arith))
                (ap (λ b. nand_row_addr b 0) (own_block 773 (omega arith))) other_block served full
                s)
              λ _ x (copied, last). (last.receive_now, copied, last.logged_now)
    where
      other_block : row_block copy_row ≢ row_block test_row
      other_block =
          λ e. absurd (omega (arith, e, own_block 773 (omega arith), own_block 774 (omega arith)))
