-- ===== src/Tests/SelfTests.antt =====
-- The theorem on the self test of the driver, on the simulated board with the slow chip.
use nand_vfs_mx35lf.Base.{
  ◌≡◌, ◌≤◌, arith, ◌≢◌, ◌∙◌, ap, refl, true, false, none, some, [], ◌∷◌, length, take, ok, Gives,
  pure, throw, attempt, relabel, gets, modify, guard, return_code, ◌>>=◌,
}
use nand_vfs_mx35lf.Driver.Types.{SpiHost}
use nand_vfs_mx35lf.Driver.Spi.{
  wait_loop, wait_ready, pause, spi_xfer, spi_write, set_feature, get_feature, nand_write_protect,
  write_disable, lock_all_blocks, configure_ecc, set_ecc_en,
}
use nand_vfs_mx35lf.Driver.Commands.{nand_reset, nand_read_id}
use nand_vfs_mx35lf.Driver.Api.{nand_check_arg}
use nand_vfs_mx35lf.Driver.Lifecycle.{
  nand_mx35lf1_init, allocate, attach, bring_up, settle, blank_tx,
}
use nand_vfs_mx35lf.Driver.Chip.{blank_page}
use nand_vfs_mx35lf.Driver.Chip.RoundTrip.{length-blank_page}
use nand_vfs_mx35lf.Example.DriverTest.{
  SelfTest, block_bad, page_free, msg, on_handle, test_init, app_main,
}
use nand_vfs_mx35lf.Example.DriverTest.Stage.{message_page}
use nand_vfs_mx35lf.Example.DriverTest.Run.{supported_chip, copy_row, app_main_lem}
use nand_vfs_mx35lf.Tests.Bench.Slow.{SlowBoard, slow, slow_fresh}
use nand_vfs_mx35lf.Tests.Bench.Healthy.{slow_chip}

abbrev bus_up : SpiHost → SlowBoard → SlowBoard
bus_up host w = w

abbrev powered : SelfTest slow
powered = record { driver = slow_fresh; receive = []; copied_data = []; logged = [] }

begins : (test_init slow bus_up powered).0 ≡ ok tt
unfolding test_init on_handle nand_mx35lf1_init nand_check_arg allocate attach bring_up settle
    blank_tx nand_reset nand_read_id wait_loop wait_ready pause spi_xfer spi_write set_feature
    get_feature nand_write_protect write_disable lock_all_blocks configure_ecc set_ecc_en ◌>>=◌ pure
    throw attempt relabel gets modify guard return_code
begins = refl

leaves_pages : (test_init slow bus_up powered).1.driver.world.chip.array copy_row ≡ blank_page
unfolding test_init on_handle nand_mx35lf1_init nand_check_arg allocate attach bring_up settle
    blank_tx nand_reset nand_read_id wait_loop wait_ready pause spi_xfer spi_write set_feature
    get_feature nand_write_protect write_disable lock_all_blocks configure_ecc set_ecc_en ◌>>=◌ pure
    throw attempt relabel gets modify guard return_code blank_page
leaves_pages = refl

ready :
    (test_init slow bus_up powered).1.driver.world.due
    ≤ (test_init slow bus_up powered).1.driver.world.clock
unfolding test_init on_handle nand_mx35lf1_init nand_check_arg allocate attach bring_up settle
    blank_tx nand_reset nand_read_id wait_loop wait_ready pause spi_xfer spi_write set_feature
    get_feature nand_write_protect write_disable lock_all_blocks configure_ecc set_ecc_en ◌>>=◌ pure
    throw attempt relabel gets modify guard return_code
ready = omega arith

serves : {A : Type 0} (a : A) → some a ≢ none
serves a = λ e. cc

app_main_lem_example : Gives (app_main slow bus_up) powered (λ _ w.
    (w.receive ≡ msg)
    × (w.copied_data ≡ take (length msg) message_page)
    × (w.logged ≡ supported_chip slow ∷ block_bad false ∷ page_free true ∷ page_free false ∷ []))
app_main_lem_example =
    app_main_lem slow_chip bus_up (λ w. serves _) powered refl refl begins ready refl
      (ap length leaves_pages ∙ length-blank_page)
