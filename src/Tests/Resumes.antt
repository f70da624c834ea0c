-- ===== src/Tests/Resumes.antt =====
-- The resume policy on a translation layer whose map is corrupt.
use nand_vfs_mx35lf.Base.{
  ◌≡◌, refl, ◌≢◌, false, some, [], ok, fail, ◌>>=◌, pure, throw, attempt, relabel, gets, modify,
  guard, return_code,
}
use nand_vfs_mx35lf.Driver.Types.{valid}
use nand_vfs_mx35lf.Driver.Spi.{
  spi_xfer, spi_write, set_feature, get_feature, set_ecc_en, wait_loop, wait_ready, write_disable,
  lock_all_blocks, nand_write_protect, configure_ecc,
}
use nand_vfs_mx35lf.Driver.Commands.{nand_reset, nand_read_id}
use nand_vfs_mx35lf.Driver.Api.{nand_check_arg}
use nand_vfs_mx35lf.Driver.Lifecycle.{
  nand_mx35lf1_init, allocate, blank_tx, settle, bring_up, attach,
}
use nand_vfs_mx35lf.Hal.{e_too_bad, e_corrupt_map}
use nand_vfs_mx35lf.Disk.{Ftl, Disk, esp_fail, nand_geometry, diskio_nand_dhara_init}
use nand_vfs_mx35lf.Disk.Resume.{diskio_nand_dhara_init-map_resume}
use nand_vfs_mx35lf.Tests.Bench.{board, fresh, config}
use nand_vfs_mx35lf.Tests.Disks.{memory}

abbrev corrupt : Ftl board
corrupt = record memory { map_resume = λ w. (fail e_corrupt_map, w) }

abbrev off : Disk corrupt
off = record {
  map = λ sector. [];
  nand = nand_geometry;
  driver = fresh;
  config = config;
  reset_on_corrupt = false;
  in_use = false;
  ready = false;
  registered = false;
}

comes_up : (nand_mx35lf1_init board valid (some config) fresh).0 ≡ ok tt
unfolding nand_mx35lf1_init nand_check_arg allocate blank_tx attach bring_up settle nand_reset
    nand_read_id nand_write_protect write_disable lock_all_blocks configure_ecc set_ecc_en
    set_feature get_feature wait_ready wait_loop spi_write spi_xfer ◌>>=◌ pure throw attempt relabel
    gets modify guard return_code
comes_up = refl

other_error : e_corrupt_map ≢ e_too_bad
other_error = λ h. cc

diskio_nand_dhara_init-map_resume_example :
    let (x, f) = diskio_nand_dhara_init corrupt 4 (some config) false off in
    (x ≡ fail esp_fail) × (f.map ≡ (λ sector. [])) × (f.ready ≡ false)
diskio_nand_dhara_init-map_resume_example =
    diskio_nand_dhara_init-map_resume 4 config off e_corrupt_map refl comes_up other_error refl
