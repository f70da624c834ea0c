-- ===== src/Tests/Tours.antt =====
-- The theorems on the tour of the mounted file system, over files that are never full.
use nand_vfs_mx35lf.Base.{
  ℕ, zero, suc, ◌+◌, ◌-◌, ◌<◌, ◌≡◌, refl, true, Option, some, none, List, [], ◌∷◌, arith, length,
  ok, Gives, pure, throw, attempt, relabel, gets, modify, guard, return_code, ◌>>=◌,
}
use nand_vfs_mx35lf.Driver.Spi.{
  spi_xfer, spi_write, set_feature, get_feature, set_ecc_en, wait_loop, wait_ready, write_disable,
  lock_all_blocks, nand_write_protect, configure_ecc,
}
use nand_vfs_mx35lf.Driver.Commands.{nand_reset, nand_read_id}
use nand_vfs_mx35lf.Driver.Api.{nand_check_arg}
use nand_vfs_mx35lf.Driver.Lifecycle.{
  nand_mx35lf1_init, allocate, blank_tx, settle, bring_up, attach,
}
use nand_vfs_mx35lf.Disk.{
  diskio_nand_dhara_init, finish_init, disk_initialize_dhara, start_map, clear_map, resumed,
  with_map,
}
use nand_vfs_mx35lf.Vfs.{
  Vfs, vfs_nand_register, check_conf, check_path, init_bus, with_services, register_disk,
  with_diskio, mount_result, mount_volume, register_vfs, with_disk, vfs_nand_format,
}
use nand_vfs_mx35lf.Vfs.Mount.{Same-refl}
use nand_vfs_mx35lf.Example.FileTour.{
  Files, call, write_file, test_conf, on_mount, test_mount, start_tour, app_main,
}
use nand_vfs_mx35lf.Example.FileTour.Ledger.{Ledger}
use nand_vfs_mx35lf.Example.FileTour.Kept.{IsKept}
use nand_vfs_mx35lf.Example.FileTour.Tour.{app_main-Closes}
use nand_vfs_mx35lf.Example.FileTour.Unmounted.{
  SameMount, SameMount-IsPreorder, Down, app_main-Down,
}
use nand_vfs_mx35lf.Tests.Mounts.{services, services-KeepsDisk, unmounted, unmounted-IsTidy}

-- The streams that are open, and the entries that are left to read.
record Streams : Type 0 where
  open_streams : ℕ
  entries : ℕ

-- A directory stream with this many entries left gives one named "a", or none.
abbrev next_entry : ℕ → Option (List ℕ)
next_entry zero = none
next_entry (suc n) = some (97 ∷ [])

abbrev files : Files (Vfs services)
files = record {
  State = Streams;
  fopen = λ path mode s. (some 3, (s.0, record (s.1) { open_streams = s.1.open_streams + 1 }));
  fwrite = λ bytes f s. (length bytes, s);
  fread = λ n f s. ([], s);
  fseek = λ n f s. s;
  fclose = λ f s. (true, (s.0, record (s.1) { open_streams = s.1.open_streams - 1 }));
  opendir =
      λ path s. (some 4, (s.0, record (s.1) { open_streams = s.1.open_streams + 1; entries = 2 }));
  readdir = λ dp s. (next_entry s.1.entries, (s.0, record (s.1) { entries = s.1.entries - 1 }));
  closedir = λ dp s. (s.0, record (s.1) { open_streams = s.1.open_streams - 1 });
  stat = λ path s. (none, s);
  rename = λ old new s. s;
  unlink = λ path s. s;
  mkdir = λ path s. s;
}

fewer : (n : ℕ) (name : List ℕ) → next_entry n ≡ some name → n - 1 < n
fewer zero name e = absurd cc
fewer (suc n) name e = omega arith

abbrev files-Ledger : Ledger files
files-Ledger = record {
  live = λ x. x.open_streams;
  unread = λ dp x. x.entries;
  most = 2;
  opens = λ path mode s. refl;
  closes = λ f s. refl;
  writes = λ bytes f s. refl;
  reads = λ n f s. refl;
  seeks = λ n f s. refl;
  stats = λ path s. refl;
  renames = λ old new s. refl;
  unlinks = λ path s. refl;
  mkdirs = λ path s. refl;
  opens_dir = λ path s. refl;
  closes_dir = λ dp s. refl;
  lists = λ dp s. refl;
  fills = λ path dp s e. omega arith;
  takes = λ dp name s e. fewer s.1.entries name e;
  stats_unread = λ dp path s. refl;
}

files-IsKept : IsKept files (SameMount files)
files-IsKept = record {
  preorder = SameMount-IsPreorder files;
  opens = λ path mode s. Same-refl s.0;
  closes = λ f s. Same-refl s.0;
  writes = λ bytes f s. Same-refl s.0;
  reads = λ n f s. Same-refl s.0;
  seeks = λ n f s. Same-refl s.0;
  stats = λ path s. Same-refl s.0;
  renames = λ old new s. Same-refl s.0;
  unlinks = λ path s. Same-refl s.0;
  mkdirs = λ path s. Same-refl s.0;
  opens_dir = λ path s. Same-refl s.0;
  closes_dir = λ dp s. Same-refl s.0;
  lists = λ dp s. Same-refl s.0;
}

abbrev at_boot : Vfs services × Streams
at_boot = (unmounted, record { open_streams = 0; entries = 0 })

app_main-Closes_example :
    Gives (app_main services 4 5 files tt 3) at_boot (λ _ t. files-Ledger.live t.1 ≡ 0)
app_main-Closes_example = app_main-Closes 4 5 tt files-Ledger 3 (omega arith) at_boot

starts : (start_tour services 4 5 files tt at_boot).0 ≡ ok true
unfolding start_tour ◌>>=◌ test_mount on_mount pure vfs_nand_register check_conf test_conf
    check_path init_bus with_services register_disk with_diskio diskio_nand_dhara_init finish_init
    disk_initialize_dhara start_map nand_mx35lf1_init gets guard modify relabel throw attempt
    return_code clear_map resumed with_map nand_check_arg nand_read_id nand_reset allocate attach
    blank_tx bring_up settle configure_ecc get_feature lock_all_blocks nand_write_protect set_ecc_en
    set_feature spi_write spi_xfer wait_loop wait_ready write_disable call write_file mount_result
    mount_volume register_vfs with_disk vfs_nand_format
starts = refl

app_main-Down_example :
    Gives (app_main services 4 5 files tt 3) at_boot (λ _ t. (files-Ledger.live t.1 ≡ 0) × Down t.0)
app_main-Down_example =
    app_main-Down 4 5 tt services-KeepsDisk files-IsKept files-Ledger 3 (omega arith) at_boot
      unmounted-IsTidy starts
