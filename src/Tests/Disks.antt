-- ===== src/Tests/Disks.antt =====
-- The theorems on the disk, over a translation layer that keeps its sectors in memory.
use nand_vfs_mx35lf.Base.{
  ℕ, ◌-◌, ◌*◌, ◌^◌, ◌≡◌, refl, inr, true, false, none, some, List, [], ◌∷◌, arith, replicate,
  length-replicate, ok, Gives, ◌>>◌,
}
use nand_vfs_mx35lf.Driver.Types.{nand_page_size}
use nand_vfs_mx35lf.Driver.Chip.{store_row}
use nand_vfs_mx35lf.Disk.{
  Ftl, Disk, nand_geometry, available, disk_read_dhara, disk_write_dhara, trim_loop, trim_rounds,
  diskio_nand_dhara_init, diskio_nand_dhara_deinit,
}
use nand_vfs_mx35lf.Disk.Store.{IsStore, span}
use nand_vfs_mx35lf.Disk.Store.Sectors.{disk_read_dhara-disk_write_dhara, disk_read_dhara-elsewhere}
use nand_vfs_mx35lf.Disk.Trim.{trim_each, trim_loop-trim_each, trim_loop-none}
use nand_vfs_mx35lf.Disk.Lifecycle.{
  InitOutcome, diskio_nand_dhara_init-InitOutcome, diskio_nand_dhara_deinit-down,
}
use nand_vfs_mx35lf.Disk.Lifecycle.Steps.{IsWellFormed, init, Step-IsWellFormed}
use nand_vfs_mx35lf.Tests.Bench.{board, fresh, opened, config}

abbrev pub memory : Ftl board
memory = record {
  Map = ℕ → List ℕ;
  map_init = λ g gc_ratio m. m;
  map_resume = λ w. (ok tt, w);
  map_clear = λ w. ((λ sector. []), w.1);
  map_capacity = λ m. 60000;
  map_read = λ sector w. (ok (w.0 sector), w);
  map_write = λ sector page w. (ok tt, (store_row sector page w.0, w.1));
  map_trim = λ sector w. (ok tt, (store_row sector [] w.0, w.1));
  map_sync = λ w. (ok tt, w);
}

abbrev memory-IsStore : IsStore memory
memory-IsStore = record {
  Holds = λ w. Unit {0};
  content = λ w. w.0;
  reads = λ sector w h. record { run = (refl, tt, refl) };
  writes = λ sector page w h full. record { run = (tt, refl) };
}

abbrev pub unused : Disk memory
unused = record {
  map = λ sector. [];
  nand = nand_geometry;
  driver = fresh;
  config = config;
  reset_on_corrupt = false;
  in_use = false;
  ready = false;
  registered = false;
}

abbrev running : Disk memory
running = record unused { driver = opened; in_use = true; ready = true; registered = true }

up : available memory 4 0 running ≡ true
unfolding available
up = refl

abbrev two_pages : List ℕ
two_pages = replicate (2 * nand_page_size) 7

disk_read_dhara-disk_write_dhara_example :
    Gives
      (disk_write_dhara memory 4 0 two_pages 3 2 >> disk_read_dhara memory 4 0 3 2)
      running
      (λ got _. got ≡ two_pages)
disk_read_dhara-disk_write_dhara_example =
    disk_read_dhara-disk_write_dhara 4 memory-IsStore 0 3 2 two_pages running up tt (omega arith)
      (length-replicate {A = ℕ} (2 * nand_page_size) 7)

disk_read_dhara-elsewhere_example :
    Gives
      (disk_write_dhara memory 4 0 two_pages 3 2 >> disk_read_dhara memory 4 0 5 3)
      running
      (λ got _. got ≡ span (λ sector. []) 5 3)
disk_read_dhara-elsewhere_example =
    disk_read_dhara-elsewhere 4 memory-IsStore 0 3 2 5 3 two_pages running up tt (omega arith)
      (omega arith) (inr (omega arith)) (length-replicate {A = ℕ} (2 * nand_page_size) 7)

trim_loop-trim_each_example :
    trim_loop memory 4 (trim_rounds memory 4 3 5) 3 5 running
    ≡ some (trim_each 4 (3 ∷ 4 ∷ 5 ∷ []) running)
trim_loop-trim_each_example = trim_loop-trim_each 4 3 5 running (omega arith)

trim_loop-none_example : trim_loop memory 4 100 4294967290 (2 ^ 32 - 1) running ≡ none
trim_loop-none_example = trim_loop-none 4 (λ sector w. refl) 100 4294967290 running (omega arith)

diskio_nand_dhara_init-InitOutcome_example :
    InitOutcome 4
      (diskio_nand_dhara_init memory 4 (some config) true unused).0
      (diskio_nand_dhara_init memory 4 (some config) true unused).1
diskio_nand_dhara_init-InitOutcome_example =
    diskio_nand_dhara_init-InitOutcome 4 config true unused refl

diskio_nand_dhara_deinit-down_example :
    let e = (diskio_nand_dhara_deinit memory 4 running).1 in
    (e.in_use ≡ false) × (e.registered ≡ false) × (e.ready ≡ false)
diskio_nand_dhara_deinit-down_example = diskio_nand_dhara_deinit-down 4 running refl

unused-IsWellFormed : IsWellFormed unused
unused-IsWellFormed = record { ready = λ h. absurd cc; registered = refl }

Step-IsWellFormed_example :
    IsWellFormed (diskio_nand_dhara_init memory 4 (some config) true unused).1
Step-IsWellFormed_example =
    Step-IsWellFormed 4 unused (diskio_nand_dhara_init memory 4 (some config) true unused).1
      (init (some config) true unused) unused-IsWellFormed
