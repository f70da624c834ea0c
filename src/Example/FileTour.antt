-- ===== src/Example/FileTour.antt =====
-- The tour of the mounted file system, example/main/nand_vfs_test_.c, behind its path helpers. The file
-- functions of the C library are parameters. A file or a directory stream is a number.
pub mod Ledger
pub mod Kept
pub mod Closed
pub mod Tour
pub mod Unmounted
use nand_vfs_mx35lf.Base.{
  ℕ, zero, suc, Bool, true, false, not, Option, none, some, List, [], ◌∷◌, ◌++◌, ◌==◌,
  if◌then◌else◌, length, Result, ok, fail, Op, pure, throw, gets, modify, ◌>>=◌, ◌>>◌, pos,
}
use nand_vfs_mx35lf.Driver.Types.{Platform, NandConfig, spi2_host}
use nand_vfs_mx35lf.Disk.{Ftl, EspErr}
use nand_vfs_mx35lf.Vfs.{
  Services, VfsNandConf, Vfs, VfsOp, vfs_nand_register, vfs_nand_unregister, vfs_nand_mounted,
  vfs_nand_format, vfs_nand_info,
}
use nand_vfs_mx35lf.Paths.{Checked, aborted, done, path_copy, path_join}
use nand_vfs_mx35lf.Example.DriverTest.{codes}

abbrev pub nand_path : List ℕ
nand_path = codes "/nand"

abbrev pub nand_dir_path : List ℕ
nand_dir_path = codes "/nand/app/"

abbrev pub nand_dir_path_file : List ℕ
nand_dir_path_file = codes "/nand/app/firm.txt"

abbrev pub nand_test_file : List ℕ
nand_test_file = codes "/nand/test.txt"

abbrev pub nand_test_old_file : List ℕ
nand_test_old_file = codes "/nand/old.txt"

abbrev pub nand_test_new_file : List ℕ
nand_test_new_file = codes "/nand/new.txt"

-- The array `data`, with the NUL that `sizeof(data)` counts.
abbrev pub test_data : List ℕ
test_data = codes "Write test on nand memory using POSIX functions in C" ++ 0 ∷ []

pub data Mode : Type 0 where
  wb rb : Mode

-- `struct stat`, as far as it is logged.
pub record Stat : Type 0 where
  pub st_size : ℕ
  pub is_dir : Bool
  pub is_reg : Bool

-- The file functions, over a mount point `D` that they reach and a state of their own. An outcome may
-- be anything. `none` is a NULL pointer or a code other than 0, and `fclose` gives whether it
-- returned 0.
pub record Files (D : Type 0) : Type 1 where
  pub State : Type 0
  pub fopen : List ℕ → Mode → D × State → Option ℕ × (D × State)
  pub fwrite : List ℕ → (file : ℕ) → D × State → ℕ × (D × State)
  pub fread : (size : ℕ) → (file : ℕ) → D × State → List ℕ × (D × State)
  pub fseek : (offset : ℕ) → (file : ℕ) → D × State → D × State
  pub fclose : (file : ℕ) → D × State → Bool × (D × State)
  pub opendir : List ℕ → D × State → Option ℕ × (D × State)
  pub readdir : (dir : ℕ) → D × State → Option (List ℕ) × (D × State)
  pub closedir : (dir : ℕ) → D × State → D × State
  pub stat : List ℕ → D × State → Option Stat × (D × State)
  pub rename : (old new : List ℕ) → D × State → D × State
  pub unlink : List ℕ → D × State → D × State
  pub mkdir : List ℕ → D × State → D × State

-- Why the program does not go on: a failed `assert`, or a directory with more entries than rounds.
pub data Stop : Type 0 where
  failed_assert more_entries : Stop

module _ {D : Type 0} (F : Files D) where
  abbrev pub TourOp : Type 0 → Type 0
  TourOp A = Op (D × F.State) Stop A

  -- A call of the C library whose result is looked at.
  unfoldable pub call : {A : Type 0} → (D × F.State → A × (D × F.State)) → TourOp A
  call f s = let (a, t) = f s in (ok a, t)

  unfoldable pub checked : {A : Type 0} → Checked A → TourOp A
  checked aborted = throw failed_assert
  checked (done a) = pure a

  abbrev pub join_entry : List ℕ → Option (List ℕ) → TourOp (Option (List ℕ))
  join_entry name none = pure none
  join_entry name (some base) = checked (path_join base 256 name)

  -- `path_copy(...) && path_join(...)` into `entry_path`; `none` is a return of false.
  unfoldable pub entry_path : List ℕ → List ℕ → TourOp (Option (List ℕ))
  entry_path full_path name = do copied ← checked (path_copy 256 full_path); join_entry name copied

  -- The `stat` of an entry and the rounds that follow; a path that is not built ends the loop.
  abbrev pub log_path : TourOp (Unit {0}) → Option (List ℕ) → TourOp (Unit {0})
  log_path rest none = pure tt
  log_path rest (some path) = do call (F.stat path); rest

  abbrev pub log_entry : TourOp (Unit {0}) → List ℕ → Option (List ℕ) → TourOp (Unit {0})
  log_entry rest full_path none = pure tt
  log_entry rest full_path (some name) = do path ← entry_path full_path name; log_path rest path

  -- The loop over `readdir`, for a number of rounds.
  unfoldable pub log_entries : ℕ → List ℕ → ℕ → TourOp (Unit {0})
  log_entries zero full_path dp = throw more_entries
  log_entries (suc rounds) full_path dp = do
    entry ← call (F.readdir dp)
    log_entry (log_entries rounds full_path dp) full_path entry

  abbrev pub log_opened : ℕ → List ℕ → Option ℕ → TourOp (Unit {0})
  log_opened rounds full_path none = pure tt
  log_opened rounds full_path (some dp) = do log_entries rounds full_path dp; modify (F.closedir dp)

  unfoldable pub ltfs_log_dir : ℕ → List ℕ → TourOp (Unit {0})
  ltfs_log_dir rounds full_path = do dp ← call (F.opendir full_path); log_opened rounds full_path dp

  unfoldable pub list_file_data : List ℕ → TourOp (Unit {0})
  list_file_data full_path = do call (F.stat full_path); pure tt

  -- With the file that `fopen` gave.
  abbrev pub write_opened : Option ℕ → TourOp Bool
  write_opened none = pure false
  write_opened (some f) = do
    w ← call (F.fwrite test_data f)
    (if not (w == length test_data) then (do call (F.fclose f); pure false) else call (F.fclose f))

  unfoldable pub write_file : List ℕ → TourOp Bool
  write_file path = do f ← call (F.fopen path wb); write_opened f

  abbrev pub read_opened : List ℕ → ℕ → Option ℕ → TourOp (Option (List ℕ))
  read_opened path size none = pure none
  read_opened path size (some f) = do
    bytes ← call (F.fread size f)
    closed ← call (F.fclose f)
    (if closed then (do list_file_data path; pure (some bytes)) else pure none)

  -- The bytes in the buffer after a return of true; `none` is a return of false.
  unfoldable pub read_file : List ℕ → ℕ → TourOp (Option (List ℕ))
  read_file path size = do f ← call (F.fopen path rb); read_opened path size f

  unfoldable pub test_file_without_dir : TourOp (Unit {0})
  test_file_without_dir = do
    written ← write_file nand_test_file
    (if written then (do read_file nand_test_file (length test_data); pure tt) else pure tt)

  unfoldable pub test_file_with_dir : TourOp (Unit {0})
  test_file_with_dir = do
    written ← write_file nand_dir_path_file
    (if written then (do read_file nand_dir_path_file (length test_data); pure tt) else pure tt)

  abbrev pub seek_opened : Option ℕ → TourOp (Unit {0})
  seek_opened none = pure tt
  seek_opened (some fr) = do
    modify (F.fseek 19 fr)
    call (F.fread (length test_data) fr)
    closed ← call (F.fclose fr)
    (if closed then list_file_data nand_test_old_file else pure tt)

  unfoldable pub test_file_with_fseek : TourOp (Unit {0})
  test_file_with_fseek = do fr ← call (F.fopen nand_test_old_file rb); seek_opened fr

  unfoldable pub test_rename_and_unlink : ℕ → TourOp (Unit {0})
  test_rename_and_unlink rounds = do
    ltfs_log_dir rounds nand_path
    test_file_without_dir
    modify (F.rename nand_test_old_file nand_test_new_file)
    ltfs_log_dir rounds nand_path
    modify (F.unlink nand_test_new_file)
    ltfs_log_dir rounds nand_path

  abbrev pub log_made : ℕ → Option Stat → TourOp (Unit {0})
  log_made rounds none = pure tt
  log_made rounds (some st) = ltfs_log_dir rounds nand_dir_path

  unfoldable pub test_mkdir_and_file : ℕ → TourOp (Unit {0})
  test_mkdir_and_file rounds = do
    modify (F.mkdir nand_dir_path)
    ltfs_log_dir rounds nand_dir_path
    test_file_with_dir
    st ← call (F.stat nand_dir_path)
    log_made rounds st

abbrev nand_conf : NandConfig
nand_conf = record {
  spi_host = spi2_host;
  pin_cs = pos 15;
  clock_speed_hz = pos 50000000;
  disable_ecc = false;
}

-- The program, with the mount point below it. `spi_bus` has the pins.
module _ {P : Platform} {T : Ftl P} (V : Services T) (gc_ratio max_files : ℕ) (F : Files (Vfs V))
    (spi_bus : V.BusConfig) where
  unfoldable pub test_conf : VfsNandConf V.BusConfig
  test_conf = record {
    base_path = some nand_path;
    format_if_mounted_failed = true;
    init_spi_bus = true;
    spi_bus = spi_bus;
    nand_conf = nand_conf;
  }

  -- A function of the mount point, whose code is not looked at here.
  unfoldable pub on_mount : {A : Type 0} → (Vfs V → A × Vfs V) → TourOp F A
  on_mount op (v, x) = let (a, v') = op v in (ok a, (v', x))

  abbrev pub is_ok : Result EspErr (Unit {0}) → Bool
  is_ok (ok _) = true
  is_ok (fail e) = false

  unfoldable pub test_mount : TourOp F Bool
  test_mount = do
    ret ← on_mount (vfs_nand_register V gc_ratio max_files (some test_conf))
    pure (is_ok ret)

  -- `app_main` up to the first file: false where it returns.
  unfoldable pub start_tour : TourOp F Bool
  start_tour = do
    mounted ← test_mount
    (if mounted
        then (do on_mount (vfs_nand_format V gc_ratio max_files); write_file F nand_test_old_file)
        else pure false)

  -- `app_main` from there on.
  unfoldable pub finish_tour : ℕ → TourOp F (Unit {0})
  finish_tour rounds = do
    test_file_with_fseek F
    test_rename_and_unlink F rounds
    test_mkdir_and_file F rounds
    on_mount (vfs_nand_info V gc_ratio max_files)
    modify (λ s. (vfs_nand_unregister V gc_ratio max_files s.0, s.1))

  unfoldable pub app_main : ℕ → TourOp F (Unit {0})
  app_main rounds = do started ← start_tour; (if started then finish_tour rounds else pure tt)
