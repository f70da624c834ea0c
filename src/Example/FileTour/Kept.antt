-- ===== src/Example/FileTour/Kept.antt =====
-- What each file function leaves as it was, the tests of example/main/nand_vfs_test_.c leave so too.
use nand_vfs_mx35lf.Base.{
  ℕ, zero, suc, Bool, false, not, Option, none, some, List, length, ◌==◌, if◌then◌else◌, pure, ◌>>◌,
  Keeps, IsPreorder, bind-Keeps, pure-Keeps, throw-Keeps, modify-Keeps, if-Keeps,
}
use nand_vfs_mx35lf.Paths.{Checked, aborted, done, path_copy, path_join}
use nand_vfs_mx35lf.Example.FileTour.{
  Files, Mode, wb, rb, Stat, Stop, failed_assert, more_entries, nand_path, nand_dir_path,
  nand_dir_path_file, nand_test_file, nand_test_old_file, nand_test_new_file, test_data, TourOp,
  call, checked, join_entry, entry_path, log_path, log_entry, log_entries, log_opened, ltfs_log_dir,
  list_file_data, write_opened, write_file, read_opened, read_file, test_file_without_dir,
  test_file_with_dir, seek_opened, test_file_with_fseek, test_rename_and_unlink, log_made,
  test_mkdir_and_file,
}

module _ {D : Type 0} (F : Files D) (R : D × F.State → D × F.State → Type 0) where
  -- Each file function leaves a state that is related to the one it was called in.
  pub record IsKept : Type 0 where
    pub preorder : IsPreorder R
    pub opens : (path : List ℕ) (mode : Mode) (s : D × F.State) → R s (F.fopen path mode s).1
    pub closes : (f : ℕ) (s : D × F.State) → R s (F.fclose f s).1
    pub writes : (bytes : List ℕ) (f : ℕ) (s : D × F.State) → R s (F.fwrite bytes f s).1
    pub reads : (n f : ℕ) (s : D × F.State) → R s (F.fread n f s).1
    pub seeks : (n f : ℕ) (s : D × F.State) → R s (F.fseek n f s)
    pub stats : (path : List ℕ) (s : D × F.State) → R s (F.stat path s).1
    pub renames : (old new : List ℕ) (s : D × F.State) → R s (F.rename old new s)
    pub unlinks : (path : List ℕ) (s : D × F.State) → R s (F.unlink path s)
    pub mkdirs : (path : List ℕ) (s : D × F.State) → R s (F.mkdir path s)
    pub opens_dir : (path : List ℕ) (s : D × F.State) → R s (F.opendir path s).1
    pub closes_dir : (dp : ℕ) (s : D × F.State) → R s (F.closedir dp s)
    pub lists : (dp : ℕ) (s : D × F.State) → R s (F.readdir dp s).1

module _ {D : Type 0} {F : Files D} {R : D × F.State → D × F.State → Type 0} (K : IsKept F R) where
  open K use {preorder}

  idle : Keeps R (pure {S = D × F.State} {E = Stop} tt)
  idle = pure-Keeps preorder tt

  call-Keeps :
      {A : Type 0} (f : D × F.State → A × (D × F.State))
      → ((s : D × F.State) → R s (f s).1)
      → Keeps R (call F f)
  unfolding call
  call-Keeps f h = record { run = h }

  checked-Keeps : {A : Type 0} (c : Checked A) → Keeps R (checked F c)
  unfolding checked
  checked-Keeps aborted = throw-Keeps preorder failed_assert
  checked-Keeps (done a) = pure-Keeps preorder a

  join_entry-Keeps : (name : List ℕ) (o : Option (List ℕ)) → Keeps R (join_entry F name o)
  join_entry-Keeps name none = pure-Keeps preorder none
  join_entry-Keeps name (some base) = checked-Keeps (path_join base 256 name)

  entry_path-Keeps : (path name : List ℕ) → Keeps R (entry_path F path name)
  unfolding entry_path
  entry_path-Keeps path name =
      bind-Keeps preorder (checked-Keeps (path_copy 256 path)) (join_entry-Keeps name)

  log_path-Keeps :
      {rest : TourOp F (Unit {0})}
      → Keeps R rest
      → (o : Option (List ℕ)) → Keeps R (log_path F rest o)
  log_path-Keeps k none = idle
  log_path-Keeps k (some path) =
      bind-Keeps preorder (call-Keeps (F.stat path) (K.stats path)) λ _. k

  log_entry-Keeps :
      {rest : TourOp F (Unit {0})} (path : List ℕ)
      → Keeps R rest
      → (o : Option (List ℕ)) → Keeps R (log_entry F rest path o)
  log_entry-Keeps path k none = idle
  log_entry-Keeps path k (some name) =
      bind-Keeps preorder (entry_path-Keeps path name) (log_path-Keeps k)

  log_entries-Keeps : (rounds : ℕ) (path : List ℕ) (dp : ℕ) → Keeps R (log_entries F rounds path dp)
  unfolding log_entries
  log_entries-Keeps zero path dp = throw-Keeps preorder more_entries
  log_entries-Keeps (suc rounds) path dp =
      bind-Keeps preorder (call-Keeps (F.readdir dp) (K.lists dp))
        (log_entry-Keeps path (log_entries-Keeps rounds path dp))

  log_opened-Keeps :
      (rounds : ℕ) (path : List ℕ) (o : Option ℕ) → Keeps R (log_opened F rounds path o)
  log_opened-Keeps rounds path none = idle
  log_opened-Keeps rounds path (some dp) =
      bind-Keeps preorder (log_entries-Keeps rounds path dp)
        λ _. modify-Keeps (F.closedir dp) (K.closes_dir dp)

  ltfs_log_dir-Keeps : (rounds : ℕ) (path : List ℕ) → Keeps R (ltfs_log_dir F rounds path)
  unfolding ltfs_log_dir
  ltfs_log_dir-Keeps rounds path =
      bind-Keeps preorder (call-Keeps (F.opendir path) (K.opens_dir path))
        (log_opened-Keeps rounds path)

  list_file_data-Keeps : (path : List ℕ) → Keeps R (list_file_data F path)
  unfolding list_file_data
  list_file_data-Keeps path =
      bind-Keeps preorder (call-Keeps (F.stat path) (K.stats path)) λ _. idle

  fclose-Keeps : (f : ℕ) → Keeps R (call F (F.fclose f))
  fclose-Keeps f = call-Keeps (F.fclose f) (K.closes f)

  write_opened-Keeps : (o : Option ℕ) → Keeps R (write_opened F o)
  write_opened-Keeps none = pure-Keeps preorder false
  write_opened-Keeps (some f) =
      bind-Keeps preorder (call-Keeps (F.fwrite test_data f) (K.writes test_data f)) λ w.
        if-Keeps (not (w == length test_data))
          (bind-Keeps preorder (fclose-Keeps f) λ _. pure-Keeps preorder false) (fclose-Keeps f)

  pub write_file-Keeps : (path : List ℕ) → Keeps R (write_file F path)
  unfolding write_file
  write_file-Keeps path =
      bind-Keeps preorder (call-Keeps (F.fopen path wb) (K.opens path wb)) write_opened-Keeps

  read_opened-Keeps :
      (path : List ℕ) (size : ℕ) (o : Option ℕ) → Keeps R (read_opened F path size o)
  read_opened-Keeps path size none = pure-Keeps preorder none
  read_opened-Keeps path size (some f) =
      bind-Keeps preorder (call-Keeps (F.fread size f) (K.reads size f)) λ bytes.
        bind-Keeps preorder (fclose-Keeps f) λ closed.
          if-Keeps closed
            (bind-Keeps preorder (list_file_data-Keeps path) λ _. pure-Keeps preorder (some bytes))
            (pure-Keeps preorder none)

  read_file-Keeps : (path : List ℕ) (size : ℕ) → Keeps R (read_file F path size)
  unfolding read_file
  read_file-Keeps path size =
      bind-Keeps preorder (call-Keeps (F.fopen path rb) (K.opens path rb))
        (read_opened-Keeps path size)

  again-Keeps :
      (path : List ℕ) (written : Bool)
      → Keeps R (if written then (do read_file F path (length test_data); pure tt) else pure tt)
  again-Keeps path written =
      if-Keeps written (bind-Keeps preorder (read_file-Keeps path (length test_data)) λ _. idle)
        idle

  test_file_without_dir-Keeps : Keeps R (test_file_without_dir F)
  unfolding test_file_without_dir
  test_file_without_dir-Keeps =
      bind-Keeps preorder (write_file-Keeps nand_test_file) (again-Keeps nand_test_file)

  test_file_with_dir-Keeps : Keeps R (test_file_with_dir F)
  unfolding test_file_with_dir
  test_file_with_dir-Keeps =
      bind-Keeps preorder (write_file-Keeps nand_dir_path_file) (again-Keeps nand_dir_path_file)

  seek_opened-Keeps : (o : Option ℕ) → Keeps R (seek_opened F o)
  seek_opened-Keeps none = idle
  seek_opened-Keeps (some f) = bind-Keeps preorder (modify-Keeps (F.fseek 19 f) (K.seeks 19 f)) λ _.
      bind-Keeps preorder (call-Keeps (F.fread (length test_data) f) (K.reads (length test_data) f))
        λ _.
          bind-Keeps preorder (fclose-Keeps f)
            λ closed. if-Keeps closed (list_file_data-Keeps nand_test_old_file) idle

  pub test_file_with_fseek-Keeps : Keeps R (test_file_with_fseek F)
  unfolding test_file_with_fseek
  test_file_with_fseek-Keeps =
      bind-Keeps preorder
        (call-Keeps (F.fopen nand_test_old_file rb) (K.opens nand_test_old_file rb))
        seek_opened-Keeps

  pub test_rename_and_unlink-Keeps : (rounds : ℕ) → Keeps R (test_rename_and_unlink F rounds)
  unfolding test_rename_and_unlink
  test_rename_and_unlink-Keeps rounds =
      let list_root = ltfs_log_dir-Keeps rounds nand_path in
      bind-Keeps preorder list_root λ _. bind-Keeps preorder test_file_without_dir-Keeps λ _.
        bind-Keeps preorder (modify-Keeps _ (K.renames nand_test_old_file nand_test_new_file)) λ _.
          bind-Keeps preorder list_root
            λ _. bind-Keeps preorder (modify-Keeps _ (K.unlinks nand_test_new_file)) λ _. list_root

  log_made-Keeps : (rounds : ℕ) (st : Option Stat) → Keeps R (log_made F rounds st)
  log_made-Keeps rounds none = idle
  log_made-Keeps rounds (some st) = ltfs_log_dir-Keeps rounds nand_dir_path

  pub test_mkdir_and_file-Keeps : (rounds : ℕ) → Keeps R (test_mkdir_and_file F rounds)
  unfolding test_mkdir_and_file
  test_mkdir_and_file-Keeps rounds =
      bind-Keeps preorder (modify-Keeps _ (K.mkdirs nand_dir_path)) λ _.
        bind-Keeps preorder (ltfs_log_dir-Keeps rounds nand_dir_path) λ _.
          bind-Keeps preorder test_file_with_dir-Keeps λ _.
            bind-Keeps preorder (call-Keeps (F.stat nand_dir_path) (K.stats nand_dir_path))
              (log_made-Keeps rounds)
