-- ===== src/Example/FileTour/Tour.antt =====
-- The directories that the tour of example/main/nand_vfs_test_.c lists, and `app_main`.
use nand_vfs_mx35lf.Base.{
  ℕ, ◌+◌, ◌≤◌, ◌<◌, ◌≡◌, refl, ap, ◌∙◌, Bool, false, Option, none, some, List, arith, length,
  if◌then◌else◌, Gives, pure, ◌>>◌,
}
use nand_vfs_mx35lf.Base.Triple.{Triple, seq, giving, change, either_way}
use nand_vfs_mx35lf.Driver.Types.{Platform}
use nand_vfs_mx35lf.Disk.{Ftl}
use nand_vfs_mx35lf.Vfs.{Services, Vfs}
use nand_vfs_mx35lf.Paths.{has_scheme}
use nand_vfs_mx35lf.Example.FileTour.{
  Files, Stat, nand_path, nand_dir_path, nand_dir_path_file, nand_test_file, nand_test_old_file,
  nand_test_new_file, test_data, log_opened, ltfs_log_dir, read_file, test_file_without_dir,
  test_file_with_dir, test_rename_and_unlink, log_made, test_mkdir_and_file, on_mount, test_mount,
  is_ok, start_tour, finish_tour, app_main,
}
use nand_vfs_mx35lf.Example.FileTour.Ledger.{Ledger, taken, IsDirPath, call-Triple}
use nand_vfs_mx35lf.Example.FileTour.Closed.{
  Live, Closes, log_entries-Triple, same-Triple, write_file-Closes, read_file-Closes,
  test_file_with_fseek-Closes,
}

nand_path-IsDirPath : IsDirPath nand_path
unfolding has_scheme
nand_path-IsDirPath = record { short = omega arith; plain = refl }

nand_dir_path-IsDirPath : IsDirPath nand_dir_path
unfolding has_scheme
nand_dir_path-IsDirPath = record { short = omega arith; plain = refl }

module _ {D : Type 0} {F : Files D} (L : Ledger F) where
  abbrev Filled : Option ℕ → F.State → Type 0
  Filled none x = Unit
  Filled (some dp) x = L.unread dp x ≤ L.most

  opendir-Filled :
      (path : List ℕ) (s : D × F.State) (o : Option ℕ)
      → (F.opendir path s).0 ≡ o
      → Filled o (F.opendir path s).1.1
  opendir-Filled path s none e = tt
  opendir-Filled path s (some dp) e = L.fills path dp s e

  module _ (rounds : ℕ) (enough : L.most < rounds) where
    log_opened-Triple :
        (path : List ℕ) (n : ℕ)
        → IsDirPath path
        → (o : Option ℕ)
        → Triple
            (λ s. (L.live s.1 ≡ n + taken o) × Filled o s.1)
            (log_opened F rounds path o)
            (λ _. Live L n)
    log_opened-Triple path n p none = giving tt (λ s q. omega (arith, q.0))
    log_opened-Triple path n p (some dp) =
        seq
          (record {
            run = λ s q.
                (log_entries-Triple L rounds path dp (n + 1) p).run s
                  (q.0, omega (arith, q.1, enough));
          })
          λ _. change (F.closedir dp) (λ s q. omega (arith, L.closes_dir dp s, q))

    ltfs_log_dir-Closes : (path : List ℕ) → IsDirPath path → Closes L (ltfs_log_dir F rounds path)
    unfolding ltfs_log_dir
    ltfs_log_dir-Closes path p n =
        seq
          (call-Triple F {Q' = λ o s. (L.live s.1 ≡ n + taken o) × Filled o s.1} (F.opendir path)
            (λ s q. (
              L.opens_dir path s ∙ ap (λ m. m + taken (F.opendir path s).0) q,
              opendir-Filled path s (F.opendir path s).0 refl,
            )))
          (log_opened-Triple path n p)

    -- A file written and, if that went well, read again.
    again :
        (path : List ℕ) (n : ℕ) (written : Bool)
        → Triple
            (Live L n)
            (if written then (do read_file F path (length test_data); pure tt) else pure tt)
            (λ _. Live L n)
    again path n written =
        either_way written
          (seq (read_file-Closes L path (length test_data) n) λ _. giving tt (λ s q. q))
          (giving tt (λ s q. q))

    test_file_without_dir-Closes : Closes L (test_file_without_dir F)
    unfolding test_file_without_dir
    test_file_without_dir-Closes n =
        seq (write_file-Closes L nand_test_file n) (again nand_test_file n)

    test_file_with_dir-Closes : Closes L (test_file_with_dir F)
    unfolding test_file_with_dir
    test_file_with_dir-Closes n =
        seq (write_file-Closes L nand_dir_path_file n) (again nand_dir_path_file n)

    pub test_rename_and_unlink-Closes : Closes L (test_rename_and_unlink F rounds)
    unfolding test_rename_and_unlink
    test_rename_and_unlink-Closes n =
        let list_root = ltfs_log_dir-Closes nand_path nand_path-IsDirPath n in
        seq list_root λ _. seq (test_file_without_dir-Closes n) λ _.
          seq
            (change (F.rename nand_test_old_file nand_test_new_file)
              (λ s q. L.renames nand_test_old_file nand_test_new_file s ∙ q))
            λ _. seq list_root λ _.
              seq (change (F.unlink nand_test_new_file) (λ s q. L.unlinks nand_test_new_file s ∙ q))
                λ _. list_root

    pub test_mkdir_and_file-Closes : Closes L (test_mkdir_and_file F rounds)
    unfolding test_mkdir_and_file
    test_mkdir_and_file-Closes n =
        seq (change (F.mkdir nand_dir_path) (λ s q. L.mkdirs nand_dir_path s ∙ q)) λ _.
          seq list_dir λ _.
            seq (test_file_with_dir-Closes n)
              λ _. seq (same-Triple L n (F.stat nand_dir_path) (L.stats nand_dir_path)) made
      where
        list_dir : Triple (Live L n) (ltfs_log_dir F rounds nand_dir_path) (λ _. Live L n)
        list_dir = ltfs_log_dir-Closes nand_dir_path nand_dir_path-IsDirPath n

        made : (st : Option Stat) → Triple (Live L n) (log_made F rounds st) (λ _. Live L n)
        made none = giving tt (λ s q. q)
        made (some st) = list_dir

module _ {P : Platform} {T : Ftl P} {V : Services T} (gc_ratio max_files : ℕ) {F : Files (Vfs V)}
    (spi_bus : V.BusConfig) (L : Ledger F) where
  pub on_mount-Closes :
      {A : Type 0} (op : Vfs V → A × Vfs V) → Closes L (on_mount V gc_ratio max_files F spi_bus op)
  unfolding on_mount
  on_mount-Closes op n = record { run = λ s q. record { run = q } }

  test_mount-Closes : Closes L (test_mount V gc_ratio max_files F spi_bus)
  unfolding test_mount
  test_mount-Closes n =
      seq (on_mount-Closes _ n) λ ret. giving (is_ok V gc_ratio max_files F spi_bus ret) (λ s q. q)

  pub start_tour-Closes : Closes L (start_tour V gc_ratio max_files F spi_bus)
  unfolding start_tour
  start_tour-Closes n = seq (test_mount-Closes n) λ mounted.
      either_way mounted (seq (on_mount-Closes _ n) λ _. write_file-Closes L nand_test_old_file n)
        (giving false (λ s q. q))

  module _ (rounds : ℕ) (enough : L.most < rounds) where
    finish_tour-Closes : Closes L (finish_tour V gc_ratio max_files F spi_bus rounds)
    unfolding finish_tour
    finish_tour-Closes n = seq (test_file_with_fseek-Closes L n) λ _.
        seq (test_rename_and_unlink-Closes L rounds enough n) λ _.
          seq (test_mkdir_and_file-Closes L rounds enough n)
            λ _. seq (on_mount-Closes _ n) λ _. change _ (λ s q. q)

    -- Whatever the mount point and the file functions answer, when the ledger of the streams is kept and
    -- no directory has as many entries as there are rounds: the tour fails no assert and ends, and as
    -- many streams are open at its end as at its start.
    pub app_main-Closes :
        (s : Vfs V × F.State)
        → Gives (app_main V gc_ratio max_files F spi_bus rounds) s (λ _ t. L.live t.1 ≡ L.live s.1)
    unfolding app_main
    app_main-Closes s =
        (seq (start_tour-Closes (L.live s.1)) λ started.
            either_way started (finish_tour-Closes (L.live s.1)) (giving tt (λ t q. q))).run
          s refl
