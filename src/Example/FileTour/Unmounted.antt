-- ===== src/Example/FileTour/Unmounted.antt =====
-- The tour of example/main/nand_vfs_test_.c leaves the mount point tidy, and unmounts the volume.

use nand_vfs_mx35lf.Base.{
  ℕ, ◌<◌, ◌≡◌, refl, ◌∙◌, Bool, true, false, [], ok, some, if◌then◌else◌, Bool-cases, inl, inr,
  pure, Gives, bind-Gives, also-Gives, known-Gives, Keeps, IsPreorder, bind-Keeps, pure-Keeps,
  if-Keeps,
}
use nand_vfs_mx35lf.Base.Triple.{Triple, seq, change}
use nand_vfs_mx35lf.Driver.Types.{Platform}
use nand_vfs_mx35lf.Disk.{Ftl}
use nand_vfs_mx35lf.Disk.Lifecycle.{diskio_nand_dhara_deinit-free}
use nand_vfs_mx35lf.Vfs.{
  Services, Vfs, with_disk, with_diskio, with_services, vfs_nand_register, vfs_nand_unregister,
  vfs_nand_format, vfs_nand_info,
}
use nand_vfs_mx35lf.Vfs.Mount.{KeepsDisk, IsTidy, Same, Same-refl, Same-trans}
use nand_vfs_mx35lf.Vfs.Lifecycle.Steps.{Step-IsTidy, register, format, info, unchanged-IsTidy}
use nand_vfs_mx35lf.Example.FileTour.{
  Files, TourOp, nand_test_old_file, test_conf, on_mount, test_mount, is_ok, start_tour,
  finish_tour, app_main,
}
use nand_vfs_mx35lf.Example.FileTour.Kept.{
  IsKept, write_file-Keeps, test_file_with_fseek-Keeps, test_rename_and_unlink-Keeps,
  test_mkdir_and_file-Keeps,
}
use nand_vfs_mx35lf.Example.FileTour.Ledger.{Ledger}
use nand_vfs_mx35lf.Example.FileTour.Closed.{Live, test_file_with_fseek-Closes}
use nand_vfs_mx35lf.Example.FileTour.Tour.{
  on_mount-Closes, start_tour-Closes, test_rename_and_unlink-Closes, test_mkdir_and_file-Closes,
}

module _ {P : Platform} {T : Ftl P} {V : Services T} (F : Files (Vfs V)) where
  -- The static variables of the mount point are kept, and whether the disk is in use.
  abbrev pub SameMount : Vfs V × F.State → Vfs V × F.State → Type 0
  SameMount s t = Same s.0 t.0

  pub SameMount-IsPreorder : IsPreorder SameMount
  SameMount-IsPreorder = record {
    same = λ s. Same-refl s.0;
    then_on = λ s t u h k. Same-trans s.0 t.0 u.0 h k;
  }

  abbrev TidyOn : Vfs V × F.State → Vfs V × F.State → Type 0
  TidyOn s t = IsTidy s.0 → IsTidy t.0

  TidyOn-IsPreorder : IsPreorder TidyOn
  TidyOn-IsPreorder = record { same = λ s t. t; then_on = λ s t u h k tidy. k (h tidy) }

module _ {P : Platform} {T : Ftl P} {V : Services T} (gc_ratio max_files : ℕ) {F : Files (Vfs V)}
    (spi_bus : V.BusConfig) (K : KeepsDisk V) (kept : IsKept F (SameMount F)) where
  of_same : {A : Type 0} {op : TourOp F A} → Keeps (SameMount F) op → Keeps (TidyOn F) op
  of_same k = record { run = λ s t. unchanged-IsTidy gc_ratio max_files K s.0 _ (k.run s) t }

  on_mount-Keeps :
      {A : Type 0} (op : Vfs V → A × Vfs V)
      → ((v : Vfs V) → IsTidy v → IsTidy (op v).1)
      → Keeps (TidyOn F) (on_mount V gc_ratio max_files F spi_bus op)
  unfolding on_mount
  on_mount-Keeps op h = record { run = λ s t. h s.0 t }

  test_mount-Keeps : Keeps (TidyOn F) (test_mount V gc_ratio max_files F spi_bus)
  unfolding test_mount
  test_mount-Keeps =
      bind-Keeps (TidyOn-IsPreorder F)
        (on_mount-Keeps
          (vfs_nand_register V gc_ratio max_files (some (test_conf V gc_ratio max_files F spi_bus)))
          (λ v t.
            Step-IsTidy gc_ratio max_files K v _
              (register (some (test_conf V gc_ratio max_files F spi_bus)) v) t))
        λ ret. pure-Keeps (TidyOn-IsPreorder F) (is_ok V gc_ratio max_files F spi_bus ret)

  start_tour-Keeps : Keeps (TidyOn F) (start_tour V gc_ratio max_files F spi_bus)
  unfolding start_tour
  start_tour-Keeps = bind-Keeps (TidyOn-IsPreorder F) test_mount-Keeps λ mounted.
      if-Keeps mounted
        (bind-Keeps (TidyOn-IsPreorder F)
          (on_mount-Keeps (vfs_nand_format V gc_ratio max_files)
            (λ v t. Step-IsTidy gc_ratio max_files K v _ (format v) t))
          λ _. of_same (write_file-Keeps kept nand_test_old_file))
        (pure-Keeps (TidyOn-IsPreorder F) false)

-- The volume is not registered, no path is kept, and the disk is released.
abbrev pub Down : {P : Platform} {T : Ftl P} {V : Services T} → Vfs V → Type 0
Down v = (v.registered ≡ false) × (v.base_path ≡ []) × (v.disk.in_use ≡ false)

module _ {P : Platform} {T : Ftl P} {V : Services T} (gc_ratio max_files : ℕ) {F : Files (Vfs V)}
    (spi_bus : V.BusConfig) (K : KeepsDisk V) (kept : IsKept F (SameMount F)) (L : Ledger F) where
  unregister-Down : (v : Vfs V) → IsTidy v → Down (vfs_nand_unregister V gc_ratio max_files v)
  unfolding vfs_nand_unregister with_disk with_diskio with_services
  unregister-Down v t = elim (Bool-cases v.registered) [
    | inr h ↦ rw h (refl, t.no_path h, t.in_use ∙ h)
    | inl h ↦ rw h (elim (Bool-cases v.owns_bus) [
      | inl o ↦ rw o (refl, refl, diskio_nand_dhara_deinit-free gc_ratio _)
      | inr o ↦ rw o (refl, refl, diskio_nand_dhara_deinit-free gc_ratio _)
    ])
  ]

  -- A call that closes what it opens, and keeps the mount point tidy.
  both :
      {A : Type 0} {op : TourOp F A} (n : ℕ)
      → Triple (Live L n) op (λ _. Live L n)
      → Keeps (TidyOn F) op
      → Triple (λ s. (L.live s.1 ≡ n) × IsTidy s.0) op (λ _ s. (L.live s.1 ≡ n) × IsTidy s.0)
  both n h k = record { run = λ s q. also-Gives (h.run s q.0) (k.run s q.1) }

  finish_tour-Down :
      (rounds : ℕ)
      → L.most < rounds
      → (n : ℕ)
      → Triple
          (λ s. (L.live s.1 ≡ n) × IsTidy s.0)
          (finish_tour V gc_ratio max_files F spi_bus rounds)
          (λ _ s. (L.live s.1 ≡ n) × Down s.0)
  unfolding finish_tour
  finish_tour-Down rounds enough n =
      seq
        (both n (test_file_with_fseek-Closes L n)
          (of_same gc_ratio max_files spi_bus K kept (test_file_with_fseek-Keeps kept)))
        λ _.
          seq
            (both n (test_rename_and_unlink-Closes L rounds enough n) (
              of_same gc_ratio max_files spi_bus K kept (test_rename_and_unlink-Keeps kept rounds)))
            λ _.
              seq
                (both n (test_mkdir_and_file-Closes L rounds enough n) (
                  of_same gc_ratio max_files spi_bus K kept
                    (test_mkdir_and_file-Keeps kept rounds)))
                λ _.
                  seq
                    (both n (on_mount-Closes gc_ratio max_files spi_bus L _ n) (
                      on_mount-Keeps gc_ratio max_files spi_bus K kept
                        (vfs_nand_info V gc_ratio max_files)
                        (λ v t. Step-IsTidy gc_ratio max_files K v _ (info v) t)))
                    λ _. change _ (λ s q. (q.0, unregister-Down s.0 q.1))

  -- Over services that neither take nor release the disk, over file functions that leave the static
  -- variables of the mount point alone, and when the ledger of the streams is kept and no directory
  -- has as many entries as there are rounds, from a tidy mount point: when the volume has been
  -- mounted and the first file written, the tour runs to its end and leaves the volume
  -- unregistered, no path kept, the disk released, and as many streams open as there were. Any
  -- outcome of the file functions and the services that keeps to this may occur on the way.
  pub app_main-Down :
      (rounds : ℕ)
      → L.most < rounds
      → (s : Vfs V × F.State) → IsTidy s.0
      → (start_tour V gc_ratio max_files F spi_bus s).0 ≡ ok true
      → Gives
          (app_main V gc_ratio max_files F spi_bus rounds)
          s
          (λ _ t. (L.live t.1 ≡ L.live s.1) × Down t.0)
  unfolding app_main
  app_main-Down rounds enough s tidy e =
      bind-Gives
        (known-Gives true
          ((both (L.live s.1) (start_tour-Closes gc_ratio max_files spi_bus L (L.live s.1))
              (start_tour-Keeps gc_ratio max_files spi_bus K kept)).run
            s (refl, tidy))
          e)
        λ b t (h, q). go_on b t h q
    where
      go_on :
          (b : Bool) (t : Vfs V × F.State)
          → b ≡ true
          → (L.live t.1 ≡ L.live s.1) × IsTidy t.0
          → Gives
              (if b then finish_tour V gc_ratio max_files F spi_bus rounds else pure tt)
              t
              (λ _ u. (L.live u.1 ≡ L.live s.1) × Down u.0)
      go_on true t h q = (finish_tour-Down rounds enough (L.live s.1)).run t q
      go_on false t h q = absurd cc
