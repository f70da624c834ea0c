-- ===== src/Vfs/Counts.antt =====
-- How often the steps of the registration of src/nand_vfs.c format the volume, and how often they
-- find no file system on it.
use nand_vfs_mx35lf.Base.{
  ℕ, ◌+◌, ◌≤◌, ◌≡◌, Bool, true, false, List, Result, ok, fail, arith, if◌then◌else◌,
}
use nand_vfs_mx35lf.Driver.Types.{SpiHost, Platform}
use nand_vfs_mx35lf.Disk.{Ftl, Disk, EspErr}
use nand_vfs_mx35lf.Vfs.{
  FResult, fr_ok, fr_no_filesystem, fr_error, Services, VfsNandConf, Vfs, with_disk, with_services,
  with_diskio, driver_mounted, vfs_nand_format, fail_bus, fail_diskio, fail_vfs, remount,
  mount_volume, mount_result, register_vfs, register_disk,
}

-- Whether a mount found no file system.
abbrev pub found_bare : FResult → ℕ
found_bare fr_no_filesystem = 1
found_bare _ = 0

-- How often the volume has been formatted, and how often a mount has found no file system on it.
pub record SameCounts {S : Type 0} (count bare : S → ℕ) (w w' : S) : Type 0 where
  pub formats : count w' ≡ count w
  pub finds : bare w' ≡ bare w

-- A service other than `f_mkfs` and `f_mount` changes neither.
pub record Formats {P : Platform} {F : Ftl P} (V : Services F) : Type 0 where
  pub count : V.State → ℕ
  pub bare : V.State → ℕ
  pub formats : (w : Disk F × V.State) → count (V.f_mkfs w).1.1 ≡ count w.1 + 1
  pub formats_bare : (w : Disk F × V.State) → bare (V.f_mkfs w).1.1 ≡ bare w.1
  pub mounts : (fs : ℕ) (w : Disk F × V.State) → count (V.f_mount fs w).1.1 ≡ count w.1
  pub mounts_bare :
      (fs : ℕ) (w : Disk F × V.State)
      → bare (V.f_mount fs w).1.1 ≡ bare w.1 + found_bare (V.f_mount fs w).0
  pub registers :
      (path : List ℕ) (files : ℕ) (w : Disk F × V.State)
      → SameCounts count bare w.1 (V.esp_vfs_fat_register_cfg path files w).1.1
  pub unregisters :
      (path : List ℕ) (w : Disk F × V.State)
      → SameCounts count bare w.1 (V.esp_vfs_fat_unregister_path path w).1.1
  pub starts :
      (host : SpiHost) (bus : V.BusConfig) (w : V.State)
      → SameCounts count bare w (V.spi_bus_initialize host bus w).1
  pub frees : (host : SpiHost) (w : V.State) → SameCounts count bare w (V.spi_bus_free host w).1
  pub mallocs : (w : V.State) → SameCounts count bare w (V.malloc_workbuf w).1
  pub returns : (w : V.State) → SameCounts count bare w (V.free_workbuf w)

-- The numbers `c` and `b` are the counts at the start, and `n` is the most formats allowed.
module _ {P : Platform} {F : Ftl P} {V : Services F} (K : Formats V)
    (gc_ratio max_files n c b : ℕ) where
  -- So many formats more would still be allowed, and so many finds of no file system are not yet
  -- matched by a format.
  abbrev pub RoomAt : (left spare : ℕ) → V.State → Type 0
  RoomAt left spare w = (K.count w + left ≤ n) × (K.count w + b + spare ≤ K.bare w + c)

  abbrev pub Room : (left spare : ℕ) → Vfs V → Type 0
  Room left spare v = RoomAt left spare v.services

  abbrev pub AtMost : {A : Type 0} → A × Vfs V → Type 0
  AtMost (r, v) = Room 0 0 v

  if-AtMost :
      {A : Type 0} (b : Bool) (x y : A × Vfs V) → AtMost x → AtMost y → AtMost (if b then x else y)
  if-AtMost true x y h k = h
  if-AtMost false x y h k = k

  same-Room :
      (left spare : ℕ) {w w' : V.State}
      → SameCounts K.count K.bare w w'
      → RoomAt left spare w
      → RoomAt left spare w'
  same-Room left spare e h = (omega (arith, e.formats, h), omega (arith, e.formats, e.finds, h))

  fail_bus-AtMost :
      (owns : Bool) (host : SpiHost) (e : EspErr) (v : Vfs V)
      → Room 0 0 v
      → AtMost (fail_bus V gc_ratio max_files owns host e v)
  unfolding fail_bus with_services
  fail_bus-AtMost true host e v h = same-Room 0 0 (K.frees host v.services) h
  fail_bus-AtMost false host e v h = h

  fail_diskio-AtMost :
      (owns : Bool) (host : SpiHost) (e : EspErr) (v : Vfs V)
      → Room 0 0 v
      → AtMost (fail_diskio V gc_ratio max_files owns host e v)
  unfolding fail_diskio with_diskio
  fail_diskio-AtMost owns host e v h = fail_bus-AtMost owns host e _ h

  fail_vfs-AtMost :
      (owns : Bool) (host : SpiHost) (e : EspErr) (v : Vfs V)
      → Room 0 0 v
      → AtMost (fail_vfs V gc_ratio max_files owns host e v)
  unfolding fail_vfs with_disk
  fail_vfs-AtMost owns host e v h =
      fail_diskio-AtMost owns host e _
        (same-Room 0 0 (K.unregisters v.base_path (v.disk, v.services)) h)

  -- A format takes the place that was left for it.
  format-AtMost : (v : Vfs V) → Room 1 1 v → AtMost (vfs_nand_format V gc_ratio max_files v)
  unfolding vfs_nand_format with_disk with_services
  format-AtMost v (h, k) =
      let w = (V.malloc_workbuf v.services).1 in
      let d = V.f_mkfs (v.disk, w) in
      let got = K.mallocs v.services in
      let back = K.returns d.1.1 in
      let made = K.formats (v.disk, w) in
      let bare = K.formats_bare (v.disk, w) in
      if-AtMost (driver_mounted V gc_ratio max_files v) _ _
        (if-AtMost (V.malloc_workbuf v.services).0 _ _
          (
            omega (arith, h, got.formats, made, back.formats),
            omega (arith, k, got.formats, got.finds, made, bare, back.formats, back.finds),
          )
          (omega (arith, h, got.formats), omega (arith, k, got.formats, got.finds)))
        (omega (arith, h), omega (arith, k))

  mount-Room :
      (left fs : ℕ) (v : Vfs V)
      → Room left 0 v
      → Room left
          (found_bare (with_disk V gc_ratio max_files (V.f_mount fs) v).0)
          (with_disk V gc_ratio max_files (V.f_mount fs) v).1
  unfolding with_disk
  mount-Room left fs v (h, k) =
      let w : Disk F × V.State = (v.disk, v.services) in
      (omega (arith, h, K.mounts fs w), omega (arith, k, K.mounts fs w, K.mounts_bare fs w))

  remount-AtMost :
      (fs : ℕ) (r : Result EspErr (Unit {0})) (v : Vfs V)
      → Room 0 0 v
      → AtMost (remount V gc_ratio max_files fs r v)
  unfolding remount
  remount-AtMost fs (ok _) v h = let (k, l) = mount-Room 0 fs v h in (k, omega (arith, l))
  remount-AtMost fs (fail e) v h = h

  -- After the first mount.
  mounted :
      (fs : ℕ) (format : Bool) (fr : FResult) (v : Vfs V)
      → Room (if format then 1 else 0) (found_bare fr) v
      → let o : FResult × Vfs V = elim fr [
        | fr_ok ↦ (fr_ok, v)
        | fr_error m ↦ (fr_error m, v)
        | fr_no_filesystem ↦
            if format
            then (let (ret, v₂) = vfs_nand_format V gc_ratio max_files v in
                remount V gc_ratio max_files fs ret v₂)
            else (fr_no_filesystem, v)
      ] in
        AtMost o
  mounted fs format fr_ok v (h, k) = (omega (arith, h), omega (arith, k))
  mounted fs format (fr_error m) v (h, k) = (omega (arith, h), omega (arith, k))
  mounted fs true fr_no_filesystem v h = remount-AtMost fs _ _ (format-AtMost v h)
  mounted fs false fr_no_filesystem v (h, k) = (omega (arith, h), omega (arith, k))

  mount_volume-AtMost :
      (fs : ℕ) (format : Bool) (v : Vfs V)
      → Room (if format then 1 else 0) 0 v
      → AtMost (mount_volume V gc_ratio max_files fs format v)
  unfolding mount_volume
  mount_volume-AtMost fs format v h =
      mounted fs format (with_disk V gc_ratio max_files (V.f_mount fs) v).0
        (with_disk V gc_ratio max_files (V.f_mount fs) v).1 (mount-Room _ fs v h)

  mount_result-AtMost :
      (owns : Bool) (host : SpiHost) (fr : FResult) (v : Vfs V)
      → Room 0 0 v
      → AtMost (mount_result V gc_ratio max_files owns host fr v)
  unfolding mount_result
  mount_result-AtMost owns host fr_ok v h = h
  mount_result-AtMost owns host fr_no_filesystem v h = fail_vfs-AtMost owns host _ v h
  mount_result-AtMost owns host (fr_error m) v h = fail_vfs-AtMost owns host _ v h

  module _ (conf : VfsNandConf V.BusConfig) where
    abbrev pub once : ℕ
    once = if conf.format_if_mounted_failed then 1 else 0

    none_left : (v : Vfs V) → Room once 0 v → Room 0 0 v
    none_left v (h, k) = (omega (arith, h), k)

    register_vfs-AtMost :
        (owns : Bool) (v : Vfs V)
        → Room once 0 v
        → AtMost (register_vfs V gc_ratio max_files conf owns v)
    unfolding register_vfs with_disk
    register_vfs-AtMost owns v h =
        go _ _ (same-Room once 0 (K.registers v.base_path max_files (v.disk, v.services)) h)
      where
        go :
            (r : Result EspErr ℕ) (w : Vfs V)
            → Room once 0 w
            → let o : Result EspErr (Unit {0}) × Vfs V = elim r [
              | fail e ↦ fail_diskio V gc_ratio max_files owns conf.nand_conf.spi_host e w
              | ok fs ↦
                  let (fr, v₂) =
                    mount_volume V gc_ratio max_files fs conf.format_if_mounted_failed w in
                  mount_result V gc_ratio max_files owns conf.nand_conf.spi_host fr v₂
            ] in
              AtMost o
        go (fail e) w k = fail_diskio-AtMost owns _ e w (none_left w k)
        go (ok fs) w k =
            mount_result-AtMost owns _ _ _
              (mount_volume-AtMost fs conf.format_if_mounted_failed w k)

    pub register_disk-AtMost :
        (owns : Bool) (v : Vfs V)
        → Room once 0 v
        → AtMost (register_disk V gc_ratio max_files conf owns v)
    unfolding register_disk with_diskio
    register_disk-AtMost owns v h = go _ _ h
      where
        go :
            (r : Result EspErr (Unit {0})) (w : Vfs V)
            → Room once 0 w
            → let o : Result EspErr (Unit {0}) × Vfs V = elim r [
              | fail e ↦ fail_bus V gc_ratio max_files owns conf.nand_conf.spi_host e w
              | ok _ ↦ register_vfs V gc_ratio max_files conf owns w
            ] in
              AtMost o
        go (fail e) w k = fail_bus-AtMost owns _ e w (none_left w k)
        go (ok _) w k = register_vfs-AtMost owns w k
