-- ===== src/Tests/Formatting.antt =====
-- The registration on a volume that has no file system before its first format.
use nand_vfs_mx35lf.Base.{
  ℕ, zero, suc, ◌+◌, ◌≡◌, arith, ◌≤◌, refl, true, false, some, [], ◌∷◌, ok, if◌then◌else◌,
}
use nand_vfs_mx35lf.Driver.Types.{spi2_host}
use nand_vfs_mx35lf.Vfs.{
  Services, VfsNandConf, Vfs, FResult, fr_ok, fr_no_filesystem, vfs_nand_register,
}
use nand_vfs_mx35lf.Vfs.Counts.{found_bare, SameCounts, Formats}
use nand_vfs_mx35lf.Vfs.Formats.{vfs_nand_register-count}
use nand_vfs_mx35lf.Tests.Bench.{config}
use nand_vfs_mx35lf.Tests.Disks.{memory, unused}

-- The state is the number of formats, and that of the mounts that found no file system.
abbrev mounts_as : ℕ → ℕ → FResult × (ℕ × ℕ)
mounts_as zero bare = (fr_no_filesystem, (0, bare + 1))
mounts_as (suc n) bare = (fr_ok, (suc n, bare))

abbrev services : Services memory
services = record {
  State = ℕ × ℕ;
  BusConfig = Unit {0};
  spi_bus_initialize = λ host cfg w. (ok tt, w);
  spi_bus_free = λ host w. (ok tt, w);
  esp_vfs_fat_register_cfg = λ path n w. (ok 0, w);
  esp_vfs_fat_unregister_path = λ path w. (ok tt, w);
  f_mount = λ fs w. (let (fr, u) = mounts_as w.1.0 w.1.1 in (fr, (w.0, u)));
  f_mkfs = λ w. (fr_ok, (w.0, (w.1.0 + 1, w.1.1)));
  esp_vfs_fat_info = λ path w. (ok (1000, 400), w);
  malloc_workbuf = λ w. (true, w);
  free_workbuf = λ w. w;
}

mounts_as-count : (n bare : ℕ) → (mounts_as n bare).1.0 ≡ n
mounts_as-count zero bare = refl
mounts_as-count (suc n) bare = refl

mounts_as-bare : (n bare : ℕ) → (mounts_as n bare).1.1 ≡ bare + found_bare (mounts_as n bare).0
mounts_as-bare zero bare = refl
mounts_as-bare (suc n) bare = omega arith

abbrev unmoved : (w : ℕ × ℕ) → SameCounts (λ u. u.0) (λ u. u.1) w w
unmoved w = record { formats = refl; finds = refl }

abbrev services-Formats : Formats services
services-Formats = record {
  count = λ w. w.0;
  bare = λ w. w.1;
  formats = λ w. refl;
  formats_bare = λ w. refl;
  mounts = λ fs w. mounts_as-count w.1.0 w.1.1;
  mounts_bare = λ fs w. mounts_as-bare w.1.0 w.1.1;
  registers = λ path files w. unmoved w.1;
  unregisters = λ path w. unmoved w.1;
  starts = λ host bus w. unmoved w;
  frees = λ host w. unmoved w;
  mallocs = λ w. unmoved w;
  returns = λ w. unmoved w;
}

abbrev empty_volume : Vfs services
empty_volume = record {
  base_path = [];
  registered = false;
  owns_bus = false;
  spi_host = spi2_host;
  disk = unused;
  services = (0, 0);
}

-- "/nand", on a chip without its ECC.
abbrev conf : VfsNandConf (Unit {0})
conf = record {
  base_path = some (b'/' ∷ b'n' ∷ b'a' ∷ b'n' ∷ b'd' ∷ []);
  format_if_mounted_failed = true;
  init_spi_bus = true;
  spi_bus = tt;
  nand_conf = record config { disable_ecc = true };
}

vfs_nand_register-count_example :
    let w = (vfs_nand_register services 4 5 (some conf) empty_volume).1 in
    (w.services.0 ≤ 0 + (if true then 1 else 0)) × (w.services.0 + 0 ≤ w.services.1 + 0)
vfs_nand_register-count_example = vfs_nand_register-count services-Formats 4 5 conf empty_volume
