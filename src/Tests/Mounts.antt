-- ===== src/Tests/Mounts.antt =====
-- The theorems on the mount point, over a file system that mounts at once.
use nand_vfs_mx35lf.Base.{ℕ, ◌≡◌, refl, ◌↔◌, true, false, some, List, [], ◌∷◌, ok}
use nand_vfs_mx35lf.Driver.Types.{spi2_host}
use nand_vfs_mx35lf.Vfs.{Services, VfsNandConf, Vfs, fr_ok, check_path, vfs_nand_register}
use nand_vfs_mx35lf.Vfs.Path.{IsMountPath, check_path_iff}
use nand_vfs_mx35lf.Vfs.Mount.{KeepsDisk, IsTidy, RegisterOutcome}
use nand_vfs_mx35lf.Vfs.Lifecycle.{vfs_nand_register-RegisterOutcome}
use nand_vfs_mx35lf.Vfs.Lifecycle.Steps.{register, Step-IsTidy}
use nand_vfs_mx35lf.Tests.Bench.{config}
use nand_vfs_mx35lf.Tests.Disks.{memory, unused}

abbrev pub services : Services memory
services = record {
  State = Unit {0};
  BusConfig = Unit {0};
  spi_bus_initialize = λ host cfg w. (ok tt, w);
  spi_bus_free = λ host w. (ok tt, w);
  esp_vfs_fat_register_cfg = λ path n w. (ok 0, w);
  esp_vfs_fat_unregister_path = λ path w. (ok tt, w);
  f_mount = λ fs w. (fr_ok, w);
  f_mkfs = λ w. (fr_ok, w);
  esp_vfs_fat_info = λ path w. (ok (1000, 400), w);
  malloc_workbuf = λ w. (true, w);
  free_workbuf = λ w. w;
}

pub services-KeepsDisk : KeepsDisk services
services-KeepsDisk = record {
  registers = λ path n w. refl;
  unregisters = λ path w. refl;
  mounts = λ fs w. refl;
  formats = λ w. refl;
  informs = λ path w. refl;
}

abbrev pub unmounted : Vfs services
unmounted = record {
  base_path = [];
  registered = false;
  owns_bus = false;
  spi_host = spi2_host;
  disk = unused;
  services = tt;
}

pub unmounted-IsTidy : IsTidy unmounted
unmounted-IsTidy = record { path = λ h. absurd cc; no_path = λ h. refl; in_use = refl }

-- "/nand"
abbrev mount_path : List ℕ
mount_path = 47 ∷ 110 ∷ 97 ∷ 110 ∷ 100 ∷ []

abbrev conf : VfsNandConf (Unit {0})
conf = record {
  base_path = some mount_path;
  format_if_mounted_failed = true;
  init_spi_bus = true;
  spi_bus = tt;
  nand_conf = config;
}

vfs_nand_register-RegisterOutcome_example :
    RegisterOutcome mount_path
      (vfs_nand_register services 4 5 (some conf) unmounted).0
      (vfs_nand_register services 4 5 (some conf) unmounted).1
vfs_nand_register-RegisterOutcome_example =
    vfs_nand_register-RegisterOutcome 4 5 services-KeepsDisk conf mount_path unmounted refl
      unmounted-IsTidy refl

Step-IsTidy_example : IsTidy (vfs_nand_register services 4 5 (some conf) unmounted).1
Step-IsTidy_example =
    Step-IsTidy 4 5 services-KeepsDisk unmounted
      (vfs_nand_register services 4 5 (some conf) unmounted).1 (register (some conf) unmounted)
      unmounted-IsTidy

check_path_iff_example : (check_path mount_path ≡ true) ↔ IsMountPath mount_path
check_path_iff_example = check_path_iff mount_path
