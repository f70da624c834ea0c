-- ===== src/Disk/Resume.antt =====
-- The resume policy of `disk_initialize_dhara` of src/nand_diskio.c: when the map may be cleared.
use nand_vfs_mx35lf.Base.{ℕ, ◌≡◌, refl, ◌≢◌, true, false, some, ok, fail}
use nand_vfs_mx35lf.Driver.Types.{valid, NandConfig, Platform, Driver}
use nand_vfs_mx35lf.Driver.Lifecycle.{nand_mx35lf1_init}
use nand_vfs_mx35lf.Hal.{
  DharaError, e_none, e_bad_block, e_ecc, e_too_bad, e_recover, e_journal_full, e_not_found,
  e_map_full, e_corrupt_map, e_max,
}
use nand_vfs_mx35lf.Disk.{
  Ftl, Disk, DStatus, sta_noinit, esp_fail, nand_geometry, with_map, resumed, start_map,
  disk_initialize_dhara, finish_init, diskio_nand_dhara_init,
}

module _ {P : Platform} {F : Ftl P} (gc_ratio : ℕ) where
  -- The status, the map and the readiness after an outcome of the resume.
  abbrev Refused : Disk F → DStatus × Disk F → Type 0
  Refused d r = (r.0 ≡ sta_noinit) × (r.1.map ≡ d.map) × (r.1.ready ≡ d.ready)

  refuses :
      (e : DharaError) (d : Disk F)
      → e ≢ e_too_bad
      → d.reset_on_corrupt ≡ false
      → Refused d (resumed F gc_ratio (fail e) d)
  unfolding resumed
  refuses e_none d other off = rw off (refl, refl, refl)
  refuses e_bad_block d other off = rw off (refl, refl, refl)
  refuses e_ecc d other off = rw off (refl, refl, refl)
  refuses e_too_bad d other off = absurd (other refl)
  refuses e_recover d other off = rw off (refl, refl, refl)
  refuses e_journal_full d other off = rw off (refl, refl, refl)
  refuses e_not_found d other off = rw off (refl, refl, refl)
  refuses e_map_full d other off = rw off (refl, refl, refl)
  refuses e_corrupt_map d other off = rw off (refl, refl, refl)
  refuses e_max d other off = rw off (refl, refl, refl)

  -- What the end of the initialization makes of a refusal.
  ends_down :
      (d : Disk F) (r : DStatus × Disk F)
      → Refused d r
      → let (x, e) = finish_init F gc_ratio r.0 r.1 in
        (x ≡ fail esp_fail) × (e.map ≡ d.map) × (e.ready ≡ d.ready)
  unfolding finish_init
  ends_down d r h = rw h.0 (refl, h.1, h.2)

  -- When the driver comes up and the map refuses to resume with an error other than
  -- DHARA_E_TOO_BAD, an initialization without `reset_on_corrupt` of a context that is free returns
  -- ESP_FAIL, leaves the drive not ready, and keeps the map as the resume left it: it is not cleared.
  pub diskio_nand_dhara_init-map_resume :
      (cfg : NandConfig) (d : Disk F) (e : DharaError)
      → d.in_use ≡ false
      → (nand_mx35lf1_init P valid (some cfg) d.driver).0 ≡ ok tt
      → e ≢ e_too_bad
      → let w : F.Map × Driver P = (
        F.map_init nand_geometry gc_ratio d.map,
        (nand_mx35lf1_init P valid (some cfg) d.driver).1,
      ) in
        (F.map_resume w).0 ≡ fail e
        → let (x, f) = diskio_nand_dhara_init F gc_ratio (some cfg) false d in
          (x ≡ fail esp_fail) × (f.map ≡ (F.map_resume w).1.0) × (f.ready ≡ false)
  unfolding diskio_nand_dhara_init disk_initialize_dhara start_map with_map
  diskio_nand_dhara_init-map_resume cfg d e free up other failed =
      let w : F.Map × Driver P = (
        F.map_init nand_geometry gc_ratio d.map,
        (nand_mx35lf1_init P valid (some cfg) d.driver).1,
      ) in
      let left : Disk F = record d {
        map = (F.map_resume w).1.0;
        nand = nand_geometry;
        driver = (F.map_resume w).1.1;
        config = cfg;
        reset_on_corrupt = false;
        in_use = true;
        ready = false;
        registered = true;
      } in
      rw (free, up, failed) (ends_down left _ (refuses e left other refl))
