-- ===== src/Vfs/Lifecycle/Steps.antt =====
-- The functions of the mount point of src/nand_vfs.c in any order keep it tidy.
use mathlib.Core.Path.{subst}
use nand_vfs_mx35lf.Base.{
  ℕ, ◌+◌, ◌-◌, ◌%◌, ◌^◌, ◌≡◌, refl, sym, ◌∙◌, Bool, true, false, Option, none, some, List, [],
  Result, ok, fail, if◌then◌else◌, take, Bool-cases, inl, inr, ◌≢◌,
}
use nand_vfs_mx35lf.Driver.Types.{Platform}
use nand_vfs_mx35lf.Disk.{Ftl, EspErr, esp_err_invalid_arg, esp_err_invalid_state}
use nand_vfs_mx35lf.Disk.Lifecycle.{diskio_nand_dhara_deinit-free}
use nand_vfs_mx35lf.Vfs.{
  Services, VfsNandConf, Vfs, with_disk, with_services, with_diskio, vfs_nand_format,
  vfs_nand_base_path_max_len, check_path, check_conf, init_bus, register_disk, vfs_nand_register,
  vfs_nand_unregister, vfs_nand_info,
}
use nand_vfs_mx35lf.Vfs.Path.{IsMountPath, check_path_iff}
use nand_vfs_mx35lf.Vfs.Mount.{
  KeepsDisk, IsTidy, RegisterOutcome, Same, Same-refl, with_disk-Same, format-Same,
}
use nand_vfs_mx35lf.Vfs.Lifecycle.{accepted, bus_up, init_bus-Same}

refused_ne_accepted :
    (p : List ℕ) → ◌≢◌ {A = Result EspErr (List ℕ)} (fail esp_err_invalid_arg) (ok p)
refused_ne_accepted p = λ h. cc

module _ {P : Platform} {F : Ftl P} {V : Services F} (gc_ratio max_files : ℕ)
    (K : KeepsDisk V) where
  -- The functions of the mount point, from a state to the next.
  pub data Step : Vfs V → Vfs V → Type 0 where
    register :
        (conf : Option (VfsNandConf V.BusConfig)) (v : Vfs V)
        → Step v (vfs_nand_register V gc_ratio max_files conf v).1
    unregister : (v : Vfs V) → Step v (vfs_nand_unregister V gc_ratio max_files v)
    format : (v : Vfs V) → Step v (vfs_nand_format V gc_ratio max_files v).1
    info : (v : Vfs V) → Step v (vfs_nand_info V gc_ratio max_files v).1

  pub unchanged-IsTidy : (v w : Vfs V) → Same v w → IsTidy v → IsTidy w
  unchanged-IsTidy v w h t = record {
    path = λ r. subst IsMountPath (sym h.base_path) (t.path (sym h.registered ∙ r));
    no_path = λ r. h.base_path ∙ t.no_path (sym h.registered ∙ r);
    in_use = h.in_use ∙ t.in_use ∙ sym h.registered;
  }

  down-IsTidy :
      (w : Vfs V) → w.registered ≡ false → w.base_path ≡ [] → w.disk.in_use ≡ false → IsTidy w
  down-IsTidy w h k l = record {
    path = λ r. absurd (distinct (sym h ∙ r));
    no_path = λ _. k;
    in_use = l ∙ sym h;
  }
    where
      distinct : false ≢ true
      distinct = λ q. cc

  up-IsTidy :
      (w : Vfs V) → w.registered ≡ true → IsMountPath w.base_path → w.disk.in_use ≡ true → IsTidy w
  up-IsTidy w h k l = record {
    path = λ _. k;
    no_path = λ r. absurd (distinct (sym h ∙ r));
    in_use = l ∙ sym h;
  }
    where
      distinct : true ≢ false
      distinct = λ q. cc

  outcome-IsTidy :
      (path : List ℕ) (r : Result EspErr (Unit {0})) (w : Vfs V)
      → (r ≡ ok tt → IsMountPath path)
      → RegisterOutcome path r w
      → IsTidy w
  outcome-IsTidy path (ok _) w h k = up-IsTidy w k.0 (subst IsMountPath (sym k.1) (h refl)) k.2
  outcome-IsTidy path (fail e) w h k = down-IsTidy w k.0 k.1 k.2

  unregister-IsTidy : (v : Vfs V) → IsTidy v → IsTidy (vfs_nand_unregister V gc_ratio max_files v)
  unfolding vfs_nand_unregister with_disk with_diskio with_services
  unregister-IsTidy v t = elim (Bool-cases v.registered) [
    | inr h ↦ rw h (rw h at t)
    | inl h ↦ rw h (elim (Bool-cases v.owns_bus) [
      | inl o ↦ rw o (down-IsTidy _ refl refl (diskio_nand_dhara_deinit-free gc_ratio _))
      | inr o ↦ rw o (down-IsTidy _ refl refl (diskio_nand_dhara_deinit-free gc_ratio _))
    ])
  ]

  informed :
      (v : Vfs V) (b : Bool) (r : Result EspErr (ℕ × ℕ)) (w : Vfs V)
      → Same v w
      → let o : Result EspErr (ℕ × ℕ) × Vfs V =
          if b
          then (elim r [
            | fail e ↦ (fail e, w)
            | ok (total, free) ↦
                (ok (total % 2 ^ 32, ((total + 2 ^ 64 - free) % 2 ^ 64) % 2 ^ 32), w)
          ])
          else (fail esp_err_invalid_state, v) in
        Same v o.1
  informed v true (ok _) w h = h
  informed v true (fail e) w h = h
  informed v false r w h = Same-refl v

  pub info-Same : (v : Vfs V) → Same v (vfs_nand_info V gc_ratio max_files v).1
  unfolding vfs_nand_info
  info-Same v = informed v v.registered _ _ (
      with_disk-Same gc_ratio max_files K (V.esp_vfs_fat_info v.base_path) v
        (K.informs v.base_path))

  path_missing :
      (conf : VfsNandConf V.BusConfig) (v : Vfs V)
      → conf.base_path ≡ none
      → check_conf V gc_ratio max_files conf v ≡ fail esp_err_invalid_arg
  unfolding check_conf
  path_missing conf v e = rw e refl

  registered_path :
      (conf : VfsNandConf V.BusConfig) (v : Vfs V) (p : List ℕ) (b : Option (List ℕ))
      → conf.base_path ≡ b
      → check_conf V gc_ratio max_files conf v ≡ ok p
      → (check_path p ≡ true) × (v.registered ≡ false)
  registered_path conf v p none e h =
      absurd (refused_ne_accepted p (sym (path_missing conf v e) ∙ h))
  registered_path conf v p (some path) e h =
      let (same, passed, free) = accepted gc_ratio max_files K conf v path p e h in
      (rw same passed, free)

  checked-IsTidy :
      (conf : VfsNandConf V.BusConfig) (v : Vfs V)
      → IsTidy v
      → (c : Result EspErr (List ℕ)) → check_conf V gc_ratio max_files conf v ≡ c
      → let o : Result EspErr (Unit {0}) × Vfs V = elim c [
        | fail e ↦ (fail e, v)
        | ok p ↦
            let (bus, w) = init_bus V gc_ratio max_files conf v in
            elim bus [
              | fail e ↦ (fail e, w)
              | ok owns_bus ↦
                  register_disk V gc_ratio max_files conf owns_bus
                    (record w { base_path = take (vfs_nand_base_path_max_len - 1) p })
            ]
      ] in
        IsTidy o.1
  checked-IsTidy conf v t (fail e) h = t
  checked-IsTidy conf v t (ok p) h =
      let (passed, free) = registered_path conf v p conf.base_path refl h in
      let path = (check_path_iff p).0 passed in
      outcome-IsTidy p _ _ (λ _. path)
        (bus_up gc_ratio max_files K conf p p v (init_bus V gc_ratio max_files conf v).0 _ refl
          path.short t free (init_bus-Same gc_ratio max_files K conf v))

  pub register-IsTidy :
      (conf : Option (VfsNandConf V.BusConfig)) (v : Vfs V)
      → IsTidy v
      → IsTidy (vfs_nand_register V gc_ratio max_files conf v).1
  unfolding vfs_nand_register
  register-IsTidy none v t = t
  register-IsTidy (some conf) v t = checked-IsTidy conf v t _ refl

  -- Over services that neither take nor release the disk, every function of the mount point keeps it
  -- tidy: the disk is in use exactly while the volume is registered, the path that is kept is a mount
  -- path then, and is empty otherwise.
  pub Step-IsTidy : (v w : Vfs V) → Step v w → IsTidy v → IsTidy w
  Step-IsTidy v _ (register conf _) t = register-IsTidy conf v t
  Step-IsTidy v _ (unregister _) t = unregister-IsTidy v t
  Step-IsTidy v _ (format _) t = unchanged-IsTidy v _ (format-Same gc_ratio max_files K v) t
  Step-IsTidy v _ (info _) t = unchanged-IsTidy v _ (info-Same v) t
