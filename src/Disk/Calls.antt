-- ===== src/Disk/Calls.antt =====
-- The functions of src/nand_diskio.c as calls on one disk, and the fields that a transfer leaves.
use nand_vfs_mx35lf.Base.{
  ℕ, zero, suc, ◌+◌, ◌%◌, ◌^◌, ◌≡◌, Option, none, some, List, [], ◌++◌, Result, ok, fail, leb, take,
  drop, Op, arith, Bool-cases, inl, inr, IsPreorder,
}
use nand_vfs_mx35lf.Driver.Types.{Platform, Driver, nand_page_size}
use nand_vfs_mx35lf.Hal.{DharaError}
use nand_vfs_mx35lf.Disk.{
  Ftl, Disk, DError, res_error, IoctlCommand, ctrl_sync, get_sector_count, get_sector_size,
  get_block_size, ctrl_trim, other, with_map, read_loop, disk_read_dhara, write_loop,
  disk_write_dhara, trim_loop, trim_rounds, run_ioctl, available, no_value, disk_ioctl_dhara,
}

-- A relation that the calls of the map respect, in any state.
pub record IsTransferred {P : Platform} (F : Ftl P) (gc_ratio : ℕ) (R : Disk F → Disk F → Type 0)
    : Type 0 where
  pub preorder : IsPreorder R
  pub reads : (sector : ℕ) (d : Disk F) → R d (with_map F gc_ratio (F.map_read sector) d).1
  pub writes :
      (sector : ℕ) (page : List ℕ) (d : Disk F)
      → R d (with_map F gc_ratio (F.map_write sector page) d).1
  pub trims : (sector : ℕ) (d : Disk F) → R d (with_map F gc_ratio (F.map_trim sector) d).1
  pub syncs : (d : Disk F) → R d (with_map F gc_ratio F.map_sync d).1

module _ {P : Platform} {F : Ftl P} {gc_ratio : ℕ} {R : Disk F → Disk F → Type 0}
    (i : IsTransferred F gc_ratio R) where
  open i use {preorder}

  -- A round of a loop whose call of the map ended in `e`, with the rounds after it.
  round :
      {A B : Type 0} {d : Disk F} (r : Result DharaError A) (e : Disk F)
      (next : A → Op (Disk F) DError B)
      → R d e
      → ((a : A) → R e (next a e).1)
      → let o : Result DError B × Disk F = elim r [
        | fail _ ↦ (fail res_error, e)
        | ok a ↦ next a e
      ] in
        R d o.1
  round (fail _) e next h k = h
  round {d} (ok a) e next h k = preorder.then_on d e _ h (k a)

  read_loop-related :
      (count sector : ℕ) (buff : List ℕ) (d : Disk F)
      → R d (read_loop F gc_ratio count sector buff d).1
  unfolding read_loop
  read_loop-related zero sector buff d = preorder.same d
  read_loop-related (suc count) sector buff d =
      round (with_map F gc_ratio (F.map_read sector) d).0 _
        (λ page. read_loop F gc_ratio count ((sector + 1) % 2 ^ 32) (buff ++ page))
        (i.reads sector d) λ page. read_loop-related count _ (buff ++ page) _

  pub disk_read_dhara-related :
      (pdrv sector count : ℕ) (d : Disk F) → R d (disk_read_dhara F gc_ratio pdrv sector count d).1
  unfolding disk_read_dhara
  disk_read_dhara-related pdrv sector count d = elim (Bool-cases (available F gc_ratio pdrv d)) [
    | inl h ↦ rw h (read_loop-related count sector [] d)
    | inr h ↦ rw h (preorder.same d)
  ]

  write_loop-related :
      (count sector : ℕ) (buff : List ℕ) (d : Disk F)
      → R d (write_loop F gc_ratio count sector buff d).1
  unfolding write_loop
  write_loop-related zero sector buff d = preorder.same d
  write_loop-related (suc count) sector buff d =
      round (with_map F gc_ratio (F.map_write sector (take nand_page_size buff)) d).0 _
        (λ _. write_loop F gc_ratio count ((sector + 1) % 2 ^ 32) (drop nand_page_size buff))
        (i.writes sector (take nand_page_size buff) d)
        λ _. write_loop-related count _ (drop nand_page_size buff) _

  pub disk_write_dhara-related :
      (pdrv : ℕ) (buff : List ℕ) (sector count : ℕ) (d : Disk F)
      → R d (disk_write_dhara F gc_ratio pdrv buff sector count d).1
  unfolding disk_write_dhara
  disk_write_dhara-related pdrv buff sector count d =
      elim (Bool-cases (available F gc_ratio pdrv d)) [
        | inl h ↦ rw h (write_loop-related count sector buff d)
        | inr h ↦ rw h (preorder.same d)
      ]

  -- What holds of the state in which a loop has ended.
  abbrev Ended : {A : Type 0} → (Disk F → Type 0) → Option (A × Disk F) → Type 0
  Ended Q none = Unit {0}
  Ended Q (some (a, e)) = Q e

  trim_round :
      {d : Disk F} (r : Result DharaError (Unit {0})) (e : Disk F)
      (rest : Option (Result DError (Unit {0}) × Disk F))
      → R d e
      → Ended (R e) rest
      → Ended (R d) (elim r [ fail _ ↦ some (fail res_error, e) | ok _ ↦ rest ])
  trim_round (fail _) e rest h k = h
  trim_round (ok _) e none h k = tt
  trim_round {d} (ok _) e (some (a, f)) h k = preorder.then_on d e f h k

  trim_loop-Ended :
      (rounds start end : ℕ) (d : Disk F) → Ended (R d) (trim_loop F gc_ratio rounds start end d)
  unfolding trim_loop
  trim_loop-Ended zero start end d = tt
  trim_loop-Ended (suc rounds) start end d = elim (Bool-cases (leb start end)) [
    | inr h ↦ rw h (preorder.same d)
    | inl h ↦ rw h (
        trim_round (with_map F gc_ratio (F.map_trim start) d).0 _ _ (i.trims start d)
          (trim_loop-Ended rounds _ end _))
  ]

  answered :
      (d : Disk F) (o : Option (Result DError (Unit {0}) × Disk F))
      → Ended (R d) o
      → Ended (R d) (elim o [ none ↦ none | some r ↦ some (no_value F gc_ratio r) ])
  answered d none h = tt
  answered d (some (ok _, e)) h = h
  answered d (some (fail _, e)) h = h

  run_ioctl-Ended : (cmd : IoctlCommand) (d : Disk F) → Ended (R d) (run_ioctl F gc_ratio cmd d)
  unfolding run_ioctl
  run_ioctl-Ended ctrl_sync d = i.syncs d
  run_ioctl-Ended get_sector_count d = preorder.same d
  run_ioctl-Ended get_sector_size d = preorder.same d
  run_ioctl-Ended get_block_size d = preorder.same d
  run_ioctl-Ended (ctrl_trim start end) d =
      answered d _ (trim_loop-Ended (trim_rounds F gc_ratio start end) start end d)
  run_ioctl-Ended (other _) d = preorder.same d

  disk_ioctl_dhara-Ended :
      (pdrv : ℕ) (cmd : IoctlCommand) (d : Disk F)
      → Ended (R d) (disk_ioctl_dhara F gc_ratio pdrv cmd d)
  unfolding disk_ioctl_dhara
  disk_ioctl_dhara-Ended pdrv cmd d = elim (Bool-cases (available F gc_ratio pdrv d)) [
    | inl h ↦ rw h (run_ioctl-Ended cmd d)
    | inr h ↦ rw h (preorder.same d)
  ]

  pub disk_ioctl_dhara-related :
      (pdrv : ℕ) (cmd : IoctlCommand) (d e : Disk F) (r : Result DError (Option ℕ))
      → disk_ioctl_dhara F gc_ratio pdrv cmd d ≡ some (r, e)
      → R d e
  disk_ioctl_dhara-related pdrv cmd d e r h = rw h at (disk_ioctl_dhara-Ended pdrv cmd d)

module _ {P : Platform} {F : Ftl P} where
  -- A transfer changes the map and the driver at most.
  pub record SameContext (d e : Disk F) : Type 0 where
    pub nand : e.nand ≡ d.nand
    pub config : e.config ≡ d.config
    pub reset_on_corrupt : e.reset_on_corrupt ≡ d.reset_on_corrupt
    pub in_use : e.in_use ≡ d.in_use
    pub ready : e.ready ≡ d.ready
    pub registered : e.registered ≡ d.registered

  SameContext-refl : (d : Disk F) → SameContext d d
  SameContext-refl d = ground arith

  SameContext-trans : (d e f : Disk F) → SameContext d e → SameContext e f → SameContext d f
  SameContext-trans d e f h k = ground arith

  pub with_map-SameContext :
      {A : Type 0} (gc_ratio : ℕ) (op : Op (F.Map × Driver P) DharaError A) (d : Disk F)
      → SameContext d (with_map F gc_ratio op d).1
  unfolding with_map
  with_map-SameContext gc_ratio op d = ground arith

  pub SameContext-IsTransferred : (gc_ratio : ℕ) → IsTransferred F gc_ratio SameContext
  SameContext-IsTransferred gc_ratio = record {
    preorder = record { same = SameContext-refl; then_on = SameContext-trans };
    reads = λ sector d. with_map-SameContext gc_ratio (F.map_read sector) d;
    writes = λ sector page d. with_map-SameContext gc_ratio (F.map_write sector page) d;
    trims = λ sector d. with_map-SameContext gc_ratio (F.map_trim sector) d;
    syncs = λ d. with_map-SameContext gc_ratio F.map_sync d;
  }
