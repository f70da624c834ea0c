-- ===== src/Disk/Trim.antt =====
-- The loop of CTRL_TRIM in `disk_ioctl_dhara` of src/nand_diskio.c, over 32-bit sector numbers.
use mathlib.Core.Path.{subst, sym}
use nand_vfs_mx35lf.Base.{
  ℕ, zero, suc, ◌+◌, ◌-◌, ◌%◌, ◌^◌, ◌<◌, ◌≡◌, refl, true, false, Option, none, some, List, [], ◌∷◌,
  Result, ok, fail, leb, arith,
}
use nand_vfs_mx35lf.Driver.Types.{Platform, Driver}
use nand_vfs_mx35lf.Hal.{DharaError}
use nand_vfs_mx35lf.Disk.{Ftl, Disk, DError, res_error, with_map, trim_loop, trim_rounds}

-- The sectors from one on, so many of them.
abbrev pub sectors : (count start : ℕ) → List ℕ
sectors zero start = []
sectors (suc count) start = start ∷ sectors count (start + 1)

module _ {P : Platform} {F : Ftl P} (gc_ratio : ℕ) where
  -- Each sector of a list in turn, up to the first error.
  abbrev pub trim_each : List ℕ → Disk F → Result DError (Unit {0}) × Disk F
  trim_each [] d = (ok tt, d)
  trim_each (sector ∷ rest) d =
      let (r, d') = with_map F gc_ratio (F.map_trim sector) d in
      elim r [ fail _ ↦ (fail res_error, d') | ok _ ↦ trim_each rest d' ]

  -- A round that is inside the range.
  inside :
      (r : Result DharaError (Unit {0})) (d : Disk F)
      (rest : Option (Result DError (Unit {0}) × Disk F)) (all : Result DError (Unit {0}) × Disk F)
      → rest ≡ some all
      → let o : Option (Result DError (Unit {0}) × Disk F) = elim r [
        | fail _ ↦ some (fail res_error, d)
        | ok _ ↦ rest
      ] in
        let each : Result DError (Unit {0}) × Disk F = elim r [
          | fail _ ↦ (fail res_error, d)
          | ok _ ↦ all
        ] in
        o ≡ some each
  inside (fail _) d rest all e = refl
  inside (ok _) d rest all e = e

  rounds_each :
      (count start end : ℕ) (d : Disk F)
      → end < 2 ^ 32 - 1
      → count ≡ end + 1 - start
      → trim_loop F gc_ratio (suc count) start end d ≡ some (trim_each (sectors count start) d)
  unfolding trim_loop
  rounds_each zero start end d h e = let past : leb start end ≡ false = ground arith in rw past refl
  rounds_each (suc count) start end d h e =
      let within : leb start end ≡ true = ground arith in
      let next : (start + 1) % 2 ^ 32 ≡ start + 1 = omega arith in
      let w = with_map F gc_ratio (F.map_trim start) d in
      rw within (
        inside w.0 w.1 _ _ (
          subst
            (λ n.
              trim_loop F gc_ratio (suc count) n end w.1
              ≡ some (trim_each (sectors count (start + 1)) w.1))
            (sym next) (rounds_each count (start + 1) end w.1 h (omega arith))))

  -- The trim of a range that ends below the last 32-bit sector number ends within its rounds,
  -- whatever the map answers. It trims the sectors from `start` to `end`, each once and in order,
  -- up to the first that gives an error: its result and the disk that it leaves are those of that
  -- sequence.
  pub trim_loop-trim_each :
      (start end : ℕ) (d : Disk F)
      → end < 2 ^ 32 - 1
      → trim_loop F gc_ratio (trim_rounds F gc_ratio start end) start end d
        ≡ some (trim_each (sectors (end + 1 - start) start) d)
  trim_loop-trim_each start end d h = rounds_each (end + 1 - start) start end d h refl

  -- When `end` is the last 32-bit number and no trim fails, the test `sector <= end` holds in
  -- every round: the loop does not end within any number of rounds.
  pub trim_loop-none :
      ((sector : ℕ) (w : F.Map × Driver P) → (F.map_trim sector w).0 ≡ ok tt)
      → (rounds start : ℕ) (d : Disk F) → start < 2 ^ 32
      → trim_loop F gc_ratio rounds start (2 ^ 32 - 1) d ≡ none
  unfolding trim_loop with_map
  trim_loop-none trims zero start d h = refl
  trim_loop-none trims (suc rounds) start d h =
      let inside : leb start (2 ^ 32 - 1) ≡ true = ground arith in
      rw (inside, trims start (d.map, d.driver))
        (trim_loop-none trims rounds ((start + 1) % 2 ^ 32)
          (with_map F gc_ratio (F.map_trim start) d).1 (omega arith))
