-- ===== src/Disk/Store/Sectors.antt =====
-- Whole ranges of sectors, read and written by `disk_read_dhara` and `disk_write_dhara`.
use nand_vfs_mx35lf.Base.{
  ℕ, zero, suc, ◌+◌, ◌*◌, ◌^◌, ◌≤◌, ◌<◌, ◌≡◌, refl, ap, ◌∙◌, true, List, [], ◌++◌, length, arith,
  Gives, weaken-Gives, also-Gives, inl, inr, ◌⊎◌, ◌>>◌, bind-Gives,
}
use nand_vfs_mx35lf.Driver.Types.{Platform, nand_page_size}
use nand_vfs_mx35lf.Disk.{Ftl, Disk, available, disk_read_dhara, disk_write_dhara}
use nand_vfs_mx35lf.Disk.Calls.{SameContext, SameContext-IsTransferred, disk_write_dhara-related}
use nand_vfs_mx35lf.Disk.Store.{IsStore, span, on_disk, Written, read_loop-span, write_loop-Written}

module _ {P : Platform} {F : Ftl P} (gc_ratio : ℕ) (S : IsStore F) where
  read-span :
      (pdrv sector count : ℕ) (d : Disk F)
      → available F gc_ratio pdrv d ≡ true
      → S.Holds (d.map, d.driver)
      → sector + count < 2 ^ 32
      → Gives
          (disk_read_dhara F gc_ratio pdrv sector count)
          d
          (λ got _. got ≡ span (on_disk gc_ratio S d) sector count)
  unfolding disk_read_dhara
  read-span pdrv sector count d up h room = record {
    run = rw up ((read_loop-span gc_ratio S count sector [] d h room).run);
  }

  still_available :
      (pdrv : ℕ) (d e : Disk F)
      → SameContext d e
      → available F gc_ratio pdrv d ≡ true
      → available F gc_ratio pdrv e ≡ true
  unfolding available
  still_available pdrv d e h up = rw (h.in_use, h.ready) up

  write-Written :
      (pdrv sector count : ℕ) (buff : List ℕ) (d : Disk F)
      → available F gc_ratio pdrv d ≡ true
      → S.Holds (d.map, d.driver)
      → sector + count < 2 ^ 32
      → length buff ≡ count * nand_page_size
      → Gives
          (disk_write_dhara F gc_ratio pdrv buff sector count)
          d
          (λ _ e. Written gc_ratio S sector count buff d e × (available F gc_ratio pdrv e ≡ true))
  write-Written pdrv sector count buff d up h room full =
      also-Gives {K = λ e. available F gc_ratio pdrv e ≡ true}
        (record {
          run =
              unfold disk_write_dhara in
              (rw up ((write_loop-Written gc_ratio S count sector buff d h room full).run));
        })
        (still_available pdrv d _
          (disk_write_dhara-related (SameContext-IsTransferred gc_ratio) pdrv buff sector count d)
          up)

  span-kept :
      (f g : ℕ → List ℕ) (sector count : ℕ)
      → ((j : ℕ) → sector ≤ j → j < sector + count → g j ≡ f j)
      → span g sector count ≡ span f sector count
  span-kept f g sector zero h = refl
  span-kept f g sector (suc count) h =
      ap (λ p. p ++ span g (sector + 1) count) (h sector (omega arith) (omega arith))
      ∙ ap (λ p. f sector ++ p)
          (span-kept f g (sector + 1) count λ j k l. h j (omega arith) (omega arith))

  -- On a drive that is ready, over a translation layer that stores sectors and meets no error: whole
  -- pages that are written to a range of sectors below 2 ^ 32 are what a read of the range gives, and
  -- both calls succeed.
  pub disk_read_dhara-disk_write_dhara :
      (pdrv sector count : ℕ) (buff : List ℕ) (d : Disk F)
      → available F gc_ratio pdrv d ≡ true
      → S.Holds (d.map, d.driver)
      → sector + count < 2 ^ 32
      → length buff ≡ count * nand_page_size
      → Gives
          (disk_write_dhara F gc_ratio pdrv buff sector count
            >> disk_read_dhara F gc_ratio pdrv sector count)
          d
          (λ got _. got ≡ buff)
  disk_read_dhara-disk_write_dhara pdrv sector count buff d up h room full =
      bind-Gives (write-Written pdrv sector count buff d up h room full) λ _ e (w, still).
        weaken-Gives (read-span pdrv sector count e still w.holds room)
          λ got _ same. same ∙ w.inside

  -- On a drive that is ready, over a translation layer that stores sectors and meets no error, a
  -- write of whole pages to a range of sectors below 2 ^ 32 changes no other sector: a read of a range
  -- that lies before or behind the one written succeeds and gives what the sectors held before.
  pub disk_read_dhara-elsewhere :
      (pdrv sector count sector' count' : ℕ) (buff : List ℕ) (d : Disk F)
      → available F gc_ratio pdrv d ≡ true
      → S.Holds (d.map, d.driver)
      → sector + count < 2 ^ 32
      → sector' + count' < 2 ^ 32
      → (sector' + count' ≤ sector) ⊎ (sector + count ≤ sector')
      → length buff ≡ count * nand_page_size
      → Gives
          (disk_write_dhara F gc_ratio pdrv buff sector count
            >> disk_read_dhara F gc_ratio pdrv sector' count')
          d
          (λ got _. got ≡ span (on_disk gc_ratio S d) sector' count')
  disk_read_dhara-elsewhere pdrv sector count sector' count' buff d up h room room' apart full =
      bind-Gives (write-Written pdrv sector count buff d up h room full) λ _ e (w, still).
        weaken-Gives (read-span pdrv sector' count' e still w.holds room') λ got _ same.
          same
          ∙ span-kept (on_disk gc_ratio S d) (on_disk gc_ratio S e) sector' count' λ j k l.
            elim apart [
              | inl before ↦ w.below j (omega arith)
              | inr behind ↦ w.above j (omega arith)
            ]
