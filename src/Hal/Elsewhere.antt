-- ===== src/Hal/Elsewhere.antt =====
-- What any sequence of the hooks of src/dhara/dhara/nand.c leaves as it was on a chip that may fail any
-- command.
use nand_vfs_mx35lf.Base.{ℕ, ◌%◌, ◌^◌, ◌≡◌, ◌≢◌, refl, ◌∙◌, some}
use nand_vfs_mx35lf.Driver.Types.{valid, Platform, Driver, nand_page_size}
use nand_vfs_mx35lf.Driver.Address.{nand_row_addr, row_block, row_first_page}
use nand_vfs_mx35lf.Driver.Calls.{
  Call, after_call, page_program, page_read, page_copy, block_erase, block_is_bad, block_mark_bad,
  page_is_free,
}
use nand_vfs_mx35lf.Driver.Calls.Rows.{Rows}
use nand_vfs_mx35lf.Driver.Calls.Targets.{Target, after_call-elsewhere}
use nand_vfs_mx35lf.Hal.{
  dhara_nand_is_bad, dhara_nand_mark_bad, dhara_nand_erase, dhara_nand_prog, dhara_nand_is_free,
  dhara_nand_read, dhara_nand_copy, HookSteps, done, is_bad, mark_bad, erase, prog, is_free, read,
  copy,
}

module _ {P : Platform} where
  -- No hook of the sequence programs row `i`, erases its block, or marks its block on this row.
  abbrev pub Spares : ℕ → {s t : Driver P} → HookSteps P s t → Type 0
  Spares i (done _) = Unit
  Spares i (is_bad b h) = Spares i h
  Spares i (mark_bad b h) = Spares i h × (i ≢ row_first_page (nand_row_addr b 0))
  Spares i (erase b err h) = Spares i h × (row_block i ≢ row_block (nand_row_addr b 0))
  Spares i (prog p bytes err h) = Spares i h × (i ≢ p)
  Spares i (is_free p h) = Spares i h
  Spares i (read p offset length err h) = Spares i h
  Spares i (copy src dst err h) = Spares i h × (i ≢ dst)

  module _ (C : Rows P) (i : ℕ) where
    -- One more call after those that left the row as it was.
    on :
        (s t : Driver P) (c : Call)
        → C.array t.world i ≡ C.array s.world i
        → (Target c i → ⊥)
        → C.array (after_call P c t).world i ≡ C.array s.world i
    on s t c before other = after_call-elsewhere C c t i other ∙ before

    -- On a chip that may fail any command, but writes to no row other than the one it programs or
    -- those of the block it erases: whatever sequence of hooks the translation layer calls, with
    -- whatever arguments and outcomes, a row that none of them programs, marks or erases holds what
    -- it held.
    pub HookSteps-elsewhere :
        (s t : Driver P) (h : HookSteps P s t) → Spares i h → C.array t.world i ≡ C.array s.world i
    unfolding dhara_nand_is_bad dhara_nand_mark_bad dhara_nand_erase dhara_nand_prog
        dhara_nand_is_free dhara_nand_read dhara_nand_copy after_call
    HookSteps-elsewhere s t (done _) spared = refl
    HookSteps-elsewhere s _ (is_bad b {t = t} h) spared =
        on s t (block_is_bad valid (nand_row_addr b 0) valid) (HookSteps-elsewhere s t h spared)
          (λ x. x)
    HookSteps-elsewhere s _ (mark_bad b {t = t} h) (spared, other) =
        on s t (block_mark_bad valid (nand_row_addr b 0)) (HookSteps-elsewhere s t h spared) other
    HookSteps-elsewhere s _ (erase b err {t = t} h) (spared, other) =
        on s t (block_erase valid (nand_row_addr b 0)) (HookSteps-elsewhere s t h spared) other
    HookSteps-elsewhere s _ (prog p bytes err {t = t} h) (spared, other) =
        on s t (page_program valid p 0 (some bytes) nand_page_size)
          (HookSteps-elsewhere s t h spared) other
    HookSteps-elsewhere s _ (is_free p {t = t} h) spared =
        on s t (page_is_free valid p valid) (HookSteps-elsewhere s t h spared) (λ x. x)
    HookSteps-elsewhere s _ (read p offset length err {t = t} h) spared =
        on s t (page_read valid p (offset % 2 ^ 16) valid length) (HookSteps-elsewhere s t h spared)
          (λ x. x)
    HookSteps-elsewhere s _ (copy src dst err {t = t} h) (spared, other) =
        on s t (page_copy valid src dst) (HookSteps-elsewhere s t h spared) other
