-- ===== src/Hal/Silent.antt =====
-- The hooks of src/dhara/dhara/nand.c over a bus on which every frame fails.
use nand_vfs_mx35lf.Base.{
  ℕ, ◌%◌, ◌^◌, ◌≡◌, refl, Bool, true, false, Option, none, some, List, [], negsuc, Result, ok, fail,
  guard, ◌>>=◌, ◌>>◌,
}
use nand_vfs_mx35lf.Driver.Types.{
  Ptr, null, valid, NandErr, bad_spi, timeout, device_id, bad_address, invalid_len, ecc_refresh,
  ecc_err, p_fail, e_fail, invalid_arg, no_mem, verify_fail, Block, Platform, Driver, DriverOp,
  nand_page_size,
}
use nand_vfs_mx35lf.Driver.Address.{nand_row_addr}
use nand_vfs_mx35lf.Driver.Spi.{
  spi_xfer, spi_write, set_feature, unlock_all_blocks, write_enable, write_begin, write_end,
}
use nand_vfs_mx35lf.Driver.Commands.{page_read, do_page_read, read_bad_marker}
use nand_vfs_mx35lf.Driver.Api.{
  nand_check_arg, nand_check_handle, nand_lock, locked, write_session, malloc_page, scan_page,
  nand_mx35lf1_page_program, nand_mx35lf1_page_read, nand_mx35lf1_page_copy,
  nand_mx35lf1_block_erase, nand_mx35lf1_block_is_bad, nand_mx35lf1_page_is_free,
}
use nand_vfs_mx35lf.Hal.Codes.{
  Unmapped, Outcome, Never, Always, Yields, bind-Yields, if-Yields, never-Yields, code-Yields,
  pure-Yields, stops, throw-Yields, guard-Yields, gets-Yields, modify-Yields, attempt-Yields,
  relabel-Yields, return_code-Yields, failed,
}
use nand_vfs_mx35lf.Hal.{
  DharaError, HookResult, erase_result, prog_result, read_result, copy_result, dhara_nand_is_bad,
  dhara_nand_erase, dhara_nand_prog, dhara_nand_is_free, dhara_nand_read, dhara_nand_copy,
}

-- A return of -1 that leaves the caller's error variable as it was.
abbrev pub unreported : Option DharaError → HookResult
unreported err = record { ret = negsuc 0; err = err }

-- No hook that takes an error variable has an error for these codes.
Unmapped-unreported :
    (e : NandErr) (err : Option DharaError)
    → Unmapped e
    → (erase_result {A = Unit {0}} (fail e) err ≡ unreported err)
      × (prog_result {A = Unit {0}} (fail e) err ≡ unreported err)
      × (read_result {A = List ℕ} (fail e) err ≡ unreported err)
      × (copy_result {A = Unit {0}} (fail e) err ≡ unreported err)
unfolding erase_result prog_result read_result copy_result
Unmapped-unreported bad_spi err h = (refl, refl, refl, refl)
Unmapped-unreported timeout err h = (refl, refl, refl, refl)
Unmapped-unreported device_id err h = (refl, refl, refl, refl)
Unmapped-unreported bad_address err h = (refl, refl, refl, refl)
Unmapped-unreported invalid_len err h = (refl, refl, refl, refl)
Unmapped-unreported ecc_refresh err h = (refl, refl, refl, refl)
Unmapped-unreported ecc_err err h = absurd h
Unmapped-unreported p_fail err h = absurd h
Unmapped-unreported e_fail err h = absurd h
Unmapped-unreported invalid_arg err h = (refl, refl, refl, refl)
Unmapped-unreported no_mem err h = (refl, refl, refl, refl)
Unmapped-unreported verify_fail err h = (refl, refl, refl, refl)

module _ {P : Platform}
    (silent : (polling : Bool) (tx : List ℕ) (receives : Bool) (w : P.State)
      → (P.transmit polling tx receives w).0 ≡ none) where
  spi_xfer-Yields : (tx : List ℕ) (receives : Bool) → Yields (spi_xfer P tx receives) Never
  unfolding spi_xfer
  spi_xfer-Yields tx receives = record { run = λ s. rw (silent _ tx receives s.world) tt }

  spi_write-Yields : (tx : List ℕ) → Yields (spi_write P tx) Never
  unfolding spi_write
  spi_write-Yields tx = stops _ (spi_xfer-Yields tx false)

  unlock-Yields : Yields (unlock_all_blocks P) Never
  unfolding unlock_all_blocks set_feature
  unlock-Yields = relabel-Yields (spi_write-Yields _)

  page_read-Yields : (row : ℕ) → Yields (page_read P row) Never
  unfolding page_read
  page_read-Yields row = stops _ (spi_write-Yields _)

  do_page_read-Yields : (row column n : ℕ) → Yields (do_page_read P row column n) Never
  unfolding do_page_read
  do_page_read-Yields row column n = stops _ (page_read-Yields row)

  write_begin-Yields : Yields (write_begin P) Always
  unfolding write_begin
  write_begin-Yields = if-Yields P.protected_mode (never-Yields unlock-Yields) (pure-Yields tt tt)

  -- The end of a write that failed gives the code of its failure.
  write_end-Yields :
      (r : Result NandErr (Unit {0})) → Outcome Never r → Yields (write_end P r) Never
  unfolding write_end
  write_end-Yields (ok a) h = absurd h
  write_end-Yields (fail e) h = bind-Yields (code-Yields _) λ _ _. throw-Yields e h

  -- Each write begins with the write enable command.
  session-Yields :
      (next : Unit {0} → DriverOp P (Unit {0}))
      → Yields (write_session P (write_enable P >>= next)) Never
  unfolding write_session write_enable
  session-Yields next =
      bind-Yields write_begin-Yields
        λ _ _. bind-Yields (attempt-Yields (stops next (spi_write-Yields _))) write_end-Yields

  locked-Yields :
      {A : Type 0} {op : DriverOp P A} {Q : A → Type 0} → Yields op Q → Yields (locked P op) Q
  unfolding locked
  locked-Yields y = record { run = λ s. y.run (nand_lock P s) }

  -- The tests of the arguments before a call.
  checked-Yields :
      {A : Type 0} {op : DriverOp P A} {Q : A → Type 0} (h : Ptr)
      → Yields op Q
      → Yields (nand_check_arg P h >> op) Q
  unfolding nand_check_arg
  checked-Yields null y = bind-Yields {Q = Always} (throw-Yields _ tt) λ _ _. y
  checked-Yields valid y = bind-Yields {Q = Always} (pure-Yields tt tt) λ _ _. y

  -- With the test of the handle, which comes second.
  opened-Yields :
      {A : Type 0} {op : DriverOp P A} {Q : A → Type 0}
      → Yields op Q
      → Yields (nand_check_arg P valid >> (nand_check_handle P >> op)) Q
  unfolding nand_check_handle
  opened-Yields y =
      checked-Yields valid
        (bind-Yields (bind-Yields (gets-Yields _) λ b _. guard-Yields b _ tt) λ _ _. y)

  guarded-Yields :
      {A : Type 0} {op : DriverOp P A} {Q : A → Type 0} (b : Bool) (e : NandErr)
      → Unmapped e
      → Yields op Q
      → Yields (guard b e >> op) Q
  guarded-Yields b e h y = bind-Yields (guard-Yields b e h) λ _ _. y

  program-Yields :
      (row column : ℕ) (data_in : Option (List ℕ)) (n : ℕ)
      → Yields (nand_mx35lf1_page_program P valid row column data_in n) Never
  unfolding nand_mx35lf1_page_program
  program-Yields row column none n = opened-Yields (throw-Yields _ tt)
  program-Yields row column (some data_in) n =
      opened-Yields
        (guarded-Yields _ _ tt (guarded-Yields _ _ tt (locked-Yields (session-Yields _))))

  erase-Yields : (row : ℕ) → Yields (nand_mx35lf1_block_erase P valid row) Never
  unfolding nand_mx35lf1_block_erase
  erase-Yields row = (opened-Yields (guarded-Yields _ _ tt (locked-Yields (session-Yields _))))

  read-Yields :
      (row column n : ℕ) → Yields (nand_mx35lf1_page_read P valid row column valid n) Never
  unfolding nand_mx35lf1_page_read
  read-Yields row column n =
      (opened-Yields (
        checked-Yields valid (
          guarded-Yields _ _ tt
            (guarded-Yields _ _ tt (locked-Yields (do_page_read-Yields row column n))))))

  copy-Yields : (src dst : ℕ) → Yields (nand_mx35lf1_page_copy P valid src dst) Never
  unfolding nand_mx35lf1_page_copy
  copy-Yields src dst =
      (opened-Yields (guarded-Yields _ _ tt (locked-Yields (stops _ (page_read-Yields src)))))

  is_bad-Yields : (row : ℕ) → Yields (nand_mx35lf1_block_is_bad P valid row valid) Never
  unfolding nand_mx35lf1_block_is_bad read_bad_marker
  is_bad-Yields row =
      (opened-Yields (
        checked-Yields valid
          (guarded-Yields _ _ tt (locked-Yields (stops _ (do_page_read-Yields _ _ _))))))

  scan-Yields : (row : ℕ) (buffer : Option Block) → Yields (scan_page P valid row buffer) Never
  unfolding scan_page
  scan-Yields row none = throw-Yields _ tt
  scan-Yields row (some buffer) = locked-Yields (
      bind-Yields (attempt-Yields (read-Yields row 0 2112))
        λ r h. bind-Yields (modify-Yields _) λ _ _. stops _ (return_code-Yields r h))

  malloc-Yields : Yields (malloc_page P) Always
  unfolding malloc_page
  malloc-Yields = record { run = λ s. tt }

  is_free-Yields : (row : ℕ) → Yields (nand_mx35lf1_page_is_free P valid row valid) Never
  unfolding nand_mx35lf1_page_is_free
  is_free-Yields row =
      (opened-Yields (
        checked-Yields valid
          (guarded-Yields _ _ tt (bind-Yields malloc-Yields λ buffer _. scan-Yields row buffer))))

  -- Where every frame on the bus fails, and whatever the handle, the mode and the arguments: a block
  -- counts as bad and a page as not free, and an erase, a program, a read and a copy return -1 and
  -- leave the caller's error variable as it was.
  pub silent_hooks :
      (s : Driver P) (b p offset length src dst : ℕ) (bytes : List ℕ) (err : Option DharaError)
      → ((dhara_nand_is_bad P b s).0 ≡ true)
        × ((dhara_nand_is_free P p s).0 ≡ false)
        × ((dhara_nand_erase P b err s).0 ≡ unreported err)
        × ((dhara_nand_prog P p bytes err s).0 ≡ unreported err)
        × ((dhara_nand_read P p offset length err s).0 ≡ (unreported err, []))
        × ((dhara_nand_copy P src dst err s).0 ≡ unreported err)
  unfolding dhara_nand_is_bad dhara_nand_is_free dhara_nand_erase dhara_nand_prog dhara_nand_read
      dhara_nand_copy
  silent_hooks s b p offset length src dst bytes err =
      let (_, bad, _) = failed (is_bad-Yields (nand_row_addr b 0)) s in
      let (_, free, _) = failed (is_free-Yields p) s in
      let (e₁, erased, h₁) = failed (erase-Yields (nand_row_addr b 0)) s in
      let (e₂, written, h₂) = failed (program-Yields p 0 (some bytes) nand_page_size) s in
      let (e₃, fetched, h₃) = failed (read-Yields p (offset % 2 ^ 16) length) s in
      let (e₄, copied, h₄) = failed (copy-Yields src dst) s in
      (
        rw bad refl,
        rw free refl,
        rw erased (Unmapped-unreported e₁ err h₁).0,
        rw written (Unmapped-unreported e₂ err h₂).1,
        rw (fetched, (Unmapped-unreported e₃ err h₃).2) refl,
        rw copied (Unmapped-unreported e₄ err h₄).3,
      )
