-- ===== src/Hal/Laws.antt =====
-- The hooks of src/dhara/dhara/nand.c: what they leave of the driver, and what they read back.
use nand_vfs_mx35lf.Base.{
  ℕ, ◌%◌, ◌^◌, ◌<◌, ◌≡◌, refl, sym, Option, some, List, Result, ok, fail, pos, length, Gives, Good,
  IsPreorder, resume, ◌>>=◌, ◌>>◌, true, take, drop, arith,
}
use nand_vfs_mx35lf.Driver.Types.{valid, Platform, Driver, nand_page_size, nand_page_full_size}
use nand_vfs_mx35lf.Driver.Address.{nand_row_addr, validate_column_address, validate_length}
use nand_vfs_mx35lf.Driver.Api.{
  nand_mx35lf1_page_program, nand_mx35lf1_page_copy, nand_mx35lf1_page_read,
}
use nand_vfs_mx35lf.Driver.Calls.{
  Call, after_call, page_program, page_read, page_copy, block_erase, block_is_bad, block_mark_bad,
  page_is_free,
}
use nand_vfs_mx35lf.Driver.Chip.{View, Chip, blank_page}
use nand_vfs_mx35lf.Driver.Chip.Wire.{At}
use nand_vfs_mx35lf.Driver.Chip.Steps.{Writable}
use nand_vfs_mx35lf.Driver.Chip.RoundTrip.{page_read-page_program, page_read-page_copy}
use nand_vfs_mx35lf.Hal.{
  DharaError, dhara_nand_is_bad, dhara_nand_mark_bad, dhara_nand_erase, dhara_nand_prog,
  dhara_nand_is_free, dhara_nand_read, dhara_nand_copy, HookSteps, done, is_bad, mark_bad, erase,
  prog, is_free, read, copy, prog_result, read_result, copy_result,
}

module _ {P : Platform} where
  -- What every call of the driver keeps, each sequence of hooks keeps.
  module _ {R : Driver P → Driver P → Type 0} (preorder : IsPreorder R)
      (calls : (c : Call) (s : Driver P) → R s (after_call P c s)) where
    on : {s t u : Driver P} → R s t → R t u → R s u
    on {s} {t} {u} h k = preorder.then_on s t u h k

    pub HookSteps-related : (s t : Driver P) → HookSteps P s t → R s t
    unfolding dhara_nand_is_bad dhara_nand_mark_bad dhara_nand_erase dhara_nand_prog
        dhara_nand_is_free dhara_nand_read dhara_nand_copy after_call
    HookSteps-related s t (done _) = preorder.same s
    HookSteps-related s _ (is_bad b {t = t} h) =
        on (HookSteps-related s t h) (calls (block_is_bad valid (nand_row_addr b 0) valid) t)
    HookSteps-related s _ (mark_bad b {t = t} h) =
        on (HookSteps-related s t h) (calls (block_mark_bad valid (nand_row_addr b 0)) t)
    HookSteps-related s _ (erase b err {t = t} h) =
        on (HookSteps-related s t h) (calls (block_erase valid (nand_row_addr b 0)) t)
    HookSteps-related s _ (prog p bytes err {t = t} h) =
        on (HookSteps-related s t h) (calls (page_program valid p 0 (some bytes) nand_page_size) t)
    HookSteps-related s _ (is_free p {t = t} h) =
        on (HookSteps-related s t h) (calls (page_is_free valid p valid) t)
    HookSteps-related s _ (read p offset length err {t = t} h) =
        on (HookSteps-related s t h) (calls (page_read valid p (offset % 2 ^ 16) valid length) t)
    HookSteps-related s _ (copy src dst err {t = t} h) =
        on (HookSteps-related s t h) (calls (page_copy valid src dst) t)

-- What two calls that both succeed have given.
fetched :
    {S E A B : Type 0} (Q : B → S → Type 0) (r : Result E A) (t : S) (next : S → Result E B × S)
    → Good Q (resume r (λ _. next) t).0 (resume r (λ _. next) t).1
    → (a : A) × (r ≡ ok a) × ((b : B) × ((next t).0 ≡ ok b) × Q b (next t).1)
fetched {S} {E} {A} {B} Q (ok a) t next q = (a, refl, second (next t).0 (next t).1 q)
  where
    second : (r : Result E B) (u : S) → Good Q r u → (b : B) × (r ≡ ok b) × Q b u
    second (ok b) u q = (b, refl, q)
    second (fail e) u q = absurd q
fetched Q (fail e) t next q = absurd q

module _ {P : Platform} (C : Chip P) {v : View} {s : Driver P} (a : At C v s)
    (writable : Writable C v) where
  read_back :
      (p : ℕ) (bytes : List ℕ) (n : ℕ)
      → n ≡ length bytes
      → n ≡ nand_page_size
      → p < 65536
      → v.array p ≡ blank_page
      → Gives
          (nand_mx35lf1_page_program P valid p 0 (some bytes) n
            >> nand_mx35lf1_page_read P valid p 0 valid n)
          s
          (λ got _. got ≡ bytes)
  unfolding validate_column_address validate_length
  read_back p bytes n e full h erased =
      rw e (page_read-page_program C a writable p 0 bytes h refl (rw (sym e, full) refl) erased)

  seen :
      (p : ℕ) (bytes : List ℕ)
      → p < 65536
      → length bytes ≡ nand_page_size
      → v.array p ≡ blank_page
      → let (r, t) = nand_mx35lf1_page_program P valid p 0 (some bytes) nand_page_size s in
        (done : Unit {0}) × (r ≡ ok done)
        × ((got : List ℕ) × ((nand_mx35lf1_page_read P valid p 0 valid nand_page_size t).0 ≡ ok got)
            × (got ≡ bytes))
  unfolding ◌>>=◌
  seen p bytes h full erased =
      fetched (λ got _. got ≡ bytes) _ _ (nand_mx35lf1_page_read P valid p 0 valid nand_page_size)
        (read_back p bytes nand_page_size (sym full) refl h erased).run

  -- On a healthy chip that is ready and can be written, and is busy after each command on its array
  -- for no longer than the poll allows, behind an open handle: a page of 2048 bytes that
  -- `dhara_nand_prog` wrote to an erased row comes back from `dhara_nand_read`, and both return 0
  -- and leave the error variables alone.
  pub dhara_nand_read-dhara_nand_prog :
      (p : ℕ) (bytes : List ℕ) (err err' : Option DharaError)
      → p < 65536
      → length bytes ≡ nand_page_size
      → v.array p ≡ blank_page
      → let (programmed, t) = dhara_nand_prog P p bytes err s in
        let (got, u) = dhara_nand_read P p 0 nand_page_size err' t in
        (programmed.ret ≡ pos 0)
        × (programmed.err ≡ err)
        × (got.0.ret ≡ pos 0)
        × (got.0.err ≡ err')
        × (got.1 ≡ bytes)
  unfolding dhara_nand_prog dhara_nand_read prog_result read_result
  dhara_nand_read-dhara_nand_prog p bytes err err' h full erased =
      let (one, e, (got, f, same)) = seen p bytes h full erased in
      rw (e, f) (refl, refl, refl, refl, same)

  copy_seen :
      (src dst column len : ℕ)
      → src < 65536
      → dst < 65536
      → validate_column_address column ≡ true
      → validate_length column len ≡ true
      → v.array dst ≡ blank_page
      → length (v.array src) ≡ nand_page_full_size
      → let (r, t) = nand_mx35lf1_page_copy P valid src dst s in
        (done : Unit {0}) × (r ≡ ok done)
        × ((got : List ℕ) × ((nand_mx35lf1_page_read P valid dst column valid len t).0 ≡ ok got)
            × (got ≡ take len (drop column (v.array src))))
  unfolding ◌>>=◌
  copy_seen src dst column len hs hd hc hl erased full =
      fetched (λ got _. got ≡ take len (drop column (v.array src))) _ _
        (nand_mx35lf1_page_read P valid dst column valid len)
        (page_read-page_copy C a writable src dst column len hs hd hc hl erased full).run

  narrow : (offset : ℕ) → validate_column_address offset ≡ true → offset % 2 ^ 16 ≡ offset
  unfolding validate_column_address
  narrow offset h = let small : offset < 2112 = ground arith in omega arith

  -- On a healthy chip that is ready and can be written, and is busy after each command on its array
  -- for no longer than the poll allows, behind an open handle: after `dhara_nand_copy` from a valid
  -- row of full length to an erased valid row, `dhara_nand_read` of the copy gives the bytes that
  -- the source holds at the offset, when the offset and the length pass the tests of the driver.
  -- Both return 0 and leave the error variables alone.
  pub dhara_nand_read-dhara_nand_copy :
      (src dst offset len : ℕ) (err err' : Option DharaError)
      → src < 65536
      → dst < 65536
      → validate_column_address offset ≡ true
      → validate_length offset len ≡ true
      → v.array dst ≡ blank_page
      → length (v.array src) ≡ nand_page_full_size
      → let (copied, t) = dhara_nand_copy P src dst err s in
        let (got, u) = dhara_nand_read P dst offset len err' t in
        (copied.ret ≡ pos 0)
        × (copied.err ≡ err)
        × (got.0.ret ≡ pos 0)
        × (got.0.err ≡ err')
        × (got.1 ≡ take len (drop offset (v.array src)))
  unfolding dhara_nand_copy dhara_nand_read copy_result read_result
  dhara_nand_read-dhara_nand_copy src dst offset len err err' hs hd hc hl erased full =
      let (one, e, (got, f, same)) = copy_seen src dst offset len hs hd hc hl erased full in
      rw (narrow offset hc, e, f) (refl, refl, refl, refl, same)
