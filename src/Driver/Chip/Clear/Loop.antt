-- ===== src/Driver/Chip/Clear/Loop.antt =====
-- `nand_mx35lf1_clear` on a healthy chip: which blocks it erases.
use mathlib.Core.Path.{subst}
use nand_vfs_mx35lf.Base.{
  ℕ, zero, suc, ◌+◌, ◌/◌, ◌<◌, ◌≡◌, refl, sym, ap, ◌∙◌, Bool, true, false, not, List, ltb,
  if◌then◌else◌, arith, length, Result, ok, fail, Gives, bind-Gives, pure-Gives, attempt-Gives,
  return_code-Gives,
}
use nand_vfs_mx35lf.Driver.Types.{
  NandErr, valid, Platform, Driver, nand_page_full_size, nand_blocks_per_lun,
}
use nand_vfs_mx35lf.Driver.Address.{nand_row_addr, row_block, row_first_page}
use nand_vfs_mx35lf.Driver.Api.{
  Tally, count_failure, clear_marked, clear_block, clear_loop, nand_mx35lf1_clear,
}
use nand_vfs_mx35lf.Driver.Chip.{View, Chip, blank_page, erase_rows}
use nand_vfs_mx35lf.Driver.Chip.Wire.{At}
use nand_vfs_mx35lf.Driver.Chip.Steps.{Writable}
use nand_vfs_mx35lf.Driver.Chip.Writes.{checked-At, after_erase, block_erase-At}
use nand_vfs_mx35lf.Driver.Chip.Reads.{marked, block_is_bad-At}
use nand_vfs_mx35lf.Driver.Chip.Clear.{
  cleared, own_row, own_block, row_block_lt, bad, cleared_marked, cleared_erased, cleared_own,
}

pub still_writable :
    (mode unlocked : Bool)
    → (if mode then true else unlocked) ≡ true
    → (if mode then true else (if mode then false else (if mode then true else unlocked))) ≡ true
still_writable mode unlocked h = ground arith

same_block : (row : ℕ) → row_block row ≡ row / 64
unfolding row_block
same_block row = refl

module _ {P : Platform} (C : Chip P) (v : View) where
  -- The chip after the blocks below `i`.
  pub record Upto (i : ℕ) (s : Driver P) : Type 0 where
    pub now : View
    pub at_now : At C now s
    pub array : (row : ℕ) → now.array row ≡ cleared i v.array row
    pub writable : Writable C now

module _ {P : Platform} (C : Chip P) (v : View) where
  abbrev Next : ℕ → Tally → Driver P → Type 0
  Next i t s = (t.result ≡ ok tt) × Upto C v i s

  erased_rows :
      (i row : ℕ) (now : View)
      → i < 1024
      → now.array row ≡ cleared i v.array row
      → bad v.array i ≡ false
      → erase_rows (row_first_page (nand_row_addr i 0) / 64) now.array row
        ≡ cleared (i + 1) v.array row
  erased_rows i row now h e good =
      rw (own_block i h, e, sym (same_block row)) (cleared_erased v.array i row good)

  erase_step :
      (i : ℕ) (t : Tally) (s : Driver P) (now : View)
      → i < 1024
      → t.result ≡ ok tt
      → At C now s
      → ((row : ℕ) → now.array row ≡ cleared i v.array row)
      → Writable C now
      → bad v.array i ≡ false
      → Gives (clear_marked P valid i t (ok false)) s (Next (i + 1))
  unfolding clear_marked
  erase_step i t s now h tally a array writable good =
      bind-Gives (attempt-Gives (block_erase-At C a (nand_row_addr i 0) (own_row i h).0 writable))
        λ ret u (x, e, (_, b)). pure-Gives _ (
          rw e (counted t x tally),
          record {
            now = after_erase C (row_first_page (nand_row_addr i 0)) now;
            at_now = b;
            array = λ row. erased_rows i row now h (array row) good;
            writable = still_writable P.protected_mode now.unlocked writable;
          },
        )
    where
      counted :
          (t : Tally) (x : Unit {0}) → t.result ≡ ok tt → (count_failure (ok x) t).result ≡ ok tt
      counted t x h = unfold count_failure in h

  marked_step :
      (i : ℕ) (t : Tally) (s : Driver P) (now : View) (r : Result NandErr Bool) (b : Bool)
      → r ≡ ok b
      → b ≡ bad v.array i
      → i < 1024
      → t.result ≡ ok tt
      → At C now s
      → ((row : ℕ) → now.array row ≡ cleared i v.array row)
      → Writable C now
      → Gives (clear_marked P valid i t r) s (Next (i + 1))
  unfolding clear_marked
  marked_step i t s now (fail e) b k m h tally a array writable = absurd cc
  marked_step i t s now (ok false) b k m h tally a array writable =
      erase_step i t s now h tally a array writable (cc)
  marked_step i t s now (ok true) b k m h tally a array writable = pure-Gives t (
    tally,
    record {
      now = now;
      at_now = a;
      array = λ row. array row ∙ sym (cleared_marked v.array i row (cc));
      writable = writable;
    },
  )

  module _
      (full : (block : ℕ)
        → block < 1024
        → length (v.array (nand_row_addr block 0)) ≡ nand_page_full_size) where
    block_step :
        (i : ℕ) (t : Tally) (s : Driver P)
        → i < 1024
        → t.result ≡ ok tt
        → Upto C v i s
        → Gives (clear_block P valid i t) s (Next (i + 1))
    unfolding clear_block
    block_step i t s h tally u =
        let own : u.now.array (nand_row_addr (row_block (nand_row_addr i 0)) 0)
            ≡ v.array (nand_row_addr i 0) =
          rw (own_row i h).1 (u.array (nand_row_addr i 0) ∙ cleared_own v.array i h) in
        bind-Gives
          (attempt-Gives (
            block_is_bad-At C u.at_now (nand_row_addr i 0) (own_row i h).0
              (ap length own ∙ full i h)))
          λ r w (is_bad, e, (found, a)).
            marked_step i t w _ r is_bad e (found ∙ ap marked own) h tally a u.array u.writable

    loop_steps :
        (rounds i : ℕ) (t : Tally) (s : Driver P)
        → i + rounds ≡ 1024
        → t.result ≡ ok tt
        → Upto C v i s
        → Gives (clear_loop P valid rounds i t) s (Next 1024)
    unfolding clear_loop
    loop_steps zero i t s h tally u =
        let e : i ≡ 1024 = omega arith in pure-Gives t (tally, subst (λ k. Upto C v k s) e u)
    loop_steps (suc rounds) i t s h tally u =
        bind-Gives (block_step i t s (omega arith) tally u)
          λ t' w (tally', u'). loop_steps rounds (i + 1) t' w (omega arith) tally' u'

  swapped : (b : Bool) (xs ys : List ℕ) → (if not b then xs else ys) ≡ (if b then ys else xs)
  swapped true xs ys = refl
  swapped false xs ys = refl

  cleared_all :
      (row : ℕ)
      → row < 65536
      → cleared 1024 v.array row ≡ (if bad v.array (row_block row) then v.array row else blank_page)
  cleared_all row h =
      let inside : ltb (row_block row) 1024 ≡ true = ground (arith, row_block_lt row h) in
      rw inside (swapped (bad v.array (row_block row)) blank_page (v.array row))

  cleared_none : (row : ℕ) → v.array row ≡ cleared 0 v.array row
  cleared_none row = let outside : ltb (row_block row) 0 ≡ false = ground arith in rw outside refl

-- On a healthy chip that is ready and can be written, and is busy after each command on its array
-- for no longer than the poll allows, behind an open handle, where the first page of each of the
-- 1024 blocks has its full length: `nand_mx35lf1_clear` returns OK, and of the 65536 rows those of
-- the blocks that are marked as bad hold what they held, and all others are erased.
pub nand_mx35lf1_clear_lem :
    {P : Platform} (C : Chip P) {v : View} {s : Driver P}
    → At C v s
    → Writable C v
    → ((block : ℕ) → block < 1024 → length (v.array (nand_row_addr block 0)) ≡ nand_page_full_size)
    → Gives (nand_mx35lf1_clear P valid) s (λ _ t.
      (w : View) × At C w t
      × ((row : ℕ)
          → row < 65536
          → w.array row ≡ (
              if marked (v.array (nand_row_addr (row_block row) 0))
              then v.array row
              else blank_page)))
unfolding nand_mx35lf1_clear
nand_mx35lf1_clear_lem C {v} {s} a writable full = checked-At C a (
    bind-Gives
      (loop_steps C v full nand_blocks_per_lun 0 (record { result = ok tt; failed = 0 }) s
        (omega arith) refl
        (record { now = v; at_now = a; array = cleared_none C v; writable = writable }))
      λ t u (tally, end_).
        return_code-Gives tally
          (end_.now, end_.at_now, λ row h. end_.array row ∙ cleared_all C v row h))
