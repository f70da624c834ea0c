-- ===== src/Driver/Chip/Writes.antt =====
-- The public functions of the driver on a healthy chip: what each does to the array.
use nand_vfs_mx35lf.Base.{
  ℕ, ◌+◌, ◌/◌, ◌<◌, ◌≡◌, refl, Bool, true, false, ◌&&◌, Option, none, some, List, arith, length,
  take, drop, Result, ok, fail, pure, gets, guard, ◌>>=◌, ◌>>◌, Good, Gives, bind-Gives,
  weaken-Gives, guarded-Gives, returned-Gives,
}
use nand_vfs_mx35lf.Driver.Types.{NandErr, valid, Platform, Driver, DriverOp, nand_page_full_size}
use nand_vfs_mx35lf.Driver.Address.{row_first_page, validate_column_address, validate_length}
use nand_vfs_mx35lf.Driver.Address.Laws.{validate_row_address_iff, validate_length_iff}
use nand_vfs_mx35lf.Driver.Api.{
  nand_check_arg, nand_check_handle, nand_lock, nand_unlock, locked, nand_mx35lf1_page_program,
  nand_mx35lf1_page_read, nand_mx35lf1_block_erase,
}
use nand_vfs_mx35lf.Driver.Chip.{View, Chip, Aside, blank_page, place, store_row, erase_rows}
use nand_vfs_mx35lf.Driver.Chip.Wire.{At, At-world}
use nand_vfs_mx35lf.Driver.Chip.Steps.{
  begun, closed, Writable, write_enable-At, program_execute-At, block_erase-At as erase-At,
  write_session-At,
}
use nand_vfs_mx35lf.Driver.Chip.Pages.{program_load-At, do_page_read-At}

module _ {P : Platform} (C : Chip P) where
  -- The mutex is not of the chip.
  nothing : (w : P.State) → Aside C.view C.busy_until P.time w w
  nothing w = record { seen = refl; due = refl; later = omega arith }

  takes :
      (m : Option ℕ) (w : P.State)
      → Aside C.view C.busy_until P.time w (elim m [ none ↦ w | some k ↦ P.take_mutex k w ])
  takes none w = nothing w
  takes (some k) w = C.takes k w

  returns :
      (m : Option ℕ) (w : P.State)
      → Aside C.view C.busy_until P.time w (elim m [ none ↦ w | some k ↦ P.give_mutex k w ])
  returns none w = nothing w
  returns (some k) w = C.gives k w

module _ {P : Platform} (C : Chip P) {v : View} {s : Driver P} (a : At C v s) where
  -- The count of the mutex is not of the chip either.
  held-At : (n : ℕ) {t : Driver P} → At C v t → At C v (record t { held = n })
  held-At n b = record { open_handle = b.open_handle; view = b.view; ready = b.ready }

  lock-At : At C v (nand_lock P s)
  unfolding nand_lock
  lock-At = held-At (s.held + 1) (At-world C _ a (takes C s.handle.lock s.world))

  unlock-At : At C v (nand_unlock P s)
  unfolding nand_unlock
  unlock-At = held-At _ (At-world C _ a (returns C s.handle.lock s.world))

  -- The checks on the handle pass.
  pub checked-At :
      {A : Type 0} {op : DriverOp P A} {Q : A → Driver P → Type 0}
      → Gives op s Q
      → Gives (nand_check_arg P valid >> (nand_check_handle P >> op)) s Q
  unfolding nand_check_arg nand_check_handle ◌>>=◌ pure gets guard
  checked-At g = record { run = (guarded-Gives _ a.open_handle.initialized g).run }

module _ {P : Platform} (C : Chip P) {s : Driver P} where
  pub locked-At :
      {v v' : View} {A : Type 0} {op : DriverOp P A} {B : A → Type 0}
      → At C v s
      → ((t : Driver P) → At C v t → Gives op t (λ x u. B x × At C v' u))
      → Gives (locked P op) s (λ x u. B x × At C v' u)
  unfolding locked
  locked-At {v'} {A} {op} {B} a run = record {
    run = go (op (nand_lock P s)).0 (op (nand_lock P s)).1 (run _ (lock-At C a)).run;
  }
    where
      go :
          (r : Result NandErr A) (t : Driver P)
          → Good (λ x u. B x × At C v' u) r t
          → Good (λ x u. B x × At C v' u) r (nand_unlock P t)
      go (ok x) t q = (q.0, unlock-At C q.1)
      go (fail e) t q = absurd q

pub first : (row : ℕ) → row < 65536 → row_first_page row < 65536
unfolding row_first_page
first row h = omega arith

pub both : (a b : Bool) → a ≡ true → b ≡ true → (a && b) ≡ true
both a b h k = ground arith

module _ {P : Platform} (C : Chip P) where
  -- The chip after a page has been programmed from a column on.
  abbrev pub after_program : ℕ → ℕ → List ℕ → View → View
  after_program row column bytes v =
      let register : List ℕ = place column bytes blank_page in
      closed C (record (begun C v) {
        array = store_row row (C.merge (v.array row) register) v.array;
        cache = register;
        wel = false;
      })

  abbrev pub after_erase : ℕ → View → View
  after_erase row v =
      closed C (record (begun C v) { array = erase_rows (row / 64) v.array; wel = false })

  abbrev pub after_read : ℕ → View → View
  after_read row v = record v { cache = v.array row }

  module _ {v : View} {s : Driver P} (a : At C v s) where
    pub page_program-At :
        (row column : ℕ) (bytes : List ℕ) (len : ℕ)
        → row < 65536
        → validate_column_address column ≡ true
        → validate_length column len ≡ true
        → length bytes ≡ len
        → Writable C v
        → Gives
            (nand_mx35lf1_page_program P valid row column (some bytes) len)
            s
            (λ _ t. Unit {0} × At C (after_program row column bytes v) t)
    unfolding nand_mx35lf1_page_program
    page_program-At row column bytes len hr hc hl e writable = checked-At C a (
        guarded-Gives _ (both _ _ ((validate_row_address_iff row).0.1 hr) hc) (
          guarded-Gives _ hl (
            locked-At C a λ t c.
              weaken-Gives
                (write_session-At C c λ t c. bind-Gives (write_enable-At C c) λ _ t c.
                  bind-Gives
                    (program_load-At C c column bytes len e
                      ((validate_length_iff column len hc).0.0 hl).1)
                    λ _ t c. program_execute-At C c row hr refl writable)
                λ _ u d. (tt, d))))

    pub page_read-At :
        (row column len : ℕ)
        → row < 65536
        → validate_column_address column ≡ true
        → validate_length column len ≡ true
        → length (v.array row) ≡ nand_page_full_size
        → Gives
            (nand_mx35lf1_page_read P valid row column valid len)
            s
            (λ bytes t. (bytes ≡ take len (drop column (v.array row))) × At C (after_read row v) t)
    unfolding nand_mx35lf1_page_read nand_check_arg
    page_read-At row column len hr hc hl full = checked-At C a (
        returned-Gives tt _ (
          guarded-Gives _ (both _ _ ((validate_row_address_iff row).0.1 hr) hc) (
            guarded-Gives _ hl (
              locked-At C a λ t c.
                do_page_read-At C c row column len hr ((validate_length_iff column len hc).0.0 hl).1
                  full))))

    pub block_erase-At :
        (row : ℕ)
        → row < 65536
        → Writable C v
        → Gives
            (nand_mx35lf1_block_erase P valid row)
            s
            (λ _ t. Unit {0} × At C (after_erase (row_first_page row) v) t)
    unfolding nand_mx35lf1_block_erase
    block_erase-At row hr writable = checked-At C a (
        guarded-Gives _ ((validate_row_address_iff (row_first_page row)).0.1 (first row hr)) (
          locked-At C a λ t c.
            weaken-Gives
              (write_session-At C c λ t c.
                bind-Gives (write_enable-At C c)
                  λ _ t c. erase-At C c (row_first_page row) (first row hr) refl writable)
              λ _ u d. (tt, d)))
