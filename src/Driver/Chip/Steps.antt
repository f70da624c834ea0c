-- ===== src/Driver/Chip/Steps.antt =====
-- The commands of a page on a healthy chip, and the session round the commands of a write.
use mathlib.Core.Path.{subst}
use nand_vfs_mx35lf.Base.{
  ℕ, ◌/◌, ◌≤◌, ◌<◌, ◌≡◌, refl, sym, ap, ◌∙◌, Bool, true, false, List, ◌++◌, Result, ok, arith,
  if◌then◌else◌, length, drop, overwrite, length-overwrite, pure, ==_iff, Gives, bind-Gives,
  weaken-Gives, pure-Gives, attempt-Gives, return_code-Gives,
}
use nand_vfs_mx35lf.Driver.Types.{NandErr, Platform, Driver, DriverOp, nand_spi_max_transfer}
use nand_vfs_mx35lf.Driver.Spi.{
  eccs0_2, get_ret_from_ecc_status, write_enable, write_disable, unlock_all_blocks, lock_all_blocks,
  nand_write_protect, write_begin, write_end,
}
use nand_vfs_mx35lf.Driver.Commands.{
  contents, fill, load_tx, load_rx, program_execute, page_read, block_erase,
}
use nand_vfs_mx35lf.Driver.Api.{write_session}
use nand_vfs_mx35lf.Driver.Chip.{View, Chip, store_row, erase_rows}
use nand_vfs_mx35lf.Driver.Chip.Wire.{At, spi_write-At, spi_write-Sent, set_feature-At}
use nand_vfs_mx35lf.Driver.Chip.Waits.{wait_ready-At}

module _ {P : Platform} (C : Chip P) where
  -- The chip between `write_begin` and `write_end`, and after it.
  abbrev pub begun : View → View
  begun v = record v { unlocked = if P.protected_mode then true else v.unlocked }

  abbrev pub closed : View → View
  closed v = record v {
    wel = if P.protected_mode then false else v.wel;
    unlocked = if P.protected_mode then false else v.unlocked;
  }

  -- Writes are possible: the driver takes the protection off, or it is off.
  abbrev pub Writable : View → Type 0
  Writable v = (begun v).unlocked ≡ true

  module _ {v : View} {s : Driver P} (a : At C v s) where
    pub write_enable-At : Gives (write_enable P) s (λ _ t. At C (record v { wel = true }) t)
    unfolding write_enable
    write_enable-At = weaken-Gives (spi_write-At C a _ refl) λ _ t b. rw (C.enables v) at b

    begin_if :
        (b : Bool)
        → Gives
            (if b then unlock_all_blocks P else pure tt)
            s
            (λ _ t. At C (record v { unlocked = if b then true else v.unlocked }) t)
    unfolding unlock_all_blocks
    begin_if true = weaken-Gives (set_feature-At C a _ _) λ _ t b. rw (C.unlocks v) at b
    begin_if false = pure-Gives tt a

    write_begin-At : Gives (write_begin P) s (λ _ t. At C (begun v) t)
    unfolding write_begin
    write_begin-At = begin_if P.protected_mode

    write_protect-At :
        Gives (nand_write_protect P) s (λ _ t. At C (record v { wel = false; unlocked = false }) t)
    unfolding nand_write_protect write_disable lock_all_blocks
    write_protect-At =
        bind-Gives (spi_write-At C a _ refl)
          λ _ t b. weaken-Gives (set_feature-At C b _ _) λ _ u c. rw (C.disables v, C.locks) at c

    end_if :
        (b : Bool)
        → Gives (if b then nand_write_protect P else pure tt) s (λ _ t.
          At C
            (record v {
              wel = if b then false else v.wel;
              unlocked = if b then false else v.unlocked;
            })
            t)
    end_if true = write_protect-At
    end_if false = pure-Gives tt a

    write_end-At :
        (r : Result NandErr (Unit {0})) (u : Unit {0})
        → r ≡ ok u
        → Gives (write_end P r) s (λ _ t. At C (closed v) t)
    unfolding write_end
    write_end-At r u e =
        subst (λ r'. Gives (write_end P r') s (λ _ t. At C (closed v) t)) (sym e)
          (end_if P.protected_mode)

    pub load_tx-At :
        (xs : List ℕ)
        → length xs ≤ nand_spi_max_transfer
        → At C v (load_tx P xs s)
          × ((old : List ℕ) × (length old ≡ nand_spi_max_transfer)
              × (contents (load_tx P xs s).handle.tx_buf ≡ overwrite xs old))
    unfolding load_tx
    load_tx-At xs h =
        let o = a.open_handle in
        (
          record {
            open_handle = record {
              initialized = o.initialized;
              tx = record (o.tx) { bytes = overwrite xs o.tx.bytes };
              tx_buf = ap (fill xs) o.tx_buf;
              tx_room = length-overwrite xs o.tx.bytes (omega (arith, o.tx_room)) ∙ o.tx_room;
              rx = o.rx;
              rx_buf = o.rx_buf;
            };
            view = a.view;
            ready = a.ready;
          },
          (o.tx.bytes, o.tx_room, rw o.tx_buf refl),
        )

    pub load_rx-At :
        (xs : List ℕ)
        → At C v (load_rx P xs s)
          × ((ys : List ℕ) × (contents (load_rx P xs s).handle.rx_buf ≡ xs ++ ys))
    unfolding load_rx
    load_rx-At xs =
        let o = a.open_handle in
        (
          record {
            open_handle = record {
              initialized = o.initialized;
              tx = o.tx;
              tx_buf = o.tx_buf;
              tx_room = o.tx_room;
              rx = record (o.rx) { bytes = overwrite xs o.rx.bytes };
              rx_buf = ap (fill xs) o.rx_buf;
            };
            view = a.view;
            ready = a.ready;
          },
          (drop (length xs) o.rx.bytes, rw o.rx_buf refl),
        )

    pub program_execute-At :
        (row : ℕ)
        → row < 65536
        → v.wel ≡ true
        → v.unlocked ≡ true
        → Gives (program_execute P row) s (λ _ t.
          At C
            (record v {
              array = store_row row (C.merge (v.array row) v.cache) v.array;
              wel = false;
            })
            t)
    unfolding program_execute
    program_execute-At row h wel unlocked = bind-Gives (spi_write-Sent C a _) λ _ t b.
        bind-Gives (wait_ready-At C b) λ status u (healthy, c).
          rw ((==_iff _ _).1 healthy.programmed)
            (pure-Gives tt (rw (C.programs row v h wel unlocked) at c))

    pub block_erase-At :
        (row : ℕ)
        → row < 65536
        → v.wel ≡ true
        → v.unlocked ≡ true
        → Gives
            (block_erase P row)
            s
            (λ _ t. At C (record v { array = erase_rows (row / 64) v.array; wel = false }) t)
    unfolding block_erase
    block_erase-At row h wel unlocked = bind-Gives (spi_write-Sent C a _) λ _ t b.
        bind-Gives (wait_ready-At C b) λ status u (healthy, c).
          rw ((==_iff _ _).1 healthy.erased)
            (pure-Gives tt (rw (C.erases row v h wel unlocked) at c))

    ecc_ok : (status : ℕ) → eccs0_2 status ≤ 1 → get_ret_from_ecc_status status ≡ ok tt
    unfolding get_ret_from_ecc_status
    ecc_ok status h = ground arith

    pub page_read-At :
        (row : ℕ)
        → row < 65536
        → Gives (page_read P row) s (λ _ t. At C (record v { cache = v.array row }) t)
    unfolding page_read
    page_read-At row h = bind-Gives (spi_write-Sent C a _) λ _ t b.
        bind-Gives (wait_ready-At C b) λ status u (healthy, c).
          return_code-Gives (ecc_ok status healthy.corrected) (rw (C.reads row v h) at c)

  -- A write whose commands succeed between the two ends of the session.
  pub write_session-At :
      {v : View} {s : Driver P} {op : DriverOp P (Unit {0})} {v' : View}
      → At C v s
      → ((t : Driver P) → At C (begun v) t → Gives op t (λ _ u. At C v' u))
      → Gives (write_session P op) s (λ _ t. At C (closed v') t)
  unfolding write_session
  write_session-At a run =
      bind-Gives (write_begin-At a)
        λ _ t b. bind-Gives (attempt-Gives (run t b)) λ r u (done, e, c). write_end-At c r done e
