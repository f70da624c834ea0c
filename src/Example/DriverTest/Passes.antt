-- ===== src/Example/DriverTest/Passes.antt =====
-- The self test of example/main/nand_driver_test.c on a healthy chip: what it does to the two rows that
-- it works on, and what it reads and logs.
use nand_vfs_mx35lf.Base.{
  ℕ, ◌-◌, ◌%◌, ◌/◌, ◌<◌, ◌≡◌, ◌≢◌, ◌↔◌, refl, sym, ap, ◌∙◌, Bool, true, false, none, List, [], ◌∷◌,
  ◌++◌, arith, length, take, drop, ◌==◌, Gives, bind-Gives, weaken-Gives, modify-Gives,
}
use nand_vfs_mx35lf.Driver.Types.{SpiHost, Platform, nand_page_full_size}
use nand_vfs_mx35lf.Driver.Address.{nand_row_addr, row_block, row_first_page}
use nand_vfs_mx35lf.Driver.Blank.{AllErased}
use nand_vfs_mx35lf.Driver.Chip.{Chip, blank_page, place, store_row, erase_rows}
use nand_vfs_mx35lf.Driver.Chip.Writes.{
  after_erase, after_program, after_read, block_erase-At, page_program-At, page_read-At,
}
use nand_vfs_mx35lf.Driver.Chip.Reads.{marked, after_copy, block_is_bad-At, page_copy-At}
use nand_vfs_mx35lf.Driver.Chip.RoundTrip.{length-blank_page, store_row_self}
use nand_vfs_mx35lf.Driver.Chip.Clear.Loop.{still_writable}
use nand_vfs_mx35lf.Driver.Chip.Free.{column_ok, erased_row, AllErased-blank_page, page_is_free_iff}
use nand_vfs_mx35lf.Example.DriverTest.{
  SelfTest, Report, block_bad, page_free, msg, test_block_erase, test_block_is_bad,
  test_page_is_free, test_page_program, test_page_read, test_page_copy, into_receive,
  into_copied_data, run_tests,
}
use nand_vfs_mx35lf.Example.DriverTest.Stage.{
  message_page, length-message_page, read_message, message_length_ok, not_erased, by_iff, Stage,
  on_handle-Stage, log-Stage,
}

-- An erased page carries no marker of a bad block.
blank_unmarked : marked blank_page ≡ false
unfolding blank_page
blank_unmarked = refl

module _ {P : Platform} (C : Chip P) (spi_bus_initialize : SpiHost → P.State → P.State)
    (row row_dst : ℕ) where
  module _ (hr : row < 65536) (hd : row_dst < 65536) (first : nand_row_addr (row_block row) 0 ≡ row)
      (apart : row_block row_dst ≢ row_block row)
      (served : (w : P.State) → (P.malloc nand_page_full_size w).0 ≢ none) where
    abbrev pub Holds : (page copy receive : List ℕ) (logged : List Report) → SelfTest P → Type 0
    Holds = Stage C spi_bus_initialize row row_dst

    other_block :
        (array : ℕ → List ℕ) → erase_rows (row_first_page row / 64) array row_dst ≡ array row_dst
    unfolding row_first_page row_block
    other_block array =
        let outside : (row_dst / 64 == (row - row % 64) / 64) ≡ false = ground arith in
        rw outside refl

    other_row :
        (page : List ℕ) (array : ℕ → List ℕ) → store_row row page array row_dst ≡ array row_dst
    unfolding row_block
    other_row page array = let outside : (row_dst == row) ≡ false = ground arith in rw outside refl

    own_row : (page : List ℕ) (array : ℕ → List ℕ) → store_row row_dst page array row ≡ array row
    unfolding row_block
    own_row page array = let outside : (row == row_dst) ≡ false = ground arith in rw outside refl

    module _ {page copy receive : List ℕ} {logged : List Report} {t : SelfTest P}
        (s : Holds page copy receive logged t) where
      erase-Stage :
          Gives
            (test_block_erase P spi_bus_initialize row)
            t
            (λ _ w. Unit {0} × Holds blank_page copy receive logged w)
      unfolding test_block_erase
      erase-Stage =
          on_handle-Stage C spi_bus_initialize row row_dst s
            (after_erase C (row_first_page row) s.now) (erased_row row row s.now.array refl)
            (other_block s.now.array ∙ s.copy_now)
            (still_writable P.protected_mode s.now.unlocked s.writable)
            (block_erase-At C s.at_now row hr s.writable)

      is_bad-Stage :
          length page ≡ nand_page_full_size
          → Gives
              (test_block_is_bad P spi_bus_initialize row)
              t
              (λ _. Holds page copy receive (logged ++ block_bad (marked page) ∷ []))
      unfolding test_block_is_bad
      is_bad-Stage full =
          bind-Gives
            (on_handle-Stage C spi_bus_initialize row row_dst s
              (after_read C (nand_row_addr (row_block row) 0) s.now) s.page_now s.copy_now
              s.writable
              (block_is_bad-At C s.at_now row hr
                (ap (λ i. length (s.now.array i)) first ∙ ap length s.page_now ∙ full)))
            λ is_bad u (e, b).
              let found : is_bad ≡ marked page =
                e ∙ ap (λ i. marked (s.now.array i)) first ∙ ap marked s.page_now in
              rw found (log-Stage C spi_bus_initialize row row_dst (block_bad (marked page)) b)

      is_free-Stage :
          (free : Bool)
          → length page ≡ nand_page_full_size
          → (free ≡ true) ↔ AllErased page
          → Gives
              (test_page_is_free P spi_bus_initialize row)
              t
              (λ _. Holds page copy receive (logged ++ page_free free ∷ []))
      unfolding test_page_is_free
      is_free-Stage free full meaning =
          bind-Gives
            (on_handle-Stage C spi_bus_initialize row row_dst s (after_read C row s.now) s.page_now
              s.copy_now s.writable
              (page_is_free_iff C served row s.at_now hr (ap length s.page_now ∙ full)))
            λ is_free u (found, b).
              let same : is_free ≡ free = by_iff is_free free (rw s.page_now at found) meaning in
              rw same (log-Stage C spi_bus_initialize row row_dst (page_free free) b)

      program-Stage :
          page ≡ blank_page
          → Gives
              (test_page_program P spi_bus_initialize row 0)
              t
              (λ _ w. Unit {0} × Holds message_page copy receive logged w)
      unfolding test_page_program message_page
      program-Stage e =
          on_handle-Stage C spi_bus_initialize row row_dst s (after_program C row 0 msg s.now)
            (store_row_self row _ s.now.array
              ∙ ap (λ old. C.merge old (place 0 msg blank_page)) (s.page_now ∙ e)
              ∙ C.merge_blank (place 0 msg blank_page))
            (other_row _ s.now.array ∙ s.copy_now)
            (still_writable P.protected_mode s.now.unlocked s.writable)
            (page_program-At C s.at_now row 0 msg (length msg) hr column_ok message_length_ok refl
              s.writable)

      read-Stage :
          length page ≡ nand_page_full_size
          → Gives
              (test_page_read P spi_bus_initialize row 0
                (into_receive P spi_bus_initialize)
                (length msg))
              t
              (λ _. Holds page copy (take (length msg) (drop 0 page)) logged)
      unfolding test_page_read
      read-Stage full =
          bind-Gives
            (on_handle-Stage C spi_bus_initialize row row_dst s (after_read C row s.now) s.page_now
              s.copy_now s.writable
              (page_read-At C s.at_now row 0 (length msg) hr column_ok message_length_ok
                (ap length s.page_now ∙ full)))
            λ bytes u (e, b). modify-Gives _ (record {
              now = b.now;
              at_now = b.at_now;
              page_now = b.page_now;
              copy_now = b.copy_now;
              writable = b.writable;
              receive_now = e ∙ ap (λ p. take (length msg) (drop 0 p)) s.page_now;
              logged_now = b.logged_now;
            })

      copy-Stage :
          Gives
            (test_page_copy P spi_bus_initialize row row_dst)
            t
            (λ _ w. Unit {0} × Holds page (C.merge copy page) receive logged w)
      unfolding test_page_copy
      copy-Stage =
          on_handle-Stage C spi_bus_initialize row row_dst s
            (after_copy C s.at_now row row_dst s.now) (own_row _ s.now.array ∙ s.page_now)
            (store_row_self row_dst _ s.now.array
              ∙ ap (λ old. C.merge old (s.now.array row)) s.copy_now
              ∙ ap (C.merge copy) s.page_now)
            (still_writable P.protected_mode s.now.unlocked s.writable)
            (page_copy-At C s.at_now row row_dst hr hd s.writable)

      read_copy-Stage :
          length copy ≡ nand_page_full_size
          → Gives
              (test_page_read P spi_bus_initialize row_dst 0
                (into_copied_data P spi_bus_initialize)
                (length msg))
              t
              (λ _ w.
                (w.copied_data ≡ take (length msg) (drop 0 copy))
                × Holds page copy receive logged w)
      unfolding test_page_read
      read_copy-Stage full =
          bind-Gives
            (on_handle-Stage C spi_bus_initialize row row_dst s (after_read C row_dst s.now)
              s.page_now s.copy_now s.writable
              (page_read-At C s.at_now row_dst 0 (length msg) hd column_ok message_length_ok
                (ap length s.copy_now ∙ full)))
            λ bytes u (e, b). modify-Gives _ (
              e ∙ ap (λ p. take (length msg) (drop 0 p)) s.copy_now,
              record {
                now = b.now;
                at_now = b.at_now;
                page_now = b.page_now;
                copy_now = b.copy_now;
                writable = b.writable;
                receive_now = b.receive_now;
                logged_now = b.logged_now;
              },
            )

    -- The tests one after the other. The copy is programmed over what its row held before.
    pub run_tests-Stage :
        {page copy receive : List ℕ} {logged : List Report} {t : SelfTest P}
        → length copy ≡ nand_page_full_size
        → Holds page copy receive logged t
        → Gives (run_tests P spi_bus_initialize row row_dst 0 0) t (λ _ w.
          (w.copied_data ≡ take (length msg) (C.merge copy message_page))
          × Holds message_page
              (C.merge copy message_page)
              msg
              (((logged ++ block_bad false ∷ []) ++ page_free true ∷ []) ++ page_free false ∷ [])
              w)
    unfolding run_tests
    run_tests-Stage {copy} full s =
        let merged = C.merge_length copy message_page (full ∙ sym length-message_page) in
        bind-Gives (erase-Stage s) λ _ _ (_, s).
          bind-Gives (is_bad-Stage s length-blank_page) λ _ _ s.
            bind-Gives (erase-Stage s) λ _ _ (_, s).
              bind-Gives (is_free-Stage s true length-blank_page erased_is_free) λ _ _ s.
                bind-Gives (program-Stage s refl) λ _ _ (_, s).
                  bind-Gives (read-Stage s length-message_page) λ _ _ s.
                    bind-Gives (is_free-Stage s false length-message_page message_is_not_free)
                      λ _ _ s. bind-Gives (copy-Stage s) λ _ _ (_, s).
                        weaken-Gives (read_copy-Stage s (merged ∙ length-message_page))
                          λ _ w (e, s). (e, rw (read_message, blank_unmarked) at s)
      where
        erased_is_free : (true ≡ true) ↔ AllErased blank_page
        erased_is_free = (λ _. AllErased-blank_page, λ _. refl)

        message_is_not_free : (false ≡ true) ↔ AllErased message_page
        message_is_not_free = (λ h. absurd (cc), not_erased message_page refl)
