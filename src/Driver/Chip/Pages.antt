-- ===== src/Driver/Chip/Pages.antt =====
-- Loading the page register, and reading it back.
use nand_vfs_mx35lf.Base.{
  ℕ, zero, suc, ◌+◌, ◌≤◌, ◌<◌, ◌≡◌, refl, ap, List, [], ◌∷◌, ◌++◌, arith, true, length, take, drop,
  overwrite, take-append, length-take, length-drop, modify, ◌>>=◌, Gives, bind-Gives, weaken-Gives,
  relabel-Gives, gets-Gives, modify-Gives,
}
use nand_vfs_mx35lf.Driver.Types.{
  Platform, Driver, nand_page_full_size, nand_spi_max_transfer, cmd_prog_load, cmd_read_cache_x1,
}
use nand_vfs_mx35lf.Driver.Address.{column_bytes}
use nand_vfs_mx35lf.Driver.Spi.{spi_xfer}
use nand_vfs_mx35lf.Driver.Commands.{
  contents, load_rx, program_load, read_from_cache_raw, read_from_cache, do_page_read,
}
use nand_vfs_mx35lf.Driver.Chip.{View, Chip, blank_page, place}
use nand_vfs_mx35lf.Driver.Chip.Wire.{At, spi_xfer-At, spi_write-At}
use nand_vfs_mx35lf.Driver.Chip.Steps.{load_tx-At, load_rx-At, page_read-At}

pub take-length : (xs : List ℕ) (n : ℕ) → length xs ≡ n → take n xs ≡ xs
take-length [] zero h = refl
take-length [] (suc n) h = refl
take-length (x ∷ xs) zero h = absurd (omega arith)
take-length (x ∷ xs) (suc n) h = ap (λ zs. x ∷ zs) (take-length xs n (omega arith))

module _ {P : Platform} (C : Chip P) {v : View} {s : Driver P} (a : At C v s) where
  pub program_load-At :
      (column : ℕ) (bytes : List ℕ) (len : ℕ)
      → length bytes ≡ len
      → column + len ≤ nand_page_full_size
      → Gives
          (program_load P column bytes len)
          s
          (λ _ t. At C (record v { cache = place column bytes blank_page }) t)
  unfolding program_load column_bytes
  program_load-At column bytes len e h =
      let frame : List ℕ = cmd_prog_load ∷ column_bytes column ++ take len bytes in
      let whole = take-length bytes len e in
      let loaded = load_tx-At C a frame (omega (arith, length-take len bytes)) in
      let sent : 3 + len ≡ length frame = omega (arith, length-take len bytes) in
      let effect : C.react frame v ≡ record v { cache = place column bytes blank_page } =
        rw whole (C.loads column bytes v (omega (arith, e))) in
      bind-Gives {Q = λ _ t. At C v t × (take (3 + len) (contents t.handle.tx_buf) ≡ frame)}
        (modify-Gives _ (loaded.0, rw (sent, loaded.1.2) (take-append frame _)))
        λ _ t (b, tx).
          bind-Gives {Q = λ x u. At C v u × (take (3 + len) x ≡ frame)} (gets-Gives _ (b, tx))
            λ x u (c, e').
              rw e' (
                relabel-Gives _
                  (weaken-Gives (spi_write-At C c frame refl) λ _ w d. rw effect at d))

  -- The frame of the read command: its own four bytes, and what the buffer held behind them.
  read_frame :
      (column len : ℕ) (old : List ℕ)
      → take (4 + len) (overwrite (cmd_read_cache_x1 ∷ column_bytes column ++ (0 ∷ [])) old)
        ≡ cmd_read_cache_x1 ∷ column_bytes column ++ (0 ∷ take len (drop 4 old))
  unfolding column_bytes
  read_frame column len old =
      let four : 4 + len ≡ suc (suc (suc (suc len))) = omega arith in rw four

  -- The buffer holds the bytes of the register behind the first four.
  abbrev Received : ℕ → ℕ → Driver P → Type 0
  Received column len t =
      At C v t × (take len (drop 4 (contents t.handle.rx_buf)) ≡ take len (drop column v.cache))

  reply_tail :
      (column len : ℕ) (rest : List ℕ)
      → length rest ≡ len
      → column + len ≤ nand_page_full_size
      → length v.cache ≡ nand_page_full_size
      → (rx ys buffer : List ℕ)
      → rx ≡ C.reply (cmd_read_cache_x1 ∷ column_bytes column ++ (0 ∷ rest)) v
      → buffer ≡ rx ++ ys
      → take len (drop 4 buffer) ≡ take len (drop column v.cache)
  reply_tail column len rest room h full rx ys buffer e f =
      rw (f, e) (rw room at (C.shifts_out column rest v (omega (arith, room)) full ys))

  -- The transfer of a frame that asks for as many bytes as it has behind the command.
  read_reply :
      {t : Driver P} (column len : ℕ) (rest : List ℕ)
      → length rest ≡ len
      → At C v t
      → column + len ≤ nand_page_full_size
      → length v.cache ≡ nand_page_full_size
      → let frame : List ℕ = cmd_read_cache_x1 ∷ column_bytes column ++ (0 ∷ rest) in
        Gives
          (spi_xfer P frame true >>= λ rx. modify (load_rx P rx))
          t
          (λ _ u. Received column len u)
  read_reply column len rest room b h full =
      let frame : List ℕ = cmd_read_cache_x1 ∷ column_bytes column ++ (0 ∷ rest) in
      bind-Gives (spi_xfer-At C b frame true refl) λ rx u (e, c).
        let same = rw (C.sends column rest v) at c in
        let filled = load_rx-At C same rx in
        modify-Gives _
          (filled.0, reply_tail column len rest room h full rx filled.1.0 _ e filled.1.1)

  read_from_cache_raw-At :
      (column len : ℕ)
      → column + len ≤ nand_page_full_size
      → length v.cache ≡ nand_page_full_size
      → Gives (read_from_cache_raw P column len) s (λ _ t. Received column len t)
  unfolding read_from_cache_raw
  read_from_cache_raw-At column len h full =
      let command : List ℕ = cmd_read_cache_x1 ∷ column_bytes column ++ (0 ∷ []) in
      let short : length command ≤ nand_spi_max_transfer = unfold column_bytes in (omega arith) in
      let loaded = load_tx-At C a command short in
      let old = loaded.1.0 in
      let rest : List ℕ = take len (drop 4 old) in
      let room : length rest ≡ len =
        omega (arith, loaded.1.1, length-take len (drop 4 old), length-drop 4 old) in
      let frame : List ℕ = cmd_read_cache_x1 ∷ column_bytes column ++ (0 ∷ rest) in
      bind-Gives {Q = λ _ t. At C v t × (take (4 + len) (contents t.handle.tx_buf) ≡ frame)}
        (modify-Gives _ (loaded.0, rw loaded.1.2 (read_frame column len old)))
        λ _ t (b, tx).
          bind-Gives {Q = λ x u. At C v u × (take (4 + len) x ≡ frame)} (gets-Gives _ (b, tx))
            λ x u (c, e'). rw e' (read_reply column len rest room c h full)

  pub read_from_cache-At :
      (column len : ℕ)
      → column + len ≤ nand_page_full_size
      → length v.cache ≡ nand_page_full_size
      → Gives
          (read_from_cache P column len)
          s
          (λ bytes t. (bytes ≡ take len (drop column v.cache)) × At C v t)
  unfolding read_from_cache
  read_from_cache-At column len h full =
      bind-Gives (read_from_cache_raw-At column len h full) λ _ t (b, e). gets-Gives _ (e, b)

-- A page read leaves the page in the register, and gives the bytes asked for.
pub do_page_read-At :
    {P : Platform} (C : Chip P) {v : View} {s : Driver P}
    → At C v s
    → (row column len : ℕ) → row < 65536
    → column + len ≤ nand_page_full_size
    → length (v.array row) ≡ nand_page_full_size
    → Gives (do_page_read P row column len) s (λ bytes t.
      (bytes ≡ take len (drop column (v.array row))) × At C (record v { cache = v.array row }) t)
unfolding do_page_read
do_page_read-At C a row column len h k full =
    bind-Gives (page_read-At C a row h) λ _ t b. read_from_cache-At C b column len k full
