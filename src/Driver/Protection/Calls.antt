-- ===== src/Driver/Protection/Calls.antt =====
-- No page or block function of include/mx35lf1_driver.h leaves the chip writable in the protected
-- mode, whatever the chip reports.
use mathlib.Core.Path.{subst}
use nand_vfs_mx35lf.Base.{
  ap, ℕ, suc, ◌+◌, ◌≡◌, refl, sym, ◌∙◌, Bool, true, Option, none, some, List, [], ◌∷◌, ◌++◌, arith,
  take, ◌>>=◌, modify, gets, Keeps, IsPreorder, bind-Keeps, gets-Keeps, pure-Keeps, modify-Keeps,
  return_code-Keeps,
}
use nand_vfs_mx35lf.Driver.Types.{
  Block, Platform, Driver, DriverOp, cmd_get_feature, cmd_page_read, cmd_read_cache_x1,
}
use nand_vfs_mx35lf.Driver.Address.{column_bytes}
use nand_vfs_mx35lf.Driver.Spi.{spi_xfer, spi_write}
use nand_vfs_mx35lf.Driver.Commands.{
  contents, fill, load_tx, load_rx, page_read, read_from_cache_raw, read_from_cache,
}
use nand_vfs_mx35lf.Driver.Api.{nand_lock, nand_unlock, write_session}
use nand_vfs_mx35lf.Driver.Stable.{IsPolled, polled-Keeps, write_enable-Keeps}
use nand_vfs_mx35lf.Driver.Stable.Commands.{
  program_load-Keeps, program_execute-Keeps, block_erase-Keeps, write_session-Keeps,
}
use nand_vfs_mx35lf.Driver.Calls.{Call, after_call, IsGuarded}
use nand_vfs_mx35lf.Driver.Calls.Parts.{after_call-related}
use nand_vfs_mx35lf.Driver.Calls.Device.{SameDevice, SameDevice-IsStable, buffer_address}
use nand_vfs_mx35lf.Driver.Protection.{off, is_reading, Protects, write_session-off}

module _ {P : Platform} (B : Protects P) where
  -- The handle has its transmit buffer, and nothing can be programmed or erased.
  pub record IsProtected (s : Driver P) : Type 0 where
    pub tx : ℕ
    pub tx_buf : buffer_address s.handle.tx_buf ≡ some tx
    pub latches : B.latches s.world ≡ off

  abbrev pub StaysProtected : Driver P → Driver P → Type 0
  StaysProtected s t = IsProtected s → IsProtected t

  pub stays : IsPreorder StaysProtected
  stays = record { same = λ s h. h; then_on = λ s t u h k p. k (h p) }

  pub quiet :
      (s : Driver P) (w : P.State)
      → B.latches w ≡ B.latches s.world
      → StaysProtected s (record s { world = w })
  quiet s w e h = record { tx = h.tx; tx_buf = h.tx_buf; latches = e ∙ h.latches }

  fill-address : (xs : List ℕ) (b : Option Block) → buffer_address (fill xs b) ≡ buffer_address b
  fill-address xs none = refl
  fill-address xs (some b) = refl

  loads_tx : (xs : List ℕ) (s : Driver P) → StaysProtected s (load_tx P xs s)
  unfolding load_tx
  loads_tx xs s h = record {
    tx = h.tx;
    tx_buf = fill-address xs s.handle.tx_buf ∙ h.tx_buf;
    latches = h.latches;
  }

  loads_rx : (xs : List ℕ) (s : Driver P) → StaysProtected s (load_rx P xs s)
  unfolding load_rx
  loads_rx xs s h = record { tx = h.tx; tx_buf = h.tx_buf; latches = h.latches }

  pub read_xfer-Keeps :
      (cmd : ℕ) (rest : List ℕ) (receives : Bool)
      → is_reading cmd ≡ true
      → Keeps StaysProtected (spi_xfer P (cmd ∷ rest) receives)
  unfolding spi_xfer
  read_xfer-Keeps cmd rest receives reading = record {
    run = λ s. quiet s _ (B.reads _ cmd rest receives s.world reading);
  }

  pub polled : IsPolled P StaysProtected
  polled = record {
    preorder = stays;
    polls = λ polling s. quiet s _ (B.reads polling cmd_get_feature _ true s.world refl);
    delays = λ us s. quiet s _ (B.delays us s.world);
    yields = λ ticks s. quiet s _ (B.yields ticks s.world);
  }

  read_write-Keeps : (rest : List ℕ) → Keeps StaysProtected (spi_write P (cmd_page_read ∷ rest))
  unfolding spi_write
  read_write-Keeps rest =
      bind-Keeps stays (read_xfer-Keeps cmd_page_read rest _ refl) λ _. pure-Keeps stays tt

  pages : (row : ℕ) → Keeps StaysProtected (page_read P row)
  unfolding page_read
  pages row =
      bind-Keeps stays (read_write-Keeps _)
        λ _. bind-Keeps stays (polled-Keeps polled _) λ status. return_code-Keeps stays _

  take_first : (n x : ℕ) (xs : List ℕ) → (rest : List ℕ) × (take (4 + n) (x ∷ xs) ≡ x ∷ rest)
  take_first n x xs =
      let e : 4 + n ≡ suc (3 + n) = omega arith in (take (3 + n) xs, ap (λ m. take m (x ∷ xs)) e)

  -- The frame of a cache read begins with its command, since the buffer is there.
  cache_frame :
      (column len tx : ℕ) (b : Option Block)
      → buffer_address b ≡ some tx
      → (rest : List ℕ) × (take
            (4 + len)
            (contents (fill (cmd_read_cache_x1 ∷ column_bytes column ++ (0 ∷ [])) b))
          ≡ cmd_read_cache_x1 ∷ rest)
  cache_frame column len tx none h = absurd cc
  cache_frame column len tx (some b) h = take_first len cmd_read_cache_x1 _

  caches_raw : (column len : ℕ) → Keeps StaysProtected (read_from_cache_raw P column len)
  unfolding read_from_cache_raw ◌>>=◌ modify gets load_tx
  caches_raw column len = record {
    run = λ s h.
        let frame = cmd_read_cache_x1 ∷ column_bytes column ++ (0 ∷ []) in
        let t = load_tx P frame s in
        let (rest, e) = cache_frame column len h.tx s.handle.tx_buf h.tx_buf in
        subst (λ tx. IsProtected ((spi_xfer P tx true >>= λ rx. modify (load_rx P rx)) t).1) (sym e)
          ((bind-Keeps stays (read_xfer-Keeps cmd_read_cache_x1 rest true refl)
              λ rx. modify-Keeps _ (loads_rx rx)).run
            t (loads_tx frame s h));
  }

  caches : (column len : ℕ) → Keeps StaysProtected (read_from_cache P column len)
  unfolding read_from_cache
  caches column len = bind-Keeps stays (caches_raw column len) λ _. gets-Keeps stays _

  taken :
      (lock : Option ℕ) (w : P.State)
      → let w' : P.State = elim lock [ none ↦ w | some m ↦ P.take_mutex m w ] in
        B.latches w' ≡ B.latches w
  taken none w = refl
  taken (some m) w = B.takes m w

  given :
      (lock : Option ℕ) (w : P.State)
      → let w' : P.State = elim lock [ none ↦ w | some m ↦ P.give_mutex m w ] in
        B.latches w' ≡ B.latches w
  given none w = refl
  given (some m) w = B.gives m w

  locks : (s : Driver P) → StaysProtected s (nand_lock P s)
  unfolding nand_lock
  locks s h = record {
    tx = h.tx;
    tx_buf = h.tx_buf;
    latches = taken s.handle.lock s.world ∙ h.latches;
  }

  unlock : (t : Driver P) → StaysProtected t (nand_unlock P t)
  unfolding nand_unlock
  unlock t h = record {
    tx = h.tx;
    tx_buf = h.tx_buf;
    latches = given t.handle.lock t.world ∙ h.latches;
  }

  module _ (mode : P.protected_mode ≡ true) where
    -- A session keeps the buffer, and ends with the chip protected whatever its commands did.
    session :
        {op : DriverOp P (Unit {0})}
        → Keeps SameDevice op
        → Keeps StaysProtected (write_session P op)
    session {op} k = record {
      run = λ s h. record {
        tx = h.tx;
        tx_buf = ((write_session-Keeps SameDevice-IsStable k).run s).tx_buf ∙ h.tx_buf;
        latches = write_session-off B mode op s;
      };
    }

    guarded : IsGuarded P StaysProtected
    guarded =
        let st = SameDevice-IsStable in
        let p = st.quiet.preorder in
        record {
          shared = record {
            preorder = stays;
            pages = pages;
            caches = caches;
            unlocks = λ s t k h. unlock t (k (locks s h));
            mallocs = λ n s. quiet s _ (B.mallocs n s.world);
            frees = λ b s. quiet s _ (B.frees b s.world);
          };
          programs = λ row column bytes len. session (
              bind-Keeps p (write_enable-Keeps st.quiet) λ _.
                bind-Keeps p (program_load-Keeps st column bytes len)
                  λ _. program_execute-Keeps st row);
          copies = λ row.
              session
                (bind-Keeps p (write_enable-Keeps st.quiet) λ _. program_execute-Keeps st row);
          erases = λ row.
              session (bind-Keeps p (write_enable-Keeps st.quiet) λ _. block_erase-Keeps st row);
        }

    -- In the protected mode, on a bus that answers the frames that disable writes and set a feature
    -- register, a page or block function that begins with the write latch clear and all blocks
    -- locked ends so, whatever its arguments are, whatever code it returns, and whatever status the
    -- chip reports: a failed program or erase and a timeout leave nothing unlocked.
    pub after_call-IsProtected :
        (c : Call) (s : Driver P) → IsProtected s → IsProtected (after_call P c s)
    after_call-IsProtected = after_call-related guarded
