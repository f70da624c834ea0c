-- ===== src/Driver/Lifecycle/Opened.antt =====
-- A successful `nand_mx35lf1_init` of src/mx35lf1_driver.c leaves the handle that the page and block
-- functions work on.
use nand_vfs_mx35lf.Base.{
  ℕ, ◌≡◌, refl, ◌∙◌, true, false, Option, none, some, Result, ok, fail, if◌then◌else◌, length,
  length-replicate, Returned, Keeps,
}
use nand_vfs_mx35lf.Driver.Types.{
  NandErr, valid, NandConfig, Block, Platform, Driver, nand_spi_max_transfer,
}
use nand_vfs_mx35lf.Driver.Chip.Wire.{IsOpen}
use nand_vfs_mx35lf.Driver.Stable.{IsQuiet}
use nand_vfs_mx35lf.Driver.Lifecycle.{
  allocate, allocated, present, blank, blank_tx, bring_up, nand_mx35lf1_init,
}
use nand_vfs_mx35lf.Driver.Lifecycle.Laws.{Up, bring_up-Ensures}
use nand_vfs_mx35lf.Driver.Lifecycle.Quiet.{bring_up_quiet}
use nand_vfs_mx35lf.Driver.Lifecycle.Rule.{attach_rule, init_rule, Attached, with_device}

module _ (P : Platform) where
  two_buffers :
      (lock : Option ℕ) (tx rx : Option Block)
      → (if present P lock then (if present P tx then present P rx else false) else false) ≡ true
      → ((b : Block) × (blank P tx ≡ some b)
          × (length b.bytes ≡ nand_spi_max_transfer)
          × ((c : Block) × (rx ≡ some c)))
  two_buffers none tx rx h = absurd cc
  two_buffers (some m) none rx h = absurd cc
  two_buffers (some m) (some b) none h = absurd cc
  two_buffers (some m) (some b) (some c) h =
      (_, refl, length-replicate {A = ℕ} nand_spi_max_transfer 255, (c, refl))

module _ {P : Platform} where
  -- The buffers are there, the transmit buffer with its whole size.
  record HasBuffers (s : Driver P) : Type 0 where
    tx : Block
    tx_buf : s.handle.tx_buf ≡ some tx
    tx_room : length tx.bytes ≡ nand_spi_max_transfer
    rx : Block
    rx_buf : s.handle.rx_buf ≡ some rx

  record SameBuffers (s t : Driver P) : Type 0 where
    tx_buf : t.handle.tx_buf ≡ s.handle.tx_buf
    rx_buf : t.handle.rx_buf ≡ s.handle.rx_buf

  SameBuffers-IsQuiet : IsQuiet P SameBuffers
  SameBuffers-IsQuiet = record {
    preorder = record {
      same = λ s. record { tx_buf = refl; rx_buf = refl };
      then_on = λ s t u h k. record { tx_buf = k.tx_buf ∙ h.tx_buf; rx_buf = k.rx_buf ∙ h.rx_buf };
    };
    transmits = λ polling tx receives s. record { tx_buf = refl; rx_buf = refl };
    delays = λ us s. record { tx_buf = refl; rx_buf = refl };
    yields = λ ticks s. record { tx_buf = refl; rx_buf = refl };
  }

  bring_up-Keeps : (cfg : NandConfig) → Keeps SameBuffers (bring_up P cfg)
  bring_up-Keeps =
      bring_up_quiet SameBuffers-IsQuiet λ cfg m d s. record { tx_buf = refl; rx_buf = refl }

  abbrev OpenOutcome : Result NandErr (Unit {0}) → Driver P → Type 0
  OpenOutcome (ok _) t = IsOpen t.handle
  OpenOutcome (fail e) t = Unit

  marked_open :
      (cfg : NandConfig) (s : Driver P) (r : Result NandErr (Unit {0})) (t : Driver P)
      → HasBuffers s
      → SameBuffers s t
      → Returned (λ _ u. Up cfg u) r t
      → Attached OpenOutcome cfg r t
  marked_open cfg s (fail e) t b same up = tt
  marked_open cfg s (ok _) t b same up = record {
    initialized = up.0;
    tx = b.tx;
    tx_buf = same.tx_buf ∙ b.tx_buf;
    tx_room = b.tx_room;
    rx = b.rx;
    rx_buf = same.rx_buf ∙ b.rx_buf;
  }

  with_device-HasBuffers :
      (cfg : NandConfig) (s : Driver P) (d : ℕ) (w : P.State)
      → HasBuffers s
      → HasBuffers (with_device OpenOutcome cfg s d w)
  with_device-HasBuffers cfg s d w b = record {
    tx = b.tx;
    tx_buf = b.tx_buf;
    tx_room = b.tx_room;
    rx = b.rx;
    rx_buf = b.rx_buf;
  }

  allocated-HasBuffers :
      (s : Driver P)
      → allocated P (allocate P s).handle ≡ true
      → HasBuffers (blank_tx P (allocate P s))
  unfolding blank_tx
  allocated-HasBuffers s h =
      let b = two_buffers P _ (allocate P s).handle.tx_buf (allocate P s).handle.rx_buf h in
      record { tx = b.0; tx_buf = b.1; tx_room = b.2; rx = b.3.0; rx_buf = b.3.1 }

  opened :
      (cfg : NandConfig) (s : Driver P)
      → OpenOutcome
          (nand_mx35lf1_init P valid (some cfg) s).0
          (nand_mx35lf1_init P valid (some cfg) s).1
  opened cfg s =
      init_rule OpenOutcome cfg s (λ _. tt) (λ _. tt)
        λ h.
          attach_rule OpenOutcome cfg (blank_tx P (allocate P s)) (λ w e. tt)
            λ d w e.
              let t = with_device OpenOutcome cfg (blank_tx P (allocate P s)) d w in
              marked_open cfg t _ _ (with_device-HasBuffers cfg _ d w (allocated-HasBuffers s h))
                ((bring_up-Keeps cfg).run t) ((bring_up-Ensures cfg).run t)

  of_ok :
      (r : Result NandErr (Unit {0})) (t : Driver P) → OpenOutcome r t → r ≡ ok tt → IsOpen t.handle
  of_ok (ok _) t h e = h
  of_ok (fail x) t h e = absurd cc

  -- After a `nand_mx35lf1_init` that returns OK the handle is open, as the theorems on the page and
  -- block functions of a healthy chip ask for: it is marked as initialized, has both buffers, and
  -- the transmit buffer has room for a whole page with its command.
  pub nand_mx35lf1_init-IsOpen :
      (cfg : NandConfig) (s : Driver P)
      → (nand_mx35lf1_init P valid (some cfg) s).0 ≡ ok tt
      → IsOpen (nand_mx35lf1_init P valid (some cfg) s).1.handle
  nand_mx35lf1_init-IsOpen cfg s e = of_ok _ _ (opened cfg s) e
