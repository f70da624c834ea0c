-- ===== src/Driver/Protection/Init.antt =====
-- In the protected mode `nand_mx35lf1_init` leaves the chip protected.

use nand_vfs_mx35lf.Base.{
  ℕ, ◌≡◌, refl, ◌∙◌, Bool, true, false, Option, none, some, Result, ok, fail, if◌then◌else◌, modify,
  Keeps, bind-Keeps, pure-Keeps, throw-Keeps, if-Keeps, relabel-Keeps, Returned, Keeps-Returned,
}
use nand_vfs_mx35lf.Driver.Types.{
  NandErr, bad_spi, valid, NandConfig, Block, Platform, Driver, cmd_get_feature,
  nand_feat_secure_otp,
}
use nand_vfs_mx35lf.Driver.Spi.{
  spi_xfer, spi_write, set_feature, get_feature, nand_write_protect, unlock_all_blocks,
  configure_ecc,
}
use nand_vfs_mx35lf.Driver.Stable.{polled-Keeps, nand_write_protect-Keeps}
use nand_vfs_mx35lf.Driver.Stable.Commands.{nand_reset-Keeps, nand_read_id-Keeps}
use nand_vfs_mx35lf.Driver.Calls.Device.{SameDevice, SameDevice-IsStable, buffer_address}
use nand_vfs_mx35lf.Driver.Lifecycle.Rule.{attach_rule, init_rule, Attached}
use nand_vfs_mx35lf.Driver.Lifecycle.Quiet.{settle-Keeps}
use nand_vfs_mx35lf.Driver.Lifecycle.{
  allocate, allocated, present, blank, blank_tx, device_info, bring_up, nand_mx35lf1_init,
}
use nand_vfs_mx35lf.Driver.Protection.{off, Protects, chosen, protect-off}
use nand_vfs_mx35lf.Driver.Protection.Calls.{
  IsProtected, StaysProtected, stays, quiet, read_xfer-Keeps, polled,
}

module _ {P : Platform} (B : Protects P) where
  secure_read : Keeps (StaysProtected B) (get_feature P nand_feat_secure_otp)
  unfolding get_feature
  secure_read =
      bind-Keeps (stays B) (read_xfer-Keeps B cmd_get_feature _ true refl)
        λ rx. pure-Keeps (stays B) _

  secure_write : (value : ℕ) → Keeps (StaysProtected B) (set_feature P nand_feat_secure_otp value)
  unfolding set_feature spi_write spi_xfer
  secure_write value = relabel-Keeps bad_spi (
      bind-Keeps (stays B) (record { run = λ s. quiet B s _ (B.configures _ value s.world) })
        λ rx. pure-Keeps (stays B) tt)

  configure : (enable : Bool) → Keeps (StaysProtected B) (configure_ecc P enable)
  unfolding configure_ecc
  configure enable =
      let p = stays B in
      bind-Keeps p secure_read λ value. bind-Keeps p (secure_write _) λ _.
        bind-Keeps p (polled-Keeps (polled B) _)
          λ _. bind-Keeps p secure_read λ readback. if-Keeps _ (pure-Keeps p tt) (throw-Keeps p _)

  abbrev Protected : Unit {0} → Driver P → Type 0
  Protected _ t = IsProtected B t

  attached :
      (cfg : NandConfig) (r : Result NandErr (Unit {0})) (t : Driver P)
      → Returned Protected r t
      → Attached (Returned Protected) cfg r t
  attached cfg (ok _) t h = h
  attached cfg (fail e) t h = tt

  on_success :
      (r : Result NandErr (Unit {0})) (t : Driver P)
      → Returned Protected r t
      → r ≡ ok tt
      → IsProtected B t
  on_success (ok _) t q e = q
  on_success (fail x) t q e = absurd cc

  has_tx :
      (tx rx : Option Block) (lock : Option ℕ)
      → (if present P lock then (if present P tx then present P rx else false) else false) ≡ true
      → (n : ℕ) × (buffer_address (blank P tx) ≡ some n)
  has_tx (some tx) rx lock h = (tx.address, refl)
  has_tx none rx none h = absurd cc
  has_tx none rx (some m) h = absurd cc

  blanked :
      (s : Driver P)
      → allocated P s.handle ≡ true
      → (tx : ℕ) × (buffer_address (blank_tx P s).handle.tx_buf ≡ some tx)
  unfolding blank_tx
  blanked s h = has_tx s.handle.tx_buf s.handle.rx_buf s.handle.lock h

  abbrev Closes : Driver P → Driver P → Type 0
  Closes s t = SameDevice s t × (B.latches t.world ≡ off)

  protect-Closes : Keeps Closes (nand_write_protect P)
  protect-Closes = record {
    run = λ s. ((nand_write_protect-Keeps SameDevice-IsStable.quiet).run s, protect-off B s);
  }

  finish :
      (cfg : NandConfig) (m d : ℕ) (t : Driver P)
      → IsProtected B t
      → IsProtected B (record t {
        handle = record (t.handle) { info = device_info P cfg m d; initialized = true };
      })
  finish cfg m d t h = record { tx = h.tx; tx_buf = h.tx_buf; latches = h.latches }

  module _ (mode : P.protected_mode ≡ true) where
    mode-Closes :
        Keeps Closes (if P.protected_mode then nand_write_protect P else unlock_all_blocks P)
    mode-Closes =
        rw (chosen P.protected_mode (nand_write_protect P) (unlock_all_blocks P) mode)
          protect-Closes

    bring_up-Protected :
        (cfg : NandConfig) (tx : ℕ) (s : Driver P)
        → buffer_address s.handle.tx_buf ≡ some tx
        → Returned Protected (bring_up P cfg s).0 (bring_up P cfg s).1
    unfolding bring_up modify
    bring_up-Protected cfg tx s h =
        let st = SameDevice-IsStable.quiet in
        Keeps-Returned Protected _ _ s (settle-Keeps st _) λ _ s₁ k₁.
          Keeps-Returned Protected _ _ s₁ (nand_reset-Keeps st) λ _ s₂ k₂.
            Keeps-Returned Protected _ _ s₂ (settle-Keeps st _) λ _ s₃ k₃.
              Keeps-Returned Protected _ _ s₃ (nand_read_id-Keeps st) λ p s₄ k₄.
                Keeps-Returned Protected _ _ s₄ mode-Closes λ _ s₅ k₅.
                  Keeps-Returned Protected _ _ s₅ (configure _) λ _ s₆ k₆. finish cfg p.0 p.1 s₆ (
                    k₆ (record {
                      tx = tx;
                      tx_buf = k₅.0.tx_buf ∙ k₄.tx_buf ∙ k₃.tx_buf ∙ k₂.tx_buf ∙ k₁.tx_buf ∙ h;
                      latches = k₅.1;
                    }))

    init-Protected :
        (cfg : NandConfig) (s : Driver P)
        → Returned Protected
            (nand_mx35lf1_init P valid (some cfg) s).0
            (nand_mx35lf1_init P valid (some cfg) s).1
    init-Protected cfg s =
        init_rule (Returned Protected) cfg s (λ _. tt) (λ _. tt)
          λ h.
            attach_rule (Returned Protected) cfg (blank_tx P (allocate P s)) (λ w e. tt)
              λ d w e.
                let (tx, k) = blanked (allocate P s) h in
                attached cfg _ _ (bring_up-Protected cfg tx _ k)

    -- In the protected mode, on a bus that answers the frames that disable writes and set a feature
    -- register, a successful initialization leaves the write latch clear and all blocks locked,
    -- whatever they were before.
    pub nand_mx35lf1_init-IsProtected :
        (cfg : NandConfig) (s : Driver P)
        → (nand_mx35lf1_init P valid (some cfg) s).0 ≡ ok tt
        → IsProtected B (nand_mx35lf1_init P valid (some cfg) s).1
    nand_mx35lf1_init-IsProtected cfg s e = on_success _ _ (init-Protected cfg s) e
