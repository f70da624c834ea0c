-- ===== src/Driver/Chip/Wire.antt =====
-- The transfers, polls and commands of the driver on a healthy chip.

use nand_vfs_mx35lf.Base.{
  ℕ, ◌+◌, ◌≡◌, ◌≤◌, refl, ap, ◌∙◌, Bool, true, false, some, List, [], ◌∷◌, arith, leb, length,
  Gives, bind-Gives, relabel-Gives, pure-Gives,
}
use nand_vfs_mx35lf.Driver.Types.{
  Block, NandHandle, Platform, cmd_set_feature, Driver, nand_spi_max_transfer,
}
use nand_vfs_mx35lf.Driver.Spi.{spi_xfer, spi_write, set_feature}
use nand_vfs_mx35lf.Driver.Chip.{View, Chip, Aside, is_array_command}

-- A handle as `nand_mx35lf1_init` leaves it: open, with both buffers.
pub record IsOpen (h : NandHandle) : Type 0 where
  pub initialized : h.initialized ≡ true
  pub tx : Block
  pub tx_buf : h.tx_buf ≡ some tx
  pub tx_room : length tx.bytes ≡ nand_spi_max_transfer
  pub rx : Block
  pub rx_buf : h.rx_buf ≡ some rx

module _ {P : Platform} (C : Chip P) where
  -- The handle is open, and the chip is ready and as stated.
  pub record At (v : View) (s : Driver P) : Type 0 where
    pub open_handle : IsOpen s.handle
    pub view : C.view s.world ≡ v
    pub ready : C.busy_until s.world ≤ P.time s.world

  -- The chip may be busy up to a time, after which it will be as stated.
  pub record Busy (v : View) (until : ℕ) (s : Driver P) : Type 0 where
    pub open_handle : IsOpen s.handle
    pub view : C.view s.world ≡ v
    pub due : C.busy_until s.world ≤ until

  -- A step of the platform that the chip takes no part in.
  pub At-world :
      {v : View} {s : Driver P} (w : P.State)
      → At v s
      → Aside C.view C.busy_until P.time s.world w
      → At v (record s { world = w })
  At-world w a e = record {
    open_handle = a.open_handle;
    view = e.seen ∙ a.view;
    ready = omega (arith, a.ready, e.due, e.later);
  }

  pub Busy-world :
      {v : View} {until : ℕ} {s : Driver P} (w : P.State)
      → Busy v until s
      → Aside C.view C.busy_until P.time s.world w
      → Busy v until (record s { world = w })
  Busy-world w b e = record {
    open_handle = b.open_handle;
    view = e.seen ∙ b.view;
    due = omega (arith, b.due, e.due);
  }

  module _ {v : View} {s : Driver P} (a : At v s) where
    -- Any command, after which the chip may be busy.
    abbrev Sent : List ℕ → Driver P → Type 0
    Sent tx t = Busy (C.react tx v) (P.time t.world + C.longest) t

    pub spi_xfer-At :
        (tx : List ℕ) (receives : Bool)
        → is_array_command tx ≡ false
        → Gives (spi_xfer P tx receives) s (λ rx t. (rx ≡ C.reply tx v) × At (C.react tx v) t)
    unfolding spi_xfer
    spi_xfer-At tx receives quick =
        let polling = leb (length tx) 64 in
        record {
          run = rw (C.answers polling tx receives s.world a.ready) (
            rw a.view,
            record {
              open_handle = a.open_handle;
              view = C.reacts polling tx receives s.world a.ready ∙ ap (C.react tx) a.view;
              ready = C.stays polling tx receives s.world quick a.ready;
            },
          );
        }

    pub spi_write-At :
        (tx : List ℕ)
        → is_array_command tx ≡ false
        → Gives (spi_write P tx) s (λ _ t. At (C.react tx v) t)
    unfolding spi_write
    spi_write-At tx quick = bind-Gives (spi_xfer-At tx false quick) λ rx t q. pure-Gives tt q.1

    pub set_feature-At :
        (reg value : ℕ)
        → Gives
            (set_feature P reg value)
            s
            (λ _ t. At (C.react (cmd_set_feature ∷ reg ∷ value ∷ []) v) t)
    unfolding set_feature
    set_feature-At reg value = relabel-Gives _ (spi_write-At _ refl)

    pub spi_write-Sent : (tx : List ℕ) → Gives (spi_write P tx) s (λ _ t. Sent tx t)
    unfolding spi_write spi_xfer
    spi_write-Sent tx =
        let polling = leb (length tx) 64 in
        bind-Gives {Q = λ _ t. Sent tx t}
          (record {
            run = rw (C.answers polling tx false s.world a.ready) (record {
              open_handle = a.open_handle;
              view = C.reacts polling tx false s.world a.ready ∙ ap (C.react tx) a.view;
              due = C.starts polling tx false s.world a.ready;
            });
          })
          λ rx t q. pure-Gives tt q
