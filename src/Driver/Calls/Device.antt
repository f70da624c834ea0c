-- ===== src/Driver/Calls/Device.antt =====
-- No call of include/mx35lf1_driver.h leaves the mutex taken or the handle changed.
use nand_vfs_mx35lf.Base.{ℕ, ◌≡◌, refl, Option, none, some, List, arith, bind-Keeps}
use nand_vfs_mx35lf.Driver.Types.{Block, Platform, Driver}
use nand_vfs_mx35lf.Driver.Api.{nand_lock, nand_unlock}
use nand_vfs_mx35lf.Driver.Commands.{load_tx, load_rx, fill}
use nand_vfs_mx35lf.Driver.Stable.{IsStable, write_enable-Keeps}
use nand_vfs_mx35lf.Driver.Stable.Commands.{
  program_load-Keeps, program_execute-Keeps, page_read-Keeps, read_from_cache-Keeps,
  block_erase-Keeps, write_session-Keeps,
}
use nand_vfs_mx35lf.Driver.Calls.{Call, after_call, IsGuarded}
use nand_vfs_mx35lf.Driver.Calls.Parts.{after_call-related}

-- The parts of the driver that a call may not change for the next one: the mutex count, and of the
-- handle all but the bytes in its two buffers.
abbrev pub buffer_address : Option Block → Option ℕ
buffer_address none = none
buffer_address (some b) = some b.address

pub record SameDevice {P : Platform} (s t : Driver P) : Type 0 where
  pub held : t.held ≡ s.held
  pub spi : t.handle.spi ≡ s.handle.spi
  pub info : t.handle.info ≡ s.handle.info
  pub initialized : t.handle.initialized ≡ s.handle.initialized
  pub lock : t.handle.lock ≡ s.handle.lock
  pub tx_buf : buffer_address t.handle.tx_buf ≡ buffer_address s.handle.tx_buf
  pub rx_buf : buffer_address t.handle.rx_buf ≡ buffer_address s.handle.rx_buf

fill-address : (xs : List ℕ) (b : Option Block) → buffer_address (fill xs b) ≡ buffer_address b
fill-address xs none = refl
fill-address xs (some b) = refl

module _ {P : Platform} where
  SameDevice-world : (s : Driver P) (w : P.State) → SameDevice s (record s { world = w })
  SameDevice-world s w = ground arith

  SameDevice-refl : (s : Driver P) → SameDevice s s
  SameDevice-refl s = ground arith

  SameDevice-trans : (s t u : Driver P) → SameDevice s t → SameDevice t u → SameDevice s u
  SameDevice-trans s t u h k = ground arith

  loads_tx : (xs : List ℕ) (s : Driver P) → SameDevice s (load_tx P xs s)
  unfolding load_tx
  loads_tx xs s = ground (arith, fill-address xs s.handle.tx_buf)

  loads_rx : (xs : List ℕ) (s : Driver P) → SameDevice s (load_rx P xs s)
  unfolding load_rx
  loads_rx xs s = ground (arith, fill-address xs s.handle.rx_buf)

  unlocks : (s t : Driver P) → SameDevice (nand_lock P s) t → SameDevice s (nand_unlock P t)
  unfolding nand_lock nand_unlock
  unlocks s t h = ground arith

  pub SameDevice-IsStable : IsStable P SameDevice
  SameDevice-IsStable = record {
    quiet = record {
      preorder = record { same = SameDevice-refl; then_on = SameDevice-trans };
      transmits = λ polling tx receives s. SameDevice-world s _;
      delays = λ us s. SameDevice-world s _;
      yields = λ ticks s. SameDevice-world s _;
    };
    loads_tx = loads_tx;
    loads_rx = loads_rx;
  }

  SameDevice-IsGuarded : IsGuarded P SameDevice
  SameDevice-IsGuarded =
      let st = SameDevice-IsStable in
      let p = st.quiet.preorder in
      record {
        shared = record {
          preorder = p;
          pages = page_read-Keeps st;
          caches = read_from_cache-Keeps st;
          unlocks = unlocks;
          mallocs = λ n s. SameDevice-world s _;
          frees = λ b s. SameDevice-world s _;
        };
        programs = λ row column bytes len. write_session-Keeps st (
            bind-Keeps p (write_enable-Keeps st.quiet) λ _.
              bind-Keeps p (program_load-Keeps st column bytes len)
                λ _. program_execute-Keeps st row);
        copies = λ row.
            write_session-Keeps st
              (bind-Keeps p (write_enable-Keeps st.quiet) λ _. program_execute-Keeps st row);
        erases = λ row.
            write_session-Keeps st
              (bind-Keeps p (write_enable-Keeps st.quiet) λ _. block_erase-Keeps st row);
      }

  -- Whatever the arguments and whatever the platform answers, a page or block function returns with
  -- the mutex held as often as before and the handle unchanged but for the bytes in its two buffers.
  pub after_call-SameDevice : (c : Call) (s : Driver P) → SameDevice s (after_call P c s)
  after_call-SameDevice = after_call-related SameDevice-IsGuarded
