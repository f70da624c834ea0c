-- ===== src/Driver/Resources.antt =====
-- The heap blocks, the mutex and the bus device that the driver takes in `nand_mx35lf1_init` and
-- gives back in `release_resources`, of src/mx35lf1_driver.c.
pub mod Balance
use nand_vfs_mx35lf.Base.{
  ℕ, ◌+◌, ◌-◌, ◌≤◌, ◌≡◌, refl, sym, ap, ◌∙◌, Bool, true, false, not, Option, none, some, List,
  Result, ok, fail, arith, if◌then◌else◌, pure, modify, ◌>>=◌, ◌>>◌, Keeps, IsPreorder, bind-Keeps,
  if-Keeps, modify-Keeps,
}
use nand_vfs_mx35lf.Driver.Types.{
  Block, NandConfig, NandHandle, zero_handle, Platform, Driver, DriverOp, nand_spi_max_transfer,
}
use nand_vfs_mx35lf.Driver.Commands.{load_tx, load_rx}
use nand_vfs_mx35lf.Driver.Stable.{IsQuiet}
use nand_vfs_mx35lf.Driver.Lifecycle.Quiet.{bring_up_quiet}
use nand_vfs_mx35lf.Driver.Calls.Device.{SameDevice, SameDevice-IsStable, buffer_address}
use nand_vfs_mx35lf.Driver.Lifecycle.{
  heap_caps_free, remove_spi, delete_lock, release_resources, allocate, blank, blank_tx, settle,
  device_info, bring_up,
}

abbrev pub one {ℓ} : {A : Type ℓ} → Option A → ℕ
one none = 0
one (some a) = 1

-- How many resources the platform has handed out, and which calls change that.
pub record Ledger (P : Platform) : Type 0 where
  pub live : P.State → ℕ
  pub mallocs : (n : ℕ) (w : P.State) → live (P.malloc n w).1 ≡ live w + one (P.malloc n w).0
  pub creates : (w : P.State) → live (P.create_mutex w).1 ≡ live w + one (P.create_mutex w).0
  pub adds :
      (cfg : NandConfig) (w : P.State)
      → live (P.add_device cfg w).1 ≡ live w + one (P.add_device cfg w).0
  pub frees : (b : Block) (w : P.State) → live (P.free b w) ≡ live w - 1
  pub deletes : (m : ℕ) (w : P.State) → live (P.delete_mutex m w) ≡ live w - 1
  pub removes : (d : ℕ) (w : P.State) → live (P.remove_device d w) ≡ live w - 1
  pub transmits :
      (polling : Bool) (tx : List ℕ) (receives : Bool) (w : P.State)
      → live (P.transmit polling tx receives w).1 ≡ live w
  pub delays : (us : ℕ) (w : P.State) → live (P.delay_us us w) ≡ live w
  pub yields : (ticks : ℕ) (w : P.State) → live (P.task_delay ticks w) ≡ live w
  pub takes : (m : ℕ) (w : P.State) → live (P.take_mutex m w) ≡ live w
  pub gives : (m : ℕ) (w : P.State) → live (P.give_mutex m w) ≡ live w

-- The resources that a handle points to.
abbrev pub owned : NandHandle → ℕ
owned h = one h.spi + one h.tx_buf + one h.rx_buf + one h.lock

one-buffer_address : (b : Option Block) → one (buffer_address b) ≡ one b
one-buffer_address none = refl
one-buffer_address (some b) = refl

module _ {P : Platform} (L : Ledger P) where
  -- Beside `n` others, the driver has the resources that its handle points to.
  abbrev pub Owns : ℕ → Driver P → Type 0
  Owns n s = L.live s.world ≡ n + owned s.handle

  removed : (d : Option ℕ) (w : P.State) → L.live (remove_spi P d w) ≡ L.live w - one d
  removed none w = omega arith
  removed (some d) w = L.removes d w

  freed : (b : Option Block) (w : P.State) → L.live (heap_caps_free P b w) ≡ L.live w - one b
  freed none w = omega arith
  freed (some b) w = L.frees b w

  deleted : (m : Option ℕ) (w : P.State) → L.live (delete_lock P m w) ≡ L.live w - one m
  deleted none w = omega arith
  deleted (some m) w = L.deletes m w

  pub release_resources-Owns :
      (n : ℕ) (s : Driver P) → Owns n s → L.live (release_resources P s).world ≡ n
  unfolding release_resources
  release_resources-Owns n s h =
      let w₁ = remove_spi P s.handle.spi s.world in
      let w₂ = heap_caps_free P s.handle.tx_buf w₁ in
      let w₃ = heap_caps_free P s.handle.rx_buf w₂ in
      omega (
        arith,
        h,
        removed s.handle.spi s.world,
        freed s.handle.tx_buf w₁,
        freed s.handle.rx_buf w₂,
        deleted s.handle.lock w₃,
      )

  pub allocate-Owns : (s : Driver P) → Owns (L.live s.world) (allocate P s)
  unfolding allocate
  allocate-Owns s =
      let w₁ = (P.create_mutex s.world).1 in
      let w₂ = (P.malloc nand_spi_max_transfer w₁).1 in
      omega (
        arith,
        L.creates s.world,
        L.mallocs nand_spi_max_transfer w₁,
        L.mallocs nand_spi_max_transfer w₂,
      )

  one-blank : (b : Option Block) → one (blank P b) ≡ one b
  one-blank none = refl
  one-blank (some b) = refl

  pub blank_tx-owned : (s : Driver P) → owned (blank_tx P s).handle ≡ owned s.handle
  unfolding blank_tx
  blank_tx-owned s = omega (arith, one-blank s.handle.tx_buf)

  -- The same resources, in the handle and of the platform.
  pub record SameResources (s t : Driver P) : Type 0 where
    pub live : L.live t.world ≡ L.live s.world
    pub owned : owned t.handle ≡ owned s.handle

  SameResources-IsPreorder : IsPreorder SameResources
  SameResources-IsPreorder = record {
    same = λ s. record { live = refl; owned = refl };
    then_on = λ s t u h k. record { live = k.live ∙ h.live; owned = k.owned ∙ h.owned };
  }

  resources :
      (s t : Driver P) → SameDevice s t → L.live t.world ≡ L.live s.world → SameResources s t
  resources s t h e = record {
    live = e;
    owned = omega (
      arith,
      ap (one {A = ℕ}) h.spi,
      ap (one {A = ℕ}) h.lock,
      sym (one-buffer_address t.handle.tx_buf)
          ∙ ap (one {A = ℕ}) h.tx_buf
          ∙ one-buffer_address s.handle.tx_buf,
      sym (one-buffer_address t.handle.rx_buf)
          ∙ ap (one {A = ℕ}) h.rx_buf
          ∙ one-buffer_address s.handle.rx_buf,
    );
  }

  SameResources-IsQuiet : IsQuiet P SameResources
  SameResources-IsQuiet =
      let st = SameDevice-IsStable.quiet in
      record {
        preorder = SameResources-IsPreorder;
        transmits = λ polling tx receives s.
            resources s _ (st.transmits polling tx receives s)
              (L.transmits polling tx receives s.world);
        delays = λ us s. resources s _ (st.delays us s) (L.delays us s.world);
        yields = λ ticks s. resources s _ (st.yields ticks s) (L.yields ticks s.world);
      }

  pub bring_up-Keeps : (cfg : NandConfig) → Keeps SameResources (bring_up P cfg)
  bring_up-Keeps cfg =
      bring_up_quiet SameResources-IsQuiet (λ cfg m d s. record { live = refl; owned = refl }) cfg
