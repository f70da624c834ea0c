-- ===== src/Driver/Protection.antt =====
-- The write latch and the block protection of the chip in the protected mode of
-- src/mx35lf1_driver.c (CONFIG_NAND_MX35_PROTECTED_MODE). The chip is a parameter: its status may
-- report any failure, and any transfer but those that close a write may fail.
pub mod Calls
pub mod Init
use nand_vfs_mx35lf.Base.{
  ℕ, ◌+◌, ◌≡◌, ◌≢◌, refl, sym, ap, ◌∙◌, Bool, true, false, ◌||◌, Option, none, some, List, [], ◌∷◌,
  ◌++◌, Result, ok, fail, arith, ◌==◌, if◌then◌else◌, length, take, resume, pure, throw, attempt,
  ◌>>=◌, ◌>>◌, Good, Gives, bind-Gives, weaken-Gives, relabel-Gives, pure-Gives, modify, gets,
  Keeps, IsPreorder, bind-Keeps, gets-Keeps, pure-Keeps, modify-Keeps, return_code-Keeps,
}
use nand_vfs_mx35lf.Driver.Types.{
  NandErr, Block, Platform, Driver, DriverOp, cmd_write_disable, cmd_get_feature, cmd_set_feature,
  cmd_page_read, cmd_read_cache_x1, nand_feat_block_prot, nand_feat_secure_otp,
}
use nand_vfs_mx35lf.Driver.Spi.{
  all_locked, received, spi_xfer, spi_write, set_feature, write_disable, unlock_all_blocks,
  lock_all_blocks, nand_write_protect, write_begin, write_end,
}
use nand_vfs_mx35lf.Driver.Api.{write_session}

pub record Latches : Type 0 where
  pub wel : Bool
  pub unlocked : Bool

-- Nothing can be programmed or erased.
abbrev pub off : Latches
off = record { wel = false; unlocked = false }

-- The commands that leave both latches alone.
abbrev pub is_reading : ℕ → Bool
is_reading cmd = (cmd == cmd_get_feature) || (cmd == cmd_page_read) || (cmd == cmd_read_cache_x1)

pub record Protects (P : Platform) : Type 0 where
  pub latches : P.State → Latches
  pub answers_disable :
      (polling : Bool) (w : P.State)
      → (P.transmit polling (cmd_write_disable ∷ []) false w).0 ≢ none
  pub answers_feature :
      (polling : Bool) (reg value : ℕ) (w : P.State)
      → (P.transmit polling (cmd_set_feature ∷ reg ∷ value ∷ []) false w).0 ≢ none
  pub disables :
      (polling : Bool) (w : P.State)
      → latches (P.transmit polling (cmd_write_disable ∷ []) false w).1
        ≡ record (latches w) { wel = false }
  pub locks :
      (polling : Bool) (w : P.State)
      → latches
          (P.transmit polling (cmd_set_feature ∷ nand_feat_block_prot ∷ all_locked ∷ []) false w).1
        ≡ record (latches w) { unlocked = false }
  pub configures :
      (polling : Bool) (value : ℕ) (w : P.State)
      → latches (P.transmit polling (cmd_set_feature ∷ nand_feat_secure_otp ∷ value ∷ []) false w).1
        ≡ latches w
  pub reads :
      (polling : Bool) (cmd : ℕ) (rest : List ℕ) (receives : Bool) (w : P.State)
      → is_reading cmd ≡ true
      → latches (P.transmit polling (cmd ∷ rest) receives w).1 ≡ latches w
  pub delays : (us : ℕ) (w : P.State) → latches (P.delay_us us w) ≡ latches w
  pub yields : (ticks : ℕ) (w : P.State) → latches (P.task_delay ticks w) ≡ latches w
  pub takes : (m : ℕ) (w : P.State) → latches (P.take_mutex m w) ≡ latches w
  pub gives : (m : ℕ) (w : P.State) → latches (P.give_mutex m w) ≡ latches w
  pub mallocs : (n : ℕ) (w : P.State) → latches (P.malloc n w).1 ≡ latches w
  pub frees : (b : Block) (w : P.State) → latches (P.free b w) ≡ latches w

received-Good :
    {S : Type 0} (Q : S → Type 0) (o : Option (List ℕ)) (t : S)
    → o ≢ none
    → Q t
    → Good (λ _ u. Q u) (received o) t
received-Good Q none t answered q = absurd (answered refl)
received-Good Q (some rx) t answered q = q

module _ {P : Platform} (B : Protects P) where
  xfer-Gives :
      (tx : List ℕ) (receives : Bool) (s : Driver P) (Q : Latches → Type 0)
      → ((polling : Bool)
          → ((P.transmit polling tx receives s.world).0 ≢ none)
            × Q (B.latches (P.transmit polling tx receives s.world).1))
      → Gives (spi_xfer P tx receives) s (λ _ t. Q (B.latches t.world))
  unfolding spi_xfer
  xfer-Gives tx receives s Q h = record {
    run = received-Good (λ (t : Driver P). Q (B.latches t.world)) _ _ (h _).0 (h _).1;
  }

  write-Gives :
      (tx : List ℕ) (s : Driver P) (Q : Latches → Type 0)
      → ((polling : Bool)
          → ((P.transmit polling tx false s.world).0 ≢ none)
            × Q (B.latches (P.transmit polling tx false s.world).1))
      → Gives (spi_write P tx) s (λ _ t. Q (B.latches t.world))
  unfolding spi_write
  write-Gives tx s Q h = bind-Gives (xfer-Gives tx false s Q h) λ rx t q. pure-Gives tt q

  unlock-Gives : (s : Driver P) → Gives (unlock_all_blocks P) s (λ _ _. Unit {0})
  unfolding unlock_all_blocks set_feature
  unlock-Gives s = relabel-Gives _ (
      write-Gives _ s (λ _. Unit {0})
        (λ polling. (B.answers_feature polling nand_feat_block_prot 0 s.world, tt)))

  pub protect-Gives :
      (s : Driver P) → Gives (nand_write_protect P) s (λ _ t. B.latches t.world ≡ off)
  unfolding nand_write_protect write_disable lock_all_blocks set_feature
  protect-Gives s =
      bind-Gives
        (write-Gives _ s (λ l. l.wel ≡ false)
          (λ polling. (
            B.answers_disable polling s.world,
            ap (λ (l : Latches). l.wel) (B.disables polling s.world),
          )))
        λ _ t cleared. relabel-Gives _ (
          write-Gives _ t (λ l. l ≡ off)
            (λ polling. (
              B.answers_feature polling nand_feat_block_prot all_locked t.world,
              B.locks polling t.world
                  ∙ ap (λ (b : Bool). record { wel = b; unlocked = false }) cleared,
            )))

  protect-off : (s : Driver P) → B.latches (nand_write_protect P s).1.world ≡ off
  protect-off s =
      whatever (nand_write_protect P s).0 (nand_write_protect P s).1 (protect-Gives s).run
    where
      whatever :
          (r : Result NandErr (Unit {0})) (t : Driver P)
          → Good (λ _ u. B.latches u.world ≡ off) r t
          → B.latches t.world ≡ off
      whatever (ok _) t q = q
      whatever (fail e) t q = absurd q

chosen : {A : Type 0} (b : Bool) (m n : A) → b ≡ true → (if b then m else n) ≡ m
chosen true m n h = refl
chosen false m n h = absurd cc

module _ {P : Platform} (B : Protects P) (mode : P.protected_mode ≡ true) where
  write_end-off :
      (r : Result NandErr (Unit {0})) (s : Driver P) → B.latches (write_end P r s).1.world ≡ off
  unfolding write_end ◌>>=◌ attempt throw
  write_end-off (ok done) s =
      rw (chosen P.protected_mode (nand_write_protect P) (pure tt) mode) (protect-off B s)
  write_end-off (fail e) s =
      rw (chosen P.protected_mode (nand_write_protect P) (write_disable P) mode) (protect-off B s)

  -- A first step that succeeds, and what the rest leaves.
  then_left :
      (m : DriverOp P (Unit {0})) (f : Unit {0} → DriverOp P (Unit {0})) (K : Driver P → Type 0)
      (s : Driver P)
      → Gives m s (λ _ _. Unit {0})
      → ((t : Driver P) → K (f tt t).1)
      → K ((m >>= f) s).1
  unfolding ◌>>=◌
  then_left m f K s g next = go (m s).0 (m s).1 g.run
    where
      go :
          (r : Result NandErr (Unit {0})) (t : Driver P)
          → Good (λ _ _. Unit {0}) r t
          → K (resume r f t).1
      go (ok _) t q = next t
      go (fail e) t q = absurd q

  begin-Gives : (s : Driver P) → Gives (write_begin P) s (λ _ _. Unit {0})
  unfolding write_begin
  begin-Gives s =
      rw (chosen P.protected_mode (unlock_all_blocks P) (pure tt) mode) (unlock-Gives B s)

  -- However the commands of a write end, the session leaves the chip protected.
  pub write_session-off :
      (op : DriverOp P (Unit {0})) (s : Driver P) → B.latches (write_session P op s).1.world ≡ off
  unfolding write_session ◌>>=◌ attempt
  write_session-off op s =
      then_left (write_begin P) (λ _. attempt op >>= λ ret. write_end P ret)
        (λ t. B.latches t.world ≡ off) s (begin-Gives s) λ t. write_end-off (op t).0 (op t).1
