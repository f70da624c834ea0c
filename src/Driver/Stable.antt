-- ===== src/Driver/Stable.antt =====
-- What the lock-free helpers of src/mx35lf1_driver.c do to the driver: they only transmit, wait and
-- fill the two buffers. A relation that these steps respect holds of every helper.
pub mod Commands
use nand_vfs_mx35lf.Base.{
  ℕ, zero, suc, ◌+◌, ◌*◌, ◌≡◌, Bool, true, false, Option, none, some, List, [], ◌∷◌, Result, ok,
  fail, arith, ltb, ◌==◌, if◌then◌else◌, Bool-cases, pure, throw, relabel, recode, return_code,
  ◌>>=◌, ◌>>◌, Keeps, IsPreorder, bind-Keeps, if-Keeps, pure-Keeps, throw-Keeps, gets-Keeps,
  guard-Keeps, attempt-Keeps, relabel-Keeps, return_code-Keeps, inl, inr,
}
use nand_vfs_mx35lf.Driver.Types.{
  NandErr, timeout, Platform, Driver, DriverOp, cmd_get_feature, nand_feat_status, verify_fail,
  nand_feat_secure_otp, nand_op_timeout,
}
use nand_vfs_mx35lf.Driver.Spi.{
  oip, spi_xfer, spi_write, set_feature, get_feature, pause, wait_loop, or_timeout, wait_ready,
  write_enable, write_disable, unlock_all_blocks, lock_all_blocks, nand_write_protect, write_begin,
  write_end, configure_ecc, set_ecc_en, ecc_en,
}
use nand_vfs_mx35lf.Driver.Commands.{load_tx, load_rx}

-- A relation that transfers and waits respect.
pub record IsQuiet (P : Platform) (R : Driver P → Driver P → Type 0) : Type 0 where
  pub preorder : IsPreorder R
  pub transmits :
      (polling : Bool) (tx : List ℕ) (receives : Bool) (s : Driver P)
      → R s (record s { world = (P.transmit polling tx receives s.world).1 })
  pub delays : (us : ℕ) (s : Driver P) → R s (record s { world = P.delay_us us s.world })
  pub yields : (ticks : ℕ) (s : Driver P) → R s (record s { world = P.task_delay ticks s.world })

-- A relation that filling the two buffers respects too.
pub record IsStable (P : Platform) (R : Driver P → Driver P → Type 0) : Type 0 where
  pub quiet : IsQuiet P R
  pub loads_tx : (xs : List ℕ) (s : Driver P) → R s (load_tx P xs s)
  pub loads_rx : (xs : List ℕ) (s : Driver P) → R s (load_rx P xs s)

-- What the status poll does: transfers of its one frame, and waits.
pub record IsPolled (P : Platform) (R : Driver P → Driver P → Type 0) : Type 0 where
  pub preorder : IsPreorder R
  pub polls :
      (polling : Bool) (s : Driver P)
      → R s (record s {
        world = (P.transmit polling (cmd_get_feature ∷ nand_feat_status ∷ 0 ∷ []) true s.world).1;
      })
  pub delays : (us : ℕ) (s : Driver P) → R s (record s { world = P.delay_us us s.world })
  pub yields : (ticks : ℕ) (s : Driver P) → R s (record s { world = P.task_delay ticks s.world })

module _ {P : Platform} {R : Driver P → Driver P → Type 0} (w : IsPolled P R) where
  open w use {preorder}

  status-Keeps : Keeps R (get_feature P nand_feat_status)
  unfolding get_feature spi_xfer
  status-Keeps = bind-Keeps preorder (record { run = λ s. w.polls _ s }) λ rx. pure-Keeps preorder _

  pause-related : (start : ℕ) (s : Driver P) → R s (pause P start s)
  unfolding pause
  pause-related start s = elim (Bool-cases (ltb (P.time s.world) (start + 2000))) [
    | inl early ↦ rw early (w.delays 50 s)
    | inr late ↦ rw late (w.yields 1 s)
  ]

  -- What a poll that has ended left.
  abbrev Ended : Driver P → Option (Result NandErr ℕ × Driver P) → Type 0
  Ended s none = Unit {0}
  Ended s (some r) = R s r.1

  Ended-if :
      (s : Driver P) (b : Bool) (o o' : Option (Result NandErr ℕ × Driver P))
      → Ended s o
      → Ended s o'
      → Ended s (if b then o else o')
  Ended-if s true o o' k k' = k
  Ended-if s false o o' k k' = k'

  Ended-trans :
      (s t : Driver P) (o : Option (Result NandErr ℕ × Driver P)) → R s t → Ended t o → Ended s o
  Ended-trans s t none h k = tt
  Ended-trans s t (some r) h k = preorder.then_on s t r.1 h k

  wait_loop-Ended :
      (fuel start deadline : ℕ) (s : Driver P) → Ended s (wait_loop P fuel start deadline s)
  unfolding wait_loop
  wait_loop-Ended zero start deadline s = tt
  wait_loop-Ended (suc fuel) start deadline s =
      round (get_feature P nand_feat_status s).0 (get_feature P nand_feat_status s).1
        (status-Keeps.run s) (λ t. wait_loop-Ended fuel start deadline (pause P start t))
    where
      round :
          (r : Result NandErr ℕ) (t : Driver P)
          → R s t
          → ((u : Driver P)
              → Ended (pause P start u) (wait_loop P fuel start deadline (pause P start u)))
          → Ended s (elim r [
            | fail e ↦ some (fail e, t)
            | ok status ↦
                let rest = wait_loop P fuel start deadline (pause P start t) in
                if oip status == 0
                then some (ok status, t)
                else if ltb deadline (P.time t.world)
                then some (fail timeout, t)
                else rest
          ])
      round (fail e) t k ih = k
      round (ok status) t k ih = Ended-if s (oip status == 0) _ _ k (
          Ended-if s (ltb deadline (P.time t.world)) _ _ k (
            Ended-trans s t _ k (Ended-trans t (pause P start t) _ (pause-related start t) (ih t))))

  Ended-or :
      (s : Driver P) (o : Option (Result NandErr ℕ × Driver P))
      → Ended s o
      → R s (or_timeout P s o).1
  Ended-or s none k = preorder.same s
  Ended-or s (some r) k = k

  pub polled-Keeps : (timeout_ms : ℕ) → Keeps R (wait_ready P timeout_ms)
  unfolding wait_ready
  polled-Keeps timeout_ms = record { run = λ s. Ended-or s _ (wait_loop-Ended _ _ _ s) }

module _ {P : Platform} {R : Driver P → Driver P → Type 0} (q : IsQuiet P R) where
  open q use {preorder}

  pub spi_xfer-Keeps : (tx : List ℕ) (receives : Bool) → Keeps R (spi_xfer P tx receives)
  unfolding spi_xfer
  spi_xfer-Keeps tx receives = record { run = λ s. q.transmits _ tx receives s }

  pub spi_write-Keeps : (tx : List ℕ) → Keeps R (spi_write P tx)
  unfolding spi_write
  spi_write-Keeps tx = bind-Keeps preorder (spi_xfer-Keeps tx false) (λ _. pure-Keeps preorder tt)

  pub set_feature-Keeps : (reg value : ℕ) → Keeps R (set_feature P reg value)
  unfolding set_feature
  set_feature-Keeps reg value = relabel-Keeps _ (spi_write-Keeps _)

  pub get_feature-Keeps : (reg : ℕ) → Keeps R (get_feature P reg)
  unfolding get_feature
  get_feature-Keeps reg = bind-Keeps preorder (spi_xfer-Keeps _ true) (λ rx. pure-Keeps preorder _)

  pub wait_ready-Keeps : (timeout_ms : ℕ) → Keeps R (wait_ready P timeout_ms)
  wait_ready-Keeps = polled-Keeps (record {
    preorder = preorder;
    polls = λ polling s. q.transmits polling _ true s;
    delays = q.delays;
    yields = q.yields;
  })

  pub write_enable-Keeps : Keeps R (write_enable P)
  unfolding write_enable
  write_enable-Keeps = spi_write-Keeps _

  pub write_disable-Keeps : Keeps R (write_disable P)
  unfolding write_disable
  write_disable-Keeps = spi_write-Keeps _

  pub unlock_all_blocks-Keeps : Keeps R (unlock_all_blocks P)
  unfolding unlock_all_blocks
  unlock_all_blocks-Keeps = set_feature-Keeps _ _

  pub nand_write_protect-Keeps : Keeps R (nand_write_protect P)
  unfolding nand_write_protect lock_all_blocks
  nand_write_protect-Keeps = bind-Keeps preorder write_disable-Keeps (λ _. set_feature-Keeps _ _)

  pub write_begin-Keeps : Keeps R (write_begin P)
  unfolding write_begin
  write_begin-Keeps = if-Keeps P.protected_mode unlock_all_blocks-Keeps (pure-Keeps preorder tt)

  pub write_end-Keeps : (op_ret : Result NandErr (Unit {0})) → Keeps R (write_end P op_ret)
  unfolding write_end
  write_end-Keeps (ok done) =
      if-Keeps P.protected_mode nand_write_protect-Keeps (pure-Keeps preorder tt)
  write_end-Keeps (fail e) =
      bind-Keeps preorder
        (attempt-Keeps (if-Keeps P.protected_mode nand_write_protect-Keeps write_disable-Keeps))
        (λ _. throw-Keeps preorder e)

  pub configure_ecc-Keeps : (enable : Bool) → Keeps R (configure_ecc P enable)
  unfolding configure_ecc
  configure_ecc-Keeps enable = bind-Keeps preorder (get_feature-Keeps _) λ value.
      bind-Keeps preorder (set_feature-Keeps _ _) λ _. bind-Keeps preorder (wait_ready-Keeps _) λ _.
        bind-Keeps preorder (get_feature-Keeps _)
          λ readback. if-Keeps _ (pure-Keeps preorder tt) (throw-Keeps preorder _)
