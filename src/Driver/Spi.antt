-- ===== src/Driver/Spi.antt =====
-- SPI transfers, the feature registers and the status poll of src/mx35lf1_driver.c.
use nand_vfs_mx35lf.Base.{
  ℕ, zero, suc, ◌+◌, ◌-◌, ◌*◌, ◌/◌, ◌%◌, Bool, true, false, Option, none, some, List, [], ◌∷◌,
  Result, ok, fail, ltb, leb, ◌==◌, if◌then◌else◌, length, get_or, pure, throw, relabel, attempt,
  ◌>>=◌, ◌>>◌,
}
use nand_vfs_mx35lf.Driver.Types.{
  NandErr, bad_spi, timeout, ecc_err, verify_fail, Platform, Driver, DriverOp, cmd_get_feature,
  cmd_set_feature, cmd_write_enable, cmd_write_disable, nand_feat_block_prot, nand_feat_secure_otp,
  nand_feat_status, nand_op_timeout,
}

-- The bit `k` of a register byte, where `w` is 2 ^ k.
abbrev pub flag : ℕ → ℕ → ℕ
flag w byte = (byte / w) % 2

-- `feature_reg_status_t`
abbrev pub oip : ℕ → ℕ
oip status = flag 1 status

abbrev pub e_fail_bit : ℕ → ℕ
e_fail_bit status = flag 4 status

abbrev pub p_fail_bit : ℕ → ℕ
p_fail_bit status = flag 8 status

abbrev pub eccs0_2 : ℕ → ℕ
eccs0_2 status = (status / 16) % 4

-- `feature_reg_configuration_t`: ECC_EN, and the byte with it assigned.
abbrev pub ecc_en : ℕ → ℕ
ecc_en byte = flag 16 byte

unfoldable pub set_ecc_en : Bool → ℕ → ℕ
set_ecc_en enable byte = byte - 16 * ecc_en byte + (if enable then 16 else 0)

-- `feature_reg_block_lock_t` with BP0, BP1 and BP2 set.
abbrev pub all_locked : ℕ
all_locked = 8 + 16 + 32

unfoldable pub get_ret_from_ecc_status : ℕ → Result NandErr (Unit {0})
get_ret_from_ecc_status status =
    if eccs0_2 status == 0 then ok tt else if eccs0_2 status == 1 then ok tt else fail ecc_err

-- `ret != ESP_OK` becomes NAND_RET_BAD_SPI.
abbrev pub received : Option (List ℕ) → Result NandErr (List ℕ)
received none = fail bad_spi
received (some rx) = ok rx

module _ (P : Platform) where
  -- Gives the bytes received. The transfer is polled up to 64 bytes.
  unfoldable pub spi_xfer : List ℕ → Bool → DriverOp P (List ℕ)
  spi_xfer tx receives s =
      let (reply, w) = P.transmit (leb (length tx) 64) tx receives s.world in
      (received reply, record s { world = w })

  unfoldable pub spi_write : List ℕ → DriverOp P (Unit {0})
  spi_write tx = do spi_xfer tx false; pure tt

  unfoldable pub set_feature : ℕ → ℕ → DriverOp P (Unit {0})
  set_feature reg value = relabel bad_spi (spi_write (cmd_set_feature ∷ reg ∷ value ∷ []))

  -- The received bytes replace those of the zeroed `rx_data`.
  unfoldable pub get_feature : ℕ → DriverOp P ℕ
  get_feature reg = do
    rx_data ← spi_xfer (cmd_get_feature ∷ reg ∷ 0 ∷ []) true
    pure (get_or rx_data 2 0)

  -- The wait between two polls.
  unfoldable pub pause : ℕ → Driver P → Driver P
  pause start s = record s {
    world =
        if ltb (P.time s.world) (start + 2000)
        then P.delay_us 50 s.world
        else P.task_delay 1 s.world;
  }

  -- `none` means that the fuel ran out.
  unfoldable pub wait_loop :
      ℕ → (start deadline : ℕ) → Driver P → Option (Result NandErr ℕ × Driver P)
  wait_loop zero start deadline s = none
  wait_loop (suc fuel) start deadline s =
      let (r, s') = get_feature nand_feat_status s in
      elim r [
        | fail e ↦ some (fail e, s')
        | ok status ↦
            let rest = wait_loop fuel start deadline (pause start s') in
            if oip status == 0
            then some (ok status, s')
            else if ltb deadline (P.time s'.world)
            then some (fail timeout, s')
            else rest
      ]

  abbrev pub or_timeout :
      Driver P → Option (Result NandErr ℕ × Driver P) → Result NandErr ℕ × Driver P
  or_timeout s none = (fail timeout, s)
  or_timeout s (some r) = r

  -- Each poll takes a microsecond at least, so the deadline passes before the fuel ends. Only over a clock
  -- that stands still would it run out, where the C code goes on to poll.
  unfoldable pub wait_ready : ℕ → DriverOp P ℕ
  wait_ready timeout_ms s =
      let start = P.time s.world in
      or_timeout s (wait_loop (timeout_ms * 1000 + 2) start (start + timeout_ms * 1000) s)

  unfoldable pub write_enable : DriverOp P (Unit {0})
  write_enable = spi_write (cmd_write_enable ∷ [])

  unfoldable pub write_disable : DriverOp P (Unit {0})
  write_disable = spi_write (cmd_write_disable ∷ [])

  unfoldable pub unlock_all_blocks : DriverOp P (Unit {0})
  unlock_all_blocks = set_feature nand_feat_block_prot 0

  unfoldable pub lock_all_blocks : DriverOp P (Unit {0})
  lock_all_blocks = set_feature nand_feat_block_prot all_locked

  unfoldable pub nand_write_protect : DriverOp P (Unit {0})
  nand_write_protect = do write_disable; lock_all_blocks

  unfoldable pub write_begin : DriverOp P (Unit {0})
  write_begin = if P.protected_mode then unlock_all_blocks else pure tt

  -- Ends a write that gave `op_ret`, whose error comes before one of its own. Without protection
  -- the code of the best-effort `write_disable` is dropped.
  unfoldable pub write_end : Result NandErr (Unit {0}) → DriverOp P (Unit {0})
  write_end (ok done) = if P.protected_mode then nand_write_protect else pure tt
  write_end (fail e) = do
    attempt (if P.protected_mode then nand_write_protect else write_disable)
    throw e

  unfoldable pub configure_ecc : Bool → DriverOp P (Unit {0})
  configure_ecc enable = do
    value ← get_feature nand_feat_secure_otp
    let reg = set_ecc_en enable value
    set_feature nand_feat_secure_otp reg
    wait_ready nand_op_timeout
    readback ← get_feature nand_feat_secure_otp
    if ecc_en readback == ecc_en reg then pure tt else throw verify_fail
