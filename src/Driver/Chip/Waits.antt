-- ===== src/Driver/Chip/Waits.antt =====
-- The poll of a chip that is busy: `wait_ready` of src/mx35lf1_driver.c goes on until the chip is
-- ready.
use nand_vfs_mx35lf.Base.{
  ℕ, zero, suc, ◌+◌, ◌*◌, ◌≤◌, ◌<◌, ◌≡◌, ◌≢◌, Bool, true, false, Option, some, Result, ok, fail,
  arith, ltb, ◌==◌, if◌then◌else◌, Bool-cases, inl, inr, Good, Gives, bind-Gives, pure-Gives,
  get_or,
}
use nand_vfs_mx35lf.Driver.Types.{
  NandErr, timeout, Platform, Driver, nand_feat_status, nand_op_timeout,
}
use nand_vfs_mx35lf.Driver.Spi.{
  oip, spi_xfer, get_feature, pause, wait_loop, or_timeout, wait_ready,
}
use nand_vfs_mx35lf.Driver.Poll.{pause-time}
use nand_vfs_mx35lf.Driver.Chip.{View, Chip, IsHealthy, status_frame}
use nand_vfs_mx35lf.Driver.Chip.Wire.{At, At-world, Busy, Busy-world}

module _ {P : Platform} (C : Chip P) (v : View) (until : ℕ) where
  -- A status of a busy chip was read before the time at which it is ready.
  pub record Polled (status : ℕ) (before : ℕ) (t : Driver P) : Type 0 where
    pub busy : Busy C v until t
    pub later : before ≤ P.time t.world
    pub ready : oip status ≡ 0 → IsHealthy status × At C v t
    pub early : oip status ≢ 0 → P.time t.world ≤ until + C.transfer

  abbrev Ready : ℕ → Driver P → Type 0
  Ready status t = IsHealthy status × At C v t

  -- What the status of a busy chip, or of a ready one, says.
  polled :
      (s : Driver P)
      → Busy C v until s
      → Polled
          (get_or (C.status s.world) 2 0)
          (P.time s.world)
          (record s { world = (P.transmit true status_frame true s.world).1 })
  polled s b =
      let aside = C.polls true s.world in
      let taken = C.takes_up_to true s.world in
      let over : Bool = ltb (P.time s.world) (C.busy_until s.world) in
      record {
        busy = Busy-world C _ b aside;
        later = aside.later;
        ready = λ e. elim (Bool-cases over) [
          | inl h ↦ absurd (omega (arith, e, C.is_busy s.world (ground arith)))
          | inr h ↦
              let r : C.busy_until s.world ≤ P.time s.world = ground arith in
              (
                C.is_ready s.world r,
                At-world C _ (record { open_handle = b.open_handle; view = b.view; ready = r })
                    aside,
              )
        ];
        early = λ ne. elim (Bool-cases over) [
          | inl h ↦
              let before : P.time s.world < C.busy_until s.world = ground arith in
              omega (arith, before, taken, b.due)
          | inr h ↦ absurd (ne (C.is_ready s.world (ground arith)).ready)
        ];
      }

  pause-Busy : (start : ℕ) (s : Driver P) → Busy C v until s → Busy C v until (pause P start s)
  unfolding pause
  pause-Busy start s b = elim (Bool-cases (ltb (P.time s.world) (start + 2000))) [
    | inl h ↦ rw h (Busy-world C (P.delay_us 50 s.world) b (C.delays 50 s.world))
    | inr h ↦ rw h (Busy-world C (P.task_delay 1 s.world) b (C.yields 1 s.world))
  ]

  status-Polled :
      (s : Driver P)
      → Busy C v until s
      → Gives (get_feature P nand_feat_status) s (λ status t. Polled status (P.time s.world) t)
  unfolding get_feature spi_xfer
  status-Polled s b =
      bind-Gives {Q = λ rx t. Polled (get_or rx 2 0) (P.time s.world) t}
        (record { run = rw (C.tells true s.world) (polled s b) })
        λ rx t q. pure-Gives (get_or rx 2 0) q

  -- One more round of the poll, and those that follow.
  round :
      (deadline before : ℕ) (s : Driver P) (r : Result NandErr ℕ) (t : Driver P)
      (rest : Option (Result NandErr ℕ × Driver P))
      → until + C.transfer ≤ deadline
      → Good (λ status t. Polled status before t) r t
      → (P.time t.world ≤ deadline → Good Ready (or_timeout P s rest).0 (or_timeout P s rest).1)
      → let o : Option (Result NandErr ℕ × Driver P) = elim r [
        | fail e ↦ some (fail e, t)
        | ok status ↦
            if oip status == 0
            then some (ok status, t)
            else if ltb deadline (P.time t.world)
            then some (fail timeout, t)
            else rest
      ] in
        Good Ready (or_timeout P s o).0 (or_timeout P s o).1
  round deadline before s (fail e) t rest room q ih = absurd q
  round deadline before s (ok status) t rest room q ih = elim (Bool-cases (oip status == 0)) [
    | inl ready ↦ rw ready (q.ready (ground arith))
    | inr busy ↦
        let early : P.time t.world ≤ until + C.transfer = q.early (ground arith) in
        let in_time : ltb deadline (P.time t.world) ≡ false = ground arith in
        rw (busy, in_time) (ih (omega arith))
  ]

  after :
      {before : ℕ} (r : Result NandErr ℕ) (t : Driver P)
      → Good (λ status t. Polled status before t) r t
      → Busy C v until t × (before ≤ P.time t.world)
  after (ok status) t q = (q.busy, q.later)
  after (fail e) t q = absurd q

  -- The fuel is enough for all rounds.
  wait_loop-Ready :
      (fuel start deadline : ℕ) (first s : Driver P)
      → until + C.transfer ≤ deadline
      → 1 ≤ fuel
      → deadline + 1 < P.time s.world + fuel
      → Busy C v until s
      → let o = or_timeout P first (wait_loop P fuel start deadline s) in Good Ready o.0 o.1
  unfolding wait_loop
  wait_loop-Ready zero start deadline first s room one h b = absurd (omega arith)
  wait_loop-Ready (suc fuel) start deadline first s room one h b =
      let g = get_feature P nand_feat_status s in
      let q = status-Polled s b in
      round deadline (P.time s.world) first g.0 g.1
        (wait_loop P fuel start deadline (pause P start g.1)) room q.run
        λ early.
          let busy = after g.0 g.1 q.run in
          let paused = pause-time C.clock start g.1 in
          wait_loop-Ready fuel start deadline first (pause P start g.1) room
            (omega (arith, busy.1, paused)) (omega (arith, busy.1, paused))
            (pause-Busy start g.1 busy.0)

-- After a command that keeps the chip busy no longer than it may, the poll ends with the chip ready
-- and with the status of a success.
pub wait_ready-At :
    {P : Platform} (C : Chip P) {v : View} {s : Driver P}
    → Busy C v (P.time s.world + C.longest) s
    → Gives (wait_ready P nand_op_timeout) s (λ status t. IsHealthy status × At C v t)
unfolding wait_ready
wait_ready-At {P} C {v} {s} b = record {
  run =
      wait_loop-Ready C v (P.time s.world + C.longest) (nand_op_timeout * 1000 + 2) (P.time s.world)
        (P.time s.world + nand_op_timeout * 1000) s s (omega (arith, C.in_time)) (omega arith)
        (omega arith) b;
}
