-- ===== src/Driver/Poll.antt =====
-- The status poll `wait_ready` of src/mx35lf1_driver.c ends, and what its codes mean.
use nand_vfs_mx35lf.Base.{
  ℕ, zero, suc, ◌+◌, ◌*◌, ◌≤◌, ◌<◌, ◌≡◌, refl, ◌≢◌, Bool, Option, none, some, List, Result, ok,
  fail, arith, ltb, ◌==◌, if◌then◌else◌, inl, inr, ◌⊎◌, Bool-cases, ◌>>=◌, pure,
}
use nand_vfs_mx35lf.Driver.Types.{NandErr, bad_spi, timeout, Platform, Driver, nand_feat_status}
use nand_vfs_mx35lf.Driver.Spi.{
  oip, spi_xfer, get_feature, pause, wait_loop, or_timeout, wait_ready,
}
use nand_vfs_mx35lf.Driver.Stable.{IsQuiet, get_feature-Keeps}

-- `esp_timer_get_time` never goes back, and both kinds of wait take a microsecond at least.
pub record IsClock (P : Platform) : Type 0 where
  pub transmits :
      (polling : Bool) (tx : List ℕ) (receives : Bool) (w : P.State)
      → P.time w ≤ P.time (P.transmit polling tx receives w).1
  pub delays : (us : ℕ) (w : P.State) → P.time w < P.time (P.delay_us us w)
  pub yields : (ticks : ℕ) (w : P.State) → P.time w < P.time (P.task_delay ticks w)

get_feature_fail :
    (P : Platform) (s : Driver P) (reg : ℕ) (e : NandErr)
    → (get_feature P reg s).0 ≡ fail e
    → e ≡ bad_spi
unfolding get_feature spi_xfer ◌>>=◌ pure
get_feature_fail P s reg e h = ground arith

module _ {P : Platform} (c : IsClock P) where
  -- No step of a helper turns the clock back.
  abbrev pub Later : Driver P → Driver P → Type 0
  Later s t = P.time s.world ≤ P.time t.world

  pub Later-IsQuiet : IsQuiet P Later
  Later-IsQuiet = record {
    preorder = record { same = λ s. omega arith; then_on = λ s t u h k. omega arith };
    transmits = λ polling tx receives s. c.transmits polling tx receives s.world;
    delays = λ us s. omega (arith, c.delays us s.world);
    yields = λ ticks s. omega (arith, c.yields ticks s.world);
  }

  pub pause-time : (start : ℕ) (s : Driver P) → P.time s.world < P.time (pause P start s).world
  unfolding pause
  pause-time start s = ground (arith, c.delays 50 s.world, c.yields 1 s.world)

  -- A poll that has ended: ready with OIP clear, refused by the bus, or past the deadline.
  abbrev pub Outcome : ℕ → Result NandErr ℕ × Driver P → Type 0
  Outcome deadline (ok status, t) = oip status ≡ 0
  Outcome deadline (fail e, t) = (e ≡ bad_spi) ⊎ ((e ≡ timeout) × (deadline < P.time t.world))

  abbrev Ends : ℕ → Option (Result NandErr ℕ × Driver P) → Type 0
  Ends deadline none = ⊥
  Ends deadline (some r) = Outcome deadline r

  -- One round, with the rest of the poll for a status that is still busy.
  round :
      (start deadline : ℕ) (r : Result NandErr ℕ) (t : Driver P)
      (rest : Option (Result NandErr ℕ × Driver P))
      → ((e : NandErr) → r ≡ fail e → e ≡ bad_spi)
      → (P.time t.world ≤ deadline → Ends deadline rest)
      → Ends deadline (elim r [
        | fail e ↦ some (fail e, t)
        | ok status ↦
            if oip status == 0
            then some (ok status, t)
            else if ltb deadline (P.time t.world)
            then some (fail timeout, t)
            else rest
      ])
  round start deadline (fail e) t rest bus ih = inl (bus e refl)
  round start deadline (ok status) t rest bus ih = elim (Bool-cases (oip status == 0)) [
    | inl ready ↦ rw ready (ground arith)
    | inr busy ↦ rw busy (elim (Bool-cases (ltb deadline (P.time t.world))) [
      | inl late ↦ rw late (inr (refl, ground arith))
      | inr early ↦ rw early (ih (ground arith))
    ])
  ]

  -- Every round takes a microsecond, so the deadline passes before the fuel ends.
  wait_loop-Ends :
      (fuel start deadline : ℕ) (s : Driver P)
      → 1 ≤ fuel
      → deadline + 1 < P.time s.world + fuel
      → Ends deadline (wait_loop P fuel start deadline s)
  unfolding wait_loop
  wait_loop-Ends zero start deadline s one h = absurd (omega arith)
  wait_loop-Ends (suc fuel) start deadline s one h =
      let t = (get_feature P nand_feat_status s).1 in
      let later = (get_feature-Keeps Later-IsQuiet nand_feat_status).run s in
      let paused = pause-time start t in
      round start deadline (get_feature P nand_feat_status s).0 t _
        (get_feature_fail P s nand_feat_status)
        λ early.
          wait_loop-Ends fuel start deadline (pause P start t) (omega (arith, later, paused))
            (omega (arith, later, paused))

  Outcome-or :
      (deadline : ℕ) (s : Driver P) (o : Option (Result NandErr ℕ × Driver P))
      → Ends deadline o
      → Outcome deadline (or_timeout P s o)
  Outcome-or deadline s none e = absurd e
  Outcome-or deadline s (some r) e = e

  -- With a clock that never goes back and waits of a microsecond at least, the poll ends:
  -- `wait_ready` returns OK with the OIP bit of the last status clear, or the code of the bus, or
  -- NAND_RET_TIMEOUT with the clock past the time allowed.
  pub wait_ready-Outcome :
      (timeout_ms : ℕ) (s : Driver P)
      → Outcome (P.time s.world + timeout_ms * 1000) (wait_ready P timeout_ms s)
  unfolding wait_ready
  wait_ready-Outcome timeout_ms s =
      Outcome-or _ s _ (wait_loop-Ends _ _ _ s (omega arith) (omega arith))

  Ends-ne-none :
      (deadline : ℕ) (o : Option (Result NandErr ℕ × Driver P)) → Ends deadline o → o ≢ none
  Ends-ne-none deadline none e = absurd e
  Ends-ne-none deadline (some r) e = λ h. cc

  -- With a clock that never goes back and waits of a microsecond at least, the fuel of `wait_ready`
  -- is never used up.
  wait_loop-ne-none :
      (timeout_ms : ℕ) (s : Driver P)
      → wait_loop P (timeout_ms * 1000 + 2) (P.time s.world) (P.time s.world + timeout_ms * 1000) s
        ≢ none
  wait_loop-ne-none timeout_ms s =
      Ends-ne-none _ _ (wait_loop-Ends _ _ _ s (omega arith) (omega arith))
