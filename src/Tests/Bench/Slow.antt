-- ===== src/Tests/Bench/Slow.antt =====
-- The simulated board with a chip that takes its time: after an array command it is busy, and then
-- answers to a read of the status alone. A transfer takes 5 microseconds.
use nand_vfs_mx35lf.Base.{
  ℕ, ◌+◌, ◌*◌, ◌≤◌, ◌<◌, ◌≡◌, refl, Bool, true, false, Option, some, List, [], ◌∷◌, arith, ltb,
  ◌==◌, if◌then◌else◌, get_or, replicate, Bool-cases, inl, inr,
}
use nand_vfs_mx35lf.Driver.Types.{Platform, Driver}
use nand_vfs_mx35lf.Driver.Poll.{IsClock}
use nand_vfs_mx35lf.Driver.Chip.{View, Aside, IsHealthy, is_array_command, status_frame}
use nand_vfs_mx35lf.Driver.Spi.{oip}
use nand_vfs_mx35lf.Tests.Bench.{react, reply, erased_chip, fresh, opened}

pub record SlowBoard : Type 0 where
  pub chip : View
  pub clock : ℕ
  pub due : ℕ

-- How long a command keeps the chip busy.
abbrev duration : List ℕ → ℕ
duration [] = 0
duration (cmd ∷ xs) =
    if cmd == 0x10
    then 600
    else if cmd == 0x13
    then 70
    else if cmd == 0xd8
    then 4000
    else if cmd == 0xff
    then 20
    else 0

abbrev pub status_of : SlowBoard → List ℕ
status_of w = 0 ∷ 0 ∷ (if ltb w.clock w.due then 1 else 0) ∷ []

-- A transfer at a time when the chip is busy, or ready.
abbrev pub transfer : Bool → List ℕ → SlowBoard → List ℕ × SlowBoard
transfer true tx w = (0 ∷ 0 ∷ 1 ∷ [], record w { clock = w.clock + 5 })
transfer false tx w = (
  reply tx w.chip,
  record {
    chip = react tx w.chip;
    clock = w.clock + 5;
    due = if is_array_command tx then w.clock + 5 + duration tx else w.due;
  },
)

abbrev pub slow_transmit : List ℕ → SlowBoard → Option (List ℕ) × SlowBoard
slow_transmit tx w = let (rx, w') = transfer (ltb w.clock w.due) tx w in (some rx, w')

abbrev pub slow : Platform
slow = record {
  State = SlowBoard;
  protected_mode = true;
  transmit = λ polling tx receives w. slow_transmit tx w;
  time = λ w. w.clock;
  delay_us = λ us w. record w { clock = w.clock + us + 1 };
  task_delay = λ ticks w. record w { clock = w.clock + ticks * 1000 + 1 };
  ms_to_ticks = λ ms. ms;
  malloc = λ n w. (some (record { address = 64; bytes = replicate n 0 }), w);
  free = λ b w. w;
  create_mutex = λ w. (some 1, w);
  delete_mutex = λ m w. w;
  take_mutex = λ m w. w;
  give_mutex = λ m w. w;
  add_device = λ cfg w. (some 0, w);
  remove_device = λ d w. w;
}

abbrev pub slow_fresh : Driver slow
slow_fresh = record {
  handle = fresh.handle;
  held = 0;
  world = record { chip = erased_chip; clock = 0; due = 0 };
}

abbrev pub slow_opened : Driver slow
slow_opened = record slow_fresh { handle = opened.handle }

transfer-clock : (b : Bool) (tx : List ℕ) (w : SlowBoard) → (transfer b tx w).1.clock ≡ w.clock + 5
transfer-clock true tx w = refl
transfer-clock false tx w = refl

pub slow_clock : IsClock slow
slow_clock = record {
  transmits = λ polling tx receives w. omega (arith, transfer-clock (ltb w.clock w.due) tx w);
  delays = λ us w. omega arith;
  yields = λ ticks w. omega arith;
}

pub duration_le : (tx : List ℕ) → duration tx ≤ 4000
duration_le [] = omega arith
duration_le (cmd ∷ xs) = ground arith

-- A transfer to a ready chip.
module _ (tx : List ℕ) (w : SlowBoard) (h : w.due ≤ w.clock) where
  ready : ltb w.clock w.due ≡ false
  ready = ground arith

  pub answers : (slow_transmit tx w).0 ≡ some (reply tx w.chip)
  answers = rw ready refl

  pub reacts : (slow_transmit tx w).1.chip ≡ react tx w.chip
  reacts = rw ready refl

  pub starts : (slow_transmit tx w).1.due ≤ (slow_transmit tx w).1.clock + 4000
  starts = rw ready (ground (arith, h, duration_le tx))

  pub stays :
      is_array_command tx ≡ false → (slow_transmit tx w).1.due ≤ (slow_transmit tx w).1.clock
  stays quick = rw (ready, quick) (omega (arith, h))

  pub is_ready : IsHealthy (get_or (status_of w) 2 0)
  is_ready =
      rw ready (record { ready = refl; erased = refl; programmed = refl; corrected = omega arith })

pub is_busy : (w : SlowBoard) → w.clock < w.due → oip (get_or (status_of w) 2 0) ≡ 1
is_busy w h = let e : ltb w.clock w.due ≡ true = ground arith in rw e refl

-- A read of the status, at any time.
pub tells : (w : SlowBoard) → (slow_transmit status_frame w).0 ≡ some (status_of w)
tells w = elim (Bool-cases (ltb w.clock w.due)) [ inl h ↦ rw h refl | inr h ↦ rw h refl ]

pub polls :
    (w : SlowBoard)
    → Aside (λ u. u.chip) (λ u. u.due) (λ u. u.clock) w (slow_transmit status_frame w).1
polls w = elim (Bool-cases (ltb w.clock w.due)) [
  | inl h ↦ rw h (record { seen = refl; due = refl; later = omega arith })
  | inr h ↦ rw h (record { seen = refl; due = refl; later = omega arith })
]

pub takes_up_to : (w : SlowBoard) → (slow_transmit status_frame w).1.clock ≤ w.clock + 5
takes_up_to w = omega (arith, transfer-clock (ltb w.clock w.due) status_frame w)
