-- ===== src/Tests/Bench/Healthy.antt =====
-- The chip on the slow board is a healthy one.
use nand_vfs_mx35lf.Base.{
  ℕ, zero, suc, ◌+◌, ◌-◌, ◌/◌, ◌≤◌, ◌<◌, ◌≡◌, refl, sym, ap, ◌∙◌, true, false, List, [], ◌∷◌, ◌++◌,
  arith, length, get_or, take, drop, length-replicate, take-append, length-take, length-drop,
}
use nand_vfs_mx35lf.Driver.Types.{nand_page_full_size, nand_spi_max_transfer}
use nand_vfs_mx35lf.Driver.Address.{row_bytes, column_bytes}
use nand_vfs_mx35lf.Driver.Chip.{View, Chip, blank_page, place, store_row, erase_rows}
use nand_vfs_mx35lf.Driver.Chip.Wire.{At}
use nand_vfs_mx35lf.Tests.Bench.{row_of, column_of, react, reply, erased_chip, buffer}
use nand_vfs_mx35lf.Tests.Bench.Slow.{
  slow, slow_opened, slow_clock, status_of, answers, reacts, starts, stays, tells, polls,
  takes_up_to, is_busy, is_ready,
}

pub row_of-row_bytes : (row : ℕ) → row < 65536 → row_of (row_bytes row) ≡ row
unfolding row_bytes
row_of-row_bytes row h = omega arith

column_of-column_bytes :
    (column : ℕ) (xs : List ℕ) → column < 65536 → column_of (column_bytes column ++ xs) ≡ column
unfolding column_bytes
column_of-column_bytes column xs h = omega arith

pub zero_kept : (page : List ℕ) (i : ℕ) → get_or page i 255 ≡ 0 → get_or page i 0 ≡ 0
zero_kept [] i h = refl
zero_kept (x ∷ page) zero h = h
zero_kept (x ∷ page) (suc i) h = zero_kept page i h

take_back : (n : ℕ) (xs ys : List ℕ) → n ≤ length xs → take n (take n xs ++ ys) ≡ take n xs
take_back n xs ys h =
    let e : length (take n xs) ≡ n = omega (arith, length-take n xs) in
    ap (λ m. take m (take n xs ++ ys)) (sym e) ∙ take-append (take n xs) ys

window :
    (column c n : ℕ) (cache ys : List ℕ)
    → c ≡ column
    → column + n ≤ length cache
    → take n (take (suc (suc (suc n)) - 3) (drop c cache) ++ ys) ≡ take n (drop column cache)
window column c n cache ys e h =
    let three : suc (suc (suc n)) - 3 ≡ n = omega arith in
    rw (e, three) (take_back n (drop column cache) ys (omega (arith, length-drop column cache)))

pub loads :
    (column : ℕ) (bytes : List ℕ) (v : View)
    → column + length bytes ≤ nand_page_full_size
    → react (0x02 ∷ column_bytes column ++ bytes) v
      ≡ record v { cache = place column bytes blank_page }
unfolding column_bytes
loads column bytes v h =
    ap (λ c. record v { cache = place c bytes blank_page })
      (column_of-column_bytes column bytes (omega (arith, h)))

pub programs :
    (row : ℕ) (v : View)
    → row < 65536
    → v.wel ≡ true
    → v.unlocked ≡ true
    → react (0x10 ∷ row_bytes row) v
      ≡ record v { array = store_row row v.cache v.array; wel = false }
unfolding row_bytes
programs row v h wel unlocked =
    rw (wel, unlocked)
      (ap (λ r. record v { array = store_row r v.cache v.array; wel = false; unlocked = true })
        (row_of-row_bytes row h))

pub erases :
    (row : ℕ) (v : View)
    → row < 65536
    → v.wel ≡ true
    → v.unlocked ≡ true
    → react (0xd8 ∷ row_bytes row) v
      ≡ record v { array = erase_rows (row / 64) v.array; wel = false }
unfolding row_bytes
erases row v h wel unlocked =
    rw (wel, unlocked)
      (ap (λ r. record v { array = erase_rows (r / 64) v.array; wel = false; unlocked = true })
        (row_of-row_bytes row h))

pub reads :
    (row : ℕ) (v : View)
    → row < 65536
    → react (0x13 ∷ row_bytes row) v ≡ record v { cache = v.array row }
unfolding row_bytes
reads row v h = ap (λ r. record v { cache = v.array r }) (row_of-row_bytes row h)

pub sends :
    (column : ℕ) (rest : List ℕ) (v : View) → react (0x03 ∷ column_bytes column ++ (0 ∷ rest)) v ≡ v
unfolding column_bytes
sends column rest v = refl

pub shifts_out :
    (column : ℕ) (rest : List ℕ) (v : View)
    → column + length rest ≤ nand_page_full_size
    → length v.cache ≡ nand_page_full_size
    → (ys : List ℕ)
    → take (length rest) (drop 4 (reply (0x03 ∷ column_bytes column ++ (0 ∷ rest)) v ++ ys))
      ≡ take (length rest) (drop column v.cache)
unfolding column_bytes
shifts_out column rest v h full ys =
    window column (column_of (column_bytes column ++ (0 ∷ rest))) (length rest) v.cache ys
      (column_of-column_bytes column (0 ∷ rest) (omega (arith, h))) (omega (arith, h, full))

-- The chip on the slow board. Programming replaces the page.
abbrev pub slow_chip : Chip slow
slow_chip = record {
  view = λ w. w.chip;
  busy_until = λ w. w.due;
  react = react;
  reply = reply;
  status = status_of;
  merge = λ old new. new;
  clock = slow_clock;
  answers = λ polling tx receives w h. answers tx w h;
  reacts = λ polling tx receives w h. reacts tx w h;
  longest = 4000;
  transfer = 5;
  in_time = omega arith;
  starts = λ polling tx receives w h. starts tx w h;
  stays = λ polling tx receives w quick h. stays tx w h quick;
  tells = λ polling w. tells w;
  polls = λ polling w. polls w;
  takes_up_to = λ polling w. takes_up_to w;
  is_busy = λ w h. is_busy w h;
  is_ready = λ w h. is_ready [] w h;
  delays = λ us w. record { seen = refl; due = refl; later = omega arith };
  yields = λ ticks w. record { seen = refl; due = refl; later = omega arith };
  takes = λ m w. record { seen = refl; due = refl; later = omega arith };
  gives = λ m w. record { seen = refl; due = refl; later = omega arith };
  mallocs = λ n w. record { seen = refl; due = refl; later = omega arith };
  frees = λ b w. record { seen = refl; due = refl; later = omega arith };
  enables = λ v. refl;
  disables = λ v. refl;
  unlocks = λ v. refl;
  locks = λ v. refl;
  loads = loads;
  programs = programs;
  reads = reads;
  erases = erases;
  sends = sends;
  shifts_out = shifts_out;
  merge_length = λ old new h. refl;
  merge_blank = λ page. refl;
  merge_zero = λ old new i h. zero_kept new i h;
}

pub opened-At : At slow_chip erased_chip slow_opened
opened-At = record {
  open_handle = record {
    initialized = refl;
    tx = buffer 64;
    tx_buf = refl;
    tx_room = length-replicate {A = ℕ} nand_spi_max_transfer 255;
    rx = buffer 4096;
    rx_buf = refl;
  };
  view = refl;
  ready = omega arith;
}
