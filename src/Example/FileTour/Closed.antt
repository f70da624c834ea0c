-- ===== src/Example/FileTour/Closed.antt =====
-- The tour of example/main/nand_vfs_test_.c fails no assert, ends, and closes what it opens.
use nand_vfs_mx35lf.Base.{
  ℕ, zero, suc, ◌+◌, ◌<◌, ◌≡◌, refl, ap, ◌∙◌, false, not, Option, none, some, List, arith, length,
  ◌==◌, ◌>>=◌,
}
use nand_vfs_mx35lf.Base.Triple.{Triple, seq, giving, change, either_way}
use nand_vfs_mx35lf.Example.FileTour.{
  Files, wb, rb, nand_test_old_file, test_data, TourOp, call, log_path, log_entry, log_entries,
  list_file_data, write_opened, write_file, read_opened, read_file, seek_opened,
  test_file_with_fseek,
}
use nand_vfs_mx35lf.Example.FileTour.Ledger.{
  Ledger, taken, IsDirPath, call-Triple, entry_path-Triple,
}

module _ {D : Type 0} {F : Files D} (L : Ledger F) where
  abbrev pub Live : ℕ → D × F.State → Type 0
  Live n s = L.live s.1 ≡ n

  -- A call that has left as many streams open as there were.
  abbrev pub Closes : {A : Type 0} → TourOp F A → Type 0
  Closes op = (n : ℕ) → Triple (Live n) op (λ _. Live n)

  abbrev Left : ℕ → ℕ → Option (List ℕ) → F.State → Type 0
  Left dp rounds none x = Unit
  Left dp rounds (some name) x = L.unread dp x < rounds

  readdir-Left :
      (dp rounds : ℕ) (s : D × F.State) (o : Option (List ℕ))
      → (F.readdir dp s).0 ≡ o
      → L.unread dp s.1 < suc rounds
      → Left dp rounds o (F.readdir dp s).1.1
  readdir-Left dp rounds s none e h = tt
  readdir-Left dp rounds s (some name) e h = omega (arith, h, L.takes dp name s e)

  abbrev pub Reading : ℕ → ℕ → ℕ → D × F.State → Type 0
  Reading n dp rounds s = (L.live s.1 ≡ n) × (L.unread dp s.1 < rounds)

  module _ (n dp rounds : ℕ) {rest : TourOp F (Unit {0})}
      (go_on : Triple (Reading n dp rounds) rest (λ _. Live n)) where
    log_path-Triple :
        (o : Option (List ℕ)) → Triple (Reading n dp rounds) (log_path F rest o) (λ _. Live n)
    log_path-Triple none = giving tt (λ s q. q.0)
    log_path-Triple (some full) =
        seq
          (call-Triple F {Q' = λ _. Reading n dp rounds} (F.stat full)
            (λ s q. (L.stats full s ∙ q.0, omega (arith, L.stats_unread dp full s, q.1))))
          λ _. go_on

    log_entry-Triple :
        (path : List ℕ)
        → IsDirPath path
        → (o : Option (List ℕ))
        → Triple
            (λ s. (L.live s.1 ≡ n) × Left dp rounds o s.1)
            (log_entry F rest path o)
            (λ _. Live n)
    log_entry-Triple path p none = giving tt (λ s q. q.0)
    log_entry-Triple path p (some name) = seq (entry_path-Triple F path name p) log_path-Triple

  pub log_entries-Triple :
      (rounds : ℕ) (path : List ℕ) (dp n : ℕ)
      → IsDirPath path
      → Triple (Reading n dp rounds) (log_entries F rounds path dp) (λ _. Live n)
  unfolding log_entries
  log_entries-Triple zero path dp n p = record { run = λ s q. absurd (omega (arith, q.1)) }
  log_entries-Triple (suc rounds) path dp n p =
      seq
        (call-Triple F {Q' = λ o s. (L.live s.1 ≡ n) × Left dp rounds o s.1} (F.readdir dp)
          (λ s q. (L.lists dp s ∙ q.0, readdir-Left dp rounds s (F.readdir dp s).0 refl q.1)))
        (log_entry-Triple n dp rounds (log_entries-Triple rounds path dp n p) path p)

  -- A stream that is opened, and the calls up to where it is closed.
  with_stream :
      {A : Type 0} {k : Option ℕ → TourOp F A} (n : ℕ)
      (open_it : D × F.State → Option ℕ × (D × F.State))
      → ((s : D × F.State) → L.live (open_it s).1.1 ≡ L.live s.1 + taken (open_it s).0)
      → ((o : Option ℕ) → Triple (Live (n + taken o)) (k o) (λ _. Live n))
      → Triple (Live n) (call F open_it >>= k) (λ _. Live n)
  with_stream n open_it h k =
      seq
        (call-Triple F {Q' = λ o. Live (n + taken o)} open_it
          (λ s q. h s ∙ ap (λ m. m + taken (open_it s).0) q))
        k

  pub same-Triple :
      {A : Type 0} (n : ℕ) (f : D × F.State → A × (D × F.State))
      → ((s : D × F.State) → L.live (f s).1.1 ≡ L.live s.1)
      → Triple (Live n) (call F f) (λ _. Live n)
  same-Triple n f h = call-Triple F f (λ s q. h s ∙ q)

  fclose-Triple : (n f : ℕ) → Triple (Live (n + 1)) (call F (F.fclose f)) (λ _. Live n)
  fclose-Triple n f = call-Triple F (F.fclose f) (λ s q. omega (arith, L.closes f s, q))

  list_file_data-Closes : (path : List ℕ) → Closes (list_file_data F path)
  unfolding list_file_data
  list_file_data-Closes path n =
      seq (same-Triple n (F.stat path) (L.stats path)) λ _. giving tt (λ s q. q)

  pub write_file-Closes : (path : List ℕ) → Closes (write_file F path)
  unfolding write_file
  write_file-Closes path n = with_stream n (F.fopen path wb) (L.opens path wb) opened
    where
      opened : (o : Option ℕ) → Triple (Live (n + taken o)) (write_opened F o) (λ _. Live n)
      opened none = giving false (λ s q. omega (arith, q))
      opened (some f) = seq (same-Triple (n + 1) (F.fwrite test_data f) (L.writes test_data f)) λ w.
          either_way (not (w == length test_data))
            (seq (fclose-Triple n f) λ _. giving false (λ s q. q)) (fclose-Triple n f)

  pub read_file-Closes : (path : List ℕ) (size : ℕ) → Closes (read_file F path size)
  unfolding read_file
  read_file-Closes path size n = with_stream n (F.fopen path rb) (L.opens path rb) opened
    where
      opened :
          (o : Option ℕ) → Triple (Live (n + taken o)) (read_opened F path size o) (λ _. Live n)
      opened none = giving none (λ s q. omega (arith, q))
      opened (some f) = seq (same-Triple (n + 1) (F.fread size f) (L.reads size f)) λ bytes.
          seq (fclose-Triple n f) λ closed.
            either_way closed
              (seq (list_file_data-Closes path n) λ _. giving (some bytes) (λ s q. q))
              (giving none (λ s q. q))

  pub test_file_with_fseek-Closes : Closes (test_file_with_fseek F)
  unfolding test_file_with_fseek
  test_file_with_fseek-Closes n =
      with_stream n (F.fopen nand_test_old_file rb) (L.opens nand_test_old_file rb) opened
    where
      opened : (o : Option ℕ) → Triple (Live (n + taken o)) (seek_opened F o) (λ _. Live n)
      opened none = giving tt (λ s q. omega (arith, q))
      opened (some f) = seq (change (F.fseek 19 f) (λ s q. L.seeks 19 f s ∙ q)) λ _.
          seq (same-Triple (n + 1) (F.fread (length test_data) f) (L.reads (length test_data) f))
            λ _. seq (fclose-Triple n f) λ closed.
              either_way closed (list_file_data-Closes nand_test_old_file n) (giving tt (λ s q. q))
