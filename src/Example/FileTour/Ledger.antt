-- ===== src/Example/FileTour/Ledger.antt =====
-- A ledger of the streams that are open, and the entry paths of example/main/nand_vfs_test_.c.
use mathlib.Core.Path.{subst}
use nand_vfs_mx35lf.Base.{
  ℕ, ◌+◌, ◌-◌, ◌≤◌, ◌<◌, ◌≡◌, refl, sym, false, Option, none, some, List, arith, ltb, length,
  Bool-cases, inl, inr,
}
use nand_vfs_mx35lf.Base.Triple.{Triple, seq, giving, weaken}
use nand_vfs_mx35lf.Paths.{Checked, done, has_scheme, path_copy, path_join}
use nand_vfs_mx35lf.Paths.Join.{path_join_lem}
use nand_vfs_mx35lf.Example.FileTour.{Files, Mode, call, checked, join_entry, entry_path}

abbrev pub taken : Option ℕ → ℕ
taken none = 0
taken (some _) = 1

-- How many streams are open, and how many entries a directory stream has left. `fclose` gives its
-- stream back whatever it returns, and no directory has more than `most` entries.
pub record Ledger {D : Type 0} (F : Files D) : Type 0 where
  pub live : F.State → ℕ
  pub unread : ℕ → F.State → ℕ
  pub most : ℕ
  pub opens :
      (path : List ℕ) (mode : Mode) (s : D × F.State)
      → live (F.fopen path mode s).1.1 ≡ live s.1 + taken (F.fopen path mode s).0
  pub closes : (f : ℕ) (s : D × F.State) → live (F.fclose f s).1.1 ≡ live s.1 - 1
  pub writes : (bytes : List ℕ) (f : ℕ) (s : D × F.State) → live (F.fwrite bytes f s).1.1 ≡ live s.1
  pub reads : (n f : ℕ) (s : D × F.State) → live (F.fread n f s).1.1 ≡ live s.1
  pub seeks : (n f : ℕ) (s : D × F.State) → live (F.fseek n f s).1 ≡ live s.1
  pub stats : (path : List ℕ) (s : D × F.State) → live (F.stat path s).1.1 ≡ live s.1
  pub renames : (old new : List ℕ) (s : D × F.State) → live (F.rename old new s).1 ≡ live s.1
  pub unlinks : (path : List ℕ) (s : D × F.State) → live (F.unlink path s).1 ≡ live s.1
  pub mkdirs : (path : List ℕ) (s : D × F.State) → live (F.mkdir path s).1 ≡ live s.1
  pub opens_dir :
      (path : List ℕ) (s : D × F.State)
      → live (F.opendir path s).1.1 ≡ live s.1 + taken (F.opendir path s).0
  pub closes_dir : (dp : ℕ) (s : D × F.State) → live (F.closedir dp s).1 ≡ live s.1 - 1
  pub lists : (dp : ℕ) (s : D × F.State) → live (F.readdir dp s).1.1 ≡ live s.1
  pub fills :
      (path : List ℕ) (dp : ℕ) (s : D × F.State)
      → (F.opendir path s).0 ≡ some dp
      → unread dp (F.opendir path s).1.1 ≤ most
  pub takes :
      (dp : ℕ) (name : List ℕ) (s : D × F.State)
      → (F.readdir dp s).0 ≡ some name
      → unread dp (F.readdir dp s).1.1 < unread dp s.1
  pub stats_unread :
      (dp : ℕ) (path : List ℕ) (s : D × F.State) → unread dp (F.stat path s).1.1 ≡ unread dp s.1

-- A directory whose path fits in the buffer of an entry, and is not a URL.
pub record IsDirPath (path : List ℕ) : Type 0 where
  pub short : length path < 256
  pub plain : has_scheme path ≡ false

copies : (path : List ℕ) → IsDirPath path → path_copy 256 path ≡ done (some path)
unfolding path_copy
copies path p =
    let fits : ltb 256 (length path + 1) ≡ false = ground (arith, p.short) in rw fits refl

-- Appending a name, of whatever length, fails no assert.
joins :
    (path name : List ℕ)
    → IsDirPath path
    → (o : Option (List ℕ)) × (path_join path 256 name ≡ done o)
joins path name p =
    let laws = path_join_lem path name 256 (omega arith) (omega arith) p.plain in
    elim (Bool-cases (ltb 256 (length path + 1 + length name + 1))) [
      | inl h ↦ (none, laws.0 (ground arith))
      | inr h ↦ (_, laws.1 (ground arith))
    ]

module _ {D : Type 0} (F : Files D) {Q : D × F.State → Type 0} where
  pub call-Triple :
      {A : Type 0} {Q' : A → D × F.State → Type 0} (f : D × F.State → A × (D × F.State))
      → ((s : D × F.State) → Q s → Q' (f s).0 (f s).1)
      → Triple Q (call F f) Q'
  unfolding call
  call-Triple f h = record { run = λ s q. record { run = h s q } }

  checked-Triple :
      {A : Type 0} {c : Checked A} (a : A)
      → c ≡ done a
      → Triple Q (checked F c) (λ b s. (b ≡ a) × Q s)
  unfolding checked
  checked-Triple a e =
      subst (λ c. Triple Q (checked F c) (λ b s. (b ≡ a) × Q s)) (sym e)
        (giving a (λ s q. (refl, q)))

  pub entry_path-Triple :
      (path name : List ℕ) → IsDirPath path → Triple Q (entry_path F path name) (λ _. Q)
  unfolding entry_path
  entry_path-Triple path name p =
      seq (checked-Triple (some path) (copies path p))
        λ o. record { run = λ s (e, q). (joined o e).run s q }
    where
      joined : (o : Option (List ℕ)) → o ≡ some path → Triple Q (join_entry F name o) (λ _. Q)
      joined none e = giving none (λ s q. q)
      joined (some base) e =
          let same : base ≡ path = cc in
          let found = joins base name (subst IsDirPath (sym same) p) in
          weaken (checked-Triple found.0 found.1) (λ _ s q. q.1)
