-- ===== src/Disk/Store.antt =====
-- The sector reads and writes of src/nand_diskio.c over a translation layer that stores sectors.
pub mod Sectors
use nand_vfs_mx35lf.Base.{
  ℕ, zero, suc, ◌+◌, ◌*◌, ◌%◌, ◌^◌, ◌≤◌, ◌<◌, ◌≡◌, refl, sym, ap, ◌∙◌, true, List, [], ◌∷◌, ◌++◌,
  Result, ok, fail, ◌==◌, ==_iff, length, take, drop, Op, arith, Good, Gives, weaken-Gives,
  also-Gives, Bool-cases, inl, inr, ◌⊎◌, ◌>>◌, bind-Gives, length-take, length-drop,
}
use nand_vfs_mx35lf.Driver.Types.{Platform, Driver, nand_page_size}
use nand_vfs_mx35lf.Hal.{DharaError}
use nand_vfs_mx35lf.Disk.{
  Ftl, Disk, DError, res_error, available, with_map, read_loop, disk_read_dhara, write_loop,
  disk_write_dhara,
}
use nand_vfs_mx35lf.Disk.Calls.{SameContext, SameContext-IsTransferred, disk_write_dhara-related}
use nand_vfs_mx35lf.Driver.Chip.{store_row}

-- What src/dhara/dhara/map.h documents of a map that meets no error: a read gives the page last
-- written to the sector, and a write changes this sector alone.
pub record IsStore {P : Platform} (F : Ftl P) : Type 1 where
  pub Holds : F.Map × Driver P → Type 0
  pub content : F.Map × Driver P → ℕ → List ℕ
  pub reads :
      (sector : ℕ) (w : F.Map × Driver P)
      → Holds w
      → Gives
          (F.map_read sector)
          w
          (λ page w'. (page ≡ content w sector) × Holds w' × (content w' ≡ content w))
  pub writes :
      (sector : ℕ) (page : List ℕ) (w : F.Map × Driver P)
      → Holds w
      → length page ≡ nand_page_size
      → Gives
          (F.map_write sector page)
          w
          (λ _ w'. Holds w' × (content w' ≡ store_row sector page (content w)))

-- The bytes of `count` sectors from `sector` on.
abbrev pub span : (ℕ → List ℕ) → (sector count : ℕ) → List ℕ
span f sector zero = []
span f sector (suc count) = f sector ++ span f (sector + 1) count

append_assoc : (xs ys zs : List ℕ) → (xs ++ ys) ++ zs ≡ xs ++ (ys ++ zs)
append_assoc [] ys zs = refl
append_assoc (x ∷ xs) ys zs = ap (λ l. x ∷ l) (append_assoc xs ys zs)

append_nil : (xs : List ℕ) → xs ++ [] ≡ xs
append_nil [] = refl
append_nil (x ∷ xs) = ap (λ l. x ∷ l) (append_nil xs)

take-drop : (n : ℕ) (xs : List ℕ) → take n xs ++ drop n xs ≡ xs
take-drop zero xs = refl
take-drop (suc n) [] = refl
take-drop (suc n) (x ∷ xs) = ap (λ l. x ∷ l) (take-drop n xs)

module _ {P : Platform} {F : Ftl P} (gc_ratio : ℕ) where
  with_map-Gives :
      {A : Type 0} {Q : A → F.Map × Driver P → Type 0} {op : Op (F.Map × Driver P) DharaError A}
      (d : Disk F)
      → Gives op (d.map, d.driver) Q
      → Gives (with_map F gc_ratio op) d (λ a e. Q a (e.map, e.driver))
  unfolding with_map
  with_map-Gives {A} {Q} {op} d g = record {
    run = go (op (d.map, d.driver)).0 (op (d.map, d.driver)).1 g.run;
  }
    where
      go :
          (r : Result DharaError A) (w : F.Map × Driver P)
          → Good Q r w
          → Good (λ a (e : Disk F). Q a (e.map, e.driver)) r (record d { map = w.0; driver = w.1 })
      go (ok a) w q = q
      go (fail e) w q = absurd q

  -- A round whose call of the map succeeds, and the rounds after it.
  round-Good :
      {A B : Type 0} (Q : A → Disk F → Type 0) (Q' : B → Disk F → Type 0) (r : Result DharaError A)
      (e : Disk F) (next : A → Op (Disk F) DError B)
      → Good Q r e
      → ((a : A) → Q a e → Gives (next a) e Q')
      → let o : Result DError B × Disk F = elim r [
        | fail _ ↦ (fail res_error, e)
        | ok a ↦ next a e
      ] in
        Good Q' o.0 o.1
  round-Good Q Q' (ok a) e next q k = (k a q).run
  round-Good Q Q' (fail x) e next q k = absurd q

  module _ (S : IsStore F) where
    abbrev pub on_disk : Disk F → ℕ → List ℕ
    on_disk d = S.content (d.map, d.driver)

    read_on :
        (f g : ℕ → List ℕ) (sector count : ℕ) (buff page got : List ℕ)
        → page ≡ f sector
        → g ≡ f
        → got ≡ (buff ++ page) ++ span g (sector + 1) count
        → got ≡ buff ++ span f sector (suc count)
    read_on f g sector count buff page got same kept e =
        e
        ∙ ap (λ c. (buff ++ page) ++ span c (sector + 1) count) kept
        ∙ append_assoc buff page _
        ∙ ap (λ p. buff ++ (p ++ span f (sector + 1) count)) same

    -- Sectors are read in order, and nothing is written.
    pub read_loop-span :
        (count sector : ℕ) (buff : List ℕ) (d : Disk F)
        → S.Holds (d.map, d.driver)
        → sector + count < 2 ^ 32
        → Gives
            (read_loop F gc_ratio count sector buff)
            d
            (λ got _. got ≡ buff ++ span (on_disk d) sector count)
    unfolding read_loop
    read_loop-span zero sector buff d h room = record { run = sym (append_nil buff) }
    read_loop-span (suc count) sector buff d h room = record {
      run =
          let next : (sector + 1) % 2 ^ 32 ≡ sector + 1 = omega (arith, room) in
          round-Good
            (λ page e.
              (page ≡ on_disk d sector) × S.Holds (e.map, e.driver) × (on_disk e ≡ on_disk d))
            (λ got _. got ≡ buff ++ span (on_disk d) sector (suc count)) _ _
            (λ page. read_loop F gc_ratio count ((sector + 1) % 2 ^ 32) (buff ++ page))
            (with_map-Gives d (S.reads sector (d.map, d.driver) h)).run
            λ page (same, held, kept). rw next (
              weaken-Gives
                (read_loop-span count (sector + 1) (buff ++ page) _ held (omega (arith, room)))
                λ got _ e. read_on (on_disk d) _ sector count buff page got same kept e);
    }

    -- What a write of whole pages leaves.
    pub record Written (sector count : ℕ) (buff : List ℕ) (d e : Disk F) : Type 0 where
      pub holds : S.Holds (e.map, e.driver)
      pub inside : span (on_disk e) sector count ≡ buff
      pub below : (j : ℕ) → j < sector → on_disk e j ≡ on_disk d j
      pub above : (j : ℕ) → sector + count ≤ j → on_disk e j ≡ on_disk d j

    stored_at :
        (sector : ℕ) (page : List ℕ) (f g : ℕ → List ℕ)
        → g ≡ store_row sector page f
        → g sector ≡ page
    stored_at sector page f g e = ap (λ k. k sector) e ∙ rw ((==_iff sector sector).1 refl)

    kept_at :
        (sector j : ℕ) (page : List ℕ) (f g : ℕ → List ℕ)
        → g ≡ store_row sector page f
        → (j ≡ sector → ⊥)
        → g j ≡ f j
    kept_at sector j page f g e h = ap (λ k. k j) e ∙ (elim (Bool-cases (j == sector)) [
      | inl same ↦ absurd (h ((==_iff j sector).0 same))
      | inr apart ↦ rw apart refl
    ])

    first_then_rest :
        (sector count : ℕ) (buff : List ℕ) (d c e : Disk F)
        → on_disk c ≡ store_row sector (take nand_page_size buff) (on_disk d)
        → Written (sector + 1) count (drop nand_page_size buff) c e
        → Written sector (suc count) buff d e
    first_then_rest sector count buff d c e stored w =
        let page : List ℕ = take nand_page_size buff in
        let first : on_disk e sector ≡ page =
          w.below sector (omega arith) ∙ stored_at sector page (on_disk d) (on_disk c) stored in
        record {
          holds = w.holds;
          inside =
              ap (λ p. p ++ span (on_disk e) (sector + 1) count) first
              ∙ ap (λ p. page ++ p) w.inside
              ∙ take-drop nand_page_size buff;
          below = λ j h.
              w.below j (omega arith)
              ∙ kept_at sector j page (on_disk d) (on_disk c) stored (λ q. omega arith);
          above = λ j h.
              w.above j (omega arith)
              ∙ kept_at sector j page (on_disk d) (on_disk c) stored (λ q. omega arith);
        }

    pub write_loop-Written :
        (count sector : ℕ) (buff : List ℕ) (d : Disk F)
        → S.Holds (d.map, d.driver)
        → sector + count < 2 ^ 32
        → length buff ≡ count * nand_page_size
        → Gives (write_loop F gc_ratio count sector buff) d (λ _ e. Written sector count buff d e)
    unfolding write_loop
    write_loop-Written zero sector [] d h room full = record {
      run = record { holds = h; inside = refl; below = λ j k. refl; above = λ j k. refl };
    }
    write_loop-Written zero sector (x ∷ buff) d h room full = absurd (omega arith)
    write_loop-Written (suc count) sector buff d h room full = record {
      run =
          let next : (sector + 1) % 2 ^ 32 ≡ sector + 1 = omega (arith, room) in
          let page : List ℕ = take nand_page_size buff in
          let whole : length page ≡ nand_page_size =
            omega (arith, full, length-take nand_page_size buff) in
          let rest : length (drop nand_page_size buff) ≡ count * nand_page_size =
            omega (arith, full, length-drop nand_page_size buff) in
          round-Good
            (λ _ e. S.Holds (e.map, e.driver) × (on_disk e ≡ store_row sector page (on_disk d)))
            (λ _ e. Written sector (suc count) buff d e) _ _
            (λ _. write_loop F gc_ratio count ((sector + 1) % 2 ^ 32) (drop nand_page_size buff))
            (with_map-Gives d (S.writes sector page (d.map, d.driver) h whole)).run
            λ _ (held, stored). rw next (
              weaken-Gives
                (write_loop-Written count (sector + 1) (drop nand_page_size buff) _ held
                  (omega (arith, room)) rest)
                λ _ e w. first_then_rest sector count buff d _ e stored w);
    }
