-- ===== src/Driver/Blank.antt =====
-- The scan of `nand_mx35lf1_page_is_free` against its meaning.
use nand_vfs_mx35lf.Base.{
  ℕ, zero, suc, ◌*◌, ◌≡◌, refl, ◌↔◌, true, List, [], ◌∷◌, arith, length, replicate,
}
use nand_vfs_mx35lf.Driver.Api.{words_blank}

-- Every byte is 0xFF.
abbrev pub AllErased : List ℕ → Type 0
AllErased [] = Unit
AllErased (b ∷ bytes) = (b ≡ 255) × AllErased bytes

-- The comparison by words of four finds a page of four times as many bytes blank exactly if each
-- byte is 0xFF: no tail of the page escapes it.
pub words_blank_iff :
    (words : ℕ) (bytes : List ℕ)
    → length bytes ≡ words * 4
    → (words_blank words bytes ≡ true) ↔ AllErased bytes
unfolding words_blank
words_blank_iff zero [] h = (λ _. tt, λ _. refl)
words_blank_iff zero (a ∷ bytes) h = absurd (omega arith)
words_blank_iff (suc words) (a ∷ b ∷ c ∷ d ∷ bytes) h =
    ground (arith, words_blank_iff words bytes (omega arith))
words_blank_iff (suc words) (a ∷ b ∷ c ∷ []) h = absurd (omega arith)
words_blank_iff (suc words) (a ∷ b ∷ []) h = absurd (omega arith)
words_blank_iff (suc words) (a ∷ []) h = absurd (omega arith)
words_blank_iff (suc words) [] h = absurd (omega arith)

pub AllErased-replicate : (n : ℕ) → AllErased (replicate n 255)
AllErased-replicate zero = tt
AllErased-replicate (suc n) = (refl, AllErased-replicate n)
