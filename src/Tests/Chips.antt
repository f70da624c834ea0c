-- ===== src/Tests/Chips.antt =====
-- The theorems on a healthy chip, on the simulated board with the slow chip.
use nand_vfs_mx35lf.Base.{
  ℕ, ◌≡◌, refl, true, none, some, List, [], ◌∷◌, arith, take, drop, replicate, length-replicate,
  Gives, ◌>>◌, pos,
}
use nand_vfs_mx35lf.Driver.Types.{valid, nand_page_size}
use nand_vfs_mx35lf.Driver.Address.{validate_column_address, validate_length, row_block}
use nand_vfs_mx35lf.Driver.Api.{
  nand_mx35lf1_page_program, nand_mx35lf1_page_read, nand_mx35lf1_page_copy,
  nand_mx35lf1_block_is_bad, nand_mx35lf1_block_mark_bad,
}
use nand_vfs_mx35lf.Driver.Chip.{blank_page}
use nand_vfs_mx35lf.Driver.Chip.RoundTrip.{
  length-blank_page, page_read-page_program, block_is_bad-block_mark_bad, page_read-page_copy,
}
use nand_vfs_mx35lf.Hal.{e_none, dhara_nand_prog, dhara_nand_read, dhara_nand_copy}
use nand_vfs_mx35lf.Hal.Laws.{dhara_nand_read-dhara_nand_prog, dhara_nand_read-dhara_nand_copy}
use nand_vfs_mx35lf.Tests.Bench.Slow.{slow, slow_opened}
use nand_vfs_mx35lf.Tests.Bench.Healthy.{slow_chip, opened-At}

column_ok : validate_column_address 16 ≡ true
unfolding validate_column_address
column_ok = refl

length_ok : validate_length 16 3 ≡ true
unfolding validate_length
length_ok = refl

page_read-page_program_example :
    Gives
      (nand_mx35lf1_page_program slow valid 130 16 (some (1 ∷ 2 ∷ 3 ∷ [])) 3
        >> nand_mx35lf1_page_read slow valid 130 16 valid 3)
      slow_opened
      (λ got _. got ≡ 1 ∷ 2 ∷ 3 ∷ [])
page_read-page_program_example =
    page_read-page_program slow_chip opened-At refl 130 16 (1 ∷ 2 ∷ 3 ∷ []) (omega arith) column_ok
      length_ok refl

same_block : row_block 140 ≡ row_block 130
unfolding row_block
same_block = refl

block_is_bad-block_mark_bad_example :
    Gives
      (nand_mx35lf1_block_mark_bad slow valid 130 >> nand_mx35lf1_block_is_bad slow valid 140 valid)
      slow_opened
      (λ is_bad _. is_bad ≡ true)
block_is_bad-block_mark_bad_example =
    block_is_bad-block_mark_bad slow_chip opened-At refl 130 140 (omega arith) (omega arith)
      same_block length-blank_page

page_read-page_copy_example :
    Gives
      (nand_mx35lf1_page_copy slow valid 130 200
        >> nand_mx35lf1_page_read slow valid 200 16 valid 3)
      slow_opened
      (λ got _. got ≡ take 3 (drop 16 blank_page))
page_read-page_copy_example =
    page_read-page_copy slow_chip opened-At refl 130 200 16 3 (omega arith) (omega arith) column_ok
      length_ok refl length-blank_page

abbrev page : List ℕ
page = replicate nand_page_size 7

dhara_nand_read-dhara_nand_prog_example :
    let (programmed, t) = dhara_nand_prog slow 130 page none slow_opened in
    let (got, u) = dhara_nand_read slow 130 0 nand_page_size (some e_none) t in
    (programmed.ret ≡ pos 0)
    × (programmed.err ≡ none)
    × (got.0.ret ≡ pos 0)
    × (got.0.err ≡ some e_none)
    × (got.1 ≡ page)
dhara_nand_read-dhara_nand_prog_example =
    dhara_nand_read-dhara_nand_prog slow_chip opened-At refl 130 page none (some e_none)
      (omega arith) (length-replicate {A = ℕ} nand_page_size 7) refl

dhara_nand_read-dhara_nand_copy_example :
    let (copied, t) = dhara_nand_copy slow 130 200 none slow_opened in
    let (got, u) = dhara_nand_read slow 200 16 3 (some e_none) t in
    (copied.ret ≡ pos 0)
    × (copied.err ≡ none)
    × (got.0.ret ≡ pos 0)
    × (got.0.err ≡ some e_none)
    × (got.1 ≡ take 3 (drop 16 blank_page))
dhara_nand_read-dhara_nand_copy_example =
    dhara_nand_read-dhara_nand_copy slow_chip opened-At refl 130 200 16 3 none (some e_none)
      (omega arith) (omega arith) column_ok length_ok refl length-blank_page
