-- ===== src/Driver/Calls/Parts.antt =====
-- The page and block functions of include/mx35lf1_driver.h, each from the parts that it is made of.
use nand_vfs_mx35lf.Base.{
  ℕ, zero, suc, ◌+◌, ◌≡◌, refl, Bool, true, false, Option, none, some, List, Result, ok, fail,
  ◌>>=◌, ◌>>◌, Keeps, bind-Keeps, pure-Keeps, throw-Keeps, gets-Keeps, guard, ◌&&◌, modify-Keeps,
  guard-Keeps, attempt-Keeps, return_code-Keeps, arith,
}
use nand_vfs_mx35lf.Driver.Types.{
  NandErr, Ptr, null, valid, Block, Platform, Driver, DriverOp, nand_page_size,
}
use nand_vfs_mx35lf.Driver.Api.{
  nand_check_arg, nand_check_handle, nand_lock, locked, nand_mx35lf1_page_program,
  nand_mx35lf1_page_read, nand_mx35lf1_page_copy, nand_mx35lf1_block_erase,
  nand_mx35lf1_block_is_bad, nand_mx35lf1_block_mark_bad, nand_mx35lf1_page_is_free, clear_block,
  malloc_page, scan_page, clear_marked, Tally, clear_loop, nand_mx35lf1_clear,
}
use nand_vfs_mx35lf.Driver.Commands.{do_page_read, read_bad_marker}
use nand_vfs_mx35lf.Driver.Address.{row_first_page, validate_row_address}
use nand_vfs_mx35lf.Driver.Calls.{
  Call, page_program, page_read, page_copy, block_erase, block_is_bad, block_mark_bad, page_is_free,
  clear, after_call, IsShared, IsGuarded, program_session, copy_session, erase_session,
}

both_true : (a b : Bool) → (a && b) ≡ true → (a ≡ true) × (b ≡ true)
both_true a b h = ground arith

module _ {P : Platform} {R : Driver P → Driver P → Type 0} (g : IsShared P R) where
  open g use {preorder}

  check_arg-Keeps : (h : Ptr) → Keeps R (nand_check_arg P h)
  unfolding nand_check_arg
  check_arg-Keeps null = throw-Keeps preorder _
  check_arg-Keeps valid = pure-Keeps preorder tt

  check_handle-Keeps : Keeps R (nand_check_handle P)
  unfolding nand_check_handle
  check_handle-Keeps = bind-Keeps preorder (gets-Keeps preorder _) λ b. guard-Keeps preorder b _

  pub locked-Keeps : {A : Type 0} {op : DriverOp P A} → Keeps R op → Keeps R (locked P op)
  unfolding locked
  locked-Keeps k = record { run = λ s. g.unlocks s _ (k.run (nand_lock P s)) }

  guarded-Keeps :
      {A : Type 0} (b : Bool) (e : NandErr) {op : DriverOp P A}
      → (b ≡ true → Keeps R op)
      → Keeps R (guard b e >> op)
  unfolding guard ◌>>=◌
  guarded-Keeps true e k = record { run = λ s. (k refl).run s }
  guarded-Keeps false e k = record { run = λ s. preorder.same s }

  -- The two checks that every call begins with.
  pub checked-Keeps :
      {A : Type 0} (h : Ptr) {op : DriverOp P A}
      → Keeps R op
      → Keeps R (nand_check_arg P h >> (nand_check_handle P >> op))
  checked-Keeps h k =
      bind-Keeps preorder (check_arg-Keeps h) λ _. bind-Keeps preorder check_handle-Keeps λ _. k

  page-Keeps : (row column len : ℕ) → Keeps R (do_page_read P row column len)
  unfolding do_page_read
  page-Keeps row column len = bind-Keeps preorder (g.pages row) λ _. g.caches column len

  marker-Keeps : (block : ℕ) → Keeps R (read_bad_marker P block)
  unfolding read_bad_marker
  marker-Keeps block = bind-Keeps preorder (page-Keeps _ _ _) λ mark. pure-Keeps preorder _

  -- A call whose row is valid may write to it.
  pub api_program-Keeps :
      (h : Ptr) (row column : ℕ) (bytes : Option (List ℕ)) (len : ℕ)
      → (validate_row_address row ≡ true
          → (bs : List ℕ) → Keeps R (program_session P row column bs len))
      → Keeps R (nand_mx35lf1_page_program P h row column bytes len)
  unfolding nand_mx35lf1_page_program
  api_program-Keeps h row column none len session = checked-Keeps h (throw-Keeps preorder _)
  api_program-Keeps h row column (some bytes) len session = checked-Keeps h (
      guarded-Keeps _ _ λ valid_at.
        bind-Keeps preorder (guard-Keeps preorder _ _)
          λ _. locked-Keeps (session (both_true _ _ valid_at).0 bytes))

  pub api_read-Keeps :
      (h : Ptr) (row column : ℕ) (out : Ptr) (len : ℕ)
      → Keeps R (nand_mx35lf1_page_read P h row column out len)
  unfolding nand_mx35lf1_page_read
  api_read-Keeps h row column out len = checked-Keeps h (
      bind-Keeps preorder (check_arg-Keeps out) λ _.
        bind-Keeps preorder (guard-Keeps preorder _ _) λ _.
          bind-Keeps preorder (guard-Keeps preorder _ _)
            λ _. locked-Keeps (page-Keeps row column len))

  pub api_copy-Keeps :
      (h : Ptr) (src dst : ℕ)
      → (validate_row_address dst ≡ true → Keeps R (copy_session P dst))
      → Keeps R (nand_mx35lf1_page_copy P h src dst)
  unfolding nand_mx35lf1_page_copy
  api_copy-Keeps h src dst session = checked-Keeps h (
      guarded-Keeps _ _ λ valid_at. locked-Keeps (
        bind-Keeps preorder (g.pages src)
          λ _. session (both_true _ (validate_row_address dst) valid_at).1))

  pub api_erase-Keeps :
      (h : Ptr) (row : ℕ)
      → (validate_row_address (row_first_page row) ≡ true
          → Keeps R (erase_session P (row_first_page row)))
      → Keeps R (nand_mx35lf1_block_erase P h row)
  unfolding nand_mx35lf1_block_erase
  api_erase-Keeps h row session =
      checked-Keeps h (guarded-Keeps _ _ λ valid_at. locked-Keeps (session valid_at))

  pub api_is_bad-Keeps :
      (h : Ptr) (row : ℕ) (out : Ptr) → Keeps R (nand_mx35lf1_block_is_bad P h row out)
  unfolding nand_mx35lf1_block_is_bad
  api_is_bad-Keeps h row out = checked-Keeps h (
      bind-Keeps preorder (check_arg-Keeps out)
        λ _. bind-Keeps preorder (guard-Keeps preorder _ _) λ _. locked-Keeps (marker-Keeps _))

  pub api_mark_bad-Keeps :
      (h : Ptr) (row : ℕ)
      → (validate_row_address (row_first_page row) ≡ true
          → (bs : List ℕ) → Keeps R (program_session P (row_first_page row) nand_page_size bs 2))
      → Keeps R (nand_mx35lf1_block_mark_bad P h row)
  unfolding nand_mx35lf1_block_mark_bad
  api_mark_bad-Keeps h row session =
      checked-Keeps h
        (bind-Keeps preorder (guard-Keeps preorder _ _) λ _. api_program-Keeps h _ _ _ 2 session)

  scan_page-Keeps : (h : Ptr) (row : ℕ) (b : Option Block) → Keeps R (scan_page P h row b)
  unfolding scan_page
  scan_page-Keeps h row none = throw-Keeps preorder _
  scan_page-Keeps h row (some b) = locked-Keeps (
      bind-Keeps preorder (attempt-Keeps (api_read-Keeps h row _ _ _)) λ ret.
        bind-Keeps preorder (modify-Keeps _ (g.frees b))
          λ _. bind-Keeps preorder (return_code-Keeps preorder ret) λ bytes. pure-Keeps preorder _)

  malloc_page-Keeps : Keeps R (malloc_page P)
  unfolding malloc_page
  malloc_page-Keeps = record { run = λ s. g.mallocs _ s }

  pub api_is_free-Keeps :
      (h : Ptr) (row : ℕ) (out : Ptr) → Keeps R (nand_mx35lf1_page_is_free P h row out)
  unfolding nand_mx35lf1_page_is_free
  api_is_free-Keeps h row out = checked-Keeps h (
      bind-Keeps preorder (check_arg-Keeps out) λ _.
        bind-Keeps preorder (guard-Keeps preorder _ _)
          λ _. bind-Keeps preorder malloc_page-Keeps λ b. scan_page-Keeps h row b)

module _ {P : Platform} {R : Driver P → Driver P → Type 0} (g : IsGuarded P R) where
  open g use {shared, shared.preorder}

  clear_marked-Keeps :
      (h : Ptr) (i : ℕ) (t : Tally) (r : Result NandErr Bool) → Keeps R (clear_marked P h i t r)
  unfolding clear_marked
  clear_marked-Keeps h i t (fail e) = pure-Keeps preorder _
  clear_marked-Keeps h i t (ok true) = pure-Keeps preorder t
  clear_marked-Keeps h i t (ok false) =
      bind-Keeps preorder (attempt-Keeps (api_erase-Keeps shared h _ (λ _. g.erases _)))
        λ ret. pure-Keeps preorder _

  clear_block-Keeps : (h : Ptr) (i : ℕ) (t : Tally) → Keeps R (clear_block P h i t)
  unfolding clear_block
  clear_block-Keeps h i t =
      bind-Keeps preorder (attempt-Keeps (api_is_bad-Keeps shared h _ valid))
        λ marked. clear_marked-Keeps h i t marked

  clear_loop-Keeps : (h : Ptr) (rounds i : ℕ) (t : Tally) → Keeps R (clear_loop P h rounds i t)
  unfolding clear_loop
  clear_loop-Keeps h zero i t = pure-Keeps preorder t
  clear_loop-Keeps h (suc rounds) i t =
      bind-Keeps preorder (clear_block-Keeps h i t) λ t'. clear_loop-Keeps h rounds (i + 1) t'

  clear-Keeps : (h : Ptr) → Keeps R (nand_mx35lf1_clear P h)
  unfolding nand_mx35lf1_clear
  clear-Keeps h =
      checked-Keeps shared h
        (bind-Keeps preorder (clear_loop-Keeps h _ 0 _) λ t. return_code-Keeps preorder _)

  -- A call ends in a state that is related to the one it began in, whatever code it returns.
  pub after_call-related : (c : Call) (s : Driver P) → R s (after_call P c s)
  unfolding after_call
  after_call-related (page_program h row column bytes len) s =
      (api_program-Keeps shared h row column bytes len (λ _ bs. g.programs row column bs len)).run s
  after_call-related (page_read h row column out len) s =
      (api_read-Keeps shared h row column out len).run s
  after_call-related (page_copy h src dst) s =
      (api_copy-Keeps shared h src dst (λ _. g.copies dst)).run s
  after_call-related (block_erase h row) s = (api_erase-Keeps shared h row (λ _. g.erases _)).run s
  after_call-related (block_is_bad h row out) s = (api_is_bad-Keeps shared h row out).run s
  after_call-related (block_mark_bad h row) s =
      (api_mark_bad-Keeps shared h row (λ _ bs. g.programs _ _ bs 2)).run s
  after_call-related (page_is_free h row out) s = (api_is_free-Keeps shared h row out).run s
  after_call-related (clear h) s = (clear-Keeps h).run s
