-- ===== src/Driver/Stable/Commands.antt =====
-- The command sequences of src/mx35lf1_driver.c respect what transmitting, waiting and filling the
-- buffers respect.
use nand_vfs_mx35lf.Base.{
  ℕ, List, Keeps, bind-Keeps, if-Keeps, pure-Keeps, throw-Keeps, gets-Keeps, modify-Keeps,
  relabel-Keeps, attempt-Keeps, return_code-Keeps,
}
use nand_vfs_mx35lf.Driver.Types.{Platform, Driver, DriverOp}
use nand_vfs_mx35lf.Driver.Commands.{
  nand_reset, nand_read_id, program_load, program_execute, page_read, read_from_cache_raw,
  read_from_cache, block_erase, do_page_read, read_bad_marker,
}
use nand_vfs_mx35lf.Driver.Api.{write_session}
use nand_vfs_mx35lf.Driver.Stable.{
  IsQuiet, IsStable, spi_xfer-Keeps, spi_write-Keeps, wait_ready-Keeps, write_begin-Keeps,
  write_end-Keeps,
}

module _ {P : Platform} {R : Driver P → Driver P → Type 0} (q : IsQuiet P R) where
  open q use {preorder}

  pub nand_reset-Keeps : Keeps R (nand_reset P)
  unfolding nand_reset
  nand_reset-Keeps =
      bind-Keeps preorder (spi_write-Keeps q _)
        λ _. bind-Keeps preorder (wait_ready-Keeps q _) λ _. pure-Keeps preorder tt

  pub nand_read_id-Keeps : Keeps R (nand_read_id P)
  unfolding nand_read_id
  nand_read_id-Keeps =
      bind-Keeps preorder (relabel-Keeps _ (spi_xfer-Keeps q _ _))
        λ rx. if-Keeps _ (throw-Keeps preorder _) (pure-Keeps preorder _)

module _ {P : Platform} {R : Driver P → Driver P → Type 0} (st : IsStable P R) where
  open st use {quiet, quiet.preorder}

  pub program_load-Keeps :
      (column : ℕ) (bytes : List ℕ) (len : ℕ) → Keeps R (program_load P column bytes len)
  unfolding program_load
  program_load-Keeps column bytes len = bind-Keeps preorder (modify-Keeps _ (st.loads_tx _)) λ _.
      bind-Keeps preorder (gets-Keeps preorder _) λ tx. relabel-Keeps _ (spi_write-Keeps quiet _)

  pub program_execute-Keeps : (row : ℕ) → Keeps R (program_execute P row)
  unfolding program_execute
  program_execute-Keeps row = bind-Keeps preorder (spi_write-Keeps quiet _) λ _.
      bind-Keeps preorder (wait_ready-Keeps quiet _)
        λ status. if-Keeps _ (pure-Keeps preorder tt) (throw-Keeps preorder _)

  pub page_read-Keeps : (row : ℕ) → Keeps R (page_read P row)
  unfolding page_read
  page_read-Keeps row =
      bind-Keeps preorder (spi_write-Keeps quiet _)
        λ _. bind-Keeps preorder (wait_ready-Keeps quiet _) λ status. return_code-Keeps preorder _

  read_from_cache_raw-Keeps : (column len : ℕ) → Keeps R (read_from_cache_raw P column len)
  unfolding read_from_cache_raw
  read_from_cache_raw-Keeps column len = bind-Keeps preorder (modify-Keeps _ (st.loads_tx _)) λ _.
      bind-Keeps preorder (gets-Keeps preorder _)
        λ tx. bind-Keeps preorder (spi_xfer-Keeps quiet _ _) λ rx. modify-Keeps _ (st.loads_rx rx)

  pub read_from_cache-Keeps : (column len : ℕ) → Keeps R (read_from_cache P column len)
  unfolding read_from_cache
  read_from_cache-Keeps column len =
      bind-Keeps preorder (read_from_cache_raw-Keeps column len) λ _. gets-Keeps preorder _

  pub block_erase-Keeps : (row : ℕ) → Keeps R (block_erase P row)
  unfolding block_erase
  block_erase-Keeps row = bind-Keeps preorder (spi_write-Keeps quiet _) λ _.
      bind-Keeps preorder (wait_ready-Keeps quiet _)
        λ status. if-Keeps _ (pure-Keeps preorder tt) (throw-Keeps preorder _)

  pub do_page_read-Keeps : (row column len : ℕ) → Keeps R (do_page_read P row column len)
  unfolding do_page_read
  do_page_read-Keeps row column len =
      bind-Keeps preorder (page_read-Keeps row) λ _. read_from_cache-Keeps column len

  pub read_bad_marker-Keeps : (block : ℕ) → Keeps R (read_bad_marker P block)
  unfolding read_bad_marker
  read_bad_marker-Keeps block =
      bind-Keeps preorder (do_page_read-Keeps _ _ _) λ mark. pure-Keeps preorder _

  pub write_session-Keeps : {op : DriverOp P (Unit {0})} → Keeps R op → Keeps R (write_session P op)
  unfolding write_session
  write_session-Keeps k =
      bind-Keeps preorder (write_begin-Keeps quiet)
        λ _. bind-Keeps preorder (attempt-Keeps k) λ ret. write_end-Keeps quiet ret
