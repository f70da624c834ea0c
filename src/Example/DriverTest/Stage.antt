-- ===== src/Example/DriverTest/Stage.antt =====
-- What the self test of example/main/nand_driver_test.c keeps track of on a healthy chip: the pages in
-- the two rows that it works on, what it has received, and what it has logged.
use nand_vfs_mx35lf.Base.{
  ℕ, ◌+◌, ◌≡◌, ◌↔◌, refl, ap, Bool, true, false, List, [], ◌∷◌, ◌++◌, Result, ok, fail, arith,
  length, take, drop, take-append, Good, Gives, modify-Gives,
}
use nand_vfs_mx35lf.Driver.Types.{NandErr, SpiHost, Platform, Driver, DriverOp, nand_page_full_size}
use nand_vfs_mx35lf.Driver.Address.{validate_length}
use nand_vfs_mx35lf.Driver.Blank.{AllErased}
use nand_vfs_mx35lf.Driver.Chip.{View, Chip, blank_page, place}
use nand_vfs_mx35lf.Driver.Chip.Wire.{At}
use nand_vfs_mx35lf.Driver.Chip.Steps.{Writable}
use nand_vfs_mx35lf.Driver.Chip.RoundTrip.{length-place}
use nand_vfs_mx35lf.Example.DriverTest.{SelfTest, Report, msg, log_result, on_handle, log_report}

-- The page that holds the message from its first byte on, and is erased behind it.
unfoldable pub message_page : List ℕ
message_page = place 0 msg blank_page

pub length-message_page : length message_page ≡ nand_page_full_size
unfolding message_page
length-message_page = length-place 0 msg (omega arith)

pub read_message : take (length msg) (drop 0 message_page) ≡ msg
unfolding message_page
read_message = take-append msg (drop (0 + length msg) blank_page)

pub message_length_ok : validate_length 0 (length msg) ≡ true
unfolding validate_length
message_length_ok = refl

pub not_erased : (page : List ℕ) → page ≡ message_page → AllErased page → false ≡ true
unfolding message_page
not_erased page e h = absurd (omega (arith, (rw e at h).0))

pub by_iff : {Q : Type 0} (a b : Bool) → ((a ≡ true) ↔ Q) → ((b ≡ true) ↔ Q) → a ≡ b
by_iff a b h k = ground (arith, λ (p : a ≡ true). k.1 (h.0 p), λ (p : b ≡ true). h.1 (k.0 p))

module _ {P : Platform} (C : Chip P) (spi_bus_initialize : SpiHost → P.State → P.State)
    (row row_dst : ℕ) where
  -- The chip can be written; the first page given is in the row, the second one in the row of the copy;
  -- what has been received and logged.
  pub record Stage (page copy receive : List ℕ) (logged : List Report) (t : SelfTest P)
      : Type 0 where
    pub now : View
    pub at_now : At C now t.driver
    pub page_now : now.array row ≡ page
    pub copy_now : now.array row_dst ≡ copy
    pub writable : Writable C now
    pub receive_now : t.receive ≡ receive
    pub logged_now : t.logged ≡ logged

  module _ {page copy receive : List ℕ} {logged : List Report} {t : SelfTest P} where
    pub on_handle-Stage :
        {page' copy' : List ℕ} {A : Type 0} {op : DriverOp P A} {B : A → Type 0}
        (s : Stage page copy receive logged t) (v : View)
        → v.array row ≡ page'
        → v.array row_dst ≡ copy'
        → Writable C v
        → Gives op t.driver (λ a d. B a × At C v d)
        → Gives
            (on_handle P spi_bus_initialize op)
            t
            (λ a w. B a × Stage page' copy' receive logged w)
    unfolding on_handle
    on_handle-Stage {page'} {copy'} {A} {op} {B} s v e e' writable g = record {
      run = go (op t.driver).0 (op t.driver).1 g.run;
    }
      where
        go :
            (r : Result NandErr A) (d : Driver P)
            → Good (λ a d. B a × At C v d) r d
            → Good
                (λ a w. B a × Stage page' copy' receive logged w)
                (log_result r)
                (record t { driver = d })
        go (ok a) d q = (
          q.0,
          record {
            now = v;
            at_now = q.1;
            page_now = e;
            copy_now = e';
            writable = writable;
            receive_now = s.receive_now;
            logged_now = s.logged_now;
          },
        )
        go (fail x) d q = absurd q

    pub log-Stage :
        (line : Report)
        → Stage page copy receive logged t
        → Gives
            (log_report P spi_bus_initialize line)
            t
            (λ _. Stage page copy receive (logged ++ line ∷ []))
    unfolding log_report
    log-Stage line s = modify-Gives _ (record {
      now = s.now;
      at_now = s.at_now;
      page_now = s.page_now;
      copy_now = s.copy_now;
      writable = s.writable;
      receive_now = s.receive_now;
      logged_now = ap (λ l. l ++ line ∷ []) s.logged_now;
    })
