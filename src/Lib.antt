-- ===== src/Lib.antt =====
-- The NAND file-system component for the Macronix MX35LF1: a driver of the chip on an SPI bus, the
-- hooks of the Dhara flash translation layer onto it, a FatFs disk driver on the translation layer,
-- and a mount point in the VFS of ESP-IDF. The mount point (src/nand_vfs.c) brings up the disk
-- (src/nand_diskio.c), FatFs reaches the disk through its callbacks, the callbacks call the map of
-- Dhara, and the map reaches the driver (src/mx35lf1_driver.c) through the hooks
-- (src/dhara/dhara/nand.c).
--
-- Base holds the shared names: Boolean tests, lists and their cuts, `Op` (a call that changes a state
-- and returns a code or a value, written in do blocks), and the relations that a call keeps (Frames)
-- or that hold of what it gives (Total, Partial).
--
-- Driver models include/mx35lf1_driver.h and src/mx35lf1_driver.c. The state is `Driver`: the handle,
-- how often the task holds the mutex, and the state of the platform. Functions keep the names of the
-- C code.
--   Driver/Types      the enumerations, constants and structures, and `Platform`
--   Driver/Address    row and column addresses and their tests
--   Driver/Spi        spi_xfer to configure_ecc: transfers, registers, the poll, the write session
--   Driver/Commands   nand_reset to read_bad_marker: the command sequences
--   Driver/Api        the public page and block functions, with the mutex
--   Driver/Lifecycle  nand_mx35lf1_init, nand_mx35lf1_deinit and release_resources; its Rule has the
--                     branches of the initialization, which the proofs about it share
--   Driver/Errors     nand_err_to_str
--   Driver/Stable, Driver/Calls, Driver/Poll, Driver/Blank  proofs about these; Driver/Calls/Rows and
--                     Driver/Calls/Targets are about the rows of a chip that may fail any command
--   Driver/Protection  the write latch and the block protection, on a chip that may report failures
--   Driver/Resources   the heap blocks, the mutex and the bus device that the driver holds
--   Driver/Chip       hypotheses about a healthy chip, as its data sheet documents the commands, and
--                     the functions on such a chip, which takes its time (Driver/Chip/Waits)
-- Hal models the seven hooks of src/dhara/dhara/nand.c. Hal/Elsewhere is about the rows that they
-- reach, Hal/Codes and Hal/Silent about the codes that they report.
-- Disk models src/nand_diskio.c: the context, the five callbacks, the initialization and the release.
-- Disk/Calls has the rule for what each call over the map keeps, and Disk/Lifecycle/Protection carries
-- a fact about the hooks through all of them.
-- Vfs models src/nand_vfs.c: the static variables and the five functions; a goto to fail_vfs,
-- fail_diskio or fail_bus is a call of the function of that name.
-- Paths models the path helpers of example/main/nand_vfs_test_.c: path_copy, path_normalize and
-- path_join. A failed assert is a value (`aborted`), and the stack of segments is a list.
-- Example models the programs of example/main. Example/DriverTest is the self test nand_driver_test.c:
-- a test that returns false is an error. Example/FileTour is the rest of nand_vfs_test_.c, the tour of
-- the mounted file system; the file functions of the C library act on the mount point and a state of
-- their own.
-- Tests holds a simulated board, one whose chip is busy after its commands (Tests/Bench/Slow), a
-- translation layer in memory, and the theorems applied to them.
--
-- Parameters of the model are the services of ESP-IDF and FreeRTOS (`Platform`), the Dhara map
-- (`Ftl`), FatFs with its VFS glue and the SPI bus (`Services`), and the file functions of the C
-- library (`Files`): each call of them may give any outcome. Logging is left out, but for what the self
-- test logs of the chip. A pointer is NULL or valid (`Ptr`), and a write through a valid one is
-- part of the result.
--
-- Bounds: `wait_ready` has fuel for one poll for each microsecond allowed and two more, and each round
-- takes a microsecond at least. A healthy chip (`Chip`) is busy from each command on its array on, for
-- no longer than a time that, with one read of the status, stays within NAND_OP_TIMEOUT; until then it
-- is known to answer a read of its status only, with OIP set. The clock that `Chip` asks for never goes
-- back. The word comparison of page_is_free takes the 528 words of a page. CTRL_TRIM has one round for
-- each sector and one for the last test. The loops over sectors and blocks are by recursion on their
-- counts. Sector numbers wrap at 2 ^ 32, and the lengths and columns of the driver as in C. The loop
-- over `readdir` has a number of rounds, more than the most entries that a directory has.
--
-- Not modelled: the Dhara library of src/dhara with its tests and tools, include/mx35lf1_cmd.h (the
-- constants of include/mx35lf1_driver.h once more), and the build files, whose options are parameters.
pub mod Base
pub mod Driver
pub mod Hal
pub mod Disk
pub mod Vfs
pub mod Paths
pub mod Example
pub mod Tests
