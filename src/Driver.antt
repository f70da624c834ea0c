-- ===== src/Driver.antt =====
-- The SPI driver: include/mx35lf1_driver.h, include/mx35lf1_cmd.h and src/mx35lf1_driver.c.
pub mod Types
pub mod Address
pub mod Spi
pub mod Commands
pub mod Api
pub mod Lifecycle
pub mod Protection
pub mod Resources
pub mod Errors
pub mod Stable
pub mod Calls
pub mod Poll
pub mod Blank
pub mod Chip
