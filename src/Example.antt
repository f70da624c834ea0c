-- ===== src/Example.antt =====
-- The programs of example/main, which run the component: the self test of the driver, and the tour of
-- the mounted file system.
pub mod DriverTest
pub mod FileTour
