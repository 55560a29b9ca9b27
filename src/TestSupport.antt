-- ===== src/TestSupport.antt =====
-- What the tests of the repository share: loop devices, test doubles and the converter of reports.
pub mod Loopdev
pub mod Mocks
pub mod Report
pub mod Converter
