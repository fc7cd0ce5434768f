-- ===== src/Printer.antt =====
-- packages/printer-adapters/src: what a device declares, what it is asked to print, and the wire.
pub mod Capabilities
pub mod Ipp
pub mod Submission
pub mod Journal
pub mod JobName
