-- ===== src/Shell.antt =====
-- myShell: the shell.
pub mod Queue
pub mod Fifo
pub mod Words
pub mod Commands
pub mod Lines
pub mod Main
pub mod Remembered
mod Tests
