-- ===== src/Reloader.antt =====
-- internal/reloader: the second entry point of the operator's binary.
pub mod Defs
pub mod Rounds
pub mod Program
pub mod Copies
pub mod Signals
pub mod Silent
pub mod Owed
pub mod Forgotten
