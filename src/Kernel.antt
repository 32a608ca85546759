-- ===== src/Kernel.antt =====
-- The world around the driver: onic.h, onic_json.h and the structures of libqdma_export.h that the
-- driver fills in (Kernel/Types), the calls that leave the driver (Kernel/Calls), and the monad in
-- which the driver's functions run (Kernel/Monad).
--
-- A call of libqdma or of the Linux kernel is an `Op`. What the callee answers is taken from an
-- `Env`, which may depend on all that happened before, so that a theorem for every `Env` holds for
-- every behaviour of the callee. Each call is written to the log with its answer.
mod Types
mod Calls
mod Monad
pub mod Tally
pub mod Ledger
pub mod Steps
pub mod Blocks
pub use Types.*
pub use Calls.*
pub use Monad.*
