-- ===== src/Physical/Init.antt =====
-- What `PageAllocator::init` makes of the ranges it is given.
mod Ranges
mod Step
mod Carve
unfoldable pub use Carve.*
