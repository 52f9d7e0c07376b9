-- ===== src/Prelude/Names.antt =====
-- Lists of node names as the program handles them: `in`, `set`, `sorted`, `list.remove` and the set
-- operations of Python, over texts.
mod Ops
pub mod Laws
pub mod Counting
pub mod Strip
unfoldable pub use Ops.*
