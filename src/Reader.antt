-- ===== src/Reader.antt =====
-- Reading a byte slice from the front: the `reader: &mut &[u8]` that the decoders pass along. A
-- reader returns its value with the rest of the slice; `do` blocks chain readers by `?`.
mod Defs
mod Laws
unfoldable pub use Defs.*
pub use Laws.*
