-- ===== src/Node/Headers.antt =====
-- src/node.rs: the answer to getheaders, from the header index, the chain view and the node.
mod Defs
mod Limits
mod Answers
mod Request
mod Yields
mod OnChain
mod Served
unfoldable pub use Defs.*
pub use Limits.*
pub use Answers.*
pub use Request.*
pub use Yields.*
pub use OnChain.*
pub use Served.*
