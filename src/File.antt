-- ===== src/File.antt =====
-- A file of the operating system as the bridge uses it: a length and the byte at each offset, with
-- the positioned reads and writes of `std::os::unix::fs::FileExt` and `File::set_len`.
mod Slices
mod Laws
mod Ranges
unfoldable pub use Slices.*
pub use Laws.*
pub use Ranges.*
