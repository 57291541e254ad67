-- ===== src/Base/Bits.antt =====
-- `u32` bitmaps: the shift, the binary digits, and what `|` and `&` do to each digit.
mod Digits
mod Width
unfoldable pub use Digits.*
unfoldable pub use Width.*
