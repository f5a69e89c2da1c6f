-- ===== src/Bits.antt =====
-- The bits of machine words, least significant first, and the word operations of C++ that the
-- sources use: casts to a fixed width, shifts, masks and `|` of disjoint fields.
mod Or
mod Words
mod Lists
pub use Words.*
pub use Or.{bit_or_disjoint}
pub use Lists.*
