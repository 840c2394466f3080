-- ===== src/BitField.antt =====
-- The template `BitField<T, BEGIN, END>` of src/bit_field.hpp, with `T` an unsigned type of `w`
-- bits: the conversion to `T` and the assignment from `T`.
pub mod Defs
mod Laws
pub mod Fields
pub mod Bounds
unfoldable pub use Defs.{get_field, set_field}
pub use Laws.*
