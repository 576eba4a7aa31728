-- ===== src/Common/Text.antt =====
-- C strings as lists of bytes without their terminator, and the functions of <string.h>,
-- <strings.h> and <ctype.h> (in the "C" locale) that the program calls.
mod Defs
pub mod Search
pub mod Trim
unfoldable pub use Defs.*
