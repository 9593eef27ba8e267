-- ===== src/Text.antt =====
-- Go's strings as byte lists: UTF-8 (unicode/utf8), the tests of package unicode that have a
-- closed definition, the functions of package strings that the source calls, and the tables of
-- package unicode and SHA-256 as the parameter `Platform`.
mod Utf8
mod Strings
mod Trim
mod Codec
mod Unicode
unfoldable pub use Utf8.*
unfoldable pub use Strings.*
unfoldable pub use Unicode.*
unfoldable pub use Trim.*
unfoldable pub use Codec.*
