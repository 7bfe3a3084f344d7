-- ===== src/Text.antt =====
-- Text as the program handles it: splitting, trimming, and integers in decimal.
mod Defs
mod White
mod Number
pub mod Search
pub mod Adjacent
pub mod Decimal
mod Tests
unfoldable pub use Defs.{
  Bytes, codes, eq_bytes, strip_prefix, is_some, starts_with, split_once, contains, splitn, split,
  next_or, rest_of, split_crlf, lower, to_ascii_lowercase, eq_ignore_ascii_case, pop_if, lines,
}
unfoldable pub use White.{is_white, trim_start, trim_end, trim}
unfoldable pub use Number.{
  is_digit, parse_digits, non_empty_digits, parse_unsigned, parse_i64, u16_max, u32_max, u64_max,
  show, show_ℤ,
}
