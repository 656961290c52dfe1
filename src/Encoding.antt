-- ===== src/Encoding.antt =====
-- The byte-level text functions: `urlEncode`, `formatMagnetUri` and `sanitizeUtf8` of
-- src/utils/StringUtils.cpp. Bytes are numbers below 256.
pub mod Percent
pub mod Magnet
pub mod Utf8
