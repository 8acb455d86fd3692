-- ===== src/Totp/Errors.antt =====
-- modules/common/totp.rs: why an operation fails.
pub data TotpError : Type 0 where
  bad_secret bad_digits bad_period bad_mac buffer_too_small bad_base32 : TotpError
