-- ===== src/Security.antt =====
-- src/main/cpp/security and src/main/cpp/include/ezbake/common/security: the text encryption.
pub mod Base64
pub mod Pbe
pub mod Padding
pub mod Keys
pub mod Cipher
pub mod RoundTrip
pub mod Decrypt
pub mod StringEncryptor
pub mod Contract
pub mod Providers
pub mod Failures
