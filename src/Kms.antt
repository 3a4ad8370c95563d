-- ===== src/Kms.antt =====
-- internal/kms: the storage of the KMS emulator.
pub mod Types
pub mod Specs
pub mod Disk
pub mod Io
pub mod Keys
pub mod Aliases
pub mod Lifecycle
pub mod Rotation
pub mod Tags
pub mod Grants
pub mod Encryption
pub mod Reading
pub mod Valid
pub mod Calls
pub mod References
