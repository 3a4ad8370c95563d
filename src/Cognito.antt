-- ===== src/Cognito.antt =====
-- The Cognito service: internal/cognito.
pub mod Password
pub mod Totp
