-- ===== src/Auth.antt =====
-- beater/auth: who a client is and what it may do.
pub mod Types
pub mod Header
pub mod Anonymous
pub mod ApiKey
pub mod Authenticator
