-- ===== src/Auth.antt =====
-- src/modules/auth: password login by SRP, and tokens.
pub mod Srp
pub mod Tokens
pub mod SrpState
pub mod Login
pub mod Runs
