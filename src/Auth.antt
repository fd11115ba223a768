-- ===== src/Auth.antt =====
-- src/auth: who may come in. The tokens, the guards, the flows of src/auth/auth.service.ts, and the second
-- factor.
pub mod Seal
pub mod PasswordPolicy
pub mod Tokens
pub mod Users
pub mod Guards
pub mod Login
pub mod Sessions
pub mod Registration
pub mod Account
pub mod Mfa
pub mod Writes
pub mod Flows
pub mod RegistrationFlows
pub mod AccountFlows
pub mod MfaFlows
pub mod Steps
pub mod Kept
pub mod Single
pub mod Rows
pub mod Races
pub mod Replay
pub mod Versions
pub mod Outdated
pub mod ActionTokens
pub mod Lockout
pub mod Totp
pub mod TotpLaws
pub mod TotpLock
