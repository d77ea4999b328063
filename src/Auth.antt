-- ===== src/Auth.antt =====
-- Sign-in: backend/src/kuuna_backend/domain/auth/service.py.
pub mod Hashes
pub mod Login
pub mod Password
pub mod RateLimiter
mod Tests
