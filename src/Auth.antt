-- ===== src/Auth.antt =====
-- Signing in with GitHub: cookies, the signed state of a sign-in, sessions, and the rights of a
-- reviewer (src/control-plane/auth.ts).
pub mod Cookies
pub mod State
pub mod Sessions
pub mod Rights
