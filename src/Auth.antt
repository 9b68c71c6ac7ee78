-- ===== src/Auth.antt =====
-- Package auth: tokens, the interceptor of every request, the user store and the two handlers.
pub mod Tokens
pub mod Interceptor
pub mod Users
pub mod Server
pub mod Logging
