-- ===== src/Security.antt =====
-- The security checks of the engine: origins and the content security policy.
pub mod Text
pub mod Origin
pub mod Csp
