-- ===== src/Auth.antt =====
-- web/src/context/AuthContext.jsx: the session of the console, and web/src/App.jsx's
-- `SingleTenantLogin`, the form that opens one.
pub mod Session
pub mod Login
pub mod Invariant
pub mod Gate
