-- ===== src/Tabs.antt =====
-- The tabs of the console in web/src/App.jsx that keep a list of the server's rows and a form.
pub mod Secrets
pub mod Tokens
pub mod Byok
pub mod Integrations
