-- ===== src/Js.antt =====
-- The part of JavaScript that web/src and cloudflare-worker-root use: values, texts, dictionaries,
-- and the built-ins of the engine that the code calls.
pub mod Value
pub mod Text
pub mod Decimal
pub mod Dict
pub mod Object
pub mod Engine
