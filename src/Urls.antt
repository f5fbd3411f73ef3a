-- ===== src/Urls.antt =====
-- web/src/App.jsx, `UrlsTab`: listeners, their secrets, the public alias and the identity registry.
pub mod State
pub mod Listeners
pub mod Identities
pub mod Keys
pub mod Refresh
pub mod Deletion
pub mod Creation
pub mod Shown
pub mod Panel
pub mod Marks
pub mod Flight
