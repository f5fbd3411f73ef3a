-- ===== src/Skills.antt =====
-- web/src/App.jsx, `SkillsTab`: the skills of each listener, the packs that install them, the
-- resolver's test bench and the re-run of recent events.
pub mod State
pub mod Packs
pub mod Effects
pub mod Editing
pub mod Install
pub mod Bench
pub mod Events
pub mod Counts
pub mod Stale
pub mod Missing
pub mod Selection
pub mod Panel
pub mod Rerun
pub mod Flight
