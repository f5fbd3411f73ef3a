-- ===== src/Console.antt =====
-- web/src/App.jsx, `App`: the shell of the console, which holds the events and the listeners and
-- chooses the tab; and web/src/components/SideDrawer.jsx, which lists the tabs.
pub mod Tabs
pub mod Navigation
pub mod Storyboard
pub mod Reclassify
pub mod Filter
pub mod Panel
