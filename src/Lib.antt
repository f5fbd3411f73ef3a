-- ===== src/Lib.antt =====
-- The browser console and the edge worker of AgentHook.
--
-- The program has three parts. The console (web/src/App.jsx, web/src/context/AuthContext.jsx and
-- web/src/components) is a React application: each tab keeps its state in `useState` hooks, and its
-- handlers call the server by `apiRequest` and set that state when a reply arrives. The worker
-- (cloudflare-worker-root/index.js) stands before the server and decides for every request whether
-- the origin or the static site answers it. The server, written in Go, is not modelled: its replies
-- are arbitrary here.
--
-- Files:
--   Prelude          shared names, Boolean tests and lists over the native numbers
--   Js               values, texts, dictionaries and objects of the language, and the record
--                    `Engine` of the built-ins that the console calls
--   Async            handlers as trees of actions, and their runs; Async/Stage, a component with
--                    the handlers that wait; Async/Flight, flags that one handler holds, and
--                    properties that every handler keeps
--   View             what a component renders, and the events that a user can send by it;
--                    View/Parts, Panel to CopyButton and StatusBadge of web/src/App.jsx
--   Json, Api        web/src/App.jsx, safeJSONParse to payloadPreview, and apiRequest
--   Profile          web/src/App.jsx, normalizeAppProfile and the addresses made from the profile
--   Auth             web/src/context/AuthContext.jsx, and SingleTenantLogin of web/src/App.jsx
--   Console          web/src/App.jsx, App; web/src/components/SideDrawer.jsx and TopAppBar.jsx
--   Card             web/src/components/StoryboardCard.jsx
--   Tabs             web/src/App.jsx, IntegrationSecretsTab, IntegrationsTab, ApiTokensTab and
--                    BYOKSettings
--   Skills, Urls     web/src/App.jsx, SkillsTab and UrlsTab
--   Worker           cloudflare-worker-root/index.js
--   Pages            web/src/App.jsx, enterprisePrefillURL, HeartbeatTab and the handlers of
--                    HomeDashboard; web/src/components/Metrics.jsx
--   Script           scripts/e2e/agenthook_prod_browser.mjs, parseArgs and requireArg
--   Tests            concrete runs
-- A handler has the name of the function in the source, in lower case with underscores. Its state is
-- a record with one field for each `useState` hook. The module Panel of a component has its events,
-- the view of a state, and `on_event`, the handlers of the controls; the module Flight has what holds
-- of the component on the page.
--
-- How the language is read. A number is kept as the decimal text that String(…) gives for it. An
-- object is a list of its own properties; a property of the prototype is not seen. What the source
-- leaves to the engine, JSON.parse, JSON.stringify, encodeURIComponent and the like, is a field of
-- `Engine`, and nothing is assumed of it but where a statement says so.
-- An asynchronous handler is an `Act`: it sets state, sends a request, asks the user, waits, returns
-- or throws. `exec` runs it against a list of turns, one for each wait; a turn is the reply, the
-- answer of the user, and what other handlers did to the state meanwhile. What a handler reads of the
-- state is what its closure captured, so it takes that as an argument, and `setX(f)` changes the
-- state as it then is. Promise.allSettled and Promise.all are interleavings that the turns choose. A
-- run has no fuel: it ends, or it waits because the list of turns is over.
-- A `View` lists the texts and controls of a render in the order of the document. A `Component` is a
-- first state, the effects of the first render, a view, its handlers and the effects that may run
-- again; `Reach` leads from its first stage by clicks on controls that the view offers, by effects,
-- and by resuming one waiting handler with any reply, answer or choice. A disabled button offers
-- nothing. A click reads the state of the last render, which is the current one: React renders before
-- the next event. A component that is taken off the page is not modelled.
-- A read of a property is `prop`, which gives undefined for null too, as v?.k does. Where the source
-- writes v.k in a handler, and v may be a row of the server that is null, the handler throws first. A
-- render or an updater of a state that reads a property of null takes the component off the page, so
-- that is not modelled; the reply to the creation of a listener and the rows that are shown are taken
-- not to be null.
-- The worker takes the origin, the assets and the parsing of a URL as parameters; a reference that
-- begins with one slash keeps the scheme and the authority of the base, and one that begins with two
-- is handed to the parser behind the scheme of the base, as the URL standard has it.
--
-- Not modelled: layout, styles, icons, placeholders and animations; the texts of the landing,
-- documentation and enterprise pages; what the script under scripts/e2e does in the browser; the
-- bundled assets, which are generated; the Go server and its database.
pub mod Prelude
pub mod Js
pub mod View
pub mod Async
pub mod Json
pub mod Api
pub mod Profile
pub mod Worker
pub mod Tabs
pub mod Skills
pub mod Urls
pub mod Console
pub mod Auth
pub mod Card
pub mod Pages
pub mod Script
pub mod Tests
