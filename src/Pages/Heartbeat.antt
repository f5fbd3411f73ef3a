-- ===== src/Pages/Heartbeat.antt =====
-- web/src/App.jsx, `HeartbeatTab`: what the page shows. Its button writes the command to the clipboard.
use webhook_listener.Prelude.{false}
use webhook_listener.Js.Value.{Value}
use webhook_listener.Js.Engine.{Engine}
use webhook_listener.Async.{Result}
use webhook_listener.Async.Steps.{map_result}
use webhook_listener.View.{View, ◌&◌, text, value, button, link}
use webhook_listener.Pages.{setup_command}

module _ {M : Type 0} (copy_command : M) where
  abbrev pub concept : View M
  concept =
      text "Autonomous Heartbeat"
      & text "Hermes Powered"
      & text "The Concept"
      & text
          "Configure AgentHermes to act as your autonomous operations agent. It will wake up every 5 minutes, fetch your latest webhooks, analyze them for meaningful signals, and email you a summary only when action is needed."
      & text "Self-Learning"
      & text
          "Encountered a new webhook? Hermes uses Codex to generate a deterministic Python processor on the fly, saving it to your local processors/ library for future use."
      & text "Zero Noise"
      & text
          "If the store is empty or the events are heartbeats, Hermes remains completely silent. You only get an email when there is a summary worth reading."

  abbrev pub prerequisites : View M
  prerequisites =
      text "Prerequisites"
      & text "Node.js installed (v18+)"
      & text "AgentHermes installed: npm install -g @nousresearch/hermes-agent"
      & text "Your AGENTHOOK_TOKEN and AGENTMAIL_API_KEY ready"

  unfoldable pub heartbeat_page : Value → View M
  heartbeat_page command =
      concept
      & text "One-Click Setup"
      & text
          "Run this command in your terminal to download and configure the heartbeat agent automatically."
      & value command
      & button "" false copy_command
      & link "Download Script (.sh)" "/setup_hermes_heartbeat.sh"
      & link "About AgentHermes" "https://hermes-agent.nousresearch.com/"
      & prerequisites

  -- The render throws where the address of the profile cannot be read.
  unfoldable pub heartbeat_view : ⦃js : Engine⦄ → Value → Result (View M)
  unfolding heartbeat_page setup_command
  heartbeat_view profile = map_result (setup_command profile) heartbeat_page
