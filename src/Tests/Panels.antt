-- ===== src/Tests/Panels.antt =====
-- Runs of the tabs on the page: the click that takes the mark of a tab.
use webhook_listener.Tests.{sample_engine}
use webhook_listener.Prelude.{◌≡◌, refl, false, String, [], inl, inr}
use webhook_listener.Js.Value.{Value}
use webhook_listener.Async.{◌>>=◌, finally, catch}
use webhook_listener.Async.Stage.{Stage, Reach, Component, here, next, click, begin, opened, after}
use webhook_listener.Async.Flight.Single.{Exclusive}
use webhook_listener.Api.{api_request}
use webhook_listener.View.{Offers}
use webhook_listener.Tabs.Secrets
use webhook_listener.Tabs.Secrets.{fetch_secrets}
use webhook_listener.Tabs.Secrets.Panel as SecretsPanel
use webhook_listener.Tabs.Secrets.Panel.{secrets_tab, secrets_view}
use webhook_listener.Tabs.Secrets.Flight as SecretsFlight
use webhook_listener.Tabs.Secrets.Flight.{secrets-IsSingle}
use webhook_listener.Tabs.Tokens
use webhook_listener.Tabs.Tokens.{fetch_tokens}
use webhook_listener.Tabs.Tokens.Panel as TokensPanel
use webhook_listener.Tabs.Tokens.Panel.{tokens_tab, tokens_view}
use webhook_listener.Tabs.Tokens.Flight as TokensFlight
use webhook_listener.Tabs.Tokens.Flight.{tokens-IsSingle}
use webhook_listener.Tabs.Integrations
use webhook_listener.Tabs.Integrations.{fetch_targets}
use webhook_listener.Tabs.Integrations.Panel.Cards as IntegrationsCards
use webhook_listener.Tabs.Integrations.Panel.{integrations_tab, integrations_view, create_panel}
use webhook_listener.Tabs.Integrations.Flight as IntegrationsFlight
use webhook_listener.Tabs.Integrations.Flight.{integrations-IsSingle}

abbrev pub press : {S M : Type 0} → Component S M → M → Stage S
press c m = begin (c.on (opened c).ui m) (opened c).ui (opened c).running

abbrev pub no_text : Value → String
no_text v = ""

save_secret-offered :
    (s : Secrets.State)
    → s.saving_secret ≡ false
    → Offers (secrets_view [] s) SecretsPanel.press_save
unfolding secrets_view Offers
save_secret-offered s h = inr (inl (inr (inr (inr (inr (inr (inr (inr (inr (inl (h, refl)))))))))))

secret_saved : Reach (secrets_tab []) (press (secrets_tab []) SecretsPanel.press_save)
unfolding secrets_tab fetch_secrets after ◌>>=◌ finally catch api_request
secret_saved = next here (click _ SecretsPanel.press_save (save_secret-offered _ refl))

secrets-IsSingle_example :
    Exclusive SecretsFlight.busy
      (secrets_tab [])
      SecretsFlight.saves
      (press (secrets_tab []) SecretsPanel.press_save)
secrets-IsSingle_example =
    secrets-IsSingle [] (press (secrets_tab []) SecretsPanel.press_save) secret_saved

abbrev integrations : Component Integrations.State IntegrationsCards.Event
integrations = integrations_tab no_text

save_target-offered :
    (s : Integrations.State)
    → s.saving_target ≡ false
    → Offers (integrations_view no_text s) IntegrationsCards.press_save
unfolding integrations_view create_panel Offers
save_target-offered s h =
    inr (inl (inr (inr (inr (inr (inr (inr (inr (inr (inr (inl (h, refl))))))))))))

target_saved : Reach integrations (press integrations IntegrationsCards.press_save)
unfolding integrations_tab fetch_targets Integrations.fetch_secrets after ◌>>=◌ finally catch
    api_request
target_saved = next here (click _ IntegrationsCards.press_save (save_target-offered _ refl))

integrations-IsSingle_example :
    Exclusive IntegrationsFlight.busy integrations IntegrationsFlight.saves
      (press integrations IntegrationsCards.press_save)
integrations-IsSingle_example =
    integrations-IsSingle no_text (press integrations IntegrationsCards.press_save) target_saved

abbrev tokens : Component Tokens.State TokensPanel.Event
tokens = tokens_tab no_text no_text ""

create_token-offered :
    (s : Tokens.State)
    → s.token_busy ≡ false
    → Offers (tokens_view no_text no_text "" s) TokensPanel.press_create
unfolding tokens_view Offers
create_token-offered s h = inr (inr (inr (inr (inr (inl (h, refl))))))

token_created : Reach tokens (press tokens TokensPanel.press_create)
unfolding tokens_tab fetch_tokens after ◌>>=◌ finally catch api_request
token_created = next here (click _ TokensPanel.press_create (create_token-offered _ refl))

tokens-IsSingle_example :
    Exclusive TokensFlight.busy tokens TokensFlight.creates (press tokens TokensPanel.press_create)
tokens-IsSingle_example =
    tokens-IsSingle no_text no_text "" (press tokens TokensPanel.press_create) token_created
