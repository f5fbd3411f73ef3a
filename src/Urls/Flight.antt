-- ===== src/Urls/Flight.antt =====
-- web/src/App.jsx, `UrlsTab` on the page: listeners are created one at a time.
use webhook_listener.Prelude.{true, ◌≡◌, refl, Bool, false, String, List, [], ◌∷◌, inl, arith, map}
use webhook_listener.Js.Value.{Value}
use webhook_listener.Js.Dict.{Dict}
use webhook_listener.Js.Engine.{Engine}
use webhook_listener.Async.{Act, ◌>>=◌, catch, finally}
use webhook_listener.Async.Stage.{Stage, Component, Reach}
use webhook_listener.Async.Flight.{Quiet, Holds, Ends, Takes}
use webhook_listener.Async.Flight.Rules.{
  quiet_rules, Quiet-finally, Holds-finally, Quiet-settle_both,
}
use webhook_listener.Async.Flight.Single.{Guarded, Exclusive, Duty, Reach-Exclusive}
use webhook_listener.Api.{api_request}
use webhook_listener.Api.Quiet.{api_request-Quiet}
use webhook_listener.View.Parts.{copy_text}
use webhook_listener.View.Safe.{Safe, Safe-Offers, safe_rules}
use webhook_listener.Urls.State.{State, Draft, follow_user, follow_profile}
use webhook_listener.Urls.Identities.{fetch_webhook_identities, change_identity_status}
use webhook_listener.Urls.Listeners.{
  fetch_secrets, settle_all, load_all, delete_listener, create_listener, update_public_alias,
  create_secret,
}
use webhook_listener.Urls.Panel.Cards.{
  Event, Page, type_alias, choose_provider, type_listener_id, choose_action, choose_mode,
  type_secret, check_fallback, press_alias, press_create, refresh_listeners, refresh_identities,
  press_json, press_delete, press_secret, press_copy, draft_mode, type_draft, press_status,
  listener_card, identity_row, listener_urls, draft_fields, history_row,
}
use webhook_listener.Urls.Panel.{
  Effect, on_listeners, on_user, on_profile, urls_view, urls_tab, on_event, alias_panel,
  create_panel, secret_choice, identities_panel,
}

abbrev pub busy : State → Bool
busy s = s.submitting

module _ ⦃js : Engine⦄ where
  fetch_webhook_identities-Quiet : Quiet busy fetch_webhook_identities
  unfolding fetch_webhook_identities Quiet ◌>>=◌ catch finally api_request
  fetch_webhook_identities-Quiet = ground arith

  change_identity_status-Quiet :
      (id : Value) (next : String) → Quiet busy (change_identity_status id next)
  unfolding change_identity_status Quiet ◌>>=◌ catch finally api_request
  change_identity_status-Quiet id next = ground arith

  fetch_secrets-Quiet : (listener : Value) → Quiet busy (fetch_secrets listener)
  unfolding fetch_secrets Quiet ◌>>=◌ catch finally api_request
  fetch_secrets-Quiet listener = ground arith

  create_secret-Quiet :
      (composer : Dict Draft) (listener : Value) → Quiet busy (create_secret composer listener)
  unfolding create_secret Quiet ◌>>=◌ catch finally api_request
  create_secret-Quiet composer listener = ground arith

  copy_text-Quiet : (key : String) → Quiet busy (copy_text (λ k t. t) key)
  unfolding copy_text Quiet ◌>>=◌
  copy_text-Quiet key = ground arith

  settle_all-Quiet : (ls : List Value) → Quiet busy (settle_all (map fetch_secrets ls))
  unfolding settle_all Quiet
  settle_all-Quiet [] = tt
  settle_all-Quiet (l ∷ ls) =
      Quiet-settle_both busy (fetch_secrets l) _ (fetch_secrets-Quiet l) (settle_all-Quiet ls)

  load_all-Quiet : (ls : List Value) → Quiet busy (load_all ls)
  unfolding load_all Quiet ◌>>=◌
  load_all-Quiet [] = fetch_webhook_identities-Quiet
  load_all-Quiet (l ∷ ls) =
      Quiet-settle_both busy fetch_webhook_identities _ fetch_webhook_identities-Quiet
        ((λ s. refl), Quiet-finally busy _ _ (settle_all-Quiet (l ∷ ls)) (λ s. refl))

  module _ (refresh : Act State Unit) (refresh_quiet : Quiet busy refresh) where
    delete_listener-Quiet : (listener : Value) → Quiet busy (delete_listener refresh listener)
    unfolding delete_listener
    delete_listener-Quiet listener =
        search (quiet_rules, refresh_quiet, api_request-Quiet, fetch_webhook_identities-Quiet) depth
          30

    update_public_alias-Quiet : (draft : Value) → Quiet busy (update_public_alias refresh draft)
    unfolding update_public_alias
    update_public_alias-Quiet draft =
        search (quiet_rules, refresh_quiet, api_request-Quiet) depth 30

    create_listener-Takes : (s : State) → Takes busy (create_listener refresh s)
    unfolding create_listener Takes Holds Ends ◌>>=◌
    create_listener-Takes s = (
      (λ t. refl),
      inl (
        (λ t. refl),
        Holds-finally busy _ _
            (search (quiet_rules, refresh_quiet, api_request-Quiet, fetch_webhook_identities-Quiet)
              depth 30)
            (λ t. refl),
      ),
    )

    -- Only the button that creates a listener waits for the flag.
    abbrev Needs : State → Event → Type 0
    Needs s press_create = busy s ≡ false
    Needs s m = Unit

    abbrev pub creates : State → Event → Bool
    creates s press_create = true
    creates s m = false

    on_event-Duty :
        (s : State) (m : Event) → Needs s m → Duty busy (creates s m) s (on_event refresh s m)
    unfolding on_event Quiet
    on_event-Duty s press_create h = (h, create_listener-Takes s)
    on_event-Duty s press_alias h = (update_public_alias-Quiet s.public_alias_draft)
    on_event-Duty s refresh_listeners h = (search (quiet_rules, refresh_quiet) depth 30)
    on_event-Duty s refresh_identities h =
        (search (quiet_rules, fetch_webhook_identities-Quiet) depth 30)
    on_event-Duty s (press_delete listener) h = (delete_listener-Quiet listener)
    on_event-Duty s (press_secret listener) h = (create_secret-Quiet s.secret_composer listener)
    on_event-Duty s (press_status id next) h = (change_identity_status-Quiet id next)
    on_event-Duty s (press_copy key) h = (copy_text-Quiet key)
    on_event-Duty s press_json h = tt
    on_event-Duty s (type_alias v) h = ((λ t. refl), tt)
    on_event-Duty s (choose_provider v) h = ((λ t. refl), tt)
    on_event-Duty s (type_listener_id v) h = ((λ t. refl), tt)
    on_event-Duty s (choose_action v) h = ((λ t. refl), tt)
    on_event-Duty s (check_fallback b) h = ((λ t. refl), tt)
    on_event-Duty s (choose_mode mode) h = ((λ t. refl), tt)
    on_event-Duty s (type_secret v) h = ((λ t. refl), tt)
    on_event-Duty s (draft_mode key draft mode) h = ((λ t. refl), tt)
    on_event-Duty s (type_draft key draft v) h = ((λ t. refl), tt)

    module _ (page : Page) (listeners : List Value) where
      listener_card-Safe : (s : State) (l : Value) → Safe (Needs s) (listener_card page s l)
      unfolding listener_card listener_urls draft_fields history_row
      listener_card-Safe s l = search (safe_rules, tt) depth 40

      identity_row-Safe : (s : State) (b i : Value) → Safe (Needs s) (identity_row page b i)
      unfolding identity_row
      identity_row-Safe s b i = search (safe_rules, tt) depth 40

      urls_view-Safe : (s : State) → Safe (Needs s) (urls_view page listeners s)
      unfolding urls_view alias_panel create_panel secret_choice identities_panel
      urls_view-Safe s = search (safe_rules, listener_card-Safe s, identity_row-Safe s, tt) depth 40

      module _ (user profile : Value) where
        abbrev tab : Component State Event
        tab = urls_tab page user profile listeners refresh

        Effect-Quiet : (a : Act State Unit) → Effect a → Quiet busy a
        unfolding Quiet follow_user follow_profile
        Effect-Quiet a (on_listeners ls) = load_all-Quiet ls
        Effect-Quiet a (on_user u) = ((λ t. refl), tt)
        Effect-Quiet a (on_profile p) = ((λ t. refl), tt)

        urls-Guarded : Guarded busy tab creates
        unfolding urls_tab
        urls-Guarded = record {
          down = refl;
          opens = (
            Effect-Quiet _ (on_user user),
            (Effect-Quiet _ (on_profile profile), (load_all-Quiet listeners, tt)),
          );
          clicks = λ s m o. on_event-Duty s m (Safe-Offers (urls_view-Safe s) o);
          effects = λ s a e. Effect-Quiet a e;
        }

        -- If refreshing the listeners leaves the mark alone: in every state that the tab
        -- can reach, by any sequence of clicks, replies and answers: a press of the
        -- button that creates a listener is offered only while its mark is down, the
        -- creation puts the mark up first, and takes it down when it neither sends nor
        -- waits any more; no other control and no effect ever touches the mark; so at
        -- most one creation is under way, the mark is up exactly while one waits, and it
        -- comes down, whatever the handlers wait for.
        pub urls-IsSingle : (t : Stage State) → Reach tab t → Exclusive busy tab creates t
        urls-IsSingle t r = Reach-Exclusive busy tab creates urls-Guarded t r
