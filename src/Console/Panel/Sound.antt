-- ===== src/Console/Panel/Sound.antt =====
-- What the controls of the console ask for.
use webhook_listener.View.Safe.{of_both, of_nothing, Safe, safe_rules}
use webhook_listener.Console.Panel.{
  map_result, Page, event_cards, storyboard_head, storyboard, main_page, frame, console_view,
}
use webhook_listener.Prelude.{
  ◌&&◌, if◌then◌else◌, ◌≡◌, Bool, true, false, String, ◌==◌, List, [], ◌∷◌,
}
use webhook_listener.Js.Value.{Value, to_text}
use webhook_listener.Js.Dict.{get_or}
use webhook_listener.Js.Engine.{Engine}
use webhook_listener.Async.{Result, ok, err}
use webhook_listener.View.{View, nothing, ◌&◌, each}
use webhook_listener.Card.{is_marketing}
use webhook_listener.Card.Panel.{
  CardProps, card_view, card_props, card_body, content, toggle_button,
}
use webhook_listener.Console.Tabs.{drawer_tabs, is_valid_tab}
use webhook_listener.Console.Storyboard.{State}
use webhook_listener.Console.Panel.Bars.{
  Event, toggle_card, choose_tab, press_tag, press_reclassify, side_drawer, top_app_bar,
  enterprise_banner,
}

-- The mark of the event with the key `k`.
unfoldable pub marked : String → State → Bool
marked k s = get_or k false s.reclassifying_event_ids

-- A control that chooses a tab chooses a valid one, and the button that reclassifies an event waits
-- for the mark of that event.
abbrev pub Sound : State → Event → Type 0
Sound s (choose_tab id) = is_valid_tab id ≡ true
Sound s (press_reclassify id) = marked (to_text id) s ≡ false
Sound s m = Unit

-- The controls that the pages and the metrics put on the console are sound.
pub record PagesAreSound (page : Page) : Type 0 where
  pub content : (s : State) (tab : String) → Safe (Sound s) (page.content tab)
  pub metrics : (s : State) → Safe (Sound s) page.metrics

module _ ⦃js : Engine⦄ where
  side_drawer-Safe :
      (s : State) (is_open single_tenant : Bool)
      → Safe (Sound s) (side_drawer is_open single_tenant)
  unfolding side_drawer drawer_tabs each is_valid_tab
  side_drawer-Safe s is_open true = search (safe_rules, tt) depth 40
  side_drawer-Safe s is_open false = search (safe_rules, tt) depth 40

  module _ (page : Page) (pages_sound : PagesAreSound page) where
    card_body-Safe :
        (s : State) (b e : Bool) (p : CardProps)
        → (p.reclassifying ≡ false → marked (to_text p.id) s ≡ false)
        → Safe (Sound s) (card_body toggle_card press_tag press_reclassify b e p)
    unfolding card_body content toggle_button
    card_body-Safe s b e p h = search (safe_rules, tt) depth 40

    -- What holds of a view that is there.
    abbrev SafeIfShown : State → Result (View Event) → Type 0
    SafeIfShown s (ok v) = Safe (Sound s) v
    SafeIfShown s (err e) = Unit

    map_result-Safe :
        {A : Type 0} (s : State) (r : Result A) (f : A → View Event)
        → ((a : A) → Safe (Sound s) (f a))
        → SafeIfShown s (map_result r f)
    map_result-Safe s (ok a) f h = h a
    map_result-Safe s (err e) f h = tt

    and_then-Safe :
        (s : State) (r : Result (View Event)) (f : View Event → View Event)
        → SafeIfShown s r
        → ((v : View Event) → Safe (Sound s) v → Safe (Sound s) (f v))
        → SafeIfShown s (map_result r f)
    and_then-Safe s (ok v) f h k = k v h
    and_then-Safe s (err e) f h k = tt

    before-Safe :
        (s : State) (r rest : Result (View Event))
        → SafeIfShown s r
        → SafeIfShown s rest
        → SafeIfShown s (elim r [ ok v ↦ map_result rest (λ cards. v & cards) | err e ↦ err e ])
    before-Safe s (ok v) rest h k = and_then-Safe s rest (λ cards. v & cards) k (λ w. of_both h)
    before-Safe s (err e) rest h k = tt

    event_cards-Safe :
        (s : State) (events : List Value)
        → SafeIfShown s (event_cards page s.reclassifying_event_ids events)
    unfolding event_cards card_view card_props marked
    event_cards-Safe s [] = of_nothing
    event_cards-Safe s (event ∷ events) =
        before-Safe s _ (event_cards page s.reclassifying_event_ids events)
          (map_result-Safe s (is_marketing _) _
            (λ b. card_body-Safe s b (page.expanded event) _ (λ e. e)))
          (event_cards-Safe s events)

    storyboard_head-Safe : (s : State) → Safe (Sound s) (storyboard_head page s)
    unfolding storyboard_head
    storyboard_head-Safe s = search (safe_rules, pages_sound.metrics s, tt) depth 40

    if-Safe :
        (s : State) (b : Bool) (r q : Result (View Event))
        → SafeIfShown s r
        → SafeIfShown s q
        → SafeIfShown s (if b then r else q)
    if-Safe s true r q h k = h
    if-Safe s false r q h k = k

    main_page-Safe : (s : State) → SafeIfShown s (main_page page s)
    unfolding main_page storyboard
    main_page-Safe s =
        if-Safe s (s.active_tab == "storyboard") _ _
          (and_then-Safe s _ _ (event_cards-Safe s s.events)
            (λ v. of_both (storyboard_head-Safe s)))
          (if-Safe s (s.active_tab == "enterprise" && page.single_tenant) _ _ of_nothing
            (pages_sound.content s s.active_tab))

    framed-Safe :
        (s : State) (r : Result (View Event))
        → SafeIfShown s r
        → Safe (Sound s) (elim r [ ok main ↦ frame page s main | err e ↦ nothing ])
    unfolding frame top_app_bar enterprise_banner
    framed-Safe s (ok main) h = search (safe_rules, side_drawer-Safe s, h, tt) depth 40
    framed-Safe s (err e) h = of_nothing

    pub console_view-Safe : (s : State) → Safe (Sound s) (console_view page s)
    unfolding console_view
    console_view-Safe s = framed-Safe s (main_page page s) (main_page-Safe s)
