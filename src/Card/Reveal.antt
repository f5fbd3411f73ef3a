-- ===== src/Card/Reveal.antt =====
-- web/src/components/StoryboardCard.jsx: nothing that a card hides is out of reach.
use webhook_listener.Prelude.{
  eq_iff, ◌≡◌, refl, Bool, true, false, not, ◌&&◌, String, ◌⊎◌, inl, inr, arith, Bool-cases,
}
use webhook_listener.Js.Engine.{Engine}
use webhook_listener.Async.Steps.{OnTest, case_test}
use webhook_listener.View.{View, ◌&◌, text, button, shown_if, Offers}
use webhook_listener.View.Safe.{shown_if-Offers}
use webhook_listener.Card.{CardEvent, display_text, format_payload, has_raw_behind, truncate_lines}
use webhook_listener.Card.Panel.{
  Control, toggle_expanded, card_on, content, toggle_button, max_lines,
}
use webhook_listener.Async.Stage.{after}

-- The text stands somewhere in the view.
unfoldable pub Shows : {M : Type 0} → View M → String → Type 0
Shows (v & w) s = Shows v s ⊎ Shows w s
Shows (text t) s = t ≡ s
Shows v s = ⊥

whole-unless_truncated :
    (s : String)
    → (truncate_lines max_lines s).is_truncated ≡ false
    → (truncate_lines max_lines s).text ≡ s
unfolding truncate_lines
whole-unless_truncated s h = ground (arith, eq_iff s "")

module _ {M : Type 0} where
  shown_if-Shows :
      (b : Bool) (v : View M) (s : String) → b ≡ true → Shows v s → Shows (shown_if b v) s
  unfolding shown_if
  shown_if-Shows b v s e h = rw e h

both_true : (a b : Bool) → a ≡ false → b ≡ true → (not a && b) ≡ true
both_true a b p q = rw (p, q) refl

module _ ⦃js : Engine⦄ {M : Type 0} (toggle : M) where
  toggle_button-offered :
      (event : CardEvent)
      → ((truncate_lines max_lines (display_text event)).is_truncated ≡ true)
        ⊎ (has_raw_behind event ≡ true)
      → Offers (toggle_button toggle false event) toggle
  unfolding toggle_button Offers
  toggle_button-offered event h =
      elim (Bool-cases (truncate_lines max_lines (display_text event)).is_truncated) [
        | inl e ↦ inl (shown_if-Offers _ (button _ false toggle) toggle e (refl, refl))
        | inr e ↦ elim h [
          | inl k ↦ cc
          | inr k ↦
              inr
                (shown_if-Offers _ (button _ false toggle) toggle (both_true _ _ e k) (refl, refl))
        ]
      ]

  -- The same for any event that the toggle sends.
  content-reveals_any :
      (event : CardEvent)
      → Shows (content toggle true event) (display_text event)
        × OnTest
            (has_raw_behind event)
            (Shows (content toggle true event) (format_payload event.raw_payload false))
            Unit
        × ((Shows (content toggle false event) (display_text event)
              × (has_raw_behind event ≡ false))
            ⊎ Offers (content toggle false event) toggle)
  unfolding content Shows Offers
  content-reveals_any event =
      let cut = (truncate_lines max_lines (display_text event)).is_truncated in
      (
        inr (inr (inl refl)),
        case_test (has_raw_behind event) _ _
            (λ h.
              inr (inr (inr (inr (shown_if-Shows _ (text "Raw Payload" & text _) _ h (inr refl))))))
            (λ h. tt),
        elim (Bool-cases cut) [
          | inl e ↦ inr (inr (inr (inr (inl (toggle_button-offered event (inl e))))))
          | inr e ↦ elim (Bool-cases (has_raw_behind event)) [
            | inl k ↦ inr (inr (inr (inr (inl (toggle_button-offered event (inr k))))))
            | inr k ↦ inl (inr (inr (inl (whole-unless_truncated (display_text event) e))), k)
          ]
        ],
      )

module _ ⦃js : Engine⦄ where
  expands : after (card_on false toggle_expanded) false ≡ true
  unfolding card_on after
  expands = refl

  -- An expanded card shows its whole text, and the raw payload if there is one behind it. A card
  -- that is not expanded shows the whole text with no raw payload behind it, or it offers a click
  -- that expands it.
  pub content-reveals :
      (event : CardEvent)
      → Shows (content toggle_expanded true event) (display_text event)
        × OnTest
            (has_raw_behind event)
            (Shows (content toggle_expanded true event) (format_payload event.raw_payload false))
            Unit
        × ((Shows (content toggle_expanded false event) (display_text event)
              × (has_raw_behind event ≡ false))
            ⊎ ((c : Control) × Offers (content toggle_expanded false event) c
                × (after (card_on false c) false ≡ true)))
  content-reveals event =
      let h = content-reveals_any toggle_expanded event in
      (h.0, h.1, elim h.2 [ inl k ↦ inl k | inr k ↦ inr (toggle_expanded, k, expands) ])
