-- ===== src/Card/Display.antt =====
-- web/src/components/StoryboardCard.jsx: which of the texts of an event its card shows.
use text.Mathlib.TextLemmas.{cons-append, cons≢nil}
use webhook_listener.Prelude.{
  ◌≡◌, sym, ◌∙◌, ◌≢◌, true, false, not, ◌&&◌, String, ◌==◌, eq_iff, arith, if◌then◌else◌,
}
use webhook_listener.Js.Value.{str, to_text, ◌or◌, ◌⧺◌}
use webhook_listener.Js.Engine.{Engine}
use webhook_listener.Async.Steps.{OnTest, case_test}
use webhook_listener.Card.{
  CardEvent, format_payload, display_text, display_source, has_raw_behind, first_text,
}

received-nonempty : (s : String) → "Received " ⧺ s ≢ ""
received-nonempty s h = cons≢nil (sym (cons-append "R" "eceived " s) ∙ h)

abbrev label_of : String → String
label_of p = if p == "" then "Raw" else "Processed"

first_text-shown :
    (p r d : String)
    → d ≢ ""
    → (first_text p (first_text r d) ≢ "")
      × (OnTest
          (not (p == "") && not (r == "") && not (r == p))
          ((label_of p ≡ "Processed") × (first_text p (first_text r d) ≢ r))
          Unit)
first_text-shown p r d h = (
  ground (arith, eq_iff p "", eq_iff r "", eq_iff d "", eq_iff r p),
  case_test (not (p == "") && not (r == "") && not (r == p)) _ _
      (λ t. ground (arith, eq_iff p "", eq_iff r "", eq_iff d "", eq_iff r p)) (λ t. tt),
)

module _ ⦃js : Engine⦄ where
  -- A card never shows an empty text. Where it says that a raw payload stands behind the summary,
  -- the text shown is the processed one and is not the raw payload's.
  pub display_text-shown :
      (event : CardEvent)
      → (display_text event ≢ "")
        × (OnTest
            (has_raw_behind event)
            ((display_source event ≡ "Processed")
              × (display_text event ≢ format_payload event.raw_payload false))
            Unit)
  unfolding display_text display_source has_raw_behind
  display_text-shown event =
      first_text-shown (format_payload event.processed_text true)
        (format_payload event.raw_payload false)
        ("Received " ⧺ to_text (event.type_key or str "webhook") ⧺ " payload.")
        (received-nonempty (to_text (event.type_key or str "webhook") ⧺ " payload."))
