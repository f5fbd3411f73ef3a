-- ===== src/View/Parts.antt =====
-- web/src/App.jsx: the parts that the pages share, `Panel`, `FormField`, `TextInput`, `TextArea`,
-- `Select`, `InlineNotice`, `CopyButton` and `StatusBadge`.
use webhook_listener.Prelude.{false, not, String, ◌==◌, if◌then◌else◌}
use webhook_listener.Js.Value.{Value, str}
use webhook_listener.Async.{Act, ◌>>◌, throw, await, failed, responded}
use webhook_listener.Async.Steps.{set_state}
use webhook_listener.View.{View, ◌&◌, text, value, button, input, shown_if}

module _ {M : Type 0} where
  abbrev pub panel : (title subtitle : String) (action children : View M) → View M
  panel title subtitle action children =
      text title & shown_if (not (subtitle == "")) (text subtitle) & action & children

  abbrev pub form_field : (label : String) (child : View M) → View M
  form_field label child = text label & child

  abbrev pub hinted_field : (label : String) (child : View M) (hint : String) → View M
  hinted_field label child hint = text label & child & shown_if (not (hint == "")) (text hint)

  abbrev pub text_input : String → (String → M) → View M
  text_input content change = input (str content) change

  abbrev pub text_area : String → (String → M) → View M
  text_area content change = input (str content) change

  -- Its tone is a colour.
  abbrev pub inline_notice : String → View M
  inline_notice message = text message

  abbrev pub copy_button : (copied copy_key : String) → M → View M
  copy_button copied copy_key press =
      button (if copied == copy_key then "Check" else "Copy") false press

  -- Its colours and its pulse depend on the status.
  abbrev pub status_badge : Value → View M
  status_badge status = value status

module _ {S : Type 0} where
  -- The click of a copy button: the clipboard takes the text, and the mark that says so goes after
  -- 1200 milliseconds.
  unfoldable pub copy_text : (String → S → S) → String → Act S Unit
  copy_text set_copied copy_key = await (λ written. elim written [
    | failed e ↦ throw e
    | responded _ _ ↦ do set_state (set_copied copy_key); await (λ timer. set_state (set_copied ""))
  ])
