-- ===== src/Runs/Screens.antt =====
-- Runs of the screen reader at concrete inputs.
use hwwctl.Prelude.{◌≡◌, refl, List, [], ◌∷◌, All, Text, codes, text_eq, Option, some}
use hwwctl.Protocol.Screen.{
  Value, string, array, object, no_items, item, no_fields, field, get, str_at, set_title, add_line,
  add_button, button_text, extract_buttons, words_of, paragraph_text, add_paragraphs,
  extract_paragraphs, extract_title, extract_lines, extract_own, extract_from_value, concat,
  parse_layout_tokens,
}
use hwwctl.Protocol.Screen.Shown.{shown, first_of}
use hwwctl.Protocol.Screen.Visible.{NonEmpty}
use hwwctl.Protocol.Screen.Laws.{parse_layout_tokens_lem}
use hwwctl.Format.{join}

abbrev labelled : Text → Value
labelled t = object (field (codes "text") (string t) no_fields)

-- The screen of `parse_tokens_confirm_tx`.
abbrev confirm_tx : Value
confirm_tx = object (
    field (codes "component") (string (codes "Frame")) (
      field (codes "title") (string (codes "Confirm Transaction")) (
        field (codes "content")
          (object (
            field (codes "component") (string (codes "FormattedText")) (
              field (codes "paragraphs")
                (array (
                  item (array (item (string (codes "Send 0.001 BTC")) no_items))
                    (item (array (item (string (codes "to bc1q...")) no_items)) no_items)))
                no_fields)))
          (field (codes "buttons")
            (object (
              field (codes "left") (labelled (codes "Cancel"))
                (field (codes "right") (labelled (codes "Confirm")) no_fields)))
            no_fields))))

abbrev parsed : Text → Option Value
parsed s = some confirm_tx

abbrev tokens : List Text
tokens = codes "{\"component\":" ∷ codes "...}" ∷ []

confirm_tx_layout : parse_layout_tokens parsed tokens ≡ record {
  title = codes "Confirm Transaction";
  lines = codes "Send 0.001 BTC" ∷ codes "to bc1q..." ∷ [];
  buttons = codes "Cancel" ∷ codes "Confirm" ∷ [];
}
unfolding parse_layout_tokens concat extract_from_value extract_own extract_title extract_lines
    extract_buttons extract_paragraphs add_paragraphs paragraph_text words_of button_text add_button
    add_line set_title str_at get join text_eq
confirm_tx_layout = refl

parse_layout_tokens_lem_example :
    (parse_layout_tokens parsed tokens ≡ record {
      title = first_of [] (shown confirm_tx).titles;
      lines = (shown confirm_tx).lines;
      buttons = (shown confirm_tx).buttons;
    })
    × All NonEmpty (shown confirm_tx).lines
    × All NonEmpty (shown confirm_tx).buttons
parse_layout_tokens_lem_example =
    parse_layout_tokens_lem parsed tokens confirm_tx (unfold concat in refl) refl
