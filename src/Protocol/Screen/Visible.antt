-- ===== src/Protocol/Screen/Visible.antt =====
-- crates/protocol/src/trezor_debug.rs: no text that a screen shows is empty.
use hwwctl.Prelude.{
  ◌≡◌, refl, [], ◌∷◌, All, All-append, Text, codes, text_eq, Bool, true, false, Option, none, some,
  if◌then◌else◌,
}
use hwwctl.Protocol.Screen.{
  Value, null, bool, number, string, array, object, Items, no_items, item, Fields, no_fields, field,
  get, as_object, str_at, is_empty, button_at, paragraph_text, bracketed,
}
use hwwctl.Protocol.Screen.Shown.{
  Shown, nothing, ◌⊕◌, visible, title, line, button, shown_buttons, shown_paragraphs, shown_array,
  shown_own, shown, shown_at, shown_each, shown_elements, shown_items,
}

abbrev pub NonEmpty : Text → Type 0
NonEmpty t = is_empty t ≡ false

-- No text that is shown is empty.
pub record IsVisible (s : Shown) : Type 0 where
  pub titles : All NonEmpty s.titles
  pub lines : All NonEmpty s.lines
  pub buttons : All NonEmpty s.buttons

visible-NonEmpty : (o : Option Text) → All NonEmpty (visible o)
visible-NonEmpty none = tt
visible-NonEmpty (some []) = tt
visible-NonEmpty (some (c ∷ t)) = (refl, tt)

nothing-IsVisible : IsVisible nothing
nothing-IsVisible = record { titles = tt; lines = tt; buttons = tt }

title-IsVisible : (o : Option Text) → IsVisible (title o)
title-IsVisible o = record { titles = visible-NonEmpty o; lines = tt; buttons = tt }

line-IsVisible : (o : Option Text) → IsVisible (line o)
line-IsVisible o = record { titles = tt; lines = visible-NonEmpty o; buttons = tt }

button-IsVisible : (o : Option Text) → IsVisible (button o)
button-IsVisible o = record { titles = tt; lines = tt; buttons = visible-NonEmpty o }

⊕-IsVisible : {a b : Shown} → IsVisible a → IsVisible b → IsVisible (a ⊕ b)
⊕-IsVisible {a} {b} p q = record {
  titles = All-append NonEmpty a.titles b.titles p.titles q.titles;
  lines = All-append NonEmpty a.lines b.lines p.lines q.lines;
  buttons = All-append NonEmpty a.buttons b.buttons p.buttons q.buttons;
}

if-IsVisible : {a b : Shown} (t : Bool) → IsVisible a → IsVisible b → IsVisible (if t then a else b)
if-IsVisible true p q = p
if-IsVisible false p q = q

shown_buttons-IsVisible : (o : Option Fields) → IsVisible (shown_buttons o)
shown_buttons-IsVisible none = nothing-IsVisible
shown_buttons-IsVisible (some bs) =
    ⊕-IsVisible (button-IsVisible (button_at (get (codes "left") bs))) (
      ⊕-IsVisible (button-IsVisible (button_at (get (codes "middle") bs)))
        (button-IsVisible (button_at (get (codes "right") bs))))

shown_paragraphs-IsVisible : (vs : Items) → IsVisible (shown_paragraphs vs)
unfolding shown_paragraphs
shown_paragraphs-IsVisible no_items = nothing-IsVisible
shown_paragraphs-IsVisible (item p vs) =
    ⊕-IsVisible (line-IsVisible (paragraph_text p)) (shown_paragraphs-IsVisible vs)

shown_array-IsVisible : (o : Option Value) → IsVisible (shown_array o)
shown_array-IsVisible none = nothing-IsVisible
shown_array-IsVisible (some (array vs)) = shown_paragraphs-IsVisible vs
shown_array-IsVisible (some null) = nothing-IsVisible
shown_array-IsVisible (some (bool b)) = nothing-IsVisible
shown_array-IsVisible (some (number n)) = nothing-IsVisible
shown_array-IsVisible (some (string s)) = nothing-IsVisible
shown_array-IsVisible (some (object fs)) = nothing-IsVisible

shown_own-IsVisible : (obj : Fields) → IsVisible (shown_own obj)
unfolding shown_own
shown_own-IsVisible obj =
    let lines = ⊕-IsVisible (shown_array-IsVisible (get (codes "paragraphs") obj)) (
      ⊕-IsVisible (line-IsVisible (str_at (codes "description") obj)) (
        ⊕-IsVisible (line-IsVisible (str_at (codes "text") obj)) (
          ⊕-IsVisible (line-IsVisible (str_at (codes "value") obj))
            (line-IsVisible (bracketed (str_at (codes "notification") obj)))))) in
    let titles = ⊕-IsVisible (title-IsVisible (str_at (codes "title") obj)) (
      ⊕-IsVisible (title-IsVisible (str_at (codes "subtitle") obj)) (
        ⊕-IsVisible (title-IsVisible (str_at (codes "label") obj))
          (title-IsVisible (str_at (codes "component") obj)))) in
    ⊕-IsVisible titles
      (⊕-IsVisible (shown_buttons-IsVisible (as_object (get (codes "buttons") obj))) lines)

mutual
  unfolding shown

  shown_value-IsVisible : (v : Value) → IsVisible (shown v)
  shown_value-IsVisible (object obj) = ⊕-IsVisible (shown_own-IsVisible obj) (
      ⊕-IsVisible (shown_at-IsVisible (codes "content") obj) (
        ⊕-IsVisible (shown_at-IsVisible (codes "page") obj) (
          ⊕-IsVisible (shown_at-IsVisible (codes "inner") obj) (
            ⊕-IsVisible (shown_each-IsVisible (codes "items") obj)
              (shown_each-IsVisible (codes "pages") obj)))))
  shown_value-IsVisible (array vs) = nothing-IsVisible
  shown_value-IsVisible null = nothing-IsVisible
  shown_value-IsVisible (bool b) = nothing-IsVisible
  shown_value-IsVisible (number n) = nothing-IsVisible
  shown_value-IsVisible (string s) = nothing-IsVisible

  shown_at-IsVisible : (key : Text) (obj : Fields) → IsVisible (shown_at key obj)
  shown_at-IsVisible key no_fields = nothing-IsVisible
  shown_at-IsVisible key (field k v fs) =
      if-IsVisible (text_eq k key) (shown_value-IsVisible v) (shown_at-IsVisible key fs)

  shown_each-IsVisible : (key : Text) (obj : Fields) → IsVisible (shown_each key obj)
  shown_each-IsVisible key no_fields = nothing-IsVisible
  shown_each-IsVisible key (field k v fs) =
      if-IsVisible (text_eq k key) (shown_elements-IsVisible v) (shown_each-IsVisible key fs)

  shown_elements-IsVisible : (v : Value) → IsVisible (shown_elements v)
  shown_elements-IsVisible (array vs) = shown_items-IsVisible vs
  shown_elements-IsVisible (object obj) = nothing-IsVisible
  shown_elements-IsVisible null = nothing-IsVisible
  shown_elements-IsVisible (bool b) = nothing-IsVisible
  shown_elements-IsVisible (number n) = nothing-IsVisible
  shown_elements-IsVisible (string s) = nothing-IsVisible

  shown_items-IsVisible : (vs : Items) → IsVisible (shown_items vs)
  shown_items-IsVisible no_items = nothing-IsVisible
  shown_items-IsVisible (item v vs) =
      ⊕-IsVisible (shown_value-IsVisible v) (shown_items-IsVisible vs)

pub shown-IsVisible : (v : Value) → IsVisible (shown v)
shown-IsVisible v = shown_value-IsVisible v
