-- ===== src/Protocol/Screen/Shown.antt =====
-- crates/protocol/src/trezor_debug.rs: what a JSON value shows, described without an accumulator.
use hwwctl.Prelude.{List, [], ◌∷◌, ◌++◌, Text, codes, text_eq, Option, none, some, if◌then◌else◌}
use hwwctl.Protocol.Screen.{
  Value, null, bool, number, string, array, object, Items, no_items, item, Fields, no_fields, field,
  get, as_object, str_at, is_empty, button_at, paragraph_text, bracketed,
}

-- What a part of the value shows, in order.
pub record Shown : Type 0 where
  pub titles : List Text
  pub lines : List Text
  pub buttons : List Text

abbrev pub nothing : Shown
nothing = record { titles = []; lines = []; buttons = [] }

infixr 60 ◌⊕◌
abbrev pub ◌⊕◌ : Shown → Shown → Shown
a ⊕ b = record {
  titles = a.titles ++ b.titles;
  lines = a.lines ++ b.lines;
  buttons = a.buttons ++ b.buttons;
}

abbrev pub visible : Option Text → List Text
visible none = []
visible (some t) = if is_empty t then [] else t ∷ []

abbrev pub title : Option Text → Shown
title o = record nothing { titles = visible o }

abbrev pub line : Option Text → Shown
line o = record nothing { lines = visible o }

abbrev pub button : Option Text → Shown
button o = record nothing { buttons = visible o }

-- The first text that is not empty.
unfoldable pub first_of : Text → List Text → Text
first_of t [] = t
first_of t (u ∷ us) = if is_empty t then first_of u us else t

abbrev pub shown_buttons : Option Fields → Shown
shown_buttons none = nothing
shown_buttons (some bs) =
    button (button_at (get (codes "left") bs))
    ⊕ button (button_at (get (codes "middle") bs))
    ⊕ button (button_at (get (codes "right") bs))

unfoldable pub shown_paragraphs : Items → Shown
shown_paragraphs no_items = nothing
shown_paragraphs (item p vs) = line (paragraph_text p) ⊕ shown_paragraphs vs

abbrev pub shown_array : Option Value → Shown
shown_array none = nothing
shown_array (some (array vs)) = shown_paragraphs vs
shown_array (some null) = nothing
shown_array (some (bool b)) = nothing
shown_array (some (number n)) = nothing
shown_array (some (string s)) = nothing
shown_array (some (object fs)) = nothing

-- The titles in the order of their preference, the buttons from left to right, the lines from the top.
unfoldable pub shown_own : Fields → Shown
shown_own obj =
    (title (str_at (codes "title") obj)
      ⊕ title (str_at (codes "subtitle") obj)
      ⊕ title (str_at (codes "label") obj)
      ⊕ title (str_at (codes "component") obj))
    ⊕ shown_buttons (as_object (get (codes "buttons") obj))
    ⊕ shown_array (get (codes "paragraphs") obj)
    ⊕ line (str_at (codes "description") obj)
    ⊕ line (str_at (codes "text") obj)
    ⊕ line (str_at (codes "value") obj)
    ⊕ line (bracketed (str_at (codes "notification") obj))

-- The same for a value, its fields and its items.
unfoldable mutual
  pub shown : Value → Shown
  shown (object obj) =
      shown_own obj
      ⊕ shown_at (codes "content") obj
      ⊕ shown_at (codes "page") obj
      ⊕ shown_at (codes "inner") obj
      ⊕ shown_each (codes "items") obj
      ⊕ shown_each (codes "pages") obj
  shown (array vs) = nothing
  shown null = nothing
  shown (bool b) = nothing
  shown (number n) = nothing
  shown (string s) = nothing

  pub shown_at : Text → Fields → Shown
  shown_at key no_fields = nothing
  shown_at key (field k v fs) =
      let here = shown v in let rest = shown_at key fs in if text_eq k key then here else rest

  pub shown_each : Text → Fields → Shown
  shown_each key no_fields = nothing
  shown_each key (field k v fs) =
      let here = shown_elements v in
      let rest = shown_each key fs in if text_eq k key then here else rest

  pub shown_elements : Value → Shown
  shown_elements (array vs) = shown_items vs
  shown_elements (object obj) = nothing
  shown_elements null = nothing
  shown_elements (bool b) = nothing
  shown_elements (number n) = nothing
  shown_elements (string s) = nothing

  pub shown_items : Items → Shown
  shown_items no_items = nothing
  shown_items (item v vs) = shown v ⊕ shown_items vs
