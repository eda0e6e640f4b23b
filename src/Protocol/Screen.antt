-- ===== src/Protocol/Screen.antt =====
-- crates/protocol/src/trezor_debug.rs: what a screen shows, read from the JSON of its tokens. The JSON
-- parser is serde_json's and an argument; a `Value` is what it gives, the key of an object once.
pub mod Shown
pub mod Visible
pub mod Laws
use hwwctl.Prelude.{
  ℕ, List, [], ◌∷◌, ◌++◌, Text, codes, text_eq, Bool, true, false, Option, none, some,
  if◌then◌else◌,
}
use hwwctl.Format.{join}

mutual
  pub data Value : Type 0 where
    null : Value
    bool : Bool → Value
    number : Text → Value
    string : Text → Value
    array : Items → Value
    object : Fields → Value

  pub data Items : Type 0 where
    no_items : Items
    item : Value → Items → Items

  pub data Fields : Type 0 where
    no_fields : Fields
    field : Text → Value → Fields → Fields

-- `Map::get`
unfoldable pub get : Text → Fields → Option Value
get key no_fields = none
get key (field k v fs) = let rest = get key fs in if text_eq k key then some v else rest

abbrev pub as_str : Option Value → Option Text
as_str (some (string s)) = some s
as_str _ = none

abbrev pub as_object : Option Value → Option Fields
as_object (some (object fs)) = some fs
as_object _ = none

unfoldable pub str_at : Text → Fields → Option Text
str_at key fs = as_str (get key fs)

pub record ParsedLayout : Type 0 where
  pub title : Text
  pub lines : List Text
  pub buttons : List Text

abbrev pub no_layout : ParsedLayout
no_layout = record { title = []; lines = []; buttons = [] }

abbrev pub is_empty {ℓ} : {A : Type ℓ} → List A → Bool
is_empty [] = true
is_empty (c ∷ t) = false

-- The title is set once, to a text that is not empty.
unfoldable pub set_title : Option Text → ParsedLayout → ParsedLayout
set_title none l = l
set_title (some t) l =
    if is_empty l.title then (if is_empty t then l else record l { title = t }) else l

unfoldable pub add_line : Option Text → ParsedLayout → ParsedLayout
add_line none l = l
add_line (some t) l = if is_empty t then l else record l { lines = l.lines ++ (t ∷ []) }

unfoldable pub add_button : Option Text → ParsedLayout → ParsedLayout
add_button none l = l
add_button (some t) l = if is_empty t then l else record l { buttons = l.buttons ++ (t ∷ []) }

-- An object with a text, or just a string.
unfoldable pub button_text : Value → Option Text
button_text (object fs) = str_at (codes "text") fs
button_text (string s) = some s
button_text v = none

abbrev pub button_at : Option Value → Option Text
button_at none = none
button_at (some btn) = button_text btn

unfoldable pub extract_buttons : Option Fields → ParsedLayout → ParsedLayout
extract_buttons none l = l
extract_buttons (some buttons) l = add_button (button_at (get (codes "right") buttons)) (
    add_button (button_at (get (codes "middle") buttons))
      (add_button (button_at (get (codes "left") buttons)) l))

unfoldable pub words_of : Items → List Text
words_of no_items = []
words_of (item (string s) vs) = s ∷ words_of vs
words_of (item v vs) = words_of vs

-- Anything else than words or a string is passed over.
unfoldable pub paragraph_text : Value → Option Text
paragraph_text (array words) = some (join (codes " ") (words_of words))
paragraph_text (string s) = some s
paragraph_text v = none

unfoldable pub add_paragraphs : Items → ParsedLayout → ParsedLayout
add_paragraphs no_items l = l
add_paragraphs (item para vs) l = add_paragraphs vs (add_line (paragraph_text para) l)

unfoldable pub extract_paragraphs : Option Value → ParsedLayout → ParsedLayout
extract_paragraphs (some (array paras)) l = add_paragraphs paras l
extract_paragraphs v l = l

abbrev pub bracketed : Option Text → Option Text
bracketed none = none
bracketed (some t) = if is_empty t then none else some (codes "[" ++ (t ++ codes "]"))

unfoldable pub extract_title : Fields → ParsedLayout → ParsedLayout
extract_title obj l = set_title (str_at (codes "component") obj) (
    set_title (str_at (codes "label") obj)
      (set_title (str_at (codes "subtitle") obj) (set_title (str_at (codes "title") obj) l)))

unfoldable pub extract_lines : Fields → ParsedLayout → ParsedLayout
extract_lines obj l = add_line (bracketed (str_at (codes "notification") obj)) (
    add_line (str_at (codes "value") obj) (
      add_line (str_at (codes "text") obj) (
        add_line (str_at (codes "description") obj)
          (extract_paragraphs (get (codes "paragraphs") obj) l))))

-- What an object itself shows.
unfoldable pub extract_own : Fields → ParsedLayout → ParsedLayout
extract_own obj l =
    extract_lines obj
      (extract_buttons (as_object (get (codes "buttons") obj)) (extract_title obj l))

-- `extract_at` goes into the value of a key, `extract_each` into the values of an array there.
unfoldable mutual
  pub extract_from_value : Value → ParsedLayout → ParsedLayout
  extract_from_value (object obj) l = extract_each (codes "pages") obj (
      extract_each (codes "items") obj (
        extract_at (codes "inner") obj
          (extract_at (codes "page") obj (extract_at (codes "content") obj (extract_own obj l)))))
  extract_from_value null l = l
  extract_from_value (bool b) l = l
  extract_from_value (number n) l = l
  extract_from_value (string s) l = l
  extract_from_value (array vs) l = l

  pub extract_at : Text → Fields → ParsedLayout → ParsedLayout
  extract_at key no_fields l = l
  extract_at key (field k v fs) l =
      let here = extract_from_value v l in
      let rest = extract_at key fs l in if text_eq k key then here else rest

  pub extract_each : Text → Fields → ParsedLayout → ParsedLayout
  extract_each key no_fields l = l
  extract_each key (field k v fs) l =
      let here = extract_array v l in
      let rest = extract_each key fs l in if text_eq k key then here else rest

  pub extract_array : Value → ParsedLayout → ParsedLayout
  extract_array (array vs) l = extract_items vs l
  extract_array null l = l
  extract_array (bool b) l = l
  extract_array (number n) l = l
  extract_array (string s) l = l
  extract_array (object fs) l = l

  pub extract_items : Items → ParsedLayout → ParsedLayout
  extract_items no_items l = l
  extract_items (item v vs) l = extract_items vs (extract_from_value v l)

unfoldable pub concat : List Text → Text
concat [] = []
concat (t ∷ ts) = t ++ concat ts

-- Tokens that are no JSON are taken for plain lines.
unfoldable pub parse_layout_tokens : (Text → Option Value) → List Text → ParsedLayout
parse_layout_tokens from_str tokens =
    let json_str = concat tokens in
    if is_empty json_str then no_layout else (elim (from_str json_str) [
      | none ↦ record { title = []; lines = tokens; buttons = [] }
      | some value ↦ extract_from_value value no_layout
    ])
