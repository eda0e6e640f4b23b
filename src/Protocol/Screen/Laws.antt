-- ===== src/Protocol/Screen/Laws.antt =====
-- crates/protocol/src/trezor_debug.rs: `extract_from_value` against a description without an accumulator.
use hwwctl.Prelude.{
  ◌≡◌, refl, sym, ◌∙◌, ap, List, [], ◌∷◌, ◌++◌, append-nil, append_assoc, All, Text, codes, text_eq,
  Bool, true, false, Option, none, some, if◌then◌else◌, inl, inr, Bool-cases, arith,
}
use hwwctl.Protocol.Screen.{
  Value, null, bool, number, string, array, object, Items, no_items, item, Fields, no_fields, field,
  ParsedLayout, no_layout, is_empty, set_title, add_line, add_button, extract_buttons,
  paragraph_text, add_paragraphs, extract_paragraphs, extract_title, extract_lines, extract_own,
  extract_from_value, extract_at, extract_each, extract_array, extract_items, concat,
  parse_layout_tokens,
}
use hwwctl.Protocol.Screen.Shown.{
  Shown, nothing, ◌⊕◌, title, line, button, first_of, shown_buttons, shown_paragraphs, shown_array,
  shown_own, shown, shown_at, shown_each, shown_elements, shown_items,
}
use hwwctl.Protocol.Screen.Visible.{NonEmpty, shown-IsVisible}

unfoldable pub apply : Shown → ParsedLayout → ParsedLayout
apply s l = record {
  title = first_of l.title s.titles;
  lines = l.lines ++ s.lines;
  buttons = l.buttons ++ s.buttons;
}

first_of_set : (t : Text) (us : List Text) → is_empty t ≡ false → first_of t us ≡ t
unfolding first_of
first_of_set t [] h = refl
first_of_set t (u ∷ us) h = rw h

first_of-append :
    (t : Text) (us vs : List Text) → first_of t (us ++ vs) ≡ first_of (first_of t us) vs
unfolding first_of
first_of-append t [] vs = refl
first_of-append t (u ∷ us) vs = elim (Bool-cases (is_empty t)) [
  | inl bare ↦ simp bare (first_of-append u us vs)
  | inr set ↦ simp set (sym (first_of_set t vs set))
]

apply-then : (a b : Shown) (l : ParsedLayout) → apply (a ⊕ b) l ≡ apply b (apply a l)
unfolding apply
apply-then a b l = ground (
  arith,
  first_of-append l.title a.titles b.titles,
  append_assoc l.lines a.lines b.lines,
  append_assoc l.buttons a.buttons b.buttons,
)

apply-nothing : (l : ParsedLayout) → apply nothing l ≡ l
unfolding apply first_of
apply-nothing l = ground (arith, append-nil l.lines, append-nil l.buttons)

set_title-eq : (o : Option Text) (l : ParsedLayout) → set_title o l ≡ apply (title o) l
unfolding set_title apply first_of
set_title-eq none l = sym (apply-nothing l)
set_title-eq (some t) l = ground (arith, append-nil l.lines, append-nil l.buttons)

add_line-eq : (o : Option Text) (l : ParsedLayout) → add_line o l ≡ apply (line o) l
unfolding add_line apply first_of
add_line-eq none l = sym (apply-nothing l)
add_line-eq (some t) l = ground (arith, append-nil l.lines, append-nil l.buttons)

add_button-eq : (o : Option Text) (l : ParsedLayout) → add_button o l ≡ apply (button o) l
unfolding add_button apply first_of
add_button-eq none l = sym (apply-nothing l)
add_button-eq (some t) l = ground (arith, append-nil l.lines, append-nil l.buttons)

-- A part of the code adds what a description says.
record Adds (f : ParsedLayout → ParsedLayout) (s : Shown) : Type 0 where
  adds : (l : ParsedLayout) → f l ≡ apply s l

Adds-nothing : Adds (λ l. l) nothing
Adds-nothing = record { adds = λ l. sym (apply-nothing l) }

then-Adds :
    {f g : ParsedLayout → ParsedLayout} {a b : Shown}
    → Adds f a
    → Adds g b
    → Adds (λ l. g (f l)) (a ⊕ b)
then-Adds {f} {g} {a} {b} p q = record {
  adds = λ l. q.adds (f l) ∙ (ap (apply b) (p.adds l) ∙ sym (apply-then a b l));
}

if-Adds :
    {f g : ParsedLayout → ParsedLayout} {a b : Shown} (t : Bool)
    → Adds f a
    → Adds g b
    → Adds (λ l. if t then f l else g l) (if t then a else b)
if-Adds true p q = p
if-Adds false p q = q

set_title_lem : (o : Option Text) → Adds (set_title o) (title o)
set_title_lem o = record { adds = set_title-eq o }

add_line_lem : (o : Option Text) → Adds (add_line o) (line o)
add_line_lem o = record { adds = add_line-eq o }

add_button_lem : (o : Option Text) → Adds (add_button o) (button o)
add_button_lem o = record { adds = add_button-eq o }

extract_buttons-Adds : (o : Option Fields) → Adds (extract_buttons o) (shown_buttons o)
unfolding extract_buttons
extract_buttons-Adds none = Adds-nothing
extract_buttons-Adds (some bs) =
    then-Adds (add_button_lem _) (then-Adds (add_button_lem _) (add_button_lem _))

add_paragraphs-Adds : (vs : Items) → Adds (add_paragraphs vs) (shown_paragraphs vs)
unfolding add_paragraphs shown_paragraphs
add_paragraphs-Adds no_items = Adds-nothing
add_paragraphs-Adds (item p vs) =
    then-Adds (add_line_lem (paragraph_text p)) (add_paragraphs-Adds vs)

extract_paragraphs-Adds : (o : Option Value) → Adds (extract_paragraphs o) (shown_array o)
unfolding extract_paragraphs
extract_paragraphs-Adds none = Adds-nothing
extract_paragraphs-Adds (some (array vs)) = add_paragraphs-Adds vs
extract_paragraphs-Adds (some null) = Adds-nothing
extract_paragraphs-Adds (some (bool b)) = Adds-nothing
extract_paragraphs-Adds (some (number n)) = Adds-nothing
extract_paragraphs-Adds (some (string s)) = Adds-nothing
extract_paragraphs-Adds (some (object fs)) = Adds-nothing

extract_own-Adds : (obj : Fields) → Adds (extract_own obj) (shown_own obj)
unfolding extract_own extract_title extract_lines shown_own
extract_own-Adds obj =
    then-Adds
      (then-Adds (set_title_lem _)
        (then-Adds (set_title_lem _) (then-Adds (set_title_lem _) (set_title_lem _))))
      (then-Adds (extract_buttons-Adds _) (
        then-Adds (extract_paragraphs-Adds _) (
          then-Adds (add_line_lem _)
            (then-Adds (add_line_lem _) (then-Adds (add_line_lem _) (add_line_lem _))))))

mutual
  unfolding extract_from_value shown

  extract_from_value-Adds : (v : Value) → Adds (extract_from_value v) (shown v)
  extract_from_value-Adds (object obj) = then-Adds (extract_own-Adds obj) (
      then-Adds (extract_at-Adds (codes "content") obj) (
        then-Adds (extract_at-Adds (codes "page") obj) (
          then-Adds (extract_at-Adds (codes "inner") obj) (
            then-Adds (extract_each-Adds (codes "items") obj)
              (extract_each-Adds (codes "pages") obj)))))
  extract_from_value-Adds (array vs) = Adds-nothing
  extract_from_value-Adds null = Adds-nothing
  extract_from_value-Adds (bool b) = Adds-nothing
  extract_from_value-Adds (number n) = Adds-nothing
  extract_from_value-Adds (string s) = Adds-nothing

  extract_at-Adds : (key : Text) (obj : Fields) → Adds (extract_at key obj) (shown_at key obj)
  extract_at-Adds key no_fields = Adds-nothing
  extract_at-Adds key (field k v fs) =
      if-Adds (text_eq k key) (extract_from_value-Adds v) (extract_at-Adds key fs)

  extract_each-Adds : (key : Text) (obj : Fields) → Adds (extract_each key obj) (shown_each key obj)
  extract_each-Adds key no_fields = Adds-nothing
  extract_each-Adds key (field k v fs) =
      if-Adds (text_eq k key) (extract_array-Adds v) (extract_each-Adds key fs)

  extract_array-Adds : (v : Value) → Adds (extract_array v) (shown_elements v)
  extract_array-Adds (array vs) = extract_items-Adds vs
  extract_array-Adds (object obj) = Adds-nothing
  extract_array-Adds null = Adds-nothing
  extract_array-Adds (bool b) = Adds-nothing
  extract_array-Adds (number n) = Adds-nothing
  extract_array-Adds (string s) = Adds-nothing

  extract_items-Adds : (vs : Items) → Adds (extract_items vs) (shown_items vs)
  extract_items-Adds no_items = Adds-nothing
  extract_items-Adds (item v vs) = then-Adds (extract_from_value-Adds v) (extract_items-Adds vs)

-- Tokens that are JSON together give a layout that shows exactly the texts of the value: the title is the
-- first of its titles, outer objects before inner ones and `title`, `subtitle`, `label`, `component`
-- within one; the lines and the buttons stand in the order of the value, and none is empty.
pub parse_layout_tokens_lem :
    (from_str : Text → Option Value) (tokens : List Text) (v : Value)
    → is_empty (concat tokens) ≡ false
    → from_str (concat tokens) ≡ some v
    → (parse_layout_tokens from_str tokens ≡ record {
      title = first_of [] (shown v).titles;
      lines = (shown v).lines;
      buttons = (shown v).buttons;
    })
      × All NonEmpty (shown v).lines
      × All NonEmpty (shown v).buttons
unfolding parse_layout_tokens apply
parse_layout_tokens_lem from_str tokens v some_text parsed =
    let e = (extract_from_value-Adds v).adds no_layout in
    let seen = shown-IsVisible v in (ground (arith, some_text, parsed, e), seen.lines, seen.buttons)
