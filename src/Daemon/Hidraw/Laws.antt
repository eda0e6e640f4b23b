-- ===== src/Daemon/Hidraw/Laws.antt =====
-- crates/hwwctl/src/daemon/hidraw_scan.rs: which device node a scan returns.
use hwwctl.Prelude.{
  ℕ, List, [], ◌∷◌, ◌++◌, All, All-append, Text, codes, text_eq→eq, strip_prefix, strip_prefix-eq,
  true, Option, none, some, ◌==◌, ◌≡◌, ◌≢◌, ◌⊎◌, inl, inr, refl, sym, ap, ◌∙◌, append_assoc,
  append-nil, Bool-cases, Option-cases, arith,
}
use hwwctl.Format.{is_whitespace}
use hwwctl.Daemon.Hidraw.{
  lines_loop, trim_start, reverse_onto, trim, line_has_uniq, any_line, uevent_has_uniq,
  scan_entries,
}

-- The listing has an entry of this name and this `uevent`.
abbrev pub Listed : Text → Text → List (Text × Option Text) → Type 0
Listed name uevent [] = ⊥
Listed name uevent ((n, c) ∷ entries) =
    ((n ≡ name) × (c ≡ some uevent)) ⊎ Listed name uevent entries

abbrev pub IsBlank : Text → Type 0
IsBlank s = All (λ c. is_whitespace c ≡ true) s

-- What stands before a line is nothing, or ends with a line feed.
abbrev pub IsBefore : Text → Type 0
IsBefore s = (s ≡ []) ⊎ ((t : Text) × (s ≡ t ++ (b'\n' ∷ [])))

abbrev pub IsAfter : Text → Type 0
IsAfter s = (s ≡ []) ⊎ ((t : Text) × (s ≡ b'\n' ∷ t))

abbrev pub IsUnbroken : Text → Type 0
IsUnbroken s = All (λ c. c ≢ b'\n') s

-- A line of the text.
pub record IsLine (text line : Text) : Type 0 where
  pub before : Text
  pub after : Text
  pub whole : text ≡ before ++ (line ++ after)
  pub begins : IsBefore before
  pub unbroken : IsUnbroken line
  pub ends : IsAfter after

-- A line that gives this serial number, with blanks around it at most.
pub record Names (serial line : Text) : Type 0 where
  pub left : Text
  pub right : Text
  pub blank_left : IsBlank left
  pub blank_right : IsBlank right
  pub whole : line ≡ codes "HID_UNIQ=" ++ (left ++ (serial ++ right))

reverse_onto-All :
    (P : ℕ → Type 0) (acc s : Text) → All P acc → All P s → All P (reverse_onto acc s)
unfolding reverse_onto
reverse_onto-All P acc [] ha hs = ha
reverse_onto-All P acc (c ∷ s) ha (h, hs) = reverse_onto-All P (c ∷ acc) s (h, ha) hs

reverse_onto-append :
    (acc s t : Text) → reverse_onto acc (s ++ t) ≡ reverse_onto (reverse_onto acc s) t
unfolding reverse_onto
reverse_onto-append acc [] t = refl
reverse_onto-append acc (c ∷ s) t = reverse_onto-append (c ∷ acc) s t

reverse_onto-nil : (acc s : Text) → reverse_onto acc s ≡ reverse_onto [] s ++ acc
unfolding reverse_onto
reverse_onto-nil acc [] = refl
reverse_onto-nil acc (c ∷ s) =
    reverse_onto-nil (c ∷ acc) s
    ∙ sym (append_assoc (reverse_onto [] s) (c ∷ []) acc)
    ∙ ap (λ r. r ++ acc) (sym (reverse_onto-nil (c ∷ []) s))

reverse_onto-reverse_onto :
    (acc s t : Text) → reverse_onto acc (reverse_onto s t) ≡ reverse_onto (t ++ acc) s
unfolding reverse_onto
reverse_onto-reverse_onto acc s [] = refl
reverse_onto-reverse_onto acc s (c ∷ t) = reverse_onto-reverse_onto acc (c ∷ s) t

trim_start_lem : (s : Text) → (ws : Text) × IsBlank ws × (s ≡ ws ++ trim_start s)
unfolding trim_start
trim_start_lem [] = ([], tt, refl)
trim_start_lem (c ∷ s) = elim (Bool-cases (is_whitespace c)) [
  | inl white ↦
      let (ws, blank, e) = trim_start_lem s in
      (c ∷ ws, (white, blank), rw white (ap (λ r. c ∷ r) e))
  | inr solid ↦ ([], tt, rw solid refl)
]

trim_lem : (s : Text) → (l : Text) × (r : Text) × IsBlank l × IsBlank r × (s ≡ l ++ (trim s ++ r))
unfolding trim reverse_onto
trim_lem s =
    let (l, blank_l, e) = trim_start_lem s in
    let (r, blank_r, e') = trim_start_lem (reverse_onto [] (trim_start s)) in
    (
      l,
      reverse_onto [] r,
      blank_l,
      reverse_onto-All (λ c. is_whitespace c ≡ true) [] r tt blank_r,
      e ∙ ap (λ t. l ++ t) (turned (trim_start s) r _ e'),
    )
  where
    turned :
        (t r m : Text) → reverse_onto [] t ≡ r ++ m → t ≡ reverse_onto [] m ++ reverse_onto [] r
    turned t r m h =
        sym (reverse_onto-reverse_onto [] [] t ∙ append-nil t)
        ∙ ap (reverse_onto []) h
        ∙ reverse_onto-append [] r m
        ∙ reverse_onto-nil (reverse_onto [] r) m

line_has_uniq-Names : (serial line : Text) → line_has_uniq serial line ≡ true → Names serial line
unfolding line_has_uniq
line_has_uniq-Names serial line h = elim (Option-cases (strip_prefix (codes "HID_UNIQ=") line)) [
  | inl other ↦ absurd (ground (arith, h, other))
  | inr (v, found) ↦
      let same : trim v ≡ serial = text_eq→eq (trim v) serial (ground (arith, h, found)) in
      let (l, r, blank_l, blank_r, e) = trim_lem v in
      record {
        left = l;
        right = r;
        blank_left = blank_l;
        blank_right = blank_r;
        whole =
            strip_prefix-eq (codes "HID_UNIQ=") line v found
            ∙ ap (λ t. codes "HID_UNIQ=" ++ t) (e ∙ ap (λ t. l ++ (t ++ r)) same);
      }
]

-- What is said of one of these lines.
abbrev pub Some : (Text → Type 0) → List Text → Type 0
Some P [] = ⊥
Some P (l ∷ ls) = P l ⊎ Some P ls

any_line-Some :
    (serial : Text) (ls : List Text) → any_line serial ls ≡ true → Some (Names serial) ls
unfolding any_line
any_line-Some serial [] h = absurd cc
any_line-Some serial (l ∷ ls) h = elim (Bool-cases (line_has_uniq serial l)) [
  | inl has ↦ inl (line_has_uniq-Names serial l has)
  | inr has_not ↦ inr (any_line-Some serial ls (ground (arith, h, has_not)))
]

shifted : (line : Text) (c : ℕ) (s : Text) → line ++ (c ∷ s) ≡ (line ++ (c ∷ [])) ++ s
shifted line c s = sym (append_assoc line (c ∷ []) s)

-- The lines that are still to come of a text, of which `before` and the start `line` of a line are read.
lines_loop-IsLine :
    (P : Text → Type 0) (text before line s : Text)
    → text ≡ before ++ (line ++ s)
    → IsBefore before
    → IsUnbroken line
    → Some P (lines_loop line s)
    → (l : Text) × P l × IsLine text l
unfolding lines_loop
lines_loop-IsLine P text before [] [] e b u h = absurd h
lines_loop-IsLine P text before (c ∷ line) [] e b u (inl p) = (
  c ∷ line,
  p,
  record { before = before; after = []; whole = e; begins = b; unbroken = u; ends = inl refl },
)
lines_loop-IsLine P text before (c ∷ line) [] e b u (inr h) = absurd h
lines_loop-IsLine P text before line (c ∷ s) e b u h = elim (Bool-cases (c == b'\n')) [
  | inr other ↦
      lines_loop-IsLine P text before (line ++ (c ∷ [])) s
        (e ∙ ap (λ t. before ++ t) (shifted line c s)) b
        (All-append (λ d. d ≢ b'\n') line (c ∷ []) u ((λ q. ground (arith, other, q)), tt))
        (simp other at h)
  | inl feed ↦ at_feed feed (simp feed at h) (λ more.
      lines_loop-IsLine P text (before ++ (line ++ (c ∷ []))) [] s (passed feed) (after_feed feed)
        tt more)
]
  where
    feed_is : c == b'\n' ≡ true → c ≡ b'\n'
    feed_is f = ground (arith, f)

    passed : c == b'\n' ≡ true → text ≡ (before ++ (line ++ (c ∷ []))) ++ s
    passed f =
        e
        ∙ ap (λ t. before ++ t) (shifted line c s)
        ∙ sym (append_assoc before (line ++ (c ∷ [])) s)

    after_feed : c == b'\n' ≡ true → IsBefore (before ++ (line ++ (c ∷ [])))
    after_feed f = inr (
      before ++ line,
      ap (λ d. before ++ (line ++ (d ∷ []))) (feed_is f)
          ∙ sym (append_assoc before line (b'\n' ∷ [])),
    )

    at_feed :
        c == b'\n' ≡ true
        → Some P (line ∷ lines_loop [] s)
        → (Some P (lines_loop [] s) → (l : Text) × P l × IsLine text l)
        → (l : Text) × P l × IsLine text l
    at_feed f (inr more) go_on = go_on more
    at_feed f (inl p) go_on = (
      line,
      p,
      record {
        before = before;
        after = c ∷ s;
        whole = e;
        begins = b;
        unbroken = u;
        ends = inr (s, ap (λ d. d ∷ s) (feed_is f));
      },
    )

uevent_has_uniq_lem :
    (uevent serial : Text)
    → uevent_has_uniq uevent serial ≡ true
    → (line : Text) × Names serial line × IsLine uevent line
unfolding uevent_has_uniq
uevent_has_uniq_lem uevent serial h =
    lines_loop-IsLine (Names serial) uevent [] [] uevent refl (inl refl) tt
      (any_line-Some serial (lines_loop [] uevent) h)

-- A node `hidraw` of the listing whose `uevent` names the serial number.
pub record IsNode (entries : List (Text × Option Text)) (serial node : Text) : Type 0 where
  pub number : Text
  pub uevent : Text
  pub line : Text
  pub listed : Listed (codes "hidraw" ++ number) uevent entries
  pub is_line : IsLine uevent line
  pub names : Names serial line
  pub whole : node ≡ codes "/dev/hidraw" ++ number

later :
    {entries : List (Text × Option Text)} {serial node : Text} (e : Text × Option Text)
    → IsNode entries serial node
    → IsNode (e ∷ entries) serial node
later e i = record {
  number = i.number;
  uevent = i.uevent;
  line = i.line;
  listed = inr i.listed;
  is_line = i.is_line;
  names = i.names;
  whole = i.whole;
}

-- The node that a scan returns is that of a listed entry whose name starts with `hidraw`, and one line of
-- whose `uevent` is `HID_UNIQ=` and the serial number, with blanks around the number at most.
pub scan_entries_lem :
    (entries : List (Text × Option Text)) (serial node : Text)
    → scan_entries entries serial ≡ some node
    → IsNode entries serial node
unfolding scan_entries
scan_entries_lem [] serial node e = absurd cc
scan_entries_lem ((n, none) ∷ entries) serial node e =
    later (n, none) (scan_entries_lem entries serial node (ground (arith, e)))
scan_entries_lem ((n, some u) ∷ entries) serial node e =
    elim (Option-cases (strip_prefix (codes "hidraw") n)) [
      | inl other ↦
          later (n, some u) (scan_entries_lem entries serial node (ground (arith, e, other)))
      | inr (number, is_node) ↦ (elim (Bool-cases (uevent_has_uniq u serial)) [
        | inr has_not ↦
            later (n, some u)
              (scan_entries_lem entries serial node (ground (arith, e, is_node, has_not)))
        | inl has ↦
            let (line, names, is_line) = uevent_has_uniq_lem u serial has in
            let named : n ≡ codes "hidraw" ++ number =
              strip_prefix-eq (codes "hidraw") n number is_node in
            record {
              number = number;
              uevent = u;
              line = line;
              listed = inl (named, refl);
              is_line = is_line;
              names = names;
              whole = ground (arith, e, is_node, has) ∙ ap (λ t. codes "/dev/" ++ t) named;
            }
      ])
    ]
