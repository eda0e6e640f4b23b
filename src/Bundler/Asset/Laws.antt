-- ===== src/Bundler/Asset/Laws.antt =====
-- crates/bundler/src/download.rs: the asset names that `parse_asset_name` accepts.
use hwwctl.Prelude.{
  ℕ, ◌≡◌, ◌≢◌, refl, sym, ◌∙◌, ap, List, [], ◌∷◌, ◌++◌, Text, codes, strip_prefix,
  strip_prefix-append, strip_prefix-eq, some, inl, inr, ◌↔◌, Option-cases, arith, append_assoc,
  append-nil,
}
use hwwctl.Emulators.{WalletType, trezor, bitbox02, coldcard, specter, ledger, jade}
use hwwctl.Bundler.Asset.{
  reverse_onto, strip_suffix, segment, wallet_prefixes, not_empty, parse_wallet, first_wallet,
  parse_asset_name, asset_name,
}

reverse_onto_acc : (acc s : Text) → reverse_onto acc s ≡ reverse_onto [] s ++ acc
unfolding reverse_onto
reverse_onto_acc acc [] = refl
reverse_onto_acc acc (c ∷ s) =
    reverse_onto_acc (c ∷ acc) s
    ∙ sym (
        ap (λ t. t ++ acc) (reverse_onto_acc (c ∷ []) s)
        ∙ append_assoc (reverse_onto [] s) (c ∷ []) acc)

reverse-append : (s t : Text) → reverse_onto [] (s ++ t) ≡ reverse_onto [] t ++ reverse_onto [] s
unfolding reverse_onto
reverse-append [] t = sym (append-nil (reverse_onto [] t))
reverse-append (c ∷ s) t =
    reverse_onto_acc (c ∷ []) (s ++ t)
    ∙ ap (λ u. u ++ (c ∷ [])) (reverse-append s t)
    ∙ append_assoc (reverse_onto [] t) (reverse_onto [] s) (c ∷ [])
    ∙ ap (λ u. reverse_onto [] t ++ u) (sym (reverse_onto_acc (c ∷ []) s))

reverse-reverse : (s : Text) → reverse_onto [] (reverse_onto [] s) ≡ s
unfolding reverse_onto
reverse-reverse [] = refl
reverse-reverse (c ∷ s) =
    ap (reverse_onto []) (reverse_onto_acc (c ∷ []) s)
    ∙ reverse-append (reverse_onto [] s) (c ∷ [])
    ∙ ap (λ t. c ∷ t) (reverse-reverse s)

strip_suffix-append : (s p : Text) → strip_suffix p (s ++ p) ≡ some s
unfolding strip_suffix
strip_suffix-append s p =
    rw
      (
        reverse-append s p,
        strip_prefix-append (reverse_onto [] p) (reverse_onto [] s),
        strip_suffix,
      )
      (ap some (reverse-reverse s))

strip_suffix-eq : (p s t : Text) → strip_suffix p s ≡ some t → s ≡ t ++ p
unfolding strip_suffix
strip_suffix-eq p s t e =
    elim (Option-cases (strip_prefix (reverse_onto [] p) (reverse_onto [] s))) [
      | inl miss ↦ absurd (ground (arith, e, miss))
      | inr (u, hit) ↦
          let back : reverse_onto [] u ≡ t = ground (arith, e, hit) in
          sym (reverse-reverse s)
          ∙ ap (reverse_onto []) (strip_prefix-eq (reverse_onto [] p) (reverse_onto [] s) u hit)
          ∙ reverse-append (reverse_onto [] p) u
          ∙ ap (λ q. reverse_onto [] u ++ q) (reverse-reverse p)
          ∙ ap (λ q. q ++ p) back
    ]

-- What one segment accepts.
abbrev Accepts : WalletType → Text → Text → Type 0
Accepts w rest platform = (rest ≡ segment w ++ (codes "-" ++ platform)) × (platform ≢ [])

not_empty-eq :
    (w w' : WalletType) (p platform : Text)
    → not_empty w p ≡ some (w', platform)
    → (w ≡ w') × (p ≡ platform) × (platform ≢ [])
not_empty-eq w w' [] platform e = absurd cc
not_empty-eq w w' (c ∷ p) platform e = (cc, cc, λ bare. cc)

parse_wallet-eq :
    (w w' : WalletType) (rest platform : Text)
    → parse_wallet w rest ≡ some (w', platform)
    → Accepts w' rest platform
unfolding parse_wallet
parse_wallet-eq w w' rest platform e = elim (Option-cases (strip_prefix (segment w) rest)) [
  | inl miss ↦ absurd (ground (arith, e, miss))
  | inr (after, hit) ↦ (elim (Option-cases (strip_prefix (codes "-") after)) [
    | inl miss ↦ absurd (ground (arith, e, hit, miss))
    | inr (p, dash) ↦
        let found : not_empty w p ≡ some (w', platform) = ground (arith, e, hit, dash) in
        let (same, whole, full) = not_empty-eq w w' p platform found in
        let text =
          strip_prefix-eq (segment w) rest after hit
          ∙ ap (λ a. segment w ++ a) (strip_prefix-eq (codes "-") after p dash) in
        (rw (← same, ← whole) text, full)
  ])
]

first_wallet-eq :
    (ws : List WalletType) (w : WalletType) (rest platform : Text)
    → first_wallet ws rest ≡ some (w, platform)
    → Accepts w rest platform
unfolding first_wallet
first_wallet-eq [] w rest platform e = absurd cc
first_wallet-eq (v ∷ ws) w rest platform e = elim (Option-cases (parse_wallet v rest)) [
  | inl miss ↦ first_wallet-eq ws w rest platform (ground (arith, e, miss))
  | inr ((v', p), hit) ↦ parse_wallet-eq v w rest platform (hit ∙ ground (arith, e, hit))
]

first_wallet-segment :
    (w : WalletType) (c : ℕ) (platform : Text)
    → first_wallet wallet_prefixes (segment w ++ (codes "-" ++ (c ∷ platform)))
      ≡ some (w, c ∷ platform)
unfolding first_wallet parse_wallet segment strip_prefix
first_wallet-segment trezor c platform = refl
first_wallet-segment bitbox02 c platform = refl
first_wallet-segment coldcard c platform = refl
first_wallet-segment specter c platform = refl
first_wallet-segment ledger c platform = refl
first_wallet-segment jade c platform = refl

-- A name in front of the suffix.
abbrev stem_of : WalletType → Text → Text
stem_of w platform = codes "hwwctl-" ++ (segment w ++ (codes "-" ++ platform))

asset_name-stem :
    (w : WalletType) (platform : Text)
    → asset_name w platform ≡ stem_of w platform ++ codes ".tar.gz"
asset_name-stem w platform =
    ap (λ t. codes "hwwctl-" ++ t)
      (sym (append_assoc (segment w) (codes "-" ++ platform) (codes ".tar.gz")))

parse_asset_name-eq :
    (name : Text) (w : WalletType) (platform : Text)
    → parse_asset_name name ≡ some (w, platform)
    → (name ≡ asset_name w platform) × (platform ≢ [])
unfolding parse_asset_name
parse_asset_name-eq name w platform e = elim (Option-cases (strip_suffix (codes ".tar.gz") name)) [
  | inl miss ↦ absurd (ground (arith, e, miss))
  | inr (stem, tail) ↦ (elim (Option-cases (strip_prefix (codes "hwwctl-") stem)) [
    | inl miss ↦ absurd (ground (arith, e, tail, miss))
    | inr (rest, front) ↦
        let found : first_wallet wallet_prefixes rest ≡ some (w, platform) =
          ground (arith, e, tail, front) in
        let (text, full) = first_wallet-eq wallet_prefixes w rest platform found in
        (
          strip_suffix-eq (codes ".tar.gz") name stem tail
              ∙ ap (λ t. t ++ codes ".tar.gz")
                  (strip_prefix-eq (codes "hwwctl-") stem rest front
                    ∙ ap (λ t. codes "hwwctl-" ++ t) text)
              ∙ sym (asset_name-stem w platform),
          full,
        )
  ])
]

parse_asset_name-asset_name :
    (w : WalletType) (c : ℕ) (platform : Text)
    → parse_asset_name (asset_name w (c ∷ platform)) ≡ some (w, c ∷ platform)
unfolding parse_asset_name
parse_asset_name-asset_name w c platform =
    rw
      (
        asset_name-stem w (c ∷ platform),
        strip_suffix-append (stem_of w (c ∷ platform)) (codes ".tar.gz"),
        parse_asset_name,
      )
      (rw (strip_prefix-append (codes "hwwctl-") (segment w ++ (codes "-" ++ (c ∷ platform))))
        (first_wallet-segment w c platform))

-- An asset name is accepted as a wallet's bundle for a platform exactly when it is
-- `hwwctl-{wallet}-{platform}.tar.gz` with a platform that is not empty.
pub parse_asset_name_lem :
    (name : Text) (w : WalletType) (platform : Text)
    → (parse_asset_name name ≡ some (w, platform))
      ↔ ((name ≡ asset_name w platform) × (platform ≢ []))
parse_asset_name_lem name w [] = (parse_asset_name-eq name w [], λ (e, full). absurd (full refl))
parse_asset_name_lem name w (c ∷ platform) = (
  parse_asset_name-eq name w (c ∷ platform),
  λ (e, full). ap parse_asset_name e ∙ parse_asset_name-asset_name w c platform,
)
