-- ===== src/Control/Wallet.antt =====
-- crates/control/src/lib.rs: `Wallet` and `LogSource` as text.
use hwwctl.Prelude.{
  ℕ, ◌+◌, ◌≡◌, refl, [], ◌∷◌, Text, codes, Option, none, some, ◌&&◌, ◌||◌, leb, text_eq,
  if◌then◌else◌, arith, text_eq→eq, ◌⊎◌,
}

pub data Wallet : Type 0 where
  trezor bitbox02 coldcard specter ledger jade : Wallet

unfoldable pub as_str : Wallet → Text
as_str trezor = codes "trezor"
as_str bitbox02 = codes "bitbox02"
as_str coldcard = codes "coldcard"
as_str specter = codes "specter"
as_str ledger = codes "ledger"
as_str jade = codes "jade"

-- `to_ascii_lowercase`
abbrev pub to_ascii_lower : ℕ → ℕ
to_ascii_lower c = if leb b'A' c && leb c b'Z' then c + 32 else c

unfoldable pub to_ascii_lowercase : Text → Text
to_ascii_lowercase [] = []
to_ascii_lowercase (c ∷ s) = to_ascii_lower c ∷ to_ascii_lowercase s

-- The match of `from_str` on the lowercased text. The error's text names the input and is left out.
unfoldable pub match_wallet : Text → Option Wallet
match_wallet s =
    if text_eq s (codes "trezor")
    then some trezor
    else (if text_eq s (codes "bitbox02") || text_eq s (codes "bb02")
        then some bitbox02
        else (if text_eq s (codes "coldcard") || text_eq s (codes "cc")
            then some coldcard
            else (if text_eq s (codes "specter")
                then some specter
                else (if text_eq s (codes "ledger")
                    then some ledger
                    else (if text_eq s (codes "jade") then some jade else none)))))

unfoldable pub from_str : Text → Option Wallet
from_str s = match_wallet (to_ascii_lowercase s)

-- Every wallet's printed name parses back to it.
pub from_str-as_str : (w : Wallet) → from_str (as_str w) ≡ some w
unfolding from_str as_str match_wallet to_ascii_lowercase text_eq
from_str-as_str trezor = refl
from_str-as_str bitbox02 = refl
from_str-as_str coldcard = refl
from_str-as_str specter = refl
from_str-as_str ledger = refl
from_str-as_str jade = refl

lower-to_ascii_lower : (c : ℕ) → to_ascii_lower (to_ascii_lower c) ≡ to_ascii_lower c
lower-to_ascii_lower c = ground arith

to_ascii_lowercase_idem :
    (s : Text) → to_ascii_lowercase (to_ascii_lowercase s) ≡ to_ascii_lowercase s
unfolding to_ascii_lowercase
to_ascii_lowercase_idem [] = refl
to_ascii_lowercase_idem (c ∷ s) = cc (lower-to_ascii_lower c, to_ascii_lowercase_idem s)

-- A wallet's alias, or no alias at all.
abbrev pub IsAlias : Wallet → Text → Type 0
IsAlias bitbox02 s = s ≡ codes "bb02"
IsAlias coldcard s = s ≡ codes "cc"
IsAlias _ s = ⊥

match_wallet_only : (w : Wallet) (s : Text) → match_wallet s ≡ some w → (s ≡ as_str w) ⊎ IsAlias w s
unfolding match_wallet as_str
match_wallet_only trezor s e = ground (arith, text_eq→eq s (codes "trezor"))
match_wallet_only bitbox02 s e =
    ground (arith, text_eq→eq s (codes "bitbox02"), text_eq→eq s (codes "bb02"))
match_wallet_only coldcard s e =
    ground (arith, text_eq→eq s (codes "coldcard"), text_eq→eq s (codes "cc"))
match_wallet_only specter s e = ground (arith, text_eq→eq s (codes "specter"))
match_wallet_only ledger s e = ground (arith, text_eq→eq s (codes "ledger"))
match_wallet_only jade s e = ground (arith, text_eq→eq s (codes "jade"))

-- Parsing ignores ASCII case, and accepts for a wallet only its name and, for `bitbox02` and
-- `coldcard`, its alias.
pub from_str_only :
    (w : Wallet) (s : Text)
    → from_str s ≡ some w
    → (from_str (to_ascii_lowercase s) ≡ some w)
      × ((to_ascii_lowercase s ≡ as_str w) ⊎ IsAlias w (to_ascii_lowercase s))
unfolding from_str
from_str_only w s e = (rw to_ascii_lowercase_idem e, match_wallet_only w (to_ascii_lowercase s) e)
