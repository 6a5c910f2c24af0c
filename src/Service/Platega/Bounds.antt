-- ===== src/Service/Platega/Bounds.antt =====
-- What ParseCallbackAmount accepts, on every text.
use rs8kvn_bot.Common.{
  ℕ, ◌/◌, ◌≤◌, false, ◌&&◌, some, List, [], ◌∷◌, ◌≡◌, refl, arith, ltb, ◌==◌, length, Option-cases,
  inl, inr,
}
use rs8kvn_bot.Common.Int.{ℤ, pos, negsuc, pos_part, ltb_ℤ, ◌+ℤ◌, ◌-ℤ◌, ◌≤ℤ◌}
use rs8kvn_bot.Common.Text.{Text, is_empty, trim_space, starts_with, split, parse_int, max_int64}
use rs8kvn_bot.Service.Platega.{
  Parsed, ok, err, amount_parts, parse_callback_amount, sum_cents, whole_and_fraction, refuse,
  or_refuse, cents_text, trim_zeroes, AmountError, ◌>>=◌, ◌>>◌,
}
use rs8kvn_bot.Service.Platega.Amount.{first-split, fraction_range}

-- an int64 that is not negative
abbrev pub IsCents : ℤ → Type 0
IsCents z = (z ≡ pos (pos_part z)) × (pos_part z ≤ max_int64)

parse_int_unsigned :
    (c : ℕ) (s : Text) (z : ℤ) → (c == b'-') ≡ false → parse_int (c ∷ s) ≡ some z → IsCents z
unfolding parse_int
parse_int_unsigned c s z h e = ground arith

-- The whole part has a character, and the sign of the text.
abbrev pub IsUnsigned : Text → Type 0
IsUnsigned w = (is_empty w ≡ false) × (starts_with b'-' w ≡ false)

pub unsigned_value : (w : Text) (z : ℤ) → IsUnsigned w → parse_int w ≡ some z → IsCents z
unsigned_value [] z u e = cc
unsigned_value (c ∷ s) z u e = parse_int_unsigned c s z u.1 e

IsUnsigned-part :
    (raw : Text) (parts : List Text) (whole fraction : Text)
    → split b'.' raw ≡ parts
    → starts_with b'-' raw ≡ false
    → whole_and_fraction parts ≡ ok (whole, fraction)
    → IsUnsigned whole
IsUnsigned-part raw [] whole fraction e h k = cc
IsUnsigned-part raw ([] ∷ parts) whole fraction e h k = cc
IsUnsigned-part raw ((c ∷ s) ∷ []) whole fraction e h k =
    ground (arith, first-split b'.' b'-' raw c s [])
IsUnsigned-part raw ((c ∷ s) ∷ f ∷ []) whole fraction e h k =
    ground (arith, first-split b'.' b'-' raw c s (f ∷ []))
IsUnsigned-part raw ((c ∷ s) ∷ f ∷ g ∷ parts) whole fraction e h k = cc

pub amount_parts-IsUnsigned :
    (amount whole fraction : Text) → amount_parts amount ≡ ok (whole, fraction) → IsUnsigned whole
unfolding amount_parts
amount_parts-IsUnsigned amount whole fraction h =
    let raw = trim_space amount in
    IsUnsigned-part raw (split b'.' raw) whole fraction refl (ground arith) (ground arith)

sum_cents-IsCents :
    (whole f z : ℤ)
    → IsCents whole
    → ltb_ℤ (pos (max_int64 / 100)) whole ≡ false
    → negsuc 8 ≤ℤ f
    → f ≤ℤ pos 99
    → sum_cents whole f ≡ ok z
    → IsCents z
unfolding ◌+ℤ◌ ◌-ℤ◌
sum_cents-IsCents whole f z w le lo hi h = ground arith

cents_range :
    (s : Text) (f : ℤ) → parse_int (cents_text s) ≡ some f → (negsuc 8 ≤ℤ f) × (f ≤ℤ pos 99)
cents_range [] f h = fraction_range b'0' b'0' f h
cents_range (c ∷ []) f h = fraction_range c b'0' f h
cents_range (c ∷ d ∷ s) f h = fraction_range c d f h

-- the value of ParseCallbackAmount, once the parts are known
abbrev amount_of_parts : Text → Text → Parsed ℤ
amount_of_parts whole_text fraction_text = do
  whole ← or_refuse (parse_int whole_text) AmountError.out_of_range
  refuse (ltb_ℤ (pos (max_int64 / 100)) whole) AmountError.out_of_range
  fraction ← or_refuse (parse_int (cents_text fraction_text)) AmountError.invalid
  sum_cents whole fraction

parts-IsCents :
    (whole fraction : Text) (z : ℤ)
    → IsUnsigned whole
    → amount_of_parts whole fraction ≡ ok z
    → IsCents z
parts-IsCents [] fraction z u h = cc
parts-IsCents (c ∷ s) fraction z u h = elim (Option-cases (parse_int (c ∷ s))) [
  | inl bad ↦ ground (arith, bad)
  | inr (w, ew) ↦ elim (Option-cases (parse_int (cents_text fraction))) [
    | inl bad ↦ ground (arith, ew, bad)
    | inr (f, ef) ↦ ground (
      arith,
      ew,
      ef,
      parse_int_unsigned c s w u.1 ew,
      cents_range fraction f ef,
      sum_cents-IsCents w f z,
    )
  ]
]

-- Whatever the text of a callback's amount, the cents that it is read as are not negative and fit
-- an int64: the sums and differences in between do not wrap into an accepted value.
pub parse_callback_amount-IsCents :
    (amount : Text) (z : ℤ) → parse_callback_amount amount ≡ ok z → IsCents z
unfolding parse_callback_amount
parse_callback_amount-IsCents amount z h = of_parts (amount_parts amount) refl h
  where
    of_parts :
        (parts : Parsed (Text × Text))
        → amount_parts amount ≡ parts
        → (parts >>= λ p.
            refuse
              (ltb 2 (length p.1) && ltb 2 (length (trim_zeroes p.1)))
              AmountError.too_many_decimals
            >> amount_of_parts p.0 p.1)
          ≡ ok z
        → IsCents z
    of_parts (err e) k g = cc
    of_parts (ok (w, f)) k g =
        parts-IsCents w f z (amount_parts-IsUnsigned amount w f k) (ground arith)
