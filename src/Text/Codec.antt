-- ===== src/Text/Codec.antt =====
-- `string(r)` and the range loop that reads it back.
use firebirdsql_otel.Common.{
  ℕ, zero, suc, ◌-◌, ◌≤◌, ◌≡◌, refl, ap, ◌∙◌, length-append, false, List, [], ◌∷◌, ◌++◌, length,
  drop, within, All, arith,
}
use firebirdsql_otel.Text.Utf8.{
  Bytes, Rune, decode_rune, encode_rune, runes, runes_from, runes_from-cons,
}

-- What `WriteRune` makes of the runes, one by one.
unfoldable pub encode_all : List ℕ → Bytes
unfolding encode_rune
encode_all [] = []
encode_all (r ∷ rs) = encode_rune r ++ encode_all rs

-- A Unicode scalar value.
abbrev pub IsScalar : ℕ → Type 0
IsScalar r = (r ≤ 0x10FFFF) × (within 0xD800 0xDFFF r ≡ false)

pub decode_rune-encode :
    (r : ℕ) (t : Bytes)
    → IsScalar r
    → decode_rune (encode_rune r ++ t) ≡ record { rune = r; size = length (encode_rune r) }
unfolding decode_rune encode_rune
decode_rune-encode r t h = ground arith

decode_rune-IsScalar : (c : ℕ) (s : Bytes) → IsScalar (decode_rune (c ∷ s)).rune
unfolding decode_rune
decode_rune-IsScalar c [] = ground arith
decode_rune-IsScalar c (d ∷ []) = ground arith
decode_rune-IsScalar c (d ∷ e ∷ []) = ground arith
decode_rune-IsScalar c (d ∷ e ∷ f ∷ s) = ground arith

length-encode_rune : (r : ℕ) → 1 ≤ length (encode_rune r)
unfolding encode_rune
length-encode_rune r = ground arith

runes_from-rune :
    (u : Bytes) (r : Rune)
    → decode_rune u ≡ r
    → 1 ≤ length u
    → runes_from zero u ≡ r.rune ∷ runes_from zero (drop r.size u)
runes_from-rune [] r e h = absurd (omega arith)
runes_from-rune (c ∷ u) r e h =
    runes_from-cons c u ∙ ap (λ d. d.rune ∷ runes_from zero (drop d.size (c ∷ u))) e

drop-append : (s t : Bytes) → drop (length s) (s ++ t) ≡ t
drop-append [] t = refl
drop-append (c ∷ s) t = drop-append s t

runes_from-encode :
    (r : ℕ) (t : Bytes) → IsScalar r → runes_from zero (encode_rune r ++ t) ≡ r ∷ runes_from zero t
runes_from-encode r t h =
    runes_from-rune (encode_rune r ++ t) (record { rune = r; size = length (encode_rune r) })
      (decode_rune-encode r t h)
      (omega (arith, length-append (encode_rune r) t, length-encode_rune r))
    ∙ ap (λ u. r ∷ runes_from zero u) (drop-append (encode_rune r) t)

-- Runes that are written are read back.
pub runes-encode_all : (rs : List ℕ) → All IsScalar rs → runes (encode_all rs) ≡ rs
unfolding runes encode_all runes_from
runes-encode_all [] h = refl
runes-encode_all (r ∷ rs) (h, hs) =
    runes_from-encode r (encode_all rs) h ∙ ap (◌∷◌ r) (runes-encode_all rs hs)

runes_from-IsScalar : (k : ℕ) (s : Bytes) → All IsScalar (runes_from k s)
unfolding runes_from
runes_from-IsScalar k [] = tt
runes_from-IsScalar (suc k) (c ∷ s) = runes_from-IsScalar k s
runes_from-IsScalar zero (c ∷ s) =
    (decode_rune-IsScalar c s, runes_from-IsScalar ((decode_rune (c ∷ s)).size - 1) s)

-- A range loop yields scalar values only.
pub runes-IsScalar : (s : Bytes) → All IsScalar (runes s)
unfolding runes
runes-IsScalar s = runes_from-IsScalar zero s
