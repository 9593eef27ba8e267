-- ===== src/Text/Utf8.antt =====
-- unicode/utf8 as the source uses it: DecodeRuneInString, ValidString, string(rune), range loops.
use firebirdsql_otel.Common.{
  ℕ, zero, suc, ◌+◌, ◌-◌, ◌*◌, ◌/◌, ◌%◌, ◌≤◌, ◌<◌, ◌≡◌, Bool, true, ◌&&◌, ◌||◌, not, List, [], ◌∷◌,
  length, ltb, ◌==◌, within, if◌then◌else◌, arith, drop, drop-cons, refl, ap, sym, ◌∙◌,
}

abbrev pub Bytes : Type 0
Bytes = List ℕ

-- A rune and the number of bytes that it takes.
pub record Rune : Type 0 where
  pub rune : ℕ
  pub size : ℕ

-- utf8.RuneError
abbrev pub rune_error : ℕ
rune_error = 0xFFFD

abbrev invalid : Rune
invalid = record { rune = rune_error; size = 1 }

abbrev is_continuation : ℕ → Bool
is_continuation b = within 0x80 0xBF b

-- The second byte's range narrows after E0, ED, F0 and F4: no overlong form, no surrogate, no
-- rune above 10FFFF.
abbrev second_ok : ℕ → ℕ → Bool
second_ok a b =
    if a == 0xE0
    then within 0xA0 0xBF b
    else if a == 0xED
    then within 0x80 0x9F b
    else if a == 0xF0
    then within 0x90 0xBF b
    else if a == 0xF4
    then within 0x80 0x8F b
    else is_continuation b

decode_2 : ℕ → Bytes → Rune
decode_2 a (b ∷ s) =
    if is_continuation b then record { rune = a % 32 * 64 + b % 64; size = 2 } else invalid
decode_2 a [] = invalid

decode_3 : ℕ → Bytes → Rune
decode_3 a (b ∷ c ∷ s) =
    if second_ok a b && is_continuation c
    then record { rune = a % 16 * 4096 + b % 64 * 64 + c % 64; size = 3 }
    else invalid
decode_3 a (b ∷ []) = invalid
decode_3 a [] = invalid

decode_4 : ℕ → Bytes → Rune
decode_4 a (b ∷ c ∷ d ∷ s) =
    if second_ok a b && is_continuation c && is_continuation d
    then record { rune = a % 8 * 262144 + b % 64 * 4096 + c % 64 * 64 + d % 64; size = 4 }
    else invalid
decode_4 a (b ∷ c ∷ []) = invalid
decode_4 a (b ∷ []) = invalid
decode_4 a [] = invalid

-- utf8.DecodeRuneInString
unfoldable pub decode_rune : Bytes → Rune
unfolding decode_2 decode_3 decode_4
decode_rune [] = record { rune = rune_error; size = 0 }
decode_rune (a ∷ s) =
    if ltb a 0x80
    then record { rune = a; size = 1 }
    else if within 0xC2 0xDF a
    then decode_2 a s
    else if within 0xE0 0xEF a
    then decode_3 a s
    else if within 0xF0 0xF4 a
    then decode_4 a s
    else invalid

-- utf8.ValidString: the first argument counts the bytes left of the rune at hand.
unfoldable pub valid_from : ℕ → Bytes → Bool
valid_from k [] = true
valid_from (suc k) (c ∷ s) = valid_from k s
valid_from zero (c ∷ s) =
    let r = decode_rune (c ∷ s) in
    not (r.rune == rune_error && r.size == 1) && valid_from (r.size - 1) s

unfoldable pub valid_string : Bytes → Bool
unfolding valid_from decode_rune
valid_string s = valid_from zero s

-- `for _, r := range s`
unfoldable pub runes_from : ℕ → Bytes → List ℕ
runes_from k [] = []
runes_from (suc k) (c ∷ s) = runes_from k s
runes_from zero (c ∷ s) = let r = decode_rune (c ∷ s) in r.rune ∷ runes_from (r.size - 1) s

unfoldable pub runes : Bytes → List ℕ
unfolding runes_from decode_rune
runes s = runes_from zero s

-- string(r)
unfoldable pub encode_rune : ℕ → Bytes
encode_rune r =
    if ltb r 0x80
    then r ∷ []
    else if ltb r 0x800
    then (0xC0 + r / 64) ∷ (0x80 + r % 64) ∷ []
    else if within 0xD800 0xDFFF r || ltb 0x10FFFF r
    then 0xEF ∷ 0xBF ∷ 0xBD ∷ []
    else if ltb r 0x10000
    then (0xE0 + r / 4096) ∷ (0x80 + r / 64 % 64) ∷ (0x80 + r % 64) ∷ []
    else (0xF0 + r / 262144) ∷ (0x80 + r / 4096 % 64) ∷ (0x80 + r / 64 % 64) ∷ (0x80 + r % 64) ∷ []

-- A rune read from a text that is not empty takes at least one byte, and none past the end.
pub decode_rune_sized :
    (a : ℕ) (s : Bytes)
    → (1 ≤ (decode_rune (a ∷ s)).size) × ((decode_rune (a ∷ s)).size ≤ suc (length s))
unfolding decode_rune
decode_rune_sized a [] = ground arith
decode_rune_sized a (b ∷ []) = ground arith
decode_rune_sized a (b ∷ c ∷ []) = ground arith
decode_rune_sized a (b ∷ c ∷ d ∷ s) = ground arith

-- A byte below 80 is its own rune.
pub decode_rune_ascii :
    (a : ℕ) (s : Bytes) → a < 0x80 → decode_rune (a ∷ s) ≡ record { rune = a; size = 1 }
unfolding decode_rune
decode_rune_ascii a s h = ground arith

-- Only a byte below 80 decodes to a rune below 80.
pub decode_rune_ascii_inv :
    (a : ℕ) (s : Bytes) → (decode_rune (a ∷ s)).rune < 0x80 → (decode_rune (a ∷ s)).rune ≡ a
unfolding decode_rune
decode_rune_ascii_inv a [] h = ground arith
decode_rune_ascii_inv a (b ∷ []) h = ground arith
decode_rune_ascii_inv a (b ∷ c ∷ []) h = ground arith
decode_rune_ascii_inv a (b ∷ c ∷ d ∷ s) h = ground arith

runes_from-drop : (k : ℕ) (s : Bytes) → runes_from k s ≡ runes_from zero (drop k s)
unfolding runes_from
runes_from-drop zero s = refl
runes_from-drop (suc k) [] = refl
runes_from-drop (suc k) (c ∷ s) = runes_from-drop k s

-- A range loop yields the first rune, and goes on behind it.
pub runes_from-cons :
    (c : ℕ) (s : Bytes)
    → runes_from zero (c ∷ s)
      ≡ (decode_rune (c ∷ s)).rune ∷ runes_from zero (drop (decode_rune (c ∷ s)).size (c ∷ s))
unfolding runes_from
runes_from-cons c s =
    let r = decode_rune (c ∷ s) in
    ap (◌∷◌ r.rune) (
      runes_from-drop (r.size - 1) s
      ∙ ap (runes_from zero) (sym (drop-cons r.size c s (decode_rune_sized c s).0)))
