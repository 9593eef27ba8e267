-- ===== src/Text/Unicode.antt =====
-- What the source takes from tables and algorithms of Go's standard library: the letter, digit
-- and case tables of package unicode, and SHA-256. The fields that end in `_ascii` are the
-- documented behaviour on ASCII.
use firebirdsql_otel.Common.{
  ℕ, ◌-◌, ◌≡◌, ◌<◌, refl, Bool, ◌||◌, List, [], ◌∷◌, ◌++◌, map, within, if◌then◌else◌, false, true,
  arith,
}
use firebirdsql_otel.Text.Utf8.{Bytes, encode_rune, runes}
use firebirdsql_otel.Text.Strings.{is_space, equal, is_ascii_digit}

abbrev pub is_ascii_letter : ℕ → Bool
is_ascii_letter r = within b'a' b'z' r || within b'A' b'Z' r

abbrev pub upper_ascii : ℕ → ℕ
upper_ascii r = if within b'a' b'z' r then r - 32 else r

pub record Platform : Type 0 where
  -- unicode.IsLetter, unicode.IsDigit and unicode.ToUpper
  pub is_letter : ℕ → Bool
  pub is_digit : ℕ → Bool
  pub upper : ℕ → ℕ
  -- the least rune of the orbit of unicode.SimpleFold
  pub fold : ℕ → ℕ
  -- sha256.Sum256
  pub sha256 : Bytes → Bytes
  pub letter_ascii : (r : ℕ) → r < 0x80 → is_letter r ≡ is_ascii_letter r
  -- a letter is of another category than the spaces
  pub letter_space : (r : ℕ) → is_space r ≡ true → is_letter r ≡ false
  pub digit_ascii : (r : ℕ) → r < 0x80 → is_digit r ≡ is_ascii_digit r

encode_all : List ℕ → Bytes
encode_all [] = []
encode_all (r ∷ rs) = encode_rune r ++ encode_all rs

module _ (p : Platform) where
  -- strings.ToUpper
  unfoldable pub to_upper : Bytes → Bytes
  unfolding encode_all encode_rune runes
  to_upper s = encode_all (map p.upper (runes s))

  -- strings.EqualFold
  unfoldable pub equal_fold : Bytes → Bytes → Bool
  unfolding equal runes
  equal_fold a b = equal (map p.fold (runes a)) (map p.fold (runes b))

pub ascii_letter_space : (r : ℕ) → is_space r ≡ true → is_ascii_letter r ≡ false
unfolding is_space
ascii_letter_space r h = ground arith

-- The tables cut down to ASCII.
abbrev pub ascii : Platform
ascii = record {
  is_letter = is_ascii_letter;
  is_digit = is_ascii_digit;
  upper = upper_ascii;
  fold = upper_ascii;
  sha256 = λ s. s;
  letter_ascii = λ r h. refl;
  letter_space = ascii_letter_space;
  digit_ascii = λ r h. refl;
}
