-- ===== src/Text/Strings.antt =====
-- The functions of package strings that the source calls, on byte lists, and the closed tests of
-- package unicode.
use Prim.Native.Char.{code}
use Prim.Native.String.{String}
use firebirdsql_otel.Common.{
  ℕ, suc, ◌+◌, ◌-◌, ◌/◌, ◌%◌, ◌≤◌, ◌≡◌, refl, ◌↔◌, Bool, true, false, ◌&&◌, ◌||◌, Option, none,
  some, List, [], ◌∷◌, ◌++◌, length, take, ltb, ◌==◌, within, if◌then◌else◌, arith,
}
use mathlib.Core.Option
use firebirdsql_otel.Text.Utf8.{Bytes}

-- The bytes of a text literal; every literal of the development is ASCII.
abbrev pub codes : String → Bytes
codes String.[] = []
codes (String.◌∷◌ c s) = code c ∷ codes s

-- `a == b` on strings
unfoldable pub equal : Bytes → Bytes → Bool
equal [] [] = true
equal (x ∷ xs) (y ∷ ys) = x == y && equal xs ys
equal [] (y ∷ ys) = false
equal (x ∷ xs) [] = false

pub equal_iff : (a b : Bytes) → (equal a b ≡ true) ↔ (a ≡ b)
unfolding equal
equal_iff [] [] = ground arith
equal_iff [] (y ∷ b) = ground arith
equal_iff (x ∷ a) [] = ground arith
equal_iff (x ∷ a) (y ∷ b) = ground (arith, equal_iff a b)

abbrev pub is_empty {ℓ} : {A : Type ℓ} → List A → Bool
is_empty [] = true
is_empty (x ∷ xs) = false

pub is_empty_lem {ℓ} : {A : Type ℓ} (xs : List A) → is_empty xs ≡ true → xs ≡ []
is_empty_lem [] h = refl
is_empty_lem (x ∷ xs) h = cc

-- strings.HasPrefix(s, p)
unfoldable pub has_prefix : Bytes → Bytes → Bool
has_prefix [] s = true
has_prefix (p ∷ ps) [] = false
has_prefix (p ∷ ps) (c ∷ s) = p == c && has_prefix ps s

-- strings.Index(s, p)
unfoldable pub index : Bytes → Bytes → Option ℕ
unfolding has_prefix
index p [] = if is_empty p then some 0 else none
index p (c ∷ s) = if has_prefix p (c ∷ s) then some 0 else Option.map suc (index p s)

-- strings.IndexByte(s, b)
unfoldable pub index_byte : ℕ → Bytes → Option ℕ
index_byte b [] = none
index_byte b (c ∷ s) = if c == b then some 0 else Option.map suc (index_byte b s)

-- The bytes of `s` from the first that fails the test.
unfoldable pub drop_while : (ℕ → Bool) → Bytes → Bytes
drop_while p [] = []
drop_while p (c ∷ s) = if p c then drop_while p s else c ∷ s

-- s[i:j], where `rest` is s[j:] and `s` stands for s[i:].
unfoldable pub slice_to : Bytes → Bytes → Bytes
slice_to s rest = take (length s - length rest) s

-- strings.Join(parts, sep)
unfoldable pub join : Bytes → List Bytes → Bytes
join sep [] = []
join sep (p ∷ []) = p
join sep (p ∷ q ∷ ps) = p ++ (sep ++ join sep (q ∷ ps))

-- unicode.IsSpace
unfoldable pub is_space : ℕ → Bool
is_space r =
    within 9 13 r
    || r == 0x20
    || r == 0x85
    || r == 0xA0
    || r == 0x1680
    || within 0x2000 0x200A r
    || r == 0x2028
    || r == 0x2029
    || r == 0x202F
    || r == 0x205F
    || r == 0x3000

-- unicode.IsControl
unfoldable pub is_control : ℕ → Bool
is_control r = ltb r 0x20 || within 0x7F 0x9F r

-- A byte from '0' to '9'.
abbrev pub is_ascii_digit : ℕ → Bool
is_ascii_digit c = within b'0' b'9' c

hex_digit : ℕ → ℕ
hex_digit n = if ltb n 10 then b'0' + n else (b'a' + n - 10)

-- hex.EncodeToString
unfoldable pub hex : Bytes → Bytes
unfolding hex_digit
hex [] = []
hex (b ∷ s) = hex_digit (b / 16) ∷ hex_digit (b % 16) ∷ hex s

pub length-drop_while : (p : ℕ → Bool) (s : Bytes) → length (drop_while p s) ≤ length s
unfolding drop_while
length-drop_while p [] = omega arith
length-drop_while p (c ∷ s) = ground (arith, length-drop_while p s)
