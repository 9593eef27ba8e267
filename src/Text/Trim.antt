-- ===== src/Text/Trim.antt =====
-- strings.TrimSpace, strings.TrimLeft, strings.HasSuffix and strings.TrimSuffix.
use firebirdsql_otel.Common.{
  ℕ, zero, suc, ◌+◌, ◌-◌, Bool, true, false, [], ◌∷◌, length, take, drop, ltb, ◌==◌, if◌then◌else◌,
}
use firebirdsql_otel.Text.Utf8.{Bytes, decode_rune}
use firebirdsql_otel.Text.Strings.{is_space, equal}

-- The text from its first rune that is no space; the first argument counts the bytes left of the
-- rune at hand.
unfoldable pub trim_left : ℕ → Bytes → Bytes
trim_left k [] = []
trim_left (suc k) (c ∷ s) = trim_left k s
trim_left zero (c ∷ s) =
    let r = decode_rune (c ∷ s) in
    elim (is_space r.rune) [ true ↦ trim_left (r.size - 1) s | false ↦ c ∷ s ]

-- Where the last rune ends that is no space: the bytes left of the rune at hand, the position, and
-- the end found so far.
unfoldable pub last_end : ℕ → ℕ → ℕ → Bytes → ℕ
last_end k at end [] = end
last_end (suc k) at end (c ∷ s) = last_end k (at + 1) end s
last_end zero at end (c ∷ s) =
    let r = decode_rune (c ∷ s) in
    last_end (r.size - 1) (at + 1) (if is_space r.rune then end else at + r.size) s

-- strings.TrimSpace
unfoldable pub trim_space : Bytes → Bytes
unfolding trim_left last_end decode_rune is_space
trim_space s = let t = trim_left 0 s in take (last_end 0 0 0 t) t

-- strings.HasSuffix(s, p)
unfoldable pub has_suffix : Bytes → Bytes → Bool
unfolding equal
has_suffix p s = if ltb (length s) (length p) then false else equal (drop (length s - length p) s) p

-- strings.TrimSuffix(s, p)
unfoldable pub trim_suffix : Bytes → Bytes → Bytes
unfolding has_suffix
trim_suffix p s = if has_suffix p s then take (length s - length p) s else s

-- strings.TrimLeft(s, cutset), for a cutset of one ASCII byte
unfoldable pub trim_left_byte : ℕ → Bytes → Bytes
trim_left_byte b [] = []
trim_left_byte b (c ∷ s) = if c == b then trim_left_byte b s else c ∷ s
