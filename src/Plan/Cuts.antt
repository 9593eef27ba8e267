-- ===== src/Plan/Cuts.antt =====
-- Where `planParts` (trace/spans.go) cuts a valid text, and what is on both sides.
use firebirdsql_otel.Common.{
  ℕ, zero, suc, ◌-◌, ◌≤◌, ◌≡◌, refl, sym, ◌∙◌, Bool, true, ◌&&◌, not, [], ◌∷◌, ◌++◌, length, take,
  drop, ◌==◌, take-cons, length-take, take-append-drop, arith,
}
use firebirdsql_otel.Text.{
  Bytes, decode_rune, Rune, rune_error, valid_from, valid_string, decode_rune_sized,
  decode_rune_ascii,
}

abbrev pub is_valid_rune : Rune → Bool
is_valid_rune r = not (r.rune == rune_error && r.size == 1)

-- A rune that is valid in a text is the first one of every longer text.
pub decode_rune-append :
    (a : ℕ) (s t : Bytes)
    → is_valid_rune (decode_rune (a ∷ s)) ≡ true
    → decode_rune (a ∷ s ++ t) ≡ decode_rune (a ∷ s)
unfolding decode_rune
decode_rune-append a [] t h = ground arith
decode_rune-append a (b ∷ []) t h = ground arith
decode_rune-append a (b ∷ c ∷ []) t h = ground arith
decode_rune-append a (b ∷ c ∷ d ∷ s) t h = ground arith

-- It needs no more bytes than its own.
decode_rune-take :
    (a : ℕ) (s : Bytes)
    → is_valid_rune (decode_rune (a ∷ s)) ≡ true
    → decode_rune (take (decode_rune (a ∷ s)).size (a ∷ s)) ≡ decode_rune (a ∷ s)
unfolding decode_rune
decode_rune-take a [] h = ground arith
decode_rune-take a (b ∷ []) h = ground arith
decode_rune-take a (b ∷ c ∷ []) h = ground arith
decode_rune-take a (b ∷ c ∷ d ∷ s) h = ground arith

-- A line feed is no part of a longer rune.
decode_rune-feed :
    (a : ℕ) (s t : Bytes)
    → is_valid_rune (decode_rune (a ∷ s ++ b'\n' ∷ t)) ≡ true
    → (decode_rune (a ∷ s ++ b'\n' ∷ []) ≡ decode_rune (a ∷ s ++ b'\n' ∷ t))
      × ((decode_rune (a ∷ s ++ b'\n' ∷ t)).size ≤ suc (length s))
unfolding decode_rune
decode_rune-feed a [] [] h = ground arith
decode_rune-feed a [] (x ∷ []) h = ground arith
decode_rune-feed a [] (x ∷ y ∷ t) h = ground arith
decode_rune-feed a (b ∷ []) [] h = ground arith
decode_rune-feed a (b ∷ []) (x ∷ t) h = ground arith
decode_rune-feed a (b ∷ c ∷ []) t h = ground arith
decode_rune-feed a (b ∷ c ∷ d ∷ s) t h = ground arith

valid_from-drop : (k : ℕ) (s : Bytes) → valid_from k s ≡ valid_from zero (drop k s)
unfolding valid_from
valid_from-drop zero s = refl
valid_from-drop (suc k) [] = refl
valid_from-drop (suc k) (c ∷ s) = valid_from-drop k s

pub valid_from-cons :
    (c : ℕ) (s : Bytes)
    → valid_from zero (c ∷ s) ≡ true
    → (is_valid_rune (decode_rune (c ∷ s)) ≡ true)
      × (valid_from ((decode_rune (c ∷ s)).size - 1) s ≡ true)
unfolding valid_from
valid_from-cons c s h = ground arith

valid_from-rune :
    (c : ℕ) (s : Bytes)
    → is_valid_rune (decode_rune (c ∷ s)) ≡ true
    → valid_from ((decode_rune (c ∷ s)).size - 1) s ≡ true
    → valid_from zero (c ∷ s) ≡ true
unfolding valid_from
valid_from-rune c s h k = ground arith

-- Fewer bytes than a rune has left are passed over.
valid_from-short : (k : ℕ) (s : Bytes) → length s ≤ k → valid_from k s ≡ true
unfolding valid_from
valid_from-short k [] h = refl
valid_from-short zero (c ∷ s) h = elim h [ ]
valid_from-short (suc k) (c ∷ s) h = valid_from-short k s (omega arith)

-- The text behind a valid prefix of a valid text is valid.
valid_from-append :
    (k : ℕ) (s t : Bytes)
    → k ≤ length s
    → valid_from k s ≡ true
    → valid_from k (s ++ t) ≡ true
    → valid_from zero t ≡ true
unfolding valid_from
valid_from-append zero [] t b h w = w
valid_from-append (suc k) [] t b h w = elim b [ ]
valid_from-append (suc k) (c ∷ s) t b h w = valid_from-append k s t (omega arith) h w
valid_from-append zero (c ∷ s) t b h w =
    let (v, rest) = valid_from-cons c s h in
    let same = decode_rune-append c s t v in
    let z = decode_rune_sized c s in
    valid_from-append ((decode_rune (c ∷ s)).size - 1) s t (omega arith) rest
      (rw same at (valid_from-cons c (s ++ t) w).1)

-- The text up to a line feed is valid with it.
valid_from-feed :
    (k : ℕ) (s t : Bytes)
    → k ≤ length s
    → valid_from k (s ++ b'\n' ∷ t) ≡ true
    → valid_from k (s ++ b'\n' ∷ []) ≡ true
unfolding valid_from
valid_from-feed zero [] t b w = rw (decode_rune_ascii b'\n' [] (omega arith)) refl
valid_from-feed (suc k) [] t b w = elim b [ ]
valid_from-feed (suc k) (c ∷ s) t b w = valid_from-feed k s t (omega arith) w
valid_from-feed zero (c ∷ s) t b w =
    let (v, rest) = valid_from-cons c (s ++ b'\n' ∷ t) w in
    let (same, short) = decode_rune-feed c s t v in
    valid_from-rune c (s ++ b'\n' ∷ []) (rw same v) (
      rw same
        (valid_from-feed ((decode_rune (c ∷ s ++ b'\n' ∷ t)).size - 1) s t (omega arith) rest))

pub valid_string_lem : (s : Bytes) → valid_string s ≡ valid_from zero s
unfolding valid_string
valid_string_lem s = refl

-- The first rune of a valid text is valid by itself.
pub valid_string-rune :
    (c : ℕ) (s : Bytes)
    → valid_string (c ∷ s) ≡ true
    → valid_string (take (decode_rune (c ∷ s)).size (c ∷ s)) ≡ true
valid_string-rune c s w =
    let r = decode_rune (c ∷ s) in
    let (v, rest) = valid_from-cons c s (sym (valid_string_lem (c ∷ s)) ∙ w) in
    let head = take-cons r.size c s (decode_rune_sized c s).0 in
    let same = rw head at (decode_rune-take c s v) in
    valid_string_lem (take r.size (c ∷ s))
    ∙ rw head (
        valid_from-rune c (take (r.size - 1) s) (rw same v) (
          rw same (
            valid_from-short (r.size - 1) (take (r.size - 1) s)
              (omega (arith, length-take (r.size - 1) s)))))

-- What a valid prefix leaves of a valid text is valid.
pub valid_string-drop :
    (n : ℕ) (s : Bytes)
    → valid_string s ≡ true
    → valid_string (take n s) ≡ true
    → valid_string (drop n s) ≡ true
valid_string-drop n s w v =
    valid_string_lem (drop n s)
    ∙ valid_from-append zero (take n s) (drop n s) (omega arith)
        (sym (valid_string_lem (take n s)) ∙ v)
        (rw (take-append-drop n s) (sym (valid_string_lem s) ∙ w))

-- A valid text may be cut behind a line feed.
pub valid_string-feed :
    (s t : Bytes) → valid_string (s ++ b'\n' ∷ t) ≡ true → valid_string (s ++ b'\n' ∷ []) ≡ true
valid_string-feed s t w =
    valid_string_lem (s ++ b'\n' ∷ [])
    ∙ valid_from-feed zero s t (omega arith) (sym (valid_string_lem (s ++ b'\n' ∷ t)) ∙ w)
