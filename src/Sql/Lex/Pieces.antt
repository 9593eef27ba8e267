-- ===== src/Sql/Lex/Pieces.antt =====
-- The pieces of a statement, and what `lex` (internal/sqltext/sql.go) may make of each.
use firebirdsql_otel.Common.{
  ℕ, zero, suc, ◌-◌, ◌≡◌, ◌≢◌, ◌⊎◌, inl, inr, refl, sym, ap, subst, ◌∙◌, true, false, Option, none,
  some, List, [], ◌∷◌, ◌++◌, length, drop, take, length-append, take-append-drop, append_assoc,
  ◌==◌, ==_iff, Bool-cases, All, arith,
}
use firebirdsql_otel.Text.{
  Bytes, codes, Platform, decode_rune, has_prefix, is_space, runes_from, runes_from-cons, to_upper,
  slice_to,
}
use firebirdsql_otel.Sql.Lex.Extents.{IsLine, IsComment, IsNumber, some_injective}
use firebirdsql_otel.Sql.Lex.Scan.{
  Token, skip_quoted, scan_alternative, starts_number, starts_word, continues_word, skip_word,
}
use firebirdsql_otel.Sql.Lex.Step.{placeholder, contains_rune, punctuation, is_constant}
use firebirdsql_otel.Sql.Lex.Cases.{opens_alternative, starts_quoted}

-- A quote begins the text.
abbrev Begins : ℕ → Bytes → Type 0
Begins q [] = ⊥
Begins q (c ∷ s) = c ≡ q

-- What stands behind the quote that opens a literal, up to the rest behind the quote that closes it. A
-- doubled quote stands for one, so the quote that closes it is not followed by another.
pub data IsQuoted (q : ℕ) : Bytes → Bytes → Type 0 where
  closed : {rest : Bytes} → ¬ Begins q rest → IsQuoted q (q ∷ rest) rest
  doubled : {s rest : Bytes} → IsQuoted q s rest → IsQuoted q (q ∷ q ∷ s) rest
  other : {c : ℕ} {s rest : Bytes} → c ≢ q → IsQuoted q s rest → IsQuoted q (c ∷ s) rest

module _ (p : Platform) where
  -- The bytes `u` are a whole word in front of `to`.
  pub record IsWord (u to : Bytes) : Type 0 where
    starts : starts_word p (decode_rune (u ++ to)).rune ≡ true
    word : List ℕ
    continues : All (λ r. continues_word p r ≡ true) word
    reads : runes_from zero (u ++ to) ≡ word ++ runes_from zero to
    ends : (to ≡ []) ⊎ (continues_word p (decode_rune to).rune ≡ false)

  -- The piece between two points of the statement, and the token that stands for it.
  pub data IsPiece (from to : Bytes) : Option Token → Type 0 where
    space :
        is_space (decode_rune from).rune ≡ true
        → to ≡ drop (decode_rune from).size from
        → IsPiece from to none
    remark : has_prefix (codes "--") from ≡ true → IsLine from to → IsPiece from to none
    comment :
        has_prefix (codes "/*") from ≡ true → IsComment 1 (drop 2 from) to → IsPiece from to none
    -- a literal or a constant is the placeholder, with no trace of its text
    string :
        {s : Bytes} → from ≡ b'\'' ∷ s → IsQuoted b'\'' s to → IsPiece from to (some placeholder)
    hexadecimal :
        {x : ℕ} {s : Bytes}
        → (x ≡ b'x') ⊎ (x ≡ b'X')
        → from ≡ x ∷ b'\'' ∷ s
        → IsQuoted b'\'' s to
        → IsPiece from to (some placeholder)
    alternative :
        opens_alternative (decode_rune from).rune from ≡ true
        → scan_alternative (drop 2 from) ≡ some to
        → IsPiece from to (some placeholder)
    number :
        starts_number (decode_rune from).rune from ≡ true
        → IsNumber p from to
        → IsPiece from to (some placeholder)
    constant :
        {u : Bytes}
        → from ≡ u ++ to
        → IsWord u to
        → is_constant (to_upper p u) ≡ true
        → IsPiece from to (some placeholder)
    -- a delimited identifier, as written
    delimited :
        {u s : Bytes}
        → from ≡ u ++ to
        → from ≡ b'"' ∷ s
        → IsQuoted b'"' s to
        → IsPiece from to (some (record { text = u; identifier = true }))
    -- a word that does not begin a literal, in upper case
    word :
        {u : Bytes}
        → from ≡ u ++ to
        → IsWord u to
        → opens_alternative (decode_rune from).rune from ≡ false
        → starts_quoted (decode_rune from).rune from ≡ false
        → is_constant (to_upper p u) ≡ false
        → IsPiece from to (some (record { text = to_upper p u; identifier = true }))
    -- a mark of the fixed set that does not begin a comment or a number
    mark :
        {r : ℕ}
        → from ≡ r ∷ to
        → contains_rune punctuation r ≡ true
        → has_prefix (codes "--") from ≡ false
        → has_prefix (codes "/*") from ≡ false
        → starts_number r from ≡ false
        → IsPiece from to (some (record { text = r ∷ []; identifier = false }))

  -- The pieces of a text one behind the other, up to some point, and their tokens.
  pub data Reads (s : Bytes) : List Token → Bytes → Type 0 where
    start : Reads s [] s
    skipped :
        {ts : List Token} {from to : Bytes} → Reads s ts from → IsPiece from to none → Reads s ts to
    emitted :
        {ts : List Token} {from to : Bytes} {t : Token}
        → Reads s ts from
        → IsPiece from to (some t)
        → Reads s (ts ++ t ∷ []) to

-- The end of the text, or a line comment that runs to it.
abbrev pub IsDone : Bytes → Type 0
IsDone s = (s ≡ []) ⊎ (has_prefix (codes "--") s ≡ true) × All (λ c. c ≢ b'\n') s

closed_at : {q c : ℕ} {s rest : Bytes} → c ≡ q → ¬ Begins q s → s ≡ rest → IsQuoted q (c ∷ s) rest
closed_at {q} {s} {rest} e n r =
    subst (λ x. IsQuoted q (x ∷ s) rest) (sym e) (subst (λ x. IsQuoted q (q ∷ s) x) r (closed n))

doubled_at :
    {q c d : ℕ} {s rest : Bytes} → c ≡ q → d ≡ q → IsQuoted q s rest → IsQuoted q (c ∷ d ∷ s) rest
doubled_at {q} {d} {s} {rest} e f h =
    subst (λ x. IsQuoted q (x ∷ d ∷ s) rest) (sym e)
      (subst (λ x. IsQuoted q (q ∷ x ∷ s) rest) (sym f) (doubled h))

pub skip_quoted-IsQuoted :
    (q : ℕ) (s rest : Bytes) → skip_quoted q s ≡ some rest → IsQuoted q s rest
unfolding skip_quoted
skip_quoted-IsQuoted q [] rest h = absurd (ground arith)
skip_quoted-IsQuoted q (c ∷ []) rest h = elim (Bool-cases (c == q)) [
  | inl e ↦ closed_at ((==_iff c q).0 e) (λ x. x) (some_injective (ground arith))
  | inr e ↦ absurd (ground arith)
]
skip_quoted-IsQuoted q (c ∷ d ∷ s) rest h = elim (Bool-cases (c == q)) [
  | inl e ↦ elim (Bool-cases (d == q)) [
    | inl f ↦
        doubled_at ((==_iff c q).0 e) ((==_iff d q).0 f)
          (skip_quoted-IsQuoted q s rest (ground arith))
    | inr f ↦ closed_at ((==_iff c q).0 e) (λ x. ground arith) (some_injective (ground arith))
  ]
  | inr e ↦ other (λ x. ground arith) (skip_quoted-IsQuoted q (d ∷ s) rest (ground arith))
]

-- One text is the end of the other.
abbrev pub IsSuffix : Bytes → Bytes → Type 0
IsSuffix to from = (u : Bytes) × (from ≡ u ++ to)

take-length : (u t : Bytes) → take (length u) (u ++ t) ≡ u
take-length [] t = refl
take-length (c ∷ u) t = ap (◌∷◌ c) (take-length u t)

pub slice_to-append : (u t : Bytes) → slice_to (u ++ t) t ≡ u
unfolding slice_to
slice_to-append u t =
    ap (λ n. take n (u ++ t)) {x = length (u ++ t) - length t} {y = length u}
      (omega (arith, length-append u t))
    ∙ take-length u t

IsSuffix-trans : (a b c : Bytes) → IsSuffix a b → IsSuffix b c → IsSuffix a c
IsSuffix-trans a b c (u, e) (v, f) = (v ++ u, f ∙ ap (λ x. v ++ x) e ∙ sym (append_assoc v u a))

drop-IsSuffix : (n : ℕ) (s : Bytes) → IsSuffix (drop n s) s
drop-IsSuffix n s = (take n s, sym (take-append-drop n s))

pub IsQuoted-IsSuffix : {q : ℕ} {s rest : Bytes} → IsQuoted q s rest → IsSuffix rest s
IsQuoted-IsSuffix {q} (closed h) = (q ∷ [], refl)
IsQuoted-IsSuffix {q} (doubled h) =
    let (u, e) = IsQuoted-IsSuffix h in (q ∷ q ∷ u, ap (λ x. q ∷ q ∷ x) e)
IsQuoted-IsSuffix (other {c} n h) = let (u, e) = IsQuoted-IsSuffix h in (c ∷ u, ap (λ x. c ∷ x) e)

-- What skip_word leaves is a suffix, it has read a run of word runes, and no such rune follows.
module _ (p : Platform) where
  pub skip_word-IsSuffix : (k : ℕ) (s : Bytes) → IsSuffix (skip_word p k s) s
  unfolding skip_word
  skip_word-IsSuffix k [] = ([], refl)
  skip_word-IsSuffix (suc k) (c ∷ s) =
      let (u, e) = skip_word-IsSuffix k s in (c ∷ u, ap (λ x. c ∷ x) e)
  skip_word-IsSuffix zero (c ∷ s) =
      elim (Bool-cases (continues_word p (decode_rune (c ∷ s)).rune)) [
        | inl e ↦
            let (u, f) = skip_word-IsSuffix ((decode_rune (c ∷ s)).size - 1) s in
            (c ∷ u, rw (e, skip_word) (ap (λ x. c ∷ x) f))
        | inr e ↦ ([], rw (e, skip_word) refl)
      ]

  skip_word_ends :
      (k : ℕ) (s : Bytes)
      → (skip_word p k s ≡ []) ⊎ (continues_word p (decode_rune (skip_word p k s)).rune ≡ false)
  unfolding skip_word
  skip_word_ends k [] = inl refl
  skip_word_ends (suc k) (c ∷ s) = skip_word_ends k s
  skip_word_ends zero (c ∷ s) = elim (Bool-cases (continues_word p (decode_rune (c ∷ s)).rune)) [
    | inl e ↦ rw (e, skip_word) (skip_word_ends ((decode_rune (c ∷ s)).size - 1) s)
    | inr e ↦ rw (e, skip_word) (inr e)
  ]

  skip_word-reads :
      (k : ℕ) (s : Bytes)
      → (w : List ℕ) × All (λ r. continues_word p r ≡ true) w
        × (runes_from k s ≡ w ++ runes_from zero (skip_word p k s))
  unfolding skip_word runes_from
  skip_word-reads k [] = ([], tt, refl)
  skip_word-reads (suc k) (c ∷ s) = skip_word-reads k s
  skip_word-reads zero (c ∷ s) = elim (Bool-cases (continues_word p (decode_rune (c ∷ s)).rune)) [
    | inl e ↦
        let (w, h, q) = skip_word-reads ((decode_rune (c ∷ s)).size - 1) s in
        (
          (decode_rune (c ∷ s)).rune ∷ w,
          (e, h),
          rw (e, runes_from, skip_word) (ap (◌∷◌ (decode_rune (c ∷ s)).rune) q),
        )
    | inr e ↦ ([], tt, rw (e, skip_word) refl)
  ]

  pub IsWord-here :
      (c : ℕ) (s : Bytes)
      → starts_word p (decode_rune (c ∷ s)).rune ≡ true
      → (u : Bytes) × (c ∷ s ≡ u ++ skip_word p 0 (drop (decode_rune (c ∷ s)).size (c ∷ s)))
        × IsWord p u (skip_word p 0 (drop (decode_rune (c ∷ s)).size (c ∷ s)))
  IsWord-here c s h =
      let r = decode_rune (c ∷ s) in
      let behind = drop r.size (c ∷ s) in
      let to = skip_word p 0 behind in
      let (u, e) =
        IsSuffix-trans to behind (c ∷ s) (skip_word-IsSuffix 0 behind)
          (drop-IsSuffix r.size (c ∷ s)) in
      let (w, all, q) = skip_word-reads 0 behind in
      (
        u,
        e,
        record {
          starts = subst (λ x. starts_word p (decode_rune x).rune ≡ true) e h;
          word = r.rune ∷ w;
          continues = (unfold starts_word continues_word in ground arith, all);
          reads = ap (runes_from zero) (sym e) ∙ runes_from-cons c s ∙ ap (◌∷◌ r.rune) q;
          ends = skip_word_ends 0 behind;
        },
      )
