-- ===== src/Filter/Reading.antt =====
-- How the value that `databaseFilter` (trace/runtime.go) writes is read: the configuration ends it at
-- a quote and takes a doubled brace for one, and SIMILAR TO takes what follows a backslash as it is.
use firebirdsql_otel.Common.{
  ℕ, ◌<◌, ◌≡◌, ◌≢◌, ◌⊎◌, inl, inr, refl, sym, ap, ◌∙◌, Bool, true, false, ◌||◌, not, Option, none,
  some, List, [], ◌∷◌, ◌++◌, length, leb, ◌==◌, if◌then◌else◌, if_rule, option_rule, Bool-cases,
  All, subst, All-append, append_assoc, arith,
}
use firebirdsql_otel.Text.{
  Bytes, IsScalar, runes, runes-encode_all, runes-IsScalar, encode_rune, encode_all, is_control,
  is_empty, valid_string,
}
use firebirdsql_otel.Filter.{is_brace, doubled, is_special, escape, quoted, database_filter}

-- The characters that have a meaning in a pattern of SIMILAR TO, beside the backslash.
abbrev is_meta : ℕ → Bool
is_meta c =
    (c == b'%' || c == b'_' || c == b'?' || c == b'*' || c == b'+' || c == b'|')
    || (c == b'(' || c == b')' || c == b'[' || c == b']' || c == b'{' || c == b'}')
    || (c == b'^' || c == b'-')

pub data Reading : Type 0 where
  plain escaped : Reading
  doubling : ℕ → Reading

abbrev keep : ℕ → Option (List ℕ) → Option (List ℕ)
keep r none = none
keep r (some s) = some (r ∷ s)

-- What the pattern matches behind the quote that opens it, none if that is more than one text. A
-- character with a meaning stands behind a backslash, and no other does; a brace stands twice; the
-- next quote is the end.
unfoldable pub read : Reading → List ℕ → Option (List ℕ)
read plain [] = none
read escaped [] = none
read (doubling r) [] = none
read plain (c ∷ s) =
    let taken = read escaped s in
    let rest = read plain s in
    if c == b'"'
    then (if is_empty s then some [] else none)
    else if is_control c || is_meta c
    then none
    else if c == b'\\'
    then taken
    else keep c rest
read escaped (c ∷ s) =
    let twice = read (doubling c) s in
    let rest = read plain s in
    if is_brace c then twice else if is_meta c || c == b'\\' then keep c rest else none
read (doubling r) (c ∷ s) = let rest = read plain s in if c == r then keep r rest else none

unfoldable pub read_value : List ℕ → Option (List ℕ)
unfolding read
read_value [] = none
read_value (c ∷ s) = if c == b'"' then read plain s else none

-- A path of which no rune is a control character or a quote.
abbrev pub IsClean : List ℕ → Type 0
IsClean rs = All (λ r. (is_control r ≡ false) × (r ≢ b'"')) rs

special_iff : (r : ℕ) → is_special r ≡ (is_meta r || r == b'\\')
unfolding is_special
special_iff r = ground arith

read-rune :
    (r : ℕ) (t : List ℕ)
    → is_control r ≡ false
    → (r == b'"') ≡ false
    → read plain ((if is_special r then b'\\' ∷ [] else []) ++ (doubled r ++ t))
      ≡ keep r (read plain t)
unfolding read is_control
read-rune r t h k = ground (arith, special_iff r)

-- What the loop over the runes of a path returns.
Escapes : List ℕ → Option (List ℕ) → Type 0
Escapes rs none = ¬ IsClean rs
Escapes rs (some s) = (read plain (s ++ b'"' ∷ []) ≡ some rs) × (All IsScalar rs → All IsScalar s)

doubled-IsScalar : (r : ℕ) → IsScalar r → All IsScalar (doubled r)
doubled-IsScalar r h = if_rule (All IsScalar) (is_brace r) (λ _. (h, (h, tt))) λ _. (h, tt)

escaped-IsScalar :
    (r : ℕ) (s : List ℕ)
    → IsScalar r
    → All IsScalar s
    → All IsScalar ((if is_special r then b'\\' ∷ [] else []) ++ (doubled r ++ s))
escaped-IsScalar r s h hs =
    All-append IsScalar (if is_special r then b'\\' ∷ [] else []) (doubled r ++ s)
      (if_rule (All IsScalar) (is_special r) (λ _. ((omega arith, refl), tt)) λ _. tt)
      (All-append IsScalar (doubled r) s (doubled-IsScalar r h) hs)

append_assoc_3 : (xs ys zs ws : List ℕ) → (xs ++ (ys ++ zs)) ++ ws ≡ xs ++ (ys ++ (zs ++ ws))
append_assoc_3 xs ys zs ws = simp append_assoc

escape-Escapes : (rs : List ℕ) → Escapes rs (escape rs)
unfolding escape Escapes
escape-Escapes [] = (unfold read in refl, λ h. h)
escape-Escapes (r ∷ rs) =
    let P : Option (List ℕ) → Type 0 = Escapes (r ∷ rs) in
    let ih = escape-Escapes rs in
    if_rule P (is_control r || r == b'"') (λ bad h. ground (arith, h.0.0, h.0.1))
      λ good.
        option_rule P (escape rs) (λ e h. subst (Escapes rs) e ih h.1)
          λ s e.
            let (reads, scalar) = subst (Escapes rs) e ih in
            (
              ap (read plain) (
                    append_assoc_3 (if is_special r then b'\\' ∷ [] else []) (doubled r) s
                      (b'"' ∷ []))
                  ∙ read-rune r (s ++ b'"' ∷ []) (ground arith) (ground arith)
                  ∙ ap (keep r) reads,
              λ h. escaped-IsScalar r s h.0 (scalar h.1),
            )

encode_all-concat : (rs : List ℕ) → encode_all (rs ++ b'"' ∷ []) ≡ encode_all rs ++ b'"' ∷ []
unfolding encode_all encode_rune
encode_all-concat [] = refl
encode_all-concat (r ∷ rs) =
    ap (◌++◌ (encode_rune r)) (encode_all-concat rs)
    ∙ sym (append_assoc (encode_rune r) (encode_all rs) (b'"' ∷ []))

-- What `databaseFilter` answers for a path. Either it is a value that is read as the runes of the
-- path, or the path is empty, too long, not valid or not clean.
abbrev pub IsAnswer : Bytes → Option Bytes → Type 0
IsAnswer path (some out) = read_value (runes out) ≡ some (runes path)
IsAnswer path none =
    (path ≡ []) ⊎ (1024 < length path) ⊎ (valid_string path ≡ false) ⊎ (¬ IsClean (runes path))

quoted-IsAnswer :
    (path : Bytes) (o : Option (List ℕ)) → Escapes (runes path) o → IsAnswer path (quoted o)
unfolding quoted Escapes
quoted-IsAnswer path none h = inr (inr (inr h))
quoted-IsAnswer path (some s) (reads, scalar) =
    let all = scalar (runes-IsScalar path) in
    let body = s ++ b'"' ∷ [] in
    let whole : b'"' ∷ (encode_all s ++ b'"' ∷ []) ≡ encode_all (b'"' ∷ body) =
      unfold encode_all encode_rune in ap (◌∷◌ b'"') (sym (encode_all-concat s)) in
    let quote : IsScalar b'"' = (omega arith, refl) in
    ap (λ u. read_value (runes u)) whole
    ∙ ap read_value
        (runes-encode_all (b'"' ∷ body) (quote, All-append IsScalar s _ all (quote, tt)))
    ∙ unfold read_value in reads

refused_path :
    (path : Bytes)
    → (is_empty path || (not (leb (length path) 1024) || not (valid_string path))) ≡ true
    → (path ≡ []) ⊎ (1024 < length path) ⊎ (valid_string path ≡ false) ⊎ (¬ IsClean (runes path))
refused_path [] h = inl refl
refused_path (c ∷ s) h = elim (Bool-cases (leb (length (c ∷ s)) 1024)) [
  | inl e ↦ inr (inr (inl (ground arith)))
  | inr e ↦ inr (inl (ground arith))
]

-- For every path databaseFilter writes a value that is read, up to the quote that ends it, as the
-- pattern of exactly the runes of the path, or it refuses a path that is empty, longer than 1024
-- bytes, not valid UTF-8, or has a control character or a quote.
pub database_filter-IsAnswer : (path : Bytes) → IsAnswer path (database_filter path)
unfolding database_filter
database_filter-IsAnswer path =
    if_rule (IsAnswer path)
      (is_empty path || (not (leb (length path) 1024) || not (valid_string path)))
      (refused_path path)
      λ _. quoted-IsAnswer path (escape (runes path)) (escape-Escapes (runes path))
