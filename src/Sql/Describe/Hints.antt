-- ===== src/Sql/Describe/Hints.antt =====
-- What `Identifier` accepts is a dotted name, and nothing else.
use firebirdsql_otel.Common.{
  ℕ, ◌+◌, ◌≤◌, ◌≡◌, inl, inr, refl, sym, ap, ◌∙◌, subst, Bool, true, false, ◌&&◌, some, List, [],
  ◌∷◌, ◌++◌, append-nil, append_assoc, length, Bool-cases, arith,
}
use firebirdsql_otel.Text.{Bytes, codes, Platform, equal, equal_iff, equal_fold, is_empty}
use firebirdsql_otel.Sql.Lex.Scan.{Token}
use firebirdsql_otel.Sql.Lex.Step.{LexResult, accepted, rejected, out_of_fuel, lex}
use firebirdsql_otel.Sql.Describe.Names.{
  extend_name, object_name, max_name, is_whole_name, identifier,
}

-- `.identifier` any number of times, with the spelling.
pub data IsTail : List Token → Bytes → Type 0 where
  end : IsTail [] []
  part :
      {dot t : Token} {ts : List Token} {s : Bytes}
      → dot.text ≡ codes "."
      → t.identifier ≡ true
      → IsTail ts s
      → IsTail (dot ∷ t ∷ ts) (b'.' ∷ (t.text ++ s))

-- The tokens of a dotted name, and the name.
pub data IsDotted : List Token → Bytes → Type 0 where
  name :
      {t : Token} {ts : List Token} {s : Bytes}
      → t.identifier ≡ true
      → IsTail ts s
      → IsDotted (t ∷ ts) (t.text ++ s)

extend_name-bound : (s : Bytes) (i : ℕ) (ts : List Token) → (extend_name s i ts).1 ≤ i + length ts
unfolding extend_name
extend_name-bound s i [] = omega arith
extend_name-bound s i (dot ∷ []) = omega arith
extend_name-bound s i (dot ∷ t ∷ ts) =
    ground (arith, extend_name-bound (s ++ (b'.' ∷ t.text)) (i + 2) ts)

module _ (s : Bytes) (i : ℕ) (dot t : Token) (ts : List Token) where
  extend_name_part :
      (equal dot.text (codes ".") && t.identifier) ≡ true
      → extend_name s i (dot ∷ t ∷ ts) ≡ extend_name (s ++ (b'.' ∷ t.text)) (i + 2) ts
  unfolding extend_name
  extend_name_part e = ground arith

  extend_name_end :
      (equal dot.text (codes ".") && t.identifier) ≡ false → extend_name s i (dot ∷ t ∷ ts) ≡ (s, i)
  unfolding extend_name
  extend_name_end e = ground arith

-- A loop that ends at the end of the tokens has read a tail.
extend_name-IsTail :
    (s : Bytes) (i : ℕ) (ts : List Token)
    → (extend_name s i ts).1 ≡ i + length ts
    → (r : Bytes) × IsTail ts r × ((extend_name s i ts).0 ≡ s ++ r)
extend_name-IsTail s i [] h = ([], end, unfold extend_name in sym (append-nil s))
extend_name-IsTail s i (dot ∷ []) h = absurd (unfold extend_name in omega arith)
extend_name-IsTail s i (dot ∷ t ∷ ts) h =
    elim (Bool-cases (equal dot.text (codes ".") && t.identifier)) [
      | inl e ↦
          let longer = s ++ (b'.' ∷ t.text) in
          let step = extend_name_part s i dot t ts e in
          let (r, tail, spelled) =
            extend_name-IsTail longer (i + 2) ts (sym (ap (λ x. x.1) step) ∙ h ∙ omega arith) in
          (
            b'.' ∷ (t.text ++ r),
            part ((equal_iff dot.text (codes ".")).0 (ground arith)) (ground arith) tail,
            ap (λ x. x.0) step ∙ spelled ∙ append_assoc s (b'.' ∷ t.text) r,
          )
      | inr e ↦ absurd (omega (arith, ap (λ x. x.1) (extend_name_end s i dot t ts e)))
    ]

-- A name that ends where the tokens end is spelled by all of them.
object_name-IsDotted :
    (ts : List Token)
    → is_empty (object_name ts (some 0)).name ≡ false
    → (object_name ts (some 0)).end ≡ some (length ts)
    → IsDotted ts (object_name ts (some 0)).name
unfolding object_name
object_name-IsDotted [] h e = cc
object_name-IsDotted (t ∷ ts) h e =
    let whole : (t.identifier ≡ true)
        × ((extend_name t.text 1 ts).1 ≡ 1 + length ts)
        × ((object_name (t ∷ ts) (some 0)).name ≡ (extend_name t.text 1 ts).0) =
      ground arith in
    let (r, tail, spelled) = extend_name-IsTail t.text 1 ts whole.1 in
    subst (IsDotted (t ∷ ts)) (sym (whole.2 ∙ spelled)) (name whole.0 tail)

-- What `Identifier` promises of a hint.
pub record IsHint (p : Platform) (s : Bytes) : Type 0 where
  pub tokens : List Token
  pub spelling : Bytes
  pub lexes : lex p s ≡ accepted tokens
  pub dotted : IsDotted tokens spelling
  pub same : equal_fold p s spelling ≡ true
  pub short : length s ≤ max_name
  pub not_empty : is_empty s ≡ false

module _ (p : Platform) where
  is_whole_name-IsHint :
      (s : Bytes) (ts : List Token)
      → lex p s ≡ accepted ts
      → is_empty s ≡ false
      → is_whole_name p s ts ≡ true
      → IsHint p s
  unfolding is_whole_name
  is_whole_name-IsHint s ts l ne h =
      let facts : (is_empty (object_name ts (some 0)).name ≡ false)
          × ((object_name ts (some 0)).end ≡ some (length ts))
          × (length s ≤ max_name)
          × (equal_fold p s (object_name ts (some 0)).name ≡ true) =
        ground arith in
      record {
        tokens = ts;
        spelling = (object_name ts (some 0)).name;
        lexes = l;
        dotted = object_name-IsDotted ts facts.0 facts.1;
        same = facts.3;
        short = facts.2;
        not_empty = ne;
      }

  abbrev accepts : Bytes → LexResult → Bool
  accepts s (accepted ts) = is_whole_name p s ts
  accepts s rejected = false
  accepts s out_of_fuel = false

  result-IsHint :
      (s : Bytes) (r : LexResult)
      → lex p s ≡ r
      → is_empty s ≡ false
      → accepts s r ≡ true
      → IsHint p s
  result-IsHint s (accepted ts) e ne h = is_whole_name-IsHint s ts e ne h
  result-IsHint s rejected e ne h = cc
  result-IsHint s out_of_fuel e ne h = cc

  -- An accepted hint is, as a whole and up to letter case, a dotted name of at most 256 bytes: no
  -- literal, no operator and no second statement.
  pub identifier-IsHint : (s : Bytes) → identifier p s ≡ true → IsHint p s
  unfolding identifier
  identifier-IsHint s h =
      let facts : (is_empty s ≡ false) × (accepts s (lex p s) ≡ true) = ground arith in
      result-IsHint s (lex p s) refl facts.0 facts.1
