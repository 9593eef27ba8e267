-- ===== src/Plan/Normal.antt =====
-- What `normalizeClassicPlan` (trace/spans.go) makes of a plan: its words, with one space between them.
use firebirdsql_otel.Common.{
  ℕ, ◌≡◌, refl, sym, ap, ◌∙◌, Bool, true, false, not, ◌&&◌, ◌||◌, List, [], ◌∷◌, ◌++◌, ◌==◌,
  if◌then◌else◌, append-nil, arith,
}
use firebirdsql_otel.Text.{Bytes, runes, encode_all, is_empty, join}
use firebirdsql_otel.Plan.{classic_loop, normalize_classic_plan}

abbrev is_blank : ℕ → Bool
is_blank c = c == 0x20 || c == 0x09

-- The runes cut at each blank that is not between quotes: what stands in front of the first of them, and
-- what stands behind each.
pub cut : Bool → List ℕ → List ℕ × List (List ℕ)
cut quoted [] = ([], [])
cut quoted (c ∷ s) =
    let (w, ws) = cut (if c == b'"' then not quoted else quoted) s in
    if is_blank c && not quoted then ([], w ∷ ws) else (c ∷ w, ws)

-- The words among the pieces.
pub words_of : List (List ℕ) → List (List ℕ)
words_of [] = []
words_of (w ∷ ws) = if is_empty w then words_of ws else w ∷ words_of ws

-- The words of a plan; what stands between quotes is never cut.
pub words : List ℕ → List (List ℕ)
unfolding cut words_of
words rs = let (w, ws) = cut false rs in words_of (w ∷ ws)

-- The pieces one by one, with a space in front of a word that is not the first.
glue : Bool → List (List ℕ) → List ℕ
glue started [] = []
glue started (w ∷ ws) =
    if is_empty w
    then glue started ws
    else (if started then b' ' ∷ [] else []) ++ (w ++ glue true ws)

glue_first :
    (w : List ℕ) (ws : List (List ℕ)) → glue false (w ∷ ws) ≡ w ++ glue (not (is_empty w)) ws
unfolding glue
glue_first [] ws = refl
glue_first (c ∷ w) ws = refl

-- Behind a word the others follow, each behind a space.
glue_rest :
    (w : List ℕ) (ws : List (List ℕ)) → w ++ glue true ws ≡ join (b' ' ∷ []) (w ∷ words_of ws)
unfolding glue words_of join
glue_rest w [] = append-nil w
glue_rest w ([] ∷ ws) = glue_rest w ws
glue_rest w ((c ∷ v) ∷ ws) = ap (λ s. w ++ (b' ' ∷ s)) (glue_rest (c ∷ v) ws)

glue-join : (ws : List (List ℕ)) → glue false ws ≡ join (b' ' ∷ []) (words_of ws)
unfolding glue words_of join
glue-join [] = refl
glue-join ([] ∷ ws) = glue-join ws
glue-join ((c ∷ w) ∷ ws) = glue_rest (c ∷ w) ws

-- Between quotes no space waits to be written.
classic_loop-glue :
    (quoted started : Bool) (rs : List ℕ)
    → (classic_loop quoted false started rs
        ≡ (cut quoted rs).0 ++ glue (started || not (is_empty (cut quoted rs).0)) (cut quoted rs).1)
      × (quoted ≡ false
          → classic_loop quoted true started rs
            ≡ glue started ((cut quoted rs).0 ∷ (cut quoted rs).1))
unfolding classic_loop cut glue
classic_loop-glue quoted started [] = (refl, λ _. refl)
classic_loop-glue true started (r ∷ rs) = (
  ground (arith, (classic_loop-glue false true rs).0, (classic_loop-glue true true rs).0),
  λ h. cc,
)
classic_loop-glue false started (r ∷ rs) = (
  ground (
    arith,
    (classic_loop-glue true true rs).0,
    (classic_loop-glue false true rs).0,
    (classic_loop-glue false started rs).1 refl,
  ),
  λ h. ground (
    arith,
    (classic_loop-glue true true rs).0,
    (classic_loop-glue false true rs).0,
    (classic_loop-glue false started rs).1 refl,
  ),
)

-- A classic plan is normalized to its words with one space between them: blanks that are not between
-- quotes are lost at both ends and are one space elsewhere, and all else is kept as it is.
pub normalize_classic_plan-words :
    (plan : Bytes)
    → normalize_classic_plan plan ≡ encode_all (join (b' ' ∷ []) (words (runes plan)))
unfolding normalize_classic_plan words
normalize_classic_plan-words plan =
    let (w, ws) = cut false (runes plan) in
    ap encode_all
      ((classic_loop-glue false false (runes plan)).0 ∙ sym (glue_first w ws) ∙ glue-join (w ∷ ws))
