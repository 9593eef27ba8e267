-- ===== src/Plan/Parts.antt =====
-- The parts that `planParts` (trace/spans.go) makes of a valid plan.
use mathlib.Core.Option
use firebirdsql_otel.Common.{
  ℕ, zero, suc, ◌≤◌, ◌≡◌, ◌≢◌, refl, sym, ap, ◌∙◌, true, min, some, List, [], ◌∷◌, ◌++◌, length,
  take, drop, leb, ltb, All, option_rule, if_rule, take-append-drop, length-take, length-drop,
  arith,
}
use firebirdsql_otel.Text.{Bytes, decode_rune, decode_rune_sized, valid_string}
use firebirdsql_otel.Plan.{
  max_part, valid_end, last_index, line_end, part_end, parts_loop, plan_parts,
}
use firebirdsql_otel.Plan.Cuts.{valid_string-rune, valid_string-drop, valid_string-feed}

abbrev pub concat : List Bytes → Bytes
concat [] = []
concat (p ∷ ps) = p ++ concat ps

-- A part is a valid text of one byte at least and of 255 at most.
abbrev pub IsPart : Bytes → Type 0
IsPart p = (1 ≤ length p) × (length p ≤ max_part) × (valid_string p ≡ true)

valid_string-nil : valid_string [] ≡ true
unfolding valid_string
valid_string-nil = refl

-- `end` stops at the longest valid prefix.
valid_end_bounds :
    (n m : ℕ) (s : Bytes)
    → m ≤ n
    → valid_string (take m s) ≡ true
    → (m ≤ valid_end n s) × (valid_end n s ≤ n) × (valid_string (take (valid_end n s) s) ≡ true)
unfolding valid_end
valid_end_bounds zero m s h v = (h, omega arith, valid_string-nil)
valid_end_bounds (suc n) m s h v =
    let P : ℕ → Type 0 = λ x. (m ≤ x) × (x ≤ suc n) × (valid_string (take x s) ≡ true) in
    if_rule P (valid_string (take (suc n) s)) (λ e. (h, omega arith, e))
      λ e.
        let other : m ≢ suc n = λ q. cc (ap (λ k. valid_string (take k s)) q) in
        let (low, high, w) = valid_end_bounds n m s (omega arith) v in (low, omega arith, w)

last_index-zero : (b c : ℕ) (s : Bytes) → last_index b (c ∷ s) ≡ some 0 → c ≡ b
unfolding last_index
last_index-zero b c s h = ground arith

last_index-suc :
    (b c : ℕ) (s : Bytes) (i : ℕ) → last_index b (c ∷ s) ≡ some (suc i) → last_index b s ≡ some i
unfolding last_index
last_index-suc b c s i h = ground arith

-- The text in front of the last line feed, with it.
last_index-take :
    (b : ℕ) (s : Bytes) (i : ℕ)
    → last_index b s ≡ some i
    → (s ≡ take i s ++ b ∷ drop (suc i) s)
      × (take (suc i) s ≡ take i s ++ b ∷ [])
      × (suc i ≤ length s)
unfolding last_index
last_index-take b [] i h = ground arith
last_index-take b (c ∷ s) zero h =
    let same = last_index-zero b c s h in (ap (λ x. x ∷ s) same, ap (λ x. x ∷ []) same, omega arith)
last_index-take b (c ∷ s) (suc i) h =
    let (whole, front, short) = last_index-take b s i (last_index-suc b c s i h) in
    (ap (λ t. c ∷ t) whole, ap (λ t. c ∷ t) front, omega arith)

take-take : (n m : ℕ) (s : Bytes) → n ≤ m → take n (take m s) ≡ take n s
take-take zero m s h = refl
take-take (suc n) zero s h = elim h [ ]
take-take (suc n) (suc m) [] h = refl
take-take (suc n) (suc m) (c ∷ s) h = ap (λ t. c ∷ t) (take-take n m s (omega arith))

-- The cut behind the last line feed of the valid prefix is a cut of it.
line_end_bounds :
    (s : Bytes) (end : ℕ)
    → 1 ≤ end
    → end ≤ length s
    → valid_string (take end s) ≡ true
    → (1 ≤ line_end s end)
      × (line_end s end ≤ end)
      × (valid_string (take (line_end s end) s) ≡ true)
unfolding line_end
line_end_bounds s end low high v =
    let P : ℕ → Type 0 = λ x. (1 ≤ x) × (x ≤ end) × (valid_string (take x s) ≡ true) in
    option_rule P (last_index b'\n' (take end s)) (λ _. (low, omega arith, v))
      λ i e.
        if_rule P (leb 160 i)
          (λ _.
            let (whole, front, short) = last_index-take b'\n' (take end s) i e in
            let before : suc i ≤ end = omega (arith, length-take end s) in
            (
              omega arith,
              before,
              ap valid_string (sym (take-take (suc i) end s before) ∙ front)
                  ∙ valid_string-feed (take i (take end s)) (drop (suc i) (take end s))
                      (ap valid_string (sym whole) ∙ v),
            ))
          λ _. (low, omega arith, v)

rune_size : (c : ℕ) (s : Bytes) → (decode_rune (c ∷ s)).size ≤ 4
unfolding decode_rune
rune_size c [] = ground arith
rune_size c (d ∷ []) = ground arith
rune_size c (d ∷ e ∷ []) = ground arith
rune_size c (d ∷ e ∷ f ∷ s) = ground arith

-- The next part of a valid plan is a valid prefix of it.
part_end_bounds :
    (c : ℕ) (s : Bytes)
    → valid_string (c ∷ s) ≡ true
    → (part_end (c ∷ s) ≤ length (c ∷ s)) × IsPart (take (part_end (c ∷ s)) (c ∷ s))
unfolding part_end
part_end_bounds c s v =
    let r = decode_rune (c ∷ s) in
    let n = min (length (c ∷ s)) max_part in
    let sized = decode_rune_sized c s in
    let small : r.size ≤ n = omega (arith, rune_size c s) in
    let (low, high, w) = valid_end_bounds n r.size (c ∷ s) small (valid_string-rune c s v) in
    let end = valid_end n (c ∷ s) in
    let P : ℕ → Type 0 = λ x. (x ≤ length (c ∷ s)) × IsPart (take x (c ∷ s)) in
    if_rule P (ltb end (length (c ∷ s)))
      (λ _.
        let (above, below, u) = line_end_bounds (c ∷ s) end (omega arith) (omega arith) w in
        let x = line_end (c ∷ s) end in
        (
          omega arith,
          (omega (arith, length-take x (c ∷ s)), omega (arith, length-take x (c ∷ s)), u),
        ))
      λ _. (
        omega arith,
        (omega (arith, length-take end (c ∷ s)), omega (arith, length-take end (c ∷ s)), w),
      )

parts_loop-IsPart :
    (fuel : ℕ) (s : Bytes)
    → length s ≤ fuel
    → valid_string s ≡ true
    → (ps : List Bytes) × (parts_loop fuel s ≡ some ps) × (concat ps ≡ s) × All IsPart ps
unfolding parts_loop
parts_loop-IsPart fuel [] h v = ([], refl, refl, tt)
parts_loop-IsPart zero (c ∷ s) h v = elim h [ ]
parts_loop-IsPart (suc fuel) (c ∷ s) h v =
    let end = part_end (c ∷ s) in
    let (short, part) = part_end_bounds c s v in
    let (ps, found, whole, all) =
      parts_loop-IsPart fuel (drop end (c ∷ s))
        (omega (arith, length-drop end (c ∷ s), length-take end (c ∷ s), part.0))
        (valid_string-drop end (c ∷ s) v part.2) in
    (
      take end (c ∷ s) ∷ ps,
      ap (Option.map (◌∷◌ (take end (c ∷ s)))) found,
      ap (λ t. take end (c ∷ s) ++ t) whole ∙ take-append-drop end (c ∷ s),
      (part, all),
    )

-- For a valid plan `planParts` ends, and its parts make up the plan: each is valid, not empty and
-- at most 255 bytes long.
pub plan_parts-IsPart :
    (plan : Bytes)
    → valid_string plan ≡ true
    → (ps : List Bytes) × (plan_parts plan ≡ some ps) × (concat ps ≡ plan) × All IsPart ps
unfolding plan_parts
plan_parts-IsPart plan v = parts_loop-IsPart (length plan) plan (omega arith) v
