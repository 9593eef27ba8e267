-- ===== src/Spans/Collect/Counts.antt =====
-- `active` and `activeByAttachment` of `consume` (trace/spans.go): the number of active sequences of an
-- attachment, and its counter.
use firebirdsql_otel.Common.{
  ℕ, suc, ◌+◌, ◌-◌, ◌≤◌, ◌≡◌, sym, ap, ◌∙◌, ==_iff, true, Option, none, some, List, [], ◌∷◌, ◌==◌,
  if◌then◌else◌, if_rule, option_rule, find_key, remove_key, put_key, remove_values, arith,
}
use firebirdsql_otel.Spans.Collect.Step.{increment, decrement}

-- How many sequences of an attachment are active, and what its counter says.
unfoldable pub running : ℕ → List (ℕ × ℕ) → ℕ
running a [] = 0
running a ((s, k) ∷ m) = (if k == a then 1 else 0) + running a m

unfoldable pub counted : ℕ → List (ℕ × ℕ) → ℕ
unfolding find_key
counted a m = elim (find_key a m) as (λ _. ℕ) [ none ↦ 0 | some n ↦ n ]

abbrev pub one : ℕ → ℕ → ℕ
one k a = if k == a then 1 else 0

pub running-put_key :
    (a s k : ℕ) (m : List (ℕ × ℕ)) → running a (put_key s k m) ≤ running a m + one k a
unfolding running put_key
running-put_key a s k [] = ground arith
running-put_key a s k ((j, b) ∷ m) = ground (arith, running-put_key a s k m)

running-remove_key_le : (a s : ℕ) (m : List (ℕ × ℕ)) → running a (remove_key s m) ≤ running a m
unfolding running remove_key
running-remove_key_le a s [] = ground arith
running-remove_key_le a s ((j, b) ∷ m) = ground (arith, running-remove_key_le a s m)

pub running-remove_key :
    (a s k : ℕ) (m : List (ℕ × ℕ))
    → find_key s m ≡ some k
    → running a (remove_key s m) + one k a ≤ running a m
unfolding running remove_key find_key
running-remove_key a s k [] h = ground arith
running-remove_key a s k ((j, b) ∷ m) h =
    ground (arith, running-remove_key a s k m, running-remove_key_le a s m)

pub running-remove_values :
    (a k : ℕ) (m : List (ℕ × ℕ))
    → running a (remove_values (λ x. x == k) m) ≤ (if k == a then 0 else running a m)
unfolding running remove_values
running-remove_values a k [] = ground arith
running-remove_values a k ((j, b) ∷ m) = ground (arith, running-remove_values a k m)

counted-put_key :
    (a k n : ℕ) (m : List (ℕ × ℕ)) → counted a (put_key k n m) ≡ (if k == a then n else counted a m)
unfolding counted put_key find_key
counted-put_key a k n [] = ground arith
counted-put_key a k n ((j, b) ∷ m) = ground (arith, counted-put_key a k n m)

pub counted-remove_key :
    (a k : ℕ) (m : List (ℕ × ℕ)) → counted a (remove_key k m) ≡ (if k == a then 0 else counted a m)
unfolding counted remove_key find_key
counted-remove_key a k [] = ground arith
counted-remove_key a k ((j, b) ∷ m) = ground (arith, counted-remove_key a k m)

counted_found :
    (a k n : ℕ) (m : List (ℕ × ℕ)) → find_key k m ≡ some n → (k == a) ≡ true → counted a m ≡ n
unfolding counted
counted_found a k n m f e =
    ap (λ x. counted x m) (sym ((==_iff k a).0 e))
    ∙ ap (λ (x : Option ℕ). elim x as (λ _. ℕ) [ none ↦ 0 | some n ↦ n ]) f

counted_missing :
    (a k : ℕ) (m : List (ℕ × ℕ)) → find_key k m ≡ none → (k == a) ≡ true → counted a m ≡ 0
unfolding counted
counted_missing a k m f e =
    ap (λ x. counted x m) (sym ((==_iff k a).0 e))
    ∙ ap (λ (x : Option ℕ). elim x as (λ _. ℕ) [ none ↦ 0 | some n ↦ n ]) f

pub counted-increment :
    (a k : ℕ) (m : List (ℕ × ℕ)) → counted a (increment k m) ≡ counted a m + one k a
unfolding increment
counted-increment a k m =
    let P : List (ℕ × ℕ) → Type 0 = λ x. counted a x ≡ counted a m + one k a in
    option_rule P (find_key k m)
      (λ f. ground (arith, counted-put_key a k 1 m, counted_missing a k m f))
      λ n f. ground (arith, counted-put_key a k (suc n) m, counted_found a k n m f)

pub counted-decrement :
    (a k : ℕ) (m : List (ℕ × ℕ)) → counted a (decrement k m) ≡ counted a m - one k a
unfolding decrement
counted-decrement a k m =
    let P : List (ℕ × ℕ) → Type 0 = λ x. counted a x ≡ counted a m - one k a in
    option_rule P (find_key k m) (λ f. ground (arith, counted_missing a k m f))
      λ n f.
        if_rule P (n == 1)
          (λ e. ground (arith, e, counted-remove_key a k m, counted_found a k n m f))
          λ e. ground (arith, e, counted-put_key a k (n - 1) m, counted_found a k n m f)
