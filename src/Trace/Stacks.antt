-- ===== src/Trace/Stacks.antt =====
-- `Parser.stacks` (internal/traceparse/parser.go): for each attachment and transaction the frames
-- that are open, the last one first. The map is an association list.
use firebirdsql_otel.Common.{
  ℕ, suc, ◌≤◌, ◌<◌, ◌≡◌, refl, Bool, ◌&&◌, List, [], ◌∷◌, length, ◌==◌, if◌then◌else◌, if_rule,
  arith,
}
use firebirdsql_otel.Text.{Bytes}

pub data Kind : Type 0 where
  statement procedure function trigger lifecycle gap : Kind

pub record Frame : Type 0 where
  pub kind : Kind
  pub name : Bytes
  pub sequence : ℕ
  pub statement : ℕ

-- `[2]int64{e.AttachmentID, e.TransactionID}`
pub record Key : Type 0 where
  pub attachment : ℕ
  pub transaction : ℕ

abbrev pub Stacks : Type 0
Stacks = List (Key × List Frame)

abbrev pub same_key : Key → Key → Bool
same_key a b = a.attachment == b.attachment && a.transaction == b.transaction

-- `p.stacks[key]`
unfoldable pub lookup : Key → Stacks → List Frame
lookup k [] = []
lookup k ((j, fs) ∷ m) = if same_key j k then fs else lookup k m

-- `p.stacks[key] = stack`
unfoldable pub insert : Key → List Frame → Stacks → Stacks
insert k fs [] = (k, fs) ∷ []
insert k fs ((j, gs) ∷ m) = if same_key j k then (k, fs) ∷ m else (j, gs) ∷ insert k fs m

-- `delete(p.stacks, key)`
unfoldable pub delete : Key → Stacks → Stacks
delete k [] = []
delete k ((j, gs) ∷ m) = if same_key j k then delete k m else (j, gs) ∷ delete k m

pub lookup-insert :
    (k j : Key) (fs : List Frame) (m : Stacks)
    → lookup j (insert k fs m) ≡ (if same_key k j then fs else lookup j m)
unfolding lookup insert
lookup-insert k j fs [] = refl
lookup-insert k j fs ((i, gs) ∷ m) = ground (arith, lookup-insert k j fs m)

pub lookup-delete :
    (k j : Key) (m : Stacks) → lookup j (delete k m) ≡ (if same_key k j then [] else lookup j m)
unfolding lookup delete
lookup-delete k j [] = ground arith
lookup-delete k j ((i, gs) ∷ m) = ground (arith, lookup-delete k j m)

pub length-delete : (k : Key) (m : Stacks) → length (delete k m) ≤ length m
unfolding delete
length-delete k [] = omega arith
length-delete k ((j, gs) ∷ m) = ground (arith, length-delete k m)

-- A key that has frames is replaced, any other is added.
pub length-insert :
    (k : Key) (fs : List Frame) (m : Stacks) → length (insert k fs m) ≤ suc (length m)
unfolding insert
length-insert k fs [] = omega arith
length-insert k fs ((j, gs) ∷ m) = ground (arith, length-insert k fs m)

pub length-insert_present :
    (k : Key) (fs : List Frame) (m : Stacks)
    → 0 < length (lookup k m)
    → length (insert k fs m) ≡ length m
unfolding insert lookup
length-insert_present k fs [] h = ground arith
length-insert_present k fs ((j, gs) ∷ m) h = ground (arith, length-insert_present k fs m)

-- What holds of every stack.
abbrev pub AllStacks {ℓ} : (List Frame → Type ℓ) → Stacks → Type ℓ
AllStacks P [] = Unit
AllStacks P ((k, fs) ∷ m) = P fs × AllStacks P m

module _ {ℓ} (P : List Frame → Type ℓ) (k : Key) where
  pub AllStacks-insert :
      (fs : List Frame) (m : Stacks) → P fs → AllStacks P m → AllStacks P (insert k fs m)
  unfolding insert
  AllStacks-insert fs [] h all = (h, tt)
  AllStacks-insert fs ((j, gs) ∷ m) h all =
      if_rule (AllStacks P) (same_key j k) {x = (k, fs) ∷ m} {y = (j, gs) ∷ insert k fs m}
        (λ _. (h, all.1)) λ _. (all.0, AllStacks-insert fs m h all.1)

  pub AllStacks-delete : (m : Stacks) → AllStacks P m → AllStacks P (delete k m)
  unfolding delete
  AllStacks-delete [] all = tt
  AllStacks-delete ((j, gs) ∷ m) all =
      if_rule (AllStacks P) (same_key j k) {x = delete k m} {y = (j, gs) ∷ delete k m}
        (λ _. AllStacks-delete m all.1) λ _. (all.0, AllStacks-delete m all.1)

  pub AllStacks-lookup : (m : Stacks) → P [] → AllStacks P m → P (lookup k m)
  unfolding lookup
  AllStacks-lookup [] e all = e
  AllStacks-lookup ((j, gs) ∷ m) e all =
      if_rule P (same_key j k) (λ _. all.0) λ _. AllStacks-lookup m e all.1
