-- ===== src/Sql/Lex/Cases.antt =====
-- The case rule for one round of the lexer: what holds of the outcome of each branch holds of the
-- round.
use firebirdsql_otel.Common.{
  ℕ, zero, suc, Bool, true, false, ◌&&◌, ◌||◌, ◌≡◌, refl, List, length, drop, leb, ltb, ◌==◌,
  if_rule, arith,
}
use firebirdsql_otel.Text.{
  Bytes, codes, Platform, Rune, decode_rune, has_prefix, is_space, is_empty,
}
use firebirdsql_otel.Sql.Lex.Scan.{
  Token, skip_line, skip_comment, scan_alternative, starts_number, scan_number, starts_word,
  skip_word,
}
use firebirdsql_otel.Sql.Lex.Step.{
  LexState, Outcome, byte_at, next, stop, reject, max_tokens, contains_rune, punctuation, resume,
  literal, line_comment, is_hex_literal, quoted, word_token, open_after, punctuation_token,
  lex_rune, lex_step, lex_loop, finish, rejected, accepted, lex, lex_lem, initial,
}

-- A q-literal begins.
abbrev pub opens_alternative : ℕ → Bytes → Bool
opens_alternative r s = (r == b'q' || r == b'Q') && ltb 2 (length s) && byte_at s 1 b'\''

-- A string, a delimited identifier or a hexadecimal string begins.
abbrev pub starts_quoted : ℕ → Bytes → Bool
starts_quoted r s = r == b'\'' || r == b'"' || is_hex_literal r s

pub record Branches {ℓ} (p : Platform) (P : Outcome → Type ℓ) (st : LexState) (r : Rune)
    : Type ℓ where
  pub on_space : is_space r.rune ≡ true → P (next (record st { rest = drop r.size st.rest }))
  pub on_line_comment :
      has_prefix (codes "--") st.rest ≡ true → P (line_comment st (skip_line st.rest))
  pub on_comment :
      has_prefix (codes "/*") st.rest ≡ true → P (resume st (skip_comment 1 (drop 2 st.rest)))
  pub on_alternative :
      opens_alternative r.rune st.rest ≡ true → P (literal st (scan_alternative (drop 2 st.rest)))
  pub on_quoted : starts_quoted r.rune st.rest ≡ true → P (quoted st r.rune)
  pub on_number : starts_number r.rune st.rest ≡ true → P (literal st (scan_number p st.rest))
  pub on_word :
      opens_alternative r.rune st.rest ≡ false
      → starts_quoted r.rune st.rest ≡ false
      → starts_word p r.rune ≡ true
      → P (word_token p st (skip_word p 0 (drop r.size st.rest)))
  pub on_punctuation :
      has_prefix (codes "--") st.rest ≡ false
      → has_prefix (codes "/*") st.rest ≡ false
      → starts_number r.rune st.rest ≡ false
      → contains_rune punctuation r.rune ≡ true
      → P (punctuation_token st r (open_after st.delimiters r.rune))
  pub on_reject : P reject

pub lex_rune_rule {ℓ} :
    (p : Platform) (P : Outcome → Type ℓ) (st : LexState) (r : Rune)
    → Branches p P st r
    → P (lex_rune p st r)
unfolding lex_rune
lex_rune_rule p P st r b = if_rule P (is_space r.rune) b.on_space λ _.
    if_rule P (has_prefix (codes "--") st.rest) b.on_line_comment λ line.
      if_rule P (has_prefix (codes "/*") st.rest) b.on_comment λ block.
        if_rule P (opens_alternative r.rune st.rest) b.on_alternative λ alternative.
          if_rule P (starts_quoted r.rune st.rest) b.on_quoted λ quoted.
            if_rule P _ b.on_number λ number.
              if_rule P _ (b.on_word alternative quoted)
                λ _. if_rule P _ (b.on_punctuation line block number) λ _. b.on_reject

-- The same for a whole round: the token limit is checked first.
pub lex_step_rule {ℓ} :
    (p : Platform) (P : Outcome → Type ℓ) (st : LexState)
    → P stop
    → P reject
    → (is_empty st.rest ≡ false
        → leb max_tokens (length st.out) ≡ false
        → Branches p P st (decode_rune st.rest))
    → P (lex_step p st)
unfolding lex_step
lex_step_rule p P st s f b =
    if_rule P (is_empty st.rest) (λ _. s)
      λ full.
        if_rule P (leb max_tokens (length st.out)) (λ _. f)
          λ few. lex_rune_rule p P st (decode_rune st.rest) (b full few)

-- `P` holds of the next state, if there is one.
abbrev pub Next {ℓ} : (LexState → Type ℓ) → Outcome → Type ℓ
Next P (next st) = P st
Next P stop = Unit
Next P reject = Unit

finish-accepted :
    (st : LexState) {ts : List Token}
    → finish st ≡ accepted ts
    → (st.out ≡ ts) × (is_empty st.delimiters ≡ true)
unfolding finish
finish-accepted st h = ground arith

-- The invariant rule of the loop: what every round keeps holds of the state in which the loop
-- stops, and the tokens of that state are the result.
module _ {ℓ} (p : Platform) (P : LexState → Type ℓ)
    (keep : (st : LexState) → P st → Next P (lex_step p st)) where
  abbrev Result : List Token → Type ℓ
  Result ts =
      (st : LexState) × P st
      × (st.out ≡ ts)
      × (is_empty st.delimiters ≡ true)
      × (lex_step p st ≡ stop)

  lex_loop_inv :
      (fuel : ℕ) (st : LexState) {ts : List Token}
      → P st
      → lex_loop p fuel st ≡ accepted ts
      → Result ts
  unfolding lex_loop
  lex_loop_inv zero st h e = cc
  lex_loop_inv (suc fuel) st {ts} h e =
      (elim (lex_step p st)
          as (λ o.
            lex_step p st ≡ o
            → Next P o
            → elim o [ next st' ↦ lex_loop p fuel st' | stop ↦ finish st | reject ↦ rejected ]
              ≡ accepted ts
            → Result ts) [
              | next st' ↦ λ _ k r. lex_loop_inv fuel st' k r
              | stop ↦ λ s k r. (st, h, (finish-accepted st r).0, (finish-accepted st r).1, s)
              | reject ↦ λ _ k r. cc
            ])
        refl (keep st h) e

  pub lex_inv : (s : Bytes) {ts : List Token} → P (initial s) → lex p s ≡ accepted ts → Result ts
  lex_inv s h e = lex_loop_inv (suc (length s)) (initial s) h (rw lex_lem at e)
