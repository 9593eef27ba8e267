-- ===== src/Trace/Correlate/Pairing.antt =====
-- A finish is paired with the start that it closes.
use firebirdsql_otel.Common.{
  ◌≡◌, inl, inr, refl, sym, ap, ◌∙◌, true, false, ◌&&◌, ◌||◌, List, [], ◌∷◌, length, ◌==◌,
  Bool-cases, arith,
}
use firebirdsql_otel.Text.{equal_iff}
use firebirdsql_otel.Trace.Stacks.{Kind, statement, lifecycle, Frame, Key, Stacks, same_key, lookup}
use firebirdsql_otel.Trace.Event.{start, finish, Event, Parser}
use firebirdsql_otel.Trace.Correlate.{
  same_kind, event_key, top_sequence, next_sequence, push_start, on_start, matches_frame, pop_frame,
  on_finish, correlate,
}
use firebirdsql_otel.Trace.Correlate.Lookups.{
  HasRoom, fits, frame_of, lookup-push_start, lookup-pop_frame,
}

-- The record names an attachment, a transaction and, for a statement, the statement.
pub record IsIdentified (e : Event) : Type 0 where
  pub kind : same_kind e.kind lifecycle ≡ false
  pub scope : (e.attachment_id == 0 || e.transaction_id == 0) ≡ false
  pub statement : (same_kind e.kind statement && e.statement_id == 0) ≡ false

-- The two records are the start and the finish of one execution.
pub record IsPair (s f : Event) : Type 0 where
  pub starts : s.phase ≡ start
  pub finishes : f.phase ≡ finish
  pub attachment : f.attachment_id ≡ s.attachment_id
  pub transaction : f.transaction_id ≡ s.transaction_id
  pub same_kinds : f.kind ≡ s.kind
  pub name : f.name ≡ s.name
  pub statement : f.statement_id ≡ s.statement_id

same_kind_refl : (k : Kind) → same_kind k k ≡ true
same_kind_refl Kind.statement = refl
same_kind_refl Kind.procedure = refl
same_kind_refl Kind.function = refl
same_kind_refl Kind.trigger = refl
same_kind_refl Kind.lifecycle = refl
same_kind_refl Kind.gap = refl

correlate-push_start :
    (p : Parser) (e : Event)
    → IsIdentified e
    → e.phase ≡ start
    → HasRoom p e
    → correlate p e ≡ push_start p e (lookup (event_key e) p.stacks)
unfolding correlate on_start
correlate-push_start p e i s room =
    rw (i.kind, i.scope, i.statement, s)
      (rw (fits (length p.stacks) (lookup (event_key e) p.stacks) room.0 room.1) refl)

correlate-on_finish :
    (p : Parser) (e : Event)
    → IsIdentified e
    → e.phase ≡ finish
    → correlate p e ≡ on_finish p e (lookup (event_key e) p.stacks)
unfolding correlate
correlate-on_finish p e i f = rw (i.kind, i.scope, i.statement, f) refl

lookup-same_key : (k j : Key) (m : Stacks) → same_key k j ≡ true → lookup k m ≡ lookup j m
unfolding lookup
lookup-same_key k j [] h = refl
lookup-same_key k j ((i, gs) ∷ m) h = ground (arith, lookup-same_key k j m h)

same_key_refl : (k : Key) → same_key k k ≡ true
same_key_refl k = ground arith

sequence-pop_frame :
    (p : Parser) (e : Event) (frame : Frame) (stack : List Frame)
    → (pop_frame p e frame stack).1.sequence ≡ frame.sequence
unfolding pop_frame
sequence-pop_frame p e frame [] = refl
sequence-pop_frame p e frame (f ∷ fs) = refl

parent-pop_frame :
    (p : Parser) (e : Event) (frame : Frame) (stack : List Frame)
    → e.parent_sequence ≡ 0
    → (pop_frame p e frame stack).1.parent_sequence ≡ top_sequence stack
unfolding pop_frame top_sequence
parent-pop_frame p e frame [] h = h
parent-pop_frame p e frame (f ∷ fs) h = refl

-- The finish of a pair has the key of its start, is identified as it is, and closes its frame.
event_key-pair : (s f : Event) → IsPair s f → event_key f ≡ event_key s
event_key-pair s f i = rw (i.attachment, i.transaction) refl

pair-IsIdentified : (s f : Event) → IsPair s f → IsIdentified s → IsIdentified f
pair-IsIdentified s f i h = record {
  kind = rw i.same_kinds h.kind;
  scope = rw (i.attachment, i.transaction) h.scope;
  statement = rw (i.same_kinds, i.statement) h.statement;
}

pair-matches_frame : (p : Parser) (s f : Event) → IsPair s f → matches_frame (frame_of p s) f ≡ true
unfolding matches_frame
pair-matches_frame p s f i =
    rw (i.same_kinds, i.name, i.statement, same_kind_refl s.kind, (equal_iff s.name s.name).1 refl)
      ground arith

on_finish-pop_frame :
    (p : Parser) (e : Event) (frame : Frame) (stack : List Frame)
    → matches_frame frame e ≡ true
    → on_finish p e (frame ∷ stack) ≡ pop_frame p e frame stack
unfolding on_finish
on_finish-pop_frame p e frame stack h = rw h refl

-- What `correlate` returns for the finish of a pair behind its start.
correlate-pair :
    (p : Parser) (s f : Event)
    → IsPair s f
    → IsIdentified s
    → HasRoom p s
    → correlate (correlate p s).0 f
      ≡ pop_frame (correlate p s).0 f (frame_of p s) (lookup (event_key s) p.stacks)
correlate-pair p s f i h room =
    let q = (correlate p s).0 in
    let stack = lookup (event_key s) p.stacks in
    let opened : lookup (event_key f) q.stacks ≡ frame_of p s ∷ stack =
      rw
        (
          event_key-pair s f i,
          correlate-push_start p s h i.starts room,
          lookup-push_start p s stack (event_key s),
          same_key_refl (event_key s),
        )
        refl in
    correlate-on_finish q f (pair-IsIdentified s f i h) i.finishes
    ∙ ap (on_finish q f) opened
    ∙ on_finish-pop_frame q f (frame_of p s) stack (pair-matches_frame p s f i)

number-push_start :
    (p : Parser) (e : Event) (stack : List Frame)
    → (push_start p e stack).1.sequence ≡ next_sequence p
unfolding push_start
number-push_start p e stack = refl

parent-push_start :
    (p : Parser) (e : Event) (stack : List Frame)
    → (push_start p e stack).1.parent_sequence ≡ top_sequence stack
unfolding push_start
parent-push_start p e stack = refl

-- A push and a pop under one key leave every stack as it was.
lookup-push_pop :
    (p : Parser) (s f : Event) (j : Key)
    → IsPair s f
    → let stack = lookup (event_key s) p.stacks in
      lookup j (pop_frame (push_start p s stack).0 f (frame_of p s) stack).0.stacks
      ≡ lookup j p.stacks
lookup-push_pop p s f j i =
    let stack = lookup (event_key s) p.stacks in
    lookup-pop_frame (push_start p s stack).0 f (frame_of p s) stack j
    ∙ rw (i.attachment, i.transaction, lookup-push_start p s stack j)
        (elim (Bool-cases (same_key (event_key s) j)) [
          | inl h ↦ rw h (lookup-same_key (event_key s) j p.stacks h)
          | inr h ↦ rw h refl
        ])

-- What the finish of a pair restores: the event `b` of the finish has the sequence and the parent
-- of the event `a` of the start, and every stack of `q` is the one of `p`.
pub record IsClosed (p q : Parser) (a b : Event) : Type 0 where
  pub number : b.sequence ≡ a.sequence
  pub parent : b.parent_sequence ≡ a.parent_sequence
  pub restored : (j : Key) → lookup j q.stacks ≡ lookup j p.stacks

-- The start and the finish of one execution, in a known attachment and transaction and with room
-- for one more stack and frame: the second event gets the sequence and the parent of the first, and
-- the stack of every attachment and transaction is the one before the two.
pub correlate-IsClosed :
    (p : Parser) (s f : Event)
    → IsPair s f
    → IsIdentified s
    → HasRoom p s
    → f.parent_sequence ≡ 0
    → IsClosed p
        (correlate (correlate p s).0 f).0
        (correlate p s).1
        (correlate (correlate p s).0 f).1
correlate-IsClosed p s f i h room fresh =
    let stack = lookup (event_key s) p.stacks in
    rw (correlate-pair p s f i h room, correlate-push_start p s h i.starts room)
      record {
        number =
            sequence-pop_frame (push_start p s stack).0 f (frame_of p s) stack
            ∙ sym (number-push_start p s stack);
        parent =
            parent-pop_frame (push_start p s stack).0 f (frame_of p s) stack fresh
            ∙ sym (parent-push_start p s stack);
        restored = λ j. lookup-push_pop p s f j i;
      }
