-- ===== src/Trace/Correlate/Isolation.antt =====
-- The records of one attachment and transaction do not touch the stacks of another.
use firebirdsql_otel.Common.{
  ◌≡◌, refl, ◌∙◌, false, ◌&&◌, ◌||◌, List, [], ◌∷◌, length, ◌==◌, if_rule,
}
use firebirdsql_otel.Trace.Stacks.{
  statement, lifecycle, Frame, Key, Stacks, same_key, lookup, delete, lookup-delete,
}
use firebirdsql_otel.Trace.Event.{Event, Parser}
use firebirdsql_otel.Trace.Correlate.{
  same_kind, is_start, event_key, on_start, matches_frame, on_finish, correlate,
}
use firebirdsql_otel.Trace.Correlate.Lookups.{HasRoom, fits, lookup-push_start, lookup-pop_frame}

abbrev SameAt : Parser → Key → Parser × Event → Type 0
SameAt p j r = lookup j r.0.stacks ≡ lookup j p.stacks

lookup-on_start :
    (p : Parser) (e : Event) (j : Key)
    → same_key (event_key e) j ≡ false
    → HasRoom p e
    → SameAt p j (on_start p e)
unfolding on_start
lookup-on_start p e j h room =
    let stack = lookup (event_key e) p.stacks in
    rw (fits (length p.stacks) stack room.0 room.1, lookup-push_start p e stack j, h) refl

lookup-delete_other :
    (k j : Key) (m : Stacks) → same_key k j ≡ false → lookup j (delete k m) ≡ lookup j m
lookup-delete_other k j m h = lookup-delete k j m ∙ rw h refl

lookup-on_finish :
    (p : Parser) (e : Event) (stack : List Frame) (j : Key)
    → same_key (event_key e) j ≡ false
    → SameAt p j (on_finish p e stack)
unfolding on_finish
lookup-on_finish p e [] j h = refl
lookup-on_finish p e (frame ∷ stack) j h =
    if_rule (SameAt p j) (matches_frame frame e)
      (λ _. lookup-pop_frame p e frame stack j ∙ rw h refl)
      λ _. lookup-delete_other (event_key e) j p.stacks h

-- A record leaves the stacks of every other attachment and transaction as they are, unless it is a
-- start without room.
pub correlate-isolated :
    (p : Parser) (e : Event) (j : Key)
    → same_key (event_key e) j ≡ false
    → HasRoom p e
    → lookup j (correlate p e).0.stacks ≡ lookup j p.stacks
unfolding correlate
correlate-isolated p e j h room =
    if_rule (SameAt p j) (same_kind e.kind lifecycle) (λ _. refl)
      λ _.
        if_rule (SameAt p j) (e.attachment_id == 0 || e.transaction_id == 0) (λ _. refl)
          λ _.
            if_rule (SameAt p j) (same_kind e.kind statement && e.statement_id == 0)
              (λ _. lookup-delete_other (event_key e) j p.stacks h)
              λ _.
                if_rule (SameAt p j) (is_start e.phase) (λ _. lookup-on_start p e j h room)
                  λ _. lookup-on_finish p e (lookup (event_key e) p.stacks) j h
