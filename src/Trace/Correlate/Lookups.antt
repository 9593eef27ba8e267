-- ===== src/Trace/Correlate/Lookups.antt =====
-- What a push and a pop leave under every key of the stacks.
use firebirdsql_otel.Common.{
  ℕ, ◌<◌, ◌≡◌, false, ◌&&◌, ◌||◌, List, [], ◌∷◌, length, leb, if◌then◌else◌, arith,
}
use firebirdsql_otel.Text.{is_empty}
use firebirdsql_otel.Trace.Stacks.{Frame, Key, same_key, lookup, lookup-insert, lookup-delete}
use firebirdsql_otel.Trace.Event.{Event, Parser}
use firebirdsql_otel.Trace.Correlate.{
  max_scopes, max_depth, event_key, next_sequence, push_start, pop_frame,
}

-- There is room for one more frame on the stack of the record, and for one more stack.
abbrev pub HasRoom : Parser → Event → Type 0
HasRoom p e = (length p.stacks < max_scopes) × (length (lookup (event_key e) p.stacks) < max_depth)

pub fits :
    (n : ℕ) (stack : List Frame)
    → n < max_scopes
    → length stack < max_depth
    → ((leb max_scopes n && is_empty stack) || leb max_depth (length stack)) ≡ false
fits n stack a b = ground arith

abbrev pub frame_of : Parser → Event → Frame
frame_of p e = record {
  kind = e.kind;
  name = e.name;
  sequence = next_sequence p;
  statement = e.statement_id;
}

pub lookup-push_start :
    (p : Parser) (e : Event) (stack : List Frame) (j : Key)
    → lookup j (push_start p e stack).0.stacks
      ≡ (if same_key (event_key e) j then frame_of p e ∷ stack else lookup j p.stacks)
unfolding push_start
lookup-push_start p e stack j = lookup-insert (event_key e) j (frame_of p e ∷ stack) p.stacks

pub lookup-pop_frame :
    (p : Parser) (e : Event) (frame : Frame) (stack : List Frame) (j : Key)
    → lookup j (pop_frame p e frame stack).0.stacks
      ≡ (if same_key (event_key e) j then stack else lookup j p.stacks)
unfolding pop_frame
lookup-pop_frame p e frame [] j = lookup-delete (event_key e) j p.stacks
lookup-pop_frame p e frame (f ∷ fs) j = lookup-insert (event_key e) j (f ∷ fs) p.stacks
