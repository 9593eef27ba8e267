-- ===== src/Trace/Correlate/Bounds.antt =====
-- The stacks of the trace parser stay bounded and ordered.
use firebirdsql_otel.Common.{
  ℕ, ◌+◌, ◌-◌, ◌^◌, ◌≤◌, ◌<◌, ◌≡◌, ◌⊎◌, inl, inr, refl, true, false, ◌&&◌, ◌||◌, List, [], ◌∷◌,
  length, leb, ◌==◌, if_rule, arith,
}
use firebirdsql_otel.Text.{is_empty}
use firebirdsql_otel.Trace.Stacks.{
  statement, lifecycle, Frame, Key, Stacks, lookup, insert, delete, length-insert,
  length-insert_present, length-delete, AllStacks, AllStacks-insert, AllStacks-delete,
  AllStacks-lookup,
}
use firebirdsql_otel.Trace.Event.{unmatched, Event, Parser}
use firebirdsql_otel.Trace.Correlate.{
  max_scopes, max_depth, same_kind, is_start, event_key, top_sequence, next_sequence, push_start,
  on_start, mismatch, matches_frame, pop_frame, on_finish, correlate,
}

-- The sequences of a stack are positive, at most `n`, and fall from the last frame to the first.
abbrev pub Falls : ℕ → List Frame → Type 0
Falls n [] = Unit
Falls n (f ∷ fs) = (1 ≤ f.sequence) × (f.sequence ≤ n) × Falls (f.sequence - 1) fs

abbrev pub IsStack : ℕ → List Frame → Type 0
IsStack n fs = (length fs ≤ max_depth) × Falls n fs

pub record IsWellFormed (p : Parser) : Type 0 where
  pub scopes : length p.stacks ≤ max_scopes
  pub frames : AllStacks (IsStack p.sequence) p.stacks

Falls-mono : (n m : ℕ) (fs : List Frame) → n ≤ m → Falls n fs → Falls m fs
Falls-mono n m [] h f = tt
Falls-mono n m (x ∷ fs) h f = (f.0, omega arith, f.2)

AllStacks-mono : (n m : ℕ) (s : Stacks) → n ≤ m → AllStacks (IsStack n) s → AllStacks (IsStack m) s
AllStacks-mono n m [] h all = tt
AllStacks-mono n m ((k, fs) ∷ s) h all =
    ((all.0.0, Falls-mono n m fs h all.0.1), AllStacks-mono n m s h all.1)

-- The event that a record becomes: its parent is an earlier frame, and its number was given out.
pub record IsPlaced (p : Parser) (e : Event) : Type 0 where
  pub parent : (e.parent_sequence ≡ 0) ⊎ (e.parent_sequence < e.sequence)
  pub number : e.sequence ≤ p.sequence

abbrev Kept : Parser × Event → Type 0
Kept r = IsWellFormed r.0 × IsPlaced r.0 r.1

next_sequence-suc : (p : Parser) → p.sequence + 1 < 2 ^ 64 → next_sequence p ≡ p.sequence + 1
unfolding next_sequence
next_sequence-suc p h = omega arith

delete-IsWellFormed :
    (p : Parser) (k : Key)
    → IsWellFormed p
    → (length (delete k p.stacks) ≤ max_scopes) × AllStacks (IsStack p.sequence) (delete k p.stacks)
delete-IsWellFormed p k w = (
  omega (arith, length-delete k p.stacks, w.scopes),
  AllStacks-delete (IsStack p.sequence) k p.stacks w.frames,
)

top_sequence-le : (n : ℕ) (fs : List Frame) → Falls n fs → top_sequence fs ≤ n
unfolding top_sequence
top_sequence-le n [] f = omega arith
top_sequence-le n (x ∷ fs) f = f.1

length-insert_scopes :
    (k : Key) (fs : List Frame) (m : Stacks)
    → length m ≤ max_scopes
    → (length m < max_scopes) ⊎ (0 < length (lookup k m))
    → length (insert k fs m) ≤ max_scopes
length-insert_scopes k fs m h (inl room) = omega (arith, length-insert k fs m)
length-insert_scopes k fs m h (inr old) = omega (arith, length-insert_present k fs m old)

-- A frame goes on a stack of a well-formed parser that has room for it.
push_start-Kept :
    (p : Parser) (e : Event) (stack : List Frame)
    → IsWellFormed p
    → p.sequence + 1 < 2 ^ 64
    → IsStack p.sequence stack
    → length stack < max_depth
    → (length p.stacks < max_scopes) ⊎ (0 < length (lookup (event_key e) p.stacks))
    → Kept (push_start p e stack)
unfolding push_start
push_start-Kept p e stack w fits s room scopes =
    let n = p.sequence + 1 in
    let k = event_key e in
    let frame : Frame = record {
      kind = e.kind;
      name = e.name;
      sequence = n;
      statement = e.statement_id;
    } in
    let deeper : IsStack n (frame ∷ stack) =
      (omega arith, (omega arith, omega arith, Falls-mono _ (n - 1) stack (omega arith) s.1)) in
    rw (next_sequence-suc p fits) (
      record {
        scopes = length-insert_scopes k (frame ∷ stack) p.stacks w.scopes scopes;
        frames =
            AllStacks-insert (IsStack n) k (frame ∷ stack) p.stacks deeper
              (AllStacks-mono p.sequence n p.stacks (omega arith) w.frames);
      },
      record {
        parent = inr (omega (arith, top_sequence-le p.sequence stack s.1));
        number = omega arith;
      },
    )

on_start-Kept :
    (p : Parser) (e : Event) → IsWellFormed p → p.sequence + 1 < 2 ^ 64 → Kept (on_start p e)
unfolding on_start
on_start-Kept p e w fits =
    let stack = lookup (event_key e) p.stacks in
    if_rule Kept
      ((leb max_scopes (length p.stacks) && is_empty stack) || leb max_depth (length stack))
      (λ _.
        push_start-Kept (record p { incomplete = true; stacks = []; stack_overflow = true })
          (record e { incomplete = true }) [] (record { scopes = omega arith; frames = tt }) fits
          (omega arith, tt) (omega arith) (inl (omega arith)))
      λ room.
        push_start-Kept p e stack w fits
          (AllStacks-lookup (IsStack p.sequence) (event_key e) p.stacks (omega arith, tt) w.frames)
          (ground arith) (has_room (length p.stacks) stack (ground arith))
  where
    has_room :
        (n : ℕ) (stack : List Frame)
        → (leb max_scopes n && is_empty stack) ≡ false
        → (n < max_scopes) ⊎ (0 < length stack)
    has_room n [] h = inl (ground arith)
    has_room n (f ∷ fs) h = inr (omega arith)

-- An event that was not numbered yet.
abbrev pub IsFresh : Event → Type 0
IsFresh e = (e.sequence ≡ 0) × (e.parent_sequence ≡ 0)

fresh-IsPlaced : (p : Parser) (e : Event) → IsFresh e → IsPlaced p e
fresh-IsPlaced p e f = record { parent = inl f.1; number = omega arith }

pop_frame-Kept :
    (p : Parser) (e : Event) (last : Frame) (others : List Frame)
    → IsWellFormed p
    → IsFresh e
    → IsStack p.sequence (last ∷ others)
    → 0 < length (lookup (event_key e) p.stacks)
    → Kept (pop_frame p e last others)
unfolding pop_frame
pop_frame-Kept p e last [] w f s old =
    let d = delete-IsWellFormed p (event_key e) w in
    (record { scopes = d.0; frames = d.1 }, record { parent = inl f.1; number = s.1.1 })
pop_frame-Kept p e last (x ∷ fs) w f s old =
    let k = event_key e in
    let shorter : IsStack p.sequence (x ∷ fs) =
      (omega arith, Falls-mono (last.sequence - 1) p.sequence (x ∷ fs) (omega arith) s.1.2) in
    (
      record {
        scopes = length-insert_scopes k (x ∷ fs) p.stacks w.scopes (inr old);
        frames = AllStacks-insert (IsStack p.sequence) k (x ∷ fs) p.stacks shorter w.frames;
      },
      record { parent = inr (omega arith); number = s.1.1 },
    )

on_finish-Kept :
    (p : Parser) (e : Event) (stack : List Frame)
    → IsWellFormed p
    → IsFresh e
    → lookup (event_key e) p.stacks ≡ stack
    → Kept (on_finish p e stack)
unfolding on_finish
on_finish-Kept p e [] w f h = (
  record { scopes = w.scopes; frames = w.frames },
  fresh-IsPlaced (record p { incomplete = true }) (mismatch e) f,
)
on_finish-Kept p e (last ∷ others) w f h =
    let s : IsStack p.sequence (last ∷ others) =
      rw h at
        (AllStacks-lookup (IsStack p.sequence) (event_key e) p.stacks (omega arith, tt) w.frames) in
    let d = delete-IsWellFormed p (event_key e) w in
    if_rule Kept (matches_frame last e)
      (λ _. pop_frame-Kept p e last others w f s (rw h (omega arith)))
      λ _. (
        record { scopes = d.0; frames = d.1 },
        fresh-IsPlaced (record p { incomplete = true; stacks = delete (event_key e) p.stacks })
            (mismatch e) f,
      )

-- While the counter does not wrap, correlating a record keeps the parser well-formed: at most 64
-- stacks of at most 64 frames, with falling sequences; and the event's parent is 0 or earlier.
pub correlate-Kept :
    (p : Parser) (e : Event)
    → IsWellFormed p
    → IsFresh e
    → p.sequence + 1 < 2 ^ 64
    → IsWellFormed (correlate p e).0 × IsPlaced (correlate p e).0 (correlate p e).1
unfolding correlate
correlate-Kept p e w f fits =
    let d = delete-IsWellFormed p (event_key e) w in
    if_rule Kept (same_kind e.kind lifecycle)
      (λ _. (w, fresh-IsPlaced p (record e { correlation = unmatched }) f))
      λ _.
        if_rule Kept (e.attachment_id == 0 || e.transaction_id == 0)
          (λ _. (w, fresh-IsPlaced p (mismatch e) f))
          λ _.
            if_rule Kept (same_kind e.kind statement && e.statement_id == 0)
              (λ _. (
                record { scopes = d.0; frames = d.1 },
                fresh-IsPlaced
                    (record p { incomplete = true; stacks = delete (event_key e) p.stacks })
                    (mismatch e) f,
              ))
              λ _.
                if_rule Kept (is_start e.phase) (λ _. on_start-Kept p e w fits)
                  λ _. on_finish-Kept p e (lookup (event_key e) p.stacks) w f refl
