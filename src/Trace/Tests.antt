-- ===== src/Trace/Tests.antt =====
-- Records of a small Trace, and the theorems of internal/traceparse at them.
use firebirdsql_otel.Common.{◌≡◌, refl, false, arith}
use firebirdsql_otel.Text.{Bytes, codes}
use firebirdsql_otel.Trace.Stacks.{statement, lookup}
use firebirdsql_otel.Trace.Event.{Event, start, finish, heuristic, new_event, new}
use firebirdsql_otel.Trace.Correlate.{correlate}
use firebirdsql_otel.Trace.Correlate.Bounds.{IsWellFormed, IsPlaced, correlate-Kept}
use firebirdsql_otel.Trace.Correlate.Lookups.{HasRoom}
use firebirdsql_otel.Trace.Correlate.Pairing.{IsClosed, correlate-IsClosed}
use firebirdsql_otel.Trace.Correlate.Isolation.{correlate-isolated}
use firebirdsql_otel.Common.{some, ◌++◌}
use firebirdsql_otel.Text.{ascii}
use firebirdsql_otel.Trace.Feed.{feed}
use firebirdsql_otel.Trace.Feed.Chunks.{feed_bytes, feed_both, feed-feed_bytes, feed-append}

-- the start and the finish of the statement 9 in the transaction 4 of the attachment 3
abbrev started : Event
started = record (new_event heuristic statement start (codes "t0") false) {
  attachment_id = 3;
  transaction_id = 4;
  statement_id = 9;
}

abbrev finished : Event
finished = record started { phase = finish }

new-IsWellFormed : IsWellFormed new
unfolding new
new-IsWellFormed = record { scopes = omega arith; frames = tt }

correlate-Kept_example :
    IsWellFormed (correlate new started).0
    × IsPlaced (correlate new started).0 (correlate new started).1
unfolding new
correlate-Kept_example = correlate-Kept new started new-IsWellFormed (refl, refl) (omega arith)

started-HasRoom : HasRoom new started
unfolding new lookup
started-HasRoom = (omega arith, omega arith)

correlate-IsClosed_example :
    IsClosed new
      (correlate (correlate new started).0 finished).0
      (correlate new started).1
      (correlate (correlate new started).0 finished).1
correlate-IsClosed_example =
    correlate-IsClosed new started finished
      (record {
        starts = refl;
        finishes = refl;
        attachment = refl;
        transaction = refl;
        same_kinds = refl;
        name = refl;
        statement = refl;
      })
      (record { kind = refl; scope = refl; statement = refl }) started-HasRoom refl

correlate-isolated_example :
    lookup (record { attachment = 3; transaction = 5 }) (correlate new started).0.stacks
    ≡ lookup (record { attachment = 3; transaction = 5 }) new.stacks
correlate-isolated_example =
    correlate-isolated new started (record { attachment = 3; transaction = 5 }) refl started-HasRoom

-- a header in two pieces
abbrev piece_1 : Bytes
piece_1 = codes "2026-01-02T03:04:05.6789 (1:0x7f) TRACE"

abbrev piece_2 : Bytes
piece_2 = codes "_INIT\n\n"

feed-feed_bytes_example :
    feed ascii new (piece_1 ++ piece_2) ≡ some (feed_bytes ascii new (piece_1 ++ piece_2))
unfolding new
feed-feed_bytes_example = feed-feed_bytes ascii new (piece_1 ++ piece_2) (omega arith)

feed-append_example : feed ascii new (piece_1 ++ piece_2) ≡ feed_both ascii new piece_1 piece_2
unfolding new
feed-append_example = feed-append ascii new piece_1 piece_2 (omega arith)
