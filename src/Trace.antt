-- ===== src/Trace.antt =====
-- internal/traceparse: the parser of Firebird's text Trace.
pub mod Event
pub mod Stacks
pub mod Correlate
pub mod Patterns
pub mod Rows
pub mod Counters
pub mod Body
pub mod Consume
pub mod Feed
mod Tests
