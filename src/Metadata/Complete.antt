-- ===== src/Metadata/Complete.antt =====
-- The graphs that `Read` (metadata/reader.go) returns without an error and not as truncated.
use firebirdsql_otel.Common.{◌≡◌, true, false, List}
use mathlib.Core.List.{Memᴰ}
use mathlib.Core.List.Memᴰ
use firebirdsql_otel.Metadata.{Object, Graph, Database, Search}
use firebirdsql_otel.Metadata.Reading.{Outcome, finished, failed, cut, out_of_fuel}
use firebirdsql_otel.Metadata.Growth.{IsRead, IsHandled}

-- The root is a node, and every node has its edges.
pub record IsComplete (d : Database) (root : Object) (g : Graph) : Type 0 where
  rooted : Memᴰ root g.nodes
  read : (o : Object) → Memᴰ o g.nodes → IsRead d g.edges o

-- What holds of a result without an error.
abbrev IsWhole : Database → Object → Outcome → Type 0
IsWhole d root (finished g) = g.truncated ≡ false → IsComplete d root g
IsWhole d root (failed g) = Unit
IsWhole d root (cut g) = g.truncated ≡ true
IsWhole d root out_of_fuel = Unit

module _ (d : Database) (root : Object) where
  -- Every node is handled, unless the graph is truncated.
  record IsSettled (s : Search) : Type 0 where
    rooted : Memᴰ root s.graph.nodes
    handled : s.graph.truncated ≡ false → (o : Object) → Memᴰ o s.graph.nodes → IsHandled d s o
