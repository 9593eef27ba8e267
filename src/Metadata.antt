-- ===== src/Metadata.antt =====
-- The reader of schema dependencies (metadata/reader.go): `New`, the search of `Read` over the answers
-- of the database, and what becomes of a row. The snapshot of one transaction answers each query the
-- same way, so it is a function of the object's name and type. `seen` is the list of its keys.
pub mod Reading
pub mod Reachable
pub mod Graphs
pub mod Bounded
pub mod Cache
pub mod Fresh
pub mod Growth
pub mod Complete
mod Tests
use firebirdsql_otel.Common.{
  ℕ, zero, suc, ◌+◌, ◌*◌, Bool, true, false, ◌&&◌, ◌||◌, not, Option, none, some, List, [], ◌∷◌,
  ◌++◌, length, leb, ltb, ◌==◌, within, if◌then◌else◌,
}
use firebirdsql_otel.Common.Int.{ℤ, pos, negsuc, same_int}
use firebirdsql_otel.Text.{Bytes, equal, is_empty}
use firebirdsql_otel.Plan.{trim_right}

pub record Object : Type 0 where
  pub name : Bytes
  pub kind : ℤ
  pub package_name : Bytes

pub data EdgeKind : Type 0 where
  dependency package_body_scope : EdgeKind

pub record Edge : Type 0 where
  pub from : Object
  pub to : Object
  pub field : Bytes
  pub kind : EdgeKind

pub data GraphScope : Type 0 where
  object_scope package_body : GraphScope

pub record Graph : Type 0 where
  pub scope : GraphScope
  pub root : Object
  pub nodes : List Object
  pub edges : List Edge
  pub truncated : Bool

-- The bounds of `Config`, behind their defaults.
pub record Limits : Type 0 where
  pub ttl : ℕ
  pub max_entries : ℕ
  pub max_nodes : ℕ
  pub max_depth : ℕ

abbrev hour : ℕ
hour = 3600000000000

abbrev with_default : ℕ → ℕ → ℕ
with_default d n = if n == 0 then d else n

-- `New`: the limits, none where it refuses them; a negative bound is none.
unfoldable pub new : Bool → Bytes → Bytes → Option Limits → Option Limits
new has_database database version none = none
new has_database database version (some c) =
    let ttl = with_default 60000000000 c.ttl in
    let entries = with_default 64 c.max_entries in
    let nodes = with_default 128 c.max_nodes in
    let depth = with_default 8 c.max_depth in
    if not has_database
      || is_empty database
      || not (leb (length database) 256)
      || not (leb (length version) 256)
    then none
    else if leb ttl hour && within 1 1024 entries && within 1 4096 nodes && within 1 64 depth
    then some (record { ttl = ttl; max_entries = entries; max_nodes = nodes; max_depth = depth })
    else none

-- A comparison of `Object` values.
unfoldable pub same_object : Object → Object → Bool
unfolding equal
same_object a b =
    equal a.name b.name && same_int a.kind b.kind && equal a.package_name b.package_name

-- `seen[o]`
unfoldable pub is_seen : Object → List Object → Bool
unfolding same_object
is_seen o [] = false
is_seen o (x ∷ xs) = same_object x o || is_seen o xs

-- A row of the query; a null text is empty.
pub record Row : Type 0 where
  pub name : Bytes
  pub kind : ℤ
  pub field : Bytes
  pub package_name : Bytes

-- What a query returns: no rows where it fails, a row that `Scan` refuses as none, and whether
-- `rows.Err` or `rows.Close` fail.
pub record Answer : Type 0 where
  pub rows : Option (List (Option Row))
  pub ends_badly : Bool

abbrev pub Database : Type 0
Database = Bytes → ℤ → Answer

-- The variables of `Read`.
pub record Search : Type 0 where
  pub graph : Graph
  pub queue : List (Object × ℕ)
  pub seen : List Object

-- `strings.TrimRight(s, " ")`
abbrev pub trim : Bytes → Bytes
trim s = trim_right (λ c. c == b' ') s

abbrev pub target : Row → Object
target r = record { name = trim r.name; kind = r.kind; package_name = trim r.package_name }

-- `o.Package != "" && (o.Type == 5 || o.Type == 15)`
unfoldable pub is_packaged : Object → Bool
is_packaged o =
    not (is_empty o.package_name) && (same_int o.kind (pos 5) || same_int o.kind (pos 15))

abbrev pub body_of : Object → Object
body_of o = record { name = o.package_name; kind = pos 19; package_name = [] }

abbrev pub truncate : Search → Search
truncate s = record s { graph = record s.graph { truncated = true } }

abbrev pub add_edge : Edge → Search → Search
add_edge e s = record s { graph = record s.graph { edges = s.graph.edges ++ e ∷ [] } }

abbrev pub add_object : Object → Search → Search
add_object o s = record s {
  graph = record s.graph { nodes = s.graph.nodes ++ o ∷ [] };
  seen = s.seen ++ o ∷ [];
}

abbrev pub push : Object → ℕ → Search → Search
push o depth s = record s { queue = s.queue ++ (o, depth) ∷ [] }

-- `len(g.Edges) >= r.c.MaxNodes*4 || (!seen[o] && len(g.Nodes) >= r.c.MaxNodes)`
unfoldable pub is_full : ℕ → Object → Search → Bool
unfolding is_seen
is_full m o s =
    leb (m * 4) (length s.graph.edges) || (not (is_seen o s.seen) && leb m (length s.graph.nodes))

-- A packaged routine that is new: its package body is searched in its place.
unfoldable pub add_body : ℕ → Object → ℕ → Search → Search
unfolding is_seen is_full
add_body m to depth s =
    let next = body_of to in
    let scoped : Search = record s { graph = record s.graph { scope = package_body } } in
    let linked =
      add_edge (record { from = to; to = next; field = []; kind = package_body_scope }) scoped in
    if is_full m next scoped
    then truncate scoped
    else if is_seen next linked.seen
    then linked
    else if leb m (length linked.graph.nodes)
    then truncate linked
    else push next depth (add_object next linked)

-- A row whose object is not full, behind its edge.
unfoldable pub add_target : ℕ → Object → ℕ → Search → Search
unfolding is_seen is_packaged add_body
add_target m to depth s =
    let added = add_object to s in
    if is_seen to s.seen
    then s
    else if is_packaged to
    then add_body m to depth added
    else push to depth added

-- The loop over the rows of one query: the state, and whether an error is returned.
unfoldable pub read_rows : ℕ → Object → ℕ → Bool → ℕ → List (Option Row) → Search → Search × Bool
unfolding is_full add_target
read_rows m current depth bad left [] s = (s, bad)
read_rows m current depth bad zero (r ∷ rs) s = (truncate s, bad)
read_rows m current depth bad (suc left) (none ∷ rs) s = (s, true)
read_rows m current depth bad (suc left) (some r ∷ rs) s =
    let to = target r in
    let linked =
      add_edge (record { from = current; to = to; field = trim r.field; kind = dependency }) s in
    let rest = read_rows m current depth bad left rs (add_target m to depth linked) in
    if is_full m to s then (truncate s, bad) else rest
