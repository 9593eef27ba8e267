-- ===== src/Metadata/Reading.antt =====
-- The transaction of `Read` (metadata/reader.go): the state in front of the loop, the loop over the queue with
-- its fuel, and the commit.
use firebirdsql_otel.Common.{
  ℕ, zero, suc, Bool, true, false, ◌&&◌, ◌||◌, not, none, some, [], ◌∷◌, length, leb, ltb, within,
  take, if◌then◌else◌,
}
use firebirdsql_otel.Common.Int.{ℤ, pos, negsuc}
use firebirdsql_otel.Metadata.{
  Object, package_body_scope, object_scope, package_body, Graph, Limits, Database, Search,
  is_packaged, body_of, truncate, add_edge, read_rows,
}

pub data Outcome : Type 0 where
  finished failed cut : Graph → Outcome
  out_of_fuel : Outcome

-- `root.Type < 0 || root.Type > 255`, denied.
abbrev pub is_byte : ℤ → Bool
is_byte (pos n) = leb n 255
is_byte (negsuc n) = false

-- The identities that `Read` takes.
unfoldable pub is_identity : Object → Bool
is_identity o = within 1 252 (length o.name) && leb (length o.package_name) 252 && is_byte o.kind

abbrev pub empty_graph : Object → Graph
empty_graph root = record {
  scope = object_scope;
  root = root;
  nodes = [];
  edges = [];
  truncated = false;
}

-- Whether `Read` comes to its loop, where it does not return a cut graph, and the state in front of it.
unfoldable pub start : ℕ → Object → Bool × Search
unfolding is_packaged
start m root =
    let body = body_of root in
    let alone : Search = record {
      graph = record (empty_graph root) { nodes = root ∷ [] };
      queue = (root, 0) ∷ [];
      seen = root ∷ [];
    } in
    let packaged : Search = record {
      graph = record (empty_graph root) { nodes = root ∷ body ∷ []; scope = package_body };
      queue = (body, 0) ∷ [];
      seen = root ∷ body ∷ [];
    } in
    if not (is_packaged root)
    then (true, alone)
    else if ltb m 2
    then (
      false,
      record packaged {
        graph = record packaged.graph { nodes = take m (root ∷ body ∷ []); truncated = true };
      },
    )
    else (
      true,
      add_edge (record { from = root; to = body; field = []; kind = package_body_scope }) packaged,
    )

-- The body of the loop, for the head of the queue: the state, and whether an error is returned.
unfoldable pub visit : Limits → Database → Object → ℕ → Search → Search × Bool
unfolding read_rows
visit l d o depth s =
    let answer = d o.name o.kind in
    if leb l.max_depth depth
    then (truncate s, false)
    else elim answer.rows as (λ _. Search × Bool) [
      | none ↦ (s, true)
      | some rows ↦ read_rows l.max_nodes o depth answer.ends_badly l.max_nodes rows s
    ]

unfoldable pub search : Limits → Database → ℕ → Search → Outcome
unfolding visit
search l d zero s = out_of_fuel
search l d (suc n) s = elim s.queue as (λ _. Outcome) [
  | [] ↦ finished s.graph
  | (o, depth) ∷ rest ↦
      let (next, bad) = visit l d o depth (record s { queue = rest }) in
      let result = search l d n next in if bad then failed next.graph else result
]

-- What happens around the queries.
pub record Transaction : Type 0 where
  pub begins : Bool
  pub commits : Bool
  pub database : Database

abbrev pub commit : Bool → Outcome → Outcome
commit true r = r
commit false (finished g) = failed g
commit false r = r

-- `Read` where the cache has no entry; `fuel` bounds the number of times that the loop's condition is evaluated.
unfoldable pub read_graph : Limits → Transaction → ℕ → Object → Outcome
unfolding start search is_identity
read_graph l t fuel root =
    let (looping, s) = start l.max_nodes root in
    if not (is_identity root) || not t.begins
    then failed (empty_graph root)
    else if looping
    then commit t.commits (search l t.database fuel s)
    else cut s.graph
