-- ===== src/Metadata/Cache.antt =====
-- The cache of the reader (metadata/reader.go): the two locked sections of `Read`, `Invalidate`, and their
-- interleavings. The logical name of the database, a part of every key, is the same for all of one
-- reader and is left out of the keys. A map is an association list, in one of the orders in which
-- Go may visit it; times are numbers.
use firebirdsql_otel.Common.{
  ℕ, suc, ◌+◌, ◌%◌, ◌^◌, ◌≡◌, Bool, ◌&&◌, not, Option, none, some, List, [], ◌∷◌, ◌++◌, length, leb,
  ltb, ◌==◌, take, drop, get_elem?, if◌then◌else◌,
}
use firebirdsql_otel.Text.{Bytes, equal}
use firebirdsql_otel.Metadata.{Object, Graph, Limits, same_object}

pub record Key : Type 0 where
  pub version : Bytes
  pub root : Object

pub record Entry : Type 0 where
  pub graph : Graph
  pub expires : ℕ

abbrev pub Entries : Type 0
Entries = List (Key × Entry)

pub record Reader : Type 0 where
  pub version : Bytes
  pub cache : Entries
  pub generation : ℕ

unfoldable pub same_key : Key → Key → Bool
unfolding same_object equal
same_key a b = equal a.version b.version && same_object a.root b.root

-- `r.cache[k]`
unfoldable pub find : Key → Entries → Option Entry
unfolding same_key
find k [] = none
find k ((j, e) ∷ m) = if same_key j k then some e else find k m

-- `delete(r.cache, k)`
unfoldable pub forget : Key → Entries → Entries
unfolding same_key
forget k [] = []
forget k ((j, e) ∷ m) = let rest = forget k m in if same_key j k then rest else (j, e) ∷ rest

-- `r.cache[k] = e`
unfoldable pub store : Key → Entry → Entries → Entries
unfolding same_key
store k e [] = (k, e) ∷ []
store k e ((j, f) ∷ m) = if same_key j k then (j, e) ∷ m else (j, f) ∷ store k e m

-- The loop that deletes what has expired.
unfoldable pub purge : ℕ → Entries → Entries
purge now [] = []
purge now ((j, e) ∷ m) = let rest = purge now m in if ltb e.expires now then rest else (j, e) ∷ rest

-- The loop that looks for the entry that expires first.
unfoldable pub oldest : Key × Entry → Entries → Key
oldest (k, e) [] = k
oldest (k, e) ((j, f) ∷ m) = if ltb f.expires e.expires then oldest (j, f) m else oldest (k, e) m

unfoldable pub evict : ℕ → Entries → Entries
unfolding oldest forget
evict max [] = []
evict max (x ∷ m) = if leb max (length (x ∷ m)) then forget (oldest x m) (x ∷ m) else x ∷ m

-- A read between its two sections.
pub record Ticket : Type 0 where
  pub key : Key
  pub generation : ℕ

pub data Lookup : Type 0 where
  hit : Graph → Lookup
  miss : Ticket → Lookup

-- The first section: `now.Before(e.expires)` makes a hit.
unfoldable pub look_up : ℕ → Object → Reader → Lookup
unfolding find
look_up now root r =
    let k : Key = record { version = r.version; root = root } in
    let ticket : Ticket = record { key = k; generation = r.generation } in
    elim (find k r.cache) as (λ _. Lookup) [
      | none ↦ miss ticket
      | some e ↦ if ltb now e.expires then hit e.graph else miss ticket
    ]

-- The second section, where the read was committed.
unfoldable pub keep : Limits → ℕ → Ticket → Graph → Reader → Reader
unfolding purge evict store
keep l now t g r =
    let kept =
      store t.key (record { graph = g; expires = now + l.ttl })
        (evict l.max_entries (purge now r.cache)) in
    if t.generation == r.generation then record r { cache = kept } else r

-- `Invalidate`, none where it refuses the version.
unfoldable pub invalidate : Bytes → Reader → Option Reader
invalidate version r =
    if not (leb (length version) 256)
    then none
    else some (record { version = version; cache = []; generation = suc r.generation % 2 ^ 64 })

pub record System : Type 0 where
  pub reader : Reader
  pub reads : List Ticket

abbrev pub begin_read : Lookup → System → System
begin_read (hit g) s = s
begin_read (miss t) s = record s { reads = t ∷ s.reads }

-- A read that ends, stored or not.
abbrev pub end_read : ℕ → System → System
end_read i s = record s { reads = take i s.reads ++ drop (suc i) s.reads }

-- What callers of one reader may do, in the order of the reader's lock; n counts the calls of `Invalidate`.
pub data Runs (l : Limits) (version : Bytes) : ℕ → System → Type 0 where
  created :
      Runs l version 0
        (record { reader = record { version = version; cache = []; generation = 0 }; reads = [] })
  begun :
      {n : ℕ} {s : System} (now : ℕ) (root : Object)
      → Runs l version n s
      → Runs l version n (begin_read (look_up now root s.reader) s)
  given_up : {n : ℕ} {s : System} (i : ℕ) → Runs l version n s → Runs l version n (end_read i s)
  committed :
      {n : ℕ} {s : System} {t : Ticket} (now i : ℕ) (g : Graph)
      → get_elem? s.reads i ≡ some t
      → Runs l version n s
      → Runs l version n (record (end_read i s) { reader = keep l now t g s.reader })
  invalidated :
      {n : ℕ} {s : System} {r : Reader} (new_version : Bytes)
      → invalidate new_version s.reader ≡ some r
      → Runs l version n s
      → Runs l version (suc n) (record s { reader = r })
  refused :
      {n : ℕ} {s : System} (new_version : Bytes)
      → invalidate new_version s.reader ≡ none
      → Runs l version n s
      → Runs l version n s
