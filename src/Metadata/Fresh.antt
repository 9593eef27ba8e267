-- ===== src/Metadata/Fresh.antt =====
-- The entries of the cache (metadata/reader.go).
use firebirdsql_otel.Common.{ℕ, ◌≤◌, ◌≡◌, ◌⊎◌, true, List, [], ◌∷◌, length, All}
use firebirdsql_otel.Text.{Bytes}
use mathlib.Core.List.{Memᴰ}
use mathlib.Core.List.Memᴰ
use firebirdsql_otel.Metadata.Cache.{Key, Entry, Entries, same_key, Ticket, System}

-- Every entry is of one version.
abbrev AllOf : Bytes → Entries → Type 0
AllOf v m = All (λ (x : Key × Entry). x.0.version ≡ v) m

-- The keys of a map, with the search for the one that expires first.
HasKey : Key → Entries → Type 0
HasKey k [] = ⊥
HasKey k ((j, e) ∷ m) = (same_key j k ≡ true) ⊎ HasKey k m

-- The cache is bounded and of the reader's version, and so is every read of its generation.
record IsFresh (max : ℕ) (n : ℕ) (s : System) : Type 0 where
  size : length s.reader.cache ≤ max
  current : AllOf s.reader.version s.reader.cache
  count : s.reader.generation ≡ n
  old : (t : Ticket) → Memᴰ t s.reads → t.generation ≤ n
  reads : (t : Ticket) → Memᴰ t s.reads → t.generation ≡ n → t.key.version ≡ s.reader.version
