-- ===== src/Metadata/Reachable.antt =====
-- What the graph of a search says (metadata/reader.go): its nodes and edges, beside the rows of the database.
use firebirdsql_otel.Common.{
  ℕ, ◌*◌, ◌≤◌, ◌<◌, ◌≡◌, refl, sym, ◌⊎◌, inl, inr, true, Option, some, List, [], ◌∷◌, ◌++◌, length,
  length-append, arith,
}
use mathlib.Core.Logic.{⊎_elim}
use mathlib.Core.List.{Memᴰ}
use mathlib.Core.List.Memᴰ
use firebirdsql_otel.Metadata.{
  Object, Edge, dependency, package_body_scope, Row, Database, target, trim, is_packaged, body_of,
}

-- The objects to which the edges lead from the root.
pub data Reaches (root : Object) (es : List Edge) : Object → Type 0 where
  here : Reaches root es root
  along :
      {e : Edge} {o : Object} → Reaches root es e.from → Memᴰ e es → o ≡ e.to → Reaches root es o

unfoldable pub IsDistinct : List Object → Type 0
IsDistinct [] = Unit
IsDistinct (x ∷ xs) = (¬ Memᴰ x xs) × IsDistinct xs

-- The dependency that a row of the database reports.
unfoldable pub IsReported : Database → Edge → Type 0
IsReported d e =
    (rows : List (Option Row)) × ((d e.from.name e.from.kind).rows ≡ some rows)
    × (r : Row) × Memᴰ (some r) rows
    × (e.to ≡ target r)
    × (e.field ≡ trim r.field)

-- A reason for an edge: a row, or a packaged routine, which leads to its package body.
unfoldable pub IsJustified : Database → Edge → Type 0
IsJustified d e =
    (e.kind ≡ dependency) × IsReported d e
    ⊎ (e.kind ≡ package_body_scope) × (is_packaged e.from ≡ true) × (e.to ≡ body_of e.from)

pub record IsGraph (m : ℕ) (d : Database) (root : Object) (nodes : List Object) (edges : List Edge)
    : Type 0 where
  pub few_nodes : length nodes ≤ m
  pub few_edges : length edges ≤ m * 4
  pub distinct : IsDistinct nodes
  pub reached : (o : Object) → Memᴰ o nodes → Reaches root edges o
  pub ends : (e : Edge) → Memᴰ e edges → Memᴰ e.from nodes × Memᴰ e.to nodes
  pub justified : (e : Edge) → Memᴰ e edges → IsJustified d e

pub Memᴰ-concat {ℓ} :
    {A : Type ℓ} (a x : A) (xs : List A) → Memᴰ a (xs ++ x ∷ []) → Memᴰ a xs ⊎ (a ≡ x)
Memᴰ-concat a x xs m = ⊎_elim inl (λ last. inr (Memᴰ.eq_of_singleton last)) (Memᴰ.append_cases xs m)

pub Memᴰ_last {ℓ} : {A : Type ℓ} (x : A) (xs : List A) → Memᴰ x (xs ++ x ∷ [])
Memᴰ_last x xs = Memᴰ.append_right xs (Memᴰ.head refl)

Reaches-append :
    {root : Object} {es : List Edge} (fs : List Edge) {o : Object}
    → Reaches root es o
    → Reaches root (es ++ fs) o
Reaches-append fs here = here
Reaches-append fs (along r m h) = along (Reaches-append fs r) (Memᴰ.append_left fs m) h

IsDistinct-concat :
    (xs : List Object) (o : Object) → IsDistinct xs → ¬ Memᴰ o xs → IsDistinct (xs ++ o ∷ [])
unfolding IsDistinct
IsDistinct-concat [] o h n = (Memᴰ.not-nil, tt)
IsDistinct-concat (x ∷ xs) o h n = (
  λ m. ⊎_elim h.0 (λ e. n (Memᴰ.head (sym e))) (Memᴰ-concat x o xs m),
  IsDistinct-concat xs o h.1 (λ m. n (Memᴰ.tail m)),
)

module _ {m : ℕ} {d : Database} {root : Object} {nodes : List Object} {edges : List Edge}
    (g : IsGraph m d root nodes edges) where
  -- An edge between nodes of the graph.
  pub IsGraph-old :
      (e : Edge)
      → IsJustified d e
      → Memᴰ e.from nodes
      → Memᴰ e.to nodes
      → length edges < m * 4
      → IsGraph m d root nodes (edges ++ e ∷ [])
  IsGraph-old e j from to h = record {
    few_nodes = g.few_nodes;
    few_edges = omega (arith, length-append edges (e ∷ []));
    distinct = g.distinct;
    reached = λ o n. Reaches-append (e ∷ []) (g.reached o n);
    ends = λ f n. ⊎_elim (g.ends f) (λ same. rw same (from, to)) (Memᴰ-concat f e edges n);
    justified = λ f n. ⊎_elim (g.justified f) (λ same. rw same j) (Memᴰ-concat f e edges n);
  }

  -- An edge to an object that becomes a node.
  pub IsGraph-new :
      (e : Edge)
      → IsJustified d e
      → Memᴰ e.from nodes
      → ¬ Memᴰ e.to nodes
      → length edges < m * 4
      → length nodes < m
      → IsGraph m d root (nodes ++ e.to ∷ []) (edges ++ e ∷ [])
  IsGraph-new e j from to h k = record {
    few_nodes = omega (arith, length-append nodes (e.to ∷ []));
    few_edges = omega (arith, length-append edges (e ∷ []));
    distinct = IsDistinct-concat nodes e.to g.distinct to;
    reached = λ o n.
        ⊎_elim (λ old. Reaches-append (e ∷ []) (g.reached o old))
          (λ same. along (Reaches-append (e ∷ []) (g.reached e.from from)) (Memᴰ_last e edges) same)
          (Memᴰ-concat o e.to nodes n);
    ends = λ f n.
        ⊎_elim (λ old. let b = g.ends f old in (Memᴰ.append_left _ b.0, Memᴰ.append_left _ b.1))
          (λ same. rw same (Memᴰ.append_left _ from, Memᴰ_last e.to nodes))
          (Memᴰ-concat f e edges n);
    justified = λ f n. ⊎_elim (g.justified f) (λ same. rw same j) (Memᴰ-concat f e edges n);
  }
