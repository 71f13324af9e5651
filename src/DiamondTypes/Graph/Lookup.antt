-- ===== src/DiamondTypes/Graph/Lookup.antt =====
-- The questions about one version that tools/diamond-types/src/causalgraph/graph/mod.rs answers from
-- one entry.
use egwalker_paper.Base.{ℕ, ◌<◌, ◌≡◌, refl, sym, inl, inr, List, some, get_elem?}
use egwalker_paper.Base.Panic.{done}
use egwalker_paper.DiamondTypes.RleVec.Scan.{vec_end_lem}
use egwalker_paper.DiamondTypes.Graph.{
  Graph, entry_key, entry_len, parents_at, parents_at_version, get_next_time,
}
use egwalker_paper.DiamondTypes.Graph.Expand.{expand, span_size}
use egwalker_paper.DiamondTypes.Graph.Runs.{IsDag, entry_at, version_at}

module _ (g : Graph) (hi : ℕ) (dag : IsDag g.entries hi) where
  -- In a well-formed graph, `get_next_time` is where the versions end.
  pub get_next_time_lem : get_next_time g ≡ done hi
  unfolding get_next_time
  get_next_time_lem = elim (vec_end_lem entry_key entry_len span_size 0 hi g.entries dag.runs) [
    | inl r ↦ r
    | inr (_, z, r) ↦ rw (sym z) r
  ]

  -- In a well-formed graph, `parents_at_version` of a version returns the parents that the version
  -- has in the graph without runs.
  pub parents_at_version_lem :
      (v : ℕ)
      → v < hi
      → (ps : List ℕ) × (parents_at_version g v ≡ done ps)
        × (get_elem? (expand g.entries) v ≡ some (record { idx = v; parents = ps }))
  unfolding parents_at_version
  parents_at_version_lem v h =
      let (i, e, f, at, c) = entry_at g.entries hi dag v h in
      (parents_at e v, rw f refl, version_at g.entries hi dag i e v at c)
