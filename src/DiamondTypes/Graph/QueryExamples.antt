-- ===== src/DiamondTypes/Graph/QueryExamples.antt =====
-- The theorems on `diff`, the dominators and the frontiers built from them, at a graph of two runs.
use egwalker_paper.Base.{◌≡◌, refl, ◌++◌, List, [], ◌∷◌, arith, All, length}
use egwalker_paper.Base.Panic.{done}
use egwalker_paper.OtBench.Frontier.{Frontier}
use egwalker_paper.OtBench.Graph as Simple
use egwalker_paper.OtBench.Graph.Diff.{IsDiff}
use egwalker_paper.Rle.Spans.{flatten}
use egwalker_paper.DiamondTypes.DtRange.Laws.{dt_span, IsRange}
use egwalker_paper.DiamondTypes.Graph.Expand.{expand}
use egwalker_paper.DiamondTypes.Graph.Examples.{
  two, two-IsDag, two-HasFrontiers, two-IsMinimal, two-HasChildrenBelow,
}
use egwalker_paper.DiamondTypes.Graph.Wiring.{HasChildrenBelow}
use egwalker_paper.DiamondTypes.Graph.{Graph, graph_push}
use egwalker_paper.DiamondTypes.Graph.Runs.{IsDag}
use egwalker_paper.DiamondTypes.Frontier.Pushed.{graph_push-HasFrontiers}
use egwalker_paper.DiamondTypes.Graph.Diff.{DiffResult, diff, diff_rev, diff_rev_2}
use egwalker_paper.DiamondTypes.Graph.Diff.Result.{diff-IsDiff}
use egwalker_paper.DiamondTypes.Graph.Diff.Refine.{diff_refines, collect, diff_rev_2_lem}
use egwalker_paper.DiamondTypes.Graph.Dominators.{
  Visit, find_dominators, find_dominators_2, find_dominators_full, version_union,
}
use egwalker_paper.DiamondTypes.Graph.Dominators.Calls.{IsCalls, find_dominators_full_lem}
use egwalker_paper.DiamondTypes.Graph.Dominators.Spec.{IsDominators}
use egwalker_paper.DiamondTypes.Graph.Dominators.Result.{find_dominators_lem, version_union_lem}
use egwalker_paper.DiamondTypes.Graph.Dominators.Two.{find_dominators_2_lem}
use egwalker_paper.DiamondTypes.Frontier.{advance_sparse, merge_union}
use egwalker_paper.DiamondTypes.Frontier.Round.{HasFrontiers, one-IsMinimal}
use egwalker_paper.DiamondTypes.Frontier.Sparse.{versions, advance_sparse_lem}
use egwalker_paper.DiamondTypes.Frontier.Union.{merge_union_lem}

-- The inputs 4, 2 and 0, once each.
find_dominators_full_lem_example :
    (visits : List Visit) × (find_dominators_full two (4 ∷ 0 ∷ 2 ∷ 4 ∷ []) ≡ done visits)
    × IsCalls two.entries 5 two-IsDag (4 ∷ 0 ∷ 2 ∷ 4 ∷ []) visits
find_dominators_full_lem_example =
    find_dominators_full_lem two 5 two-IsDag (omega arith) (4 ∷ 0 ∷ 2 ∷ 4 ∷ [])
      (omega arith, (omega arith, (omega arith, (omega arith, tt))))

-- The two tips, and a version below both.
diff-IsDiff_example :
    (r : DiffResult) × (diff two (2 ∷ 4 ∷ []) (1 ∷ []) ≡ done r)
    × All IsRange r.0
    × All IsRange r.1
    × IsDiff (expand two.entries) (2 ∷ 4 ∷ []) (1 ∷ []) (flatten dt_span r.0, flatten dt_span r.1)
diff-IsDiff_example =
    diff-IsDiff two 5 (2 ∷ 4 ∷ []) (1 ∷ []) two-IsDag (omega arith) (omega arith, (omega arith, tt))
      (omega arith, tt)

-- Two concurrent versions.
diff_refines_example :
    (r : DiffResult) × (diff two (2 ∷ []) (4 ∷ []) ≡ done r)
    × (Simple.diff
          (record { entries = expand two.entries; frontier = 2 ∷ 4 ∷ [] })
          (2 ∷ [])
          (4 ∷ [])
        ≡ done (flatten dt_span r.0, flatten dt_span r.1))
diff_refines_example =
    diff_refines two 5 (2 ∷ []) (4 ∷ []) (2 ∷ 4 ∷ []) two-IsDag (omega arith) (omega arith, tt)
      (omega arith, tt)

diff_rev_2_lem_example :
    diff_rev two (2 ∷ []) (4 ∷ []) ≡ diff_rev_2 collect two (2 ∷ []) (4 ∷ []) ([], [])
diff_rev_2_lem_example = diff_rev_2_lem two (2 ∷ []) (4 ∷ [])

-- An unordered list with a version twice.
find_dominators_lem_example :
    (r : Frontier) × (find_dominators two (4 ∷ 0 ∷ 2 ∷ 4 ∷ []) ≡ done r)
    × IsDominators (expand two.entries) (4 ∷ 0 ∷ 2 ∷ 4 ∷ []) r
find_dominators_lem_example =
    find_dominators_lem two 5 two-IsDag (omega arith) (4 ∷ 0 ∷ 2 ∷ 4 ∷ [])
      (omega arith, (omega arith, (omega arith, (omega arith, tt))))

version_union_lem_example :
    (r : Frontier) × (version_union two (1 ∷ []) (2 ∷ 4 ∷ []) ≡ done r)
    × IsDominators (expand two.entries) ((1 ∷ []) ++ (2 ∷ 4 ∷ [])) r
version_union_lem_example =
    version_union_lem two 5 two-IsDag (omega arith) (1 ∷ []) (2 ∷ 4 ∷ []) (omega arith, tt)
      (omega arith, (omega arith, tt))

find_dominators_2_lem_example :
    (r : Frontier) × (find_dominators_2 two (2 ∷ 4 ∷ []) (3 ∷ []) ≡ done r)
    × IsDominators (expand two.entries) ((2 ∷ 4 ∷ []) ++ (3 ∷ [])) r
find_dominators_2_lem_example =
    find_dominators_2_lem two 5 two-IsDag (omega arith) (2 ∷ 4 ∷ []) (3 ∷ [])
      (omega arith, (omega arith, tt)) (omega arith, tt) ((omega arith, tt), (tt, tt)) (tt, tt)
      two-IsMinimal (one-IsMinimal (expand two.entries) 3)

-- A range over both runs, on top of version 0.
advance_sparse_lem_example :
    (r : Frontier) × (advance_sparse two (record { start = 1; end = 5 }) (0 ∷ []) ≡ done r)
    × IsDominators (expand two.entries) ((0 ∷ []) ++ versions 1 5) r
advance_sparse_lem_example =
    advance_sparse_lem two 5 two-IsDag (omega arith) (0 ∷ []) (omega arith, tt) (tt, tt)
      (one-IsMinimal (expand two.entries) 0) 1 5 (omega arith) (omega arith)

merge_union_lem_example :
    (r : Frontier) × (merge_union (3 ∷ []) two (2 ∷ []) ≡ done r)
    × IsDominators (expand two.entries) ((2 ∷ []) ++ (3 ∷ [])) r
merge_union_lem_example =
    merge_union_lem two 5 two-IsDag (omega arith) (2 ∷ []) (3 ∷ []) (omega arith, tt)
      (omega arith, tt) (tt, tt) (one-IsMinimal (expand two.entries) 2)

-- The versions 5 and 6 merge the two branches.
graph_push-HasFrontiers_example :
    (g' : Graph) × (graph_push two (2 ∷ 4 ∷ []) (record { start = 5; end = 7 }) ≡ done g')
    × IsDag g'.entries 7
    × HasChildrenBelow (length g'.entries) g'.entries
    × HasFrontiers g'.entries
graph_push-HasFrontiers_example =
    graph_push-HasFrontiers two 5 (2 ∷ 4 ∷ []) (record { start = 5; end = 7 }) two-IsDag
      two-HasChildrenBelow two-HasFrontiers refl (omega arith) (omega arith, (omega arith, tt))
      ((omega arith, tt), (tt, tt)) two-IsMinimal
