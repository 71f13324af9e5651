-- ===== src/DiamondTypes/Graph/Diff/Refine.antt =====
-- `diff` of tools/diamond-types/src/causalgraph/graph/tools.rs beside `diff` of tools/ot-bench/src/cg.rs, and
-- `diff_rev` beside `diff_rev_2`.
use egwalker_paper.Base.{
  ℕ, ◌≤◌, ◌<◌, ◌≡◌, refl, sym, ap, fun_ext, ◌∙◌, inl, inr, true, false, List, [], ◌∷◌, Bool, Option,
  none, some, slice_eq, if◌then◌else◌, All, arith, Bool-cases,
}
use egwalker_paper.Base.Panic.{Outcome, done, panic, stuck, ◌>>=◌}
use egwalker_paper.OtBench.Graph.{DiffFlag, only_a, only_b, shared, push_all}
use egwalker_paper.OtBench.Graph.Diff.{IsDiff, push_start, push_start-num}
use egwalker_paper.Rle.Spans.{flatten}
use egwalker_paper.DiamondTypes.DtRange.{DtRange}
use egwalker_paper.DiamondTypes.DtRange.Laws.{dt_span}
use egwalker_paper.DiamondTypes.RleVec.{usize_max}
use egwalker_paper.DiamondTypes.Graph.{GraphEntryInternal, Graph}
use egwalker_paper.DiamondTypes.Graph.Tools.{is_direct_descendant_coarse}
use egwalker_paper.DiamondTypes.Graph.Expand.{expand}
use egwalker_paper.DiamondTypes.Graph.Runs.{IsDag, dag-IsCausal}
use egwalker_paper.DiamondTypes.Graph.Diff.{
  DiffResult, diff_slow_internal, diff_slow, diff_direct, one_side, diff_rev, diff_rev_2, diff,
  diff_rev_2_apart, wrapping_add_1,
}
use egwalker_paper.Rle.AppendRle.{push_reversed_rle}
use egwalker_paper.OtBench.Frontier.Sorted.{sorted_ext}
use egwalker_paper.OtBench.Graph.{CausalGraph}
use egwalker_paper.OtBench.Graph as Simple
use egwalker_paper.OtBench.Graph.Diff as SimpleDiff
use egwalker_paper.DiamondTypes.Graph.Diff.{mark_result, inclusive, Marker}
use egwalker_paper.Base.{length}
use egwalker_paper.DiamondTypes.Graph.Expand.{length-expand}
use egwalker_paper.Base.{iff_trans}
use egwalker_paper.DiamondTypes.Graph.Diff.Result.{diff-IsDiff}

-- In a well-formed graph whose versions are below the greatest `usize`, `diff` returns ranges of
-- exactly the versions that `diff` of tools/ot-bench/src/cg.rs returns on the graph without runs, in
-- the same order.
pub diff_refines :
    (g : Graph) (hi : ℕ) (a b frontier : List ℕ)
    → IsDag g.entries hi
    → hi ≤ usize_max
    → All (λ v. v < hi) a
    → All (λ v. v < hi) b
    → (r : DiffResult) × (diff g a b ≡ done r)
      × (Simple.diff (record { entries = expand g.entries; frontier = frontier }) a b
          ≡ done (flatten dt_span r.0, flatten dt_span r.1))
diff_refines g hi a b frontier dag fits ha hb =
    let n : length (expand g.entries) ≡ hi = omega (arith, length-expand 0 hi g.entries dag.runs) in
    let (r, e, _, _, found) = diff-IsDiff g hi a b dag fits ha hb in
    let (s, d, simple) =
      SimpleDiff.diff_lem (record { entries = expand g.entries; frontier = frontier }) a b
        (dag-IsCausal g.entries hi dag) (rw n ha) (rw n hb) in
    let same_a =
      sorted_ext s.0 (flatten dt_span r.0) simple.a_ascending found.a_ascending
        (λ x. iff_trans (simple.a_only x) ((found.a_only x).1, (found.a_only x).0)) in
    let same_b =
      sorted_ext s.1 (flatten dt_span r.1) simple.b_ascending found.b_ascending
        (λ x. iff_trans (simple.b_only x) ((found.b_only x).1, (found.b_only x).0)) in
    (r, e, d ∙ rw (sym same_a, sym same_b) refl)

-- `push_reversed_rle` of a range to the side that has it.
abbrev pub collect : DtRange → DiffFlag → DiffResult → Outcome DiffResult
collect r only_a (av, bv) = push_reversed_rle dt_span av r >>= λ p. done (p.0, bv)
collect r only_b (av, bv) = push_reversed_rle dt_span bv r >>= λ p. done (av, p.0)
collect r shared s = done s

collect_eq :
    (start last : ℕ) (flag : DiffFlag) (s : DiffResult)
    → mark_result start last flag s ≡ collect (inclusive start last) flag s
unfolding mark_result
collect_eq start last only_a (av, bv) = refl
collect_eq start last only_b (av, bv) = refl
collect_eq start last shared s = refl

collect_one : (r : DtRange) (flag : DiffFlag) → done (one_side r flag) ≡ collect r flag ([], [])
unfolding push_reversed_rle
collect_one r only_a = refl
collect_one r only_b = refl
collect_one r shared = refl

same_slow :
    (es : List GraphEntryInternal) (a b : List ℕ)
    → diff_slow es a b
      ≡ diff_slow_internal (λ start last flag. collect (inclusive start last) flag) es a b ([], [])
unfolding diff_slow
same_slow es a b =
    ap {B = Outcome DiffResult} (λ (m : Marker DiffResult). diff_slow_internal m es a b ([], []))
      (fun_ext (λ start. fun_ext (λ last. fun_ext (λ flag. fun_ext (collect_eq start last flag)))))

after_direct :
    List GraphEntryInternal → List ℕ → List ℕ → Option (DtRange × DiffFlag) → Outcome DiffResult
after_direct es a b o = elim o [ some (r, flag) ↦ done (one_side r flag) | none ↦ diff_slow es a b ]

-- The two for single versions, whatever the two tests return.
same_two :
    (es : List GraphEntryInternal) (x y : ℕ) (over under : Outcome Bool)
    → ((over >>= (λ o.
          if o
          then done (some (record { start = wrapping_add_1 y; end = wrapping_add_1 x }, only_a))
          else under >>= (λ u. done (
              if u
              then some (record { start = wrapping_add_1 x; end = wrapping_add_1 y }, only_b)
              else none))))
        >>= after_direct es (x ∷ []) (y ∷ []))
      ≡ (over >>= (λ o.
          if o
          then collect (record { start = wrapping_add_1 y; end = wrapping_add_1 x }) only_a ([], [])
          else under >>= (λ u.
            if u
            then collect
                (record { start = wrapping_add_1 x; end = wrapping_add_1 y })
                only_b
                ([], [])
            else diff_slow_internal
                (λ start last flag. collect (inclusive start last) flag)
                es
                (x ∷ [])
                (y ∷ [])
                ([], []))))
unfolding after_direct
same_two es x y panic under = refl
same_two es x y stuck under = refl
same_two es x y (done true) under = collect_one _ only_a
same_two es x y (done false) panic = refl
same_two es x y (done false) stuck = refl
same_two es x y (done false) (done true) = collect_one _ only_b
same_two es x y (done false) (done false) = same_slow es (x ∷ []) (y ∷ [])

same_apart :
    (es : List GraphEntryInternal) (a b : List ℕ)
    → (diff_direct es a b >>= after_direct es a b) ≡ diff_rev_2_apart collect es a b ([], [])
unfolding after_direct diff_direct diff_rev_2_apart
same_apart es [] b = same_slow es [] b
same_apart es (x ∷ x' ∷ a) b = same_slow es (x ∷ x' ∷ a) b
same_apart es (x ∷ []) [] = same_slow es (x ∷ []) []
same_apart es (x ∷ []) (y ∷ y' ∷ b) = same_slow es (x ∷ []) (y ∷ y' ∷ b)
same_apart es (x ∷ []) (y ∷ []) =
    same_two es x y (is_direct_descendant_coarse es x y) (is_direct_descendant_coarse es y x)

-- `diff_rev` returns what `diff_rev_2` makes of empty results with a callback that appends each range
-- to the side that has it, a panic included.
pub diff_rev_2_lem : (g : Graph) (a b : List ℕ) → diff_rev g a b ≡ diff_rev_2 collect g a b ([], [])
unfolding diff_rev diff_rev_2 after_direct
diff_rev_2_lem g a b = elim (Bool-cases (slice_eq a b)) [
  | inl t ↦ rw t refl
  | inr t ↦ rw t (same_apart g.entries a b)
]
