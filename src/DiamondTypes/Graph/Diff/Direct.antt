-- ===== src/DiamondTypes/Graph/Diff/Direct.antt =====
-- The short circuits of `diff_rev` in tools/diamond-types/src/causalgraph/graph/tools.rs for two single
-- versions.
use egwalker_paper.Base.{
  ℕ, ◌+◌, ◌-◌, ◌≤◌, ◌<◌, ◌≡◌, refl, subst, fun_ext, ◌↔◌, Bool, true, false, not, List, [], ◌∷◌,
  append-nil, some, get_elem?, contains_self, All, arith,
}
use mathlib.Core.Bool.{false≢true}
use egwalker_paper.OtBench.Graph.{DiffFlag, only_a, only_b}
use egwalker_paper.OtBench.Graph.Ancestors.{AncOf, Anc-le}
use egwalker_paper.OtBench.Graph.Absorb.{pick}
use egwalker_paper.DiamondTypes.DtRange.{DtRange}
use egwalker_paper.DiamondTypes.DtRange.Laws.{upto}
use egwalker_paper.DiamondTypes.Graph.{GraphEntryInternal}
use egwalker_paper.DiamondTypes.Graph.Expand.{expand}
use egwalker_paper.DiamondTypes.Graph.Runs.{Has, IsDag, dag-IsCausal, AncOf_one}
use egwalker_paper.DiamondTypes.Graph.Diff.{one_side}
use egwalker_paper.DiamondTypes.Graph.Diff.Part.{
  IsPart, IsFlagged, marked, marked-IsPart, whole-IsDiff,
}
use egwalker_paper.DiamondTypes.Graph.Diff.Mark.{written_out, IsRanges}
use egwalker_paper.DiamondTypes.Graph.Chain.{chain, chain_history}
use egwalker_paper.DiamondTypes.Graph.Diff.Rounds.{IsOutput}
use egwalker_paper.DiamondTypes.Graph.Diff.Slow.{empty-IsPart}

module _ (es : List GraphEntryInternal) (hi : ℕ) (dag : IsDag es hi) where
  module _ (v u : ℕ) (hv : v < hi) (hu : u < hi) (i : ℕ) (e : GraphEntryInternal)
      (g : get_elem? es i ≡ some e) (c : Has e v) (l : e.span.start ≤ u) (m : u < v) where
    below_flagged : (x : ℕ) → u + 1 ≤ x → ¬ AncOf (expand es) (u ∷ []) x
    below_flagged x k y =
        absurd
          (omega (arith, Anc-le (expand es) (dag-IsCausal es hi dag) (AncOf_one (expand es) u x y)))

    -- The two versions have one history up to `u`.
    history_eq : (x : ℕ) → x < u + 1 → AncOf (expand es) (v ∷ []) x ↔ AncOf (expand es) (u ∷ []) x
    history_eq x k =
        let (to, from) = chain_history es hi dag i e g v u x c l (omega arith) (omega arith) in
        (
          λ y. (u, contains_self u [], to (AncOf_one (expand es) v x y)),
          λ y. (v, contains_self v [], from (AncOf_one (expand es) u x y)),
        )

    -- Which side is ahead.
    abbrev left : Bool → List ℕ
    left t = pick t (v ∷ []) (u ∷ [])

    abbrev right : Bool → List ℕ
    right t = pick t (u ∷ []) (v ∷ [])

    abbrev ahead : Bool → DiffFlag
    ahead t = pick t only_a only_b

    run_flagged :
        (x : ℕ)
        → u + 1 ≤ x
        → x < v + 1
        → AncOf (expand es) (v ∷ []) x ↔ ((x < v + 1) × (true ≡ true))
    run_flagged x k n = (
      λ y. (n, refl),
      λ y. (v, contains_self v [], chain es hi dag i e g v x c (omega arith) (omega arith)),
    )

    rest_flagged :
        (x : ℕ) → u + 1 ≤ x → AncOf (expand es) (u ∷ []) x ↔ ((x < v + 1) × (false ≡ true))
    rest_flagged x k = (λ y. absurd (below_flagged x k y), λ (n, f). absurd (false≢true f))

    direct-IsFlagged :
        (t : Bool)
        → IsFlagged
            (expand es)
            (dag-IsCausal es hi dag)
            (left t)
            (right t)
            (u + 1)
            (v + 1)
            (v + 1)
            (ahead t)
    direct-IsFlagged true true x k n = run_flagged x k n
    direct-IsFlagged true false x k n = rest_flagged x k
    direct-IsFlagged false true x k n = rest_flagged x k
    direct-IsFlagged false false x k n = run_flagged x k n

    direct_below :
        (t s : Bool) (x : ℕ)
        → x < u + 1
        → AncOf (expand es) (pick s (left t) (right t)) x
        → AncOf (expand es) (pick (not s) (left t) (right t)) x
    direct_below true true x k y = (history_eq x k).0 y
    direct_below true false x k y = (history_eq x k).1 y
    direct_below false true x k y = (history_eq x k).1 y
    direct_below false false x k y = (history_eq x k).0 y

    abbrev direct_range : DtRange
    direct_range = record { start = u + 1; end = v + 1 }

    direct_out :
        (t s : Bool)
        → marked s (ahead t) (u + 1) (v + 1) [] ≡ written_out (one_side direct_range (ahead t)) s
    direct_out true true = append-nil (upto (u + 1) ((v + 1) - (u + 1)))
    direct_out true false = refl
    direct_out false true = refl
    direct_out false false = append-nil (upto (u + 1) ((v + 1) - (u + 1)))

    direct-IsRanges : (t : Bool) → IsRanges (one_side direct_range (ahead t))
    direct-IsRanges true = ((omega arith, tt), tt)
    direct-IsRanges false = (tt, (omega arith, tt))

    sides_below : (t : Bool) → All (λ x. x < v + 1) (left t) × All (λ x. x < v + 1) (right t)
    sides_below true = ((omega arith, tt), (omega arith, tt))
    sides_below false = ((omega arith, tt), (omega arith, tt))

    pub direct-IsOutput :
        (t : Bool) → IsOutput es hi dag (left t) (right t) (one_side direct_range (ahead t))
    direct-IsOutput t =
        let causal = dag-IsCausal es hi dag in
        (
          direct-IsRanges t,
          whole-IsDiff (expand es) causal (left t) (right t) (u + 1)
              (written_out (one_side direct_range (ahead t)))
              (subst (IsPart (expand es) causal (left t) (right t) (u + 1)) (fun_ext (direct_out t))
                (marked-IsPart (expand es) causal (left t) (right t) (u + 1) (v + 1) (v + 1)
                  (ahead t) (λ s. [])
                  (empty-IsPart es hi dag (left t) (right t) (v + 1) (sides_below t).0
                    (sides_below t).1)
                  (omega arith) (omega arith) (direct-IsFlagged t)))
              (direct_below t),
        )
