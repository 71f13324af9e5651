-- ===== src/DiamondTypes/Graph/Chain.antt =====
-- The versions of one run of the graph of tools/diamond-types/src/causalgraph/graph/mod.rs, as a chain.
use egwalker_paper.Base.{
  ℕ, ◌+◌, ◌-◌, ◌≤◌, ◌<◌, ◌≡◌, ◌↔◌, inl, inr, List, some, leb, get_elem?, arith, Bool-cases,
}
use egwalker_paper.OtBench.Graph.Ancestors.{Anc}
use egwalker_paper.DiamondTypes.Graph.{GraphEntryInternal}
use egwalker_paper.DiamondTypes.Graph.Expand.{expand}
use egwalker_paper.DiamondTypes.Graph.Runs.{Anc-trans, Has, IsDag, run_Anc, run_history}

module _ (es : List GraphEntryInternal) (hi : ℕ) (dag : IsDag es hi) where
  module _ (i : ℕ) (e : GraphEntryInternal) (g : get_elem? es i ≡ some e) where
    pub chain : (v u : ℕ) → Has e v → e.span.start ≤ u → u ≤ v → Anc (expand es) v u
    chain v u c l m =
        let z : u + (v - u) ≡ v = omega arith in
        let c' : Has e (u + (v - u)) = rw z c in rw z at (run_Anc es hi dag i e g (v - u) u c' l)

    -- Up to `u`, the versions `v` and `u` of a run have one history.
    pub chain_history :
        (v u x : ℕ)
        → Has e v
        → e.span.start ≤ u
        → u ≤ v
        → x ≤ u
        → Anc (expand es) v x ↔ Anc (expand es) u x
    chain_history v u x c l m k =
        let d : Has e u = (l, omega (arith, c.1)) in
        (
          λ y. elim (Bool-cases (leb e.span.start x)) [
            | inl t ↦ chain u x d (ground (arith, t)) k
            | inr t ↦
                let n : x < e.span.start = ground (arith, t) in
                (run_history es hi dag i e g u x d n).1 ((run_history es hi dag i e g v x c n).0 y)
          ],
          λ y. Anc-trans (chain v u c l m) y,
        )
