-- ===== src/DiamondTypes/Graph/Examples.antt =====
-- Runs of the definitions for the causal graph on a graph of two runs, and the theorems at it.
use egwalker_paper.Base.{
  ℕ, zero, suc, ap, some, none, get_elem?, ◌≤◌, ◌≡◌, refl, ◌↔◌, inr, [], ◌∷◌, arith, Bool, true,
  Option, Ordering, All, All-map,
}
use egwalker_paper.Base.Panic.{done, checked_sub}
use egwalker_paper.OtBench.Graph.Ancestors.{Anc, AncOf}
use egwalker_paper.DiamondTypes.DtRange
use egwalker_paper.DiamondTypes.Graph.{GraphEntryInternal, Graph, graph_push}
use egwalker_paper.DiamondTypes.Graph.Expand.{expand}
use egwalker_paper.DiamondTypes.Graph.Runs.{IsDag, IsEntry, Has, dag-IsCausal}
use egwalker_paper.DiamondTypes.Graph.Wiring.{elem-All, HasChildrenBelow, AreApart}
use egwalker_paper.DiamondTypes.Graph.Push.{Pushed, graph_push_lem}
use egwalker_paper.DiamondTypes.Graph.Tools.{frontier_contains_version, version_cmp, frontier_cmp}
use egwalker_paper.DiamondTypes.Graph.Tools.Contains.{frontier_contains_version_lem}
use egwalker_paper.DiamondTypes.Graph.Tools.Compare.{
  Ordered, version_cmp_lem, FrontierOrdered, frontier_cmp_lem,
}
use egwalker_paper.Base.{subst, contains, inl, ◌⊎◌}
use egwalker_paper.OtBench.Frontier.Advance.{IsSorted}
use egwalker_paper.OtBench.Graph.Ancestors.{Anc-le}
use egwalker_paper.DiamondTypes.Graph.Runs.{run_history, shadow_Anc, AncOf_one}
use egwalker_paper.DiamondTypes.Frontier.Uncovered.{IsMinimal}
use egwalker_paper.DiamondTypes.Frontier.Round.{IsTip, HasFrontiers, one-IsSorted, one-IsMinimal}
use egwalker_paper.DiamondTypes.Frontier.Retreat.{Retreated, retreat_lem}
use egwalker_paper.DiamondTypes.Frontier.{advance, retreat}
use egwalker_paper.DiamondTypes.Frontier.History.{Advanced}
use egwalker_paper.DiamondTypes.Frontier.Advance.{advance_history}

-- 0, 1, 2, and on top of 1 the versions 3, 4.
abbrev pub two : Graph
two = record {
  entries =
      record {
        span = record { start = 0; end = 3 };
        shadow = 0;
        parents = [];
        child_indexes = 1 ∷ [];
      }
      ∷ record {
        span = record { start = 3; end = 5 };
        shadow = 3;
        parents = 1 ∷ [];
        child_indexes = [];
      }
      ∷ [];
  root_child_indexes = 0 ∷ [];
}

two-All : All (IsEntry (expand two.entries)) two.entries
two-All = (
  record { below = tt; shadow_le = omega arith; shadowed = λ x l m. absurd (omega arith) },
  (
    record {
      below = (omega arith, tt);
      shadow_le = omega arith;
      shadowed = λ x l m. absurd (omega arith);
    },
    tt,
  ),
)

pub two-IsDag : IsDag two.entries 5
unfolding DtRange.len checked_sub
two-IsDag = record {
  runs = (refl, omega arith, refl, (refl, omega arith, refl, refl));
  sound = λ i e h. elem-All (IsEntry (expand two.entries)) two.entries i e two-All h;
}

frontier_contains_version_lem_example :
    (b : Bool) × (frontier_contains_version two (2 ∷ 4 ∷ []) 0 ≡ done b)
    × ((b ≡ true) ↔ AncOf (expand two.entries) (2 ∷ 4 ∷ []) 0)
frontier_contains_version_lem_example =
    frontier_contains_version_lem two 5 (2 ∷ 4 ∷ []) 0 two-IsDag ((omega arith, tt), (tt, tt))
      (omega arith, (omega arith, tt))

version_cmp_lem_example :
    (o : Option Ordering) × (version_cmp two 2 4 ≡ done o) × Ordered two 5 two-IsDag 2 4 o
version_cmp_lem_example = version_cmp_lem two 5 two-IsDag 2 4 (omega arith) (omega arith)

frontier_cmp_lem_example :
    (o : Option Ordering) × (frontier_cmp two (2 ∷ 4 ∷ []) (3 ∷ []) ≡ done o)
    × FrontierOrdered two 5 two-IsDag (2 ∷ 4 ∷ []) (3 ∷ []) o
frontier_cmp_lem_example =
    frontier_cmp_lem two 5 two-IsDag (2 ∷ 4 ∷ []) (3 ∷ []) ((omega arith, tt), (tt, tt)) (tt, tt)
      (omega arith, (omega arith, tt)) (omega arith, tt)

pub two-HasChildrenBelow : HasChildrenBelow 2 two.entries
two-HasChildrenBelow = ((omega arith, tt), (tt, tt))

two_apart :
    (i : ℕ) (e : GraphEntryInternal) → get_elem? two.entries i ≡ some e → Has e 2 → Has e 4 → ⊥
two_apart zero e at c d =
    let end : 3 ≡ e.span.end =
      ap (λ (o : Option GraphEntryInternal). elim o [ none ↦ 3 | some x ↦ x.span.end ]) at in
    omega (arith, end, c.0, c.1, d.0, d.1)
two_apart (suc zero) e at c d =
    let start : 3 ≡ e.span.start =
      ap (λ (o : Option GraphEntryInternal). elim o [ none ↦ 3 | some x ↦ x.span.start ]) at in
    omega (arith, start, c.0)
two_apart (suc (suc i)) e at c d = absurd (ground arith)

two-AreApart : AreApart two.entries (2 ∷ 4 ∷ [])
two-AreApart = ((two_apart, tt), (tt, tt))

-- The versions 5 and 6 merge the two branches.
graph_push_lem_example :
    Pushed two 5
      (2 ∷ 4 ∷ [])
      (record { start = 5; end = 7 })
      (graph_push two (2 ∷ 4 ∷ []) (record { start = 5; end = 7 }))
graph_push_lem_example =
    graph_push_lem two 5 (2 ∷ 4 ∷ []) (record { start = 5; end = 7 }) two-IsDag two-HasChildrenBelow
      two-AreApart refl (omega arith) (omega arith, (omega arith, tt))

-- The frontier of the empty document, advanced by the whole graph.
advance_history_example :
    Advanced two.entries (advance two (record { start = 0; end = 5 }) []) [] 0 5
advance_history_example =
    advance_history two 5 [] 0 5 two-IsDag (omega arith) (omega arith) tt
      (λ x l m (p, c, a). absurd (ground arith))
      (λ x d l m g.
        All-map d.parents (λ p k. inr (omega arith)) (dag-IsCausal two.entries 5 two-IsDag x d g))

pub two-HasFrontiers : HasFrontiers two.entries
two-HasFrontiers i e h =
    elem-All (λ d. IsSorted d.parents × IsMinimal (expand two.entries) d.parents) two.entries i e
      (
        (tt, λ p q k l a. absurd (ground (arith, k))),
        ((one-IsSorted 1, one-IsMinimal (expand two.entries) 1), tt),
      )
      h

tip_cases : (p : ℕ) → contains (2 ∷ 4 ∷ []) p ≡ true → (p ≡ 2) ⊎ (p ≡ 4)
tip_cases p h = ground (arith, h)

two_le : (v x : ℕ) → Anc (expand two.entries) v x → x ≤ v
two_le v x a = Anc-le (expand two.entries) (dag-IsCausal two.entries 5 two-IsDag) a

abbrev branch : GraphEntryInternal
branch = record {
  span = record { start = 3; end = 5 };
  shadow = 3;
  parents = 1 ∷ [];
  child_indexes = [];
}

apart_4_2 : ¬ Anc (expand two.entries) 4 2
apart_4_2 a =
    let below =
      (run_history two.entries 5 two-IsDag 1 branch refl 4 2 (omega arith, omega arith)
          (omega arith)).0
        a in
    omega (arith, two_le 1 2 (AncOf_one (expand two.entries) 1 2 below))

pub two-IsMinimal : IsMinimal (expand two.entries) (2 ∷ 4 ∷ [])
two-IsMinimal p q h k a = elim (tip_cases p h) [
  | inl e ↦ elim (tip_cases q k) [
    | inl d ↦ omega arith
    | inr d ↦ absurd (omega (arith, two_le p q a))
  ]
  | inr e ↦ elim (tip_cases q k) [
    | inl d ↦ absurd (
        apart_4_2 (
          subst (λ v. Anc (expand two.entries) v 2) e
            (subst (λ x. Anc (expand two.entries) p x) d a)))
    | inr d ↦ omega arith
  ]
]

two-IsTip : IsTip (expand two.entries) 5 (2 ∷ 4 ∷ []) 3 4
two-IsTip = record {
  sorted = ((omega arith, tt), (tt, tt));
  below = (omega arith, (omega arith, tt));
  minimal = two-IsMinimal;
  held = λ x l m. (
    4,
    refl,
    shadow_Anc two.entries 5 two-IsDag 1 branch refl 4 x (omega arith, omega arith) l m,
  );
  tip = λ v x (p, h, a) l m b. (
    omega (arith, two_le v x b),
    elim (tip_cases p h) [
      | inl e ↦ omega (arith, two_le p v a)
      | inr e ↦ omega (arith, two_le p v a)
    ],
  );
}

-- The branch of 3 and 4 goes again.
retreat_lem_example :
    Retreated
      (expand two.entries)
      (retreat two (record { start = 3; end = 5 }) (2 ∷ 4 ∷ []))
      (2 ∷ 4 ∷ [])
      3
      4
retreat_lem_example =
    retreat_lem two 5 (2 ∷ 4 ∷ []) 3 4 two-IsDag two-HasFrontiers (omega arith) (omega arith)
      two-IsTip
