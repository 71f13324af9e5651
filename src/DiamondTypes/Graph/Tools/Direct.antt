-- ===== src/DiamondTypes/Graph/Tools/Direct.antt =====
-- The tests of tools/diamond-types/src/causalgraph/graph/tools.rs that need one entry.
use egwalker_paper.Base.{
  ℕ, ◌<◌, ◌≤◌, ◌≡◌, refl, ap, ◌⊎◌, List, some, get_elem?, subst, inl, inr, Bool, true, false, ltb,
  leb, ◌==◌, ==_iff, arith, Bool-cases,
}
use egwalker_paper.Base.Panic.{done}
use egwalker_paper.OtBench.Graph.Ancestors.{Anc, self}
use egwalker_paper.DiamondTypes.DtRange
use egwalker_paper.DiamondTypes.Graph.{GraphEntryInternal, Graph}
use egwalker_paper.DiamondTypes.Graph.Expand.{expand}
use egwalker_paper.DiamondTypes.Graph.Runs.{IsDag, Has, entry_at, shadow_Anc}
use egwalker_paper.DiamondTypes.Graph.Tools.{
  shadow_of, txn_shadow_contains, is_direct_descendant_coarse,
}

module _ (es : List GraphEntryInternal) (hi : ℕ) (dag : IsDag es hi) where
  -- Two different versions: `is_direct_descendant_coarse` is true if the second is before the first
  -- in its run.
  pub coarse_cases :
      (a b : ℕ)
      → a < hi
      → (a == b) ≡ false
      → (is_direct_descendant_coarse es a b ≡ done false)
        ⊎ ((is_direct_descendant_coarse es a b ≡ done true)
            × (i : ℕ) × (e : GraphEntryInternal) × (get_elem? es i ≡ some e)
            × Has e a
            × (e.span.start ≤ b)
            × (b < a))
  unfolding is_direct_descendant_coarse DtRange.contains
  coarse_cases a b h ne =
      let (i, e, f, g, c) = entry_at es hi dag a h in
      elim (Bool-cases (ltb b a)) [
        | inr t ↦ inl (rw (ne, t) refl)
        | inl t ↦ elim (Bool-cases (DtRange.contains e.span b)) [
          | inr u ↦ inl (rw (ne, t, f) (ap done u))
          | inl u ↦
              inr (rw (ne, t, f) (ap done u), i, e, g, c, ground (arith, u), ground (arith, t))
        ]
      ]

module _ (g : Graph) (hi : ℕ) (dag : IsDag g.entries hi) where
  -- In a well-formed graph, `txn_shadow_contains` does not panic; if it is true, the second version is
  -- in the history of the first.
  pub txn_shadow_contains_lem :
      (a b : ℕ)
      → a < hi
      → (r : Bool) × (txn_shadow_contains g.entries a b ≡ done r)
        × ((r ≡ true) → Anc (expand g.entries) a b)
  unfolding txn_shadow_contains shadow_of
  txn_shadow_contains_lem a b h =
      let (i, e, f, at, c) = entry_at g.entries hi dag a h in
      elim (Bool-cases (a == b)) [
        | inl same ↦ (
          true,
          rw same refl,
          λ t. subst (λ x. Anc (expand g.entries) a x) ((==_iff a b).0 same) self,
        )
        | inr apart ↦ elim (Bool-cases (ltb b a)) [
          | inr above ↦ (false, rw (apart, above) refl, λ t. absurd (ground (arith, t)))
          | inl below ↦ (
            leb e.shadow b,
            rw (apart, below, f) refl,
            λ t.
                shadow_Anc g.entries hi dag i e at a b c (ground (arith, t))
                  (ground (arith, below)),
          )
        ]
      ]

  -- In a well-formed graph, `is_direct_descendant_coarse` does not panic; if it is true, the second
  -- version is in the history of the first.
  pub is_direct_descendant_coarse_lem :
      (a b : ℕ)
      → a < hi
      → (r : Bool) × (is_direct_descendant_coarse g.entries a b ≡ done r)
        × ((r ≡ true) → Anc (expand g.entries) a b)
  unfolding is_direct_descendant_coarse DtRange.contains
  is_direct_descendant_coarse_lem a b h =
      let (i, e, f, at, c) = entry_at g.entries hi dag a h in
      elim (Bool-cases (a == b)) [
        | inl same ↦ (
          true,
          rw same refl,
          λ t. subst (λ x. Anc (expand g.entries) a x) ((==_iff a b).0 same) self,
        )
        | inr apart ↦ elim (Bool-cases (ltb b a)) [
          | inr above ↦ (false, rw (apart, above) refl, λ t. absurd (ground (arith, t)))
          | inl below ↦ (
            DtRange.contains e.span b,
            rw (apart, below, f) refl,
            λ t.
                shadow_Anc g.entries hi dag i e at a b c
                  (ground (arith, t, (dag.sound i e at).shadow_le)) (ground (arith, below)),
          )
        ]
      ]
