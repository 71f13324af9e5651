-- ===== src/DiamondTypes/Frontier/Union.antt =====
-- `merge_union` of tools/diamond-types/src/frontier.rs.
use egwalker_paper.Base.{
  contains-append, All-append, append-contains, ℕ, ◌/◌, ◌≤◌, ◌<◌, ◌≡◌, refl, subst, ==_iff, inl,
  inr, Bool, true, false, [], ◌∷◌, ◌++◌, contains, slice_eq, eq_of_slice_eq, arith, Bool-cases, All,
}
use egwalker_paper.Base.Panic.{done}
use egwalker_paper.OtBench.Frontier.{Frontier}
use egwalker_paper.OtBench.Frontier.Advance.{IsSorted}
use egwalker_paper.OtBench.Graph.Ancestors.{self, AncOf, Anc-le}
use egwalker_paper.DiamondTypes.RleVec.{usize_max}
use egwalker_paper.DiamondTypes.Graph.{Graph}
use egwalker_paper.DiamondTypes.Graph.Expand.{expand}
use egwalker_paper.DiamondTypes.Graph.Runs.{IsDag, Anc-trans, dag-IsCausal}
use egwalker_paper.DiamondTypes.Graph.Tools.Contains.{frontier_contains_version_lem}
use egwalker_paper.DiamondTypes.Graph.Dominators.Spec.{IsDominators, members-IsDominators}
use egwalker_paper.DiamondTypes.Graph.Dominators.Result.{version_union_lem}
use egwalker_paper.DiamondTypes.Frontier.Uncovered.{IsMinimal}
use egwalker_paper.DiamondTypes.Frontier.{is_covered, merge_union}

module _ (g : Graph) (hi : ℕ) (dag : IsDag g.entries hi) where
  -- Versions in a frontier's history add no dominator to it.
  pub covered-IsDominators :
      (f other : Frontier)
      → All (λ v. v < hi) f
      → All (λ v. v < hi) other
      → IsSorted f
      → IsMinimal (expand g.entries) f
      → ((w : ℕ) → contains other w ≡ true → AncOf (expand g.entries) f w)
      → IsDominators (expand g.entries) (f ++ other) f
  covered-IsDominators f other hf ho s m covered =
      let below : (w : ℕ) → contains (f ++ other) w ≡ true → AncOf (expand g.entries) f w =
        λ w c. elim (contains-append f other w c) [ inl d ↦ (w, d, self) | inr d ↦ covered w d ] in
      members-IsDominators g hi dag (f ++ other) f (All-append (λ v. v < hi) f other hf ho) s (λ y.
        (
          λ c. (
            append-contains f other y (inl c),
            λ w d a.
                (let (p, pc, b) = below w d in
                  let same = m p y pc c (Anc-trans b a) in
                  omega (
                    arith,
                    Anc-le (expand g.entries) (dag-IsCausal g.entries hi dag) a,
                    Anc-le (expand g.entries) (dag-IsCausal g.entries hi dag) b,
                    same,
                  )),
          ),
          λ (c, top).
              (let (p, pc, b) = below y c in
                let same = top p (append-contains f other p (inl pc)) b in
                subst (λ x. contains f x ≡ true) same pc),
        ))

  is_covered_lem :
      (other f : Frontier)
      → All (λ v. v < hi) f
      → IsSorted f
      → (b : Bool) × (is_covered g other f ≡ done b)
        × ((b ≡ true) → (w : ℕ) → contains other w ≡ true → AncOf (expand g.entries) f w)
  unfolding is_covered
  is_covered_lem [] f h s = (false, refl, λ t. absurd (ground (arith, t)))
  is_covered_lem (o ∷ p ∷ os) f h s = (false, refl, λ t. absurd (ground (arith, t)))
  is_covered_lem (o ∷ []) f h s =
      let (b, e, answer) = frontier_contains_version_lem g hi f o dag s h in
      (
        b,
        e,
        λ t w c.
            subst (λ x. AncOf (expand g.entries) f x) ((==_iff o w).0 (ground (arith, c)))
              (answer.0 t),
      )

  -- In a well-formed graph whose versions are below half the greatest `usize`, `merge_union` of a
  -- frontier with known versions returns the frontier of those of both that are in the history of no
  -- other, which has the history of both.
  pub merge_union_lem :
      hi ≤ usize_max / 2
      → (f other : Frontier) → All (λ v. v < hi) f
      → All (λ v. v < hi) other
      → IsSorted f
      → IsMinimal (expand g.entries) f
      → (r : Frontier) × (merge_union other g f ≡ done r)
        × IsDominators (expand g.entries) (f ++ other) r
  unfolding merge_union
  merge_union_lem fits f [] hf ho s m =
      (f, refl, covered-IsDominators f [] hf ho s m (λ w c. absurd (ground (arith, c))))
  merge_union_lem fits f (o ∷ os) hf ho s m = elim (Bool-cases (slice_eq (o ∷ os) f)) [
    | inl t ↦
        let same = eq_of_slice_eq (o ∷ os) f t in
        (
          f,
          rw t refl,
          covered-IsDominators f (o ∷ os) hf ho s m
              (λ w c. (w, subst (λ vs. contains vs w ≡ true) same c, self)),
        )
    | inr t ↦
        let (b, e, covered) = is_covered_lem (o ∷ os) f hf s in
        elim (Bool-cases b) [
          | inl u ↦
              (f, rw (t, e) (rw u refl), covered-IsDominators f (o ∷ os) hf ho s m (covered u))
          | inr u ↦
              let (r, eq, k) = version_union_lem g hi dag fits f (o ∷ os) hf ho in
              (r, rw (t, e) (rw u eq), k)
        ]
  ]
