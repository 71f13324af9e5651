-- ===== src/DiamondTypes/Graph/Tools/Compare.antt =====
-- The comparisons of versions of tools/diamond-types/src/causalgraph/graph/tools.rs:
-- `frontier_contains_frontier`, `version_cmp`, `frontier_cmp` and those that need one entry only.
use egwalker_paper.Base.{
  ℕ, ◌<◌, ◌≡◌, refl, subst, ◌⊎◌, ◌↔◌, inl, inr, Bool, true, false, List, [], ◌∷◌, Option, none,
  some, ◌==◌, ==_iff, arith, Bool-cases, All, contains, slice_eq, eq_of_slice_eq, compare, Ordering,
  length,
}
use egwalker_paper.Base.Panic.{done}
use egwalker_paper.OtBench.Frontier.Advance.{IsSorted}
use egwalker_paper.OtBench.Graph.Ancestors.{Anc, self, AncOf, Anc-le, ancof_cons}
use egwalker_paper.DiamondTypes.Graph.{Graph}
use egwalker_paper.DiamondTypes.Graph.Expand.{expand}
use egwalker_paper.DiamondTypes.Graph.Runs.{IsDag, dag-IsCausal, AncOf_one}
use egwalker_paper.DiamondTypes.Graph.Tools.{
  frontier_contains_version, contains_all, frontier_contains_frontier, version_cmp, frontier_cmp,
}
use egwalker_paper.DiamondTypes.Graph.Tools.Contains.{frontier_contains_version_lem}

compare-cases :
    (v w : ℕ)
    → ((compare v w ≡ Ordering.eq) × (v ≡ w))
      ⊎ (((compare v w ≡ Ordering.lt) × (v < w)) ⊎ ((compare v w ≡ Ordering.gt) × (w < v)))
compare-cases v w = ground arith

slice_eq_iff : (a b : List ℕ) → (slice_eq a b ≡ true) ↔ (a ≡ b)
slice_eq_iff a b = (eq_of_slice_eq a b, λ e. subst (λ c. slice_eq a c ≡ true) e (slice_eq_refl a))
  where
    slice_eq_refl : (c : List ℕ) → slice_eq c c ≡ true
    slice_eq_refl [] = refl
    slice_eq_refl (x ∷ c) = rw ((==_iff x x).1 refl, slice_eq_refl c) refl

pub All-self : (P : ℕ → Type 0) (b : List ℕ) → ((x : ℕ) → contains b x ≡ true → P x) → All P b
All-self P [] h = tt
All-self P (x ∷ b) h =
    (h x (rw ((==_iff x x).1 refl) refl), All-self P b (λ y c. h y (ground (arith, c))))

module _ (g : Graph) (hi : ℕ) (dag : IsDag g.entries hi) where
  abbrev pub Holds : List ℕ → ℕ → Type 0
  Holds vs x = AncOf (expand g.entries) vs x

  contains_all_lem :
      (a b : List ℕ)
      → IsSorted a
      → All (λ v. v < hi) a
      → (r : Bool) × (contains_all g a b ≡ done r) × ((r ≡ true) ↔ All (Holds a) b)
  unfolding contains_all
  contains_all_lem a [] s h = (true, refl, (λ t. tt, λ t. refl))
  contains_all_lem a (x ∷ b) s h =
      let (d, f, answer) = frontier_contains_version_lem g hi a x dag s h in
      let (r, e, rest) = contains_all_lem a b s h in
      elim (Bool-cases d) [
        | inl t ↦ (r, rw (f, t) e, (λ u. (answer.0 t, rest.0 u), λ (k, l). rest.1 l))
        | inr t ↦ (
          false,
          rw (f, t) refl,
          (λ u. absurd (ground (arith, u)), λ (k, l). absurd (ground (arith, t, answer.1 k))),
        )
      ]

  -- In a well-formed graph, with the versions of `a` in order, `frontier_contains_frontier` returns
  -- whether every version of `b` is in the history of `a`.
  pub frontier_contains_frontier_lem :
      (a b : List ℕ)
      → IsSorted a
      → All (λ v. v < hi) a
      → (r : Bool) × (frontier_contains_frontier g a b ≡ done r) × ((r ≡ true) ↔ All (Holds a) b)
  unfolding frontier_contains_frontier
  frontier_contains_frontier_lem a b s h = elim (Bool-cases (slice_eq a b)) [
    | inl e ↦
        let same = eq_of_slice_eq a b e in
        (true, rw e refl, (λ t. All-self (Holds a) b (λ x c. (x, rw same c, self)), λ t. refl))
    | inr e ↦ let (r, f, answer) = contains_all_lem a b s h in (r, rw e f, answer)
  ]

  -- What the result of `version_cmp` says of the versions' histories.
  abbrev pub Ordered : ℕ → ℕ → Option Ordering → Type 0
  Ordered v w none = (¬ Anc (expand g.entries) v w) × (¬ Anc (expand g.entries) w v)
  Ordered v w (some Ordering.lt) = (v < w) × Anc (expand g.entries) w v
  Ordered v w (some Ordering.eq) = v ≡ w
  Ordered v w (some Ordering.gt) = (w < v) × Anc (expand g.entries) v w

  -- A version alone contains another if it has it in its history.
  pub one_contains :
      (v x : ℕ)
      → v < hi
      → (r : Bool) × (frontier_contains_version g (v ∷ []) x ≡ done r)
        × ((r ≡ true) ↔ Anc (expand g.entries) v x)
  one_contains v x h =
      let (r, e, answer) = frontier_contains_version_lem g hi (v ∷ []) x dag (tt, tt) (h, tt) in
      (
        r,
        e,
        (
          λ t. AncOf_one (expand g.entries) v x (answer.0 t),
          λ a. answer.1 ((ancof_cons (expand g.entries) v [] x).1 (inl a)),
        ),
      )

  not_Anc : (v w : ℕ) → v < w → ¬ Anc (expand g.entries) v w
  not_Anc v w l a = omega (arith, l, Anc-le (expand g.entries) (dag-IsCausal g.entries hi dag) a)

  -- In a well-formed graph, `version_cmp` of two versions returns how their histories relate: `none`
  -- if neither is in the history of the other.
  pub version_cmp_lem :
      (v w : ℕ)
      → v < hi
      → w < hi
      → (o : Option Ordering) × (version_cmp g v w ≡ done o) × Ordered v w o
  unfolding version_cmp
  version_cmp_lem v w h k = elim (compare-cases v w) [
    | inl (c, e) ↦ (some Ordering.eq, rw (c, version_cmp) refl, e)
    | inr (inl (c, l)) ↦
        let (r, f, answer) = one_contains w v k in
        elim (Bool-cases r) [
          | inl t ↦ (some Ordering.lt, rw (c, version_cmp, f, t) refl, (l, answer.0 t))
          | inr t ↦ (
            none,
            rw (c, version_cmp, f, t) refl,
            (not_Anc v w l, λ a. absurd (ground (arith, t, answer.1 a))),
          )
        ]
    | inr (inr (c, l)) ↦
        let (r, f, answer) = one_contains v w h in
        elim (Bool-cases r) [
          | inl t ↦ (some Ordering.gt, rw (c, version_cmp, f, t) refl, (l, answer.0 t))
          | inr t ↦ (
            none,
            rw (c, version_cmp, f, t) refl,
            (λ a. absurd (ground (arith, t, answer.1 a)), not_Anc w v l),
          )
        ]
  ]

  -- What the result of `frontier_cmp` says: an empty first frontier is less at once.
  abbrev pub FrontierOrdered : List ℕ → List ℕ → Option Ordering → Type 0
  FrontierOrdered a b none = (¬ All (Holds a) b) × (¬ All (Holds b) a)
  FrontierOrdered a b (some Ordering.lt) = (¬ All (Holds a) b) × All (Holds b) a
  FrontierOrdered a b (some Ordering.eq) = a ≡ b
  FrontierOrdered a b (some Ordering.gt) = (¬ (a ≡ b)) × All (Holds a) b

  root_first : (b : List ℕ) → slice_eq [] b ≡ false → ¬ All (Holds []) b
  root_first [] h a = absurd (ground (arith, h))
  root_first (x ∷ b) h a = let (p, c, d) = a.0 in ground (arith, c)

  unequal : (a b : List ℕ) → slice_eq a b ≡ false → ¬ (a ≡ b)
  unequal a b e same = ground (arith, e, (slice_eq_iff a b).1 same)

  frontier_cmp_rest :
      (a b : List ℕ)
      → IsSorted a
      → IsSorted b
      → All (λ v. v < hi) a
      → All (λ v. v < hi) b
      → slice_eq a b ≡ false
      → (o : Option Ordering) × (frontier_cmp g a b ≡ done o) × FrontierOrdered a b o
  unfolding frontier_cmp
  frontier_cmp_rest [] b s t h k e = (some Ordering.lt, rw e refl, (root_first b e, tt))
  frontier_cmp_rest (x ∷ a) b s t h k e =
      let (r, f, above) = frontier_contains_frontier_lem (x ∷ a) b s h in
      let (d, f', below) = frontier_contains_frontier_lem b (x ∷ a) t k in
      let many : (length (x ∷ a) == 0) ≡ false = ground arith in
      elim (Bool-cases r) [
        | inl u ↦ (some Ordering.gt, rw (e, many, f, u) refl, (unequal (x ∷ a) b e, above.0 u))
        | inr u ↦ elim (Bool-cases d) [
          | inl v ↦ (
            some Ordering.lt,
            rw (e, many, f, u, f', v) refl,
            (λ y. ground (arith, u, above.1 y), below.0 v),
          )
          | inr v ↦ (
            none,
            rw (e, many, f, u, f', v) refl,
            (λ y. ground (arith, u, above.1 y), λ y. ground (arith, v, below.1 y)),
          )
        ]
      ]

  -- In a well-formed graph, `frontier_cmp` of two frontiers in order returns how their histories
  -- relate.
  pub frontier_cmp_lem :
      (a b : List ℕ)
      → IsSorted a
      → IsSorted b
      → All (λ v. v < hi) a
      → All (λ v. v < hi) b
      → (o : Option Ordering) × (frontier_cmp g a b ≡ done o) × FrontierOrdered a b o
  unfolding frontier_cmp
  frontier_cmp_lem a b s t h k = elim (Bool-cases (slice_eq a b)) [
    | inl e ↦ (some Ordering.eq, rw e refl, eq_of_slice_eq a b e)
    | inr e ↦ frontier_cmp_rest a b s t h k e
  ]
