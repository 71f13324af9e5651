-- ===== src/DiamondTypes/Graph/Dominators/Result.antt =====
-- The results of `find_dominators`, `find_dominators_2` and `version_union` of
-- tools/diamond-types/src/causalgraph/graph/tools.rs.
use egwalker_paper.Base.{
  All-append, ℕ, ◌/◌, ◌≤◌, ◌<◌, ◌≡◌, refl, subst, ==_iff, inl, inr, true, List, [], ◌∷◌, ◌++◌, some,
  ltb, leb, min, max, contains, contains_self, reverse, All, arith, Bool-cases, iff_trans,
  get_elem?,
}
use egwalker_paper.Base.Panic.{done}
use egwalker_paper.OtBench.Frontier.{Frontier}
use egwalker_paper.OtBench.Graph.Ancestors.{Anc-le, All-contains}
use egwalker_paper.OtBench.Graph.Scan.{All-imp}
use egwalker_paper.DiamondTypes.RleVec.{usize_max}
use egwalker_paper.DiamondTypes.Graph.{GraphEntryInternal, Graph}
use egwalker_paper.DiamondTypes.Graph.Expand.{expand}
use egwalker_paper.DiamondTypes.Graph.Runs.{IsDag, Has, entry_at, shadow_Anc, dag-IsCausal}
use egwalker_paper.DiamondTypes.Graph.Dominators.{
  min_of, max_of, push_dominators, find_dominators_wide_rev, find_dominators, find_dominators_full,
  version_union,
}
use egwalker_paper.DiamondTypes.Graph.Dominators.Spec.{
  IsDominator, IsDominators, contains-reverse, reverse-IsSorted, members-IsDominators,
}
use egwalker_paper.DiamondTypes.Graph.Dominators.Full.{IsVisited, one-IsVisited, full_internal_lem}

min_of_le : (m : ℕ) (vs : List ℕ) → min_of m vs ≤ m
min_of_le m [] = omega arith
min_of_le m (v ∷ vs) = omega (arith, min_of_le (min m v) vs)

min_of_lem : (m : ℕ) (vs : List ℕ) (y : ℕ) → contains (m ∷ vs) y ≡ true → min_of m vs ≤ y
min_of_lem m [] y h = ground (arith, h)
min_of_lem m (v ∷ vs) y h = ground (arith, h, min_of_le (min m v) vs, min_of_lem (min m v) vs y)

max_of_le : (m : ℕ) (vs : List ℕ) → m ≤ max_of m vs
max_of_le m [] = omega arith
max_of_le m (v ∷ vs) = omega (arith, max_of_le (max m v) vs)

max_of_lem : (m : ℕ) (vs : List ℕ) (y : ℕ) → contains (m ∷ vs) y ≡ true → y ≤ max_of m vs
max_of_lem m [] y h = ground (arith, h)
max_of_lem m (v ∷ vs) y h = ground (arith, h, max_of_le (max m v) vs, max_of_lem (max m v) vs y)

max_of-contains : (m : ℕ) (vs : List ℕ) → contains (m ∷ vs) (max_of m vs) ≡ true
max_of-contains m [] = contains_self m []
max_of-contains m (v ∷ vs) = elim (Bool-cases (ltb m v)) [
  | inl t ↦ let e : max m v ≡ v = ground (arith, t) in rw e (ground (arith, max_of-contains v vs))
  | inr t ↦ let e : max m v ≡ m = ground (arith, t) in rw e (ground (arith, max_of-contains m vs))
]

module _ (g : Graph) (hi : ℕ) (dag : IsDag g.entries hi) (fits : hi ≤ usize_max / 2) where
  pub in_range : (vs : List ℕ) → All (λ v. v < hi) vs → All (λ v. v < usize_max / 2) vs
  in_range vs h = All-imp (λ v. v < hi) (λ v. v < usize_max / 2) vs (λ v l. omega (arith, fits)) h

  pub visited-IsDominators :
      (vs r : List ℕ)
      → All (λ v. v < hi) vs
      → IsVisited g.entries hi dag vs r
      → IsDominators (expand g.entries) vs (reverse r)
  visited-IsDominators vs r h k =
      members-IsDominators g hi dag vs (reverse r) h (reverse-IsSorted r k.falling)
        (λ y. iff_trans (contains-reverse r y) (k.members y))

  -- Everything is in the shadow of the greatest version.
  shadowed-IsVisited :
      (v : ℕ) (vs : List ℕ) (i : ℕ) (e : GraphEntryInternal)
      → get_elem? g.entries i ≡ some e
      → Has e (max_of v vs)
      → leb e.shadow (min_of v vs) ≡ true
      → IsVisited g.entries hi dag (v ∷ vs) (max_of v vs ∷ [])
  shadowed-IsVisited v vs i e at c t = record {
    members = λ y. (
      λ h.
          (let same : max_of v vs ≡ y = ground (arith, h, ==_iff (max_of v vs) y) in
            subst (IsDominator (expand g.entries) (v ∷ vs)) same (
              max_of-contains v vs,
              λ w d a. omega (
                arith,
                max_of_lem v vs w d,
                Anc-le (expand g.entries) (dag-IsCausal g.entries hi dag) a,
              ),
            )),
      λ (h, top).
          (let same = top (max_of v vs) (max_of-contains v vs) (
              shadow_Anc g.entries hi dag i e at (max_of v vs) y c
                (ground (arith, t, min_of_lem v vs y h)) (max_of_lem v vs y h)) in
            ground (arith, (==_iff (max_of v vs) y).1 same)),
    );
    falling = (tt, tt);
  }

  wide_rev_lem :
      (vs : List ℕ)
      → All (λ v. v < hi) vs
      → (r : List ℕ) × (find_dominators_wide_rev g vs ≡ done r) × IsVisited g.entries hi dag vs r
  unfolding find_dominators_wide_rev
  wide_rev_lem [] h = ([], refl, one-IsVisited g.entries hi dag [] refl)
  wide_rev_lem (v ∷ []) h = (v ∷ [], refl, one-IsVisited g.entries hi dag (v ∷ []) refl)
  wide_rev_lem (v ∷ w ∷ vs) h =
      let known =
        All-contains (λ v. v < hi) (v ∷ w ∷ vs) (max_of v (w ∷ vs)) h
          (max_of-contains v (w ∷ vs)) in
      let (i, e, f, at, c) = entry_at g.entries hi dag (max_of v (w ∷ vs)) known in
      elim (Bool-cases (leb e.shadow (min_of v (w ∷ vs)))) [
        | inl t ↦
            (max_of v (w ∷ vs) ∷ [], rw f (rw t refl), shadowed-IsVisited v (w ∷ vs) i e at c t)
        | inr t ↦
            let (visits, r, k) =
              full_internal_lem g.entries hi dag (v ∷ w ∷ vs) (min_of v (w ∷ vs)) h
                (in_range (v ∷ w ∷ vs) h) (inr (min_of_lem v (w ∷ vs))) in
            (push_dominators visits, rw f (rw t (rw r refl)), k)
      ]

  -- In a well-formed graph whose versions are below half the greatest `usize`, `find_dominators` of
  -- known versions, in any order, returns the frontier of those that are in the history of no other of
  -- them, which has the history of all of them.
  pub find_dominators_lem :
      (versions : List ℕ)
      → All (λ v. v < hi) versions
      → (r : Frontier) × (find_dominators g versions ≡ done r)
        × IsDominators (expand g.entries) versions r
  unfolding find_dominators
  find_dominators_lem versions h =
      let (r, e, k) = wide_rev_lem versions h in
      (reverse r, rw e refl, visited-IsDominators versions r h k)

  -- In a well-formed graph whose versions are below half the greatest `usize`, `version_union` of
  -- known versions, in any order, returns the frontier of those of either list that are in the
  -- history of no other, which has the history of both lists.
  pub version_union_lem :
      (a b : List ℕ)
      → All (λ v. v < hi) a
      → All (λ v. v < hi) b
      → (r : Frontier) × (version_union g a b ≡ done r) × IsDominators (expand g.entries) (a ++ b) r
  unfolding version_union find_dominators_full
  version_union_lem a b h k =
      let both = All-append (λ v. v < hi) a b h k in
      let (visits, e, v) =
        full_internal_lem g.entries hi dag (a ++ b) usize_max both (in_range (a ++ b) both)
          (inl ((==_iff usize_max usize_max).1 refl)) in
      (
        reverse (push_dominators visits),
        rw e refl,
        visited-IsDominators (a ++ b) (push_dominators visits) both v,
      )
