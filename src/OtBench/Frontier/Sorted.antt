-- ===== src/OtBench/Frontier/Sorted.antt =====
-- That the frontiers of tools/ot-bench/src/frontier.rs stay sorted.
use egwalker_paper.Base.{
  ℕ, ◌<◌, ◌≤◌, ◌≡◌, refl, ap, subst, ◌↔◌, true, false, ◌&&◌, List, [], ◌∷◌, arith, ◌==◌, All,
  contains, contains_self, slice_eq, Bool-cases, inl, inr, length, get_or, set,
}
use mathlib.Core.Bool.{false≢true}
use egwalker_paper.Base.Panic.{done}
use egwalker_paper.OtBench.Frontier.{
  Frontier, sorted_loop, is_sorted_slice, frontier_is_sorted, sort_frontier, from_unsorted,
  advance_by_known_run, replace_with_1,
}
use egwalker_paper.OtBench.Frontier.Advance.{IsSorted, advance_lem}
use egwalker_paper.OtBench.Graph.Ancestors.{All-contains}

loop_sorted :
    (x : ℕ) (xs : List ℕ) → All (λ y. x < y) xs → IsSorted xs → sorted_loop true x xs ≡ true
unfolding sorted_loop
loop_sorted x [] h s = refl
loop_sorted x (y ∷ ys) h s = ground (arith, h.0, loop_sorted y ys s.0 s.1)

-- A sorted list is a frontier as it is.
pub from_unsorted-sorted : (xs : List ℕ) → IsSorted xs → from_unsorted xs ≡ xs
unfolding from_unsorted sort_frontier frontier_is_sorted is_sorted_slice
from_unsorted-sorted [] s = refl
from_unsorted-sorted (x ∷ xs) s = rw (loop_sorted x xs s.0 s.1) refl

set-IsSorted : (f : Frontier) (idx : ℕ) → length f ≡ 1 → IsSorted (set f 0 idx)
set-IsSorted [] idx h = absurd (omega arith)
set-IsSorted (x ∷ []) idx h = (tt, tt)
set-IsSorted (x ∷ y ∷ f) idx h = absurd (omega arith)

single : (x : ℕ) → IsSorted (x ∷ [])
single x = (tt, tt)

-- Whatever `advance_by_known_run` returns for a sorted frontier is sorted.
pub advance-IsSorted :
    (idx : ℕ) (parents : List ℕ) (f r : Frontier)
    → IsSorted f
    → advance_by_known_run idx parents f ≡ done r
    → IsSorted r
unfolding advance_by_known_run replace_with_1
advance-IsSorted idx parents f r s h = elim (Bool-cases (contains f idx)) [
  | inr fresh ↦
      let (r', e, sorted, c) = advance_lem idx parents f s fresh in
      let same : r' ≡ r = cc in rw same at sorted
  | inl old ↦
      elim (Bool-cases
        ((length parents == 1 && length f == 1) && (get_or parents 0 0 == get_or f 0 0))) [
          | inl one ↦
              let e : set f 0 idx ≡ r = ground (arith, one, h) in
              subst (λ l. IsSorted l) e (set-IsSorted f idx (ground (arith, one)))
          | inr many ↦ elim (Bool-cases (slice_eq f parents)) [
            | inl same ↦
                let e : idx ∷ [] ≡ r = ground (arith, many, same, h) in
                subst (λ l. IsSorted l) e (single idx)
            | inr other ↦ absurd (ground (arith, many, other, old, h))
          ]
        ]
]

-- Sorted lists with the same members.
pub sorted_ext :
    (xs ys : List ℕ)
    → IsSorted xs
    → IsSorted ys
    → ((x : ℕ) → (contains xs x ≡ true) ↔ (contains ys x ≡ true))
    → xs ≡ ys
sorted_ext [] [] h k f = refl
sorted_ext [] (y ∷ ys) h k f = absurd (false≢true ((f y).1 (contains_self y ys)))
sorted_ext (x ∷ xs) [] h k f = absurd (false≢true ((f x).0 (contains_self x xs)))
sorted_ext (x ∷ xs) (y ∷ ys) h k f =
    let least : (u v : ℕ) (vs : List ℕ) → All (λ z. v < z) vs → contains (v ∷ vs) u ≡ true → v ≤ u =
      λ u v vs a c. elim (Bool-cases (v == u)) [
        | inl e ↦ ground (arith, e)
        | inr e ↦ ground (arith, All-contains (λ z. v < z) vs u a (rw e at c))
      ] in
    let same : x ≡ y = omega (
      arith,
      least x y ys k.0 ((f x).0 (contains_self x xs)),
      least y x xs h.0 ((f y).1 (contains_self y ys)),
    ) in
    let later : (u : ℕ) (v : ℕ) (vs : List ℕ)
        → All (λ z. v < z) vs
        → contains vs u ≡ true
        → (v == u) ≡ false =
      λ u v vs a c. ground (arith, All-contains (λ z. v < z) vs u a c) in
    let rest : xs ≡ ys = sorted_ext xs ys h.1 k.1 (λ u. (
      λ c.
          (let d = later u x xs h.0 c in
            ground (arith, d, same, (f u).0 (rw (d, c) refl), contains)),
      λ c.
          (let d = later u y ys k.0 c in
            ground (arith, d, same, (f u).1 (rw (d, c) refl), contains)),
    )) in
    rw same (ap (λ l. y ∷ l) rest)
