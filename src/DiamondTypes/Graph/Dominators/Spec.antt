-- ===== src/DiamondTypes/Graph/Dominators/Spec.antt =====
-- What a call of the dominator functions of tools/diamond-types/src/causalgraph/graph/tools.rs is to return.
use egwalker_paper.Base.{
  ℕ, zero, suc, ◌+◌, ◌≤◌, ◌<◌, ◌≡◌, sym, subst, ◌⊎◌, ◌↔◌, ◌==◌, ==_iff, inl, inr, true, List, [],
  ◌∷◌, reverse, contains, contains_self, All, arith, Bool-cases,
}
use mathlib.Core.List.{reverse_aux}
use egwalker_paper.OtBench.Graph.{GraphEntryInternal as Version}
use egwalker_paper.OtBench.Graph.Ancestors.{Anc, self, AncOf, Anc-le, All-contains}
use egwalker_paper.OtBench.Frontier.Advance.{IsSorted}
use egwalker_paper.DiamondTypes.Graph.{Graph}
use egwalker_paper.DiamondTypes.Graph.Expand.{expand}
use egwalker_paper.DiamondTypes.Graph.Runs.{IsDag, Anc-trans, dag-IsCausal}
use egwalker_paper.DiamondTypes.Graph.Tools.Compare.{one_contains}
use egwalker_paper.DiamondTypes.Frontier.Uncovered.{IsMinimal}
use egwalker_paper.DiamondTypes.Graph.Dominators.Steps.{IsFalling}

-- One of the versions, which is in the history of no other of them.
abbrev pub IsDominator : List Version → List ℕ → ℕ → Type 0
IsDominator full vs y =
    (contains vs y ≡ true) × ((w : ℕ) → contains vs w ≡ true → Anc full w y → w ≡ y)

-- The result is a frontier: the dominators in ascending order, with the history of all the versions.
pub record IsDominators (full : List Version) (vs r : List ℕ) : Type 0 where
  pub members : (y : ℕ) → (contains r y ≡ true) ↔ IsDominator full vs y
  pub sorted : IsSorted r
  pub minimal : IsMinimal full r
  pub covers : (x : ℕ) → AncOf full r x ↔ AncOf full vs x

contains-reverse_aux :
    (xs acc : List ℕ) (y : ℕ)
    → (contains (reverse_aux xs acc) y ≡ true) ↔ ((contains xs y ≡ true) ⊎ (contains acc y ≡ true))
contains-reverse_aux [] acc y =
    (λ h. inr h, elim [ inl h ↦ absurd (ground (arith, h)) | inr h ↦ h ])
contains-reverse_aux (x ∷ xs) acc y =
    let (to, from) = contains-reverse_aux xs (x ∷ acc) y in
    (
      λ h. elim (to h) [
        | inl a ↦ inl (ground (arith, a))
        | inr a ↦ elim (Bool-cases (x == y)) [
          | inl e ↦ inl (ground (arith, e))
          | inr e ↦ inr (rw e at a)
        ]
      ],
      elim [
        | inl a ↦ elim (Bool-cases (x == y)) [
          | inl e ↦ from (inr (ground (arith, e)))
          | inr e ↦ from (inl (rw e at a))
        ]
        | inr a ↦ from (inr (ground (arith, a)))
      ],
    )

pub contains-reverse :
    (xs : List ℕ) (y : ℕ) → (contains (reverse xs) y ≡ true) ↔ (contains xs y ≡ true)
contains-reverse xs y =
    let (to, from) = contains-reverse_aux xs [] y in
    (λ h. elim (to h) [ inl a ↦ a | inr a ↦ absurd (ground (arith, a)) ], λ h. from (inl h))

heads_below :
    (x : ℕ) (xs acc : List ℕ) → All (λ a. All (λ z. z < a) (x ∷ xs)) acc → All (λ a. x < a) acc
heads_below x xs [] h = tt
heads_below x xs (a ∷ acc) h = (h.0.0, heads_below x xs acc h.1)

tails_below :
    (x : ℕ) (xs acc : List ℕ)
    → All (λ a. All (λ z. z < a) (x ∷ xs)) acc
    → All (λ a. All (λ z. z < a) xs) acc
tails_below x xs [] h = tt
tails_below x xs (a ∷ acc) h = (h.0.1, tails_below x xs acc h.1)

reverse_aux-IsSorted :
    (xs acc : List ℕ)
    → IsFalling xs
    → IsSorted acc
    → All (λ a. All (λ z. z < a) xs) acc
    → IsSorted (reverse_aux xs acc)
reverse_aux-IsSorted [] acc f s b = s
reverse_aux-IsSorted (x ∷ xs) acc f s b =
    reverse_aux-IsSorted xs (x ∷ acc) f.1 (heads_below x xs acc b, s) (f.0, tails_below x xs acc b)

pub reverse-IsSorted : (xs : List ℕ) → IsFalling xs → IsSorted (reverse xs)
reverse-IsSorted xs f = reverse_aux-IsSorted xs [] f tt tt

module _ (g : Graph) (hi : ℕ) (dag : IsDag g.entries hi) where
  abbrev full : List Version
  full = expand g.entries

  -- Whether one of some versions is above a version.
  above_cases :
      (vs : List ℕ) (w : ℕ)
      → All (λ v. v < hi) vs
      → ((u : ℕ) × (contains vs u ≡ true) × Anc full u w × (w < u))
        ⊎ ((u : ℕ) → contains vs u ≡ true → Anc full u w → u ≡ w)
  above_cases [] w h = inr (λ u c. absurd (ground (arith, c)))
  above_cases (v ∷ vs) w h =
      let (r, _, answer) = one_contains g hi dag v w h.0 in
      elim (above_cases vs w h.1) [
        | inl (u, c, a, l) ↦ inl (u, ground (arith, c), a, l)
        | inr rest ↦ elim (Bool-cases (v == w)) [
          | inl same ↦ inr (λ u c a. elim (Bool-cases (v == u)) [
            | inl e ↦ ground (arith, e, same)
            | inr e ↦ rest u (rw e at c) a
          ])
          | inr apart ↦ elim (Bool-cases r) [
            | inl t ↦
                let a = answer.0 t in
                inl (
                  v,
                  contains_self v vs,
                  a,
                  ground (arith, apart, Anc-le full (dag-IsCausal g.entries hi dag) a),
                )
            | inr t ↦ inr (λ u c a. elim (Bool-cases (v == u)) [
              | inl e ↦ absurd (
                  ground
                    (arith, t, answer.1 (subst (λ x. Anc full x w) (sym ((==_iff v u).0 e)) a)))
              | inr e ↦ rest u (rw e at c) a
            ])
          ]
        ]
      ]

  -- Every version is in the history of a dominator.
  dominated_by :
      (k : ℕ) (vs : List ℕ) (w : ℕ)
      → All (λ v. v < hi) vs
      → contains vs w ≡ true
      → hi ≤ w + k
      → (d : ℕ) × IsDominator full vs d × Anc full d w
  dominated_by zero vs w h c l = absurd (omega (arith, All-contains (λ v. v < hi) vs w h c))
  dominated_by (suc k) vs w h c l = elim (above_cases vs w h) [
    | inr top ↦ (w, (c, top), self)
    | inl (u, cu, a, lu) ↦
        let (d, dom, b) = dominated_by k vs u h cu (omega arith) in (d, dom, Anc-trans b a)
  ]

  -- A sorted list of the dominators.
  pub members-IsDominators :
      (vs r : List ℕ)
      → All (λ v. v < hi) vs
      → IsSorted r
      → ((y : ℕ) → (contains r y ≡ true) ↔ IsDominator full vs y)
      → IsDominators full vs r
  members-IsDominators vs r h s m = record {
    members = m;
    sorted = s;
    minimal = λ p q c d a. ((m q).0 d).1 p ((m p).0 c).0 a;
    covers = λ x. (
      λ (p, c, a). (p, ((m p).0 c).0, a),
      λ (p, c, a).
          (let (d, dom, b) = dominated_by hi vs p h c (omega arith) in
            (d, (m d).1 dom, Anc-trans b a)),
    );
  }

  -- A frontier is its own dominators.
  pub frontier-IsDominators :
      (vs : List ℕ)
      → All (λ v. v < hi) vs
      → IsSorted vs
      → IsMinimal full vs
      → IsDominators full vs vs
  frontier-IsDominators vs h s m =
      members-IsDominators vs vs h s (λ y. (λ c. (c, λ w d a. m w y d c a), λ (c, _). c))
