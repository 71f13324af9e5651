-- ===== src/DiamondTypes/Graph/Dominators/Two.antt =====
-- `find_dominators_2` of tools/diamond-types/src/causalgraph/graph/tools.rs, of two frontiers.
use egwalker_paper.Base.{
  contains-append, All-append, ℕ, ◌/◌, ◌≤◌, ◌<◌, ◌≡◌, refl, sym, subst, ◌∙◌, ◌⊎◌, ◌==◌, ==_iff, inl,
  inr, true, List, [], ◌∷◌, ◌++◌, Option, none, some, Ordering, ltb, min, contains, contains_self,
  reverse, append-nil, All, arith, Bool-cases, iff_trans,
}
use egwalker_paper.Base.Panic.{done}
use egwalker_paper.OtBench.Frontier.{Frontier}
use egwalker_paper.OtBench.Frontier.Advance.{IsSorted}
use egwalker_paper.OtBench.Graph.Ancestors.{Anc, self, Anc-le, All-contains}
use egwalker_paper.DiamondTypes.RleVec.{usize_max}
use egwalker_paper.DiamondTypes.Graph.{Graph}
use egwalker_paper.DiamondTypes.Graph.Expand.{expand}
use egwalker_paper.DiamondTypes.Graph.Runs.{IsDag, dag-IsCausal}
use egwalker_paper.DiamondTypes.Graph.Tools.Compare.{Ordered, version_cmp_lem}
use egwalker_paper.DiamondTypes.Graph.Tools.{version_cmp}
use egwalker_paper.DiamondTypes.Frontier.Uncovered.{IsMinimal}
use egwalker_paper.DiamondTypes.Graph.Dominators.{
  push_dominators, dominators_of_two, dominators_of_many, find_dominators_2,
}
use egwalker_paper.DiamondTypes.Graph.Dominators.Spec.{
  IsDominator, IsDominators, members-IsDominators, frontier-IsDominators,
}
use egwalker_paper.DiamondTypes.Graph.Dominators.Full.{full_internal_lem}
use egwalker_paper.DiamondTypes.Graph.Dominators.Result.{in_range, visited-IsDominators}

contains_two : (a b y : ℕ) → contains (a ∷ b ∷ []) y ≡ true → (a ≡ y) ⊎ (b ≡ y)
contains_two a b y h = elim (Bool-cases (a == y)) [
  | inl e ↦ inl ((==_iff a y).0 e)
  | inr e ↦ inr ((==_iff b y).0 (ground (arith, h, e)))
]

contains-swap : (a b y : ℕ) → contains (a ∷ b ∷ []) y ≡ contains (b ∷ a ∷ []) y
contains-swap a b y = ground arith

-- The first version of a sorted list is its least.
first_least : (v : ℕ) (vs : List ℕ) (y : ℕ) → IsSorted (v ∷ vs) → contains (v ∷ vs) y ≡ true → v ≤ y
first_least v vs y s h = elim (Bool-cases (v == y)) [
  | inl e ↦ ground (arith, e)
  | inr e ↦ omega (arith, All-contains (λ z. v < z) vs y s.0 (rw e at h))
]

module _ (g : Graph) (hi : ℕ) (dag : IsDag g.entries hi) where
  -- A version that has all the others in its history.
  pub over-IsDominators :
      (vs : List ℕ) (b : ℕ)
      → All (λ v. v < hi) vs
      → contains vs b ≡ true
      → ((w : ℕ) → contains vs w ≡ true → Anc (expand g.entries) b w)
      → IsDominators (expand g.entries) vs (b ∷ [])
  over-IsDominators vs b h c over =
      members-IsDominators g hi dag vs (b ∷ []) h (tt, tt)
        (λ y. (
          λ k.
              (let same : b ≡ y = (==_iff b y).0 (ground (arith, k)) in
                subst (IsDominator (expand g.entries) vs) same (
                  c,
                  λ w d a. omega (
                    arith,
                    Anc-le (expand g.entries) (dag-IsCausal g.entries hi dag) a,
                    Anc-le (expand g.entries) (dag-IsCausal g.entries hi dag) (over w d),
                  ),
                )),
          λ (k, top). ground (arith, (==_iff b y).1 (top b c (over y k))),
        ))

  pub same_versions :
      (vs ws r : List ℕ)
      → ((y : ℕ) → contains vs y ≡ contains ws y)
      → All (λ v. v < hi) ws
      → IsDominators (expand g.entries) vs r
      → IsDominators (expand g.entries) ws r
  same_versions vs ws r e h d = members-IsDominators g hi dag ws r h d.sorted (λ y.
      iff_trans (d.members y) (
        λ (c, top). (sym (e y) ∙ c, λ w k a. top w (e w ∙ k) a),
        λ (c, top). (e y ∙ c, λ w k a. top w (sym (e w) ∙ k) a),
      ))

  apart-IsMinimal :
      (a b : ℕ)
      → ¬ Anc (expand g.entries) a b
      → ¬ Anc (expand g.entries) b a
      → IsMinimal (expand g.entries) (a ∷ b ∷ [])
  apart-IsMinimal a b n m p q c d k = elim (contains_two a b p c) [
    | inl e ↦ elim (contains_two a b q d) [
      | inl f ↦ sym e ∙ f
      | inr f ↦ absurd (
          n (
            subst (λ x. Anc (expand g.entries) a x) (sym f)
              (subst (λ x. Anc (expand g.entries) x q) (sym e) k)))
    ]
    | inr e ↦ elim (contains_two a b q d) [
      | inr f ↦ sym e ∙ f
      | inl f ↦ absurd (
          m (
            subst (λ x. Anc (expand g.entries) b x) (sym f)
              (subst (λ x. Anc (expand g.entries) x q) (sym e) k)))
    ]
  ]

  -- Of two versions, the one with the other in its history.
  two-IsDominators :
      (a b : ℕ)
      → a < hi
      → b < hi
      → Anc (expand g.entries) b a
      → IsDominators (expand g.entries) (a ∷ b ∷ []) (b ∷ [])
  two-IsDominators a b ha hb k =
      over-IsDominators (a ∷ b ∷ []) b (ha, (hb, tt)) (ground (arith, contains_self b []))
        (λ w c. elim (contains_two a b w c) [
          | inl e ↦ subst (λ x. Anc (expand g.entries) b x) e k
          | inr e ↦ subst (λ x. Anc (expand g.entries) b x) e self
        ])

  apart-IsDominators :
      (a b : ℕ)
      → a < hi
      → b < hi
      → a < b
      → ¬ Anc (expand g.entries) a b
      → ¬ Anc (expand g.entries) b a
      → IsDominators (expand g.entries) (a ∷ b ∷ []) (a ∷ b ∷ [])
  apart-IsDominators a b ha hb l n m =
      frontier-IsDominators g hi dag (a ∷ b ∷ []) (ha, (hb, tt)) ((l, tt), (tt, tt))
        (apart-IsMinimal a b n m)

  abbrev OfTwo : ℕ → ℕ → Type 0
  OfTwo a b =
      (r : Frontier) × (dominators_of_two g a b ≡ done r)
      × IsDominators (expand g.entries) (a ∷ b ∷ []) r

  OfTwo-cases :
      (a b : ℕ)
      → a < hi
      → b < hi
      → (o : Option Ordering) → version_cmp g a b ≡ done o
      → Ordered g hi dag a b o
      → OfTwo a b
  unfolding dominators_of_two
  OfTwo-cases a b ha hb (some Ordering.lt) e o = (b ∷ [], rw e refl, two-IsDominators a b ha hb o.1)
  OfTwo-cases a b ha hb (some Ordering.eq) e o = (
    b ∷ [],
    rw e refl,
    two-IsDominators a b ha hb (subst (λ x. Anc (expand g.entries) b x) (sym o) self),
  )
  OfTwo-cases a b ha hb (some Ordering.gt) e o = (
    a ∷ [],
    rw e refl,
    same_versions (b ∷ a ∷ []) (a ∷ b ∷ []) (a ∷ []) (contains-swap b a) (ha, (hb, tt))
        (two-IsDominators b a hb ha o.1),
  )
  OfTwo-cases a b ha hb none e o = elim (Bool-cases (ltb a b)) [
    | inl t ↦
        (a ∷ b ∷ [], rw e (rw t refl), apart-IsDominators a b ha hb (ground (arith, t)) o.0 o.1)
    | inr t ↦
        let l : b < a = elim (Bool-cases (a == b)) [
          | inl d ↦ absurd (o.0 (subst (λ x. Anc (expand g.entries) a x) ((==_iff a b).0 d) self))
          | inr d ↦ ground (arith, t, d)
        ] in
        (
          b ∷ a ∷ [],
          rw e (rw t refl),
          same_versions (b ∷ a ∷ []) (a ∷ b ∷ []) (b ∷ a ∷ []) (contains-swap b a) (ha, (hb, tt))
              (apart-IsDominators b a hb ha l o.1 o.0),
        )
  ]

  of_two_lem : (a b : ℕ) → a < hi → b < hi → OfTwo a b
  of_two_lem a b ha hb =
      let (o, e, k) = version_cmp_lem g hi dag a b ha hb in OfTwo-cases a b ha hb o e k

  module _ (fits : hi ≤ usize_max / 2) where
    of_many_lem :
        (a b : ℕ) (v_1 v_2 : List ℕ)
        → All (λ v. v < hi) (a ∷ v_1)
        → All (λ v. v < hi) (b ∷ v_2)
        → IsSorted (a ∷ v_1)
        → IsSorted (b ∷ v_2)
        → (r : Frontier) × (dominators_of_many g (a ∷ v_1) (b ∷ v_2) ≡ done r)
          × IsDominators (expand g.entries) ((a ∷ v_1) ++ (b ∷ v_2)) r
    unfolding dominators_of_many
    of_many_lem a b v_1 v_2 h k s t =
        let vs = (a ∷ v_1) ++ (b ∷ v_2) in
        let both : All (λ v. v < hi) vs = All-append (λ v. v < hi) (a ∷ v_1) (b ∷ v_2) h k in
        let least : (y : ℕ) → contains vs y ≡ true → min a b ≤ y = λ y c.
          elim (contains-append (a ∷ v_1) (b ∷ v_2) y c) [
            | inl d ↦ omega (arith, first_least a v_1 y s d)
            | inr d ↦ omega (arith, first_least b v_2 y t d)
          ] in
        let (visits, e, v) =
          full_internal_lem g.entries hi dag vs (min a b) both (in_range g hi dag fits vs both)
            (inr least) in
        (
          reverse (push_dominators visits),
          rw e refl,
          visited-IsDominators g hi dag fits vs (push_dominators visits) both v,
        )

    -- In a well-formed graph whose versions are below half the greatest `usize`, `find_dominators_2` of
    -- two frontiers returns the frontier of their versions that are in the history of no other, which
    -- has the history of both.
    pub find_dominators_2_lem :
        (v_1 v_2 : List ℕ)
        → All (λ v. v < hi) v_1
        → All (λ v. v < hi) v_2
        → IsSorted v_1
        → IsSorted v_2
        → IsMinimal (expand g.entries) v_1
        → IsMinimal (expand g.entries) v_2
        → (r : Frontier) × (find_dominators_2 g v_1 v_2 ≡ done r)
          × IsDominators (expand g.entries) (v_1 ++ v_2) r
    unfolding find_dominators_2
    find_dominators_2_lem [] v_2 h k s t m n = (v_2, refl, frontier-IsDominators g hi dag v_2 k t n)
    find_dominators_2_lem (a ∷ v_1) [] h k s t m n =
        (a ∷ v_1, refl, rw (append-nil (a ∷ v_1)) (frontier-IsDominators g hi dag (a ∷ v_1) h s m))
    find_dominators_2_lem (a ∷ []) (b ∷ []) h k s t m n = of_two_lem a b h.0 k.0
    find_dominators_2_lem (a ∷ []) (b ∷ b' ∷ v_2) h k s t m n =
        of_many_lem a b [] (b' ∷ v_2) h k s t
    find_dominators_2_lem (a ∷ a' ∷ v_1) (b ∷ v_2) h k s t m n =
        of_many_lem a b (a' ∷ v_1) v_2 h k s t
