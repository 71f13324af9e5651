-- ===== src/DiamondTypes/Graph/Children.antt =====
-- The loop that wires up the children in `push` of tools/diamond-types/src/causalgraph/graph/mod.rs: the
-- child indexes that it adds.
use egwalker_paper.Base.{
  ℕ, zero, suc, ◌+◌, ◌≡◌, refl, ap, sym, subst, ◌∙◌, ◌⊎◌, inl, inr, Bool, true, false, ◌&&◌, ◌||◌,
  ◌==◌, leb, ltb, List, [], ◌∷◌, ◌++◌, some, contains, get_elem?, set, arith, Bool-cases,
}
use egwalker_paper.DiamondTypes.DtRange.{DtRange}
use egwalker_paper.DiamondTypes.Graph.{GraphEntryInternal}
use egwalker_paper.DiamondTypes.Graph.Expand.{span_size, IsRuns, elem-lo}
use egwalker_paper.DiamondTypes.Graph.Runs.{Has}

-- Whether one of the versions is in the range.
abbrev pub has_any : DtRange → List ℕ → Bool
has_any span [] = false
has_any span (p ∷ ps) = (leb span.start p && ltb p span.end) || has_any span ps

-- Each entry stays, and the one with a version of the list has `n` for a child besides those it had.
abbrev pub Gains : ℕ → List ℕ → List GraphEntryInternal → List GraphEntryInternal → Type 0
Gains n ps es es' =
    (i : ℕ) (e : GraphEntryInternal)
    → get_elem? es i ≡ some e
    → (e' : GraphEntryInternal) × (get_elem? es' i ≡ some e')
      × (e'.span ≡ e.span)
      × (e'.parents ≡ e.parents)
      × (e'.shadow ≡ e.shadow)
      × ((c : ℕ)
          → contains e'.child_indexes c
            ≡ (contains e.child_indexes c || ((n == c) && has_any e.span ps)))

-- A version is in one run only.
runs_unique :
    (lo hi : ℕ) (es : List GraphEntryInternal) (i j : ℕ) (e f : GraphEntryInternal) (p : ℕ)
    → IsRuns lo es hi
    → get_elem? es i ≡ some e
    → get_elem? es j ≡ some f
    → Has e p
    → Has f p
    → i ≡ j
runs_unique lo hi [] i j e f p h at at' c d = absurd (ground arith)
runs_unique lo hi (x ∷ es) zero zero e f p h at at' c d = refl
runs_unique lo hi (x ∷ es) zero (suc j) e f p h at at' c d =
    let same : x ≡ e = cc in
    let c' : Has x p = subst (λ y. Has y p) (sym same) c in
    absurd (omega (arith, elem-lo (lo + span_size x) hi es j f h.3 at', h.2, c'.1, d.0))
runs_unique lo hi (x ∷ es) (suc i) zero e f p h at at' c d =
    let same : x ≡ f = cc in
    let d' : Has x p = subst (λ y. Has y p) (sym same) d in
    absurd (omega (arith, elem-lo (lo + span_size x) hi es i e h.3 at, h.2, d'.1, c.0))
runs_unique lo hi (x ∷ es) (suc i) (suc j) e f p h at at' c d =
    ap suc (runs_unique (lo + span_size x) hi es i j e f p h.3 at at' c d)

get_set :
    (es : List GraphEntryInternal) (i j : ℕ) (x e : GraphEntryInternal)
    → get_elem? es i ≡ some e
    → ((i ≡ j) × (get_elem? (set es i x) j ≡ some x))
      ⊎ (¬ (i ≡ j) × (get_elem? (set es i x) j ≡ get_elem? es j))
get_set [] i j x e at = absurd (ground arith)
get_set (d ∷ es) zero zero x e at = inl (refl, refl)
get_set (d ∷ es) zero (suc j) x e at = inr (λ k. absurd (omega arith), refl)
get_set (d ∷ es) (suc i) zero x e at = inr (λ k. absurd (omega arith), refl)
get_set (d ∷ es) (suc i) (suc j) x e at = elim (get_set es i j x e at) [
  | inl (k, g) ↦ inl (ap suc k, g)
  | inr (k, g) ↦ inr (λ m. k (omega arith), g)
]

contains_snoc : (cs : List ℕ) (n c : ℕ) → contains (cs ++ (n ∷ [])) c ≡ (contains cs c || (n == c))
contains_snoc [] n c = ground arith
contains_snoc (d ∷ cs) n c = ground (arith, contains_snoc cs n c)

has_any-Has : (e : GraphEntryInternal) (p : ℕ) → has_any e.span (p ∷ []) ≡ true → Has e p
has_any-Has e p h = (ground (arith, h), ground (arith, h))

Has-has_any : (e : GraphEntryInternal) (p : ℕ) → Has e p → has_any e.span (p ∷ []) ≡ true
Has-has_any e p h = ground (arith, h.0, h.1)

-- The entry of a version, with a child more.
pub set-Gains :
    (n hi p i : ℕ) (es : List GraphEntryInternal) (e : GraphEntryInternal)
    → IsRuns 0 es hi
    → get_elem? es i ≡ some e
    → Has e p
    → Gains n (p ∷ []) es (set es i (record e { child_indexes = e.child_indexes ++ (n ∷ []) }))
set-Gains n hi p i es e h at c j f at' =
    let x : GraphEntryInternal = record e { child_indexes = e.child_indexes ++ (n ∷ []) } in
    elim (get_set es i j x e at) [
      | inl (k, g) ↦
          let same : e ≡ f = (let at'' : get_elem? es i ≡ some f = rw k at' in cc) in
          (
            x,
            g,
            ap (λ (y : GraphEntryInternal). y.span) same,
            ap (λ (y : GraphEntryInternal). y.parents) same,
            ap (λ (y : GraphEntryInternal). y.shadow) same,
            subst
                (λ (y : GraphEntryInternal).
                  (d : ℕ)
                  → contains x.child_indexes d
                    ≡ (contains y.child_indexes d || ((n == d) && has_any y.span (p ∷ []))))
                same (λ d. ground (arith, contains_snoc e.child_indexes n d, Has-has_any e p c)),
          )
      | inr (k, g) ↦ elim (Bool-cases (has_any f.span (p ∷ []))) [
        | inl has ↦ absurd (k (runs_unique 0 hi es i j e f p h at at' c (has_any-Has f p has)))
        | inr apart ↦ (f, g ∙ at', refl, refl, refl, λ d. rw apart (ground arith))
      ]
    ]

pub Gains-nil : (n : ℕ) (es : List GraphEntryInternal) → Gains n [] es es
Gains-nil n es i e at = (e, at, refl, refl, refl, λ c. ground arith)

pub Gains-cons :
    (n p : ℕ) (ps : List ℕ) (es es1 es2 : List GraphEntryInternal)
    → Gains n (p ∷ []) es es1
    → Gains n ps es1 es2
    → Gains n (p ∷ ps) es es2
Gains-cons n p ps es es1 es2 h k i e at =
    let (e1, at1, s1, q1, w1, c1) = h i e at in
    let (e2, at2, s2, q2, w2, c2) = k i e1 at1 in
    let any : has_any e1.span ps ≡ has_any e.span ps = ap (λ s. has_any s ps) s1 in
    (e2, at2, s2 ∙ s1, q2 ∙ q1, w2 ∙ w1, λ c. c2 c ∙ rw (any, c1 c) (ground arith))
