-- ===== src/OtBench/Graph/Ancestors.antt =====
-- Ancestors in the causal graph of tools/ot-bench/src/cg.rs: the versions that a version contains.
use egwalker_paper.Base.{
  ℕ, ◌≤◌, ◌<◌, ◌≡◌, refl, sym, subst, ◌⊎◌, ◌↔◌, ◌==◌, inl, inr, true, List, [], ◌∷◌, Option, some,
  get_elem?, All, arith, contains, Bool-cases, ==_iff,
}
use egwalker_paper.OtBench.Graph.{GraphEntryInternal}

-- `Anc es v x`: the version `x` is `v` or an ancestor of `v`.
pub data Anc (es : List GraphEntryInternal) : ℕ → ℕ → Type 0 where
  self : {v : ℕ} → Anc es v v
  up :
      {v x : ℕ} (e : GraphEntryInternal) (p : ℕ)
      → get_elem? es v ≡ some e
      → contains e.parents p ≡ true
      → Anc es p x
      → Anc es v x

-- `x` is in the history of one of the versions.
abbrev pub AncOf : List GraphEntryInternal → List ℕ → ℕ → Type 0
AncOf es vs x = (p : ℕ) × (contains vs p ≡ true) × Anc es p x

-- Parents come before their children, as `push` in order of versions makes them.
abbrev pub IsCausal : List GraphEntryInternal → Type 0
IsCausal es =
    (v : ℕ) (e : GraphEntryInternal) → get_elem? es v ≡ some e → All (λ p. p < v) e.parents

pub All-contains : (P : ℕ → Type 0) (xs : List ℕ) (y : ℕ) → All P xs → contains xs y ≡ true → P y
All-contains P [] y h c = absurd (ground arith)
All-contains P (x ∷ xs) y h c = elim (Bool-cases (x == y)) [
  | inl e ↦ subst P ((==_iff x y).0 e) h.0
  | inr e ↦ All-contains P xs y h.1 (rw e at c)
]

same_entry :
    (o : Option GraphEntryInternal) (e e' : GraphEntryInternal) (p : ℕ)
    → o ≡ some e
    → o ≡ some e'
    → contains e'.parents p ≡ true
    → contains e.parents p ≡ true
same_entry o e e' p h h' c = let same : e ≡ e' = cc in rw same c

pub ancof_cons :
    (es : List GraphEntryInternal) (v : ℕ) (vs : List ℕ) (x : ℕ)
    → AncOf es (v ∷ vs) x ↔ (Anc es v x ⊎ AncOf es vs x)
ancof_cons es v vs x = (
  λ (p, c, a). elim (Bool-cases (v == p)) [
    | inl e ↦ inl (subst (λ q. Anc es q x) (sym ((==_iff v p).0 e)) a)
    | inr e ↦ inr (p, rw e at c, a)
  ],
  elim [ inl a ↦ (v, rw ((==_iff v v).1 refl), a) | inr (p, c, a) ↦ (p, ground (arith, c), a) ],
)

module _ (es : List GraphEntryInternal) (causal : IsCausal es) where
  pub Anc-le : {v x : ℕ} → Anc es v x → x ≤ v
  Anc-le self = omega arith
  Anc-le (up {v = v} e p h c a) =
      omega (arith, Anc-le a, All-contains (λ q. q < v) e.parents p (causal v e h) c)

  -- A proper ancestor is in the history of a parent.
  pub Anc-parents :
      {v x : ℕ} (e : GraphEntryInternal)
      → get_elem? es v ≡ some e
      → x < v
      → Anc es v x
      → AncOf es e.parents x
  Anc-parents e h l self = absurd (omega arith)
  Anc-parents {v} e h l (up e' p h' c a) = (p, same_entry (get_elem? es v) e e' p h h' c, a)
