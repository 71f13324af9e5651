-- ===== src/DiamondTypes/Graph/Runs.antt =====
-- What a well-formed graph of tools/diamond-types/src/causalgraph/graph/mod.rs is, and the histories
-- of its versions.
use egwalker_paper.Base.{
  contains_self, All-below_weaken, elem_bound, ℕ, zero, suc, ◌+◌, ◌-◌, ◌≤◌, ◌<◌, ◌≡◌, sym, subst,
  ◌↔◌, inl, inr, true, false, List, [], ◌∷◌, Option, some, ltb→lt, ltb, ◌==◌, ==_iff, get_elem?,
  arith, Bool-cases, All,
}
use egwalker_paper.Base.Panic.{done}
use egwalker_paper.OtBench.Graph.{GraphEntryInternal as Version}
use egwalker_paper.OtBench.Graph.Ancestors.{Anc, self, up, AncOf, IsCausal, Anc-parents}
use egwalker_paper.DiamondTypes.RleVec.Find.{Covers, find_packed_lem}
use egwalker_paper.DiamondTypes.Graph.{
  GraphEntryInternal, entry_key, entry_len, parents_at, find_entry,
}
use egwalker_paper.DiamondTypes.Graph.Expand.{expand, IsRuns, span_size, length-expand, expand_elem}

abbrev pub Has : GraphEntryInternal → ℕ → Type 0
Has e v = Covers entry_key entry_len span_size e v

-- Parents stand before their run, and the versions from the shadow up to the run are in the
-- history of the parents.
pub record IsEntry (full : List Version) (e : GraphEntryInternal) : Type 0 where
  pub below : All (λ p. p < e.span.start) e.parents
  pub shadow_le : e.shadow ≤ e.span.start
  pub shadowed : (x : ℕ) → e.shadow ≤ x → x < e.span.start → AncOf full e.parents x

-- The graph of the versions below `hi`.
pub record IsDag (es : List GraphEntryInternal) (hi : ℕ) : Type 0 where
  pub runs : IsRuns 0 es hi
  pub sound : (i : ℕ) (e : GraphEntryInternal) → get_elem? es i ≡ some e → IsEntry (expand es) e

pub Anc-trans : {es : List Version} {u v w : ℕ} → Anc es u v → Anc es v w → Anc es u w
Anc-trans self b = b
Anc-trans (up e p h c a) b = up e p h c (Anc-trans a b)

same_parents :
    (P : ℕ → Type 0) (o : Option Version) (d e : Version)
    → o ≡ some d
    → o ≡ some e
    → All P d.parents
    → All P e.parents
same_parents P o d e h k a = let same : d ≡ e = cc in rw (sym same) a

pub AncOf_one : (es : List Version) (v x : ℕ) → AncOf es (v ∷ []) x → Anc es v x
AncOf_one es v x (p, c, a) = elim (Bool-cases (v == p)) [
  | inl e ↦ subst (λ q. Anc es q x) (sym ((==_iff v p).0 e)) a
  | inr e ↦ absurd (ground (arith, c, e))
]

module _ (es : List GraphEntryInternal) (hi : ℕ) (dag : IsDag es hi) where
  -- What is known of a version of the graph.
  pub entry_at :
      (v : ℕ)
      → v < hi
      → (i : ℕ) × (e : GraphEntryInternal) × (find_entry es v ≡ done e)
        × (get_elem? es i ≡ some e)
        × Has e v
  entry_at v h =
      let (i, e, _, _, f, g, c) =
        find_packed_lem entry_key entry_len span_size 0 hi es v dag.runs (omega arith) h in
      (i, e, f, g, c)

  pub version_at :
      (i : ℕ) (e : GraphEntryInternal) (v : ℕ)
      → get_elem? es i ≡ some e
      → Has e v
      → get_elem? (expand es) v ≡ some (record { idx = v; parents = parents_at e v })
  version_at i e v g c =
      let z : v - 0 ≡ v = omega arith in rw z at (expand_elem 0 hi es i e v dag.runs g c)

  module _ (i : ℕ) (e : GraphEntryInternal) (g : get_elem? es i ≡ some e) where
    first_version :
        Has e e.span.start
        → get_elem? (expand es) e.span.start
          ≡ some (record { idx = e.span.start; parents = e.parents })
    unfolding parents_at
    first_version c =
        let no : ltb e.span.start e.span.start ≡ false = ground arith in
        rw no at (version_at i e e.span.start g c)

    later_version :
        (v : ℕ)
        → Has e (suc v)
        → e.span.start ≤ v
        → get_elem? (expand es) (suc v) ≡ some (record { idx = suc v; parents = v ∷ [] })
    unfolding parents_at
    later_version v c l =
        let yes_ : ltb e.span.start (suc v) ≡ true = ground arith in
        let z : suc v - 1 ≡ v = omega arith in rw (yes_, z) at (version_at i e (suc v) g c)

    -- A version of a run has those before it in the run in its history.
    pub run_Anc : (k y : ℕ) → Has e (y + k) → e.span.start ≤ y → Anc (expand es) (y + k) y
    run_Anc zero y c l = let z : y + 0 ≡ y = omega arith in rw z self
    run_Anc (suc k) y c l =
        let z : y + suc k ≡ suc (y + k) = omega arith in
        let c' : Has e (suc (y + k)) = rw z at c in
        rw z (
          up (record { idx = suc (y + k); parents = (y + k) ∷ [] }) (y + k)
            (later_version (y + k) c' (omega arith)) (contains_self (y + k) [])
            (run_Anc k y (omega (arith, c'.0), omega (arith, c'.1)) l))

  parents_below :
      (i : ℕ) (e : GraphEntryInternal) (v : ℕ)
      → get_elem? es i ≡ some e
      → Has e v
      → All (λ p. p < v) (parents_at e v)
  unfolding parents_at
  parents_below i e v g c = elim (Bool-cases (ltb e.span.start v)) [
    | inl behind ↦ rw behind (ground (arith, behind), tt)
    | inr at ↦ rw at (All-below_weaken e.span.start v e.parents (c.0) (dag.sound i e g).below)
  ]

  pub dag-IsCausal : IsCausal (expand es)
  dag-IsCausal v e h =
      let below_hi : v < hi =
        omega (arith, elem_bound (expand es) v e h, length-expand 0 hi es dag.runs) in
      let (i, d, _, g, c) = entry_at v below_hi in
      same_parents (λ p. p < v) (get_elem? (expand es) v)
        (record { idx = v; parents = parents_at d v }) e (version_at i d v g c) h
        (parents_below i d v g c)

  -- Below its run, the history of a version is that of the run's parents.
  module _ (i : ℕ) (e : GraphEntryInternal) (g : get_elem? es i ≡ some e) where
    run_start : (v : ℕ) → Has e v → Has e e.span.start
    run_start v c = (omega arith, omega (arith, c.0, c.1))

    history_down :
        (k x : ℕ)
        → Has e (e.span.start + k)
        → x < e.span.start
        → Anc (expand es) (e.span.start + k) x
        → AncOf (expand es) e.parents x
    history_down zero x c l a =
        let z : e.span.start + 0 ≡ e.span.start = omega arith in
        let a' : Anc (expand es) e.span.start x = rw z at a in
        Anc-parents (expand es) dag-IsCausal (record { idx = e.span.start; parents = e.parents })
          (first_version i e g (run_start (e.span.start + 0) c)) l a'
    history_down (suc k) x c l a =
        let z : e.span.start + suc k ≡ suc (e.span.start + k) = omega arith in
        let c' : Has e (suc (e.span.start + k)) = rw z at c in
        let a' : Anc (expand es) (suc (e.span.start + k)) x = rw z at a in
        let one =
          Anc-parents (expand es) dag-IsCausal
            (record { idx = suc (e.span.start + k); parents = (e.span.start + k) ∷ [] })
            (later_version i e g (e.span.start + k) c' (omega arith)) (omega arith) a' in
        history_down k x (omega arith, omega (arith, c'.1)) l
          (AncOf_one (expand es) (e.span.start + k) x one)

    pub run_history :
        (v x : ℕ) → Has e v → x < e.span.start → Anc (expand es) v x ↔ AncOf (expand es) e.parents x
    run_history v x c l =
        let s = e.span.start in
        let z : s + (v - s) ≡ v = omega (arith, c.0) in
        let c' : Has e (s + (v - s)) = rw z c in
        let down : Anc (expand es) v s = rw z at (run_Anc i e g (v - s) s c' (omega arith)) in
        (
          λ a. history_down (v - s) x c' l (rw z a),
          λ (p, h, a). Anc-trans down (
              up (record { idx = s; parents = e.parents }) p (first_version i e g (run_start v c)) h
                a),
        )

    -- All versions from the shadow on are in the history of a version of the run.
    pub shadow_Anc : (v x : ℕ) → Has e v → e.shadow ≤ x → x ≤ v → Anc (expand es) v x
    shadow_Anc v x c l m = elim (Bool-cases (ltb x e.span.start)) [
      | inl before ↦
          let b = ltb→lt x e.span.start before in
          (run_history v x c b).1 ((dag.sound i e g).shadowed x l b)
      | inr inside ↦
          let z : x + (v - x) ≡ v = omega arith in
          let c' : Has e (x + (v - x)) = rw z c in
          rw z at (run_Anc i e g (v - x) x c' (ground (arith, inside)))
    ]
