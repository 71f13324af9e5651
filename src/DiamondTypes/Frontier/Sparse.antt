-- ===== src/DiamondTypes/Frontier/Sparse.antt =====
-- `advance_sparse` of tools/diamond-types/src/frontier.rs.
use egwalker_paper.Base.{
  contains-append, All-append, append-contains, ℕ, suc, ◌-◌, ◌/◌, ◌≤◌, ◌<◌, ◌≡◌, refl, subst, ◌↔◌,
  inl, inr, true, List, [], ◌∷◌, ◌++◌, some, leb, get_elem?, contains, slice_eq, eq_of_slice_eq,
  arith, Bool-cases, All, iff_trans,
}
use egwalker_paper.Base.Panic.{Outcome, done}
use egwalker_paper.OtBench.Frontier.{Frontier, replace_with_1}
use egwalker_paper.OtBench.Frontier.Advance.{IsSorted}
use egwalker_paper.OtBench.Graph.Ancestors.{Anc, self, Anc-le}
use egwalker_paper.DiamondTypes.DtRange.Laws.{upto, contains-upto}
use egwalker_paper.DiamondTypes.RleVec.{usize_max, index}
use egwalker_paper.DiamondTypes.RleVec.Find.{find_packed_lem, index_lem}
use egwalker_paper.DiamondTypes.Graph.{GraphEntryInternal, Graph, entry_key, entry_len, parents_at}
use egwalker_paper.DiamondTypes.Graph.Expand.{expand, span_size}
use egwalker_paper.DiamondTypes.Graph.Runs.{IsDag, Has, dag-IsCausal, Anc-trans}
use egwalker_paper.DiamondTypes.Graph.Tools.Compare.{All-self}
use egwalker_paper.DiamondTypes.Graph.Dominators.Spec.{IsDominators, members-IsDominators}
use egwalker_paper.DiamondTypes.Graph.Dominators.Two.{over-IsDominators, find_dominators_2_lem}
use egwalker_paper.DiamondTypes.Frontier.{
  advance_sparse_known_run, advance_sparse_slow, advance_sparse,
}
use egwalker_paper.DiamondTypes.Frontier.History.{run_part}
use egwalker_paper.DiamondTypes.Frontier.Uncovered.{IsMinimal}
use egwalker_paper.DiamondTypes.Frontier.Round.{last_of, one-IsMinimal}
use egwalker_paper.DiamondTypes.Frontier.RootAdvance.{IsTips, root_advance_lem}

-- The versions of a range.
abbrev pub versions : ℕ → ℕ → List ℕ
versions s t = upto s (t - s)

versions_iff : (s t y : ℕ) → s ≤ t → (contains (versions s t) y ≡ true) ↔ ((s ≤ y) × (y < t))
versions_iff s t y h =
    let c = contains-upto s (t - s) y in
    (λ k. (ground (arith, c, k), ground (arith, c, k)), λ (l, m). ground (arith, c, l, m))

module _ (g : Graph) (hi : ℕ) (dag : IsDag g.entries hi) where
  versions_below : (s t : ℕ) → s ≤ t → t ≤ hi → All (λ v. v < hi) (versions s t)
  versions_below s t h k =
      All-self (λ v. v < hi) (versions s t)
        (λ x c. (let (_, l) = (versions_iff s t x h).0 c in omega arith))

  -- The dominators of a frontier and of the dominators of some versions are those of all of them.
  replace-IsDominators :
      (f vs ds r : List ℕ)
      → All (λ v. v < hi) f
      → All (λ v. v < hi) vs
      → IsDominators (expand g.entries) vs ds
      → IsDominators (expand g.entries) (f ++ ds) r
      → IsDominators (expand g.entries) (f ++ vs) r
  replace-IsDominators f vs ds r hf hv d k =
      members-IsDominators g hi dag (f ++ vs) r (All-append (λ v. v < hi) f vs hf hv) k.sorted (λ y.
        iff_trans (k.members y) (
          λ (c, top). (
            append-contains f vs y (elim (contains-append f ds y c) [
              | inl a ↦ inl a
              | inr a ↦ inr (((d.members y).0 a).0)
            ]),
            λ w e a. elim (contains-append f vs w e) [
              | inl b ↦ top w (append-contains f ds w (inl b)) a
              | inr b ↦
                  let (p, pc, q) = (d.covers w).1 (w, b, self) in
                  let same = top p (append-contains f ds p (inr pc)) (Anc-trans q a) in
                  omega (
                    arith,
                    same,
                    Anc-le (expand g.entries) (dag-IsCausal g.entries hi dag) a,
                    Anc-le (expand g.entries) (dag-IsCausal g.entries hi dag) q,
                  )
            ],
          ),
          λ (c, top). (
            append-contains f ds y (elim (contains-append f vs y c) [
              | inl a ↦ inl a
              | inr a ↦
                  let (p, pc, q) = (d.covers y).1 (y, a, self) in
                  let same = top p (append-contains f vs p (inr (((d.members p).0 pc).0))) q in
                  inr (subst (λ x. contains ds x ≡ true) same pc)
            ]),
            λ w e a. elim (contains-append f ds w e) [
              | inl b ↦ top w (append-contains f vs w (inl b)) a
              | inr b ↦ top w (append-contains f vs w (inr (((d.members w).0 b).0))) a
            ],
          ),
        ))

  module _ (fits : hi ≤ usize_max / 2) (f : Frontier) (below : All (λ v. v < hi) f)
      (sorted : IsSorted f) (minimal : IsMinimal (expand g.entries) f) where
    -- What `f` becomes, advanced by the range from `s` to `t`.
    abbrev pub Sparse : Outcome Frontier → ℕ → ℕ → Type 0
    Sparse o s t =
        (r : Frontier) × (o ≡ done r) × IsDominators (expand g.entries) (f ++ versions s t) r

    module _ (i : ℕ) (e : GraphEntryInternal) (at : get_elem? g.entries i ≡ some e) (s l : ℕ)
        (c : Has e s) (d : Has e l) (m : s ≤ l) (known : suc l ≤ hi) where
      run_over : (w : ℕ) → contains (versions s (suc l)) w ≡ true → Anc (expand g.entries) l w
      run_over w k =
          let (u, v) = (versions_iff s (suc l) w (omega arith)).0 k in
          (run_part g.entries hi dag i e at s l w c d m).1 (inl (u, omega (arith, v)))

      last_in : contains (versions s (suc l)) l ≡ true
      last_in = (versions_iff s (suc l) l (omega arith)).1 (m, omega arith)

      run-IsDominators : IsDominators (expand g.entries) (versions s (suc l)) (l ∷ [])
      run-IsDominators =
          over-IsDominators g hi dag (versions s (suc l)) l
            (versions_below s (suc l) (omega arith) known) last_in run_over

      -- The frontier is the run's parents.
      parents-IsDominators :
          f ≡ parents_at e s → IsDominators (expand g.entries) (f ++ versions s (suc l)) (l ∷ [])
      parents-IsDominators same =
          over-IsDominators g hi dag (f ++ versions s (suc l)) l
            (All-append (λ v. v < hi) f (versions s (suc l)) below
              (versions_below s (suc l) (omega arith) known))
            (append-contains f (versions s (suc l)) l (inr last_in))
            (λ w k. elim (contains-append f (versions s (suc l)) w k) [
              | inl b ↦
                  (run_part g.entries hi dag i e at s l w c d m).1
                    (inr (w, subst (λ vs. contains vs w ≡ true) same b, self))
              | inr b ↦ run_over w b
            ])

      sparse_known_run_lem :
          Sparse
            (advance_sparse_known_run g (parents_at e s) (record { start = s; end = suc l }) f)
            s
            (suc l)
      unfolding advance_sparse_known_run replace_with_1
      sparse_known_run_lem = elim (Bool-cases (slice_eq f (parents_at e s))) [
        | inl t ↦ (
          l ∷ [],
          rw (last_of s l) (rw t refl),
          parents-IsDominators (eq_of_slice_eq f (parents_at e s) t),
        )
        | inr t ↦
            let (r, eq, k) =
              find_dominators_2_lem g hi dag fits f (l ∷ []) below (omega arith, tt) sorted (tt, tt)
                minimal (one-IsMinimal (expand g.entries) l) in
            (
              r,
              rw (last_of s l) (rw t eq),
              replace-IsDominators f (versions s (suc l)) (l ∷ []) r below
                  (versions_below s (suc l) (omega arith) known) run-IsDominators k,
            )
      ]

    tips-IsDominators :
        (s t : ℕ) (r : Frontier)
        → s ≤ t
        → t ≤ hi
        → IsSorted r
        → IsTips g.entries hi dag r s t
        → IsDominators (expand g.entries) (versions s t) r
    tips-IsDominators s t r h k o tips =
        members-IsDominators g hi dag (versions s t) r (versions_below s t h k) o (λ y.
          iff_trans (tips y) (
            λ p. (
              (versions_iff s t y h).1 (p.from, p.before),
              λ w c a. (let (u, v) = (versions_iff s t w h).0 c in p.top w u v a),
            ),
            λ (c, top).
                (let (u, v) = (versions_iff s t y h).0 c in
                  record {
                    from = u;
                    before = v;
                    top = λ w u' v' a. top w ((versions_iff s t w h).1 (u', v')) a;
                  }),
          ))

    sparse_slow_lem :
        (s t : ℕ)
        → s < t
        → t ≤ hi
        → Sparse (advance_sparse_slow g (record { start = s; end = t }) f) s t
    unfolding advance_sparse_slow
    sparse_slow_lem s t l k =
        let (f2, e, o, tips) = root_advance_lem g hi s t dag l k in
        let low : All (λ v. v < hi) f2 =
          All-self (λ v. v < hi) f2 (λ x c. omega (arith, ((tips x).0 c).before)) in
        let d = tips-IsDominators s t f2 (omega arith) k o tips in
        let (r, eq, u) =
          find_dominators_2_lem g hi dag fits f f2 below low sorted o minimal d.minimal in
        (
          r,
          rw e eq,
          replace-IsDominators f (versions s t) f2 r below (versions_below s t (omega arith) k) d u,
        )

    -- In a well-formed graph whose versions are below half the greatest `usize`, `advance_sparse` of a
    -- frontier by a non-empty range of the graph, whose parents need not be in the frontier's history,
    -- returns the frontier of the old versions and the range's that are in the history of no other,
    -- which has the history of all of them.
    pub advance_sparse_lem :
        (s t : ℕ) → s < t → t ≤ hi → Sparse (advance_sparse g (record { start = s; end = t }) f) s t
    unfolding advance_sparse
    advance_sparse_lem s t l k =
        let (i, e, found_it, _, _, at, c) =
          find_packed_lem entry_key entry_len span_size 0 hi g.entries s dag.runs (omega arith)
            (omega arith) in
        let here : index g.entries i ≡ done e = index_lem g.entries i e at in
        elim (Bool-cases (leb t e.span.end)) [
          | inr u ↦
              let (r, eq, d) = sparse_slow_lem s t l k in (r, rw found_it (rw here (rw u eq)), d)
          | inl u ↦
              let z : suc (t - 1) ≡ t = omega arith in
              let last : Has e (t - 1) = (omega (arith, c.0), ground (arith, u, c.0, c.1)) in
              let (r, eq, d) =
                subst
                  (λ n.
                    Sparse
                      (advance_sparse_known_run g (parents_at e s) (record { start = s; end = n })
                        f)
                      s n)
                  z (sparse_known_run_lem i e at s (t - 1) c last (omega arith) (omega arith)) in
              (r, rw found_it (rw here (rw u eq)), d)
        ]
