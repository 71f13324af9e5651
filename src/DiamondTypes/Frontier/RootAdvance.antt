-- ===== src/DiamondTypes/Frontier/RootAdvance.antt =====
-- `advance` of tools/diamond-types/src/frontier.rs from the root by any range, as `advance_sparse` uses it.
use egwalker_paper.Base.{
  ℕ, suc, ◌+◌, ◌-◌, ◌≤◌, ◌<◌, ◌≡◌, refl, sym, subst, ◌∙◌, ◌⊎◌, ◌↔◌, ◌==◌, ==_iff, inl, inr, true,
  false, List, [], ◌∷◌, some, leb, ltb, ltb→lt, min, drop, get_elem?, contains, arith, Bool-cases,
}
use mathlib.Core.Bool.{false≢true}
use egwalker_paper.Base.Panic.{done}
use egwalker_paper.OtBench.Frontier.{Frontier}
use egwalker_paper.OtBench.Frontier.Advance.{IsSorted, advance_lem}
use egwalker_paper.OtBench.Graph.Ancestors.{Anc, self, Anc-le, All-contains}
use egwalker_paper.DiamondTypes.RleVec.Find.{find_packed_lem}
use egwalker_paper.DiamondTypes.Graph.{GraphEntryInternal, Graph, entry_key, entry_len, parents_at}
use egwalker_paper.DiamondTypes.Graph.Expand.{expand, span_size, IsRuns}
use egwalker_paper.DiamondTypes.Graph.Runs.{IsDag, Has, version_at, dag-IsCausal}
use egwalker_paper.DiamondTypes.Frontier.{advance_by_known_run, advance_loop, advance}
use egwalker_paper.DiamondTypes.Frontier.History.{known_run_eq, run_part}
use egwalker_paper.DiamondTypes.Frontier.Round.{last_of}
use egwalker_paper.DiamondTypes.Frontier.Advance.{
  loop_last, loop_more, Places, Places-tail, first_end, drop_Places, drop-IsRuns,
}

module _ (es : List GraphEntryInternal) (hi : ℕ) (dag : IsDag es hi) where
  -- A version of the range that is in the history of no other of its versions.
  pub record IsTipOf (s t y : ℕ) : Type 0 where
    pub from : s ≤ y
    pub before : y < t
    pub top : (w : ℕ) → s ≤ w → w < t → Anc (expand es) w y → w ≡ y

  abbrev pub IsTips : Frontier → ℕ → ℕ → Type 0
  IsTips f s t = (y : ℕ) → (contains f y ≡ true) ↔ IsTipOf s t y

  no-IsTips : (s : ℕ) → IsTips [] s s
  no-IsTips s y = (λ c. absurd (false≢true c), λ h. absurd (omega (arith, h.from, h.before)))

  untouched : (f : Frontier) (s t v : ℕ) → IsTips f s t → t ≤ v → contains f v ≡ false
  untouched f s t v h l = elim (Bool-cases (contains f v)) [
    | inl c ↦ absurd (omega (arith, ((h v).0 c).before))
    | inr c ↦ c
  ]

  module _ (i : ℕ) (e : GraphEntryInternal) (g : get_elem? es i ≡ some e) (s m l : ℕ) (c : Has e m)
      (d : Has e l) (k : m ≤ l) (h : s ≤ m) (f : Frontier) (tips : IsTips f s m) where
    below_parents : (p : ℕ) → contains (parents_at e m) p ≡ true → p < m
    below_parents p q =
        All-contains (λ x. x < m) (parents_at e m) p
          (dag-IsCausal es hi dag m (record { idx = m; parents = parents_at e m })
            (version_at es hi dag i e m g c))
          q

    -- A tip of the range that is not a parent of the run stays one.
    old_tip :
        (y : ℕ) → contains f y ≡ true → contains (parents_at e m) y ≡ false → IsTipOf s (suc l) y
    old_tip y a n =
        let t = (tips y).0 a in
        record {
          from = t.from;
          before = omega (arith, t.before);
          top = λ w u v b. elim (Bool-cases (ltb w m)) [
            | inl before ↦ t.top w u (ltb→lt w m before) b
            | inr behind ↦
                let low : m ≤ w = ground (arith, behind) in
                let has : Has e w = (omega (arith, c.0, low), omega (arith, d.1)) in
                elim ((run_part es hi dag i e g m w y c has low).0 b) [
                  | inl r ↦ absurd (omega (arith, r.0, t.before))
                  | inr (p, q, b') ↦
                      let le = Anc-le (expand es) (dag-IsCausal es hi dag) b' in
                      let same : p ≡ y =
                        t.top p (omega (arith, t.from, le)) (below_parents p q) b' in
                      absurd (
                        false≢true (sym n ∙ subst (λ x. contains (parents_at e m) x ≡ true) same q))
                ]
          ];
        }

    new_tip : IsTipOf s (suc l) l
    new_tip = record {
      from = omega arith;
      before = omega arith;
      top = λ w u v b. omega (arith, Anc-le (expand es) (dag-IsCausal es hi dag) b);
    }

    -- The tips of the range with the run.
    tip_cases :
        (y : ℕ)
        → IsTipOf s (suc l) y
        → (l ≡ y) ⊎ ((contains f y ≡ true) × (contains (parents_at e m) y ≡ false))
    tip_cases y t =
        let over : Anc (expand es) l y → l ≡ y = t.top l (omega arith) (omega arith) in
        elim (Bool-cases (ltb y m)) [
          | inr behind ↦ inl (
              over (
                (run_part es hi dag i e g m l y c d k).1
                  (inl (ground (arith, behind), omega (arith, t.before)))))
          | inl before ↦
              let lt = ltb→lt y m before in
              inr (
                (tips y).1 (record {
                  from = t.from;
                  before = lt;
                  top = λ w u v b. t.top w u (omega arith) b;
                }),
                elim (Bool-cases (contains (parents_at e m) y)) [
                  | inl q ↦
                      let same =
                        over ((run_part es hi dag i e g m l y c d k).1 (inr (y, q, self))) in
                      absurd (omega (arith, same))
                  | inr q ↦ q
                ],
              )
        ]

    pub run-IsTips :
        IsSorted f
        → (r : Frontier) × (advance_by_known_run
              (parents_at e m)
              (record { start = m; end = suc l })
              f
            ≡ done r)
          × IsSorted r
          × IsTips r s (suc l)
    run-IsTips sorted =
        let fresh = untouched f s m l tips k in
        let fresh_m = untouched f s m m tips (omega arith) in
        let (r, eq, s', holds) = advance_lem l (parents_at e m) f sorted fresh in
        (
          r,
          known_run_eq (parents_at e m) (record { start = m; end = suc l }) f l (last_of m l) fresh
                fresh_m
              ∙ eq,
          s',
          λ y. (
            λ a. elim (Bool-cases (l == y)) [
              | inl q ↦ subst (IsTipOf s (suc l)) ((==_iff l y).0 q) new_tip
              | inr q ↦ old_tip y (ground (arith, holds y, a, q)) (ground (arith, holds y, a, q))
            ],
            λ t. elim (tip_cases y t) [
              | inl q ↦ ground (arith, holds y, (==_iff l y).1 q)
              | inr (a, n) ↦ ground (arith, holds y, a, n)
            ],
          ),
        )

  loop-IsTips :
      (i lo : ℕ) (rest : List GraphEntryInternal) (f : Frontier) (s m t : ℕ)
      → Places es i rest
      → IsRuns lo rest hi
      → lo ≤ m
      → ((e : GraphEntryInternal) → get_elem? rest 0 ≡ some e → m < e.span.end)
      → s ≤ m
      → m < t
      → t ≤ hi
      → IsSorted f
      → IsTips f s m
      → (r : Frontier) × (advance_loop rest (record { start = m; end = t }) f ≡ done r)
        × IsSorted r
        × IsTips r s t
  loop-IsTips i lo [] f s m t at runs u first h v w sorted tips = absurd (omega (arith, runs))
  loop-IsTips i lo (txn ∷ txns) f s m t at runs u first h v w sorted tips =
      let l = min txn.span.end t - 1 in
      let in_txn : m < txn.span.end = first txn refl in
      let end : min txn.span.end t ≡ suc l = omega arith in
      let g : get_elem? es i ≡ some txn =
        (let z : i + 0 ≡ i = omega arith in rw z at (at 0 txn refl)) in
      let size : txn.span.start + span_size txn ≡ txn.span.end = omega (arith, runs.1) in
      let c : Has txn m = (omega (arith, runs.2), omega (arith, size)) in
      let d : Has txn l = (omega (arith, runs.2), omega (arith, size)) in
      let (r, e, s', tips') = run-IsTips i txn g s m l c d (omega arith) h f tips sorted in
      elim (Bool-cases (leb t (suc l))) [
        | inl last ↦
            let z : suc l ≡ t = ground (arith, last) in
            (r, loop_last txn txns f r r m t (suc l) end e last, s', subst (IsTips r s) z tips')
        | inr more ↦
            let k : suc l < t = ground (arith, more) in
            let ends : suc l ≡ lo + span_size txn = omega (arith, size, runs.2, k) in
            let (r', e', s'', out) =
              loop-IsTips (suc i) (lo + span_size txn) txns r s (suc l) t
                (Places-tail es i txn txns at) runs.3 (omega (arith, ends))
                (λ d' h'.
                  (let b = first_end (lo + span_size txn) hi txns d' runs.3 h' in
                    omega (arith, b, ends)))
                (omega arith) k w s' tips' in
            (r', loop_more txn txns f r r' m t (suc l) end e more e', s'', out)
      ]

-- In a well-formed graph, `advance` of the root by a range of the graph does not panic, and gives the
-- range's versions that are in the history of no other of them, in ascending order.
pub root_advance_lem :
    (g : Graph) (hi : ℕ) (s t : ℕ)
    → (dag : IsDag g.entries hi) → s < t
    → t ≤ hi
    → (r : Frontier) × (advance g (record { start = s; end = t }) [] ≡ done r)
      × IsSorted r
      × IsTips g.entries hi dag r s t
unfolding advance
root_advance_lem g hi s t dag l m =
    let (i, e, found_it, _, _, at, c) =
      find_packed_lem entry_key entry_len span_size 0 hi g.entries s dag.runs (omega arith)
        (omega arith) in
    let (lo, start, runs, head) = drop-IsRuns 0 hi i g.entries e dag.runs at in
    let in_e : (d : GraphEntryInternal) → get_elem? (drop i g.entries) 0 ≡ some d → s < d.span.end =
      λ d h.
        (let same : e ≡ d = cc in subst (λ d'. s < d'.span.end) same (omega (arith, c.0, c.1))) in
    let (r, eq, out, tips) =
      loop-IsTips g.entries hi dag i lo (drop i g.entries) [] s s t (drop_Places i g.entries) runs
        (omega (arith, start, c.0)) in_e (omega arith) l m tt (no-IsTips g.entries hi dag s) in
    (r, rw found_it eq, out, tips)
