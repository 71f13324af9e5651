-- ===== src/DiamondTypes/Graph/Diff/Items.antt =====
-- One item of a run in the inner loop of `diff_slow_internal` in
-- tools/diamond-types/src/causalgraph/graph/tools.rs.
use egwalker_paper.Base.{
  ℕ, ◌+◌, ◌≤◌, ◌≡◌, refl, sym, ◌∙◌, inl, inr, Bool, true, false, ◌||◌, List, ◌∷◌, some, get_elem?,
  arith, Bool-cases, iff_trans,
}
use egwalker_paper.Base.Panic.{done}
use egwalker_paper.OtBench.Graph.{DiffFlag, shared, flag_eq, Queue}
use egwalker_paper.OtBench.Graph.Heap.{has, has-merged}
use egwalker_paper.OtBench.Graph.Scan.{Holds-le}
use egwalker_paper.DiamondTypes.Graph.{GraphEntryInternal}
use egwalker_paper.DiamondTypes.Graph.Expand.{expand}
use egwalker_paper.DiamondTypes.Graph.Runs.{Anc-trans, Has, IsDag, dag-IsCausal}
use egwalker_paper.DiamondTypes.Graph.Diff.{DiffResult, mark_result}
use egwalker_paper.DiamondTypes.Graph.Diff.Part.{IsFlagged}
use egwalker_paper.DiamondTypes.Graph.Diff.Mark.{has-shared, IsAt, mark_lem}
use egwalker_paper.DiamondTypes.Graph.Chain.{chain, chain_history}

module _ (es : List GraphEntryInternal) (hi : ℕ) (dag : IsDag es hi) (a b : List ℕ) where
  module _ (i : ℕ) (e : GraphEntryInternal) (g : get_elem? es i ≡ some e) where
    -- An item of the run with the flag at hand adds nothing.
    pub same_flag :
        (ord w : ℕ) (flag : DiffFlag) (q : Queue) (r : DiffResult)
        → Has e ord
        → e.span.start ≤ w
        → IsAt es hi dag a b ord flag ((w, flag) ∷ q) r
        → IsAt es hi dag a b ord flag q r
    same_flag ord w flag q r c l h = record {
      ranges = h.ranges;
      part = h.part;
      at_most = h.at_most.1;
      heap = h.heap.1;
      strict = elim h.strict [ inl t ↦ inl t | inr t ↦ inr t.1 ];
      future = λ s x k. iff_trans (h.future s x k) (
        elim [
          | inl y ↦ inl y
          | inr y ↦ elim y [
            | inl (t, z) ↦ inl (t, Anc-trans (chain es hi dag i e g ord w c l (h.at_most.0)) z)
            | inr z ↦ inr z
          ]
        ],
        elim [ inl y ↦ inl y | inr y ↦ inr (inr y) ],
      );
    }

    IsFlagged-above :
        (ord w : ℕ) (flag g' : DiffFlag) (q : Queue) (r : DiffResult)
        → Has e ord
        → e.span.start ≤ w
        → IsAt es hi dag a b ord flag ((w, g') ∷ q) r
        → IsFlagged (expand es) (dag-IsCausal es hi dag) a b (w + 1) (ord + 1) (ord + 1) flag
    IsFlagged-above ord w flag g' q r c l h s x m n = iff_trans (h.future s x (omega arith)) (
      elim [
        | inl (t, z) ↦ (n, t)
        | inr y ↦ absurd (
            omega (
              arith,
              Holds-le (expand es) (dag-IsCausal es hi dag) a b s w ((w, g') ∷ q) x
                  (omega arith, h.heap.0) y,
            ))
      ],
      λ (y, t). inl (t, chain es hi dag i e g ord x c (omega arith) (omega arith)),
    )

    -- An item of the run with another flag: below it the version is shared.
    pub other_flag :
        (ord w : ℕ) (flag g' : DiffFlag) (q : Queue) (r : DiffResult)
        → Has e ord
        → e.span.start ≤ w
        → flag_eq g' flag ≡ false
        → IsAt es hi dag a b ord flag ((w, g') ∷ q) r
        → (r' : DiffResult) × (mark_result (w + 1) ord flag r ≡ done r')
          × IsAt es hi dag a b w shared q r'
    other_flag ord w flag g' q r c l d h =
        let (r', eq, v, p) =
          mark_lem es hi dag a b (w + 1) ord flag r h.ranges h.part
            (elim h.strict [ inl t ↦ inl t | inr t ↦ inr (omega (arith, t.0)) ])
            (omega (arith, h.at_most.0)) (IsFlagged-above ord w flag g' q r c l h) in
        let both : (s : Bool) → (has s flag || has s g') ≡ true =
          λ s. sym (has-merged (expand es) s flag g') ∙ rw d (has-shared s) in
        (
          r',
          eq,
          record {
            ranges = v;
            part = p;
            at_most = h.heap.0;
            heap = h.heap.1;
            strict = inl refl;
            future = λ s x k.
                let same = chain_history es hi dag i e g ord w x c l (h.at_most.0) k in
                iff_trans (h.future s x (omega (arith, h.at_most.0))) (
                  elim [
                    | inl (t, z) ↦ inl (has-shared s, same.0 z)
                    | inr y ↦ elim y [ inl (t, z) ↦ inl (has-shared s, z) | inr z ↦ inr z ]
                  ],
                  elim [
                    | inl (t, z) ↦ elim (Bool-cases (has s flag)) [
                      | inl y ↦ inl (y, same.1 z)
                      | inr y ↦ inr (inl (ground (arith, both s, y), z))
                    ]
                    | inr z ↦ inr (inr z)
                  ],
                );
          },
        )
