-- ===== src/DiamondTypes/Graph/Diff/Sweep.antt =====
-- The loop of `diff_slow_internal` in tools/diamond-types/src/causalgraph/graph/tools.rs for the items of
-- one run, and the run's last mark.
use egwalker_paper.Base.{
  ℕ, ◌+◌, ◌≤◌, ◌<◌, ◌≡◌, refl, subst, ◌∙◌, ◌↔◌, inl, inr, Bool, true, false, List, [], ◌∷◌, some,
  ltb, ltb→lt, get_elem?, arith, Bool-cases, iff_trans,
}
use egwalker_paper.Base.Panic.{done}
use egwalker_paper.OtBench.Graph.{DiffFlag, shared, flag_eq, Queue, push_all}
use egwalker_paper.OtBench.Graph.Ancestors.{AncOf}
use egwalker_paper.OtBench.Graph.Heap.{num_shared, shared_count, Below, Holds, push_all-Holds}
use egwalker_paper.OtBench.Graph.Absorb.{pick, take_shared_lem, Below-less}
use egwalker_paper.OtBench.Graph.Scan.{not-Holds}
use egwalker_paper.DiamondTypes.Graph.{GraphEntryInternal}
use egwalker_paper.DiamondTypes.Graph.Expand.{expand}
use egwalker_paper.DiamondTypes.Graph.Runs.{Has, IsDag, run_history, dag-IsCausal}
use egwalker_paper.DiamondTypes.Graph.Diff.{DiffResult, Swept, sweep, mark_result}
use egwalker_paper.DiamondTypes.Graph.Diff.Part.{IsPart, IsFlagged}
use egwalker_paper.DiamondTypes.Graph.Diff.Mark.{written_out, IsRanges, flag_eq_lem, IsAt, mark_lem}
use egwalker_paper.DiamondTypes.Graph.Chain.{chain}
use egwalker_paper.DiamondTypes.Graph.Diff.Items.{same_flag, other_flag}

Below-le : (m n : ℕ) (q : Queue) → m ≤ n → Below m q → Below n q
Below-le m n [] l h = tt
Below-le m n ((v, f) ∷ q) l h = (omega (arith, h.0), Below-le m n q l h.1)

module _ (es : List GraphEntryInternal) (hi : ℕ) (dag : IsDag es hi) (a b : List ℕ) where
  module _ (i : ℕ) (e : GraphEntryInternal) (g : get_elem? es i ≡ some e) where
    stop_step :
        (ord w : ℕ) (flag g' : DiffFlag) (n : ℕ) (q : Queue) (r : DiffResult)
        → ltb w e.span.start ≡ true
        → sweep mark_result e.span.start ord flag n ((w, g') ∷ q) r
          ≡ done (record { state = r; ord = ord; flag = flag; num = n; queue = (w, g') ∷ q })
    unfolding sweep
    stop_step ord w flag g' n q r t = rw t refl

    same_step :
        (ord w : ℕ) (flag g' : DiffFlag) (n : ℕ) (q : Queue) (r : DiffResult)
        → ltb w e.span.start ≡ false
        → flag_eq g' flag ≡ true
        → sweep mark_result e.span.start ord flag (shared_count g' + n) ((w, g') ∷ q) r
          ≡ sweep mark_result e.span.start ord flag n q r
    unfolding sweep
    same_step ord w flag g' n q r t d = rw (t, d, take_shared_lem g' n) refl

    other_step :
        (ord w : ℕ) (flag g' : DiffFlag) (n : ℕ) (q : Queue) (r r' : DiffResult)
        → ltb w e.span.start ≡ false
        → flag_eq g' flag ≡ false
        → mark_result (w + 1) ord flag r ≡ done r'
        → sweep mark_result e.span.start ord flag (shared_count g' + n) ((w, g') ∷ q) r
          ≡ sweep mark_result e.span.start w shared n q r'
    unfolding sweep
    other_step ord w flag g' n q r r' t d m = rw (t, d, m, take_shared_lem g' n) refl

    -- What `sweep` leaves: no item of the run.
    pub record IsSwept (w : Swept DiffResult) : Type 0 where
      pub counted : w.num ≡ num_shared w.queue
      pub at : IsAt es hi dag a b w.ord w.flag w.queue w.state
      pub has_ord : Has e w.ord
      pub below : Below e.span.start w.queue

    pub sweep_lem :
        (ord : ℕ) (flag : DiffFlag) (q : Queue) (r : DiffResult)
        → Has e ord
        → IsAt es hi dag a b ord flag q r
        → (w : Swept DiffResult) × (sweep mark_result e.span.start ord flag (num_shared q) q r
            ≡ done w)
          × IsSwept w
    sweep_lem ord flag [] r c h = (
      record { state = r; ord = ord; flag = flag; num = 0; queue = [] },
      unfold sweep in refl,
      record { counted = refl; at = h; has_ord = c; below = tt },
    )
    sweep_lem ord flag ((w, g') ∷ q) r c h = elim (Bool-cases (ltb w e.span.start)) [
      | inl t ↦
          let l : w < e.span.start = ltb→lt w e.span.start t in
          (
            record {
              state = r;
              ord = ord;
              flag = flag;
              num = num_shared ((w, g') ∷ q);
              queue = (w, g') ∷ q;
            },
            stop_step ord w flag g' (num_shared ((w, g') ∷ q)) q r t,
            record {
              counted = refl;
              at = h;
              has_ord = c;
              below = (l, Below-less e.span.start w q l h.heap.0);
            },
          )
      | inr t ↦
          let l : e.span.start ≤ w = ground (arith, t) in
          elim (Bool-cases (flag_eq g' flag)) [
            | inl d ↦
                let same : IsAt es hi dag a b ord flag ((w, flag) ∷ q) r =
                  subst (λ f. IsAt es hi dag a b ord flag ((w, f) ∷ q) r) (flag_eq_lem g' flag d)
                    h in
                let (v, s, k) =
                  sweep_lem ord flag q r c
                    (same_flag es hi dag a b i e g ord w flag q r c l same) in
                (v, same_step ord w flag g' (num_shared q) q r t d ∙ s, k)
            | inr d ↦
                let (r', m, h') = other_flag es hi dag a b i e g ord w flag g' q r c l d h in
                let c' : Has e w = (l, omega (arith, c.1, h.at_most.0)) in
                let (v, s, k) = sweep_lem w shared q r' c' h' in
                (v, other_step ord w flag g' (num_shared q) q r r' t d m ∙ s, k)
          ]
    ]

    -- The last mark of a run: what is left is the history of the run's parents and of the queue.
    pub run_end :
        (ord : ℕ) (flag : DiffFlag) (q : Queue) (r : DiffResult)
        → Has e ord
        → Below e.span.start q
        → IsAt es hi dag a b ord flag q r
        → (r' : DiffResult) × (mark_result e.span.start ord flag r ≡ done r')
          × IsRanges r'
          × IsPart (expand es) (dag-IsCausal es hi dag) a b e.span.start (written_out r')
          × ((s : Bool) (x : ℕ)
              → x < e.span.start
              → AncOf (expand es) (pick s a b) x
                ↔ Holds (expand es) s (push_all e.parents flag q) x)
    run_end ord flag q r c bl h =
        let flagged : IsFlagged (expand es) (dag-IsCausal es hi dag) a b e.span.start (ord + 1)
            (ord + 1) flag =
          λ s x m n. iff_trans (h.future s x (omega arith)) (
            elim [
              | inl (t, z) ↦ (n, t)
              | inr y ↦ absurd (
                  not-Holds (expand es) (dag-IsCausal es hi dag) a b s q x
                    (Below-le e.span.start x q m bl) y)
            ],
            λ (y, t). inl (t, chain es hi dag i e g ord x c m (omega arith)),
          ) in
        let (r', m, v, p) =
          mark_lem es hi dag a b e.span.start ord flag r h.ranges h.part (inr (c.0))
            (omega (arith, c.0)) flagged in
        (
          r',
          m,
          v,
          p,
          λ s x l.
              let parents = run_history es hi dag i e g ord x c l in
              let (to, from) = push_all-Holds (expand es) s e.parents flag q x in
              iff_trans (h.future s x (omega (arith, c.0))) (
                elim [ inl (t, z) ↦ from (inl (t, parents.0 z)) | inr y ↦ from (inr y) ],
                λ y. elim (to y) [ inl (t, z) ↦ inl (t, parents.1 z) | inr z ↦ inr z ],
              ),
        )
