-- ===== src/DiamondTypes/Graph/Diff/Rounds.antt =====
-- The rounds of `diff_slow_internal` in tools/diamond-types/src/causalgraph/graph/tools.rs.
use egwalker_paper.Base.{
  ℕ, zero, suc, ◌+◌, ◌≤◌, ◌<◌, ◌≡◌, refl, sym, ap, subst, fun_ext, ◌∙◌, ◌↔◌, ◌==◌, ==_iff, inl, inr,
  Bool, true, false, not, List, [], ◌∷◌, length, if◌then◌else◌, arith, Bool-cases, iff_trans,
}
use egwalker_paper.Base.Panic.{Outcome, done}
use egwalker_paper.OtBench.Graph.{DiffFlag, shared, is_shared, Queue, push_all, absorb}
use egwalker_paper.OtBench.Graph.Ancestors.{AncOf}
use egwalker_paper.OtBench.Graph.Heap.{
  num_shared, shared_count, Below, AtMost, IsHeap, Holds, push_all-Below, push_all-IsHeap,
  num_shared-push_all,
}
use egwalker_paper.OtBench.Graph.Absorb.{pick, take_shared_lem, absorb_lem}
use egwalker_paper.OtBench.Graph.Scan.{Holds-le}
use egwalker_paper.OtBench.Graph.Diff.{IsDiff, shared_queue}
use egwalker_paper.DiamondTypes.Graph.{GraphEntryInternal, find_entry}
use egwalker_paper.DiamondTypes.Graph.Expand.{expand}
use egwalker_paper.DiamondTypes.Graph.Runs.{IsDag, entry_at, dag-IsCausal}
use egwalker_paper.DiamondTypes.Graph.Diff.{DiffResult, Swept, sweep, mark_result, diff_rounds}
use egwalker_paper.DiamondTypes.Graph.Diff.Part.{IsPart, marked, marked-IsPart, whole-IsDiff}
use egwalker_paper.DiamondTypes.Graph.Diff.Mark.{written_out, IsRanges, IsAt}
use egwalker_paper.DiamondTypes.Graph.Diff.Sweep.{sweep_lem, run_end}

Below-AtMost : (m : ℕ) (q : Queue) → Below m q → AtMost m q
Below-AtMost m [] h = tt
Below-AtMost m ((v, f) ∷ q) h = (omega (arith, h.0), Below-AtMost m q h.1)

unmarked : (lo : ℕ) (vs : List ℕ) (s : Bool) → marked s shared lo lo vs ≡ vs
unmarked lo vs true = refl
unmarked lo vs false = refl

module _ (es : List GraphEntryInternal) (hi : ℕ) (dag : IsDag es hi) (a b : List ℕ) where
  abbrev pub IsOutput : DiffResult → Type 0
  IsOutput r = IsRanges r × IsDiff (expand es) a b (written_out r true, written_out r false)

  -- The state between two rounds.
  pub record IsRound (m : ℕ) (q : Queue) (r : DiffResult) : Type 0 where
    pub below : Below m q
    pub heap : IsHeap q
    pub ranges : IsRanges r
    pub part : IsPart (expand es) (dag-IsCausal es hi dag) a b m (written_out r)
    pub future :
        (s : Bool) (x : ℕ) → x < m → AncOf (expand es) (pick s a b) x ↔ Holds (expand es) s q x

  -- Between two rounds no version is in any history.
  gap-IsPart :
      (m ord : ℕ) (flag : DiffFlag) (q : Queue) (r : DiffResult)
      → IsRound m ((ord, flag) ∷ q) r
      → IsPart (expand es) (dag-IsCausal es hi dag) a b (ord + 1) (written_out r)
  gap-IsPart m ord flag q r h =
      let above : (s : Bool) (x : ℕ) → ord + 1 ≤ x → x < m → ¬ AncOf (expand es) (pick s a b) x =
        λ s x l k y. absurd (
          omega (
            arith,
            l,
            Holds-le (expand es) (dag-IsCausal es hi dag) a b s ord ((ord, flag) ∷ q) x
                (omega arith, h.heap.0) ((h.future s x k).0 y),
          )) in
      subst (IsPart (expand es) (dag-IsCausal es hi dag) a b (ord + 1))
        (fun_ext (λ s. unmarked (ord + 1) (written_out r s) s))
        (marked-IsPart (expand es) (dag-IsCausal es hi dag) a b (ord + 1) (ord + 1) m shared
          (written_out r) h.part (omega arith) (omega (arith, h.below.0))
          (λ s x l k. (λ y. absurd (above s x l k y), λ (y, t). absurd (omega arith))))

  start-IsAt :
      (m ord : ℕ) (flag flag' : DiffFlag) (q q' : Queue) (r : DiffResult)
      → IsRound m ((ord, flag) ∷ q) r
      → Below ord q'
      → IsHeap q'
      → ((s : Bool) (x : ℕ)
          → Holds (expand es) s ((ord, flag) ∷ q) x ↔ Holds (expand es) s ((ord, flag') ∷ q') x)
      → IsAt es hi dag a b ord flag' q' r
  start-IsAt m ord flag flag' q q' r h bl hp keeps = record {
    ranges = h.ranges;
    part = gap-IsPart m ord flag q r h;
    at_most = Below-AtMost ord q' bl;
    heap = hp;
    strict = inr bl;
    future = λ s x l. iff_trans (h.future s x (omega (arith, h.below.0))) (keeps s x);
  }

  finish :
      (m : ℕ) (q : Queue) (r : DiffResult) → IsRound m q r → num_shared q ≡ length q → IsOutput r
  finish m q r h e = (
    h.ranges,
    whole-IsDiff (expand es) (dag-IsCausal es hi dag) a b m (written_out r) h.part (λ s x l y.
        (h.future (not s) x l).1 (
          shared_queue (expand es) (dag-IsCausal es hi dag) a b q s (not s) x e
            ((h.future s x l).0 y))),
  )

  -- One round, in the names of its results.
  round_step :
      (fuel ord : ℕ) (flag flag' : DiffFlag) (q q' : Queue) (e : GraphEntryInternal)
      (w : Swept DiffResult) (r r' : DiffResult)
      → absorb ord flag (num_shared q) q ≡ done (flag', num_shared q', q')
      → find_entry es ord ≡ done e
      → sweep mark_result e.span.start ord flag' (num_shared q') q' r ≡ done w
      → w.num ≡ num_shared w.queue
      → mark_result e.span.start w.ord w.flag w.state ≡ done r'
      → let q'' = push_all e.parents w.flag w.queue in
        diff_rounds mark_result (suc fuel) es ((ord, flag) ∷ q) (shared_count flag + num_shared q) r
        ≡ (elim (length q'' == num_shared q'') [
          | true ↦ done r'
          | false ↦ diff_rounds mark_result fuel es q'' (num_shared q'') r'
        ])
  unfolding diff_rounds
  round_step fuel ord flag flag' q q' e w r r' d f s n m =
      rw (take_shared_lem flag (num_shared q), d, f, s, m)
        (ap {B = Outcome DiffResult}
          (λ n. elim (length (push_all e.parents w.flag w.queue) == n) [
            | true ↦ done r'
            | false ↦ diff_rounds mark_result fuel es (push_all e.parents w.flag w.queue) n r'
          ])
          (ap (λ n. if is_shared w.flag then n + length e.parents else n) n
            ∙ sym (num_shared-push_all e.parents w.flag w.queue)))

  pub rounds_lem :
      (fuel m : ℕ) (q : Queue) (r : DiffResult)
      → m < fuel
      → m ≤ hi
      → IsRound m q r
      → (r' : DiffResult) × (diff_rounds mark_result fuel es q (num_shared q) r ≡ done r')
        × IsOutput r'
  rounds_lem zero m q r f l h = absurd (omega arith)
  rounds_lem (suc fuel) m [] r f l h = (r, unfold diff_rounds in refl, finish m [] r h refl)
  rounds_lem (suc fuel) m ((ord, flag) ∷ q) r f l h =
      let (i, e, at, g, c) = entry_at es hi dag ord (omega (arith, h.below.0)) in
      let (flag', q', d, bl, hp, keeps) = absorb_lem (expand es) ord flag q h.heap.0 h.heap.1 in
      let (w, s, swept) =
        sweep_lem es hi dag a b i e g ord flag' q' r c
          (start-IsAt m ord flag flag' q q' r h bl hp keeps) in
      let (r', mk, v, p, fut) =
        run_end es hi dag a b i e g w.ord w.flag w.queue w.state swept.has_ord swept.below
          swept.at in
      let q'' = push_all e.parents w.flag w.queue in
      let step = round_step fuel ord flag flag' q q' e w r r' d at s swept.counted mk in
      let h' : IsRound e.span.start q'' r' = record {
        below =
            push_all-Below e.span.start e.parents w.flag w.queue (dag.sound i e g).below
              swept.below;
        heap = push_all-IsHeap e.parents w.flag w.queue swept.at.heap;
        ranges = v;
        part = p;
        future = fut;
      } in
      let (out, eq, found) =
        rounds_lem fuel e.span.start q'' r' (omega (arith, c.0, h.below.0))
          (omega (arith, c.0, h.below.0)) h' in
      elim (Bool-cases (length q'' == num_shared q'')) [
        | inl t ↦ (
          r',
          step ∙ rw t,
          finish e.span.start q'' r' h' (sym ((==_iff (length q'') (num_shared q'')).0 t)),
        )
        | inr t ↦ (out, step ∙ rw t eq, found)
      ]
