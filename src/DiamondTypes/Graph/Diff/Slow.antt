-- ===== src/DiamondTypes/Graph/Diff/Slow.antt =====
-- The start of the queue and the result of `diff_slow` in
-- tools/diamond-types/src/causalgraph/graph/tools.rs.
use egwalker_paper.Base.{
  ℕ, ◌+◌, ◌-◌, ◌≤◌, ◌<◌, ◌≡◌, refl, sym, subst, fun_ext, inl, inr, Bool, true, false, not, List, [],
  ◌∷◌, ltb, All, arith, Bool-cases,
}
use mathlib.Core.Bool.{false≢true}
use egwalker_paper.Base.Panic.{done}
use egwalker_paper.OtBench.Graph.{only_a, only_b, push_all}
use egwalker_paper.OtBench.Graph.Ancestors.{AncOf, Anc-le, All-contains}
use egwalker_paper.OtBench.Graph.Heap.{push_all-Below, push_all-IsHeap}
use egwalker_paper.OtBench.Graph.Absorb.{pick}
use egwalker_paper.OtBench.Graph.Diff.{push_start, push_start-num}
use egwalker_paper.DiamondTypes.Graph.{GraphEntryInternal}
use egwalker_paper.DiamondTypes.Graph.Expand.{expand}
use egwalker_paper.DiamondTypes.Graph.Runs.{IsDag, dag-IsCausal}
use egwalker_paper.DiamondTypes.Graph.Diff.{DiffResult, round_fuel, diff_slow_internal, diff_slow}
use egwalker_paper.DiamondTypes.Graph.Diff.Part.{IsPart, whole-IsDiff}
use egwalker_paper.DiamondTypes.Graph.Diff.Mark.{written_out, each_side}
use egwalker_paper.DiamondTypes.Graph.Diff.Rounds.{IsOutput, IsRound, rounds_lem}

pub round_fuel_pos : (vs : List ℕ) → 0 < round_fuel vs
unfolding round_fuel
round_fuel_pos [] = omega arith
round_fuel_pos (v ∷ vs) = omega arith

pub below_fuel : (n : ℕ) (vs : List ℕ) → round_fuel vs ≤ n → All (λ v. v + 1 < n) vs
unfolding round_fuel
below_fuel n [] h = tt
below_fuel n (v ∷ vs) h =
    (omega (arith, round_fuel_pos vs), below_fuel n vs (omega (arith, round_fuel_pos vs)))

pub All-less : (n : ℕ) (vs : List ℕ) → All (λ v. v + 1 < n) vs → All (λ v. v < n - 1) vs
All-less n [] h = tt
All-less n (v ∷ vs) h = (omega (arith, h.0), All-less n vs h.1)

-- A bound of the versions that is within the fuel and the graph.
start_bound :
    (hi : ℕ) (a b : List ℕ)
    → All (λ v. v < hi) a
    → All (λ v. v < hi) b
    → (m : ℕ) × (m < round_fuel a + round_fuel b)
      × (m ≤ hi)
      × All (λ v. v < m) a
      × All (λ v. v < m) b
start_bound hi a b ha hb =
    let n = round_fuel a + round_fuel b in
    elim (Bool-cases (ltb hi n)) [
      | inl t ↦ (hi, ground (arith, t), omega arith, ha, hb)
      | inr t ↦ (
        n - 1,
        omega (arith, round_fuel_pos a),
        ground (arith, t),
        All-less n a (below_fuel n a (omega arith)),
        All-less n b (below_fuel n b (omega arith)),
      )
    ]

module _ (es : List GraphEntryInternal) (hi : ℕ) (dag : IsDag es hi) (a b : List ℕ) where
  side_below :
      (m : ℕ)
      → All (λ v. v < m) a
      → All (λ v. v < m) b
      → (s : Bool) (x : ℕ) → AncOf (expand es) (pick s a b) x
      → x < m
  side_below m ha hb true x (p, c, d) =
      omega
        (arith, Anc-le (expand es) (dag-IsCausal es hi dag) d, All-contains (λ v. v < m) a p ha c)
  side_below m ha hb false x (p, c, d) =
      omega
        (arith, Anc-le (expand es) (dag-IsCausal es hi dag) d, All-contains (λ v. v < m) b p hb c)

  nothing : (s : Bool) → [] ≡ written_out ([], []) s
  nothing true = refl
  nothing false = refl

  pub empty-IsPart :
      (m : ℕ)
      → All (λ v. v < m) a
      → All (λ v. v < m) b
      → IsPart (expand es) (dag-IsCausal es hi dag) a b m (λ s. [])
  empty-IsPart m ha hb = record {
    past = λ s x l.
        (λ c. absurd (false≢true c), λ (y, n). absurd (omega (arith, side_below m ha hb s x y)));
    high = λ s. tt;
    sorted = λ s. tt;
  }

  start-IsRound :
      (m : ℕ)
      → All (λ v. v < m) a
      → All (λ v. v < m) b
      → IsRound es hi dag a b m (push_all b only_b (push_all a only_a [])) ([], [])
  start-IsRound m ha hb = record {
    below =
        push_all-Below m b only_b (push_all a only_a []) hb (push_all-Below m a only_a [] ha tt);
    heap = push_all-IsHeap b only_b (push_all a only_a []) (push_all-IsHeap a only_a [] tt);
    ranges = (tt, tt);
    part =
        subst (IsPart (expand es) (dag-IsCausal es hi dag) a b m) (fun_ext nothing)
          (empty-IsPart m ha hb);
    future = λ s x l.
        (let (to, from) = push_start (expand es) (dag-IsCausal es hi dag) a b s x in (from, to));
  }

  pub diff_slow_lem :
      All (λ v. v < hi) a
      → All (λ v. v < hi) b
      → (r : DiffResult) × (diff_slow es a b ≡ done r) × IsOutput es hi dag a b r
  unfolding diff_slow diff_slow_internal
  diff_slow_lem ha hb =
      let (m, f, l, ma, mb) = start_bound hi a b ha hb in
      let (r, e, out) =
        rounds_lem es hi dag a b (round_fuel a + round_fuel b) m
          (push_all b only_b (push_all a only_a [])) ([], []) f l (start-IsRound m ma mb) in
      (r, rw (push_start-num (expand es) (dag-IsCausal es hi dag) a b) at e, out)

  pub same-IsOutput :
      All (λ v. v < hi) a → All (λ v. v < hi) b → a ≡ b → IsOutput es hi dag a b ([], [])
  same-IsOutput ha hb e =
      let swap : (s : Bool) → pick s a b ≡ pick (not s) a b =
        each_side (λ s. pick s a b) (λ s. pick (not s) a b) e (sym e) in
      (
        (tt, tt),
        whole-IsDiff (expand es) (dag-IsCausal es hi dag) a b hi (λ s. []) (empty-IsPart hi ha hb)
            (λ s x l y. subst (λ vs. AncOf (expand es) vs x) (swap s) y),
      )
