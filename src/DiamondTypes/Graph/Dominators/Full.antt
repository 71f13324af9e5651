-- ===== src/DiamondTypes/Graph/Dominators/Full.antt =====
-- `find_dominators_full_internal` of tools/diamond-types/src/causalgraph/graph/tools.rs.
use egwalker_paper.Base.{
  ℕ, ◌-◌, ◌/◌, ◌≤◌, ◌<◌, ◌≡◌, refl, sym, ap, subst, ◌∙◌, ◌⊎◌, ◌↔◌, ◌==◌, ==_iff, inl, inr, true,
  false, List, [], ◌∷◌, ltb, leb, length, contains, All, arith, Bool-cases, iff_trans,
}
use mathlib.Core.Bool.{false≢true}
use egwalker_paper.Base.Panic.{Outcome, done}
use egwalker_paper.DiamondTypes.RleVec.{usize_max}
use egwalker_paper.DiamondTypes.Graph.{GraphEntryInternal}
use egwalker_paper.DiamondTypes.Graph.Expand.{expand}
use egwalker_paper.DiamondTypes.Graph.Runs.{IsDag}
use egwalker_paper.DiamondTypes.Graph.Tools.{Queue as Heap}
use egwalker_paper.DiamondTypes.Graph.Diff.{round_fuel}
use egwalker_paper.DiamondTypes.Graph.Diff.Slow.{round_fuel_pos, below_fuel, All-less}
use egwalker_paper.DiamondTypes.Graph.Dominators.{
  Visit, input_queue, dominator_rounds, all_dominators, find_dominators_full_internal,
  push_dominators,
}
use egwalker_paper.DiamondTypes.Graph.Dominators.Queue.{IsInputs, input_queue_lem}
use egwalker_paper.DiamondTypes.Graph.Dominators.Top.{IsTop}
use egwalker_paper.DiamondTypes.Graph.Dominators.Loop.{IsStop, rounds_lem}
use egwalker_paper.DiamondTypes.Graph.Dominators.Steps.{IsFalling}
use egwalker_paper.DiamondTypes.Graph.Dominators.Spec.{IsDominator}

-- A bound of the versions that is within the fuel and the graph.
pub fuel_bound :
    (hi : ℕ) (vs : List ℕ)
    → All (λ v. v < hi) vs
    → (m : ℕ) × (m < round_fuel vs) × (m ≤ hi) × All (λ v. v < m) vs
fuel_bound hi vs h =
    let n = round_fuel vs in
    elim (Bool-cases (ltb hi n)) [
      | inl t ↦ (hi, ground (arith, t), omega arith, h)
      | inr t ↦ (
        n - 1,
        omega (arith, round_fuel_pos vs),
        ground (arith, t),
        All-less n vs (below_fuel n vs (omega arith)),
      )
    ]

push-all_dominators : (vs : List ℕ) → push_dominators (all_dominators vs) ≡ vs
unfolding push_dominators
push-all_dominators [] = refl
push-all_dominators (v ∷ vs) = ap (λ l. v ∷ l) (push-all_dominators vs)

module _ (es : List GraphEntryInternal) (hi : ℕ) (dag : IsDag es hi) where
  -- No version is before the one at which the loop may stop.
  abbrev pub IsStopOf : ℕ → List ℕ → Type 0
  IsStopOf stop vs = ((stop == usize_max) ≡ true) ⊎ ((y : ℕ) → contains vs y ≡ true → stop ≤ y)

  -- The dominators, from the greatest on.
  pub record IsVisited (vs r : List ℕ) : Type 0 where
    pub members : (y : ℕ) → (contains r y ≡ true) ↔ IsDominator (expand es) vs y
    pub falling : IsFalling r

  pub one-IsVisited : (vs : List ℕ) → leb (length vs) 1 ≡ true → IsVisited vs vs
  one-IsVisited [] h = record {
    members = λ y. (λ c. absurd (false≢true c), λ (c, _). absurd (false≢true c));
    falling = tt;
  }
  one-IsVisited (v ∷ []) h = record {
    members = λ y. (λ c. (c, λ w d a. ground (arith, c, d, ==_iff v y, ==_iff v w)), λ (c, _). c);
    falling = (tt, tt);
  }
  one-IsVisited (v ∷ w ∷ vs) h = absurd (ground (arith, h))

  -- The dominators of the first queue are those of the versions.
  start-IsTop :
      (vs : List ℕ) (q : Heap) (y : ℕ)
      → IsInputs vs q
      → IsTop es hi dag q y ↔ IsDominator (expand es) vs y
  start-IsTop vs q y k = (
    λ h. (sym (k.has_input y) ∙ h.input, λ w c a. h.others w (k.has_input w ∙ c) a),
    λ (c, top). record {
      input = k.has_input y ∙ c;
      normal = λ u n a. absurd (false≢true (sym (k.has_normal u) ∙ n));
      others = λ w n a. top w (sym (k.has_input w) ∙ n) a;
    },
  )

  pub few_step :
      (vs : List ℕ) (stop : ℕ)
      → leb (length vs) 1 ≡ true
      → find_dominators_full_internal es vs stop ≡ done (all_dominators vs)
  unfolding find_dominators_full_internal
  few_step vs stop t = rw t refl

  pub many_step :
      (vs : List ℕ) (stop : ℕ) (q : Heap) (o : Outcome (List Visit))
      → leb (length vs) 1 ≡ false
      → input_queue vs ≡ done q
      → dominator_rounds (round_fuel vs) es stop q (length vs) usize_max ≡ o
      → find_dominators_full_internal es vs stop ≡ o
  unfolding find_dominators_full_internal
  many_step vs stop q o t e r = rw (t, e) r

  pub full_internal_lem :
      (vs : List ℕ) (stop : ℕ)
      → All (λ v. v < hi) vs
      → All (λ v. v < usize_max / 2) vs
      → IsStopOf stop vs
      → (visits : List Visit) × (find_dominators_full_internal es vs stop ≡ done visits)
        × IsVisited vs (push_dominators visits)
  full_internal_lem vs stop h fits s = elim (Bool-cases (leb (length vs) 1)) [
    | inl t ↦ (
      all_dominators vs,
      few_step vs stop t,
      subst (IsVisited vs) (sym (push-all_dominators vs)) (one-IsVisited vs t),
    )
    | inr t ↦
        let (m, f, l, b) = fuel_bound hi vs h in
        let (q, e, k) = input_queue_lem vs fits in
        let stops : IsStop es hi dag stop q = elim s [
          | inl u ↦ inl u
          | inr u ↦ inr (λ y c. u y (sym (k.has_input y) ∙ c))
        ] in
        let (visits, r, tops) =
          rounds_lem es hi dag (round_fuel vs) m stop usize_max q f l (k.bounded m b) k.descending
            stops in
        (
          visits,
          many_step vs stop q (done visits) t e (
              ap (λ n. dominator_rounds (round_fuel vs) es stop q n usize_max) (sym k.counted) ∙ r),
          record {
            members = λ y. iff_trans (tops.tops y) (start-IsTop vs q y k);
            falling = tops.falling;
          },
        )
  ]
