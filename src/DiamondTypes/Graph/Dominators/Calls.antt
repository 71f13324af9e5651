-- ===== src/DiamondTypes/Graph/Dominators/Calls.antt =====
-- All the calls of the callback of `find_dominators_full` in
-- tools/diamond-types/src/causalgraph/graph/tools.rs.
use egwalker_paper.Base.{
  ℕ, zero, suc, ◌*◌, ◌/◌, ◌≤◌, ◌<◌, ◌≡◌, refl, sym, ap, subst, ◌∙◌, ◌↔◌, ◌==◌, ==_iff, inl, inr,
  true, false, not, ◌&&◌, List, [], ◌∷◌, ◌++◌, leb, length, contains, All, arith, Bool-cases,
  append-nil,
}
use mathlib.Core.Bool.{false≢true}
use egwalker_paper.Base.Panic.{Outcome, done}
use egwalker_paper.OtBench.Graph.Ancestors.{All-contains}
use egwalker_paper.DiamondTypes.RleVec.{usize_max}
use egwalker_paper.DiamondTypes.Graph.{GraphEntryInternal, Graph}
use egwalker_paper.DiamondTypes.Graph.Expand.{expand}
use egwalker_paper.DiamondTypes.Graph.Runs.{IsDag, entry_at}
use egwalker_paper.DiamondTypes.Graph.Tools.{Queue as Heap}
use egwalker_paper.DiamondTypes.Graph.Tools.Queue.{IsDescending}
use egwalker_paper.DiamondTypes.Graph.Dominators.{
  Visit, is_input, version, Taken, push_normal, first_visit, dominator_rounds, push_dominators,
  find_dominators_full, find_dominators_full_internal, all_dominators,
}
use egwalker_paper.DiamondTypes.Graph.Dominators.Queue.{
  IsBounded, inputs, no_input, push_normal_lem,
}
use egwalker_paper.DiamondTypes.Graph.Dominators.Take.{IsTaken, take_run_lem}
use egwalker_paper.DiamondTypes.Graph.Dominators.Loop.{taken-IsNext}
use egwalker_paper.DiamondTypes.Graph.Dominators.Steps.{IsFalling, here, last_step, more_step}
use egwalker_paper.DiamondTypes.Graph.Dominators.Top.{input_iff}
use egwalker_paper.DiamondTypes.Graph.Dominators.Full.{
  fuel_bound, few_step, many_step, full_internal_lem,
}
use egwalker_paper.DiamondTypes.Graph.Dominators.Queue.{input_queue_lem}
use egwalker_paper.DiamondTypes.Graph.Diff.{round_fuel}
use egwalker_paper.DiamondTypes.Graph.Dominators.Spec.{IsDominator}
use egwalker_paper.DiamondTypes.Graph.Dominators.Result.{in_range}
use egwalker_paper.DiamondTypes.Graph.Dominators.Visits.{
  seen, seen-append, IsSeen, AtMostInputs, member_low, take_seen,
}
use egwalker_paper.DiamondTypes.Graph.Dominators.Join.{seen-first, last_of_first, round-IsSeen}

done_eq : (t t' : Taken) → ◌≡◌ {A = Outcome Taken} (done t) (done t') → t ≡ t'
done_eq t t' e = cc

first_last :
    (c last m : ℕ) (q : Heap)
    → m ≤ last
    → IsDescending (c ∷ q)
    → version c < m
    → AtMostInputs (last_of_first c last) q
first_last c last m q la d lt y k =
    let le = member_low c (y * 2) q d.0 (ground (arith, k)) in
    let le' : y ≤ version c = ground (arith, le) in
    elim (Bool-cases (is_input c)) [
      | inl t ↦ let z : last_of_first c last ≡ version c = rw t refl in omega (arith, z, le')
      | inr t ↦ let z : last_of_first c last ≡ last = rw t refl in omega (arith, z, le')
    ]

start_last : (c last m s : ℕ) → m ≤ last → version c < m → s ≤ version c → s ≤ last_of_first c last
start_last c last m s la lt low = elim (Bool-cases (is_input c)) [
  | inl t ↦ let z : last_of_first c last ≡ version c = rw t refl in omega (arith, z)
  | inr t ↦ let z : last_of_first c last ≡ last = rw t refl in omega (arith, z)
]

last_calls :
    (c : ℕ) (visits : List Visit) → here c ++ (seen visits ++ []) ≡ seen (first_visit c ++ visits)
last_calls c visits = sym (
    seen-append (first_visit c) visits
    ∙ (ap (λ l. l ++ seen visits) (seen-first c)
        ∙ ap (λ l. here c ++ l) (sym (append-nil (seen visits)))))

more_calls :
    (c : ℕ) (visits rest : List Visit)
    → here c ++ (seen visits ++ seen rest) ≡ seen (first_visit c ++ (visits ++ rest))
more_calls c visits rest = sym (
    seen-append (first_visit c) (visits ++ rest)
    ∙ (ap (λ l. l ++ seen (visits ++ rest)) (seen-first c)
        ∙ ap (λ l. here c ++ l) (seen-append visits rest)))

module _ (es : List GraphEntryInternal) (hi : ℕ) (dag : IsDag es hi) where
  -- With no version at which it may stop, the loop calls for every input.
  rounds_seen :
      (fuel m last : ℕ) (q : Heap)
      → m < fuel
      → m ≤ hi
      → m ≤ last
      → IsBounded m q
      → IsDescending q
      → (visits : List Visit) × (dominator_rounds fuel es usize_max q (inputs q) last ≡ done visits)
        × IsSeen 0 m q (seen visits)
  rounds_seen zero m last q f l la b d = absurd (omega arith)
  rounds_seen (suc fuel) m last [] f l la b d = (
    [],
    unfold dominator_rounds in refl,
    record {
      each = λ y. (λ a. absurd (false≢true a), λ (a, _, _). absurd (false≢true a));
      below = tt;
      falling = tt;
    },
  )
  rounds_seen (suc fuel) m last (c ∷ q) f l la b d =
      let lt : version c < m = ground (arith, b.0) in
      let (i, e, at, g, has) = entry_at es hi dag (version c) (omega arith) in
      let low : e.span.start ≤ version c = has.0 in
      let on : (not (usize_max == usize_max) && leb e.shadow usize_max) ≡ false = refl in
      let (t, r, k) =
        take_seen e.span.start (last_of_first c last) q d.1 (first_last c last m q la d lt)
          (start_last c last m e.span.start la lt low) in
      let (t', r', k') = take_run_lem e.span.start (last_of_first c last) q d.1 in
      let same : t ≡ t' = done_eq t t' (sym r ∙ r') in
      let kt : IsTaken e.span.start q t = subst (IsTaken e.span.start q) (sym same) k' in
      let p = push_normal_lem e.parents t.queue kt.descending in
      let q' = push_normal e.parents t.queue in
      let n = taken-IsNext es hi dag e.span.start e.parents q q' t kt p in
      let next = input_iff es hi dag i e g c q q' has d n in
      elim (Bool-cases (t.inputs_remaining == 0)) [
        | inl z ↦
            let none_left : inputs t.queue ≡ 0 = ground (arith, z, kt.counted) in
            let left : IsSeen 0 e.span.start q' [] = record {
              each = λ y. (
                λ a. absurd (false≢true a),
                λ (a, _, _).
                    absurd (ground (arith, a, p.has_input y, no_input t.queue y none_left)),
              );
              below = tt;
              falling = tt;
            } in
            (
              first_visit c ++ t.visits,
              last_step fuel es usize_max c q last e t at on r z,
              subst (IsSeen 0 m (c ∷ q)) (last_calls c t.visits) (
                  round-IsSeen c e.span.start m last q q' (seen t.visits) [] lt low la d k.visited
                    left next),
            )
        | inr z ↦
            let (rest, eq, left) =
              rounds_seen fuel e.span.start t.last_emitted q' (omega arith) (omega arith) k.late
                (p.bounded e.span.start (dag.sound i e g).below kt.bounded) p.descending in
            (
              first_visit c ++ (t.visits ++ rest),
              more_step fuel es usize_max c q last e t at on r rest z (
                  ap (λ x. dominator_rounds fuel es usize_max q' x t.last_emitted)
                    (kt.counted ∙ sym p.counted)
                  ∙ eq),
              subst (IsSeen 0 m (c ∷ q)) (more_calls c t.visits rest) (
                  round-IsSeen c e.span.start m last q q' (seen t.visits) (seen rest) lt low la d
                    k.visited left next),
            )
      ]

seen-all_dominators : (vs : List ℕ) → seen (all_dominators vs) ≡ vs
seen-all_dominators [] = refl
seen-all_dominators (v ∷ vs) = ap (λ l. v ∷ l) (seen-all_dominators vs)

-- The calls of `find_dominators_full`: one for each version, from the greatest on, with whether it is
-- a dominator.
pub record IsCalls (es : List GraphEntryInternal) (hi : ℕ) (dag : IsDag es hi) (versions : List ℕ)
    (visits : List Visit) : Type 0 where
  pub each : (y : ℕ) → (contains (seen visits) y ≡ true) ↔ (contains versions y ≡ true)
  pub falling : IsFalling (seen visits)
  pub dominators :
      (y : ℕ) → (contains (push_dominators visits) y ≡ true) ↔ IsDominator (expand es) versions y

few-IsFalling : (vs : List ℕ) → leb (length vs) 1 ≡ true → IsFalling vs
few-IsFalling [] h = tt
few-IsFalling (v ∷ []) h = (tt, tt)
few-IsFalling (v ∷ w ∷ vs) h = absurd (ground (arith, h))

visits_eq : (a b : List Visit) → ◌≡◌ {A = Outcome (List Visit)} (done a) (done b) → a ≡ b
visits_eq a b e = cc

module _ (g : Graph) (hi : ℕ) (dag : IsDag g.entries hi) (fits : hi ≤ usize_max / 2) where
  full_seen :
      (vs : List ℕ)
      → All (λ v. v < hi) vs
      → (visits : List Visit) × (find_dominators_full_internal g.entries vs usize_max ≡ done visits)
        × ((y : ℕ) → (contains (seen visits) y ≡ true) ↔ (contains vs y ≡ true))
        × IsFalling (seen visits)
  full_seen vs h = elim (Bool-cases (leb (length vs) 1)) [
    | inl t ↦
        let e = seen-all_dominators vs in
        (
          all_dominators vs,
          few_step g.entries hi dag vs usize_max t,
          λ y. rw e (λ c. c, λ c. c),
          rw e (few-IsFalling vs t),
        )
    | inr t ↦
        let (m, f, l, b) = fuel_bound hi vs h in
        let (q, e, k) = input_queue_lem vs (in_range g hi dag fits vs h) in
        let (visits, r, s) =
          rounds_seen g.entries hi dag (round_fuel vs) m usize_max q f l (omega arith)
            (k.bounded m b) k.descending in
        (
          visits,
          many_step g.entries hi dag vs usize_max q (done visits) t e (
              ap (λ n. dominator_rounds (round_fuel vs) g.entries usize_max q n usize_max)
                (sym k.counted)
              ∙ r),
          λ y. (
            λ c. sym (k.has_input y) ∙ ((s.each y).0 c).0,
            λ c. (s.each y).1 (k.has_input y ∙ c, omega arith, All-contains (λ v. v < m) vs y b c),
          ),
          s.falling,
        )
  ]

  -- In a well-formed graph whose versions are below half the greatest `usize`, `find_dominators_full`
  -- of known versions, in any order, calls back once for each of them, from the greatest on, and tells
  -- of each whether it is in the history of no other.
  pub find_dominators_full_lem :
      (versions : List ℕ)
      → All (λ v. v < hi) versions
      → (visits : List Visit) × (find_dominators_full g versions ≡ done visits)
        × IsCalls g.entries hi dag versions visits
  unfolding find_dominators_full
  find_dominators_full_lem versions h =
      let (a, e, each, falling) = full_seen versions h in
      let (b, e', k) =
        full_internal_lem g.entries hi dag versions usize_max h (in_range g hi dag fits versions h)
          (inl ((==_iff usize_max usize_max).1 refl)) in
      let same : b ≡ a = visits_eq b a (sym e' ∙ e) in
      (
        a,
        e,
        record {
          each = each;
          falling = falling;
          dominators = λ y.
              subst
                (λ x.
                  (contains (push_dominators x) y ≡ true)
                  ↔ IsDominator (expand g.entries) versions y)
                same (k.members y);
        },
      )
