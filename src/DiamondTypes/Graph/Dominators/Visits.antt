-- ===== src/DiamondTypes/Graph/Dominators/Visits.antt =====
-- The calls of the callback of `find_dominators_full` in
-- tools/diamond-types/src/causalgraph/graph/tools.rs, those for versions that are no dominators included.
use egwalker_paper.Base.{
  ℕ, ◌*◌, ◌≤◌, ◌<◌, ◌≡◌, refl, sym, ap, subst, ◌∙◌, ◌↔◌, ◌==◌, ==_iff, inl, inr, true, false, not,
  ◌&&◌, List, [], ◌∷◌, ◌++◌, ltb, contains, All, arith, Bool-cases, iff_trans,
}
use mathlib.Core.Bool.{false≢true}
use egwalker_paper.Base.Panic.{done}
use egwalker_paper.OtBench.Graph.Scan.{All-imp}
use egwalker_paper.OtBench.Graph.Ancestors.{All-contains}
use egwalker_paper.DiamondTypes.Graph.Tools.{Queue as Heap}
use egwalker_paper.DiamondTypes.Graph.Tools.Queue.{IsDescending}
use egwalker_paper.DiamondTypes.Graph.Dominators.{Visit, is_input, version, Taken, take_run}
use egwalker_paper.DiamondTypes.Graph.Dominators.Queue.{inputs, code_cases}
use egwalker_paper.DiamondTypes.Graph.Dominators.Take.{count_input_lem, take_step, take_stop}
use egwalker_paper.DiamondTypes.Graph.Dominators.Steps.{IsFalling}

-- The versions of the calls.
abbrev pub seen : List Visit → List ℕ
seen [] = []
seen ((v, dom) ∷ visits) = v ∷ seen visits

pub seen-append : (xs ys : List Visit) → seen (xs ++ ys) ≡ seen xs ++ seen ys
seen-append [] ys = refl
seen-append ((v, dom) ∷ xs) ys = ap (λ l. v ∷ l) (seen-append xs ys)

-- Calls for falling versions below `m` and from `lo` on, for each of the inputs there.
pub record IsSeen (lo m : ℕ) (q : Heap) (r : List ℕ) : Type 0 where
  pub each : (y : ℕ) → (contains r y ≡ true) ↔ ((contains q (y * 2) ≡ true) × (lo ≤ y) × (y < m))
  pub below : All (λ y. y < m) r
  pub falling : IsFalling r

-- The inputs of a queue are at most `last`.
abbrev pub AtMostInputs : ℕ → Heap → Type 0
AtMostInputs last q = (y : ℕ) → contains q (y * 2) ≡ true → y ≤ last

tail_inputs : (last c : ℕ) (q : Heap) → AtMostInputs last (c ∷ q) → AtMostInputs last q
tail_inputs last c q h y k = h y (ground (arith, k))

-- What the inner loop calls for.
pub record IsTakenSeen (start last : ℕ) (q : Heap) (t : Taken) : Type 0 where
  pub visited : IsSeen start last q (seen t.visits)
  pub late : start ≤ t.last_emitted

taken_nothing :
    (start last : ℕ) (q : Heap)
    → ((y : ℕ) → contains q (y * 2) ≡ true → y < start)
    → IsSeen start last q []
taken_nothing start last q h = record {
  each = λ y. (λ c. absurd (false≢true c), λ (c, l, m). absurd (omega (arith, h y c)));
  below = tt;
  falling = tt;
}

-- An item that is not called for.
skip-IsSeen :
    (start last c : ℕ) (q : Heap) (r : List ℕ)
    → ((y : ℕ) → y < last → contains (c ∷ q) (y * 2) ≡ contains q (y * 2))
    → IsSeen start last q r
    → IsSeen start last (c ∷ q) r
skip-IsSeen start last c q r h k = record {
  each = λ y.
      iff_trans (k.each y) (λ (a, l, m). (h y m ∙ a, l, m), λ (a, l, m). (sym (h y m) ∙ a, l, m));
  below = k.below;
  falling = k.falling;
}

-- An input that is called for.
fresh-IsSeen :
    (start last v : ℕ) (q : Heap) (r : List ℕ)
    → start ≤ v
    → v < last
    → AtMostInputs v q
    → IsSeen start v q r
    → IsSeen start last (v * 2 ∷ q) (v ∷ r)
fresh-IsSeen start last v q r l m h k = record {
  each = λ y. (
    λ c. elim (Bool-cases (v == y)) [
      | inl e ↦ (ground (arith, e), ground (arith, e), ground (arith, e))
      | inr e ↦ let (a, l', m') = (k.each y).0 (rw e at c) in (ground (arith, a), l', omega arith)
    ],
    λ (c, l', m'). elim (Bool-cases (v == y)) [
      | inl e ↦ ground (arith, e)
      | inr e ↦
          let a : contains q (y * 2) ≡ true = ground (arith, c, e) in
          let le = h y a in ground (arith, (k.each y).1 (a, l', ground (arith, le, e)))
    ],
  );
  below = (m, All-imp (λ y. y < v) (λ y. y < last) r (λ y n. omega arith) k.below);
  falling = (k.below, k.falling);
}

pub member_low : (c d : ℕ) (q : Heap) → All (λ x. x ≤ c) q → contains (c ∷ q) d ≡ true → d ≤ c
member_low c d q h k = elim (Bool-cases (c == d)) [
  | inl e ↦ ground (arith, e)
  | inr e ↦ All-contains (λ x. x ≤ c) q d h (rw e at k)
]

pub take_seen :
    (start last : ℕ) (q : Heap)
    → IsDescending q
    → AtMostInputs last q
    → start ≤ last
    → (t : Taken) × (take_run start last (inputs q) q ≡ done t) × IsTakenSeen start last q t
take_seen start last [] d h l = (
  record { visits = []; last_emitted = last; inputs_remaining = 0; queue = [] },
  unfold take_run in refl,
  record { visited = taken_nothing start last [] (λ y c. absurd (false≢true c)); late = l },
)
take_seen start last (c ∷ q) d h l = elim (Bool-cases (ltb (version c) start)) [
  | inl low ↦ (
    record { visits = []; last_emitted = last; inputs_remaining = inputs (c ∷ q); queue = c ∷ q },
    take_stop start last c (inputs (c ∷ q)) q low,
    record {
      visited =
          taken_nothing start last (c ∷ q)
            (λ y k. (let le = member_low c (y * 2) q d.0 k in ground (arith, low, le)));
      late = l;
    },
  )
  | inr high ↦
      let s : start ≤ version c = ground (arith, high) in
      let fresh = is_input c && not (last == version c) in
      elim (Bool-cases fresh) [
        | inl f ↦ elim (code_cases c) [
          | inr (n, _) ↦ absurd (ground (arith, f, n))
          | inl (_, code) ↦
              let low : AtMostInputs (version c) q = λ y k.
                (let le = member_low c (y * 2) q d.0 (ground (arith, k)) in ground (arith, le)) in
              let mine : contains (c ∷ q) (version c * 2) ≡ true =
                ground (arith, (==_iff c (version c * 2)).1 code) in
              let lt : version c < last = ground (arith, f, h (version c) mine) in
              let (t, e, k) = take_seen start (version c) q d.1 low s in
              (
                record t { visits = (version c, false) ∷ t.visits },
                fresh_step start last c q t high f e,
                record {
                  visited =
                      subst (λ x. IsSeen start last (x ∷ q) (version c ∷ seen t.visits)) (sym code)
                        (fresh-IsSeen start last (version c) q (seen t.visits) s lt low k.visited);
                  late = k.late;
                },
              )
        ]
        | inr f ↦
            let (t, e, k) = take_seen start last q d.1 (tail_inputs last c q h) l in
            (
              t,
              stale_step start last c q t high f e,
              record {
                visited =
                    skip-IsSeen start last c q (seen t.visits) (not_mine last c q f) k.visited;
                late = k.late;
              },
            )
      ]
]
  where
    fresh_step :
        (start last c : ℕ) (q : Heap) (t : Taken)
        → ltb (version c) start ≡ false
        → (is_input c && not (last == version c)) ≡ true
        → take_run start (version c) (inputs q) q ≡ done t
        → take_run start last (inputs (c ∷ q)) (c ∷ q)
          ≡ done (record t { visits = (version c, false) ∷ t.visits })
    fresh_step start last c q t l f e =
        rw f at (take_step start last c (inputs (c ∷ q)) q t l (count_input_lem c q)) e

    stale_step :
        (start last c : ℕ) (q : Heap) (t : Taken)
        → ltb (version c) start ≡ false
        → (is_input c && not (last == version c)) ≡ false
        → take_run start last (inputs q) q ≡ done t
        → take_run start last (inputs (c ∷ q)) (c ∷ q) ≡ done t
    stale_step start last c q t l f e =
        rw f at (take_step start last c (inputs (c ∷ q)) q t l (count_input_lem c q)) e

    -- The item is no input, or the input that was called for before.
    not_mine :
        (last c : ℕ) (q : Heap)
        → (is_input c && not (last == version c)) ≡ false
        → (y : ℕ) → y < last
        → contains (c ∷ q) (y * 2) ≡ contains q (y * 2)
    not_mine last c q f y l = elim (code_cases c) [
      | inl (t, e) ↦ let apart : (c == y * 2) ≡ false = ground (arith, t, e, f) in rw apart refl
      | inr (t, e) ↦ let apart : (c == y * 2) ≡ false = ground (arith, e) in rw apart refl
    ]
