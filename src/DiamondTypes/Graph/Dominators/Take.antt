-- ===== src/DiamondTypes/Graph/Dominators/Take.antt =====
-- The inner loop of `find_dominators_full_internal` in
-- tools/diamond-types/src/causalgraph/graph/tools.rs.
use egwalker_paper.Base.{
  ℕ, suc, ◌*◌, ◌≤◌, ◌<◌, ◌≡◌, refl, ap, ◌∙◌, inl, inr, Bool, true, false, not, ◌&&◌, List, [], ◌∷◌,
  ◌++◌, ltb, ◌==◌, if◌then◌else◌, contains, arith, Bool-cases, All,
}
use egwalker_paper.Base.Panic.{done, checked_sub_lem}
use egwalker_paper.DiamondTypes.Graph.Tools.{Queue as Heap}
use egwalker_paper.DiamondTypes.Graph.Tools.Queue.{IsDescending}
use egwalker_paper.DiamondTypes.Graph.Dominators.{
  Visit, is_input, version, count_input, Taken, take_run, push_dominators,
}
use egwalker_paper.DiamondTypes.Graph.Dominators.Queue.{IsBounded, inputs}

pub count_input_lem : (c : ℕ) (q : Heap) → count_input c (inputs (c ∷ q)) ≡ done (inputs q)
unfolding count_input
count_input_lem c q = elim (Bool-cases (is_input c)) [
  | inl t ↦ rw t (checked_sub_lem (suc (inputs q)) 1 (inputs q) (omega arith))
  | inr t ↦ rw t refl
]

pub push_dominators-append :
    (xs ys : List Visit) → push_dominators (xs ++ ys) ≡ push_dominators xs ++ push_dominators ys
unfolding push_dominators
push_dominators-append [] ys = refl
push_dominators-append ((v, true) ∷ xs) ys = ap (λ l. v ∷ l) (push_dominators-append xs ys)
push_dominators-append ((v, false) ∷ xs) ys = push_dominators-append xs ys

-- What the inner loop leaves of a queue.
pub record IsTaken (start : ℕ) (q : Heap) (t : Taken) : Type 0 where
  pub counted : t.inputs_remaining ≡ inputs t.queue
  pub descending : IsDescending t.queue
  pub bounded : IsBounded start t.queue
  pub rest : (c : ℕ) → contains t.queue c ≡ (contains q c && ltb c (start * 2))
  pub dominated : push_dominators t.visits ≡ []

All-lower : (m n : ℕ) (q : Heap) → n ≤ m → All (λ c. c ≤ n) q → All (λ c. c ≤ m) q
All-lower m n [] h k = tt
All-lower m n (c ∷ q) h k = (omega (arith, k.0), All-lower m n q h k.1)

pub All-below : (m w : ℕ) (q : Heap) → w < m → All (λ c. c ≤ w) q → All (λ c. c < m) q
All-below m w [] h k = tt
All-below m w (c ∷ q) h k = (omega (arith, k.0), All-below m w q h k.1)

pub contains_below :
    (m c : ℕ) (q : Heap) → All (λ d. d < m) q → contains q c ≡ (contains q c && ltb c m)
contains_below m c [] h = refl
contains_below m c (d ∷ q) h = ground (arith, contains_below m c q h.1, h.0)

pub dropped :
    (m c w : ℕ) (q : Heap) → m ≤ w → (contains q c && ltb c m) ≡ (contains (w ∷ q) c && ltb c m)
dropped m c w q h = ground arith

push_dominated :
    (b : Bool) (v : ℕ) (vs : List Visit)
    → push_dominators vs ≡ []
    → push_dominators (if b then (v, false) ∷ vs else vs) ≡ []
unfolding push_dominators
push_dominated true v vs h = h
push_dominated false v vs h = h

pub take_step :
    (start last c n : ℕ) (q : Heap) (t : Taken)
    → ltb (version c) start ≡ false
    → count_input c n ≡ done (inputs q)
    → let fresh = is_input c && not (last == version c) in
      take_run start (if fresh then version c else last) (inputs q) q ≡ done t
      → take_run start last n (c ∷ q)
        ≡ done (record t { visits = if fresh then (version c, false) ∷ t.visits else t.visits })
unfolding take_run
take_step start last c n q t l e r = rw (l, e, r) refl

pub take_stop :
    (start last c n : ℕ) (q : Heap)
    → ltb (version c) start ≡ true
    → take_run start last n (c ∷ q)
      ≡ done (record { visits = []; last_emitted = last; inputs_remaining = n; queue = c ∷ q })
unfolding take_run
take_stop start last c n q l = rw l refl

pub take_run_lem :
    (start last : ℕ) (q : Heap)
    → IsDescending q
    → (t : Taken) × (take_run start last (inputs q) q ≡ done t) × IsTaken start q t
take_run_lem start last [] h = (
  record { visits = []; last_emitted = last; inputs_remaining = 0; queue = [] },
  unfold take_run in refl,
  record {
    counted = refl;
    descending = tt;
    bounded = tt;
    rest = λ c. refl;
    dominated = unfold push_dominators in refl;
  },
)
take_run_lem start last (c ∷ q) h = elim (Bool-cases (ltb (version c) start)) [
  | inl l ↦
      let low : c < start * 2 = ground (arith, l) in
      let below : All (λ d. d < start * 2) (c ∷ q) = (low, All-below (start * 2) c q low h.0) in
      (
        record {
          visits = [];
          last_emitted = last;
          inputs_remaining = inputs (c ∷ q);
          queue = c ∷ q;
        },
        take_stop start last c (inputs (c ∷ q)) q l,
        record {
          counted = refl;
          descending = h;
          bounded = below;
          rest = λ d. contains_below (start * 2) d (c ∷ q) below;
          dominated = unfold push_dominators in refl;
        },
      )
  | inr l ↦
      let high : start * 2 ≤ c = ground (arith, l) in
      let fresh = is_input c && not (last == version c) in
      let (t, e, k) = take_run_lem start (if fresh then version c else last) q h.1 in
      (
        record t { visits = if fresh then (version c, false) ∷ t.visits else t.visits },
        take_step start last c (inputs (c ∷ q)) q t l (count_input_lem c q) e,
        record {
          counted = k.counted;
          descending = k.descending;
          bounded = k.bounded;
          rest = λ d. k.rest d ∙ dropped (start * 2) d c q high;
          dominated = push_dominated fresh (version c) t.visits k.dominated;
        },
      )
]
