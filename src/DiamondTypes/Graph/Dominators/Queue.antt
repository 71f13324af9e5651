-- ===== src/DiamondTypes/Graph/Dominators/Queue.antt =====
-- The queue of `find_dominators_full_internal` in tools/diamond-types/src/causalgraph/graph/tools.rs: inputs
-- are even and other versions odd.
use egwalker_paper.Base.{
  ℕ, suc, ◌+◌, ◌*◌, ◌/◌, ◌<◌, ◌≡◌, refl, ap, ◌∙◌, ◌⊎◌, inl, inr, Bool, true, false, ◌||◌, List, [],
  ◌∷◌, leb, ◌==◌, if◌then◌else◌, length, contains, arith, Bool-cases, All,
}
use egwalker_paper.Base.Panic.{done}
use egwalker_paper.DiamondTypes.RleVec.{usize_max}
use egwalker_paper.DiamondTypes.Graph.Tools.{heap_push}
use egwalker_paper.DiamondTypes.Graph.Tools.{Queue as Heap}
use egwalker_paper.DiamondTypes.Graph.Tools.Queue.{
  IsDescending, heap_push-IsDescending, contains-heap_push, All-heap_push,
}
use egwalker_paper.DiamondTypes.Graph.Dominators.{
  enc_input, enc_normal, is_input, version, input_queue, push_normal,
}

-- Every version of the queue is below the bound.
abbrev pub IsBounded : ℕ → Heap → Type 0
IsBounded m q = All (λ c. c < m * 2) q

abbrev pub inputs : Heap → ℕ
inputs [] = 0
inputs (c ∷ q) = if is_input c then suc (inputs q) else inputs q

pub code_cases :
    (c : ℕ)
    → ((is_input c ≡ true) × (c ≡ version c * 2)) ⊎ ((is_input c ≡ false) × (c ≡ version c * 2 + 1))
code_cases c = elim (Bool-cases (is_input c)) [
  | inl t ↦ inl (t, ground (arith, t))
  | inr t ↦ inr (t, ground (arith, t))
]

pub enc-is_input : (v : ℕ) → is_input (enc_input v) ≡ true
enc-is_input v = ground arith

enc-is_normal : (v : ℕ) → is_input (enc_normal v) ≡ false
enc-is_normal v = ground arith

-- An input is not another version.
pub double_apart : (p v : ℕ) → (p * 2 + 1 == v * 2) ≡ false
double_apart p v = ground arith

pub double_eq : (p v : ℕ) → (p * 2 == v * 2) ≡ (p == v)
double_eq p v = ground arith

pub odd_eq : (p v : ℕ) → (p * 2 + 1 == v * 2 + 1) ≡ (p == v)
odd_eq p v = ground arith

pub even_apart : (p v : ℕ) → (p * 2 == v * 2 + 1) ≡ false
even_apart p v = ground arith

inputs-heap_push : (c : ℕ) (q : Heap) → inputs (heap_push c q) ≡ inputs (c ∷ q)
unfolding heap_push
inputs-heap_push c [] = refl
inputs-heap_push c (w ∷ q) = ground (arith, inputs-heap_push c q)

-- A queue with no inputs.
pub no_input : (q : Heap) (y : ℕ) → inputs q ≡ 0 → contains q (y * 2) ≡ false
no_input [] y h = refl
no_input (c ∷ q) y h = elim (code_cases c) [
  | inl (t, e) ↦ absurd (ground (arith, t, h))
  | inr (t, e) ↦
      let apart : (c == y * 2) ≡ false = ground (arith, e) in
      rw apart (no_input q y (ground (arith, t, h)))
]

-- What the queue of the inputs has.
pub record IsInputs (vs : List ℕ) (q : Heap) : Type 0 where
  pub descending : IsDescending q
  pub bounded : (m : ℕ) → All (λ v. v < m) vs → IsBounded m q
  pub has_input : (y : ℕ) → contains q (y * 2) ≡ contains vs y
  pub has_normal : (y : ℕ) → contains q (y * 2 + 1) ≡ false
  pub counted : inputs q ≡ length vs

pub input_queue_lem :
    (vs : List ℕ)
    → All (λ v. v < usize_max / 2) vs
    → (q : Heap) × (input_queue vs ≡ done q) × IsInputs vs q
unfolding input_queue
input_queue_lem [] h = (
  [],
  refl,
  record {
    descending = tt;
    bounded = λ m b. tt;
    has_input = λ y. refl;
    has_normal = λ y. refl;
    counted = refl;
  },
)
input_queue_lem (v ∷ vs) h =
    let (q, e, k) = input_queue_lem vs h.1 in
    let fits : leb (usize_max / 2) v ≡ false = ground (arith, h.0) in
    (
      heap_push (enc_input v) q,
      rw (fits, e) refl,
      record {
        descending = heap_push-IsDescending (enc_input v) q k.descending;
        bounded = λ m b.
            All-heap_push (λ c. c < m * 2) (enc_input v) q (omega (arith, b.0)) (k.bounded m b.1);
        has_input = λ y.
            contains-heap_push (enc_input v) q (y * 2) ∙ rw (double_eq v y, k.has_input y) refl;
        has_normal = λ y.
            contains-heap_push (enc_input v) q (y * 2 + 1)
            ∙ rw (even_apart v y, k.has_normal y) refl;
        counted = inputs-heap_push (enc_input v) q ∙ rw (enc-is_input v, k.counted) refl;
      },
    )

-- What the parents change in a queue.
pub record IsPushed (ps : List ℕ) (q r : Heap) : Type 0 where
  pub descending : IsDescending r
  pub bounded : (m : ℕ) → All (λ p. p < m) ps → IsBounded m q → IsBounded m r
  pub has_input : (y : ℕ) → contains r (y * 2) ≡ contains q (y * 2)
  pub has_normal : (y : ℕ) → contains r (y * 2 + 1) ≡ (contains ps y || contains q (y * 2 + 1))
  pub counted : inputs r ≡ inputs q

or_swap : (a b c : Bool) → (b || (a || c)) ≡ ((a || b) || c)
or_swap true true c = refl
or_swap true false c = refl
or_swap false true c = refl
or_swap false false c = refl

pub push_normal_lem : (ps : List ℕ) (q : Heap) → IsDescending q → IsPushed ps q (push_normal ps q)
unfolding push_normal
push_normal_lem [] q h = record {
  descending = h;
  bounded = λ m b k. k;
  has_input = λ y. refl;
  has_normal = λ y. refl;
  counted = refl;
}
push_normal_lem (p ∷ ps) q h =
    let k =
      push_normal_lem ps (heap_push (enc_normal p) q) (heap_push-IsDescending (enc_normal p) q h) in
    record {
      descending = k.descending;
      bounded = λ m b l.
          k.bounded m b.1 (All-heap_push (λ c. c < m * 2) (enc_normal p) q (omega (arith, b.0)) l);
      has_input = λ y.
          k.has_input y
          ∙ (contains-heap_push (enc_normal p) q (y * 2) ∙ rw (double_apart p y) refl);
      has_normal = λ y.
          k.has_normal y
          ∙ (ap (λ t. contains ps y || t)
                (contains-heap_push (enc_normal p) q (y * 2 + 1) ∙ rw (odd_eq p y) refl)
              ∙ or_swap (p == y) (contains ps y) (contains q (y * 2 + 1)));
      counted = k.counted ∙ (inputs-heap_push (enc_normal p) q ∙ rw (enc-is_normal p) refl);
    }
