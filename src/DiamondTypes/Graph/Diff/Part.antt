-- ===== src/DiamondTypes/Graph/Diff/Part.antt =====
-- The results of `diff` in tools/diamond-types/src/causalgraph/graph/tools.rs as far as they are
-- written: what a marked run adds.
use egwalker_paper.Base.{
  ℕ, zero, suc, ◌+◌, ◌-◌, ◌≤◌, ◌<◌, ◌≡◌, refl, ◌↔◌, inl, inr, Bool, true, false, not, ◌&&◌, ◌||◌,
  List, ◌++◌, ltb, leb, ltb→lt, if◌then◌else◌, contains, All, arith, Bool-cases, iff_trans,
}
use egwalker_paper.OtBench.Frontier.Advance.{IsSorted}
use egwalker_paper.OtBench.Graph.{GraphEntryInternal as Version, DiffFlag}
use egwalker_paper.OtBench.Graph.Ancestors.{AncOf, IsCausal, All-contains}
use egwalker_paper.OtBench.Graph.Heap.{has}
use egwalker_paper.OtBench.Graph.Absorb.{pick}
use egwalker_paper.OtBench.Graph.Scan.{exclusive, All-imp}
use egwalker_paper.OtBench.Graph.Diff.{IsDiff}
use egwalker_paper.DiamondTypes.DtRange.Laws.{upto}

abbrev pub is_only : Bool → DiffFlag → Bool
is_only s f = has s f && not (has (not s) f)

-- The versions from `lo` to before `end`, in front of a side's result if only it has them.
abbrev pub marked : Bool → DiffFlag → ℕ → ℕ → List ℕ → List ℕ
marked s f lo end vs = if is_only s f then upto lo (end - lo) ++ vs else vs

contains-front :
    (s n x : ℕ) (vs : List ℕ)
    → contains (upto s n ++ vs) x ≡ ((leb s x && ltb x (s + n)) || contains vs x)
contains-front s zero x vs = ground arith
contains-front s (suc n) x vs = ground (arith, contains-front (s + 1) n x vs)

All-front :
    (P : ℕ → Type 0) (s n : ℕ) (vs : List ℕ)
    → ((x : ℕ) → s ≤ x → x < s + n → P x)
    → All P vs
    → All P (upto s n ++ vs)
All-front P s zero vs h k = k
All-front P s (suc n) vs h k = (
  h s (omega arith) (omega arith),
  All-front P (s + 1) n vs (λ x l m. h x (omega arith) (omega arith)) k,
)

front-IsSorted :
    (s n : ℕ) (vs : List ℕ) → All (λ y. s + n ≤ y) vs → IsSorted vs → IsSorted (upto s n ++ vs)
front-IsSorted s zero vs h k = k
front-IsSorted s (suc n) vs h k =
    let e : s + suc n ≡ (s + 1) + n = omega arith in
    let h' : All (λ y. (s + 1) + n ≤ y) vs = rw e at h in
    (
      All-front (λ y. s < y) (s + 1) n vs (λ x l m. omega arith)
          (All-imp (λ y. (s + 1) + n ≤ y) (λ y. s < y) vs (λ x l. omega arith) h'),
      front-IsSorted (s + 1) n vs h' k,
    )

contains-marked :
    (s : Bool) (f : DiffFlag) (lo end x : ℕ) (vs : List ℕ)
    → lo ≤ end
    → contains (marked s f lo end vs) x
      ≡ ((is_only s f && (leb lo x && ltb x end)) || contains vs x)
contains-marked s f lo end x vs h =
    let e : lo + (end - lo) ≡ end = omega arith in
    let c = contains-front lo (end - lo) x vs in
    elim (Bool-cases (is_only s f)) [ inl t ↦ rw t (rw e at c) | inr t ↦ rw t refl ]

module _ (full : List Version) (causal : IsCausal full) (a b : List ℕ) where
  -- One side's result, in ascending order, from `m` on.
  pub record IsPart (m : ℕ) (out : Bool → List ℕ) : Type 0 where
    pub past :
        (s : Bool) (x : ℕ)
        → m ≤ x
        → (contains (out s) x ≡ true)
          ↔ (AncOf full (pick s a b) x × ¬ AncOf full (pick (not s) a b) x)
    pub high : (s : Bool) → All (λ y. m ≤ y) (out s)
    pub sorted : (s : Bool) → IsSorted (out s)

  unwritten :
      (m : ℕ) (out : Bool → List ℕ) (s : Bool) (x : ℕ)
      → IsPart m out
      → x < m
      → contains (out s) x ≡ false
  unwritten m out s x p l = elim (Bool-cases (contains (out s) x)) [
    | inl e ↦ absurd (omega (arith, All-contains (λ y. m ≤ y) (out s) x (p.high s) e))
    | inr e ↦ e
  ]

  -- From `lo` to `end` the sides with the flag have every version, and from `end` to `m` none has.
  abbrev pub IsFlagged : ℕ → ℕ → ℕ → DiffFlag → Type 0
  IsFlagged lo end m flag =
      (s : Bool) (x : ℕ)
      → lo ≤ x
      → x < m
      → AncOf full (pick s a b) x ↔ ((x < end) × (has s flag ≡ true))

  flagged_past :
      (lo end m : ℕ) (flag : DiffFlag) (out : Bool → List ℕ)
      → IsPart m out
      → lo ≤ end
      → IsFlagged lo end m flag
      → (s : Bool) (x : ℕ) → lo ≤ x
      → x < m
      → (contains (marked s flag lo end (out s)) x ≡ true)
        ↔ (AncOf full (pick s a b) x × ¬ AncOf full (pick (not s) a b) x)
  flagged_past lo end m flag out p h f s x l k =
      let c = contains-marked s flag lo end x (out s) h in
      let u = unwritten m out s x p k in
      elim (Bool-cases (ltb x end)) [
        | inl t ↦
            let side : (r : Bool) → AncOf full (pick r a b) x ↔ (has r flag ≡ true) =
              λ r. (λ y. ((f r x l k).0 y).1, λ y. (f r x l k).1 (ltb→lt x end t, y)) in
            iff_trans (λ y. ground (arith, c, u, t, y), λ y. ground (arith, c, u, t, y))
              (exclusive full causal a b s flag (side s) (side (not s)))
        | inr t ↦ (
          λ y. absurd (ground (arith, c, u, t, y)),
          λ y. absurd (ground (arith, t, ((f s x l k).0 y.0).0)),
        )
      ]

  -- What a marked run adds to the part that is written.
  pub marked-IsPart :
      (lo end m : ℕ) (flag : DiffFlag) (out : Bool → List ℕ)
      → IsPart m out
      → lo ≤ end
      → end ≤ m
      → IsFlagged lo end m flag
      → IsPart lo (λ s. marked s flag lo end (out s))
  marked-IsPart lo end m flag out p h k f =
      let e : lo + (end - lo) ≡ end = omega arith in
      record {
        past = λ s x l. elim (Bool-cases (ltb x m)) [
          | inl t ↦ flagged_past lo end m flag out p h f s x l (ltb→lt x m t)
          | inr t ↦
              let c = contains-marked s flag lo end x (out s) h in
              iff_trans (λ y. ground (arith, c, t, y), λ y. ground (arith, c, t, y))
                (p.past s x (ground (arith, t)))
        ];
        high = λ s. elim (Bool-cases (is_only s flag)) [
          | inl t ↦ rw t (
              All-front (λ y. lo ≤ y) lo (end - lo) (out s) (λ x l n. l)
                (All-imp (λ y. m ≤ y) (λ y. lo ≤ y) (out s) (λ x l. omega arith) (p.high s)))
          | inr t ↦
              rw t (All-imp (λ y. m ≤ y) (λ y. lo ≤ y) (out s) (λ x l. omega arith) (p.high s))
        ];
        sorted = λ s. elim (Bool-cases (is_only s flag)) [
          | inl t ↦ rw t (
              front-IsSorted lo (end - lo) (out s)
                (All-imp (λ y. m ≤ y) (λ y. lo + (end - lo) ≤ y) (out s) (λ x l. omega (arith, e))
                  (p.high s))
                (p.sorted s))
          | inr t ↦ rw t (p.sorted s)
        ];
      }

  -- Below `m` the sides have the same versions: the part that is written is the whole result.
  pub whole-IsDiff :
      (m : ℕ) (out : Bool → List ℕ)
      → IsPart m out
      → ((s : Bool) (x : ℕ) → x < m → AncOf full (pick s a b) x → AncOf full (pick (not s) a b) x)
      → IsDiff full a b (out true, out false)
  whole-IsDiff m out p h =
      let members : (s : Bool) (x : ℕ)
          → (contains (out s) x ≡ true)
            ↔ (AncOf full (pick s a b) x × ¬ AncOf full (pick (not s) a b) x) =
        λ s x. elim (Bool-cases (ltb x m)) [
          | inl t ↦ (
            λ c. absurd (ground (arith, c, unwritten m out s x p (ltb→lt x m t))),
            λ (y, n). absurd (n (h s x (ltb→lt x m t) y)),
          )
          | inr t ↦ p.past s x (ground (arith, t))
        ] in
      record {
        a_only = members true;
        b_only = members false;
        a_ascending = p.sorted true;
        b_ascending = p.sorted false;
      }
