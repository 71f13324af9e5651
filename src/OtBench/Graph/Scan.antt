-- ===== src/OtBench/Graph/Scan.antt =====
-- The invariant of the outer loop of `diff_rev` in tools/ot-bench/src/cg.rs, and that a round keeps
-- it.
use egwalker_paper.Base.{
  iff_trans, ℕ, ◌≤◌, ◌<◌, ◌≡◌, ◌↔◌, ◌==◌, inl, inr, Bool, true, false, not, List, [], ◌∷◌, some,
  get_elem?, ltb, ltb→lt, ◌&&◌, ◌||◌, arith, All, contains, Bool-cases, ==_iff,
}
use egwalker_paper.OtBench.Frontier.Advance.{IsSorted}
use egwalker_paper.OtBench.Graph.{GraphEntryInternal, DiffFlag, Queue, push_all}
use egwalker_paper.OtBench.Graph.Ancestors.{
  self, up, AncOf, IsCausal, Anc-le, Anc-parents, All-contains,
}
use egwalker_paper.OtBench.Graph.Heap.{
  has, Below, AtMost, IsHeap, Holds, push_all-Below, push_all-IsHeap, push_all-Holds,
}
use egwalker_paper.OtBench.Graph.Absorb.{pick, written}

contains-written :
    (s : Bool) (f : DiffFlag) (idx : ℕ) (vs : List ℕ) (x : ℕ)
    → contains (written s f idx vs) x
      ≡ (((has s f && not (has (not s) f)) && (idx == x)) || contains vs x)
contains-written s f idx vs x = ground arith

All-written :
    (P : ℕ → Type 0) (s : Bool) (f : DiffFlag) (idx : ℕ) (vs : List ℕ)
    → P idx
    → All P vs
    → All P (written s f idx vs)
All-written P s f idx vs p h = ground arith

written-IsSorted :
    (s : Bool) (f : DiffFlag) (idx : ℕ) (vs : List ℕ)
    → All (λ y. idx < y) vs
    → IsSorted vs
    → IsSorted (written s f idx vs)
written-IsSorted s f idx vs h k = ground arith

pub All-imp : (P Q : ℕ → Type 0) (xs : List ℕ) → ((x : ℕ) → P x → Q x) → All P xs → All Q xs
All-imp P Q [] f h = tt
All-imp P Q (x ∷ xs) f h = (f x h.0, All-imp P Q xs f h.1)

module _ (es : List GraphEntryInternal) (causal : IsCausal es) (a b : List ℕ) where
  -- `m` bounds the versions that are still to be visited; `out` is one side's result, reversed.
  pub record IsScan (m : ℕ) (q : Queue) (out : Bool → List ℕ) : Type 0 where
    pub below : Below m q
    pub heap : IsHeap q
    pub future : (s : Bool) (x : ℕ) → x < m → AncOf es (pick s a b) x ↔ Holds es s q x
    pub past :
        (s : Bool) (x : ℕ)
        → m ≤ x
        → (contains (out s) x ≡ true) ↔ (AncOf es (pick s a b) x × ¬ AncOf es (pick (not s) a b) x)
    pub high : (s : Bool) → All (λ y. m ≤ y) (out s)
    pub sorted : (s : Bool) → IsSorted (out s)

  step_future :
      (m idx : ℕ) (flag flag' : DiffFlag) (q q' : Queue) (e : GraphEntryInternal)
      (out : Bool → List ℕ)
      → IsScan m ((idx, flag) ∷ q) out
      → ((s : Bool) (x : ℕ) → Holds es s ((idx, flag) ∷ q) x ↔ Holds es s ((idx, flag') ∷ q') x)
      → get_elem? es idx ≡ some e
      → (s : Bool) (x : ℕ) → x < idx
      → AncOf es (pick s a b) x ↔ Holds es s (push_all e.parents flag' q') x
  step_future m idx flag flag' q q' e out sc f h s x l =
      let (to, from) = push_all-Holds es s e.parents flag' q' x in
      iff_trans (sc.future s x (omega (arith, sc.below.0))) (
        iff_trans (f s x) (
          elim [
            | inl (k, c) ↦ from (inl (k, Anc-parents es causal e h l c))
            | inr d ↦ from (inr d)
          ],
          λ d. elim (to d) [ inl (k, (p, c, c')) ↦ inl (k, up e p h c c') | inr d' ↦ inr d' ],
        ))

  pub Holds-le : (s : Bool) (m : ℕ) (q : Queue) (x : ℕ) → AtMost m q → Holds es s q x → x ≤ m
  Holds-le s m [] x b h = absurd h
  Holds-le s m ((v, f) ∷ q) x b (inl (k, c)) = omega (arith, Anc-le es causal c, b.0)
  Holds-le s m ((v, f) ∷ q) x b (inr h) = Holds-le s m q x b.1 h

  pub not-Holds : (s : Bool) (q : Queue) (x : ℕ) → Below x q → ¬ Holds es s q x
  not-Holds s [] x b h = h
  not-Holds s ((v, f) ∷ q) x b (inl (k, c)) = absurd (omega (arith, Anc-le es causal c, b.0))
  not-Holds s ((v, f) ∷ q) x b (inr h) = not-Holds s q x b.1 h

  -- The version that a round visits is in the history of the sides in its flag.
  visited :
      (m idx : ℕ) (flag flag' : DiffFlag) (q q' : Queue) (out : Bool → List ℕ)
      → IsScan m ((idx, flag) ∷ q) out
      → ((s : Bool) (x : ℕ) → Holds es s ((idx, flag) ∷ q) x ↔ Holds es s ((idx, flag') ∷ q') x)
      → Below idx q'
      → (s : Bool) → AncOf es (pick s a b) idx ↔ (has s flag' ≡ true)
  visited m idx flag flag' q q' out sc f bl s = iff_trans (sc.future s idx sc.below.0) (
      iff_trans (f s idx)
        (elim [ inl (k, c) ↦ k | inr d ↦ absurd (not-Holds s q' idx bl d) ], λ k. inl (k, self)))

  pub exclusive :
      (s : Bool) (f : DiffFlag) {A B : Type 0}
      → A ↔ (has s f ≡ true)
      → B ↔ (has (not s) f ≡ true)
      → ((has s f && not (has (not s) f)) ≡ true) ↔ (A × ¬ B)
  exclusive s f (ta, fa) (tb, fb) = (
    λ h. (fa (ground arith), λ y. let k : has (not s) f ≡ true = tb y in ground arith),
    λ (x, nb). elim (Bool-cases (has (not s) f)) [
      | inl e ↦ absurd (nb (fb e))
      | inr e ↦ let k : has s f ≡ true = ta x in ground arith
    ],
  )

  pub not_yet :
      (m : ℕ) (q : Queue) (out : Bool → List ℕ)
      → IsScan m q out
      → (s : Bool) (x : ℕ) → x < m
      → contains (out s) x ≡ false
  not_yet m q out sc s x l = elim (Bool-cases (contains (out s) x)) [
    | inl e ↦ absurd (omega (arith, All-contains (λ y. m ≤ y) (out s) x (sc.high s) e))
    | inr e ↦ e
  ]

  -- The version of this round is written for the side that alone has it.
  past_here :
      (s : Bool) (flag' : DiffFlag) (idx : ℕ) (vs : List ℕ)
      → contains vs idx ≡ false
      → (contains (written s flag' idx vs) idx ≡ true)
        ↔ ((has s flag' && not (has (not s) flag')) ≡ true)
  past_here s flag' idx vs h = (
    λ c. ground (arith, contains-written s flag' idx vs idx),
    λ c. ground (arith, contains-written s flag' idx vs idx),
  )

  past_other :
      (s : Bool) (flag' : DiffFlag) (idx : ℕ) (vs : List ℕ) (x : ℕ)
      → (idx == x) ≡ false
      → (contains (written s flag' idx vs) x ≡ true) ↔ (contains vs x ≡ true)
  past_other s flag' idx vs x h = (
    λ c. ground (arith, contains-written s flag' idx vs x),
    λ c. ground (arith, contains-written s flag' idx vs x),
  )

  -- Between two rounds no version is in any history.
  pub gap :
      (m idx : ℕ) (flag : DiffFlag) (q : Queue) (out : Bool → List ℕ)
      → IsScan m ((idx, flag) ∷ q) out
      → (s : Bool) (x : ℕ) → idx < x
      → x < m
      → ¬ AncOf es (pick s a b) x
  gap m idx flag q out sc s x l h p = absurd (
      omega (
        arith,
        Holds-le s idx ((idx, flag) ∷ q) x (omega arith, sc.heap.0) ((sc.future s x h).0 p),
      ))

  step_past :
      (m idx : ℕ) (flag flag' : DiffFlag) (q q' : Queue) (out : Bool → List ℕ)
      → IsScan m ((idx, flag) ∷ q) out
      → ((s : Bool) (x : ℕ) → Holds es s ((idx, flag) ∷ q) x ↔ Holds es s ((idx, flag') ∷ q') x)
      → Below idx q'
      → (s : Bool) (x : ℕ) → idx ≤ x
      → (contains (written s flag' idx (out s)) x ≡ true)
        ↔ (AncOf es (pick s a b) x × ¬ AncOf es (pick (not s) a b) x)
  step_past m idx flag flag' q q' out sc f bl s x l = elim (Bool-cases (idx == x)) [
    | inl e ↦ rw (← (==_iff idx x).0 e) (
        iff_trans
          (past_here s flag' idx (out s) (not_yet m ((idx, flag) ∷ q) out sc s idx sc.below.0))
          (exclusive s flag' (visited m idx flag flag' q q' out sc f bl s)
            (visited m idx flag flag' q q' out sc f bl (not s))))
    | inr e ↦ iff_trans (past_other s flag' idx (out s) x e) (elim (Bool-cases (ltb x m)) [
      | inl t ↦
          let h : x < m = ltb→lt x m t in
          (
            λ c. cc (not_yet m ((idx, flag) ∷ q) out sc s x h),
            λ (p, n). absurd (gap m idx flag q out sc s x (ground arith) h p),
          )
      | inr t ↦ sc.past s x (ground arith)
    ])
  ]

  pub step-IsScan :
      (m idx : ℕ) (flag flag' : DiffFlag) (q q' : Queue) (e : GraphEntryInternal)
      (out : Bool → List ℕ)
      → IsScan m ((idx, flag) ∷ q) out
      → ((s : Bool) (x : ℕ) → Holds es s ((idx, flag) ∷ q) x ↔ Holds es s ((idx, flag') ∷ q') x)
      → Below idx q'
      → IsHeap q'
      → get_elem? es idx ≡ some e
      → IsScan idx (push_all e.parents flag' q') (λ s. written s flag' idx (out s))
  step-IsScan m idx flag flag' q q' e out sc f bl hp h = record {
    below = push_all-Below idx e.parents flag' q' (causal idx e h) bl;
    heap = push_all-IsHeap e.parents flag' q' hp;
    future = step_future m idx flag flag' q q' e out sc f h;
    past = step_past m idx flag flag' q q' out sc f bl;
    high = λ s.
        All-written (λ y. idx ≤ y) s flag' idx (out s) (omega arith)
          (All-imp (λ y. m ≤ y) (λ y. idx ≤ y) (out s) (λ x l. omega (arith, sc.below.0))
            (sc.high s));
    sorted = λ s.
        written-IsSorted s flag' idx (out s)
          (All-imp (λ y. m ≤ y) (λ y. idx < y) (out s) (λ x l. omega (arith, sc.below.0))
            (sc.high s))
          (sc.sorted s);
  }
