-- ===== src/OtBench/Graph/Diff.antt =====
-- `diff` of tools/ot-bench/src/cg.rs finds the versions that one side has and the other has not.
use egwalker_paper.Base.{
  ℕ, zero, suc, ◌+◌, ◌≤◌, ◌<◌, ◌≡◌, refl, sym, ap, ◌∙◌, subst, fun_ext, ◌↔◌, ◌==◌, inl, inr, Bool,
  true, false, not, List, [], ◌∷◌, some, get_elem?, ltb, ltb→lt, arith, reverse-append, All,
  contains, Bool-cases, length, ==_iff, reverse,
}
use mathlib.Core.Bool.{false≢true}
use egwalker_paper.Base.Panic.{Outcome, done}
use egwalker_paper.OtBench.Frontier.Advance.{IsSorted}
use egwalker_paper.OtBench.Graph.{
  GraphEntryInternal, CausalGraph, DiffFlag, only_a, only_b, shared, Queue, push_all, absorb,
  index_entry, push_a, push_b, DiffResult, diff_loop, diff_rev, diff,
}
use egwalker_paper.OtBench.Graph.Ancestors.{AncOf, IsCausal, Anc-le, All-contains}
use egwalker_paper.OtBench.Graph.Heap.{
  has, shared_count, num_shared, Holds, push_all-Below, push_all-IsHeap, num_shared-push_all,
  push_all-Holds,
}
use egwalker_paper.OtBench.Graph.Absorb.{take_shared_lem, absorb_lem, pick, written}
use egwalker_paper.OtBench.Graph.Scan.{IsScan, step-IsScan, not_yet}

num_shared-le : (q : Queue) → num_shared q ≤ length q
num_shared-le [] = omega arith
num_shared-le ((v, only_a) ∷ q) = omega (arith, num_shared-le q)
num_shared-le ((v, only_b) ∷ q) = omega (arith, num_shared-le q)
num_shared-le ((v, shared) ∷ q) = omega (arith, num_shared-le q)

has-shared : (s : Bool) → has s shared ≡ true
has-shared true = refl
has-shared false = refl

-- The code appends; seen from the other end, it writes in front.
written-push :
    (f : DiffFlag) (idx : ℕ) (av bv : List ℕ) (s : Bool)
    → written s f idx (pick s (reverse av) (reverse bv))
      ≡ pick s (reverse (push_a f idx av)) (reverse (push_b f idx bv))
written-push only_a idx av bv true = sym (reverse-append av (idx ∷ []))
written-push only_a idx av bv false = refl
written-push only_b idx av bv true = refl
written-push only_b idx av bv false = sym (reverse-append bv (idx ∷ []))
written-push shared idx av bv true = refl
written-push shared idx av bv false = refl

index_entry_lem :
    (es : List GraphEntryInternal) (i : ℕ) (e : GraphEntryInternal)
    → get_elem? es i ≡ some e
    → index_entry es i ≡ done e
unfolding index_entry
index_entry_lem es i e h = rw (h, index_entry)

get_elem?-lt :
    (es : List GraphEntryInternal) (i : ℕ)
    → i < length es
    → (e : GraphEntryInternal) × (get_elem? es i ≡ some e)
get_elem?-lt [] i h = absurd (omega arith)
get_elem?-lt (e ∷ es) zero h = (e, refl)
get_elem?-lt (e ∷ es) (suc i) h = get_elem?-lt es i (omega arith)

module _ (es : List GraphEntryInternal) (causal : IsCausal es) (a b : List ℕ) where
  -- The differences of the two histories, each in ascending order.
  record IsDifference (out : Bool → List ℕ) : Type 0 where
    members :
        (s : Bool) (x : ℕ)
        → (contains (out s) x ≡ true) ↔ (AncOf es (pick s a b) x × ¬ AncOf es (pick (not s) a b) x)
    ascending : (s : Bool) → IsSorted (out s)

  -- A queue with items of both flags only holds no version for one side alone.
  pub shared_queue :
      (q : Queue) (s t : Bool) (x : ℕ) → num_shared q ≡ length q → Holds es s q x → Holds es t q x
  shared_queue [] s t x h k = k
  shared_queue ((v, only_a) ∷ q) s t x h k = absurd (omega (arith, num_shared-le q))
  shared_queue ((v, only_b) ∷ q) s t x h k = absurd (omega (arith, num_shared-le q))
  shared_queue ((v, shared) ∷ q) s t x h (inl (k, c)) = inl (has-shared t, c)
  shared_queue ((v, shared) ∷ q) s t x h (inr k) = inr (shared_queue q s t x (omega arith) k)

  finish :
      (m : ℕ) (q : Queue) (out : Bool → List ℕ)
      → IsScan es causal a b m q out
      → num_shared q ≡ length q
      → IsDifference out
  finish m q out sc h = record {
    members = λ s x. elim (Bool-cases (ltb x m)) [
      | inl t ↦
          let l : x < m = ltb→lt x m t in
          (
            λ c. cc (not_yet es causal a b m q out sc s x l),
            λ (p, n). absurd (
                n (
                  (sc.future (not s) x l).1
                    (shared_queue q s (not s) x h ((sc.future s x l).0 p)))),
          )
      | inr t ↦ sc.past s x (ground arith)
    ];
    ascending = sc.sorted;
  }

  abbrev sides : List ℕ → List ℕ → Bool → List ℕ
  sides av bv s = pick s (reverse av) (reverse bv)

  abbrev Finds : Outcome (List ℕ × List ℕ) → Type 0
  Finds run = (av : List ℕ) × (bv : List ℕ) × (run ≡ done (av, bv)) × IsDifference (sides av bv)

  -- One round, in the names of its results.
  diff_round :
      (fuel idx : ℕ) (flag flag' : DiffFlag) (q q' : Queue) (e : GraphEntryInternal)
      (av bv : List ℕ)
      → absorb idx flag (num_shared q) q ≡ done (flag', num_shared q', q')
      → get_elem? es idx ≡ some e
      → let q'' = push_all e.parents flag' q' in
        diff_loop (suc fuel) es ((idx, flag) ∷ q) (shared_count flag + num_shared q) av bv
        ≡ (elim (length q'' == num_shared q'') [
          | true ↦ done (push_a flag' idx av, push_b flag' idx bv)
          | false ↦
              diff_loop fuel es q'' (num_shared q'') (push_a flag' idx av) (push_b flag' idx bv)
        ])
  unfolding diff_loop
  diff_round fuel idx flag flag' q q' e av bv d h =
      rw (take_shared_lem flag (num_shared q), d, index_entry_lem es idx e h)
        (ap {B = Outcome DiffResult}
          (λ n. elim (length (push_all e.parents flag' q') == n) [
            | true ↦ done (push_a flag' idx av, push_b flag' idx bv)
            | false ↦
                diff_loop fuel es (push_all e.parents flag' q') n (push_a flag' idx av)
                  (push_b flag' idx bv)
          ])
          (sym (num_shared-push_all e.parents flag' q')))

  diff_loop_lem :
      (fuel m : ℕ) (q : Queue) (av bv : List ℕ)
      → m < fuel
      → m ≤ length es
      → IsScan es causal a b m q (sides av bv)
      → Finds (diff_loop fuel es q (num_shared q) av bv)
  diff_loop_lem zero m q av bv f l sc = absurd (omega arith)
  diff_loop_lem (suc fuel) m [] av bv f l sc =
      (av, bv, unfold diff_loop in refl, finish m [] (sides av bv) sc refl)
  diff_loop_lem (suc fuel) m ((idx, flag) ∷ q) av bv f l sc =
      let (e, h) = get_elem?-lt es idx (omega (arith, sc.below.0)) in
      let (flag', q', d, bl, hp, keeps) = absorb_lem es idx flag q sc.heap.0 sc.heap.1 in
      let q'' = push_all e.parents flag' q' in
      let av' = push_a flag' idx av in
      let bv' = push_b flag' idx bv in
      let sc' : IsScan es causal a b idx q'' (sides av' bv') =
        subst (IsScan es causal a b idx q'') (fun_ext (written-push flag' idx av bv))
          (step-IsScan es causal a b m idx flag flag' q q' e (sides av bv) sc keeps bl hp h) in
      let (ra, rb, r, found) =
        diff_loop_lem fuel idx q'' av' bv' (omega (arith, sc.below.0)) (omega (arith, sc.below.0))
          sc' in
      elim (Bool-cases (length q'' == num_shared q'')) [
        | inl t ↦ (
          av',
          bv',
          diff_round fuel idx flag flag' q q' e av bv d h ∙ rw t,
          finish idx q'' (sides av' bv') sc' (sym ((==_iff (length q'') (num_shared q'')).0 t)),
        )
        | inr t ↦ (ra, rb, diff_round fuel idx flag flag' q q' e av bv d h ∙ rw t r, found)
      ]

  pub push_start :
      (s : Bool) (x : ℕ)
      → Holds es s (push_all b only_b (push_all a only_a [])) x ↔ AncOf es (pick s a b) x
  push_start true x =
      let (to, from) = push_all-Holds es true b only_b (push_all a only_a []) x in
      let (to1, from1) = push_all-Holds es true a only_a [] x in
      (
        λ h. elim (to h) [
          | inl (k, c) ↦ absurd (cc)
          | inr d ↦ elim (to1 d) [ inl (k, c) ↦ c | inr e ↦ absurd e ]
        ],
        λ c. from (inr (from1 (inl (refl, c)))),
      )
  push_start false x =
      let (to, from) = push_all-Holds es false b only_b (push_all a only_a []) x in
      let (to1, from1) = push_all-Holds es false a only_a [] x in
      (
        λ h. elim (to h) [
          | inl (k, c) ↦ c
          | inr d ↦ elim (to1 d) [ inl (k, c) ↦ absurd (cc) | inr e ↦ absurd e ]
        ],
        λ c. from (inl (refl, c)),
      )

  pub below_end :
      All (λ v. v < length es) a
      → All (λ v. v < length es) b
      → (s : Bool) (x : ℕ) → AncOf es (pick s a b) x
      → x < length es
  below_end ha hb true x (p, c, d) =
      omega (arith, Anc-le es causal d, All-contains (λ v. v < length es) a p ha c)
  below_end ha hb false x (p, c, d) =
      omega (arith, Anc-le es causal d, All-contains (λ v. v < length es) b p hb c)

  no_sides : (s : Bool) → sides [] [] s ≡ []
  no_sides true = refl
  no_sides false = refl

  start-IsScan :
      All (λ v. v < length es) a
      → All (λ v. v < length es) b
      → IsScan es causal a b (length es) (push_all b only_b (push_all a only_a [])) (sides [] [])
  start-IsScan ha hb = record {
    below =
        push_all-Below (length es) b only_b (push_all a only_a []) hb
          (push_all-Below (length es) a only_a [] ha tt);
    heap = push_all-IsHeap b only_b (push_all a only_a []) (push_all-IsHeap a only_a [] tt);
    future = λ s x l. (let (to, from) = push_start s x in (from, to));
    past = λ s x l.
        rw (no_sides s)
          (λ c. absurd (false≢true c), λ (p, n). absurd (omega (arith, below_end ha hb s x p)));
    high = λ s. rw (no_sides s) tt;
    sorted = λ s. rw (no_sides s) tt;
  }

  pub push_start-num : num_shared (push_all b only_b (push_all a only_a [])) ≡ 0
  push_start-num =
      num_shared-push_all b only_b (push_all a only_a []) ∙ num_shared-push_all a only_a []

-- What a call of `diff` is to return: the versions in the history of `a` and not of `b`, and the
-- other way round, each in ascending order.
pub record IsDiff (es : List GraphEntryInternal) (a b : List ℕ) (r : DiffResult) : Type 0 where
  pub a_only : (x : ℕ) → (contains r.0 x ≡ true) ↔ (AncOf es a x × ¬ AncOf es b x)
  pub b_only : (x : ℕ) → (contains r.1 x ≡ true) ↔ (AncOf es b x × ¬ AncOf es a x)
  pub a_ascending : IsSorted r.0
  pub b_ascending : IsSorted r.1

-- In a graph whose parents come before their children, `diff` of two lists of known versions
-- returns a result, with no panic: the versions in the history of the first list and not of the
-- second, and those in the history of the second and not of the first, each in ascending order.
pub diff_lem :
    (g : CausalGraph) (a b : List ℕ)
    → IsCausal g.entries
    → All (λ v. v < length g.entries) a
    → All (λ v. v < length g.entries) b
    → (r : DiffResult) × (diff g a b ≡ done r) × IsDiff g.entries a b r
diff_lem g a b causal ha hb =
    let es = g.entries in
    let (av, bv, e, found) =
      diff_loop_lem es causal a b (suc (length es)) (length es)
        (push_all b only_b (push_all a only_a [])) [] [] (omega arith) (omega arith)
        (start-IsScan es causal a b ha hb) in
    (
      (reverse av, reverse bv),
      unfold diff diff_rev in rw (rw (push_start-num es causal a b) at e),
      record {
        a_only = found.members true;
        b_only = found.members false;
        a_ascending = found.ascending true;
        b_ascending = found.ascending false;
      },
    )
