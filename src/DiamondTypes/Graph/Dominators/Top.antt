-- ===== src/DiamondTypes/Graph/Dominators/Top.antt =====
-- Which versions of the queue of `find_dominators_full_internal` in
-- tools/diamond-types/src/causalgraph/graph/tools.rs are dominators.
use egwalker_paper.Base.{
  ℕ, ◌+◌, ◌*◌, ◌≤◌, ◌<◌, ◌≡◌, refl, sym, subst, ◌⊎◌, ◌↔◌, inl, inr, true, ◌&&◌, ◌||◌, List, ◌∷◌,
  some, ltb, ltb→lt, ◌==◌, ==_iff, contains, get_elem?, arith, Bool-cases, All,
}
use egwalker_paper.OtBench.Graph.Ancestors.{Anc, Anc-le, All-contains}
use egwalker_paper.DiamondTypes.Graph.{GraphEntryInternal}
use egwalker_paper.DiamondTypes.Graph.Expand.{expand}
use egwalker_paper.DiamondTypes.Graph.Runs.{Has, IsDag, run_history, dag-IsCausal}
use egwalker_paper.DiamondTypes.Graph.Chain.{chain}
use egwalker_paper.DiamondTypes.Graph.Tools.{Queue as Heap}
use egwalker_paper.DiamondTypes.Graph.Tools.Queue.{IsDescending}
use egwalker_paper.DiamondTypes.Graph.Dominators.{is_input, version}
use egwalker_paper.DiamondTypes.Graph.Dominators.Queue.{code_cases}
use egwalker_paper.DiamondTypes.Graph.Dominators.Take.{dropped}

module _ (es : List GraphEntryInternal) (hi : ℕ) (dag : IsDag es hi) where
  -- `y` is an input in the history of no other version of the queue.
  pub record IsTop (q : Heap) (y : ℕ) : Type 0 where
    pub input : contains q (y * 2) ≡ true
    pub normal : (u : ℕ) → contains q (u * 2 + 1) ≡ true → ¬ Anc (expand es) u y
    pub others : (w : ℕ) → contains q (w * 2) ≡ true → Anc (expand es) w y → w ≡ y

  -- The queue of the next round.
  pub record IsNext (start : ℕ) (ps : List ℕ) (q r : Heap) : Type 0 where
    pub has_input : (y : ℕ) → contains r (y * 2) ≡ (contains q (y * 2) && ltb (y * 2) (start * 2))
    pub has_normal :
        (y : ℕ)
        → contains r (y * 2 + 1)
          ≡ (contains ps y || (contains q (y * 2 + 1) && ltb (y * 2 + 1) (start * 2)))

  pub member_le : (c d : ℕ) (q : Heap) → All (λ x. x ≤ c) q → contains (c ∷ q) d ≡ true → d ≤ c
  member_le c d q h k = elim (Bool-cases (c == d)) [
    | inl e ↦ ground (arith, e)
    | inr e ↦ All-contains (λ x. x ≤ c) q d h (rw e at k)
  ]

  -- The greatest version of the queue is a dominator if it is there as an input only.
  pub head-IsTop : (v : ℕ) (q : Heap) → IsDescending (v * 2 ∷ q) → IsTop (v * 2 ∷ q) v
  head-IsTop v q h = record {
    input = ground (arith, (==_iff (v * 2) (v * 2)).1 refl);
    normal = λ u k a. absurd (
        omega (
          arith,
          member_le (v * 2) (u * 2 + 1) q h.0 k,
          Anc-le (expand es) (dag-IsCausal es hi dag) a,
        ));
    others = λ w k a.
        omega
          (arith, member_le (v * 2) (w * 2) q h.0 k, Anc-le (expand es) (dag-IsCausal es hi dag) a);
  }

  pub input-IsTop :
      (c y : ℕ) (q : Heap)
      → IsDescending (c ∷ q)
      → is_input c ≡ true
      → version c ≡ y
      → IsTop (c ∷ q) y
  input-IsTop c y q falling t same = elim (code_cases c) [
    | inr (f, _) ↦ absurd (ground (arith, t, f))
    | inl (_, d) ↦ subst (IsTop (c ∷ q)) same (
        subst (λ x. IsTop (x ∷ q) (version c)) (sym d)
          (head-IsTop (version c) q (subst (λ x. IsDescending (x ∷ q)) d falling)))
  ]

  -- A version with the greatest version of the queue above it is no dominator.
  pub top_head :
      (c y : ℕ) (q : Heap)
      → IsTop (c ∷ q) y
      → Anc (expand es) (version c) y
      → (is_input c ≡ true) × (version c ≡ y)
  top_head c y q h a = elim (code_cases c) [
    | inl (t, e) ↦
        let there : contains (c ∷ q) (version c * 2) ≡ true =
          ground (arith, (==_iff c (version c * 2)).1 e) in
        (t, h.others (version c) there a)
    | inr (t, e) ↦
        let there : contains (c ∷ q) (version c * 2 + 1) ≡ true =
          ground (arith, (==_iff c (version c * 2 + 1)).1 e) in
        absurd (h.normal (version c) there a)
  ]

  module _ (i : ℕ) (e : GraphEntryInternal) (g : get_elem? es i ≡ some e) (c : ℕ) (q r : Heap)
      (has : Has e (version c)) (falling : IsDescending (c ∷ q))
      (next : IsNext e.span.start e.parents q r) where
    start_le : e.span.start * 2 ≤ c
    start_le = ground (arith, has.0)

    -- What the next queue has of the queue.
    pub input_iff :
        (y : ℕ)
        → (contains r (y * 2) ≡ true) ↔ ((contains (c ∷ q) (y * 2) ≡ true) × (y < e.span.start))
    input_iff y =
        let d = dropped (e.span.start * 2) (y * 2) c q start_le in
        let k = next.has_input y in
        (λ h. (ground (arith, d, k, h), ground (arith, k, h)), λ (h, l). ground (arith, d, k, h, l))

    normal_iff :
        (u : ℕ)
        → (contains r (u * 2 + 1) ≡ true) ↔ (
            (contains e.parents u ≡ true)
            ⊎ ((contains (c ∷ q) (u * 2 + 1) ≡ true) × (u < e.span.start)))
    normal_iff u =
        let d = dropped (e.span.start * 2) (u * 2 + 1) c q start_le in
        let k = next.has_normal u in
        (
          λ h. elim (Bool-cases (contains e.parents u)) [
            | inl t ↦ inl t
            | inr t ↦ inr (ground (arith, d, k, h, t), ground (arith, k, h, t))
          ],
          elim [ inl t ↦ ground (arith, k, t) | inr (h, l) ↦ ground (arith, d, k, h, l) ],
        )

    -- A version of the queue in the run has the history of a parent below it.
    below_run :
        (u y : ℕ)
        → e.span.start ≤ u
        → u ≤ version c
        → y < e.span.start
        → Anc (expand es) u y
        → IsTop r y
        → ⊥
    below_run u y l m k a h =
        let (p, t, b) = (run_history es hi dag i e g u y (l, omega (arith, has.1)) k).0 a in
        h.normal p ((normal_iff p).1 (inl t)) b

    pub IsTop-next :
        (y : ℕ) → IsTop (c ∷ q) y ↔ (((is_input c ≡ true) × (version c ≡ y)) ⊎ IsTop r y)
    IsTop-next y = (
      λ h.
          (let le : y * 2 ≤ c = member_le c (y * 2) q falling.0 h.input in
            let le' : y ≤ version c = ground (arith, le) in
            elim (Bool-cases (ltb y e.span.start)) [
              | inr t ↦ inl (
                  top_head c y q h
                    (chain es hi dag i e g (version c) y has (ground (arith, t)) le'))
              | inl t ↦
                  let l : y < e.span.start = ltb→lt y e.span.start t in
                  inr (record {
                    input = (input_iff y).1 (h.input, l);
                    normal = λ u k a. elim ((normal_iff u).0 k) [
                      | inl p ↦
                          let (_, same) =
                            top_head c y q h
                              ((run_history es hi dag i e g (version c) y has l).1 (u, p, a)) in
                          absurd (omega (arith, has.0, same))
                      | inr p ↦ h.normal u p.0 a
                    ];
                    others = λ w k a. h.others w ((input_iff w).0 k).0 a;
                  })
            ]),
      elim [
        | inl (t, same) ↦ input-IsTop c y q falling t same
        | inr h ↦
            let (there, l) = (input_iff y).0 h.input in
            record {
              input = there;
              normal = λ u k a. elim (Bool-cases (ltb u e.span.start)) [
                | inl t ↦ h.normal u ((normal_iff u).1 (inr (k, ltb→lt u e.span.start t))) a
                | inr t ↦
                    let le = member_le c (u * 2 + 1) q falling.0 k in
                    below_run u y (ground (arith, t)) (ground (arith, le)) l a h
              ];
              others = λ w k a. elim (Bool-cases (ltb w e.span.start)) [
                | inl t ↦ h.others w ((input_iff w).1 (k, ltb→lt w e.span.start t)) a
                | inr t ↦
                    let le = member_le c (w * 2) q falling.0 k in
                    absurd (below_run w y (ground (arith, t)) (ground (arith, le)) l a h)
              ];
            }
      ],
    )
