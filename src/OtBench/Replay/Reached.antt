-- ===== src/OtBench/Replay/Reached.antt =====
-- The version that the loops of the replay in tools/ot-bench/src/main.rs have reached: the history of
-- the version that they go to, without what is left to add.
use egwalker_paper.Base.{
  ℕ, ◌<◌, ◌≡◌, refl, sym, subst, ◌↔◌, inl, inr, true, false, not, ◌&&◌, ◌||◌, List, [], ◌∷◌, some,
  ◌==◌, ==_iff, contains, get_elem?, length, arith, Bool-cases, All,
}
use egwalker_paper.Base.Panic.{done}
use egwalker_paper.OtBench.Frontier.{Frontier}
use egwalker_paper.OtBench.Frontier.Advance.{IsSorted, advance_lem}
use egwalker_paper.OtBench.Graph.{CausalGraph, GraphEntryInternal, DiffResult, advance_by}
use egwalker_paper.OtBench.Graph.Ancestors.{
  Anc, self, up, AncOf, IsCausal, Anc-le, Anc-parents, All-contains,
}
use egwalker_paper.OtBench.Graph.Diff.{IsDiff, diff_lem}
use egwalker_paper.OtBench.Replay.Entries.{entry_at, advance_by_lem}
use egwalker_paper.DiamondTypes.Graph.Runs.{Anc-trans}
use egwalker_paper.DiamondTypes.Frontier.Uncovered.{IsMinimal}
use egwalker_paper.OtBench.Frontier.Sorted.{sorted_ext}

pub All-intro : (P : ℕ → Type 0) (xs : List ℕ) → ((x : ℕ) → contains xs x ≡ true → P x) → All P xs
All-intro P [] h = tt
All-intro P (x ∷ xs) h =
    (h x (ground (arith, (==_iff x x).1 refl)), All-intro P xs (λ y c. h y (ground (arith, c))))

above_not : (x : ℕ) (xs : List ℕ) → All (λ y. x < y) xs → contains xs x ≡ false
above_not x [] h = refl
above_not x (y ∷ ys) h = ground (arith, h.0, above_not x ys h.1)

below_not : (p x : ℕ) (xs : List ℕ) → p < x → All (λ y. x < y) xs → contains (x ∷ xs) p ≡ false
below_not p x [] l h = ground (arith, l)
below_not p x (y ∷ ys) l h = ground (arith, l, h.0, below_not p x ys l h.1)

pub record IsReached (es : List GraphEntryInternal) (v rem : List ℕ) (pv : Frontier) : Type 0 where
  pub sorted : IsSorted pv
  pub minimal : IsMinimal es pv
  pub history : (x : ℕ) → AncOf es pv x ↔ (AncOf es v x × (contains rem x ≡ false))

-- A list of the versions in a history.
abbrev pub IsHistory : List GraphEntryInternal → List ℕ → List ℕ → Type 0
IsHistory es v l = (x : ℕ) → (contains l x ≡ true) ↔ AncOf es v x

module _ (g : CausalGraph) (causal : IsCausal g.entries) where
  -- `diff` against no version lists a history.
  pub IsHistory-of :
      (v : List ℕ) → All (λ x. x < length g.entries) v → (l : List ℕ) × IsHistory g.entries v l
  IsHistory-of v low =
      let (r, e, d) = diff_lem g [] v causal tt low in
      (r.1, λ x. (λ c. ((d.b_only x).0 c).0, λ a. (d.b_only x).1 (a, λ (p, c, b). absurd cc)))

  -- What `diff` says is to be added, when all parents are in the version's history.
  pub start-IsReached :
      (v base : List ℕ) (r : DiffResult)
      → All (λ x. x < length g.entries) v
      → IsSorted base
      → IsMinimal g.entries base
      → All (λ p. AncOf g.entries v p) base
      → All (λ x. x < length g.entries) base
      → IsDiff g.entries base v r
      → IsReached g.entries v r.1 base
  start-IsReached v base r low sorted minimal known base_low d =
      let (l, at) = IsHistory-of base base_low in
      record {
        sorted = sorted;
        minimal = minimal;
        history = λ x. (
          λ (p, c, a).
              (let (q, k, b) = All-contains (λ p. AncOf g.entries v p) base p known c in
                (
                  (q, k, Anc-trans b a),
                  elim (Bool-cases (contains r.1 x)) [
                    | inl h ↦ absurd (((d.b_only x).0 h).1 (p, c, a))
                    | inr h ↦ h
                  ],
                )),
          λ (a, h). elim (Bool-cases (contains l x)) [
            | inl k ↦ (at x).0 k
            | inr k ↦
                let new : contains r.1 x ≡ true =
                  (d.b_only x).1 (a, λ b. (let c = (at x).1 b in cc)) in
                absurd cc
          ],
        );
      }

  both_ways : (x y : ℕ) → Anc g.entries x y → Anc g.entries y x → x ≡ y
  both_ways x y a b = omega (arith, Anc-le g.entries causal a, Anc-le g.entries causal b)

  has_members :
      (v pv : List ℕ) (x : ℕ)
      → IsMinimal g.entries v
      → ((y : ℕ) → AncOf g.entries v y → AncOf g.entries pv y)
      → ((y : ℕ) → AncOf g.entries pv y → AncOf g.entries v y)
      → contains v x ≡ true
      → contains pv x ≡ true
  has_members v pv x m there back c =
      let (p, k, a) = there x (x, c, self) in
      let (q, l, b) = back p (p, k, self) in
      let same : q ≡ x = m q x l c (Anc-trans b a) in
      let one : p ≡ x = both_ways p x a (rw same at b) in rw one at k

  -- Where nothing is left to add the loop has reached the version itself, if that is a frontier.
  pub reached_all :
      (v pv : List ℕ) → IsSorted v → IsMinimal g.entries v → IsReached g.entries v [] pv → pv ≡ v
  reached_all v pv sorted minimal h =
      let back : (y : ℕ) → AncOf g.entries pv y → AncOf g.entries v y =
        λ y a. ((h.history y).0 a).0 in
      let there : (y : ℕ) → AncOf g.entries v y → AncOf g.entries pv y =
        λ y a. (h.history y).1 (a, refl) in
      sorted_ext pv v h.sorted sorted
        (λ x. (has_members pv v x h.minimal back there, has_members v pv x minimal there back))

  module _ (v : List ℕ) (low : All (λ x. x < length g.entries) v) where
    pub AncOf-lt : (x : ℕ) → AncOf g.entries v x → x < length g.entries
    AncOf-lt x (p, c, a) =
        omega (arith, Anc-le g.entries causal a, All-contains (λ x. x < length g.entries) v p low c)

    module _ (j : ℕ) (js : List ℕ) (pv : Frontier) (known : AncOf g.entries v j)
        (rising : All (λ y. j < y) js) (h : IsReached g.entries v (j ∷ js) pv) where
      pub reached-lt : All (λ x. x < length g.entries) pv
      reached-lt =
          All-intro (λ x. x < length g.entries) pv
            (λ x c. AncOf-lt x ((h.history x).0 (x, c, self)).0)

      pub not_yet : ¬ AncOf g.entries pv j
      not_yet a = let c = ((h.history j).0 a).1 in absurd (ground (arith, c, (==_iff j j).1 refl))

      -- The parents of the next version are reached.
      pub parents_reached :
          (e : GraphEntryInternal)
          → get_elem? g.entries j ≡ some e
          → All (λ p. AncOf g.entries pv p) e.parents
      parents_reached e at =
          All-intro (λ p. AncOf g.entries pv p) e.parents
            (λ p c.
              (let (q, k, a) = known in
                (h.history p).1 (
                  (q, k, Anc-trans a (up e p at c self)),
                  below_not p j js (All-contains (λ p. p < j) e.parents p (causal j e at) c) rising,
                )))

      old_part : (x : ℕ) → AncOf g.entries pv x → AncOf g.entries v x × (contains js x ≡ false)
      old_part x a = let (b, c) = (h.history x).0 a in (b, ground (arith, c))

      step_history :
          (e : GraphEntryInternal) (r : Frontier)
          → get_elem? g.entries j ≡ some e
          → ((y : ℕ) → contains r y ≡ ((j == y) || (contains pv y && not (contains e.parents y))))
          → (x : ℕ) → AncOf g.entries r x ↔ (AncOf g.entries v x × (contains js x ≡ false))
      step_history e r at holds x =
          let own : contains r j ≡ true = ground (arith, holds j, (==_iff j j).1 refl) in
          (
            λ (p, c, a). elim (Bool-cases (j == p)) [
              | inl e' ↦
                  let a' : Anc g.entries j x =
                    subst (λ q. Anc g.entries q x) (sym ((==_iff j p).0 e')) a in
                  elim (Bool-cases (j == x)) [
                    | inl same ↦
                        subst (λ y. AncOf g.entries v y × (contains js y ≡ false))
                          ((==_iff j x).0 same) (known, above_not j js rising)
                    | inr other ↦
                        let (q, k, b) =
                          Anc-parents g.entries causal e at
                            (ground (arith, other, Anc-le g.entries causal a')) a' in
                        let (q', k', b') =
                          All-contains (λ p. AncOf g.entries pv p) e.parents q
                            (parents_reached e at) k in
                        old_part x (q', k', Anc-trans b' b)
                  ]
              | inr e' ↦ old_part x (p, ground (arith, c, holds p, e'), a)
            ],
            λ (a, n). elim (Bool-cases (j == x)) [
              | inl same ↦ (x, ground (arith, holds x, same), self)
              | inr other ↦
                  let (p, c, b) = (h.history x).1 (a, ground (arith, other, n)) in
                  elim (Bool-cases (contains e.parents p)) [
                    | inl old ↦ (j, own, up e p at old b)
                    | inr kept ↦ (p, ground (arith, holds p, kept, c), b)
                  ]
            ],
          )

      -- A version that stays is not in the history of the next one, nor the next one in its.
      step-IsMinimal :
          (e : GraphEntryInternal) (r : Frontier)
          → get_elem? g.entries j ≡ some e
          → ((y : ℕ) → contains r y ≡ ((j == y) || (contains pv y && not (contains e.parents y))))
          → IsMinimal g.entries r
      step-IsMinimal e r at holds p q c d a = elim (Bool-cases (j == p)) [
        | inl p_new ↦
            let a' : Anc g.entries j q =
              subst (λ x. Anc g.entries x q) (sym ((==_iff j p).0 p_new)) a in
            elim (Bool-cases (j == q)) [
              | inl q_new ↦ ground (arith, p_new, q_new)
              | inr q_old ↦
                  let (p', k, b) =
                    Anc-parents g.entries causal e at
                      (ground (arith, q_old, Anc-le g.entries causal a')) a' in
                  let (q', k', b') =
                    All-contains (λ p. AncOf g.entries pv p) e.parents p' (parents_reached e at)
                      k in
                  let kept : contains pv q ≡ true = ground (arith, d, holds q, q_old) in
                  let same : q' ≡ q = h.minimal q' q k' kept (Anc-trans b' b) in
                  let one : p' ≡ q = both_ways p' q b (rw same at b') in
                  let gone : contains e.parents q ≡ true = rw one at k in
                  absurd (ground (arith, d, holds q, q_old, gone))
            ]
        | inr p_old ↦
            let kept : contains pv p ≡ true = ground (arith, c, holds p, p_old) in
            elim (Bool-cases (j == q)) [
              | inl q_new ↦
                  absurd (
                    not_yet
                      (p, kept, subst (λ x. Anc g.entries p x) (sym ((==_iff j q).0 q_new)) a))
              | inr q_old ↦ h.minimal p q kept (ground (arith, d, holds q, q_old)) a
            ]
      ]

      -- The next version is added with no panic.
      pub step_lem : (r : Frontier) × (advance_by g j pv ≡ done r) × IsReached g.entries v js r
      step_lem =
          let (e, at) = entry_at g.entries j (AncOf-lt j known) in
          let fresh : contains pv j ≡ false = elim (Bool-cases (contains pv j)) [
            | inl c ↦ absurd (not_yet (j, c, self))
            | inr c ↦ c
          ] in
          let (r, done_r, sorted, holds) = advance_lem j e.parents pv h.sorted fresh in
          (
            r,
            advance_by_lem g j e pv r at done_r,
            record {
              sorted = sorted;
              minimal = step-IsMinimal e r at holds;
              history = step_history e r at holds;
            },
          )
