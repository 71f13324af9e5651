-- ===== src/OtBench/Replay/Enough.antt =====
-- That the fuel of the replay in tools/ot-bench/src/main.rs is enough, and what `doc_at_version` returns.
use egwalker_paper.Base.{
  ℕ, zero, suc, ◌+◌, ◌<◌, ◌≡◌, refl, ap, subst, ◌∙◌, true, false, Bool, List, [], ◌∷◌, some,
  contains, get_elem?, length, arith, Bool-cases, inl, inr, All, contains_self, ltb, slice_eq,
}
use egwalker_paper.Base.Panic.{Outcome, done, panic, stuck, ◌>>=◌}
use egwalker_paper.OtBench.Frontier.{Frontier, root}
use egwalker_paper.OtBench.Frontier.Advance.{IsSorted}
use egwalker_paper.OtBench.Graph.{GraphEntryInternal, index_entry, diff}
use egwalker_paper.OtBench.Graph.Ancestors.{AncOf, IsCausal, All-contains}
use egwalker_paper.OtBench.Graph.Diff.{IsDiff, diff_lem}
use egwalker_paper.DiamondTypes.Graph.Runs.{Anc-trans}
use egwalker_paper.DiamondTypes.Frontier.Uncovered.{IsMinimal}
use egwalker_paper.OtBench.TextOp.{TextOp}
use egwalker_paper.OtBench.TextOp.Strings.{StrIndices}
use egwalker_paper.OtBench.TextOp.Iterate.{transform_list}
use egwalker_paper.OtBench.Document.{Rope, apply_all}
use egwalker_paper.OtBench.Replay.{
  OperationData, OpChunk, index_chunk, assert_empty, assert_same, doc_at_version,
}
use egwalker_paper.OtBench.Replay.Plain.{
  Lookup, plain_loop, plain_branch, assert_if, ops_at_version, plain_replay, plain_doc,
  plain_doc-more,
}
use egwalker_paper.OtBench.Replay.Memo.{doc-plain}
use egwalker_paper.OtBench.Replay.Count.{count_below, count-le, count_less}
use egwalker_paper.OtBench.Replay.Entries.{HasFrontierParents, index_done}
use egwalker_paper.OtBench.Replay.Reached.{
  IsReached, IsHistory, IsHistory-of, start-IsReached, reached-lt, not_yet, parents_reached,
  step_lem, AncOf-lt, All-intro, reached_all,
}

-- Chains that go on in the same way from what their first step returns.
bind_cong {ℓ κ} :
    {A : Type ℓ} {B : Type κ} (m : Outcome A) (f g : A → Outcome B)
    → ((a : A) → m ≡ done a → f a ≡ g a)
    → (m >>= f) ≡ (m >>= g)
bind_cong (done a) f g h = h a refl
bind_cong panic f g h = refl
bind_cong stuck f g h = refl

-- The same, where the chains go on once more.
chain_cong {ℓ κ μ} :
    {A : Type ℓ} {B : Type κ} {C : Type μ} (m : Outcome A) (f : A → Outcome B)
    (rest rest' : B → Outcome C)
    → ((a : A) → m ≡ done a → (f a >>= rest) ≡ (f a >>= rest'))
    → ((m >>= f) >>= rest) ≡ ((m >>= f) >>= rest')
chain_cong (done a) f rest rest' h = h a refl
chain_cong panic f rest rest' h = refl
chain_cong stuck f rest rest' h = refl

nothing : (xs : List ℕ) → ((x : ℕ) → ¬ (contains xs x ≡ true)) → xs ≡ []
nothing [] h = refl
nothing (x ∷ xs) h = absurd (h x (contains_self x xs))

empty_done :
    (checked : Bool) (xs : List ℕ) → xs ≡ [] → assert_if checked (assert_empty xs) ≡ done tt
unfolding assert_if assert_empty
empty_done false xs h = refl
empty_done true xs h = rw h refl

slice_eq_self : (xs : List ℕ) → slice_eq xs xs ≡ true
slice_eq_self [] = refl
slice_eq_self (x ∷ xs) = ground (arith, slice_eq_self xs)

same_done :
    (checked : Bool) (xs ys : List ℕ) → xs ≡ ys → assert_if checked (assert_same xs ys) ≡ done tt
unfolding assert_if assert_same
same_done false xs ys h = refl
same_done true xs ys h = rw (h, slice_eq_self ys) refl

module _ ⦃ix : StrIndices⦄ (s : OperationData) (causal : IsCausal s.graph.entries)
    (ps : HasFrontierParents s) where
  abbrev n : ℕ
  n = length s.graph.entries

  abbrev es : List GraphEntryInternal
  es = s.graph.entries

  -- A call of the replay: at a frontier that has the parents of the operation's version in its history.
  abbrev IsCall : ℕ → List ℕ → Type 0
  IsCall i v =
      All (λ x. x < n) v
      × IsSorted v
      × IsMinimal es v
      × ((e : GraphEntryInternal) → get_elem? es i ≡ some e → All (λ p. AncOf es v p) e.parents)

  -- Two lookups that agree on the calls whose history counts less than `k`.
  abbrev Agree : Lookup → Lookup → ℕ → Type 0
  Agree a b k =
      (i : ℕ) (v l : List ℕ)
      → IsCall i v
      → IsHistory es v l
      → count_below n (contains l) < k
      → a i v ≡ b i v

  module _ (a b : Lookup) (v l : List ℕ) (low : All (λ x. x < n) v) (at : IsHistory es v l)
      (agree : Agree a b (count_below n (contains l))) where
    -- The call for the next version.
    next_call :
        (j : ℕ) (js : List ℕ) (pv : Frontier)
        → AncOf es v j
        → All (λ y. j < y) js
        → IsReached es v (j ∷ js) pv
        → a j pv ≡ b j pv
    next_call j js pv known rising h =
        let pv_low = reached-lt s.graph causal v low j js pv known rising h in
        let (m, here) = IsHistory-of s.graph causal pv pv_low in
        agree j pv m
          (pv_low, h.sorted, h.minimal, parents_reached s.graph causal v low j js pv known rising h)
          here
          (count_less n (contains m) (contains l) j
            (λ x c. (at x).1 ((h.history x).0 ((here x).0 c)).0)
            (AncOf-lt s.graph causal v low j known)
            (elim (Bool-cases (contains m j)) [
              | inl c ↦ absurd (not_yet s.graph causal v low j js pv known rising h ((here j).0 c))
              | inr c ↦ c
            ])
            ((at j).1 known))

    loop_agree :
        (i : ℕ) (added : List ℕ) (pv : Frontier) (ops : List TextOp)
        → All (λ x. AncOf es v x) added
        → IsSorted added
        → IsReached es v added pv
        → plain_loop a s.graph i added pv ops ≡ plain_loop b s.graph i added pv ops
    unfolding plain_loop
    loop_agree i [] pv ops known rising h = refl
    loop_agree i (j ∷ js) pv ops known rising h =
        let (r, adv, h') = step_lem s.graph causal v low j js pv known.0 rising.0 h in
        rw (next_call j js pv known.0 rising.0 h) (
          bind_cong (b j pv) _ _ (λ other e1.
            bind_cong (transform_list ops other (ltb j i)) _ _
              (λ ops' e2. rw adv (loop_agree i js r ops' known.1 rising.1 h'))))

    -- The loop, with a rest that need not be told apart where the loop ends in the version.
    loop_then :
        (rest rest' : Frontier × List TextOp → Outcome (List TextOp))
        → ((w : List TextOp) → rest (v, w) ≡ rest' (v, w))
        → IsSorted v
        → IsMinimal es v
        → (i : ℕ) (added : List ℕ) (pv : Frontier) (ops : List TextOp)
        → All (λ x. AncOf es v x) added
        → IsSorted added
        → IsReached es v added pv
        → (plain_loop a s.graph i added pv ops >>= rest)
          ≡ (plain_loop a s.graph i added pv ops >>= rest')
    unfolding plain_loop
    loop_then rest rest' same sorted minimal i [] pv ops known rising h =
        rw (reached_all s.graph causal v pv sorted minimal h) (same ops)
    loop_then rest rest' same sorted minimal i (j ∷ js) pv ops known rising h =
        let (r, adv, h') = step_lem s.graph causal v low j js pv known.0 rising.0 h in
        chain_cong (a j pv) _ rest rest' (λ other e1.
          chain_cong (transform_list ops other (ltb j i)) _ rest rest' (λ ops' e2.
            rw adv (loop_then rest rest' same sorted minimal i js r ops' known.1 rising.1 h')))

    branch_agree :
        (i : ℕ) (c d : Bool) (chunk : OpChunk) (entry : GraphEntryInternal) (own : Bool)
        → get_elem? es i ≡ some entry
        → IsSorted v
        → IsMinimal es v
        → All (λ p. AncOf es v p) entry.parents
        → plain_branch c a s i v chunk entry own ≡ plain_branch d b s i v chunk entry own
    unfolding plain_branch
    branch_agree i c d chunk entry true here sorted minimal known = refl
    branch_agree i c d chunk entry false here sorted minimal known =
        let base_low : All (λ x. x < n) entry.parents =
          All-intro (λ x. x < n) entry.parents
            (λ x c.
              AncOf-lt s.graph causal v low x
                (All-contains (λ p. AncOf es v p) entry.parents x known c)) in
        bind_cong (diff s.graph entry.parents v) _ _ (λ found e.
          (let (r, done_r, is_diff) = diff_lem s.graph entry.parents v causal base_low low in
            let same : r ≡ found = cc in
            let d' = subst (λ r. IsDiff es entry.parents v r) same is_diff in
            let none = nothing found.0 (λ x k.
              (let (p, m, anc) = ((d'.a_only x).0 k).0 in
                let (q, m', anc') = All-contains (λ p. AncOf es v p) entry.parents p known m in
                ((d'.a_only x).0 k).1 (q, m', Anc-trans anc' anc))) in
            let all_known = All-intro (λ x. AncOf es v x) found.1 (λ x k. ((d'.b_only x).0 k).0) in
            let start =
              start-IsReached s.graph causal v entry.parents found low (ps i entry here).0
                (ps i entry here).1 known base_low d' in
            rw (empty_done c found.0 none, empty_done d found.0 none, ◌>>=◌)
              (loop_then _ _ (λ w. rw (same_done c v v refl, same_done d v v refl) refl) sorted
                  minimal i found.1 entry.parents chunk.ops all_known d'.b_ascending start
                ∙ ap (λ m. m >>= (λ q. assert_if d (assert_same q.0 v) >>= (λ u. done q.1)))
                    (loop_agree i found.1 entry.parents chunk.ops all_known d'.b_ascending start))))

  -- Two amounts of fuel above the count of the history give the same outcome, and the assertion of
  -- the code never fails.
  enough_ops :
      (c d : Bool) (f g i : ℕ) (v l : List ℕ)
      → IsCall i v
      → IsHistory es v l
      → count_below n (contains l) < f
      → count_below n (contains l) < g
      → ops_at_version c f s i v ≡ ops_at_version d g s i v
  unfolding ops_at_version
  enough_ops c d zero g i v l call at p q = absurd (omega arith)
  enough_ops c d (suc f) zero i v l call at p q = absurd (omega arith)
  enough_ops c d (suc f) (suc g) i v l call at p q =
      bind_cong (index_chunk s.ops i) _ _ (λ chunk e1. bind_cong (index_entry es i) _ _ (λ entry e2.
        (let here = index_done es i entry e2 in
          branch_agree (ops_at_version c f s) (ops_at_version d g s) v l call.0 at
            (λ j pv m k h less. enough_ops c d f g j pv m k h (omega arith) (omega arith)) i c d
            chunk entry (slice_eq v entry.parents) here call.1 call.2 (call.3 entry here))))

  module _ (rope : Rope) (v : List ℕ) (low : All (λ x. x < n) v) where
    open rope use {Text}

    replay_agree :
        (c d : Bool) (f g : ℕ) (l idxs : List ℕ) (dv : Frontier) (doc : Text)
        → n < f
        → n < g
        → IsHistory es v l
        → All (λ x. AncOf es v x) idxs
        → IsSorted idxs
        → IsReached es v idxs dv
        → plain_replay rope (ops_at_version c f s) s.graph idxs dv doc
          ≡ plain_replay rope (ops_at_version d g s) s.graph idxs dv doc
    unfolding plain_replay
    replay_agree c d f g l [] dv doc p q at known rising h = refl
    replay_agree c d f g l (i ∷ idxs) dv doc p q at known rising h =
        let (r, adv, h') = step_lem s.graph causal v low i idxs dv known.0 rising.0 h in
        let bound = count-le n (contains l) in
        let same =
          next_call (ops_at_version c f s) (ops_at_version d g s) v l low at
            (λ j pv m k here less. enough_ops c d f g j pv m k here (omega arith) (omega arith)) i
            idxs dv known.0 rising.0 h in
        rw (same, adv)
          (bind_cong (ops_at_version d g s i dv) _ _ (λ ops e.
            replay_agree c d f g l idxs r (apply_all rope ops doc) p q at known.1 rising.1 h'))

    -- In a graph whose parents come before their children and are frontiers, the replay without memo
    -- has the same outcome, a panic included, with every two amounts of fuel above the number of
    -- versions, and whether or not the two assertions of the code are tested.
    plain_doc_enough :
        (c d : Bool) (f g : ℕ) → n < f → n < g → plain_doc rope c f s v ≡ plain_doc rope d g s v
    unfolding plain_doc root
    plain_doc_enough c d f g p q = bind_cong (diff s.graph [] v) _ _ (λ found e.
        (let (r, done_r, is_diff) = diff_lem s.graph [] v causal tt low in
          let same : r ≡ found = cc in
          let d' = subst (λ r. IsDiff es [] v r) same is_diff in
          let (l, at) = IsHistory-of s.graph causal v low in
          replay_agree c d f g l found.1 [] rope.new p q at
            (All-intro (λ x. AncOf es v x) found.1 (λ x c. ((d'.b_only x).0 c).0)) d'.b_ascending
            (start-IsReached s.graph causal v [] found low tt (λ p q c. absurd cc) tt tt d')))

    -- At known versions of a graph whose parents come before their children and are frontiers (sorted,
    -- and none in the history of another): if the replay without memo and without the two debug
    -- assertions of `borrow_ops_at_version` gives a document with some amount of fuel, `doc_at_version`,
    -- with the memo, both assertions and its own fuel, returns that document.
    pub doc_at_version_lem :
        (f : ℕ) (r : Text) → plain_doc rope false f s v ≡ done r → doc_at_version rope s v ≡ done r
    doc_at_version_lem f r h =
        let more = plain_doc-more rope false s v f (f + suc n) r (omega arith) h in
        doc-plain rope s (λ i e at. (ps i e at).0) v r
          (plain_doc_enough true false (suc n) (f + suc n) (omega arith) (omega arith) ∙ more)
