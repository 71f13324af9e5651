-- ===== src/DiamondTypes/Frontier/Advance.antt =====
-- `advance` of tools/diamond-types/src/frontier.rs against the histories of the graph: what a frontier
-- that is advanced by a range stands for.
use egwalker_paper.Base.{
  ℕ, zero, suc, ◌+◌, ◌-◌, ◌≤◌, ◌<◌, ◌≡◌, refl, sym, subst, ◌⊎◌, ◌↔◌, inl, inr, true, false, List,
  [], ◌∷◌, some, leb, min, drop, get_elem?, arith, Bool-cases, All, All-map,
}
use egwalker_paper.Base.Panic.{done}
use egwalker_paper.OtBench.Graph.{GraphEntryInternal as Version}
use egwalker_paper.OtBench.Frontier.{Frontier}
use egwalker_paper.OtBench.Frontier.Advance.{IsSorted}
use egwalker_paper.OtBench.Graph.Ancestors.{AncOf}
use egwalker_paper.DiamondTypes.RleVec.Find.{find_packed_lem}
use egwalker_paper.DiamondTypes.Graph.{GraphEntryInternal, Graph, entry_key, entry_len, parents_at}
use egwalker_paper.DiamondTypes.Graph.Expand.{expand, span_size, IsRuns}
use egwalker_paper.DiamondTypes.Graph.Runs.{IsDag, Has, version_at, dag-IsCausal}
use egwalker_paper.DiamondTypes.Frontier.History.{IsNew, IsClosed, Advanced, known_run_lem}
use egwalker_paper.DiamondTypes.Frontier.{advance_by_known_run, advance_loop, advance}

module _ (txn : GraphEntryInternal) (txns : List GraphEntryInternal) (f r r' : Frontier)
    (s t m : ℕ) where
  pub loop_last :
      min txn.span.end t ≡ m
      → advance_by_known_run (parents_at txn s) (record { start = s; end = m }) f ≡ done r
      → leb t m ≡ true
      → advance_loop (txn ∷ txns) (record { start = s; end = t }) f ≡ done r
  unfolding advance_loop
  loop_last z e last = rw (z, e, last) refl

  pub loop_more :
      min txn.span.end t ≡ m
      → advance_by_known_run (parents_at txn s) (record { start = s; end = m }) f ≡ done r
      → leb t m ≡ false
      → advance_loop txns (record { start = m; end = t }) r ≡ done r'
      → advance_loop (txn ∷ txns) (record { start = s; end = t }) f ≡ done r'
  unfolding advance_loop
  loop_more z e more next = rw (z, e, more) next

module _ (es : List GraphEntryInternal) where
  -- The entries that the loop has ahead of it stand in the graph from place `i` on.
  abbrev pub Places : ℕ → List GraphEntryInternal → Type 0
  Places i rest =
      (j : ℕ) (e : GraphEntryInternal) → get_elem? rest j ≡ some e → get_elem? es (i + j) ≡ some e

  pub Places-tail :
      (i : ℕ) (txn : GraphEntryInternal) (txns : List GraphEntryInternal)
      → Places i (txn ∷ txns)
      → Places (suc i) txns
  Places-tail i txn txns h j e g =
      let n : i + suc j ≡ suc i + j = omega arith in rw n at (h (suc j) e g)

  -- After one run, what is left of the range is as new and as closed for the frontier.
  rest-IsNew :
      (f r : Frontier) (s l t : ℕ)
      → ((x : ℕ) → AncOf (expand es) r x ↔ (AncOf (expand es) f x ⊎ ((s ≤ x) × (x ≤ l))))
      → s ≤ suc l
      → IsNew es f s t
      → IsNew es r (suc l) t
  rest-IsNew f r s l t holds m new x u v a = elim ((holds x).0 a) [
    | inl b ↦ new x (omega arith) v b
    | inr (_, b) ↦ omega arith
  ]

  rest-IsClosed :
      (f r : Frontier) (s l t : ℕ)
      → ((x : ℕ) → AncOf (expand es) r x ↔ (AncOf (expand es) f x ⊎ ((s ≤ x) × (x ≤ l))))
      → s ≤ suc l
      → IsClosed es f s t
      → IsClosed es r (suc l) t
  rest-IsClosed f r s l t holds m closed x d u v g =
      All-map d.parents
        (λ p. elim [
          | inl a ↦ inl ((holds p).1 (inl a))
          | inr k ↦ elim (Bool-cases (leb p l)) [
            | inl low ↦ inl ((holds p).1 (inr (k, ground (arith, low))))
            | inr high ↦ inr (ground (arith, high))
          ]
        ])
        (closed x d (omega arith) v g)

  -- What a run adds and what the rest of the range adds is what the range adds.
  advanced_on :
      (f r r' : Frontier) (s l t : ℕ)
      → ((x : ℕ) → AncOf (expand es) r x ↔ (AncOf (expand es) f x ⊎ ((s ≤ x) × (x ≤ l))))
      → ((x : ℕ) → AncOf (expand es) r' x ↔ (AncOf (expand es) r x ⊎ ((suc l ≤ x) × (x < t))))
      → s ≤ l
      → suc l < t
      → (x : ℕ) → AncOf (expand es) r' x ↔ (AncOf (expand es) f x ⊎ ((s ≤ x) × (x < t)))
  advanced_on f r r' s l t holds holds' m k x = (
    λ a. elim ((holds' x).0 a) [
      | inl b ↦ elim ((holds x).0 b) [ inl c ↦ inl c | inr c ↦ inr (c.0, omega (arith, c.1)) ]
      | inr b ↦ inr (omega (arith, b.0), b.1)
    ],
    elim [
      | inl a ↦ (holds' x).1 (inl ((holds x).1 (inl a)))
      | inr b ↦ elim (Bool-cases (leb x l)) [
        | inl low ↦ (holds' x).1 (inl ((holds x).1 (inr (b.0, ground (arith, low)))))
        | inr high ↦ (holds' x).1 (inr (ground (arith, high), b.1))
      ]
    ],
  )

pub first_end :
    (lo end : ℕ) (rest : List GraphEntryInternal) (e : GraphEntryInternal)
    → IsRuns lo rest end
    → get_elem? rest 0 ≡ some e
    → lo < e.span.end
first_end lo end [] e h g = absurd (ground arith)
first_end lo end (d ∷ rest) e h g =
    let same : d ≡ e = cc in subst (λ e'. lo < e'.span.end) same (omega (arith, h.1, h.2))

pub drop_Places :
    (i : ℕ) (xs : List GraphEntryInternal)
    → (j : ℕ) (e : GraphEntryInternal) → get_elem? (drop i xs) j ≡ some e
    → get_elem? xs (i + j) ≡ some e
drop_Places zero xs j e g = let z : 0 + j ≡ j = omega arith in rw z g
drop_Places (suc i) [] j e g = absurd (ground arith)
drop_Places (suc i) (x ∷ xs) j e g =
    let z : suc i + j ≡ suc (i + j) = omega arith in rw z (drop_Places i xs j e g)

pub drop-IsRuns :
    (lo end i : ℕ) (xs : List GraphEntryInternal) (e : GraphEntryInternal)
    → IsRuns lo xs end
    → get_elem? xs i ≡ some e
    → (lo' : ℕ) × (lo' ≡ e.span.start)
      × IsRuns lo' (drop i xs) end
      × (get_elem? (drop i xs) 0 ≡ some e)
drop-IsRuns lo end i [] e h g = absurd (ground arith)
drop-IsRuns lo end zero (x ∷ xs) e h g =
    let same : x ≡ e = cc in (lo, subst (λ d. lo ≡ d.span.start) same (sym h.2), h, g)
drop-IsRuns lo end (suc i) (x ∷ xs) e h g = drop-IsRuns (lo + span_size x) end i xs e h.3 g

module _ (es : List GraphEntryInternal) (hi : ℕ) (dag : IsDag es hi) where
  -- Of a run that begins in the range, the parents are in the frontier's history.
  run_parents :
      (i : ℕ) (e : GraphEntryInternal) (f : Frontier) (s t : ℕ)
      → get_elem? es i ≡ some e
      → Has e s
      → s < t
      → IsClosed es f s t
      → All (λ p. AncOf (expand es) f p) (parents_at e s)
  run_parents i e f s t g c l closed =
      let at = version_at es hi dag i e s g c in
      let d : Version = record { idx = s; parents = parents_at e s } in
      both (parents_at e s) (dag-IsCausal es hi dag s d at) (closed s d (omega arith) l at)
    where
      both :
          (ps : List ℕ)
          → All (λ p. p < s) ps
          → All (λ p. AncOf (expand es) f p ⊎ (s ≤ p)) ps
          → All (λ p. AncOf (expand es) f p) ps
      both [] h k = tt
      both (p ∷ ps) h k =
          (elim k.0 [ inl a ↦ a | inr b ↦ absurd (omega (arith, b, h.0)) ], both ps h.1 k.1)

  advance_loop_lem :
      (i lo : ℕ) (rest : List GraphEntryInternal) (f : Frontier) (s t : ℕ)
      → Places es i rest
      → IsRuns lo rest hi
      → lo ≤ s
      → ((e : GraphEntryInternal) → get_elem? rest 0 ≡ some e → s < e.span.end)
      → s < t
      → t ≤ hi
      → IsSorted f
      → IsNew es f s t
      → IsClosed es f s t
      → Advanced es (advance_loop rest (record { start = s; end = t }) f) f s t
  advance_loop_lem i lo [] f s t at runs u first v w sorted new closed =
      absurd (omega (arith, runs))
  advance_loop_lem i lo (txn ∷ txns) f s t at runs u first v w sorted new closed =
      let l = min txn.span.end t - 1 in
      let in_txn : s < txn.span.end = first txn refl in
      let end : min txn.span.end t ≡ suc l = omega arith in
      let g : get_elem? es i ≡ some txn =
        (let z : i + 0 ≡ i = omega arith in rw z at (at 0 txn refl)) in
      let size : txn.span.start + span_size txn ≡ txn.span.end = omega (arith, runs.1) in
      let c : Has txn s = (omega (arith, runs.2), omega (arith, size)) in
      let d : Has txn l = (omega (arith, runs.2), omega (arith, size)) in
      let (r, e, s', holds) =
        known_run_lem es hi dag i txn g f s l c d (omega arith) sorted (new s (omega arith) v)
          (run_parents i txn f s t g c v closed) in
      elim (Bool-cases (leb t (suc l))) [
        | inl last ↦
            let z : t ≡ suc l = ground (arith, last) in
            (
              r,
              loop_last txn txns f r r s t (suc l) end e last,
              s',
              λ x. (
                λ a. elim ((holds x).0 a) [ inl b ↦ inl b | inr b ↦ inr (b.0, omega (arith, b.1)) ],
                elim [
                  | inl a ↦ (holds x).1 (inl a)
                  | inr b ↦ (holds x).1 (inr (b.0, omega (arith, b.1, z)))
                ],
              ),
            )
        | inr more ↦
            let k : suc l < t = ground (arith, more) in
            let ends : suc l ≡ lo + span_size txn = omega (arith, size, runs.2, k) in
            let (r', e', s'', holds') =
              advance_loop_lem (suc i) (lo + span_size txn) txns r (suc l) t
                (Places-tail es i txn txns at) runs.3 (omega (arith, ends))
                (λ d' h.
                  (let b = first_end (lo + span_size txn) hi txns d' runs.3 h in
                    omega (arith, b, ends)))
                k w s' (rest-IsNew es f r s l t holds (omega arith) new)
                (rest-IsClosed es f r s l t holds (omega arith) closed) in
            (
              r',
              loop_more txn txns f r r' s t (suc l) end e more e',
              s'',
              advanced_on es f r r' s l t holds holds' (omega arith) k,
            )
      ]

-- In a well-formed graph, `advance` of a sorted frontier by a range of new versions, whose parents
-- are in its history or in the range, does not panic: the result is sorted, and its history is that
-- of the frontier and the range.
pub advance_history :
    (g : Graph) (hi : ℕ) (f : Frontier) (s t : ℕ)
    → IsDag g.entries hi
    → s < t
    → t ≤ hi
    → IsSorted f
    → IsNew g.entries f s t
    → IsClosed g.entries f s t
    → Advanced g.entries (advance g (record { start = s; end = t }) f) f s t
unfolding advance
advance_history g hi f s t dag l m sorted new closed =
    let (i, e, found_it, _, _, at, c) =
      find_packed_lem entry_key entry_len span_size 0 hi g.entries s dag.runs (omega arith)
        (omega arith) in
    let (lo, start, runs, head) = drop-IsRuns 0 hi i g.entries e dag.runs at in
    let in_e : (d : GraphEntryInternal) → get_elem? (drop i g.entries) 0 ≡ some d → s < d.span.end =
      λ d h.
        (let same : e ≡ d = cc in subst (λ d'. s < d'.span.end) same (omega (arith, c.0, c.1))) in
    let (r, eq, out, holds) =
      advance_loop_lem g.entries hi dag i lo (drop i g.entries) f s t (drop_Places i g.entries) runs
        (omega (arith, start, c.0)) in_e l m sorted new closed in
    (r, rw found_it eq, out, holds)
