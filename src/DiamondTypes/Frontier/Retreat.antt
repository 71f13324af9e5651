-- ===== src/DiamondTypes/Frontier/Retreat.antt =====
-- `retreat` of tools/diamond-types/src/frontier.rs against the histories of the graph.
use egwalker_paper.Base.{
  ℕ, zero, suc, ◌+◌, ◌-◌, ◌≤◌, ◌<◌, ◌≡◌, refl, sym, subst, ◌⊎◌, ◌↔◌, inl, inr, true, false, List,
  [], ◌∷◌, some, leb, ◌==◌, max, get_elem?, arith, Bool-cases, All,
}
use egwalker_paper.Base.Panic.{Outcome, done}
use egwalker_paper.OtBench.Frontier.{Frontier}
use egwalker_paper.OtBench.Frontier.Advance.{IsSorted}
use egwalker_paper.OtBench.Graph.{GraphEntryInternal as Version}
use egwalker_paper.OtBench.Graph.Ancestors.{AncOf}
use egwalker_paper.DiamondTypes.DtRange
use egwalker_paper.DiamondTypes.RleVec.Find.{find_packed_lem, index_lem}
use egwalker_paper.DiamondTypes.Graph.{GraphEntryInternal, Graph, entry_key, entry_len}
use egwalker_paper.DiamondTypes.Graph.Expand.{expand, span_size, IsRuns}
use egwalker_paper.DiamondTypes.Graph.Runs.{IsDag, Has}
use egwalker_paper.DiamondTypes.Frontier.{retreat_round, retreat_loop, retreat}
use egwalker_paper.DiamondTypes.Frontier.Uncovered.{IsMinimal}
use egwalker_paper.DiamondTypes.Frontier.Round.{IsTip, HasFrontiers, last_of, round_lem}

-- The frontier's history without the range from `s` to `l`.
abbrev pub Retreated : List Version → Outcome Frontier → Frontier → ℕ → ℕ → Type 0
Retreated full o f s l =
    (r : Frontier) × (o ≡ done r)
    × IsSorted r
    × IsMinimal full r
    × ((x : ℕ) → AncOf full r x ↔ (AncOf full f x × ((x < s) ⊎ (l < x))))

-- The entry before one in the runs ends where that begins.
entry_before :
    (lo hi i : ℕ) (es : List GraphEntryInternal) (e : GraphEntryInternal)
    → IsRuns lo es hi
    → get_elem? es (suc i) ≡ some e
    → (d : GraphEntryInternal) × (get_elem? es i ≡ some d)
      × (d.span.start < d.span.end)
      × (d.span.end ≡ e.span.start)
entry_before lo hi i [] e h g = absurd (ground arith)
entry_before lo hi zero (d ∷ []) e h g = absurd (ground arith)
entry_before lo hi zero (d ∷ c ∷ es) e h g =
    let same : c ≡ e = cc in
    (
      d,
      refl,
      omega (arith, h.1),
      subst (λ b. d.span.end ≡ b.span.start) same (omega (arith, h.1, h.2, h.3.2)),
    )
entry_before lo hi (suc i) (d ∷ es) e h g = entry_before (lo + span_size d) hi i es e h.3 g

first_start :
    (lo hi : ℕ) (es : List GraphEntryInternal) (e : GraphEntryInternal)
    → IsRuns lo es hi
    → get_elem? es 0 ≡ some e
    → e.span.start ≡ lo
first_start lo hi [] e h g = absurd (ground arith)
first_start lo hi (d ∷ es) e h g = let same : d ≡ e = cc in subst (λ b. b.span.start ≡ lo) same h.2

module _ (g : Graph) (e : GraphEntryInternal) (f r : Frontier) (s l : ℕ) where
  loop_stop :
      (i : ℕ)
      → get_elem? g.entries i ≡ some e
      → retreat_round g e (record { start = s; end = suc l }) f ≡ done r
      → leb e.span.start s ≡ true
      → retreat_loop i g (record { start = s; end = suc l }) f ≡ done r
  unfolding retreat_loop
  loop_stop zero at h stop = rw (index_lem g.entries zero e at, h, stop) refl
  loop_stop (suc i) at h stop = rw (index_lem g.entries (suc i) e at, h, stop) refl

  loop_down :
      (i l' : ℕ) (r' : Frontier)
      → get_elem? g.entries (suc i) ≡ some e
      → retreat_round g e (record { start = s; end = suc l }) f ≡ done r
      → leb e.span.start s ≡ false
      → e.span.start ≡ suc l'
      → retreat_loop i g (record { start = s; end = suc l' }) r ≡ done r'
      → retreat_loop (suc i) g (record { start = s; end = suc l }) f ≡ done r'
  unfolding retreat_loop
  loop_down i l' r' at h more z next =
      rw (index_lem g.entries (suc i) e at, h, more)
        (subst (λ n. retreat_loop i g (record { start = s; end = n }) r ≡ done r') (sym z) next)

module _ (g : Graph) (hi : ℕ) (dag : IsDag g.entries hi) (frontiers : HasFrontiers g.entries) where
  abbrev full : List Version
  full = expand g.entries

  -- What is left of the range is at the tip of the frontier that a round leaves.
  rest-IsTip :
      (f r : Frontier) (s l l' : ℕ)
      → IsTip full hi f s l
      → l' < l
      → IsSorted r
      → All (λ p. p < hi) r
      → IsMinimal full r
      → ((x : ℕ) → AncOf full r x ↔ (AncOf full f x × ((x < suc l') ⊎ (l < x))))
      → IsTip full hi r s l'
  rest-IsTip f r s l l' k m sorted below minimal holds = record {
    sorted = sorted;
    below = below;
    minimal = minimal;
    held = λ x u v. (holds x).1 (k.held x u (omega arith), inl (omega arith));
    tip = λ v x a u w b.
        let (old, out) = (holds v).0 a in
        let (low, high) = k.tip v x old u (omega arith) b in
        (low, elim out [ inl o ↦ omega (arith, o) | inr o ↦ absurd (omega (arith, o, high)) ]);
  }

  both_rounds :
      (f r r' : Frontier) (s l l' : ℕ)
      → s ≤ l'
      → l' < l
      → ((x : ℕ) → AncOf full r x ↔ (AncOf full f x × ((x < suc l') ⊎ (l < x))))
      → ((x : ℕ) → AncOf full r' x ↔ (AncOf full r x × ((x < s) ⊎ (l' < x))))
      → (x : ℕ) → AncOf full r' x ↔ (AncOf full f x × ((x < s) ⊎ (l < x)))
  both_rounds f r r' s l l' m n one two x = (
    λ a.
        let (b, out) = (two x).0 a in
        let (c, out') = (one x).0 b in
        (
          c,
          elim out [
            | inl o ↦ inl o
            | inr o ↦ elim out' [ inl o' ↦ absurd (omega (arith, o, o')) | inr o' ↦ inr o' ]
          ],
        ),
    λ (a, out). (two x).1 (
      (one x).1 (a, elim out [ inl o ↦ inl (omega (arith, o)) | inr o ↦ inr o ]),
      elim out [ inl o ↦ inl o | inr o ↦ inr (omega (arith, o)) ],
    ),
  )

  -- The round of the entry that the range begins in is the last.
  last_round :
      (i : ℕ) (e : GraphEntryInternal) (f : Frontier) (s l : ℕ)
      → get_elem? g.entries i ≡ some e
      → Has e l
      → s ≤ l
      → IsTip full hi f s l
      → leb e.span.start s ≡ true
      → Retreated full (retreat_loop i g (record { start = s; end = suc l }) f) f s l
  last_round i e f s l at c m k stop =
      let (r, h, sorted, below, minimal, holds) = round_lem g hi dag frontiers i e at f s l m c k in
      let z : max s e.span.start ≡ s = ground (arith, stop) in
      (
        r,
        loop_stop g e f r s l i at h stop,
        sorted,
        minimal,
        λ x. subst (λ n. AncOf full r x ↔ (AncOf full f x × ((x < n) ⊎ (l < x)))) z (holds x),
      )

  retreat_loop_lem :
      (i : ℕ) (e : GraphEntryInternal) (f : Frontier) (s l : ℕ)
      → get_elem? g.entries i ≡ some e
      → Has e l
      → s ≤ l
      → IsTip full hi f s l
      → Retreated full (retreat_loop i g (record { start = s; end = suc l }) f) f s l
  retreat_loop_lem zero e f s l at c m k =
      let z : e.span.start ≡ 0 = first_start 0 hi g.entries e dag.runs at in
      last_round zero e f s l at c m k (ground (arith, z))
  retreat_loop_lem (suc i) e f s l at c m k = elim (Bool-cases (leb e.span.start s)) [
    | inl stop ↦ last_round (suc i) e f s l at c m k stop
    | inr more ↦
        let l' = e.span.start - 1 in
        let z : e.span.start ≡ suc l' = ground (arith, more) in
        let a : max s e.span.start ≡ suc l' = ground (arith, more) in
        let (d, at', size, joins) = entry_before 0 hi i g.entries e dag.runs at in
        let (r, h, sorted, below, minimal, holds) =
          round_lem g hi dag frontiers (suc i) e at f s l m c k in
        let holds' : (x : ℕ) → AncOf full r x ↔ (AncOf full f x × ((x < suc l') ⊎ (l < x))) =
          λ x. subst (λ n. AncOf full r x ↔ (AncOf full f x × ((x < n) ⊎ (l < x)))) a (holds x) in
        let less : l' < l = omega (arith, z, c.0) in
        let from_s : s ≤ l' = ground (arith, more, z) in
        let inside : Has d l' = (omega (arith, size, joins, z), omega (arith, size, joins, z)) in
        let (r', h', sorted', minimal', two) =
          retreat_loop_lem i d r s l' at' inside from_s
            (rest-IsTip f r s l l' k less sorted below minimal holds') in
        (
          r',
          loop_down g e f r s l i l' r' at h more z h',
          sorted',
          minimal',
          both_rounds f r r' s l l' from_s less holds' two,
        )
  ]

-- In a well-formed graph whose entries have frontiers for parents, `retreat` of a frontier by a range
-- at its tip does not panic: the result is sorted, none of its versions is in the history of another,
-- and its history is that of the frontier without the range.
pub retreat_lem :
    (g : Graph) (hi : ℕ) (f : Frontier) (s l : ℕ)
    → IsDag g.entries hi
    → HasFrontiers g.entries
    → s ≤ l
    → l < hi
    → IsTip (expand g.entries) hi f s l
    → Retreated (expand g.entries) (retreat g (record { start = s; end = suc l }) f) f s l
unfolding retreat DtRange.is_empty
retreat_lem g hi f s l dag frontiers m n k =
    let (i, e, found_it, _, _, at, c) =
      find_packed_lem entry_key entry_len span_size 0 hi g.entries l dag.runs (omega arith) n in
    let full_range : (s == suc l) ≡ false = ground (arith, m) in
    let (r, h, sorted, minimal, holds) = retreat_loop_lem g hi dag frontiers i e f s l at c m k in
    (r, rw (full_range, last_of s l, found_it) h, sorted, minimal, holds)
