-- ===== src/DiamondTypes/Graph/Tools/Contains.antt =====
-- `frontier_contains_version` of tools/diamond-types/src/causalgraph/graph/tools.rs, and the
-- comparisons that rest on it, against the histories of the graph without runs.
use egwalker_paper.Base.{
  iff_trans, ℕ, zero, suc, ◌≤◌, ◌<◌, ◌≡◌, refl, ◌⊎◌, ◌↔◌, inl, inr, Bool, true, false, List, [],
  ◌∷◌, none, some, ltb, ==_iff, arith, Bool-cases, Option-cases, All, contains, get_elem?,
}
use egwalker_paper.Base.Panic.{Outcome, done}
use egwalker_paper.OtBench.Frontier.Advance.{IsSorted}
use egwalker_paper.OtBench.Graph.Ancestors.{Anc, self, AncOf, Anc-le, ancof_cons, All-contains}
use egwalker_paper.DiamondTypes.RleVec.{last_entry}
use egwalker_paper.DiamondTypes.Graph.{GraphEntryInternal, Graph, find_entry, shadow_contains}
use egwalker_paper.DiamondTypes.Graph.Expand.{expand}
use egwalker_paper.DiamondTypes.Graph.Runs.{
  IsDag, Has, entry_at, dag-IsCausal, run_history, shadow_Anc,
}
use egwalker_paper.DiamondTypes.Graph.Tools.{
  Queue, push_above, pop_run, scan_parents, resume, contains_loop, shadow_hit, contains_slow,
  frontier_contains_version,
}
use egwalker_paper.DiamondTypes.Graph.Tools.Queue.{
  IsQueue, rest_below, push_above-IsQueue, ancof_push_above, scan_lem, pop_lem,
}

target_from : (e : GraphEntryInternal) (x : ℕ) → shadow_contains e x ≡ true → e.shadow ≤ x
unfolding shadow_contains
target_from e x h = ground (arith, h)

target_before : (e : GraphEntryInternal) (x : ℕ) → shadow_contains e x ≡ false → x < e.shadow
unfolding shadow_contains
target_before e x h = ground (arith, h)

All-lt_suc : (m : ℕ) (xs : List ℕ) → All (λ v. v ≤ m) xs → All (λ v. v < suc m) xs
All-lt_suc m [] h = tt
All-lt_suc m (x ∷ xs) h = (omega (arith, h.0), All-lt_suc m xs h.1)

last_entry-none : (f : List ℕ) → last_entry f ≡ none → f ≡ []
last_entry-none [] h = refl
last_entry-none (x ∷ []) h = absurd (ground arith)
last_entry-none (x ∷ y ∷ f) h = absurd (ground (arith, last_entry-none (y ∷ f) h))

-- The greatest version of a sorted frontier is its last.
last-greatest :
    (f : List ℕ) (m : ℕ)
    → IsSorted f
    → last_entry f ≡ some m
    → (contains f m ≡ true) × All (λ v. v ≤ m) f
last-greatest [] m s h = absurd (ground arith)
last-greatest (x ∷ []) m s h =
    let same : x ≡ m = cc in (ground (arith, (==_iff x m).1 same), (omega (arith, same), tt))
last-greatest (x ∷ y ∷ f) m s h =
    let (c, a) = last-greatest (y ∷ f) m s.1 h in
    (ground (arith, c), (omega (arith, All-contains (λ z. x < z) (y ∷ f) m s.0 c), a))

module _ (es : List GraphEntryInternal) (hi : ℕ) (dag : IsDag es hi) (target : ℕ) where
  -- The answer of a search over versions: whether the target is in their history.
  abbrev pub Answers : Outcome Bool → List ℕ → Type 0
  Answers o vs = (b : Bool) × (o ≡ done b) × ((b ≡ true) ↔ AncOf (expand es) vs target)

  loop_hit :
      (fuel order : ℕ) (q : Queue) (e : GraphEntryInternal)
      → find_entry es order ≡ done e
      → shadow_contains e target ≡ true
      → contains_loop (suc fuel) es target (order ∷ q) ≡ done true
  unfolding contains_loop resume
  loop_hit fuel order q e f h = rw (f, h) refl

  loop_parent :
      (fuel order : ℕ) (q : Queue) (e : GraphEntryInternal)
      → find_entry es order ≡ done e
      → shadow_contains e target ≡ false
      → scan_parents target e.parents (pop_run e.span.start q) ≡ none
      → contains_loop (suc fuel) es target (order ∷ q) ≡ done true
  unfolding contains_loop resume
  loop_parent fuel order q e f h s = rw (f, h, s) refl

  loop_next :
      (fuel order : ℕ) (q q' : Queue) (e : GraphEntryInternal) (b : Bool)
      → find_entry es order ≡ done e
      → shadow_contains e target ≡ false
      → scan_parents target e.parents (pop_run e.span.start q) ≡ some q'
      → contains_loop fuel es target q' ≡ done b
      → contains_loop (suc fuel) es target (order ∷ q) ≡ done b
  unfolding contains_loop resume
  loop_next fuel order q q' e b f h s r = rw (f, h, s, r) refl

  -- The history of the version at hand is that of its run's parents.
  ancof_run :
      (order : ℕ) (q : Queue) (e : GraphEntryInternal) (i : ℕ)
      → get_elem? es i ≡ some e
      → Has e order
      → target < e.span.start
      → (AncOf (expand es) e.parents target ⊎ AncOf (expand es) q target)
        ↔ AncOf (expand es) (order ∷ q) target
  ancof_run order q e i g c l =
      let (split, join) = ancof_cons (expand es) order q target in
      let (to, from) = run_history es hi dag i e g order target c l in
      (
        elim [ inl a ↦ join (inl (from a)) | inr a ↦ join (inr a) ],
        λ a. elim (split a) [ inl b ↦ inl (to b) | inr b ↦ inr b ],
      )

  -- A round past the shadow's test, given the rounds after it.
  loop_round :
      (fuel m order : ℕ) (q : Queue) (e : GraphEntryInternal) (i : ℕ)
      → find_entry es order ≡ done e
      → get_elem? es i ≡ some e
      → Has e order
      → shadow_contains e target ≡ false
      → IsQueue target m (order ∷ q)
      → ((q' : Queue)
          → IsQueue target e.span.start q'
          → Answers (contains_loop fuel es target q') q')
      → Answers (contains_loop (suc fuel) es target (order ∷ q)) (order ∷ q)
  loop_round fuel m order q e i f g c far h next =
      let known = dag.sound i e g in
      let start = e.span.start in
      let l : target < start = omega (arith, target_before e target far, known.shadow_le) in
      let down : (v : ℕ)
          → start ≤ v
          → v < suc order
          → Anc (expand es) v target
          → AncOf (expand es) e.parents target =
        λ v s u. (run_history es hi dag i e g v target (s, omega (arith, u, c.1)) l).0 in
      let inside = rest_below target order (suc order) m q (omega arith) h.0.1 h.1.0 in
      let (k, popped) =
        pop_lem (expand es) (dag-IsCausal es hi dag) target start (suc order) e.parents q down
          (inside, h.1.1) in
      elim (scan_lem (expand es) (dag-IsCausal es hi dag) target start e.parents (pop_run start q)
        known.below k) [
          | inl (s, a) ↦ (
            true,
            loop_parent fuel order q e f far s,
            (λ t. (ancof_run order q e i g c l).0 (inl a), λ b. refl),
          )
          | inr (q', s, k', scanned) ↦
              let (b, r, answer) = next q' k' in
              (
                b,
                loop_next fuel order q q' e b f far s r,
                iff_trans answer
                    (iff_trans scanned (iff_trans popped (ancof_run order q e i g c l))),
              )
        ]

  loop_lem :
      (fuel m : ℕ) (q : Queue)
      → m < fuel
      → m ≤ hi
      → IsQueue target m q
      → Answers (contains_loop fuel es target q) q
  loop_lem zero m q l k h = absurd (omega arith)
  loop_lem (suc fuel) m [] l k h = (
    false,
    unfold contains_loop in refl,
    (λ e. absurd (ground (arith, e)), λ (p, c, a). absurd (ground arith)),
  )
  loop_lem (suc fuel) m (order ∷ q) l k h =
      let (i, e, f, g, c) = entry_at es hi dag order (omega (arith, h.0.0.1)) in
      elim (Bool-cases (shadow_contains e target)) [
        | inl hit ↦ (
          true,
          loop_hit fuel order q e f hit,
          (
            λ t. (ancof_cons (expand es) order q target).1 (
                inl (
                  shadow_Anc es hi dag i e g order target c (target_from e target hit)
                    (omega (arith, h.0.0.0)))),
            λ a. refl,
          ),
        )
        | inr far ↦ loop_round fuel m order q e i f g c far h (λ q' k'.
            loop_lem fuel e.span.start q' (omega (arith, c.0, h.0.0.1))
              (omega (arith, c.0, h.0.0.1)) k')
      ]

  shadow_hit_lem :
      (os : List ℕ)
      → All (λ v. v < hi) os
      → (b : Bool) × (shadow_hit es os target ≡ done b) × ((b ≡ true) → AncOf (expand es) os target)
  unfolding shadow_hit
  shadow_hit_lem [] h = (false, refl, λ e. absurd (ground (arith, e)))
  shadow_hit_lem (o ∷ os) h =
      let (b, r, sound) = shadow_hit_lem os h.1 in
      let (i, e, f, g, c) = entry_at es hi dag o h.0 in
      let later : (b ≡ true) → AncOf (expand es) (o ∷ os) target =
        λ t. (ancof_cons (expand es) o os target).1 (inr (sound t)) in
      elim (Bool-cases (ltb target o)) [
        | inr low ↦ (b, rw (low, r) refl, later)
        | inl above ↦ elim (Bool-cases (shadow_contains e target)) [
          | inr far ↦ (b, rw (above, f, far, r) refl, later)
          | inl hit ↦ (
            true,
            rw (above, f, hit) refl,
            λ t. (ancof_cons (expand es) o os target).1 (
                inl (
                  shadow_Anc es hi dag i e g o target c (target_from e target hit)
                    (ground (arith, above)))),
          )
        ]
      ]

  contains_slow_lem :
      (f : List ℕ) (m : ℕ)
      → m < hi
      → All (λ v. v ≤ m) f
      → All (λ v. v < hi) f
      → contains f target ≡ false
      → Answers (contains_slow es f m target) f
  unfolding contains_slow
  contains_slow_lem f m l a h n =
      let (b, r, sound) = shadow_hit_lem f h in
      elim (Bool-cases b) [
        | inl t ↦ (true, rw (r, t) refl, (λ u. sound t, λ u. refl))
        | inr t ↦
            let queued =
              push_above-IsQueue (expand es) (dag-IsCausal es hi dag) target (suc m) f []
                (All-lt_suc m f a) (tt, tt) in
            let (d, s, answer) =
              loop_lem (suc (suc m)) (suc m) (push_above target f []) (omega arith) (omega arith)
                queued in
            (
              d,
              rw (r, t) s,
              iff_trans answer (
                  iff_trans (ancof_push_above (expand es) (dag-IsCausal es hi dag) target f [] n)
                    (elim [ inl b ↦ b | inr (p, c, b) ↦ absurd (ground arith) ], inl)),
            )
      ]

-- In a well-formed graph, with the versions of the frontier in order, `frontier_contains_version` does
-- not panic or run out of fuel, and returns whether the target is in the frontier's history.
pub frontier_contains_version_lem :
    (g : Graph) (hi : ℕ) (frontier : List ℕ) (target : ℕ)
    → IsDag g.entries hi
    → IsSorted frontier
    → All (λ v. v < hi) frontier
    → (b : Bool) × (frontier_contains_version g frontier target ≡ done b)
      × ((b ≡ true) ↔ AncOf (expand g.entries) frontier target)
unfolding frontier_contains_version
frontier_contains_version_lem g hi frontier target dag s h =
    elim (Bool-cases (contains frontier target)) [
      | inl c ↦ (true, rw c refl, (λ t. (target, c, self), λ a. refl))
      | inr c ↦ elim (Option-cases (last_entry frontier)) [
        | inl e ↦
            let nothing = last_entry-none frontier e in
            (
              false,
              rw (c, e) refl,
              (
                λ t. absurd (ground (arith, t)),
                λ (p, k, a). absurd (ground (arith, rw nothing at k)),
              ),
            )
        | inr (m, e) ↦
            let (member, below) = last-greatest frontier m s e in
            elim (Bool-cases (ltb m target)) [
              | inl above ↦ (
                false,
                rw (c, e, above) refl,
                (
                  λ t. absurd (ground (arith, t)),
                  λ (p, k, a). absurd (
                      ground (
                        arith,
                        above,
                        Anc-le (expand g.entries) (dag-IsCausal g.entries hi dag) a,
                        All-contains (λ v. v ≤ m) frontier p below k,
                      )),
                ),
              )
              | inr low ↦
                  let (b, r, answer) =
                    contains_slow_lem g.entries hi dag target frontier m
                      (All-contains (λ v. v < hi) frontier m h member) below h c in
                  (b, rw (c, e, low) r, answer)
            ]
      ]
    ]
