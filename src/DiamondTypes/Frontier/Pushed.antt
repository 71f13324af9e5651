-- ===== src/DiamondTypes/Frontier/Pushed.antt =====
-- `push` of tools/diamond-types/src/causalgraph/graph/mod.rs of a run whose parents are a frontier: the
-- parents of each run stay one.
use egwalker_paper.Base.{
  All-below_weaken, elem_bound, get_elem?-append_left, get_elem?-append_right, ℕ, zero, suc, ◌+◌,
  ◌-◌, ◌≤◌, ◌<◌, ◌≡◌, sym, ap, subst, ◌∙◌, inl, inr, true, false, contains, contains_self, Option,
  List, [], ◌∷◌, ◌++◌, some, ltb, ltb→lt, length, get_elem?, arith, All, Bool-cases, if◌then◌else◌,
}
use egwalker_paper.Base.Panic.{done}
use egwalker_paper.OtBench.Graph.{GraphEntryInternal as Version}
use egwalker_paper.OtBench.Graph.Ancestors.{Anc, self, up, IsCausal, All-contains}
use egwalker_paper.OtBench.Frontier.Advance.{IsSorted}
use egwalker_paper.DiamondTypes.DtRange.{DtRange}
use egwalker_paper.DiamondTypes.Graph.{GraphEntryInternal, Graph, parents_at, graph_push}
use egwalker_paper.DiamondTypes.Graph.Expand.{
  expand, expand_run, span_size, IsRuns, length-expand, length-expand_run, run_elem,
}
use egwalker_paper.DiamondTypes.Graph.Runs.{IsDag, Has, entry_at, version_at, dag-IsCausal, run_Anc}
use egwalker_paper.DiamondTypes.Graph.Wiring.{HasChildrenBelow, AreApart}
use egwalker_paper.DiamondTypes.Graph.Push.{graph_push_lem}
use egwalker_paper.DiamondTypes.Frontier.Uncovered.{IsMinimal}
use egwalker_paper.DiamondTypes.Frontier.Round.{
  HasFrontiers, parents-IsFrontier, one-IsSorted, one-IsMinimal,
}

-- In a graph without runs, the parents of every version are a frontier.
abbrev AreFrontiers : List Version → Type 0
AreFrontiers full =
    (v : ℕ) (d : Version)
    → get_elem? full v ≡ some d
    → IsSorted d.parents × IsMinimal full d.parents

same_version :
    (P : Version → Type 0) (o : Option Version) (d e : Version)
    → o ≡ some d
    → o ≡ some e
    → P d
    → P e
same_version P o d e h k p = let same : d ≡ e = cc in subst P same p

-- Versions added behind a graph change no history in it.
Anc-old :
    (full new : List Version)
    → IsCausal full
    → {v x : ℕ} → v < length full
    → Anc (full ++ new) v x
    → Anc full v x
Anc-old full new causal l self = self
Anc-old full new causal {v} l (up e p h c a) =
    let h' : get_elem? full v ≡ some e = sym (get_elem?-append_left full new v l) ∙ h in
    let below = All-contains (λ q. q < v) e.parents p (causal v e h') c in
    up e p h' c (Anc-old full new causal (omega arith) a)

old-IsMinimal :
    (full new : List Version) (f : List ℕ)
    → IsCausal full
    → All (λ p. p < length full) f
    → IsMinimal full f
    → IsMinimal (full ++ new) f
old-IsMinimal full new f causal b m p q c d a =
    m p q c d (Anc-old full new causal (All-contains (λ v. v < length full) f p b c) a)

-- A graph with a run behind it whose parents are a frontier.
run-AreFrontiers :
    (full : List Version) (ps : List ℕ) (n : ℕ)
    → IsCausal full
    → AreFrontiers full
    → All (λ p. p < length full) ps
    → IsSorted ps
    → IsMinimal full ps
    → AreFrontiers (full ++ expand_run ps (length full) n)
run-AreFrontiers full ps n causal flat b s m v d h =
    let new = expand_run ps (length full) n in
    elim (Bool-cases (ltb v (length full))) [
      | inl t ↦
          let l = ltb→lt v (length full) t in
          let h' : get_elem? full v ≡ some d = sym (get_elem?-append_left full new v l) ∙ h in
          let (sd, md) = flat v d h' in
          (
            sd,
            old-IsMinimal full new d.parents causal
                (All-below_weaken v (length full) d.parents (omega arith) (causal v d h')) md,
          )
      | inr t ↦
          let l : length full ≤ v = ground (arith, t) in
          let h' : get_elem? new (v - length full) ≡ some d =
            sym (get_elem?-append_right full new v l) ∙ h in
          let k : v < length full + n =
            omega (
              arith,
              elem_bound new (v - length full) d h',
              length-expand_run ps (length full) n,
            ) in
          same_version (λ e. IsSorted e.parents × IsMinimal (full ++ new) e.parents)
            (get_elem? new (v - length full))
            (record { idx = v; parents = if ltb (length full) v then (v - 1) ∷ [] else ps }) d
            (run_elem ps (length full) n v l k) h'
            (elim (Bool-cases (ltb (length full) v)) [
              | inl u ↦ rw u (one-IsSorted (v - 1), one-IsMinimal (full ++ new) (v - 1))
              | inr u ↦ rw u (s, old-IsMinimal full new ps causal b m)
            ])
    ]

run_nonempty :
    (lo hi : ℕ) (es : List GraphEntryInternal) (i : ℕ) (e : GraphEntryInternal)
    → IsRuns lo es hi
    → get_elem? es i ≡ some e
    → 0 < span_size e
run_nonempty lo hi [] i e h g = absurd (ground arith)
run_nonempty lo hi (d ∷ es) zero e h g =
    let same : d ≡ e = cc in subst (λ x. 0 < span_size x) same (h.1)
run_nonempty lo hi (d ∷ es) (suc i) e h g = run_nonempty (lo + span_size d) hi es i e h.3 g

flat-HasFrontiers :
    (es : List GraphEntryInternal) (hi : ℕ)
    → IsDag es hi
    → AreFrontiers (expand es)
    → HasFrontiers es
unfolding parents_at
flat-HasFrontiers es hi dag flat i e g =
    let pos = run_nonempty 0 hi es i e dag.runs g in
    let c : Has e e.span.start = (omega arith, omega (arith, pos)) in
    let no : ltb e.span.start e.span.start ≡ false = ground arith in
    flat e.span.start (record { idx = e.span.start; parents = e.parents })
      (rw no at (version_at es hi dag i e e.span.start g c))

HasFrontiers-flat :
    (g : Graph) (hi : ℕ)
    → IsDag g.entries hi
    → HasFrontiers g.entries
    → AreFrontiers (expand g.entries)
HasFrontiers-flat g hi dag h v d at =
    let known : v < hi =
      omega (arith, elem_bound (expand g.entries) v d at, length-expand 0 hi g.entries dag.runs) in
    let (i, e, _, k, c) = entry_at g.entries hi dag v known in
    same_version (λ x. IsSorted x.parents × IsMinimal (expand g.entries) x.parents)
      (get_elem? (expand g.entries) v) (record { idx = v; parents = parents_at e v }) d
      (version_at g.entries hi dag i e v k c) at (parents-IsFrontier g hi dag h i e v k)

-- No two versions of a frontier are in one run, where the later has the earlier in its history.
pub minimal-AreApart :
    (es : List GraphEntryInternal) (hi : ℕ) (ps : List ℕ)
    → IsDag es hi
    → IsSorted ps
    → IsMinimal (expand es) ps
    → AreApart es ps
minimal-AreApart es hi [] dag sorted m = tt
minimal-AreApart es hi (p ∷ ps) dag sorted m = (
  head ps sorted.0 (λ q c. m q p (ground (arith, c)) (contains_self p ps)),
  minimal-AreApart es hi ps dag sorted.1 (λ x y c d. m x y (ground (arith, c)) (ground (arith, d))),
)
  where
    head :
        (qs : List ℕ)
        → All (λ q. p < q) qs
        → ((q : ℕ) → contains qs q ≡ true → Anc (expand es) q p → q ≡ p)
        → All
            (λ q.
              (i : ℕ) (e : GraphEntryInternal) → get_elem? es i ≡ some e → Has e p → Has e q → ⊥)
            qs
    head [] above h = tt
    head (q ∷ qs) above h = (
      λ i e at c d.
          (let z : p + (q - p) ≡ q = omega (arith, above.0) in
            let a : Anc (expand es) q p =
              rw z at (run_Anc es hi dag i e at (q - p) p (rw z d) c.0) in
            omega (arith, above.0, h q (contains_self q qs) a)),
      head qs above.1 (λ x c. h x (ground (arith, c))),
    )

-- In a well-formed graph in which the parents of each run are a frontier and the child indexes are indexes
-- of its entries, `push` of a run at its end whose parents are a frontier does not panic, and leaves
-- such a graph.
pub graph_push-HasFrontiers :
    (g : Graph) (hi : ℕ) (ps : List ℕ) (range : DtRange)
    → IsDag g.entries hi
    → HasChildrenBelow (length g.entries) g.entries
    → HasFrontiers g.entries
    → range.start ≡ hi
    → hi < range.end
    → All (λ p. p < hi) ps
    → IsSorted ps
    → IsMinimal (expand g.entries) ps
    → (g' : Graph) × (graph_push g ps range ≡ done g')
      × IsDag g'.entries range.end
      × HasChildrenBelow (length g'.entries) g'.entries
      × HasFrontiers g'.entries
graph_push-HasFrontiers g hi ps range dag children h s l b sorted minimal =
    let apart = minimal-AreApart g.entries hi ps dag sorted minimal in
    let (g', e, grown, dag', children', _) =
      graph_push_lem g hi ps range dag children apart s l b in
    let n : length (expand g.entries) ≡ hi = omega (arith, length-expand 0 hi g.entries dag.runs) in
    let flat =
      run-AreFrontiers (expand g.entries) ps (range.end - hi) (dag-IsCausal g.entries hi dag)
        (HasFrontiers-flat g hi dag h) (rw n b) sorted minimal in
    (
      g',
      e,
      dag',
      children',
      flat-HasFrontiers g'.entries range.end dag' (
          subst AreFrontiers
            (ap (λ k. expand g.entries ++ expand_run ps k (range.end - hi)) n ∙ sym grown) flat),
    )
