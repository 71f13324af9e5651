-- ===== src/DiamondTypes/Graph/Push.antt =====
-- `push` of tools/diamond-types/src/causalgraph/graph/mod.rs: the graph it leaves.
use egwalker_paper.Base.{
  get_elem?-append_left, elem_bound, false, length-append, All-below_weaken, ℕ, zero, suc, ◌-◌, ◌≤◌,
  ◌<◌, ◌≡◌, refl, ap, ◌∙◌, ◌⊎◌, inl, inr, true, ◌&&◌, List, [], ◌∷◌, ◌++◌, ◌==◌, ltb, leb,
  if◌then◌else◌, length, arith, Bool-cases, All, All-map, contains,
}
use egwalker_paper.Base.Panic.{Outcome, done}
use egwalker_paper.OtBench.Graph.{GraphEntryInternal as Version}
use egwalker_paper.OtBench.Graph.Ancestors.{Anc, self, up, AncOf}
use egwalker_paper.DiamondTypes.DtRange.{DtRange}
use egwalker_paper.DiamondTypes.Graph.{
  GraphEntryInternal, Graph, shadow_loop, push_slow, graph_push, assert_apart,
}
use egwalker_paper.DiamondTypes.Graph.Expand.{expand, expand_run, IsRuns}
use egwalker_paper.DiamondTypes.Graph.Runs.{IsDag, IsEntry, entry_at, shadow_Anc}
use egwalker_paper.DiamondTypes.Graph.Wiring.{
  IsWired, All-of_elem, elem-All, HasChildrenBelow, AreApart, below-AreFree, add_children_lem,
}
use egwalker_paper.DiamondTypes.Graph.Children.{Gains}
use egwalker_paper.DiamondTypes.Graph.Grow.{
  Grown, StartsNew, SameChildren, extend_last_lem, entries_push_lem,
}

pub Anc-append : (es more : List Version) {v x : ℕ} → Anc es v x → Anc (es ++ more) v x
Anc-append es more self = self
Anc-append es more (up {v = v} e p h c a) =
    up e p (get_elem?-append_left es more v (elem_bound es v e h) ∙ h) c (Anc-append es more a)

IsEntry-append :
    (es more : List Version) (e : GraphEntryInternal) → IsEntry es e → IsEntry (es ++ more) e
IsEntry-append es more e k = record {
  below = k.below;
  shadow_le = k.shadow_le;
  shadowed = λ x l m. (let (p, c, a) = k.shadowed x l m in (p, c, Anc-append es more a));
}

-- All versions from the shadow up to the end of the graph are in the history of the parents.
abbrev pub Shadows : List GraphEntryInternal → ℕ → List ℕ → ℕ → Type 0
Shadows es hi ps s = (x : ℕ) → s ≤ x → x < hi → AncOf (expand es) ps x

-- The version before a shadow is no parent, so the shadow is not to be lowered.
abbrev pub IsLowest : List ℕ → ℕ → Type 0
IsLowest ps s = (leb 1 s && contains ps (s - 1)) ≡ false

pub shadow_loop_lem :
    (es : List GraphEntryInternal) (hi : ℕ) (ps : List ℕ) (fuel s : ℕ)
    → IsDag es hi
    → s < fuel
    → s ≤ hi
    → Shadows es hi ps s
    → (s' : ℕ) × (shadow_loop fuel es ps s ≡ done s')
      × (s' ≤ s)
      × Shadows es hi ps s'
      × IsLowest ps s'
unfolding shadow_loop
shadow_loop_lem es hi ps zero s dag l m h = absurd (omega arith)
shadow_loop_lem es hi ps (suc fuel) s dag l m h =
    elim (Bool-cases (leb 1 s && contains ps (s - 1))) [
      | inr stop ↦ (s, rw (stop, shadow_loop) refl, omega arith, h, stop)
      | inl next ↦
          let (i, e, f, g, c) = entry_at es hi dag (s - 1) (ground (arith, next)) in
          let low = (dag.sound i e g).shadow_le in
          let grows : Shadows es hi ps e.shadow = λ x u v. elim (Bool-cases (ltb x s)) [
            | inl below ↦ (
              s - 1,
              ground (arith, next),
              shadow_Anc es hi dag i e g (s - 1) x c u (ground (arith, below)),
            )
            | inr above ↦ h x (ground (arith, above)) v
          ] in
          let small : e.shadow < s = ground (arith, low, c.0, next) in
          let (s', r, k, t, low') =
            shadow_loop_lem es hi ps fuel e.shadow dag (omega arith) (omega arith) grows in
          (s', rw (next, shadow_loop, f) r, omega arith, t, low')
    ]

-- The graph with its entries grown by a run is well-formed again.
grown-IsDag :
    {Extra : List Version → Type 0} (es es' : List GraphEntryInternal) (hi end : ℕ)
    (new : List Version)
    → IsDag es hi
    → Grown Extra 0 end es es' new
    → Extra (expand es ++ new)
    → IsDag es' end
grown-IsDag es es' hi end new dag grown x =
    let full = expand es ++ new in
    let old : All (IsEntry full) es =
      All-map es (IsEntry-append (expand es) new)
        (All-of_elem (IsEntry (expand es)) es dag.sound) in
    record {
      runs = grown.runs;
      sound =
          λ i e h. rw grown.expanded (elem-All (IsEntry full) es' i e (grown.sound full old x) h);
    }

wired-IsDag :
    (es es' : List GraphEntryInternal) (hi : ℕ) → IsDag es hi → IsWired es es' → IsDag es' hi
wired-IsDag es es' hi dag w = record {
  runs = w.same_runs 0 hi dag.runs;
  sound = λ i e h. rw w.same_versions (
      elem-All (IsEntry (expand es)) es' i e
        (w.same_entries (expand es) (All-of_elem (IsEntry (expand es)) es dag.sound)) h);
}

below-append :
    (k : ℕ) (es : List GraphEntryInternal) (txn : GraphEntryInternal)
    → HasChildrenBelow k es
    → txn.child_indexes ≡ []
    → HasChildrenBelow k (es ++ (txn ∷ []))
below-append k [] txn h e = (rw e tt, tt)
below-append k (d ∷ es) txn h e = (h.0, below-append k es txn h.1 e)

below_more :
    (k : ℕ) (es : List GraphEntryInternal) → HasChildrenBelow k es → HasChildrenBelow (suc k) es
below_more k [] h = tt
below_more k (e ∷ es) h =
    (All-below_weaken k (suc k) e.child_indexes (omega arith) h.0, below_more k es h.1)

no_parents : (ps : List ℕ) → (length ps == 0) ≡ true → ps ≡ []
no_parents [] e = refl
no_parents (p ∷ ps) e = absurd (ground (arith, e))

module _ (g : Graph) (hi : ℕ) (ps : List ℕ) (range : DtRange) where
  -- A new entry behind the others: its shadow cannot be lowered over a parent, the entries of its parents
  -- have its index for a child besides those they had, and so have the roots if it has no parents.
  abbrev pub IsAdded : Graph → Type 0
  IsAdded g' =
      (es : List GraphEntryInternal) × (s : ℕ) × (g'.entries
        ≡ es ++ (record { span = range; shadow = s; parents = ps; child_indexes = [] } ∷ []))
      × IsLowest ps s
      × Gains (length g.entries) ps g.entries es
      × (length es ≡ length g.entries)
      × (ps ≡ [] → g'.root_child_indexes ≡ g.root_child_indexes ++ (length g.entries ∷ []))
      × (¬ (ps ≡ []) → g'.root_child_indexes ≡ g.root_child_indexes)

  -- The last entry extended, with no new children.
  abbrev pub IsExtended : Graph → Type 0
  IsExtended g' = SameChildren g.entries g'.entries × (g'.root_child_indexes ≡ g.root_child_indexes)

  -- What `push` leaves: the versions of the graph, and those of the new run.
  abbrev pub Pushed : Outcome Graph → Type 0
  Pushed o =
      (g' : Graph) × (o ≡ done g')
      × (expand g'.entries ≡ expand g.entries ++ expand_run ps hi (range.end - hi))
      × IsDag g'.entries range.end
      × HasChildrenBelow (length g'.entries) g'.entries
      × ((StartsNew g.entries ps hi × IsAdded g') ⊎ ((ps ≡ (hi - 1) ∷ []) × IsExtended g'))

  push_slow_lem :
      IsDag g.entries hi
      → HasChildrenBelow (length g.entries) g.entries
      → AreApart g.entries ps
      → range.start ≡ hi
      → hi < range.end
      → All (λ p. p < hi) ps
      → StartsNew g.entries ps hi
      → Pushed (push_slow g ps range)
  unfolding push_slow assert_apart
  push_slow_lem dag children apart s l below new_run =
      let n = length g.entries in
      let (shadow, e1, le, shadows, lowest) =
        shadow_loop_lem g.entries hi ps (suc range.start) range.start dag (omega arith)
          (omega (arith, s)) (λ x u v. absurd (omega (arith, s))) in
      let (es, e2, (w, bounded, gains)) =
        add_children_lem n hi ps g.entries dag.runs below (below-AreFree n g.entries ps children)
          apart in
      let txn : GraphEntryInternal = record {
        span = range;
        shadow = shadow;
        parents = ps;
        child_indexes = [];
      } in
      let runs : IsRuns 0 es range.start = rw s (w.same_runs 0 hi dag.runs) in
      let starts : StartsNew es ps range.start =
        λ pos e. new_run (omega (arith, w.same_size)) (rw s at e) in
      let (e3, grown) = entries_push_lem 0 es txn runs (omega (arith, s)) starts in
      let size : length (es ++ (txn ∷ [])) ≡ suc n =
        omega (arith, length-append es (txn ∷ []), w.same_size) in
      let new = expand_run ps range.start (range.end - range.start) in
      let known : IsEntry (expand es ++ new) txn = record {
        below = rw s below;
        shadow_le = le;
        shadowed = λ x u v. rw w.same_versions (
            let (p, c, a) = shadows x u (omega (arith, s)) in
            (p, c, Anc-append (expand g.entries) new a));
      } in
      (
        record {
          entries = es ++ (txn ∷ []);
          root_child_indexes =
              if length ps == 0
              then g.root_child_indexes ++ (length g.entries ∷ [])
              else g.root_child_indexes;
        },
        rw (e1, e2, e3) refl,
        grown.expanded
            ∙ (ap (λ (vs : List Version). vs ++ new) w.same_versions
                ∙ ap (λ h. expand g.entries ++ expand_run ps h (range.end - h)) s),
        grown-IsDag es (es ++ (txn ∷ [])) hi range.end new (wired-IsDag g.entries es hi dag w) grown
            known,
        rw size (below-append (suc n) es txn (bounded (below_more n g.entries children)) refl),
        inl (
          new_run,
          (
            es,
            shadow,
            refl,
            lowest,
            gains,
            w.same_size,
            (λ none. let e : (length ps == 0) ≡ true = rw none refl in rw e refl),
            (λ some_p. elim (Bool-cases (length ps == 0)) [
              | inl e ↦ absurd (some_p (no_parents ps e))
              | inr e ↦ rw e refl
            ]),
          ),
        ),
      )

  -- In a well-formed graph whose children indexes are indexes of its entries, `push` of a run that starts
  -- at the graph's end, with parents in the graph no two of which are in one run, does not panic: the
  -- graph has the new versions behind its own, the first with the parents given and each other with the
  -- one before it, and is such a graph again. If the one parent is the last version, an entry is
  -- extended and no children change. Else an entry is added, with a shadow before which there is no parent;
  -- just the entries of its parents get its index for a child, and the roots if it has no parents.
  pub graph_push_lem :
      IsDag g.entries hi
      → HasChildrenBelow (length g.entries) g.entries
      → AreApart g.entries ps
      → range.start ≡ hi
      → hi < range.end
      → All (λ p. p < hi) ps
      → Pushed (graph_push g ps range)
  unfolding graph_push
  graph_push_lem dag children apart s l below =
      elim (extend_last_lem 0 hi g.entries ps range dag.runs s l) [
        | inl (slow, starts) ↦
            let (g', r, e, d, b, added) = push_slow_lem dag children apart s l below starts in
            (g', rw slow r, e, d, b, added)
        | inr (es', r, grown, same, one) ↦ (
          record g { entries = es' },
          rw r refl,
          grown.expanded,
          grown-IsDag g.entries es' hi range.end (expand_run ps hi (range.end - hi)) dag grown tt,
          rw same.0 (same.1 (length g.entries) children),
          inr (one, (same, refl)),
        )
      ]
