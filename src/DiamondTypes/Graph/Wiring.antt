-- ===== src/DiamondTypes/Graph/Wiring.antt =====
-- The loop that wires up the children in `push` of tools/diamond-types/src/causalgraph/graph/mod.rs: what
-- it leaves as it was.
use egwalker_paper.Base.{
  ℕ, zero, suc, ◌+◌, ◌-◌, ◌≤◌, ◌<◌, ◌≡◌, refl, ap, sym, subst, ◌∙◌, ◌⊎◌, inl, inr, false, List, [],
  ◌∷◌, ◌++◌, Option, none, some, contains, length, get_elem?, set, arith, All,
}
use egwalker_paper.Base.Panic.{done}
use egwalker_paper.OtBench.Graph.{GraphEntryInternal as Version}
use egwalker_paper.DiamondTypes.RleVec.Find.{find_packed_lem, index_lem}
use egwalker_paper.DiamondTypes.Graph.{
  GraphEntryInternal, entry_key, entry_len, add_child, add_children, assert_new,
}
use egwalker_paper.DiamondTypes.Graph.Expand.{expand, expand_run, span_size, IsRuns}
use egwalker_paper.DiamondTypes.Graph.Runs.{IsEntry, Has}
use egwalker_paper.DiamondTypes.DtRange.{DtRange}
use egwalker_paper.DiamondTypes.Graph.Children.{Gains, set-Gains, Gains-nil, Gains-cons}

pub All-of_elem :
    (P : GraphEntryInternal → Type 0) (es : List GraphEntryInternal)
    → ((i : ℕ) (e : GraphEntryInternal) → get_elem? es i ≡ some e → P e)
    → All P es
All-of_elem P [] h = tt
All-of_elem P (e ∷ es) h = (h 0 e refl, All-of_elem P es (λ i. h (suc i)))

pub elem-All :
    (P : GraphEntryInternal → Type 0) (es : List GraphEntryInternal) (i : ℕ)
    (e : GraphEntryInternal)
    → All P es
    → get_elem? es i ≡ some e
    → P e
elem-All P [] i e h g = absurd (ground arith)
elem-All P (d ∷ es) zero e h g = let same : d ≡ e = cc in subst P same h.0
elem-All P (d ∷ es) (suc i) e h g = elem-All P es i e h.1 g

-- Entries whose spans are those of other entries, at the same places.
abbrev pub HaveSpans : List GraphEntryInternal → List GraphEntryInternal → Type 0
HaveSpans es es' =
    (i : ℕ) (e' : GraphEntryInternal)
    → get_elem? es' i ≡ some e'
    → (e : GraphEntryInternal) × (get_elem? es i ≡ some e) × (e.span ≡ e'.span)

-- Every child index is below `n`.
abbrev pub HasChildrenBelow : ℕ → List GraphEntryInternal → Type 0
HasChildrenBelow n es = All (λ e. All (λ c. c < n) e.child_indexes) es

-- No entry with one of the versions has `n` for a child.
abbrev pub AreFree : ℕ → List GraphEntryInternal → List ℕ → Type 0
AreFree n es ps =
    All
      (λ p.
        (i : ℕ) (e : GraphEntryInternal)
        → get_elem? es i ≡ some e
        → Has e p
        → contains e.child_indexes n ≡ false)
      ps

-- No two of the versions are in one run.
abbrev pub AreApart : List GraphEntryInternal → List ℕ → Type 0
AreApart es [] = Unit
AreApart es (p ∷ ps) =
    All (λ q. (i : ℕ) (e : GraphEntryInternal) → get_elem? es i ≡ some e → Has e p → Has e q → ⊥) ps
    × AreApart es ps

-- Entries that differ in their children only.
pub record IsWired (es es' : List GraphEntryInternal) : Type 0 where
  pub same_size : length es' ≡ length es
  pub same_versions : expand es' ≡ expand es
  pub same_runs : (lo hi : ℕ) → IsRuns lo es hi → IsRuns lo es' hi
  pub same_spans : HaveSpans es es'
  pub same_entries : (full : List Version) → All (IsEntry full) es → All (IsEntry full) es'

IsWired-trans : (a b c : List GraphEntryInternal) → IsWired a b → IsWired b c → IsWired a c
IsWired-trans a b c h k = record {
  same_size = k.same_size ∙ h.same_size;
  same_versions = k.same_versions ∙ h.same_versions;
  same_runs = λ lo hi r. k.same_runs lo hi (h.same_runs lo hi r);
  same_spans = λ i e at.
      (let (d, at', s) = k.same_spans i e at in
        let (f, at'', s') = h.same_spans i d at' in (f, at'', s' ∙ s));
  same_entries = λ full r. k.same_entries full (h.same_entries full r);
}

same_span_head :
    (es : List GraphEntryInternal) (e : GraphEntryInternal) (cs : List ℕ)
    → HaveSpans (e ∷ es) (record e { child_indexes = cs } ∷ es)
same_span_head es e cs zero f at =
    (e, refl, ap (λ (o : Option GraphEntryInternal). elim o [ none ↦ e.span | some x ↦ x.span ]) at)
same_span_head es e cs (suc j) f at = (f, at, refl)

same_span_tail :
    (d : GraphEntryInternal) (es es' : List GraphEntryInternal)
    → HaveSpans es es'
    → HaveSpans (d ∷ es) (d ∷ es')
same_span_tail d es es' h zero f at = (f, at, refl)
same_span_tail d es es' h (suc j) f at = h j f at

set-IsWired :
    (es : List GraphEntryInternal) (i : ℕ) (e : GraphEntryInternal) (cs : List ℕ)
    → get_elem? es i ≡ some e
    → IsWired es (set es i (record e { child_indexes = cs }))
set-IsWired [] i e cs h = absurd (ground arith)
set-IsWired (d ∷ es) zero e cs h =
    let same : d ≡ e = cc in
    rw same (record {
      same_size = refl;
      same_versions = refl;
      same_runs = λ lo hi r. r;
      same_spans = same_span_head es e cs;
      same_entries = λ full r.
          (record { below = r.0.below; shadow_le = r.0.shadow_le; shadowed = r.0.shadowed }, r.1);
    })
set-IsWired (d ∷ es) (suc i) e cs h =
    let w = set-IsWired es i e cs h in
    record {
      same_size = ap suc w.same_size;
      same_versions =
          ap (λ (vs : List Version). expand_run d.parents d.span.start (span_size d) ++ vs)
            w.same_versions;
      same_runs = λ lo hi r. (r.0, r.1, r.2, w.same_runs (lo + span_size d) hi r.3);
      same_spans = λ j f at. same_span_tail d es _ w.same_spans j f at;
      same_entries = λ full r. (r.0, w.same_entries full r.1);
    }

not_contains-below : (n : ℕ) (cs : List ℕ) → All (λ c. c < n) cs → contains cs n ≡ false
not_contains-below n [] h = refl
not_contains-below n (c ∷ cs) h = ground (arith, h.0, not_contains-below n cs h.1)

-- Where every child index is below `n`, every version is free.
pub below-AreFree :
    (n : ℕ) (es : List GraphEntryInternal) (ps : List ℕ) → HasChildrenBelow n es → AreFree n es ps
below-AreFree n es [] h = tt
below-AreFree n es (p ∷ ps) h = (
  λ i e at c.
      not_contains-below n e.child_indexes
        (elem-All (λ e. All (λ c. c < n) e.child_indexes) es i e h at),
  below-AreFree n es ps h,
)

set_cases :
    (es : List GraphEntryInternal) (i j : ℕ) (x e : GraphEntryInternal)
    → get_elem? (set es i x) j ≡ some e
    → (x ≡ e) ⊎ (get_elem? es j ≡ some e)
set_cases [] i j x e at = inr at
set_cases (d ∷ es) zero zero x e at = inl cc
set_cases (d ∷ es) zero (suc j) x e at = inr at
set_cases (d ∷ es) (suc i) zero x e at = inr at
set_cases (d ∷ es) (suc i) (suc j) x e at = set_cases es i j x e at

-- An entry that gets a child leaves the versions of other runs free.
set-AreFree :
    (n : ℕ) (es : List GraphEntryInternal) (i p : ℕ) (e : GraphEntryInternal) (cs ps : List ℕ)
    → get_elem? es i ≡ some e
    → Has e p
    → All
        (λ q. (i : ℕ) (e : GraphEntryInternal) → get_elem? es i ≡ some e → Has e p → Has e q → ⊥)
        ps
    → AreFree n es ps
    → AreFree n (set es i (record e { child_indexes = cs })) ps
set-AreFree n es i p e cs [] at c apart free = tt
set-AreFree n es i p e cs (q ∷ ps) at c apart free = (
  λ j f at' d. elim (set_cases es i j (record e { child_indexes = cs }) f at') [
    | inl same ↦
        absurd (apart.0 i e at c (subst (λ (x : GraphEntryInternal). Has x q) (sym same) d))
    | inr old ↦ free.0 j f old d
  ],
  set-AreFree n es i p e cs ps at c apart.1 free.1,
)

set-HasChildrenBelow :
    (k : ℕ) (es : List GraphEntryInternal) (i : ℕ) (x : GraphEntryInternal)
    → HasChildrenBelow k es
    → All (λ c. c < k) x.child_indexes
    → HasChildrenBelow k (set es i x)
set-HasChildrenBelow k [] i x h a = tt
set-HasChildrenBelow k (e ∷ es) zero x h a = (a, h.1)
set-HasChildrenBelow k (e ∷ es) (suc i) x h a = (h.0, set-HasChildrenBelow k es i x h.1 a)

append_below :
    (k n : ℕ) (cs : List ℕ) → All (λ c. c < k) cs → n < k → All (λ c. c < k) (cs ++ (n ∷ []))
append_below k n [] h l = (l, tt)
append_below k n (c ∷ cs) h l = (h.0, append_below k n cs h.1 l)

-- What the loop leaves: other children, all below `suc n`.
abbrev pub Wired : ℕ → List ℕ → List GraphEntryInternal → List GraphEntryInternal → Type 0
Wired n ps es es' =
    IsWired es es'
    × (HasChildrenBelow (suc n) es → HasChildrenBelow (suc n) es')
    × Gains n ps es es'

add_child_lem :
    (n hi p : ℕ) (es : List GraphEntryInternal) (ps : List ℕ)
    → IsRuns 0 es hi
    → p < hi
    → AreFree n es (p ∷ ps)
    → AreApart es (p ∷ ps)
    → (es' : List GraphEntryInternal) × (add_child n es p ≡ done es')
      × Wired n (p ∷ []) es es'
      × AreFree n es' ps
unfolding add_child assert_new
add_child_lem n hi p es ps h l free apart =
    let (i, e, f, _, _, g, c) =
      find_packed_lem entry_key entry_len span_size 0 hi es p h (omega arith) l in
    let cs = e.child_indexes ++ (n ∷ []) in
    (
      set es i (record e { child_indexes = cs }),
      rw (f, index_lem es i e g, free.0 i e g c) refl,
      (
        set-IsWired es i e cs g,
        λ b.
            set-HasChildrenBelow (suc n) es i (record e { child_indexes = cs }) b
              (append_below (suc n) n e.child_indexes
                (elem-All (λ e. All (λ c. c < suc n) e.child_indexes) es i e b g) (omega arith)),
        set-Gains n hi p i es e h g c,
      ),
      set-AreFree n es i p e cs ps g c apart.0 free.1,
    )

-- Versions in different runs stay so.
wired-AreApart :
    (es es' : List GraphEntryInternal) (ps : List ℕ)
    → HaveSpans es es'
    → AreApart es ps
    → AreApart es' ps
wired-AreApart es es' [] w h = tt
wired-AreApart es es' (p ∷ ps) w h = (wired_head es es' p ps w h.0, wired-AreApart es es' ps w h.1)
  where
    wired_head :
        (es es' : List GraphEntryInternal) (p : ℕ) (ps : List ℕ)
        → HaveSpans es es'
        → All
            (λ q.
              (i : ℕ) (e : GraphEntryInternal) → get_elem? es i ≡ some e → Has e p → Has e q → ⊥)
            ps
        → All
            (λ q.
              (i : ℕ) (e : GraphEntryInternal) → get_elem? es' i ≡ some e → Has e p → Has e q → ⊥)
            ps
    wired_head es es' p [] w h = tt
    wired_head es es' p (q ∷ ps) w h = (
      λ i e at c d.
          (let (f, at', same) = w i e at in
            h.0 i f at'
              (subst (λ (s : DtRange). (s.start ≤ p) × (p < s.start + (s.end - s.start))) (sym same)
                c)
              (subst (λ (s : DtRange). (s.start ≤ q) × (q < s.start + (s.end - s.start))) (sym same)
                d)),
      wired_head es es' p ps w h.1,
    )

-- The loop does not panic on versions of the graph, no two in one run, whose runs do not have the new
-- index for a child.
pub add_children_lem :
    (n hi : ℕ) (ps : List ℕ) (es : List GraphEntryInternal)
    → IsRuns 0 es hi
    → All (λ p. p < hi) ps
    → AreFree n es ps
    → AreApart es ps
    → (es' : List GraphEntryInternal) × (add_children n es ps ≡ done es') × Wired n ps es es'
unfolding add_children
add_children_lem n hi [] es h l free apart = (
  es,
  refl,
  (
    record {
      same_size = refl;
      same_versions = refl;
      same_runs = λ lo up r. r;
      same_spans = λ i e at. (e, at, refl);
      same_entries = λ full r. r;
    },
    λ b. b,
    Gains-nil n es,
  ),
)
add_children_lem n hi (p ∷ ps) es h l free apart =
    let (es1, e1, (w1, b1, g1), free1) = add_child_lem n hi p es ps h l.0 free apart in
    let (es2, e2, (w2, b2, g2)) =
      add_children_lem n hi ps es1 (w1.same_runs 0 hi h) l.1 free1
        (wired-AreApart es es1 ps w1.same_spans apart.1) in
    (
      es2,
      rw e1 e2,
      (IsWired-trans es es1 es2 w1 w2, (λ b. b2 (b1 b)), Gains-cons n p ps es es1 es2 g1 g2),
    )
