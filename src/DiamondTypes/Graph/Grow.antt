-- ===== src/DiamondTypes/Graph/Grow.antt =====
-- How the entries of tools/diamond-types/src/causalgraph/graph/mod.rs grow at their end: the last run
-- is extended, or a new one is added.
use egwalker_paper.Base.{
  ℕ, zero, suc, ◌+◌, ◌-◌, ◌<◌, ◌≡◌, refl, sym, ap, ◌∙◌, ◌⊎◌, inl, inr, true, false, ◌&&◌, List, [],
  ◌∷◌, ◌++◌, none, some, ◌==◌, length, get_or, get_elem?, arith, Bool-cases, All, ==_iff,
  append_assoc, append-nil,
}
use mathlib.Core.Bool.{false≢true}
use egwalker_paper.Base.Panic.{done, checked_sub_lem}
use egwalker_paper.OtBench.Graph.{GraphEntryInternal as Version}
use egwalker_paper.DiamondTypes.DtRange.{DtRange}
use egwalker_paper.DiamondTypes.DtRange
use egwalker_paper.DiamondTypes.Graph.{
  GraphEntryInternal, last_time, entry_can_append, entries_push, extend_last,
}
use egwalker_paper.DiamondTypes.Graph.Expand.{expand_run, span_size, expand, IsRuns}
use egwalker_paper.DiamondTypes.Graph.Runs.{IsEntry}
use egwalker_paper.DiamondTypes.Graph.Wiring.{HasChildrenBelow}

-- A run is its beginning and the run of what follows it.
expand_run_split :
    (ps : List ℕ) (s n m : ℕ)
    → expand_run ps s (suc n + m)
      ≡ expand_run ps s (suc n) ++ expand_run ((s + n) ∷ []) (s + suc n) m
expand_run_split ps s zero m =
    let a : s + 0 ≡ s = omega arith in
    let b : s + 1 ≡ suc s = omega arith in let c : 1 + m ≡ suc m = omega arith in rw (a, b, c) refl
expand_run_split ps s (suc n) m =
    let a : suc s + n ≡ s + suc n = omega arith in
    let b : suc s + suc n ≡ s + suc (suc n) = omega arith in
    let c : suc (suc n) + m ≡ suc (suc n + m) = omega arith in
    rw c (
      ap (λ (vs : List Version). record { idx = s; parents = ps } ∷ vs)
        (rw (a, b) at (expand_run_split (s ∷ []) (suc s) n m)))

expand_run_append :
    (ps : List ℕ) (s n m : ℕ)
    → 0 < n
    → expand_run ps s (n + m) ≡ expand_run ps s n ++ expand_run ((s + n - 1) ∷ []) (s + n) m
expand_run_append ps s zero m h = absurd (omega arith)
expand_run_append ps s (suc n) m h =
    let e : s + suc n - 1 ≡ s + n = omega arith in rw e (expand_run_split ps s n m)

-- The entries after a run is given to them: it ends at `hi`, and its versions are `new`.
pub record Grown (Extra : List Version → Type 0) (lo hi : ℕ) (es es' : List GraphEntryInternal)
    (new : List Version) : Type 0 where
  pub runs : IsRuns lo es' hi
  pub expanded : expand es' ≡ expand es ++ new
  pub sound : (full : List Version) → All (IsEntry full) es → Extra full → All (IsEntry full) es'

Grown-cons :
    {Extra : List Version → Type 0} (lo mid hi : ℕ) (e : GraphEntryInternal)
    (es es' : List GraphEntryInternal) (new : List Version)
    → IsRuns lo (e ∷ es) mid
    → Grown Extra (lo + span_size e) hi es es' new
    → Grown Extra lo hi (e ∷ es) (e ∷ es') new
Grown-cons lo mid hi e es es' new h g = record {
  runs = (h.0, h.1, h.2, g.runs);
  expanded =
      ap (λ (vs : List Version). expand_run e.parents e.span.start (span_size e) ++ vs) g.expanded
      ∙ rw append_assoc refl;
  sound = λ full a x. (a.0, g.sound full a.1 x);
}

-- The entry with its run extended by a range.
abbrev pub extended : GraphEntryInternal → DtRange → GraphEntryInternal
extended e range = record e { span = DtRange.append e.span range }

extended-Grown :
    (lo hi : ℕ) (e : GraphEntryInternal) (range : DtRange)
    → IsRuns lo (e ∷ []) hi
    → range.start ≡ hi
    → hi < range.end
    → Grown
        (λ full. Unit)
        lo
        range.end
        (e ∷ [])
        (extended e range ∷ [])
        (expand_run ((hi - 1) ∷ []) hi (range.end - hi))
unfolding DtRange.append DtRange.len
extended-Grown lo hi e range h s l =
    let size : e.span.start + span_size e ≡ hi = omega (arith, h.2, h.3) in
    let whole : span_size e + (range.end - hi) ≡ range.end - e.span.start = omega (arith, size) in
    let split = expand_run_append e.parents e.span.start (span_size e) (range.end - hi) h.1 in
    record {
      runs = (
        checked_sub_lem range.end e.span.start (range.end - e.span.start) (omega (arith, size)),
        omega (arith, size),
        h.2,
        omega (arith, size, h.2),
      );
      expanded =
          append-nil (expand_run e.parents e.span.start (range.end - e.span.start))
          ∙ (rw (whole, size) at split
              ∙ sym (
                  ap (λ (vs : List Version). vs ++ expand_run ((hi - 1) ∷ []) hi (range.end - hi))
                    (append-nil (expand_run e.parents e.span.start (span_size e)))));
      sound = λ full a x.
          ((record { below = a.0.below; shadow_le = a.0.shadow_le; shadowed = a.0.shadowed }), tt);
    }

-- The last version of the last run, when that ends at `hi`.
last_time_lem :
    (lo hi : ℕ) (e : GraphEntryInternal)
    → IsRuns lo (e ∷ []) hi
    → (e.span.end ≡ hi) × (last_time e ≡ done (hi - 1))
unfolding DtRange.last
last_time_lem lo hi e h = (
  omega (arith, h.1, h.2, h.3),
  checked_sub_lem e.span.end 1 (hi - 1) (omega (arith, h.1, h.2, h.3)),
)

one_parent :
    (ps : List ℕ) (p : ℕ) → (length ps == 1) ≡ true → (get_or ps 0 0 == p) ≡ true → ps ≡ p ∷ []
one_parent [] p h k = absurd (ground (arith, h))
one_parent (x ∷ []) p h k = ap (λ y. y ∷ []) ((==_iff x p).0 k)
one_parent (x ∷ y ∷ ps) p h k = absurd (ground (arith, h))

-- As many entries, with no other children.
abbrev pub SameChildren : List GraphEntryInternal → List GraphEntryInternal → Type 0
SameChildren es es' =
    (length es' ≡ length es)
    × ((k : ℕ) → HasChildrenBelow k es → HasChildrenBelow k es')
    × ((i : ℕ) (e : GraphEntryInternal)
        → get_elem? es i ≡ some e
        → (e' : GraphEntryInternal) × (get_elem? es' i ≡ some e')
          × (e'.child_indexes ≡ e.child_indexes)
          × (e'.shadow ≡ e.shadow)
          × (e'.parents ≡ e.parents))

extended-SameChildren :
    (e : GraphEntryInternal) (range : DtRange) → SameChildren (e ∷ []) (extended e range ∷ [])
extended-SameChildren e range = (refl, λ k b. b, λ i f at. go i f at)
  where
    go :
        (i : ℕ) (f : GraphEntryInternal)
        → get_elem? (e ∷ []) i ≡ some f
        → (e' : GraphEntryInternal) × (get_elem? (extended e range ∷ []) i ≡ some e')
          × (e'.child_indexes ≡ f.child_indexes)
          × (e'.shadow ≡ f.shadow)
          × (e'.parents ≡ f.parents)
    go zero f at =
        let same : e ≡ f = cc in
        (
          extended e range,
          refl,
          ap (λ (y : GraphEntryInternal). y.child_indexes) same,
          ap (λ (y : GraphEntryInternal). y.shadow) same,
          ap (λ (y : GraphEntryInternal). y.parents) same,
        )
    go (suc i) f at = absurd (ground arith)

cons-SameChildren :
    (e : GraphEntryInternal) (es es' : List GraphEntryInternal)
    → SameChildren es es'
    → SameChildren (e ∷ es) (e ∷ es')
cons-SameChildren e es es' (size, below, kept) = (ap suc size, (λ k b. (b.0, below k b.1)), go)
  where
    go :
        (i : ℕ) (f : GraphEntryInternal)
        → get_elem? (e ∷ es) i ≡ some f
        → (e' : GraphEntryInternal) × (get_elem? (e ∷ es') i ≡ some e')
          × (e'.child_indexes ≡ f.child_indexes)
          × (e'.shadow ≡ f.shadow)
          × (e'.parents ≡ f.parents)
    go zero f at = (f, at, refl, refl, refl)
    go (suc i) f at = kept i f at

not_one : (ps : List ℕ) (p : ℕ) → (length ps == 1) ≡ false → ¬ (ps ≡ p ∷ [])
not_one ps p h e = absurd (false≢true (sym h ∙ ap (λ (l : List ℕ). length l == 1) e))

not_head : (ps : List ℕ) (p : ℕ) → (get_or ps 0 0 == p) ≡ false → ¬ (ps ≡ p ∷ [])
not_head ps p h e =
    absurd (false≢true (sym h ∙ (ap (λ (l : List ℕ). get_or l 0 0 == p) e ∙ (==_iff p p).1 refl)))

-- The one parent of the run is not the last version of the entries, if they have one.
abbrev pub StartsNew : List GraphEntryInternal → List ℕ → ℕ → Type 0
StartsNew es ps hi = 0 < length es → ¬ (ps ≡ (hi - 1) ∷ [])

-- The fast path of `push` does not panic; if it applies, the last run has the new versions.
pub extend_last_lem :
    (lo hi : ℕ) (es : List GraphEntryInternal) (ps : List ℕ) (range : DtRange)
    → IsRuns lo es hi
    → range.start ≡ hi
    → hi < range.end
    → ((extend_last es ps range ≡ done none) × StartsNew es ps hi)
      ⊎ ((es' : List GraphEntryInternal) × (extend_last es ps range ≡ done (some es'))
          × Grown (λ full. Unit) lo range.end es es' (expand_run ps hi (range.end - hi))
          × SameChildren es es'
          × (ps ≡ (hi - 1) ∷ []))
unfolding extend_last DtRange.can_append
extend_last_lem lo hi [] ps range h s l = inl (refl, λ pos e. absurd (omega arith))
extend_last_lem lo hi (e ∷ []) ps range h s l =
    let (end, last) = last_time_lem lo hi e h in
    let meets : (range.start == e.span.end) ≡ true =
      (==_iff range.start e.span.end).1 (s ∙ sym end) in
    elim (Bool-cases (length ps == 1)) [
      | inr many ↦ inl (rw many refl, λ pos e. not_one ps (hi - 1) many e)
      | inl one ↦ elim (Bool-cases (get_or ps 0 0 == (hi - 1))) [
        | inr other ↦ inl (rw (one, last, other) refl, λ pos e. not_head ps (hi - 1) other e)
        | inl same ↦ inr (
          extended e range ∷ [],
          rw (one, last, same, meets) refl,
          rw (one_parent ps (hi - 1) one same) (extended-Grown lo hi e range h s l),
          extended-SameChildren e range,
          one_parent ps (hi - 1) one same,
        )
      ]
    ]
extend_last_lem lo hi (e ∷ f ∷ es) ps range h s l =
    elim (extend_last_lem (lo + span_size e) hi (f ∷ es) ps range h.3 s l) [
      | inl (r, new) ↦ inl (rw r refl, λ pos. new (omega arith))
      | inr (es', r, g, same, one) ↦ inr (
        e ∷ es',
        rw r refl,
        Grown-cons lo hi range.end e (f ∷ es) es' (expand_run ps hi (range.end - hi)) h g,
        cons-SameChildren e (f ∷ es) es' same,
        one,
      )
    ]

abbrev run_of : GraphEntryInternal → List Version
run_of e = expand_run e.parents e.span.start (span_size e)

single-IsRuns :
    (txn : GraphEntryInternal)
    → txn.span.start < txn.span.end
    → IsRuns txn.span.start (txn ∷ []) txn.span.end
unfolding DtRange.len
single-IsRuns txn l = (
  checked_sub_lem txn.span.end txn.span.start (span_size txn) (omega arith),
  omega arith,
  refl,
  omega arith,
)

can_append_lem :
    (lo : ℕ) (e txn : GraphEntryInternal)
    → IsRuns lo (e ∷ []) txn.span.start
    → (entry_can_append e txn ≡ done false)
      ⊎ ((entry_can_append e txn ≡ done true) × (txn.parents ≡ (txn.span.start - 1) ∷ []))
unfolding entry_can_append
can_append_lem lo e txn h =
    let (end, last) = last_time_lem lo txn.span.start e h in
    elim (Bool-cases (DtRange.can_append e.span txn.span && length txn.parents == 1)) [
      | inr apart ↦ inl (rw apart refl)
      | inl one ↦
          elim (Bool-cases
            (get_or txn.parents 0 0 == (txn.span.start - 1) && txn.shadow == e.shadow)) [
              | inr other ↦ inl (rw (one, last, other) refl)
              | inl same ↦ inr (
                rw (one, last, same) refl,
                one_parent txn.parents (txn.span.start - 1) (ground (arith, one))
                    (ground (arith, same)),
              )
            ]
    ]

-- `push` of an entry at the end of the runs, which has not their last version for its one parent, does
-- not panic: it puts the entry behind them and does not merge it.
pub entries_push_lem :
    (lo : ℕ) (es : List GraphEntryInternal) (txn : GraphEntryInternal)
    → IsRuns lo es txn.span.start
    → txn.span.start < txn.span.end
    → StartsNew es txn.parents txn.span.start
    → (entries_push es txn ≡ done (es ++ (txn ∷ []), false))
      × Grown (λ full. IsEntry full txn) lo txn.span.end es (es ++ (txn ∷ [])) (run_of txn)
unfolding entries_push
entries_push_lem lo [] txn h l new = (
  refl,
  record {
    runs = rw h (single-IsRuns txn l);
    expanded = append-nil (run_of txn);
    sound = λ full a x. (x, tt);
  },
)
entries_push_lem lo (e ∷ []) txn h l new = elim (can_append_lem lo e txn h) [
  | inl apart ↦ (
    rw apart refl,
    Grown-cons lo txn.span.start txn.span.end e [] (txn ∷ []) (run_of txn) h (record {
      runs = rw h.3 (single-IsRuns txn l);
      expanded = append-nil (run_of txn);
      sound = λ full a x. (x, tt);
    }),
  )
  | inr (merges, ps) ↦ absurd (new (omega arith) ps)
]
entries_push_lem lo (e ∷ f ∷ es) txn h l new =
    let (r, g) =
      entries_push_lem (lo + span_size e) (f ∷ es) txn h.3 l (λ pos. new (omega arith)) in
    (
      rw r refl,
      Grown-cons lo txn.span.start txn.span.end e (f ∷ es) ((f ∷ es) ++ (txn ∷ [])) (run_of txn) h
          g,
    )
