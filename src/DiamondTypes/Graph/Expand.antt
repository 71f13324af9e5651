-- ===== src/DiamondTypes/Graph/Expand.antt =====
-- The graph of tools/diamond-types/src/causalgraph/graph/mod.rs without runs: every version with its
-- parents, as in the simple graph of tools/ot-bench/src/cg.rs.
use egwalker_paper.Base.{
  get_elem?-append_left, get_elem?-append_right, ℕ, zero, suc, ◌+◌, ◌-◌, ◌≤◌, ◌<◌, ◌≡◌, refl, ap,
  ◌∙◌, inl, inr, List, [], ◌∷◌, ◌++◌, some, ltb, ltb→lt, if◌then◌else◌, length, length-append,
  get_elem?, arith, Bool-cases,
}
use egwalker_paper.OtBench.Graph.{GraphEntryInternal as Version}
use egwalker_paper.DiamondTypes.RleVec.Find.{IsPacked, Covers}
use egwalker_paper.DiamondTypes.Graph.{GraphEntryInternal, entry_key, entry_len, parents_at}

-- The `n` versions of a run from `s` on, of which the first has the parents given.
abbrev pub expand_run : List ℕ → ℕ → ℕ → List Version
expand_run ps s zero = []
expand_run ps s (suc n) = record { idx = s; parents = ps } ∷ expand_run (s ∷ []) (suc s) n

abbrev pub span_size : GraphEntryInternal → ℕ
span_size e = e.span.end - e.span.start

abbrev pub expand : List GraphEntryInternal → List Version
expand [] = []
expand (e ∷ es) = expand_run e.parents e.span.start (span_size e) ++ expand es

-- The entries are runs with no gap from 0 to `hi`.
abbrev pub IsRuns : ℕ → List GraphEntryInternal → ℕ → Type 0
IsRuns = IsPacked entry_key entry_len span_size

pub length-expand_run : (ps : List ℕ) (s n : ℕ) → length (expand_run ps s n) ≡ n
length-expand_run ps s zero = refl
length-expand_run ps s (suc n) = ap suc (length-expand_run (s ∷ []) (suc s) n)

pub length-expand :
    (lo hi : ℕ) (es : List GraphEntryInternal) → IsRuns lo es hi → lo + length (expand es) ≡ hi
length-expand lo hi [] h = omega (arith, h)
length-expand lo hi (e ∷ es) h = omega (
  arith,
  length-append (expand_run e.parents e.span.start (span_size e)) (expand es),
  length-expand_run e.parents e.span.start (span_size e),
  length-expand (lo + span_size e) hi es h.3,
)

next_parents : (s v : ℕ) → s < v → (if ltb (suc s) v then (v - 1) ∷ [] else s ∷ []) ≡ (v - 1) ∷ []
next_parents s v l = elim (Bool-cases (ltb (suc s) v)) [
  | inl t ↦ rw t refl
  | inr f ↦ rw f (ap (λ x. x ∷ []) (ground (arith, f)))
]

-- The version at a place of a run.
pub run_elem :
    (ps : List ℕ) (s n v : ℕ)
    → s ≤ v
    → v < s + n
    → get_elem? (expand_run ps s n) (v - s)
      ≡ some (record { idx = v; parents = if ltb s v then (v - 1) ∷ [] else ps })
run_elem ps s zero v h k = absurd (omega arith)
run_elem ps s (suc n) v h k = elim (Bool-cases (ltb s v)) [
  | inr at ↦
      let e : s ≡ v = ground (arith, at) in
      let z : v - s ≡ 0 = omega arith in
      rw (z, at) (ap (λ x. some (record { idx = x; parents = ps })) e)
  | inl behind ↦
      let l : s < v = ltb→lt s v behind in
      let z : v - s ≡ suc (v - suc s) = omega arith in
      rw (z, behind)
        (run_elem (s ∷ []) (suc s) n v (omega arith) (omega arith)
          ∙ ap (λ ps'. some (record { idx = v; parents = ps' })) (next_parents s v l))
]

pub elem-lo :
    (lo hi : ℕ) (es : List GraphEntryInternal) (i : ℕ) (e : GraphEntryInternal)
    → IsRuns lo es hi
    → get_elem? es i ≡ some e
    → lo ≤ e.span.start
elem-lo lo hi [] i e h g = absurd (ground arith)
elem-lo lo hi (d ∷ es) zero e h g =
    let same : d ≡ e = cc in omega (arith, h.2, ap (λ (f : GraphEntryInternal). f.span.start) same)
elem-lo lo hi (d ∷ es) (suc i) e h g = omega (arith, elem-lo (lo + span_size d) hi es i e h.3 g)

-- An entry of the runs has its versions in the graph without runs.
pub expand_elem :
    (lo hi : ℕ) (es : List GraphEntryInternal) (i : ℕ) (e : GraphEntryInternal) (v : ℕ)
    → IsRuns lo es hi
    → get_elem? es i ≡ some e
    → Covers entry_key entry_len span_size e v
    → get_elem? (expand es) (v - lo) ≡ some (record { idx = v; parents = parents_at e v })
unfolding parents_at
expand_elem lo hi [] i e v h g c = absurd (ground arith)
expand_elem lo hi (d ∷ es) zero e v h g c =
    let same : d ≡ e = cc in
    let covers : Covers entry_key entry_len span_size d v = rw same c in
    let run = expand_run d.parents d.span.start (span_size d) in
    let n = length-expand_run d.parents d.span.start (span_size d) in
    let short : v - lo < length run = omega (arith, n, h.2, covers.0, covers.1) in
    let place : v - lo ≡ v - d.span.start = omega (arith, h.2) in
    get_elem?-append_left run (expand es) (v - lo) short
    ∙ rw place (
        run_elem d.parents d.span.start (span_size d) v covers.0 covers.1
        ∙ ap (λ f. some (record { idx = v; parents = parents_at f v })) same)
expand_elem lo hi (d ∷ es) (suc i) e v h g c =
    let run = expand_run d.parents d.span.start (span_size d) in
    let n = length-expand_run d.parents d.span.start (span_size d) in
    let l = elem-lo (lo + span_size d) hi es i e h.3 g in
    get_elem?-append_right run (expand es) (v - lo) (omega (arith, n, l, c.0))
    ∙ (ap (get_elem? (expand es)) (omega (arith, n, l, c.0))
        ∙ expand_elem (lo + span_size d) hi es i e v h.3 g c)
