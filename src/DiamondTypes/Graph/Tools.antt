-- ===== src/DiamondTypes/Graph/Tools.antt =====
-- Queries on histories of tools/diamond-types/src/causalgraph/graph/tools.rs. The `BinaryHeap` of
-- the standard library, which pops a greatest item, is a list in descending order.
pub mod Queue
pub mod Contains
pub mod Compare
pub mod Direct
use egwalker_paper.Base.{
  ℕ, zero, suc, ◌+◌, ◌-◌, Bool, true, false, ◌&&◌, ◌||◌, List, [], ◌∷◌, Option, none, some, ltb,
  leb, ◌==◌, if◌then◌else◌, length, contains, slice_eq, compare, Ordering,
}
use egwalker_paper.Base.Panic.{Outcome, done, panic, stuck, ◌>>=◌}
use egwalker_paper.DiamondTypes.DtRange.{DtRange}
use egwalker_paper.DiamondTypes.DtRange
use egwalker_paper.DiamondTypes.RleVec.{last_entry}
use egwalker_paper.DiamondTypes.Graph.{GraphEntryInternal, Graph, find_entry, shadow_contains}

abbrev pub Queue : Type 0
Queue = List ℕ

unfoldable pub heap_push : ℕ → Queue → Queue
heap_push v [] = v ∷ []
heap_push v (w ∷ q) = if ltb v w then w ∷ heap_push v q else v ∷ w ∷ q

pub shadow_of : List GraphEntryInternal → ℕ → Outcome ℕ
shadow_of es time = do e ← find_entry es time; done e.shadow

pub txn_shadow_contains : List GraphEntryInternal → ℕ → ℕ → Outcome Bool
txn_shadow_contains es a b =
    if a == b
    then done true
    else (if ltb b a then (do s ← shadow_of es a; done (leb s b)) else done false)

pub is_direct_descendant_coarse : List GraphEntryInternal → ℕ → ℕ → Outcome Bool
is_direct_descendant_coarse es a b =
    if a == b
    then done true
    else (if ltb b a
        then (do e ← find_entry es a; done (DtRange.contains e.span b))
        else done false)

-- The fast path of `frontier_contains_version`.
pub shadow_hit : List GraphEntryInternal → List ℕ → ℕ → Outcome Bool
shadow_hit es [] target = done false
shadow_hit es (o ∷ os) target =
    let rest = shadow_hit es os target in
    let here = (do txn ← find_entry es o; if shadow_contains txn target then done true else rest) in
    if ltb target o then here else rest

-- The loop that fills the queue.
pub push_above : ℕ → List ℕ → Queue → Queue
push_above target [] q = q
push_above target (o ∷ os) q = push_above target os (if ltb target o then heap_push o q else q)

-- The loop that drops what the queue has of the run at hand.
pub pop_run : ℕ → Queue → Queue
pop_run start [] = []
pop_run start (next_time ∷ q) =
    let rest = pop_run start q in if leb start next_time then rest else next_time ∷ q

-- The loop over the parents; `none` if one of them is the target.
pub scan_parents : ℕ → List ℕ → Queue → Option Queue
scan_parents target [] q = some q
scan_parents target (p ∷ ps) q =
    let rest = scan_parents target ps (if ltb target p then heap_push p q else q) in
    if p == target then none else rest

-- What follows the loop over the parents.
pub resume : (Queue → Outcome Bool) → Option Queue → Outcome Bool
resume next none = done true
resume next (some q) = next q

-- A round leaves smaller versions only.
pub contains_loop : ℕ → List GraphEntryInternal → ℕ → Queue → Outcome Bool
contains_loop zero es target q = stuck
contains_loop (suc fuel) es target [] = done false
contains_loop (suc fuel) es target (order ∷ q) = do
  entry ← find_entry es order
  let rest =
      resume (contains_loop fuel es target)
        (scan_parents target entry.parents (pop_run entry.span.start q))
  if shadow_contains entry target then done true else rest

pub contains_slow : List GraphEntryInternal → List ℕ → ℕ → ℕ → Outcome Bool
contains_slow es frontier largest_v target = do
  hit ← shadow_hit es frontier target
  if hit
      then done true
      else contains_loop (suc (suc largest_v)) es target (push_above target frontier [])

pub frontier_contains_version : Graph → List ℕ → ℕ → Outcome Bool
frontier_contains_version g frontier target =
    if contains frontier target then done true else (elim (last_entry frontier) [
      | none ↦ done false
      | some largest_v ↦
          if ltb largest_v target
          then done false
          else contains_slow g.entries frontier largest_v target
    ])

pub contains_all : Graph → List ℕ → List ℕ → Outcome Bool
contains_all g a [] = done true
contains_all g a (bb ∷ bs) = do
  has ← frontier_contains_version g a bb
  elim has [ true ↦ contains_all g a bs | false ↦ done false ]

pub frontier_contains_frontier : Graph → List ℕ → List ℕ → Outcome Bool
frontier_contains_frontier g a b = if slice_eq a b then done true else contains_all g a b

pub version_cmp : Graph → ℕ → ℕ → Outcome (Option Ordering)
version_cmp g v1 v2 = elim (compare v1 v2) [
  | Ordering.eq ↦ done (some Ordering.eq)
  | Ordering.lt ↦ (do
    has ← frontier_contains_version g (v2 ∷ []) v1
    done (if has then some Ordering.lt else none))
  | Ordering.gt ↦ (do
    has ← frontier_contains_version g (v1 ∷ []) v2
    done (if has then some Ordering.gt else none))
]

pub frontier_cmp : Graph → List ℕ → List ℕ → Outcome (Option Ordering)
frontier_cmp g v1 v2 =
    if slice_eq v1 v2
    then done (some Ordering.eq)
    else (if length v1 == 0 then done (some Ordering.lt) else (do
      above ← frontier_contains_frontier g v1 v2
      if above then done (some Ordering.gt) else (do
        below ← frontier_contains_frontier g v2 v1
        done (if below then some Ordering.lt else none))))
