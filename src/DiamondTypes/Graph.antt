-- ===== src/DiamondTypes/Graph.antt =====
-- `Graph` of tools/diamond-types/src/causalgraph/graph/mod.rs: the parents of versions, by runs in
-- which each version is the one parent of the next.
pub mod Expand
pub mod Runs
pub mod Chain
pub mod Lookup
pub mod Grow
pub mod Children
pub mod Wiring
pub mod Push
pub mod Tools
pub mod Diff
pub mod Dominators
mod Examples
mod QueryExamples
use egwalker_paper.Base.{
  ℕ, zero, suc, ◌+◌, ◌-◌, Bool, true, false, ◌&&◌, List, [], ◌∷◌, ◌++◌, Option, none, some, ltb,
  leb, ◌==◌, if◌then◌else◌, length, get_or, set, contains,
}
use egwalker_paper.Base.Panic.{Outcome, done, panic, stuck, ◌>>=◌}
use egwalker_paper.Base.Search.{Search, found, missing}
use egwalker_paper.DiamondTypes.DtRange.{DtRange}
use egwalker_paper.DiamondTypes.DtRange
use egwalker_paper.DiamondTypes.RleVec.{index, find_index, find_packed, vec_end}

pub record GraphEntryInternal : Type 0 where
  pub span : DtRange
  pub shadow : ℕ
  pub parents : List ℕ
  pub child_indexes : List ℕ

pub record Graph : Type 0 where
  pub entries : List GraphEntryInternal
  pub root_child_indexes : List ℕ

-- `HasRleKey` and `HasLength` of an entry.
abbrev pub entry_key : GraphEntryInternal → ℕ
entry_key e = e.span.start

abbrev pub entry_len : GraphEntryInternal → Outcome ℕ
entry_len e = DtRange.len e.span

pub empty_graph : Graph
empty_graph = record { entries = []; root_child_indexes = [] }

abbrev pub last_time : GraphEntryInternal → Outcome ℕ
last_time e = DtRange.last e.span

pub shadow_contains : GraphEntryInternal → ℕ → Bool
shadow_contains e time = leb e.shadow time

-- What `with_parents` hands over and `clone_parents_at_version` returns.
unfoldable pub parents_at : GraphEntryInternal → ℕ → List ℕ
parents_at e v = if ltb e.span.start v then (v - 1) ∷ [] else e.parents

pub parent_at_version : GraphEntryInternal → ℕ → Option ℕ
parent_at_version e v = if ltb e.span.start v then some (v - 1) else none

abbrev pub find_entry : List GraphEntryInternal → ℕ → Outcome GraphEntryInternal
find_entry es v = find_packed entry_key entry_len es v

pub parents_at_version : Graph → ℕ → Outcome (List ℕ)
parents_at_version g v = do e ← find_entry g.entries v; done (parents_at e v)

pub get_next_time : Graph → Outcome ℕ
get_next_time g = vec_end entry_key entry_len g.entries

-- `MergableSpan` of an entry.
pub entry_can_append : GraphEntryInternal → GraphEntryInternal → Outcome Bool
entry_can_append self other =
    if DtRange.can_append self.span other.span && length other.parents == 1
    then (do
      last ← last_time self
      done (get_or other.parents 0 0 == last && other.shadow == self.shadow))
    else done false

pub entry_append : GraphEntryInternal → GraphEntryInternal → GraphEntryInternal
entry_append self other = record self { span = DtRange.append self.span other.span }

-- `RleVec::push` of entries, and whether it merged.
pub entries_push :
    List GraphEntryInternal → GraphEntryInternal → Outcome (List GraphEntryInternal × Bool)
entries_push [] txn = done (txn ∷ [], false)
entries_push (e ∷ []) txn = do
  merges ← entry_can_append e txn
  if merges then done (entry_append e txn ∷ [], true) else done (e ∷ txn ∷ [], false)
entries_push (e ∷ f ∷ es) txn = do (es', merged) ← entries_push (f ∷ es) txn; done (e ∷ es', merged)

-- The fast path of `push`: the entries with the last one extended, if it can be.
pub extend_last :
    List GraphEntryInternal → List ℕ → DtRange → Outcome (Option (List GraphEntryInternal))
extend_last [] txn_parents range = done none
extend_last (e ∷ []) txn_parents range =
    if length txn_parents == 1
    then (do
      last ← last_time e
      if get_or txn_parents 0 0 == last && DtRange.can_append e.span range
          then done (some (record e { span = DtRange.append e.span range } ∷ []))
          else done none)
    else done none
extend_last (e ∷ f ∷ es) txn_parents range = do
  r ← extend_last (f ∷ es) txn_parents range
  elim r [ none ↦ done none | some es' ↦ done (some (e ∷ es')) ]

-- `while shadow >= 1 && txn_parents.contains(&(shadow - 1)) { .. }`. A round makes `shadow` smaller.
pub shadow_loop : ℕ → List GraphEntryInternal → List ℕ → ℕ → Outcome ℕ
shadow_loop zero es txn_parents shadow = stuck
shadow_loop (suc fuel) es txn_parents shadow =
    elim (leb 1 shadow && contains txn_parents (shadow - 1)) [
      | false ↦ done shadow
      | true ↦ do e ← find_entry es (shadow - 1); shadow_loop fuel es txn_parents e.shadow
    ]

-- `debug_assert!(!parent_children.contains(&new_idx))`
pub assert_new : List ℕ → ℕ → Outcome (Unit {0})
assert_new parent_children new_idx = if contains parent_children new_idx then panic else done tt

-- The loop that wires up the children.
pub add_child : ℕ → List GraphEntryInternal → ℕ → Outcome (List GraphEntryInternal)
add_child new_idx es p = do
  r ← find_index entry_key entry_len es p
  elim r [
    | missing i ↦ panic
    | found parent_idx ↦ do
      e ← index es parent_idx
      u ← assert_new e.child_indexes new_idx
      done (set es parent_idx (record e { child_indexes = e.child_indexes ++ (new_idx ∷ []) }))
  ]

pub add_children : ℕ → List GraphEntryInternal → List ℕ → Outcome (List GraphEntryInternal)
add_children new_idx es [] = done es
add_children new_idx es (p ∷ ps) = do es' ← add_child new_idx es p; add_children new_idx es' ps

-- `debug_assert_eq!(did_merge, false)`
pub assert_apart : Bool → Outcome (Unit {0})
assert_apart did_merge = if did_merge then panic else done tt

pub push_slow : Graph → List ℕ → DtRange → Outcome Graph
push_slow g txn_parents range = do
  shadow ← shadow_loop (suc range.start) g.entries txn_parents range.start
  let new_idx = length g.entries
  es ← add_children new_idx g.entries txn_parents
  (es', did_merge) ←
      entries_push es
        (record { span = range; shadow = shadow; parents = txn_parents; child_indexes = [] })
  u ← assert_apart did_merge
  done (record {
    entries = es';
    root_child_indexes =
        if length txn_parents == 0
        then g.root_child_indexes ++ (new_idx ∷ [])
        else g.root_child_indexes;
  })

pub graph_push : Graph → List ℕ → DtRange → Outcome Graph
graph_push g txn_parents range = do
  r ← extend_last g.entries txn_parents range
  elim r [ some es ↦ done (record g { entries = es }) | none ↦ push_slow g txn_parents range ]
