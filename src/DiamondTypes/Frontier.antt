-- ===== src/DiamondTypes/Frontier.antt =====
-- `Frontier` of tools/diamond-types/src/frontier.rs. Where its text is that of
-- tools/ot-bench/src/frontier.rs, the definitions of that file are used.
pub mod History
pub mod Advance
pub mod Uncovered
pub mod Round
pub mod Retreat
pub mod Pushed
pub mod RootAdvance
pub mod Sparse
pub mod Union
use egwalker_paper.Base.{
  ℕ, zero, suc, ◌-◌, Bool, true, false, not, ◌&&◌, List, [], ◌∷◌, Option, none, some, ltb, leb,
  ◌==◌, if◌then◌else◌, length, get_or, set, contains, slice_eq, min, drop,
}
use egwalker_paper.Base.Panic.{Outcome, done, panic, ◌>>=◌}
use egwalker_paper.Base.Search.{found, missing}
use egwalker_paper.OtBench.Frontier.{
  Frontier, replace_with_1, insert_nonoverlapping, insert_at, retain_not_in, binary_search,
}
use egwalker_paper.DiamondTypes.DtRange.{DtRange}
use egwalker_paper.DiamondTypes.DtRange
use egwalker_paper.DiamondTypes.RleVec.{index, find_index}
use egwalker_paper.DiamondTypes.Graph.{GraphEntryInternal, Graph, entry_key, entry_len, parents_at}
use egwalker_paper.DiamondTypes.Graph.Tools.{frontier_contains_version}
use egwalker_paper.DiamondTypes.Graph.Dominators.{find_dominators_2, version_union}

pub insert : ℕ → Frontier → Frontier
insert new_item f = elim (binary_search f new_item) [
  | found i ↦ f
  | missing new_idx ↦ insert_at f new_idx new_item
]

pub advance_by_known_run : List ℕ → DtRange → Frontier → Outcome Frontier
advance_by_known_run parents span f =
    if (length parents == 1 && length f == 1) && get_or parents 0 0 == get_or f 0 0
    then (do l ← DtRange.last span; done (set f 0 l))
    else (if slice_eq f parents
        then (do l ← DtRange.last span; done (replace_with_1 l f))
        else (if contains f span.start
            then panic
            else (do l ← DtRange.last span; insert_nonoverlapping l (retain_not_in parents f))))

-- The loop of `advance` over the entries from the one that has the range's start.
pub advance_loop : List GraphEntryInternal → DtRange → Frontier → Outcome Frontier
advance_loop [] range f = done f
advance_loop (txn ∷ txns) range f =
    let end = min txn.span.end range.end in
    do
      f' ←
          advance_by_known_run (parents_at txn range.start)
            (record { start = range.start; end = end }) f
      let rest = advance_loop txns (record range { start = end }) f'
      if leb range.end end then done f' else rest

pub advance : Graph → DtRange → Frontier → Outcome Frontier
advance graph range f = do
  r ← find_index entry_key entry_len graph.entries range.start
  elim r [ missing i ↦ panic | found txn_idx ↦ advance_loop (drop txn_idx graph.entries) range f ]

-- The loop of `retreat` over the parents.
pub insert_uncovered : Graph → List ℕ → Frontier → Outcome Frontier
insert_uncovered graph [] f = done f
insert_uncovered graph (parent ∷ parents) f = do
  covered ← frontier_contains_version graph f parent
  f' ← if covered then done f else insert_nonoverlapping parent f
  insert_uncovered graph parents f'

-- What a round of `retreat` makes of the frontier.
pub retreat_round : Graph → GraphEntryInternal → DtRange → Frontier → Outcome Frontier
retreat_round graph txn range f = do
  last_order ← DtRange.last range
  if length f == 1
      then done (if ltb txn.span.start range.start then set f 0 (range.start - 1) else txn.parents)
      else insert_uncovered graph (parents_at txn range.start) (retain_not_in (last_order ∷ []) f)

pub retreat_loop : ℕ → Graph → DtRange → Frontier → Outcome Frontier
retreat_loop zero graph range f = do
  txn ← index graph.entries zero
  f' ← retreat_round graph txn range f
  if leb txn.span.start range.start then done f' else panic
retreat_loop (suc txn_idx) graph range f = do
  txn ← index graph.entries (suc txn_idx)
  f' ← retreat_round graph txn range f
  let rest = retreat_loop txn_idx graph (record range { end = txn.span.start }) f'
  if leb txn.span.start range.start then done f' else rest

pub retreat : Graph → DtRange → Frontier → Outcome Frontier
retreat graph range f = if DtRange.is_empty range then done f else (do
  last ← DtRange.last range
  r ← find_index entry_key entry_len graph.entries last
  elim r [ missing i ↦ panic | found txn_idx ↦ retreat_loop txn_idx graph range f ])

pub advance_sparse_known_run : Graph → List ℕ → DtRange → Frontier → Outcome Frontier
advance_sparse_known_run graph parents range f = do
  last ← DtRange.last range
  if slice_eq f parents then done (replace_with_1 last f) else find_dominators_2 graph f (last ∷ [])

-- The slow path of `advance_sparse`: a frontier of the range, and then its union with this one.
pub advance_sparse_slow : Graph → DtRange → Frontier → Outcome Frontier
advance_sparse_slow graph range f = do f2 ← advance graph range []; find_dominators_2 graph f f2

pub advance_sparse : Graph → DtRange → Frontier → Outcome Frontier
advance_sparse graph range f = do
  r ← find_index entry_key entry_len graph.entries range.start
  elim r [
    | missing i ↦ panic
    | found txn_idx ↦ do
      first_txn ← index graph.entries txn_idx
      if leb range.end first_txn.span.end
          then advance_sparse_known_run graph (parents_at first_txn range.start) range f
          else advance_sparse_slow graph range f
  ]

-- The test of `merge_union` that needs the graph.
pub is_covered : Graph → List ℕ → Frontier → Outcome Bool
is_covered graph (o ∷ []) f = frontier_contains_version graph f o
is_covered graph other f = done false

pub merge_union : List ℕ → Graph → Frontier → Outcome Frontier
merge_union [] graph f = done f
merge_union (o ∷ os) graph f = if slice_eq (o ∷ os) f then done f else (do
  covered ← is_covered graph (o ∷ os) f
  if covered then done f else version_union graph f (o ∷ os))
