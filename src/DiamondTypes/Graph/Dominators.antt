-- ===== src/DiamondTypes/Graph/Dominators.antt =====
-- The dominators of tools/diamond-types/src/causalgraph/graph/tools.rs: of a set of versions, those in
-- the history of no other. A callback is the list of its calls, in order; it has no say in the loop.
-- An iterator is the list of its items, of which it knows the number.
pub mod Queue
pub mod Take
pub mod Top
pub mod Steps
pub mod Loop
pub mod Spec
pub mod Full
pub mod Result
pub mod Two
pub mod Visits
pub mod Join
pub mod Calls
use egwalker_paper.Base.{
  ℕ, zero, suc, ◌+◌, ◌*◌, ◌/◌, ◌%◌, Bool, true, false, not, ◌&&◌, List, [], ◌∷◌, ◌++◌, none, some,
  ltb, leb, ◌==◌, if◌then◌else◌, length, get_or, min, max, reverse, Ordering,
}
use egwalker_paper.Base.Panic.{Outcome, done, panic, stuck, checked_sub, ◌>>=◌}
use egwalker_paper.OtBench.Frontier.{Frontier}
use egwalker_paper.DiamondTypes.RleVec.{usize_max}
use egwalker_paper.DiamondTypes.Graph.{GraphEntryInternal, Graph, find_entry}
use egwalker_paper.DiamondTypes.Graph.Tools.{heap_push, version_cmp}
use egwalker_paper.DiamondTypes.Graph.Tools.{Queue as Heap}
use egwalker_paper.DiamondTypes.Graph.Diff.{round_fuel}

-- `visit(v, dom)`.
abbrev pub Visit : Type 0
Visit = ℕ × Bool

abbrev pub enc_input : ℕ → ℕ
enc_input v = v * 2

abbrev pub enc_normal : ℕ → ℕ
enc_normal v = v * 2 + 1

abbrev pub is_input : ℕ → Bool
is_input v_enc = v_enc % 2 == 0

abbrev pub version : ℕ → ℕ
version v_enc = v_enc / 2

-- The queue of the inputs.
pub input_queue : List ℕ → Outcome Heap
input_queue [] = done []
input_queue (v ∷ vs) =
    if leb (usize_max / 2) v
    then panic
    else (do q ← input_queue vs; done (heap_push (enc_input v) q))

pub count_input : ℕ → ℕ → Outcome ℕ
count_input v_enc inputs_remaining =
    if is_input v_enc then checked_sub inputs_remaining 1 else done inputs_remaining

pub record Taken : Type 0 where
  pub visits : List Visit
  pub last_emitted : ℕ
  pub inputs_remaining : ℕ
  pub queue : Heap

-- The inner loop: it takes every item in the run from `start` on, all of which are dominated.
pub take_run : ℕ → ℕ → ℕ → Heap → Outcome Taken
take_run start last_emitted inputs_remaining [] = done (record {
  visits = [];
  last_emitted = last_emitted;
  inputs_remaining = inputs_remaining;
  queue = [];
})
take_run start last_emitted inputs_remaining (v2_enq ∷ q) =
    let v2 = version v2_enq in
    let fresh = is_input v2_enq && not (last_emitted == v2) in
    let rest = (do
      remaining ← count_input v2_enq inputs_remaining
      t ← take_run start (if fresh then v2 else last_emitted) remaining q
      done (record t { visits = if fresh then (v2, false) ∷ t.visits else t.visits })) in
    if ltb v2 start
    then done (record {
      visits = [];
      last_emitted = last_emitted;
      inputs_remaining = inputs_remaining;
      queue = v2_enq ∷ q;
    })
    else rest

pub push_normal : List ℕ → Heap → Heap
push_normal [] q = q
push_normal (p ∷ ps) q = push_normal ps (heap_push (enc_normal p) q)

abbrev pub first_visit : ℕ → List Visit
first_visit v_enc = if is_input v_enc then (version v_enc, true) ∷ [] else []

pub dominator_rounds : ℕ → List GraphEntryInternal → ℕ → Heap → ℕ → ℕ → Outcome (List Visit)
dominator_rounds zero es stop_at_shadow q inputs_remaining last_emitted = stuck
dominator_rounds (suc fuel) es stop_at_shadow [] inputs_remaining last_emitted = done []
dominator_rounds (suc fuel) es stop_at_shadow (v_enc ∷ q) inputs_remaining last_emitted = do
  let last = if is_input v_enc then version v_enc else last_emitted
  remaining ← count_input v_enc inputs_remaining
  e ← find_entry es (version v_enc)
  elim (not (stop_at_shadow == usize_max) && leb e.shadow stop_at_shadow) [
    | true ↦ done (first_visit v_enc)
    | false ↦ do
      t ← take_run e.span.start last remaining q
      elim (t.inputs_remaining == 0) [
        | true ↦ done (first_visit v_enc ++ t.visits)
        | false ↦ do
          rest ←
              dominator_rounds fuel es stop_at_shadow (push_normal e.parents t.queue)
                t.inputs_remaining t.last_emitted
          done (first_visit v_enc ++ (t.visits ++ rest))
      ]
  ]

abbrev pub all_dominators : List ℕ → List Visit
all_dominators [] = []
all_dominators (v ∷ vs) = (v, true) ∷ all_dominators vs

pub find_dominators_full_internal : List GraphEntryInternal → List ℕ → ℕ → Outcome (List Visit)
find_dominators_full_internal es versions stop_at_shadow =
    if leb (length versions) 1 then done (all_dominators versions) else (do
      q ← input_queue versions
      dominator_rounds (round_fuel versions) es stop_at_shadow q (length versions) usize_max)

-- `if dom { result.push(v) }` for each call.
pub push_dominators : List Visit → List ℕ
push_dominators [] = []
push_dominators ((v, dom) ∷ visits) =
    if dom then v ∷ push_dominators visits else push_dominators visits

abbrev pub min_of : ℕ → List ℕ → ℕ
min_of m [] = m
min_of m (v ∷ vs) = min_of (min m v) vs

abbrev pub max_of : ℕ → List ℕ → ℕ
max_of m [] = m
max_of m (v ∷ vs) = max_of (max m v) vs

pub find_dominators_wide_rev : Graph → List ℕ → Outcome (List ℕ)
find_dominators_wide_rev g [] = done []
find_dominators_wide_rev g (v ∷ []) = done (v ∷ [])
find_dominators_wide_rev g (v ∷ w ∷ versions) =
    let min_v = min_of v (w ∷ versions) in
    let max_v = max_of v (w ∷ versions) in
    do
      last_entry ← find_entry g.entries max_v
      if leb last_entry.shadow min_v then done (max_v ∷ []) else (do
        visits ← find_dominators_full_internal g.entries (v ∷ w ∷ versions) min_v
        done (push_dominators visits))

pub find_dominators : Graph → List ℕ → Outcome Frontier
find_dominators g versions = do result ← find_dominators_wide_rev g versions; done (reverse result)

-- The case of one version on each side.
pub dominators_of_two : Graph → ℕ → ℕ → Outcome Frontier
dominators_of_two g a b = do
  c ← version_cmp g a b
  done (elim c [
    | none ↦ if ltb a b then a ∷ b ∷ [] else b ∷ a ∷ []
    | some o ↦ elim o [ Ordering.lt ↦ b ∷ [] | Ordering.eq ↦ b ∷ [] | Ordering.gt ↦ a ∷ [] ]
  ])

pub dominators_of_many : Graph → List ℕ → List ℕ → Outcome Frontier
dominators_of_many g v_1 v_2 =
    let first_v = min (get_or v_1 0 0) (get_or v_2 0 0) in
    do
      visits ← find_dominators_full_internal g.entries (v_1 ++ v_2) first_v
      done (reverse (push_dominators visits))

pub find_dominators_2 : Graph → List ℕ → List ℕ → Outcome Frontier
find_dominators_2 g [] v_2 = done v_2
find_dominators_2 g v_1 [] = done v_1
find_dominators_2 g (a ∷ []) (b ∷ []) = dominators_of_two g a b
find_dominators_2 g v_1 v_2 = dominators_of_many g v_1 v_2

pub find_dominators_full : Graph → List ℕ → Outcome (List Visit)
find_dominators_full g versions = find_dominators_full_internal g.entries versions usize_max

pub version_union : Graph → List ℕ → List ℕ → Outcome Frontier
version_union g a b = do
  visits ← find_dominators_full g (a ++ b)
  done (reverse (push_dominators visits))
