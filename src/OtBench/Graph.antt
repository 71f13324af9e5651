-- ===== src/OtBench/Graph.antt =====
-- `CausalGraph` of tools/ot-bench/src/cg.rs. The `BinaryHeap` of the standard library, which
-- pops a greatest item, is a list in descending order. Indexing out of range and a subtraction
-- below 0 are panics.
pub mod Ancestors
pub mod Heap
pub mod Absorb
pub mod Scan
pub mod Diff
pub mod Push
use egwalker_paper.Base.{
  ℕ, zero, suc, ◌+◌, ◌-◌, Bool, true, false, not, ◌&&◌, ◌||◌, List, [], ◌∷◌, ◌++◌, Option, none,
  some, ltb, leb, ◌==◌, if◌then◌else◌, length, get_elem?, reverse,
}
use egwalker_paper.Base.Panic.{Outcome, done, panic, stuck, checked_sub, ◌>>=◌}
use egwalker_paper.OtBench.Frontier.{Frontier, root, advance_by_known_run}

pub record GraphEntryInternal : Type 0 where
  pub idx : ℕ
  pub parents : Frontier

pub record CausalGraph : Type 0 where
  pub entries : List GraphEntryInternal
  pub frontier : Frontier

pub data DiffFlag : Type 0 where
  only_a only_b shared : DiffFlag

abbrev pub DiffResult : Type 0
DiffResult = List ℕ × List ℕ

unfoldable pub new : CausalGraph
new = record { entries = []; frontier = root }

pub push : ℕ → List ℕ → CausalGraph → Outcome CausalGraph
push idx parents g = do
  f ← advance_by_known_run idx parents g.frontier
  done (record {
    entries = g.entries ++ (record { idx = idx; parents = parents } ∷ []);
    frontier = f;
  })

-- `Frontier::advance_by`, which looks the entry up.
unfoldable pub index_entry : List GraphEntryInternal → ℕ → Outcome GraphEntryInternal
index_entry entries i = elim (get_elem? entries i) [ none ↦ panic | some e ↦ done e ]

unfoldable pub advance_by : CausalGraph → ℕ → Frontier → Outcome Frontier
advance_by graph idx f = do
  entry ← index_entry graph.entries idx
  advance_by_known_run idx entry.parents f

-- The derived order of `DiffFlag`, and of pairs with a version.
abbrev pub rank : DiffFlag → ℕ
rank only_a = 0
rank only_b = 1
rank shared = 2

abbrev pub is_shared : DiffFlag → Bool
is_shared shared = true
is_shared _ = false

abbrev pub flag_eq : DiffFlag → DiffFlag → Bool
flag_eq f g = rank f == rank g

abbrev pub Queue : Type 0
Queue = List (ℕ × DiffFlag)

-- `queue.push`: behind every greater item.
unfoldable pub queue_push : ℕ → DiffFlag → Queue → Queue
queue_push v f [] = (v, f) ∷ []
queue_push v f ((w, g) ∷ q) =
    if ltb v w || (v == w && ltb (rank f) (rank g))
    then (w, g) ∷ queue_push v f q
    else (v, f) ∷ (w, g) ∷ q

unfoldable pub push_all : List ℕ → DiffFlag → Queue → Queue
push_all [] f q = q
push_all (v ∷ vs) f q = push_all vs f (queue_push v f q)

unfoldable pub take_shared : DiffFlag → ℕ → Outcome ℕ
take_shared shared num = checked_sub num 1
take_shared _ num = done num

-- The inner loop of `diff_rev`: it pops every other item for the version `idx`.
unfoldable pub absorb : ℕ → DiffFlag → ℕ → Queue → Outcome (DiffFlag × ℕ × Queue)
absorb idx flag num [] = done (flag, num, [])
absorb idx flag num ((peek_idx, peek_flag) ∷ q) =
    let flag' = if flag_eq peek_flag flag then flag else shared in
    let rest = take_shared peek_flag num >>= (λ num'. absorb idx flag' num' q) in
    if peek_idx == idx then rest else done (flag, num, (peek_idx, peek_flag) ∷ q)

abbrev pub push_a : DiffFlag → ℕ → List ℕ → List ℕ
push_a only_a idx vs = vs ++ (idx ∷ [])
push_a _ idx vs = vs

abbrev pub push_b : DiffFlag → ℕ → List ℕ → List ℕ
push_b only_b idx vs = vs ++ (idx ∷ [])
push_b _ idx vs = vs

unfoldable pub diff_loop :
    ℕ → List GraphEntryInternal → Queue → ℕ → List ℕ → List ℕ → Outcome DiffResult
diff_loop zero entries q num av bv = stuck
diff_loop (suc fuel) entries [] num av bv = done (av, bv)
diff_loop (suc fuel) entries ((idx, flag) ∷ q) num av bv = do
  num1 ← take_shared flag num
  (flag', num2, q') ← absorb idx flag num1 q
  entry ← index_entry entries idx
  let av' = push_a flag' idx av
  let bv' = push_b flag' idx bv
  let q'' = push_all entry.parents flag' q'
  let num3 = if is_shared flag' then num2 + length entry.parents else num2
  elim (length q'' == num3) [
    | true ↦ done (av', bv')
    | false ↦ diff_loop fuel entries q'' num3 av' bv'
  ]

-- Each round pops a smaller version than the one before, so a round for each entry is enough.
unfoldable pub diff_rev : CausalGraph → List ℕ → List ℕ → Outcome DiffResult
diff_rev g a b =
    diff_loop (suc (length g.entries)) g.entries (push_all b only_b (push_all a only_a [])) 0 [] []

unfoldable pub diff : CausalGraph → List ℕ → List ℕ → Outcome DiffResult
diff g a b = do (only_a', only_b') ← diff_rev g a b; done (reverse only_a', reverse only_b')
