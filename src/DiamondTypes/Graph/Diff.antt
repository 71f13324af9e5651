-- ===== src/DiamondTypes/Graph/Diff.antt =====
-- `diff` of tools/diamond-types/src/causalgraph/graph/tools.rs. The `DiffFlag`, the order of the queue
-- and the loop for equal versions are those of tools/ot-bench/src/cg.rs, from which they are taken. A
-- callback is a function on a state that it may change.
pub mod Part
pub mod Mark
pub mod Items
pub mod Sweep
pub mod Rounds
pub mod Slow
pub mod Direct
pub mod Result
pub mod Refine
use egwalker_paper.Base.{
  ℕ, zero, suc, ◌+◌, ◌%◌, ◌^◌, Bool, true, false, List, [], ◌∷◌, Option, none, some, ltb, ◌==◌,
  if◌then◌else◌, length, slice_eq, reverse,
}
use egwalker_paper.Base.Panic.{Outcome, done, stuck, ◌>>=◌}
use egwalker_paper.OtBench.Graph.{
  DiffFlag, only_a, only_b, shared, is_shared, flag_eq, Queue, push_all, take_shared, absorb,
}
use egwalker_paper.Rle.AppendRle.{push_reversed_rle}
use egwalker_paper.DiamondTypes.DtRange.{DtRange}
use egwalker_paper.DiamondTypes.DtRange.Laws.{dt_span}
use egwalker_paper.DiamondTypes.Graph.{GraphEntryInternal, Graph, find_entry}
use egwalker_paper.DiamondTypes.Graph.Tools.{is_direct_descendant_coarse}

abbrev pub DiffResult : Type 0
DiffResult = List DtRange × List DtRange

abbrev wrapping_add_1 : ℕ → ℕ
wrapping_add_1 v = (v + 1) % 2 ^ 64

-- `mark_run(start, last, flag)`.
abbrev pub Marker : Type 0 → Type 0
Marker S = ℕ → ℕ → DiffFlag → S → Outcome S

pub record Swept (S : Type 0) : Type 0 where
  pub state : S
  pub ord : ℕ
  pub flag : DiffFlag
  pub num : ℕ
  pub queue : Queue

abbrev pub mark_if : {S : Type 0} → Bool → Marker S → Marker S
mark_if true mark_run start last flag s = mark_run start last flag s
mark_if false mark_run start last flag s = done s

-- The loop for the items in the run that starts at `start`.
pub sweep : {S : Type 0} → Marker S → ℕ → ℕ → DiffFlag → ℕ → Queue → S → Outcome (Swept S)
sweep mark_run start ord flag num [] s =
    done (record { state = s; ord = ord; flag = flag; num = num; queue = [] })
sweep mark_run start ord flag num ((peek_ord, peek_flag) ∷ q) s =
    let same = flag_eq peek_flag flag in
    let rest = (do
      s' ← mark_if (if same then false else true) mark_run (peek_ord + 1) ord flag s
      num' ← take_shared peek_flag num
      sweep mark_run start (if same then ord else peek_ord) (if same then flag else shared) num' q
          s') in
    if ltb peek_ord start
    then done
        (record { state = s; ord = ord; flag = flag; num = num; queue = (peek_ord, peek_flag) ∷ q })
    else rest

pub diff_rounds : {S : Type 0} → Marker S → ℕ → List GraphEntryInternal → Queue → ℕ → S → Outcome S
diff_rounds mark_run zero es q num s = stuck
diff_rounds mark_run (suc fuel) es [] num s = done s
diff_rounds mark_run (suc fuel) es ((ord, flag) ∷ q) num s = do
  num1 ← take_shared flag num
  (flag', num2, q') ← absorb ord flag num1 q
  containing_txn ← find_entry es ord
  w ← sweep mark_run containing_txn.span.start ord flag' num2 q' s
  s' ← mark_run containing_txn.span.start w.ord w.flag w.state
  let q'' = push_all containing_txn.parents w.flag w.queue
  let num3 = if is_shared w.flag then w.num + length containing_txn.parents else w.num
  elim (length q'' == num3) [ true ↦ done s' | false ↦ diff_rounds mark_run fuel es q'' num3 s' ]

-- More than each version of the list: a round leaves versions below the run it looked at.
pub round_fuel : List ℕ → ℕ
round_fuel [] = 1
round_fuel (v ∷ vs) = suc (suc v) + round_fuel vs

pub diff_slow_internal :
    {S : Type 0} → Marker S → List GraphEntryInternal → List ℕ → List ℕ → S → Outcome S
diff_slow_internal mark_run es a b s =
    diff_rounds mark_run (round_fuel a + round_fuel b) es (push_all b only_b (push_all a only_a []))
      0 s

abbrev pub inclusive : ℕ → ℕ → DtRange
inclusive start last = record { start = start; end = last + 1 }

-- `mark_run` of `diff_slow`.
pub mark_result : Marker DiffResult
mark_result start last only_a (av, bv) = do
  (av', merged) ← push_reversed_rle dt_span av (inclusive start last)
  done (av', bv)
mark_result start last only_b (av, bv) = do
  (bv', merged) ← push_reversed_rle dt_span bv (inclusive start last)
  done (av, bv')
mark_result start last shared r = done r

pub diff_slow : List GraphEntryInternal → List ℕ → List ℕ → Outcome DiffResult
diff_slow es a b = diff_slow_internal mark_result es a b ([], [])

-- The short circuits for two single versions: the range that one side alone has.
pub diff_direct : List GraphEntryInternal → List ℕ → List ℕ → Outcome (Option (DtRange × DiffFlag))
diff_direct es (a ∷ []) (b ∷ []) = do
  over ← is_direct_descendant_coarse es a b
  if over
      then done (some (record { start = wrapping_add_1 b; end = wrapping_add_1 a }, only_a))
      else (do
        under ← is_direct_descendant_coarse es b a
        done (
            if under
            then some (record { start = wrapping_add_1 a; end = wrapping_add_1 b }, only_b)
            else none))
diff_direct es _ _ = done none

abbrev pub one_side : DtRange → DiffFlag → DiffResult
one_side r only_a = (r ∷ [], [])
one_side r only_b = ([], r ∷ [])
one_side r shared = ([], [])

pub diff_rev : Graph → List ℕ → List ℕ → Outcome DiffResult
diff_rev g a b = if slice_eq a b then done ([], []) else (do
  direct ← diff_direct g.entries a b
  elim direct [ some (r, flag) ↦ done (one_side r flag) | none ↦ diff_slow g.entries a b ])

-- What `diff_rev_2` does when the lists differ, with its own short circuits.
pub diff_rev_2_apart :
    {S : Type 0}
    → (DtRange → DiffFlag → S → Outcome S)
    → List GraphEntryInternal
    → List ℕ
    → List ℕ
    → S
    → Outcome S
diff_rev_2_apart mark_run es (a ∷ []) (b ∷ []) s = do
  over ← is_direct_descendant_coarse es a b
  if over
      then mark_run (record { start = wrapping_add_1 b; end = wrapping_add_1 a }) only_a s
      else (do
        under ← is_direct_descendant_coarse es b a
        if under
            then mark_run (record { start = wrapping_add_1 a; end = wrapping_add_1 b }) only_b s
            else diff_slow_internal (λ start last flag. mark_run (inclusive start last) flag) es
                (a ∷ []) (b ∷ []) s)
diff_rev_2_apart mark_run es a b s =
    diff_slow_internal (λ start last flag. mark_run (inclusive start last) flag) es a b s

-- `diff_rev` with a callback in place of the result.
pub diff_rev_2 :
    {S : Type 0} → (DtRange → DiffFlag → S → Outcome S) → Graph → List ℕ → List ℕ → S → Outcome S
diff_rev_2 mark_run g a b s =
    if slice_eq a b then done s else diff_rev_2_apart mark_run g.entries a b s

pub diff : Graph → List ℕ → List ℕ → Outcome DiffResult
diff g a b = do (only_a', only_b') ← diff_rev g a b; done (reverse only_a', reverse only_b')
