-- ===== src/DiamondTypes/RleVec/Change.antt =====
-- The changes of `RleVec` in tools/diamond-types/src/rle/rle_vec.rs, for entries that are spans with a
-- key.
pub mod Front
use egwalker_paper.Base.{
  ℕ, zero, suc, ◌+◌, ◌-◌, Bool, true, false, List, [], ◌∷◌, Option, none, some, ltb, leb, ◌==◌,
  if◌then◌else◌, length, get_elem?, set,
}
use egwalker_paper.Base.Panic.{Outcome, done, panic, stuck, checked_sub, ◌>>=◌}
use egwalker_paper.Base.Search.{found, missing}
use egwalker_paper.Rle.Spans.{Span}
use egwalker_paper.Rle.AppendRle.{push_rle}
use egwalker_paper.DiamondTypes.DtRange.{DtRange, truncate_keeping_right_h}
use egwalker_paper.DiamondTypes.DtRange
use egwalker_paper.DiamondTypes.RleVec.{index, last_entry, entry_end, entry_span, find_index}

-- `Vec::insert` and `Vec::remove` in range, and `Vec::pop`.
pub insert_entry {ℓ} : {A : Type ℓ} → List A → ℕ → A → List A
insert_entry es zero v = v ∷ es
insert_entry [] (suc i) v = v ∷ []
insert_entry (e ∷ es) (suc i) v = e ∷ insert_entry es i v

pub remove_entry {ℓ} : {A : Type ℓ} → List A → ℕ → List A
remove_entry [] i = []
remove_entry (e ∷ es) zero = es
remove_entry (e ∷ es) (suc i) = e ∷ remove_entry es i

pub pop {ℓ} : {A : Type ℓ} → List A → List A
pop [] = []
pop (e ∷ []) = []
pop (e ∷ f ∷ es) = e ∷ pop (f ∷ es)

module _ (sp : Span) (rle_key : sp.Elem → ℕ) where
  open sp use {Elem, len, truncate, truncate_keeping_right, can_append, append, prepend}

  -- `RleKeyedAndSplitable`
  pub truncate_from : ℕ → Elem → Outcome (Elem × Elem)
  truncate_from at e = do k ← checked_sub at (rle_key e); truncate k e

  pub truncate_keeping_right_from : ℕ → Elem → Outcome (Elem × Elem)
  truncate_keeping_right_from at e = do k ← checked_sub at (rle_key e); truncate_keeping_right k e

  -- `try_trim` of src/rle/mod.rs.
  unfoldable pub trim_front : Elem → DtRange → DtRange → Outcome (Option Elem)
  trim_front x x_span target =
      if ltb x_span.start target.start
      then (if leb x_span.end target.start then done none else (do
        (x', cut) ← truncate_keeping_right (target.start - x_span.start) x
        done (some x')))
      else done (some x)

  unfoldable pub trim_back : Elem → DtRange → DtRange → Outcome (Option Elem)
  trim_back x x_span target =
      if ltb target.end x_span.end
      then (if leb target.end x_span.start
          then done none
          else (do (x', cut) ← truncate (target.end - x_span.start) x; done (some x')))
      else done (some x)

  unfoldable pub try_trim : Elem → DtRange → Outcome (Option Elem)
  try_trim x target = do
    x_span ← entry_span rle_key len x
    front ← trim_front x x_span target
    elim front [ none ↦ done none | some x' ↦ trim_back x' x_span target ]

  pub joins_previous : List Elem → ℕ → Elem → Outcome (Option (List Elem))
  joins_previous es idx val =
      if leb 1 idx
      then (do
        prev ← index es (idx - 1)
        joins ← can_append prev val
        done (if joins then some (set es (idx - 1) (append prev val)) else none))
      else done none

  pub joins_next : List Elem → ℕ → Elem → Outcome (Option (List Elem))
  joins_next es idx val = elim (get_elem? es idx) [
    | none ↦ done none
    | some next ↦ (do
      joins ← can_append val next
      done (if joins then some (set es idx (prepend next val)) else none))
  ]

  pub insert_between : List Elem → ℕ → Elem → Outcome (List Elem)
  insert_between es idx val = do
    before ← joins_previous es idx val
    elim before [
      | some es' ↦ done es'
      | none ↦ (do
        after ← joins_next es idx val
        elim after [ some es' ↦ done es' | none ↦ done (insert_entry es idx val) ])
    ]

  pub goes_last : List Elem → Elem → Outcome Bool
  goes_last es val = elim (last_entry es) [
    | none ↦ done true
    | some last ↦ (do end ← entry_end rle_key len last; done (leb end (rle_key val)))
  ]

  pub insert : List Elem → Elem → Outcome (List Elem)
  insert es val = do
    at_end ← goes_last es val
    if at_end then (do (es', merged) ← push_rle sp es val; done es') else (do
      r ← find_index rle_key len es (rle_key val)
      elim r [ found i ↦ panic | missing idx ↦ insert_between es idx val ])

  -- The first loop of `remove_ctx`: the entries, and whether it returns. A round removes an entry.
  pub remove_last : ℕ → List Elem → DtRange → Outcome (List Elem × Bool)
  remove_last zero es deleted = stuck
  remove_last (suc fuel) es deleted =
      let rest = remove_last fuel (pop es) deleted in
      elim (last_entry es) [
        | none ↦ done (es, true)
        | some last ↦ (do
          end ← entry_end rle_key len last
          if leb end deleted.start
              then done (es, true)
              else (if ltb deleted.end end
                  then done (es, false)
                  else (if leb deleted.start (rle_key last)
                      then (if deleted.start == rle_key last then done (pop es, true) else rest)
                      else (do
                        (last', cut) ← truncate_from deleted.start last
                        done (set es (length es - 1) last', true)))))
      ]

  -- The four cases of the second loop: the entries, and the index to go on at, if any.
  pub remove_case : ℕ → List Elem → DtRange → Elem → ℕ → Outcome (List Elem × Option ℕ)
  remove_case idx es deleted e e_end = do
    n ← DtRange.len deleted
    let d_end = deleted.start + n
    let next = λ (i : ℕ). if e_end == d_end then none else some i
    if ltb (rle_key e) deleted.start
        then (do
          (e', rest) ← truncate_from deleted.start e
          if ltb d_end e_end
              then (do
                (remainder, cut) ← truncate_keeping_right_from deleted.end rest
                es' ← insert (set es idx e') remainder
                done (es', none))
              else done (set es idx e', next (suc idx)))
        else (if ltb d_end e_end
            then (do
              (e', cut) ← truncate_keeping_right_from deleted.start e
              done (set es idx e', none))
            else done (remove_entry es idx, next idx))

  -- The second loop. A round removes an entry or goes on to the next.
  pub remove_middle : ℕ → ℕ → List Elem → DtRange → Outcome (List Elem)
  remove_middle zero idx es deleted = stuck
  remove_middle (suc fuel) idx es deleted = elim (get_elem? es idx) [
    | none ↦ done es
    | some e ↦ (do
      e_end ← entry_end rle_key len e
      (es', next) ← remove_case idx es deleted e e_end
      elim next [ none ↦ done es' | some idx' ↦ remove_middle fuel idx' es' deleted ])
  ]

  -- Where the second loop begins, and with which range; `none` if there is nothing to remove.
  pub remove_start : List Elem → DtRange → Outcome (Option (ℕ × DtRange))
  remove_start es deleted = do
    r ← find_index rle_key len es deleted.start
    elim r [
      | found idx ↦ done (some (idx, deleted))
      | missing idx ↦ elim (get_elem? es idx) [
        | none ↦ done none
        | some entry ↦ (do
          k ← checked_sub (rle_key entry) deleted.start
          done (some (idx, (truncate_keeping_right_h k deleted).0)))
      ]
    ]

  pub remove : List Elem → DtRange → Outcome (List Elem)
  remove es deleted = do
    (es', returns) ← remove_last (suc (length es)) es deleted
    if returns then done es' else (do
      start ← remove_start es' deleted
      elim start [
        | none ↦ done es'
        | some (idx, deleted') ↦ remove_middle (suc (length es')) idx es' deleted'
      ])
