-- ===== src/DiamondTypes/Examples.antt =====
-- Runs of the definitions for tools/diamond-types on small inputs, and the theorems at such inputs.
use egwalker_paper.Base.{
  ℕ, ◌<◌, ◌≡◌, ◌↔◌, length, get_elem?, refl, true, false, [], ◌∷◌, ◌++◌, none, some, ◌&&◌, arith,
  Ordering, contains as list_contains,
}
use egwalker_paper.Base.Panic.{done, checked_sub}
use egwalker_paper.Rle.MergeIter.{IsTurn, merge_next_lem}
use egwalker_paper.DiamondTypes.DtRange.{
  DtRange, len, contains, intersect, does_intersect, partial_cmp_time, get_offset, at_offset,
}
use egwalker_paper.DiamondTypes.DtRange.Laws.{items, index_of, queries_lem}
use egwalker_paper.DiamondTypes.RangeRev.{
  RangeRev, rev_len, appends_forward, appends_backward, rev_can_append, rev_append,
}
use egwalker_paper.DiamondTypes.RangeRev.Laws.{
  IsRev, rev_items, rev_append_lem, rev_truncate_lem, IsCut, rev_span,
}

abbrev dt : ℕ → ℕ → DtRange
dt a b = record { start = a; end = b }

-- 9, 8, 7 and 6, 5.
abbrev down_a : RangeRev
down_a = record { span = dt 7 10; fwd = false }

abbrev down_b : RangeRev
down_b = record { span = dt 5 7; fwd = false }

down_appends : rev_can_append down_a down_b ≡ done true
unfolding rev_can_append rev_len appends_forward appends_backward len checked_sub
down_appends = refl

rev_append_lem_example :
    IsRev (rev_append down_a down_b)
    × (rev_items (rev_append down_a down_b) ≡ rev_items down_a ++ rev_items down_b)
rev_append_lem_example = rev_append_lem down_a down_b (omega arith) (omega arith) down_appends

rev_truncate_lem_example : IsCut 2 down_a
rev_truncate_lem_example = rev_truncate_lem 2 down_a (omega arith) (omega arith) (omega arith)

queries_lem_example :
    (contains (dt 2 6) 4 ≡ list_contains (items (dt 2 6)) 4)
    × (elim (intersect (dt 2 6) (dt 4 9)) [ none ↦ false | some r ↦ contains r 4 ]
        ≡ (list_contains (items (dt 2 6)) 4 && list_contains (items (dt 4 9)) 4))
    × ((does_intersect (dt 2 6) (dt 4 9) ≡ true) ↔ (
        (y : ℕ) × (list_contains (items (dt 2 6)) y ≡ true)
        × (list_contains (items (dt 4 9)) y ≡ true)))
    × ((partial_cmp_time (dt 2 6) 4 ≡ Ordering.lt)
        ↔ ((y : ℕ) → list_contains (items (dt 2 6)) y ≡ true → 4 < y))
    × ((partial_cmp_time (dt 2 6) 4 ≡ Ordering.gt)
        ↔ ((y : ℕ) → list_contains (items (dt 2 6)) y ≡ true → y < 4))
    × ((partial_cmp_time (dt 2 6) 4 ≡ Ordering.eq) ↔ (list_contains (items (dt 2 6)) 4 ≡ true))
    × (get_offset (dt 2 6) 4 ≡ done (index_of (items (dt 2 6)) 4))
    × (4 < length (items (dt 2 6)) → get_elem? (items (dt 2 6)) 4 ≡ some (at_offset (dt 2 6) 4))
queries_lem_example = queries_lem (dt 2 6) (dt 4 9) 4 (omega arith) (omega arith)

merge_next_lem_example :
    IsTurn rev_span true (record { peeked = none; rest = down_a ∷ down_b ∷ down_a ∷ [] })
merge_next_lem_example =
    merge_next_lem rev_span true (record { peeked = none; rest = down_a ∷ down_b ∷ down_a ∷ [] }) tt
      (omega arith, (omega arith, (omega arith, tt)))
