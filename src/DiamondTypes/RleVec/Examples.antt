-- ===== src/DiamondTypes/RleVec/Examples.antt =====
-- Runs of the definitions for `RleVec` on small vectors of ranges, and the theorems at such vectors.
use egwalker_paper.Base.{ℕ, ◌-◌, ◌≡◌, refl, List, [], ◌∷◌, some, get_elem?, arith}
use egwalker_paper.Base.Panic.{done, checked_sub}
use egwalker_paper.Base.Search.{found}
use egwalker_paper.DiamondTypes.DtRange.{DtRange, len, truncate_h, truncate_keeping_right_h}
use egwalker_paper.DiamondTypes.RleVec.{
  entry_span, find, find_index, find_packed, find_from, find_sparse, Sparse, gap, entry_end, index,
  for_each_sparse,
}
use egwalker_paper.DiamondTypes.RleVec.Find.{IsKeyed, IsPacked, Covers, find_packed_lem}
use egwalker_paper.DiamondTypes.RleVec.Gaps.{
  IsSparse, find_sparse_lem, IsTiling, visited, for_each_sparse_lem,
}
use egwalker_paper.DiamondTypes.DtRange.Laws.{dt_span}
use egwalker_paper.DiamondTypes.RleVec.Change.{try_trim, trim_front, trim_back}
use egwalker_paper.DiamondTypes.RleVec.Change.Front.{dt_key}

abbrev key : DtRange → ℕ
key r = r.start

abbrev size : DtRange → ℕ
size r = r.end - r.start

-- 0 to 4, and 10 to 14.
abbrev apart : List DtRange
apart = record { start = 0; end = 5 } ∷ record { start = 10; end = 15 } ∷ []

-- 0 to 4, and 5 to 14.
abbrev packed : List DtRange
packed = record { start = 0; end = 5 } ∷ record { start = 5; end = 15 } ∷ []

apart-IsKeyed : IsKeyed key len size 0 apart
unfolding len checked_sub
apart-IsKeyed = (refl, omega arith, omega arith, (refl, omega arith, omega arith, tt))

packed-IsPacked : IsPacked key len size 0 packed 15
unfolding len checked_sub
packed-IsPacked = (refl, omega arith, refl, (refl, omega arith, refl, refl))

find_gap : find_sparse key len apart 7 ≡ done (gap (record { start = 5; end = 10 }), 2)
unfolding find_sparse find_index find_from entry_end index len checked_sub
find_gap = refl

find_packed_lem_example :
    (i : ℕ) × (e : DtRange) × (find_index key len packed 7 ≡ done (found i))
    × (find key len packed 7 ≡ done (some e))
    × (find_packed key len packed 7 ≡ done e)
    × (get_elem? packed i ≡ some e)
    × Covers key len size e 7
find_packed_lem_example =
    find_packed_lem key len size 0 15 packed 7 packed-IsPacked (omega arith) (omega arith)

find_sparse_lem_example :
    (r : Sparse key len × ℕ) × (find_sparse key len apart 7 ≡ done r)
    × IsSparse key len size apart 7 r
find_sparse_lem_example = find_sparse_lem key len size 0 apart 7 apart-IsKeyed (omega arith)

for_each_sparse_lem_example :
    (vs : List (Sparse key len)) × (for_each_sparse key len apart 20 ≡ done vs)
    × IsTiling key len size 0 vs 20
    × (visited key len size vs ≡ apart)
for_each_sparse_lem_example = for_each_sparse_lem key len size apart 20 (
  apart-IsKeyed.0,
  omega arith,
  omega arith,
  (apart-IsKeyed.3.0, omega arith, omega arith, omega arith),
)

-- The item loses its front, and then too little of its back.
trim_both_ends :
    try_trim dt_span dt_key (record { start = 0; end = 10 }) (record { start = 3; end = 6 })
    ≡ done (some (record { start = 3; end = 9 }))
unfolding try_trim trim_front trim_back entry_span len truncate_h truncate_keeping_right_h
    checked_sub
trim_both_ends = refl
