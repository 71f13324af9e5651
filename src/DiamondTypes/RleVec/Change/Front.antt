-- ===== src/DiamondTypes/RleVec/Change/Front.antt =====
-- `remove_ctx` of tools/diamond-types/src/rle/rle_vec.rs, asked to remove the front of an entry that is
-- not the last.
use egwalker_paper.Base.{ℕ, ◌≤◌, ◌<◌, List, [], ◌∷◌}
use egwalker_paper.DiamondTypes.DtRange.{DtRange}
use egwalker_paper.DiamondTypes.DtRange

abbrev pub dt_key : DtRange → ℕ
dt_key r = r.start

module _ (a b c d k : ℕ) (h : a < k) (l : k < b) (m : b ≤ c) (n : c < d) where
  abbrev two_ranges : List DtRange
  two_ranges = record { start = a; end = b } ∷ record { start = c; end = d } ∷ []

  abbrev front : DtRange
  front = record { start = a; end = k }
