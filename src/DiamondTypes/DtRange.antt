-- ===== src/DiamondTypes/DtRange.antt =====
-- `DTRange` of tools/diamond-types/src/dtrange.rs: a start and an end. A method that takes
-- `&mut self` returns the new `self` first. A subtraction below 0 is a panic; sums of positions are
-- within `usize` for the ranges that exist, and written as sums.
pub mod Laws
use egwalker_paper.Base.{
  ℕ, ◌+◌, ◌-◌, ◌/◌, ◌^◌, Bool, true, false, Option, none, some, ◌==◌, ltb, leb, ◌&&◌, min, max,
  if◌then◌else◌, Ordering,
}
use egwalker_paper.Base.Panic.{Outcome, done, checked_sub}

pub record DtRange : Type 0 where
  pub start : ℕ
  pub end : ℕ

pub new_from_len : ℕ → ℕ → DtRange
new_from_len start len = record { start = start; end = start + len }

pub from_usize : ℕ → DtRange
from_usize start = record { start = start; end = start + 1 }

unfoldable pub len : DtRange → Outcome ℕ
len r = checked_sub r.end r.start

unfoldable pub last : DtRange → Outcome ℕ
last r = checked_sub r.end 1

unfoldable pub contains : DtRange → ℕ → Bool
contains r item = leb r.start item && ltb item r.end

unfoldable pub is_empty : DtRange → Bool
is_empty r = r.start == r.end

pub intersect : DtRange → DtRange → Option DtRange
intersect self other =
    let start = max self.start other.start in
    let end = min self.end other.end in
    if leb start end then some (record { start = start; end = end }) else none

pub does_intersect : DtRange → DtRange → Bool
does_intersect self other = ltb self.start other.end && ltb other.start self.end

pub partial_cmp_time : DtRange → ℕ → Ordering
partial_cmp_time r time =
    if ltb time r.start then Ordering.lt else (if leb r.end time then Ordering.gt else Ordering.eq)

pub take_first : DtRange → DtRange × Option ℕ
take_first r =
    if is_empty r then (r, none) else (record { start = r.start + 1; end = r.end }, some r.start)

unfoldable pub truncate_h : ℕ → DtRange → DtRange × DtRange
truncate_h at r =
    let split = r.start + at in
    (record { start = r.start; end = split }, record { start = split; end = r.end })

unfoldable pub truncate_keeping_right_h : ℕ → DtRange → DtRange × DtRange
truncate_keeping_right_h at r =
    let split = r.start + at in
    (record { start = split; end = r.end }, record { start = r.start; end = split })

unfoldable pub can_append : DtRange → DtRange → Bool
can_append self other = other.start == self.end

unfoldable pub append : DtRange → DtRange → DtRange
append self other = record { start = self.start; end = other.end }

pub prepend : DtRange → DtRange → DtRange
prepend self other = record { start = other.start; end = self.end }

pub get_offset : DtRange → ℕ → Outcome (Option ℕ)
get_offset r loc =
    if leb r.start loc && ltb loc r.end then done (some (loc - r.start)) else done none

pub at_offset : DtRange → ℕ → ℕ
at_offset r offset = r.start + offset
