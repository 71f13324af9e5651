-- ===== src/DiamondTypes/RangeRev.antt =====
-- `RangeRev` of tools/diamond-types/src/rev_range.rs: a range that is read forwards or backwards.
pub mod Laws
pub mod Part
use egwalker_paper.Base.{ℕ, ◌+◌, ◌-◌, Bool, true, false, not, ◌==◌, leb, ◌&&◌, ◌||◌, if◌then◌else◌}
use egwalker_paper.Base.Panic.{Outcome, done, checked_sub, ◌>>=◌}
use egwalker_paper.DiamondTypes.DtRange.{DtRange, len, truncate_h, truncate_keeping_right_h}

pub record RangeRev : Type 0 where
  pub span : DtRange
  pub fwd : Bool

pub rev_from : DtRange → RangeRev
rev_from target = record { span = target; fwd = true }

pub lv_at_offset : RangeRev → ℕ → Outcome ℕ
lv_at_offset r offset =
    if r.fwd
    then done (r.span.start + offset)
    else checked_sub r.span.end offset >>= (λ e. checked_sub e 1)

-- `range`, with its first two debug assertions left out.
pub range : RangeRev → ℕ → ℕ → Outcome DtRange
range r offset_start offset_end =
    if r.fwd
    then done (record { start = r.span.start + offset_start; end = r.span.start + offset_end })
    else (do
      start ← checked_sub r.span.end offset_end
      end ← checked_sub r.span.end offset_start
      done (record { start = start; end = end }))

unfoldable pub rev_len : RangeRev → Outcome ℕ
rev_len r = len r.span

-- `SplitableSpanHelpers::truncate_h`: the span that stays, and the other.
pub rev_truncate_h : ℕ → RangeRev → Outcome (RangeRev × RangeRev)
rev_truncate_h at r =
    if r.fwd
    then (let (kept, other) = truncate_h at r.span in
        done (record { span = kept; fwd = r.fwd }, record { span = other; fwd = r.fwd }))
    else (do
      n ← rev_len r
      k ← checked_sub n at
      let (kept, other) = truncate_keeping_right_h k r.span
      done (record { span = kept; fwd = r.fwd }, record { span = other; fwd = r.fwd }))

-- The trait's `truncate_keeping_right_h`: `other.truncate_h(at)` of a clone is the new `self`.
pub rev_truncate_keeping_right_h : ℕ → RangeRev → Outcome (RangeRev × RangeRev)
rev_truncate_keeping_right_h at r = do (other, kept) ← rev_truncate_h at r; done (kept, other)

-- The two tests of `can_append`, given whether the lengths are 1.
unfoldable pub appends_forward : Bool → Bool → RangeRev → RangeRev → Bool
appends_forward self_len_1 other_len_1 self other =
    ((self_len_1 || self.fwd) && (other_len_1 || other.fwd)) && other.span.start == self.span.end

unfoldable pub appends_backward : Bool → Bool → RangeRev → RangeRev → Bool
appends_backward self_len_1 other_len_1 self other =
    ((self_len_1 || not self.fwd) && (other_len_1 || not other.fwd))
    && other.span.end == self.span.start

unfoldable pub rev_can_append : RangeRev → RangeRev → Outcome Bool
rev_can_append self other = do
  self_len ← rev_len self
  other_len ← rev_len other
  done (
      if appends_forward (self_len == 1) (other_len == 1) self other
      then true
      else appends_backward (self_len == 1) (other_len == 1) self other)

pub rev_append : RangeRev → RangeRev → RangeRev
rev_append self other =
    if leb self.span.start other.span.start
    then record { span = record { start = self.span.start; end = other.span.end }; fwd = true }
    else record { span = record { start = other.span.start; end = self.span.end }; fwd = false }

-- The trait's `prepend`: `other.append(self)` is the new `self`.
pub rev_prepend : RangeRev → RangeRev → RangeRev
rev_prepend self other = rev_append other self
