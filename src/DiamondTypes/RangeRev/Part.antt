-- ===== src/DiamondTypes/RangeRev/Part.antt =====
-- `range` and `lv_at_offset` of tools/diamond-types/src/rev_range.rs.
use egwalker_paper.Base.{
  ℕ, ◌+◌, ◌-◌, ◌≤◌, ◌<◌, ◌≡◌, refl, ap, ◌∙◌, Bool, true, false, List, [], ◌∷◌, ◌++◌, reverse,
  reverse-append, append_assoc, length, arith, if◌then◌else◌,
}
use egwalker_paper.Base.Panic.{done, checked_sub_lem}
use egwalker_paper.DiamondTypes.DtRange.{DtRange}
use egwalker_paper.DiamondTypes.DtRange.Laws.{upto, items, length-upto, upto_split}
use egwalker_paper.DiamondTypes.RangeRev.{RangeRev, lv_at_offset, range}
use egwalker_paper.DiamondTypes.RangeRev.Laws.{read, rev_items, span_len, turn, length-read}

-- `mid` stands in `whole` behind `i` items.
abbrev pub IsAt : List ℕ → List ℕ → ℕ → Type 0
IsAt whole mid i =
    (before : List ℕ) × (after : List ℕ) × (whole ≡ before ++ (mid ++ after)) × (length before ≡ i)

upto_split3 :
    (a b c d : ℕ)
    → a ≤ b
    → b ≤ c
    → c ≤ d
    → upto a (d - a) ≡ upto a (b - a) ++ (upto b (c - b) ++ upto c (d - c))
upto_split3 a b c d h k l =
    upto_split a b d h (omega arith) ∙ ap (λ xs. upto a (b - a) ++ xs) (upto_split b c d k l)

-- A part of a range, in either direction.
part_lem :
    (f : Bool) (a b c d : ℕ)
    → a ≤ b
    → b ≤ c
    → c ≤ d
    → IsAt (read f (upto a (d - a))) (read f (upto b (c - b))) (if f then b - a else d - c)
part_lem true a b c d h k l =
    (upto a (b - a), upto c (d - c), upto_split3 a b c d h k l, length-upto a (b - a))
part_lem false a b c d h k l = (
  reverse (upto c (d - c)),
  reverse (upto a (b - a)),
  ap reverse (upto_split3 a b c d h k l)
      ∙ (reverse-append (upto a (b - a)) (upto b (c - b) ++ upto c (d - c))
          ∙ (ap (λ xs. xs ++ reverse (upto a (b - a)))
                (reverse-append (upto b (c - b)) (upto c (d - c)))
              ∙ append_assoc (reverse (upto c (d - c))) (reverse (upto b (c - b)))
                  (reverse (upto a (b - a))))),
  length-read false (upto c (d - c)) ∙ length-upto c (d - c),
)

range-turn :
    (f : Bool) (span : DtRange) (i j : ℕ)
    → span.start ≤ span.end
    → i ≤ j
    → j ≤ span.end - span.start
    → (part : DtRange) × (range (turn f span) i j ≡ done part)
      × IsAt (rev_items (turn f span)) (read f (items part)) i
      × (length (items part) ≡ j - i)
range-turn true span i j v h k =
    let s = span.start in
    let n : (s + i) - s ≡ i = omega arith in
    let m : (s + j) - (s + i) ≡ j - i = omega arith in
    (
      record { start = s + i; end = s + j },
      unfold range in refl,
      rw n at (part_lem true s (s + i) (s + j) span.end (omega arith) (omega arith) (omega arith)),
      length-upto (s + i) ((s + j) - (s + i)) ∙ m,
    )
range-turn false span i j v h k =
    let e = span.end in
    let n : e - (e - i) ≡ i = omega arith in
    let m : (e - i) - (e - j) ≡ j - i = omega arith in
    (
      record { start = e - j; end = e - i },
      unfold range in
          rw (checked_sub_lem e j (e - j) (omega arith), checked_sub_lem e i (e - i) (omega arith))
            refl,
      rw n at
          (part_lem false span.start (e - j) (e - i) e (omega arith) (omega arith) (omega arith)),
      length-upto (e - j) ((e - i) - (e - j)) ∙ m,
    )

-- `range` from one offset to a later one that is in the range does not panic. It gives the range
-- that, read in the same direction, stands at the first offset among the items.
pub range_lem :
    (r : RangeRev) (i j : ℕ)
    → r.span.start ≤ r.span.end
    → i ≤ j
    → j ≤ span_len r
    → (part : DtRange) × (range r i j ≡ done part)
      × IsAt (rev_items r) (read r.fwd (items part)) i
      × (length (items part) ≡ j - i)
range_lem r i j v h k = range-turn r.fwd r.span i j v h k

lv_turn :
    (f : Bool) (span : DtRange) (i : ℕ)
    → i < span.end - span.start
    → (x : ℕ) × (lv_at_offset (turn f span) i ≡ done x) × IsAt (rev_items (turn f span)) (x ∷ []) i
lv_turn true span i h =
    let s = span.start in
    let n : (s + i) - s ≡ i = omega arith in
    let m : ((s + i) + 1) - (s + i) ≡ 1 = omega arith in
    (
      s + i,
      unfold lv_at_offset in refl,
      rw (n, m) at
          (part_lem true s (s + i) ((s + i) + 1) span.end (omega arith) (omega arith)
            (omega arith)),
    )
lv_turn false span i h =
    let e = span.end in
    let n : e - (e - i) ≡ i = omega arith in
    let m : (e - i) - ((e - i) - 1) ≡ 1 = omega arith in
    (
      (e - i) - 1,
      unfold lv_at_offset in
          rw (checked_sub_lem e i (e - i) (omega arith))
            (checked_sub_lem (e - i) 1 ((e - i) - 1) (omega arith)),
      rw (n, m) at
          (part_lem false span.start ((e - i) - 1) (e - i) e (omega arith) (omega arith)
            (omega arith)),
    )

-- `lv_at_offset` of an offset that is in the range does not panic, and gives the item that stands
-- there when the range is read in its direction.
pub lv_at_offset_lem :
    (r : RangeRev) (i : ℕ)
    → i < span_len r
    → (x : ℕ) × (lv_at_offset r i ≡ done x) × IsAt (rev_items r) (x ∷ []) i
lv_at_offset_lem r i h = lv_turn r.fwd r.span i h
