-- ===== src/DiamondTypes/RangeRev/Laws.antt =====
-- The items of a `RangeRev` of tools/diamond-types/src/rev_range.rs, and what its methods do to them.
use egwalker_paper.Base.{
  ℕ, ◌+◌, ◌-◌, ◌<◌, ◌≡◌, refl, ap, sym, ◌∙◌, inl, inr, Bool, true, false, List, [], ◌∷◌, ◌++◌,
  reverse, reverse-append, ◌==◌, leb, ◌||◌, not, if◌then◌else◌, length, length-append, arith,
  Bool-cases,
}
use mathlib.Core.List.{reverse_aux}
use egwalker_paper.Base.Panic.{Outcome, done, checked_sub_lem}
use egwalker_paper.DiamondTypes.DtRange.{DtRange}
use egwalker_paper.DiamondTypes.DtRange.Laws.{
  upto, items, IsRange, dt_len_lem, dt_truncate_lem, length-upto, upto_split,
}
use egwalker_paper.DiamondTypes.RangeRev.{
  RangeRev, rev_len, rev_truncate_h, rev_truncate_keeping_right_h, rev_can_append, appends_forward,
  appends_backward, rev_append, rev_prepend,
}
use egwalker_paper.Rle.Spans.{Span}

abbrev pub read : Bool → List ℕ → List ℕ
read true xs = xs
read false xs = reverse xs

abbrev pub span_len : RangeRev → ℕ
span_len r = r.span.end - r.span.start

pair_done :
    {a b : DtRange × DtRange} → ◌≡◌ {A = Outcome (DtRange × DtRange)} (done a) (done b) → a ≡ b
pair_done {a} {b} e = cc

abbrev flag_same : Bool → Bool → Bool
flag_same f g = if f then g else not g

done_inj : {a b : Bool} → ◌≡◌ {A = Outcome Bool} (done a) (done b) → a ≡ b
done_inj {a} {b} e = cc

abbrev pub rev_items : RangeRev → List ℕ
rev_items r = read r.fwd (items r.span)

abbrev pub IsRev : RangeRev → Type 0
IsRev r = IsRange r.span

length-reverse_aux : (xs ys : List ℕ) → length (reverse_aux xs ys) ≡ length xs + length ys
length-reverse_aux [] ys = omega arith
length-reverse_aux (x ∷ xs) ys = omega (arith, length-reverse_aux xs (x ∷ ys))

pub length-read : (f : Bool) (xs : List ℕ) → length (read f xs) ≡ length xs
length-read true xs = refl
length-read false xs = omega (arith, length-reverse_aux xs [])

length-rev_items : (r : RangeRev) → length (rev_items r) ≡ r.span.end - r.span.start
length-rev_items r =
    length-read r.fwd (items r.span) ∙ length-upto r.span.start (r.span.end - r.span.start)

rev_len_lem : (r : RangeRev) → IsRev r → rev_len r ≡ done (r.span.end - r.span.start)
unfolding rev_len
rev_len_lem r h =
    rw (dt_len_lem r.span h, length-upto r.span.start (r.span.end - r.span.start)) refl

-- One item reads the same in both directions.
reads :
    (f g : Bool) (s n : ℕ)
    → ((n == 1) || flag_same f g) ≡ true
    → read g (upto s n) ≡ read f (upto s n)
reads true true s n h = refl
reads false false s n h = refl
reads true false s n h = let e : n ≡ 1 = ground (arith, h) in rw e refl
reads false true s n h = let e : n ≡ 1 = ground (arith, h) in rw e refl

-- The tests of `can_append` at the lengths of the two ranges.
tests_lem :
    (a b : RangeRev)
    → IsRev a
    → IsRev b
    → rev_can_append a b
      ≡ done (
          if appends_forward (span_len a == 1) (span_len b == 1) a b
          then true
          else appends_backward (span_len a == 1) (span_len b == 1) a b)
unfolding rev_can_append
tests_lem a b h k = rw (rev_len_lem a h, rev_len_lem b k) refl

forward_lem :
    (a b : RangeRev)
    → IsRev a
    → IsRev b
    → appends_forward (span_len a == 1) (span_len b == 1) a b ≡ true
    → IsRev (rev_append a b) × (rev_items (rev_append a b) ≡ rev_items a ++ rev_items b)
unfolding appends_forward
forward_lem a b h k e =
    let meet : b.span.start ≡ a.span.end = ground (arith, e) in
    let after : leb a.span.start b.span.start ≡ true = ground (arith, meet) in
    let ra = reads true a.fwd a.span.start (span_len a) (ground (arith, e)) in
    let rb = reads true b.fwd b.span.start (span_len b) (ground (arith, e)) in
    let split = upto_split a.span.start a.span.end b.span.end (omega arith) (omega (arith, meet)) in
    unfold rev_append in rw (after, ra, rb, meet) (omega (arith, meet), split)

backward_lem :
    (a b : RangeRev)
    → IsRev a
    → IsRev b
    → appends_backward (span_len a == 1) (span_len b == 1) a b ≡ true
    → IsRev (rev_append a b) × (rev_items (rev_append a b) ≡ rev_items a ++ rev_items b)
unfolding appends_backward
backward_lem a b h k e =
    let meet : b.span.end ≡ a.span.start = ground (arith, e) in
    let before : leb a.span.start b.span.start ≡ false = ground (arith, meet) in
    let ra = reads false a.fwd a.span.start (span_len a) (ground (arith, e)) in
    let rb = reads false b.fwd b.span.start (span_len b) (ground (arith, e)) in
    let split : upto b.span.start (a.span.end - b.span.start)
        ≡ upto b.span.start (span_len b) ++ upto a.span.start (span_len a) =
      rw (sym meet)
        (upto_split b.span.start b.span.end a.span.end (omega arith) (omega (arith, meet))) in
    unfold rev_append in
    rw (before, ra, rb)
      (
        omega (arith, meet),
        ap reverse split
            ∙ reverse-append (upto b.span.start (span_len b)) (upto a.span.start (span_len a)),
      )

-- `can_append` of two ranges with items does not panic, and when it is true `append` gives a range
-- whose items are those of the first and then those of the second, in the order they are read.
pub rev_append_lem :
    (a b : RangeRev)
    → IsRev a
    → IsRev b
    → rev_can_append a b ≡ done true
    → IsRev (rev_append a b) × (rev_items (rev_append a b) ≡ rev_items a ++ rev_items b)
rev_append_lem a b h k e =
    let t : (if appends_forward (span_len a == 1) (span_len b == 1) a b
          then true
          else appends_backward (span_len a == 1) (span_len b == 1) a b)
        ≡ true =
      done_inj (sym (tests_lem a b h k) ∙ e) in
    elim (Bool-cases (appends_forward (span_len a == 1) (span_len b == 1) a b)) [
      | inl f ↦ forward_lem a b h k f
      | inr f ↦ backward_lem a b h k (rw f at t)
    ]

abbrev pub turn : Bool → DtRange → RangeRev
turn f r = record { span = r; fwd = f }

-- What `truncate` at `at` is to give: the first `at` items, and the others.
abbrev pub IsCut : ℕ → RangeRev → Type 0
IsCut at e =
    (l : RangeRev) × (r : RangeRev) × (rev_truncate_h at e ≡ done (l, r))
    × (rev_truncate_keeping_right_h at e ≡ done (r, l))
    × IsRev l
    × IsRev r
    × (rev_items e ≡ rev_items l ++ rev_items r)
    × (length (rev_items l) ≡ at)

truncate_fwd :
    (at : ℕ) (span : DtRange)
    → IsRange span
    → 0 < at
    → at < length (items span)
    → IsCut at (turn true span)
truncate_fwd at span v h k =
    let (l, r, e, _, vl, vr, split, cut) = dt_truncate_lem at span v h k in
    let t : rev_truncate_h at (turn true span) ≡ done (turn true l, turn true r) =
      unfold rev_truncate_h in rw (pair_done e) refl in
    (
      turn true l,
      turn true r,
      t,
      unfold rev_truncate_keeping_right_h in rw t refl,
      vl,
      vr,
      split,
      cut,
    )

truncate_back :
    (at : ℕ) (span : DtRange)
    → IsRange span
    → 0 < at
    → at < length (items span)
    → IsCut at (turn false span)
truncate_back at span v h k =
    let n = length (items span) in
    let (l, r, _, e, vl, vr, split, cut) =
      dt_truncate_lem (n - at) span v (omega arith) (omega arith) in
    let t : rev_truncate_h at (turn false span) ≡ done (turn false r, turn false l) =
      unfold rev_truncate_h rev_len in
      rw (dt_len_lem span v, checked_sub_lem n at (n - at) (omega arith), pair_done e) refl in
    (
      turn false r,
      turn false l,
      t,
      unfold rev_truncate_keeping_right_h in rw t refl,
      vr,
      vl,
      ap reverse split ∙ reverse-append (items l) (items r),
      omega (
        arith,
        length-read false (items r),
        ap length split,
        length-append (items l) (items r),
        cut,
      ),
    )

IsCut-both :
    (at : ℕ) (f : Bool) (span : DtRange)
    → IsRange span
    → 0 < at
    → at < length (items span)
    → IsCut at (turn f span)
IsCut-both at true = truncate_fwd at
IsCut-both at false = truncate_back at

-- `truncate` and `truncate_keeping_right` at a place inside a valid range do not panic, and split its
-- items, in the order they are read, at that place.
pub rev_truncate_lem :
    (at : ℕ) (e : RangeRev) → IsRev e → 0 < at → at < length (rev_items e) → IsCut at e
rev_truncate_lem at e v h k =
    IsCut-both at e.fwd e.span v h (omega (arith, length-read e.fwd (items e.span), k))

pub rev_can_append_lem :
    (a b : RangeRev) → IsRev a → IsRev b → (c : Bool) × (rev_can_append a b ≡ done c)
rev_can_append_lem a b h k = (_, tests_lem a b h k)

pub rev_prepend_lem :
    (a b : RangeRev)
    → IsRev a
    → IsRev b
    → rev_can_append a b ≡ done true
    → rev_prepend b a ≡ rev_append a b
unfolding rev_prepend
rev_prepend_lem a b h k e = refl

pub rev_len-rev_items : (e : RangeRev) → IsRev e → rev_len e ≡ done (length (rev_items e))
rev_len-rev_items e h = rev_len_lem e h ∙ ap done (sym (length-rev_items e))

pub rev_nonempty : (e : RangeRev) → IsRev e → 0 < length (rev_items e)
rev_nonempty e h = omega (arith, length-rev_items e)

abbrev pub rev_span : Span
rev_span = record {
  Elem = RangeRev;
  items = rev_items;
  IsValid = IsRev;
  len = rev_len;
  truncate = rev_truncate_h;
  truncate_keeping_right = rev_truncate_keeping_right_h;
  can_append = rev_can_append;
  append = rev_append;
  prepend = rev_prepend;
  len_lem = rev_len-rev_items;
  nonempty = rev_nonempty;
  truncate_lem = rev_truncate_lem;
  can_append_lem = rev_can_append_lem;
  append_lem = rev_append_lem;
  prepend_lem = rev_prepend_lem;
}
