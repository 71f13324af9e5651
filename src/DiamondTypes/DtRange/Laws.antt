-- ===== src/DiamondTypes/DtRange/Laws.antt =====
-- The items of a `DTRange` of tools/diamond-types/src/dtrange.rs, and what its methods do to them.
use egwalker_paper.Base.{
  ℕ, zero, suc, ◌+◌, ◌-◌, ◌≤◌, ◌<◌, ◌≡◌, inl, inr, Bool-cases, refl, ap, sym, ◌↔◌, Bool, true,
  false, List, [], ◌∷◌, ◌++◌, Option, none, some, ◌==◌, ltb, leb, ◌&&◌, max, Ordering, length,
  arith, get_elem?, if◌then◌else◌, ◌∙◌,
}
use egwalker_paper.Base.{contains as list_contains}
use egwalker_paper.Base.Panic.{Outcome, done, checked_sub_lem}
use egwalker_paper.DiamondTypes.DtRange.{
  DtRange, new_from_len, from_usize, last, len, contains, is_empty, intersect, does_intersect,
  partial_cmp_time, get_offset, at_offset, take_first, truncate_h, truncate_keeping_right_h,
  can_append, append, prepend,
}
use egwalker_paper.Rle.Spans.{Span}

-- `n` numbers from `s` on.
abbrev pub upto : ℕ → ℕ → List ℕ
upto s zero = []
upto s (suc n) = s ∷ upto (s + 1) n

abbrev pub items : DtRange → List ℕ
items r = upto r.start (r.end - r.start)

abbrev pub IsRange : DtRange → Type 0
IsRange r = r.start < r.end

pub length-upto : (s n : ℕ) → length (upto s n) ≡ n
length-upto s zero = refl
length-upto s (suc n) = ap suc (length-upto (s + 1) n)

pub upto-add : (s m n : ℕ) → upto s (m + n) ≡ upto s m ++ upto (s + m) n
upto-add s zero n =
    let e : s + 0 ≡ s = omega arith in let f : 0 + n ≡ n = omega arith in rw (e, f) refl
upto-add s (suc m) n =
    let e : suc m + n ≡ suc (m + n) = omega arith in
    let f : s + suc m ≡ (s + 1) + m = omega arith in
    rw (e, f) (ap (λ (l : List ℕ). s ∷ l) (upto-add (s + 1) m n))

pub contains-upto : (s n x : ℕ) → list_contains (upto s n) x ≡ (leb s x && ltb x (s + n))
contains-upto s zero x = ground arith
contains-upto s (suc n) x = ground (arith, contains-upto (s + 1) n x)

-- The items at which two ranges that touch meet.
pub upto_split : (a b c : ℕ) → a ≤ b → b ≤ c → upto a (c - a) ≡ upto a (b - a) ++ upto b (c - b)
upto_split a b c h k =
    let e : c - a ≡ (b - a) + (c - b) = omega arith in
    let f : a + (b - a) ≡ b = omega arith in
    let g : upto a ((b - a) + (c - b)) ≡ upto a (b - a) ++ upto (a + (b - a)) (c - b) =
      upto-add a (b - a) (c - b) in
    rw e (rw f at g)

pub contains_lem : (r : DtRange) (x : ℕ) → IsRange r → contains r x ≡ list_contains (items r) x
unfolding contains
contains_lem r x h = ground (arith, contains-upto r.start (r.end - r.start) x)

-- Where a number stands first in a list.
abbrev pub index_of : List ℕ → ℕ → Option ℕ
index_of [] x = none
index_of (y ∷ ys) x =
    if y == x then some 0 else elim (index_of ys x) [ none ↦ none | some i ↦ some (suc i) ]

index_of-upto :
    (s n x : ℕ) → index_of (upto s n) x ≡ (if leb s x && ltb x (s + n) then some (x - s) else none)
index_of-upto s zero x = let e : (leb s x && ltb x (s + 0)) ≡ false = ground arith in rw e refl
index_of-upto s (suc n) x = elim (Bool-cases (s == x)) [
  | inl e ↦ ground (arith, e)
  | inr e ↦
      rw (e, index_of-upto (s + 1) n x)
        (elim (Bool-cases (leb (s + 1) x && ltb x (s + 1 + n))) [
          | inl c ↦
              let f : suc (x - (s + 1)) ≡ x - s = ground (arith, c) in
              let g : (leb s x && ltb x (s + suc n)) ≡ true = ground (arith, c) in rw (c, g, f) refl
          | inr c ↦
              let g : (leb s x && ltb x (s + suc n)) ≡ false = ground (arith, c, e) in
              rw (c, g) refl
        ])
]

get_elem?-upto : (s n i : ℕ) → get_elem? (upto s n) i ≡ (if ltb i n then some (s + i) else none)
get_elem?-upto s zero i = ground arith
get_elem?-upto s (suc n) zero = ground arith
get_elem?-upto s (suc n) (suc i) =
    let e : s + suc i ≡ s + 1 + i = omega arith in
    let f : ltb (suc i) (suc n) ≡ ltb i n = ground arith in rw (e, f) (get_elem?-upto (s + 1) n i)

-- For ranges with items, and the list of the items of each: `contains` tells whether a number is in the
-- list, and `intersect` contains exactly what is in both. `does_intersect` tells whether something is.
-- `partial_cmp_time` is `Less` just before all items, `Greater` just behind all and `Equal` just on an
-- item. `get_offset` is the place in the list, and nothing for other numbers, and `at_offset` is the item
-- at each place.
pub queries_lem :
    (a b : DtRange) (x : ℕ)
    → IsRange a
    → IsRange b
    → (contains a x ≡ list_contains (items a) x)
      × (elim (intersect a b) [ none ↦ false | some r ↦ contains r x ]
          ≡ (list_contains (items a) x && list_contains (items b) x))
      × ((does_intersect a b ≡ true)
          ↔ ((y : ℕ) × (list_contains (items a) y ≡ true) × (list_contains (items b) y ≡ true)))
      × ((partial_cmp_time a x ≡ Ordering.lt)
          ↔ ((y : ℕ) → list_contains (items a) y ≡ true → x < y))
      × ((partial_cmp_time a x ≡ Ordering.gt)
          ↔ ((y : ℕ) → list_contains (items a) y ≡ true → y < x))
      × ((partial_cmp_time a x ≡ Ordering.eq) ↔ (list_contains (items a) x ≡ true))
      × (get_offset a x ≡ done (index_of (items a) x))
      × (x < length (items a) → get_elem? (items a) x ≡ some (at_offset a x))
queries_lem a b x h k =
    let at : (r : DtRange) (y : ℕ)
        → list_contains (items r) y ≡ (leb r.start y && ltb y (r.start + (r.end - r.start))) =
      λ r y. contains-upto r.start (r.end - r.start) y in
    (
      contains_lem a x h,
      rw (sym (contains_lem a x h), sym (contains_lem b x k))
          (unfold contains intersect in ground arith),
      (
        λ (e : does_intersect a b ≡ true). (
          max a.start b.start,
          unfold does_intersect in ground (arith, e, at a (max a.start b.start)),
          unfold does_intersect in ground (arith, e, at b (max a.start b.start)),
        ),
        λ (y, c, d). unfold does_intersect in ground (arith, c, d, at a y, at b y),
      ),
      (
        λ e y c. unfold partial_cmp_time in ground (arith, e, c, at a y),
        λ f. unfold partial_cmp_time in ground (arith, f a.start (ground (arith, at a a.start))),
      ),
      (
        λ e y c. unfold partial_cmp_time in ground (arith, e, c, at a y),
        λ f.
            (let l = f (a.end - 1) (ground (arith, at a (a.end - 1))) in
              unfold partial_cmp_time in ground (arith, l)),
      ),
      unfold partial_cmp_time in ground (arith, at a x),
      unfold get_offset in
          let e : a.start + (a.end - a.start) ≡ a.end = omega arith in
          rw (index_of-upto a.start (a.end - a.start) x, e)
            (elim (Bool-cases (leb a.start x && ltb x a.end)) [
              | inl c ↦ rw c refl
              | inr c ↦ rw c refl
            ]),
      λ l.
          unfold at_offset in
          let m : ltb x (a.end - a.start) ≡ true =
            ground (arith, l, length-upto a.start (a.end - a.start)) in
          get_elem?-upto a.start (a.end - a.start) x ∙ rw m refl,
    )

-- The items of a result of `take_first`: the first, and those that are left.
first_items : DtRange × Option ℕ → List ℕ
first_items (r, none) = []
first_items (r, some x) = x ∷ items r

-- `take_first` of a range that does not end before it starts takes its first item, if it has one.
take_first_lem : (r : DtRange) → r.start ≤ r.end → first_items (take_first r) ≡ items r
unfolding first_items
take_first_lem r h = elim (Bool-cases (r.start == r.end)) [
  | inl e ↦
      let n : r.end - r.start ≡ 0 = ground (arith, e) in
      let t : take_first r ≡ (r, none) = unfold take_first is_empty in rw e refl in rw (t, n) refl
  | inr e ↦
      let n : r.end - r.start ≡ suc (r.end - (r.start + 1)) = ground (arith, e) in
      let t : take_first r ≡ (record { start = r.start + 1; end = r.end }, some r.start) =
        unfold take_first is_empty in rw e refl in
      rw (t, n) refl
]

-- The ranges that `new_from_len` and `From<usize>` make, and the last item of a range.
constructors_lem :
    (s n : ℕ)
    → (items (new_from_len s n) ≡ upto s n)
      × (items (from_usize s) ≡ s ∷ [])
      × (last (new_from_len s (suc n)) ≡ done (s + n))
constructors_lem s n =
    let e : (s + n) - s ≡ n = omega arith in
    let f : (s + 1) - s ≡ 1 = omega arith in
    (
      unfold new_from_len in rw e refl,
      unfold from_usize in rw f refl,
      unfold last new_from_len in checked_sub_lem (s + suc n) 1 (s + n) (omega arith),
    )

pub dt_len_lem : (e : DtRange) → IsRange e → len e ≡ done (length (items e))
unfolding len
dt_len_lem e h =
    checked_sub_lem e.end e.start (length (items e))
      (omega (arith, length-upto e.start (e.end - e.start)))

pub dt_nonempty : (e : DtRange) → IsRange e → 0 < length (items e)
dt_nonempty e h = omega (arith, length-upto e.start (e.end - e.start))

pub dt_truncate_lem :
    (at : ℕ) (e : DtRange)
    → IsRange e
    → 0 < at
    → at < length (items e)
    → (l : DtRange) × (r : DtRange) × (◌≡◌ {A = Outcome (DtRange × DtRange)}
        (done (truncate_h at e))
        (done (l, r)))
      × (◌≡◌ {A = Outcome (DtRange × DtRange)} (done (truncate_keeping_right_h at e)) (done (r, l)))
      × IsRange l
      × IsRange r
      × (items e ≡ items l ++ items r)
      × (length (items l) ≡ at)
unfolding truncate_h truncate_keeping_right_h
dt_truncate_lem at e v h k =
    let n = length-upto e.start (e.end - e.start) in
    let m = length-upto e.start ((e.start + at) - e.start) in
    (
      record { start = e.start; end = e.start + at },
      record { start = e.start + at; end = e.end },
      refl,
      refl,
      omega arith,
      omega (arith, n),
      upto_split e.start (e.start + at) e.end (omega arith) (omega (arith, n)),
      omega (arith, m),
    )

pub dt_append_lem :
    (a b : DtRange)
    → IsRange a
    → IsRange b
    → can_append a b ≡ true
    → IsRange (append a b) × (items (append a b) ≡ items a ++ items b)
unfolding can_append append
dt_append_lem a b h k e =
    let meet : b.start ≡ a.end = ground (arith, e) in
    (
      omega (arith, meet),
      rw meet (upto_split a.start a.end b.end (omega arith) (omega (arith, meet))),
    )

pub done_inj : (a b : Bool) → ◌≡◌ {A = Outcome Bool} (done a) (done b) → a ≡ b
done_inj a b e = cc

pub dt_prepend_lem : (a b : DtRange) → prepend b a ≡ append a b
unfolding append prepend
dt_prepend_lem a b = refl

abbrev pub dt_span : Span
dt_span = record {
  Elem = DtRange;
  items = items;
  IsValid = IsRange;
  len = len;
  truncate = λ at r. done (truncate_h at r);
  truncate_keeping_right = λ at r. done (truncate_keeping_right_h at r);
  can_append = λ a b. done (can_append a b);
  append = append;
  prepend = prepend;
  len_lem = dt_len_lem;
  nonempty = dt_nonempty;
  truncate_lem = dt_truncate_lem;
  can_append_lem = λ a b h k. (can_append a b, refl);
  append_lem = λ a b h k e. dt_append_lem a b h k (done_inj (can_append a b) true e);
  prepend_lem = λ a b h k e. dt_prepend_lem a b;
}
