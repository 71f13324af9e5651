-- ===== src/Rle/Spans.antt =====
-- The traits `HasLength`, `SplitableSpan` and `MergableSpan` of
-- tools/diamond-types/crates/rle/src/splitable_span.rs as one interface: a span stands for the list
-- of its items. A method that takes `&mut self` returns the new `self` first.
use egwalker_paper.Base.{
  ℕ, ◌≤◌, ◌<◌, ◌≡◌, refl, Bool, true, List, [], ◌∷◌, ◌++◌, Option, none, some, length, ltb, leb,
  ltb→lt, min, ◌∙◌, Bool-cases, inl, inr, append-nil, sym, if◌then◌else◌, arith,
}
use egwalker_paper.Base.Panic.{Outcome, done, ◌>>=◌}

pub record Span : Type 1 where
  pub Elem : Type 0
  pub items : Elem → List ℕ
  pub IsValid : Elem → Type 0
  pub len : Elem → Outcome ℕ
  pub truncate : ℕ → Elem → Outcome (Elem × Elem)
  pub truncate_keeping_right : ℕ → Elem → Outcome (Elem × Elem)
  pub can_append : Elem → Elem → Outcome Bool
  pub append : Elem → Elem → Elem
  pub prepend : Elem → Elem → Elem
  pub len_lem : (e : Elem) → IsValid e → len e ≡ done (length (items e))
  pub nonempty : (e : Elem) → IsValid e → 0 < length (items e)
  pub truncate_lem :
      (at : ℕ) (e : Elem)
      → IsValid e
      → 0 < at
      → at < length (items e)
      → (l : Elem) × (r : Elem) × (truncate at e ≡ done (l, r))
        × (truncate_keeping_right at e ≡ done (r, l))
        × IsValid l
        × IsValid r
        × (items e ≡ items l ++ items r)
        × (length (items l) ≡ at)
  pub can_append_lem : (a b : Elem) → IsValid a → IsValid b → (c : Bool) × (can_append a b ≡ done c)
  pub append_lem :
      (a b : Elem)
      → IsValid a
      → IsValid b
      → can_append a b ≡ done true
      → IsValid (append a b) × (items (append a b) ≡ items a ++ items b)
  pub prepend_lem :
      (a b : Elem) → IsValid a → IsValid b → can_append a b ≡ done true → prepend b a ≡ append a b

module _ (sp : Span) where
  open sp use {Elem, items, IsValid, len, truncate, truncate_keeping_right}

  -- `trim`: at most `at` items stay, and what is behind them is returned.
  pub trim : ℕ → Elem → Outcome (Elem × Option Elem)
  trim at e = do
    n ← len e
    if leb n at then done (e, none) else (do (l, r) ← truncate at e; done (l, some r))

  -- `Shatter::next`: the state is the span that is left, if any.
  pub shatter_next : Option Elem → Outcome (Option Elem × Option Elem)
  shatter_next none = done (none, none)
  shatter_next (some e) = do
    n ← len e
    if ltb 1 n
        then (do (e', first) ← truncate_keeping_right 1 e; done (some e', some first))
        else done (none, some e)

  -- The items of a list of spans, and of a list in descending order.
  abbrev pub flatten : List Elem → List ℕ
  flatten [] = []
  flatten (x ∷ xs) = items x ++ flatten xs

  abbrev pub flatten_reversed : List Elem → List ℕ
  flatten_reversed [] = []
  flatten_reversed (x ∷ xs) = flatten_reversed xs ++ items x

  abbrev pub left_items : Option Elem → List ℕ
  left_items none = []
  left_items (some e) = items e

  abbrev pub IsLeft : Option Elem → Type 0
  IsLeft none = Unit
  IsLeft (some e) = IsValid e

  one_item : (e : Elem) → IsValid e → length (items e) ≤ 1 → length (items e) ≡ 1
  one_item e v h = omega (arith, sp.nonempty e v)

  -- `shatter` of a valid span gives its items one at a time: while something is left, `next`
  -- returns a span of one item, the first of those that were left, and the rest stays.
  pub shatter_next_lem :
      (e : Elem)
      → IsValid e
      → (first : Elem) × (rest : Option Elem) × (shatter_next (some e) ≡ done (rest, some first))
        × IsLeft rest
        × (length (items first) ≡ 1)
        × (items e ≡ items first ++ left_items rest)
  shatter_next_lem e v =
      let n = length (items e) in
      elim (Bool-cases (ltb 1 n)) [
        | inl many ↦
            let (l, r, _, t, vl, vr, split, one) =
              sp.truncate_lem 1 e v (omega arith) (ltb→lt 1 n many) in
            (l, some r, unfold shatter_next in rw (sp.len_lem e v, many, t) refl, vr, one, split)
        | inr one ↦ (
          e,
          none,
          unfold shatter_next in rw (sp.len_lem e v, one) refl,
          tt,
          one_item e v (ground (arith, one)),
          sym (append-nil (items e)),
        )
      ]

  -- `trim` of a valid span at a positive place keeps its first items, at most that many, and
  -- returns the others, if there are any.
  pub trim_lem :
      (at : ℕ) (e : Elem)
      → IsValid e
      → 0 < at
      → (kept : Elem) × (rest : Option Elem) × (trim at e ≡ done (kept, rest))
        × IsValid kept
        × IsLeft rest
        × (items e ≡ items kept ++ left_items rest)
        × (length (items kept) ≡ min at (length (items e)))
  trim_lem at e v h =
      let n = length (items e) in
      elim (Bool-cases (leb n at)) [
        | inl short ↦ (
          e,
          none,
          unfold trim in rw (sp.len_lem e v, short) refl,
          v,
          tt,
          sym (append-nil (items e)),
          ground (arith, short),
        )
        | inr long ↦
            let (l, r, t, _, vl, vr, split, cut) =
              sp.truncate_lem at e v h (ground (arith, long)) in
            (
              l,
              some r,
              unfold trim in rw (sp.len_lem e v, long, t) refl,
              vl,
              vr,
              split,
              cut ∙ ground (arith, long),
            )
      ]
