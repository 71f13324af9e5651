-- ===== src/Rle/MergeIter.antt =====
-- `MergeIter` of tools/diamond-types/crates/rle/src/merge_iter.rs, over an iterator that is given by
-- the list of spans it will yield.
use egwalker_paper.Base.{
  ℕ, suc, ◌<◌, ◌≡◌, Bool-cases, ◌⊎◌, inl, inr, refl, ap, sym, ◌∙◌, Bool, true, false, List, [], ◌∷◌,
  ◌++◌, append_assoc, append-nil, length, All, arith, Option, none, some,
}
use egwalker_paper.Base.Panic.{Outcome, done, ◌>>=◌}
use egwalker_paper.Rle.Spans.{Span, flatten, flatten_reversed, IsLeft, left_items}

module _ (sp : Span) where
  open sp use {Elem, items, IsValid, can_append, append, prepend}

  pub record MergeIter : Type 0 where
    pub peeked : Option Elem
    pub rest : List Elem

  pub merge_iter_new : List Elem → MergeIter
  merge_iter_new iter = record { peeked = none; rest = iter }

  -- The test and the merge of one turn, which the constant `FWD` selects.
  pub merges : Bool → Elem → Elem → Outcome Bool
  merges true this val = can_append this val
  merges false this val = can_append val this

  pub merged : Bool → Elem → Elem → Elem
  merged true this val = append this val
  merged false this val = prepend this val

  -- The loop of `next`: what it yields, and what is left.
  pub merge_loop : Bool → Elem → List Elem → Outcome (Elem × MergeIter)
  merge_loop fwd this_val [] = done (this_val, record { peeked = none; rest = [] })
  merge_loop fwd this_val (val ∷ iter) = do
    joins ← merges fwd this_val val
    elim joins [
      | true ↦ merge_loop fwd (merged fwd this_val val) iter
      | false ↦ done (this_val, record { peeked = some val; rest = iter })
    ]

  pub merge_next_from : Bool → Option Elem → List Elem → Outcome (Option Elem × MergeIter)
  merge_next_from fwd (some val) iter = do
    (this_val, left) ← merge_loop fwd val iter
    done (some this_val, left)
  merge_next_from fwd none [] = done (none, record { peeked = none; rest = [] })
  merge_next_from fwd none (val ∷ iter) = do
    (this_val, left) ← merge_loop fwd val iter
    done (some this_val, left)

  pub merge_next : Bool → MergeIter → Outcome (Option Elem × MergeIter)
  merge_next fwd it = merge_next_from fwd it.peeked it.rest

  -- Items in the order that `FWD` tells: backwards, a later span's items come first.
  abbrev pub join : Bool → List ℕ → List ℕ → List ℕ
  join true xs ys = xs ++ ys
  join false xs ys = ys ++ xs

  abbrev pub flat : Bool → List Elem → List ℕ
  flat true = flatten sp
  flat false = flatten_reversed sp

  abbrev pub size : MergeIter → ℕ
  size it = elim it.peeked [ none ↦ length it.rest | some v ↦ suc (length it.rest) ]

  abbrev pub all_items : Bool → MergeIter → List ℕ
  all_items fwd it = join fwd (left_items sp it.peeked) (flat fwd it.rest)

  join_assoc :
      (fwd : Bool) (xs ys zs : List ℕ) → join fwd (join fwd xs ys) zs ≡ join fwd xs (join fwd ys zs)
  join_assoc true xs ys zs = append_assoc xs ys zs
  join_assoc false xs ys zs = sym (append_assoc zs ys xs)

  flat_cons :
      (fwd : Bool) (x : Elem) (xs : List Elem)
      → flat fwd (x ∷ xs) ≡ join fwd (items x) (flat fwd xs)
  flat_cons true x xs = refl
  flat_cons false x xs = refl

  merged_lem :
      (fwd : Bool) (this val : Elem)
      → IsValid this
      → IsValid val
      → merges fwd this val ≡ done true
      → IsValid (merged fwd this val)
        × (items (merged fwd this val) ≡ join fwd (items this) (items val))
  unfolding merges merged
  merged_lem true this val a b e = sp.append_lem this val a b e
  merged_lem false this val a b e =
      rw (sp.prepend_lem val this b a e) (sp.append_lem val this b a e)

  merges_total :
      (fwd : Bool) (this val : Elem)
      → IsValid this
      → IsValid val
      → (c : Bool) × (merges fwd this val ≡ done c)
  unfolding merges
  merges_total true this val a b = sp.can_append_lem this val a b
  merges_total false this val a b = sp.can_append_lem val this b a

  -- That a span that is yielded takes no more: what is left is nothing, or begins with a span that
  -- cannot be appended to it (backwards, that it cannot be appended to).
  abbrev pub IsStop : Bool → Elem → MergeIter → Type 0
  IsStop true v it = elim it.peeked [
    | none ↦ it.rest ≡ []
    | some val ↦ can_append v val ≡ done false
  ]
  IsStop false v it = elim it.peeked [
    | none ↦ it.rest ≡ []
    | some val ↦ can_append val v ≡ done false
  ]

  IsStop-end : (fwd : Bool) (v : Elem) → IsStop fwd v (record { peeked = none; rest = [] })
  IsStop-end true v = refl
  IsStop-end false v = refl

  IsStop-before :
      (fwd : Bool) (v val : Elem) (iter : List Elem)
      → merges fwd v val ≡ done false
      → IsStop fwd v (record { peeked = some val; rest = iter })
  unfolding merges
  IsStop-before true v val iter e = e
  IsStop-before false v val iter e = e

  -- What a turn that begins at a span with `n` more behind it is to yield.
  pub record IsNext (fwd : Bool) (n : ℕ) (want : List ℕ) (v : Elem) (it : MergeIter) : Type 0 where
    pub valid : IsValid v
    pub left_valid : IsLeft sp it.peeked × All IsValid it.rest
    pub same_items : want ≡ join fwd (items v) (all_items fwd it)
    pub smaller : size it < suc n
    pub stops : IsStop fwd v it

  loop_step :
      (fwd : Bool) (this val : Elem) (iter : List Elem) (r : Elem × MergeIter)
      → merges fwd this val ≡ done true
      → merge_loop fwd (merged fwd this val) iter ≡ done r
      → merge_loop fwd this (val ∷ iter) ≡ done r
  unfolding merge_loop
  loop_step fwd this val iter r e f = rw (e, f) refl

  join_nil : (fwd : Bool) (xs : List ℕ) → join fwd xs (flat fwd []) ≡ xs
  join_nil true xs = append-nil xs
  join_nil false xs = refl

  join-left_nil : (fwd : Bool) (xs : List ℕ) → join fwd [] xs ≡ xs
  join-left_nil true xs = refl
  join-left_nil false xs = append-nil xs

  no_items : (fwd : Bool) (xs : List ℕ) → join fwd xs (join fwd [] (flat fwd [])) ≡ xs
  no_items true xs = append-nil xs
  no_items false xs = refl

  stop_step :
      (fwd : Bool) (this val : Elem) (iter : List Elem)
      → IsValid this
      → IsValid val
      → All IsValid iter
      → merges fwd this val ≡ done false
      → (r : Elem × MergeIter) × (merge_loop fwd this (val ∷ iter) ≡ done r)
        × IsNext fwd (suc (length iter)) (join fwd (items this) (flat fwd (val ∷ iter))) r.0 r.1
  stop_step fwd this val iter h k l e = (
    (this, record { peeked = some val; rest = iter }),
    unfold merge_loop in rw e refl,
    record {
      valid = h;
      left_valid = (k, l);
      same_items = ap (λ ys. join fwd (items this) ys) (flat_cons fwd val iter);
      smaller = omega arith;
      stops = IsStop-before fwd this val iter e;
    },
  )

  merge_loop_lem :
      (fwd : Bool) (this : Elem) (iter : List Elem)
      → IsValid this
      → All IsValid iter
      → (r : Elem × MergeIter) × (merge_loop fwd this iter ≡ done r)
        × IsNext fwd (length iter) (join fwd (items this) (flat fwd iter)) r.0 r.1
  merge_loop_lem fwd this [] h k = (
    (this, record { peeked = none; rest = [] }),
    unfold merge_loop in refl,
    record {
      valid = h;
      left_valid = (tt, tt);
      same_items = join_nil fwd (items this) ∙ sym (no_items fwd (items this));
      smaller = omega arith;
      stops = IsStop-end fwd this;
    },
  )
  merge_loop_lem fwd this (val ∷ iter) h k =
      let (c, d) = merges_total fwd this val h k.0 in
      elim (Bool-cases c) [
        | inr stops ↦ stop_step fwd this val iter h k.0 k.1 (rw stops at d)
        | inl joins ↦
            let e : merges fwd this val ≡ done true = rw joins at d in
            let (valid, joined) = merged_lem fwd this val h k.0 e in
            let (r, f, p) = merge_loop_lem fwd (merged fwd this val) iter valid k.1 in
            (
              r,
              loop_step fwd this val iter r e f,
              record {
                valid = p.valid;
                left_valid = p.left_valid;
                same_items =
                    ap (λ ys. join fwd (items this) ys) (flat_cons fwd val iter)
                    ∙ (sym (join_assoc fwd (items this) (items val) (flat fwd iter))
                        ∙ (ap (λ xs. join fwd xs (flat fwd iter)) (sym joined) ∙ p.same_items));
                smaller = omega (arith, p.smaller);
                stops = p.stops;
              },
            )
      ]

  -- What `next` is to do: nothing is left, or it yields a span that takes no more and leaves a
  -- smaller iterator.
  abbrev pub IsTurn : Bool → MergeIter → Type 0
  IsTurn fwd it =
      ((all_items fwd it ≡ []) × (merge_next fwd it ≡ done (none, merge_iter_new [])))
      ⊎ ((v : Elem) × (it' : MergeIter) × (merge_next fwd it ≡ done (some v, it'))
          × IsValid v
          × (IsLeft sp it'.peeked × All IsValid it'.rest)
          × (all_items fwd it ≡ join fwd (items v) (all_items fwd it'))
          × (size it' < size it)
          × IsStop fwd v it')

  merge-IsTurn :
      (fwd : Bool) (peeked : Option Elem) (rest : List Elem)
      → IsLeft sp peeked
      → All IsValid rest
      → IsTurn fwd (record { peeked = peeked; rest = rest })
  merge-IsTurn fwd none [] h k =
      inl (join_nil fwd [], unfold merge_next merge_next_from merge_iter_new in refl)
  merge-IsTurn fwd none (val ∷ iter) h k =
      let (r, e, p) = merge_loop_lem fwd val iter k.0 k.1 in
      inr (
        r.0,
        r.1,
        unfold merge_next merge_next_from in rw e refl,
        p.valid,
        p.left_valid,
        join-left_nil fwd (flat fwd (val ∷ iter)) ∙ (flat_cons fwd val iter ∙ p.same_items),
        p.smaller,
        p.stops,
      )
  merge-IsTurn fwd (some val) iter h k =
      let (r, e, p) = merge_loop_lem fwd val iter h k in
      inr (
        r.0,
        r.1,
        unfold merge_next merge_next_from in rw e refl,
        p.valid,
        p.left_valid,
        p.same_items,
        p.smaller,
        p.stops,
      )

  -- A turn of the merging iterator over valid spans, in either direction, does not panic. If no
  -- item is left it yields nothing. Else it yields a valid span and leaves fewer spans, all valid,
  -- and the span's items with those that are left are, in the direction's order, those of before. It
  -- merges all that it can: nothing is left, or the next span cannot be appended to the one
  -- yielded (backwards, the one yielded to the next).
  pub merge_next_lem :
      (fwd : Bool) (it : MergeIter) → IsLeft sp it.peeked → All IsValid it.rest → IsTurn fwd it
  merge_next_lem fwd it h k = merge-IsTurn fwd it.peeked it.rest h k
