-- ===== src/Rle/AppendRle.antt =====
-- `AppendRle` of tools/diamond-types/crates/rle/src/append_rle.rs, on vectors.
use egwalker_paper.Base.{
  ℕ, suc, ◌≡◌, refl, ap, sym, ◌∙◌, Bool, true, false, List, [], ◌∷◌, ◌++◌, append_assoc, append-nil,
  length, if◌then◌else◌, All, arith,
}
use egwalker_paper.Base.Panic.{Outcome, done, ◌>>=◌}
use egwalker_paper.Rle.Spans.{Span, flatten, flatten_reversed}

module _ (sp : Span) where
  open sp use {Elem, items, IsValid, can_append, append, prepend}

  pub push_rle : List Elem → Elem → Outcome (List Elem × Bool)
  push_rle [] item = done (item ∷ [], false)
  push_rle (v ∷ []) item = do
    merges ← can_append v item
    if merges then done (append v item ∷ [], true) else done (v ∷ item ∷ [], false)
  push_rle (v ∷ w ∷ rest) item = do
    (rest', merged) ← push_rle (w ∷ rest) item
    done (v ∷ rest', merged)

  unfoldable pub push_reversed_rle : List Elem → Elem → Outcome (List Elem × Bool)
  push_reversed_rle [] item = done (item ∷ [], false)
  push_reversed_rle (v ∷ []) item = do
    merges ← can_append item v
    if merges then done (prepend v item ∷ [], true) else done (v ∷ item ∷ [], false)
  push_reversed_rle (v ∷ w ∷ rest) item = do
    (rest', merged) ← push_reversed_rle (w ∷ rest) item
    done (v ∷ rest', merged)

  pub extend_rle : List Elem → List Elem → Outcome (List Elem)
  extend_rle xs [] = done xs
  extend_rle xs (item ∷ iter) = do (xs', merged) ← push_rle xs item; extend_rle xs' iter

  -- What a push is to return: valid spans with the items `want`, one more span unless it merged.
  pub record IsPush (n : ℕ) (want : List ℕ) (flat : List Elem → List ℕ) (r : List Elem × Bool)
      : Type 0 where
    pub valid : All IsValid r.0
    pub same_items : flat r.0 ≡ want
    pub spans : length r.0 ≡ (if r.1 then n else suc n)

  push_step :
      (v w item : Elem) (rest : List Elem) (r : List Elem × Bool)
      → push_rle (w ∷ rest) item ≡ done r
      → push_rle (v ∷ w ∷ rest) item ≡ done (v ∷ r.0, r.1)
  unfolding push_rle
  push_step v w item rest r e = rw e refl

  IsPush-one :
      (v item : Elem) (c : Bool)
      → IsValid v
      → IsValid item
      → can_append v item ≡ done c
      → (r : List Elem × Bool) × (push_rle (v ∷ []) item ≡ done r)
        × IsPush 1 (flatten sp (v ∷ []) ++ items item) (flatten sp) r
  IsPush-one v item true a b e =
      let (valid, same) = sp.append_lem v item a b e in
      (
        (append v item ∷ [], true),
        unfold push_rle in rw e refl,
        record {
          valid = (valid, tt);
          same_items = rw (append-nil (items (append v item)), append-nil (items v)) same;
          spans = refl;
        },
      )
  IsPush-one v item false a b e = (
    (v ∷ item ∷ [], false),
    unfold push_rle in rw e refl,
    record {
      valid = (a, (b, tt));
      same_items = rw (append-nil (items item), append-nil (items v)) refl;
      spans = refl;
    },
  )

  -- `push_rle` of a valid span to valid spans does not panic: the items are those of the list and
  -- then those of the span, every span is valid, and there is one span more unless it returns true.
  pub push_rle_lem :
      (xs : List Elem) (item : Elem)
      → All IsValid xs
      → IsValid item
      → (r : List Elem × Bool) × (push_rle xs item ≡ done r)
        × IsPush (length xs) (flatten sp xs ++ items item) (flatten sp) r
  push_rle_lem [] item h k = (
    (item ∷ [], false),
    unfold push_rle in refl,
    record { valid = (k, tt); same_items = append-nil (items item); spans = refl },
  )
  push_rle_lem (v ∷ []) item h k =
      let (c, e) = sp.can_append_lem v item h.0 k in IsPush-one v item c h.0 k e
  push_rle_lem (v ∷ w ∷ rest) item h k =
      let (r, e, p) = push_rle_lem (w ∷ rest) item h.1 k in
      (
        (v ∷ r.0, r.1),
        push_step v w item rest r e,
        record {
          valid = (h.0, p.valid);
          same_items =
              ap (λ l. items v ++ l) p.same_items
              ∙ sym (append_assoc (items v) (flatten sp (w ∷ rest)) (items item));
          spans = ground (arith, p.spans);
        },
      )

  push_reversed_step :
      (v w item : Elem) (rest : List Elem) (r : List Elem × Bool)
      → push_reversed_rle (w ∷ rest) item ≡ done r
      → push_reversed_rle (v ∷ w ∷ rest) item ≡ done (v ∷ r.0, r.1)
  unfolding push_reversed_rle
  push_reversed_step v w item rest r e = rw e refl

  IsPush-reversed_one :
      (v item : Elem) (c : Bool)
      → IsValid v
      → IsValid item
      → can_append item v ≡ done c
      → (r : List Elem × Bool) × (push_reversed_rle (v ∷ []) item ≡ done r)
        × IsPush 1 (items item ++ flatten_reversed sp (v ∷ [])) (flatten_reversed sp) r
  IsPush-reversed_one v item true a b e =
      let (valid, same) = sp.append_lem item v b a e in
      (
        (prepend v item ∷ [], true),
        unfold push_reversed_rle in rw e refl,
        record {
          valid = rw (sp.prepend_lem item v b a e) (valid, tt);
          same_items = rw (sp.prepend_lem item v b a e) same;
          spans = refl;
        },
      )
  IsPush-reversed_one v item false a b e = (
    (v ∷ item ∷ [], false),
    unfold push_reversed_rle in rw e refl,
    record { valid = (a, (b, tt)); same_items = refl; spans = refl },
  )

  -- `push_reversed_rle` of a valid span to a list of valid spans in descending order does not panic:
  -- read in ascending order, the items are those of the span and then those of the list, every span
  -- is valid, and there is one span more unless it returns true.
  pub push_reversed_rle_lem :
      (xs : List Elem) (item : Elem)
      → All IsValid xs
      → IsValid item
      → (r : List Elem × Bool) × (push_reversed_rle xs item ≡ done r)
        × IsPush (length xs) (items item ++ flatten_reversed sp xs) (flatten_reversed sp) r
  push_reversed_rle_lem [] item h k = (
    (item ∷ [], false),
    unfold push_reversed_rle in refl,
    record { valid = (k, tt); same_items = sym (append-nil (items item)); spans = refl },
  )
  push_reversed_rle_lem (v ∷ []) item h k =
      let (c, e) = sp.can_append_lem item v k h.0 in IsPush-reversed_one v item c h.0 k e
  push_reversed_rle_lem (v ∷ w ∷ rest) item h k =
      let (r, e, p) = push_reversed_rle_lem (w ∷ rest) item h.1 k in
      (
        (v ∷ r.0, r.1),
        push_reversed_step v w item rest r e,
        record {
          valid = (h.0, p.valid);
          same_items =
              ap (λ l. l ++ items v) p.same_items
              ∙ append_assoc (items item) (flatten_reversed sp (w ∷ rest)) (items v);
          spans = ground (arith, p.spans);
        },
      )

  extend_step :
      (xs : List Elem) (item : Elem) (iter : List Elem) (r : List Elem × Bool) (out : List Elem)
      → push_rle xs item ≡ done r
      → extend_rle r.0 iter ≡ done out
      → extend_rle xs (item ∷ iter) ≡ done out
  unfolding extend_rle
  extend_step xs item iter r out e f = rw (e, f) refl

  -- `extend_rle` of valid spans to valid spans does not panic, and gives valid spans whose items are
  -- those of the list and then those of the iterator.
  pub extend_rle_lem :
      (xs iter : List Elem)
      → All IsValid xs
      → All IsValid iter
      → (out : List Elem) × (extend_rle xs iter ≡ done out)
        × All IsValid out
        × (flatten sp out ≡ flatten sp xs ++ flatten sp iter)
  extend_rle_lem xs [] h k = (xs, unfold extend_rle in refl, h, sym (append-nil (flatten sp xs)))
  extend_rle_lem xs (item ∷ iter) h k =
      let (r, e, p) = push_rle_lem xs item h k.0 in
      let (out, f, valid, same) = extend_rle_lem r.0 iter p.valid k.1 in
      (
        out,
        extend_step xs item iter r out e f,
        valid,
        same
            ∙ (ap (λ l. l ++ flatten sp iter) p.same_items
                ∙ append_assoc (flatten sp xs) (items item) (flatten sp iter)),
      )
