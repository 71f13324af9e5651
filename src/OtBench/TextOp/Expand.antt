-- ===== src/OtBench/TextOp/Expand.antt =====
-- The edits that the components of tools/ot-bench/src/ot_text.rs stand for, and how `append_move`
-- and `trim` change them.
use egwalker_paper.Base.{
  ℕ, zero, suc, ◌≡◌, refl, ap, sym, ◌∙◌, inl, inr, true, List, [], ◌∷◌, ◌++◌, arith, append-nil,
  append_assoc, Bool-cases, replicate, replicate-add,
}
use egwalker_paper.OtBench.TextOp.{
  OpComponent, skip, del, ins, TextOp, is_noop, append_move, push_component, merge_component, trim,
  trim_component,
}
use egwalker_paper.OtBench.TextOp.Strings.{StrIndices}
use egwalker_paper.OtBench.TextOp.Edits.Bulk.{puts}
use egwalker_paper.OtBench.TextOp.Edits.{Edit, keep, cut, put, apply_edits, Fits}

abbrev pub expand_component : OpComponent → List Edit
expand_component (skip n) = replicate n keep
expand_component (del n) = replicate n cut
expand_component (ins s) = puts s

abbrev pub expand : TextOp → List Edit
expand [] = []
expand (c ∷ cs) = expand_component c ++ expand cs

pub puts-append : (s t : List ℕ) → puts (s ++ t) ≡ puts s ++ puts t
puts-append [] t = refl
puts-append (c ∷ s) t = ap (λ (l : List Edit). put c ∷ l) (puts-append s t)

module _ ⦃ix : StrIndices⦄ where
  expand-noop : (c : OpComponent) → is_noop c ≡ true → expand_component c ≡ []
  unfolding is_noop
  expand-noop (skip zero) h = refl
  expand-noop (skip (suc n)) h = absurd (ground arith)
  expand-noop (del zero) h = refl
  expand-noop (del (suc n)) h = absurd (ground arith)
  expand-noop (ins []) h = refl
  expand-noop (ins (x ∷ s)) h = absurd (ground (arith, ix.count_lem (x ∷ s)))

  expand-merge :
      (x c : OpComponent) → expand (merge_component x c) ≡ expand_component x ++ expand_component c
  unfolding merge_component
  expand-merge (skip a) (skip b) = rw (append-nil, replicate-add)
  expand-merge (del a) (del b) = rw (append-nil, replicate-add)
  expand-merge (ins a) (ins b) = rw (append-nil, puts-append)
  expand-merge (skip a) (del b) = rw append-nil
  expand-merge (skip a) (ins b) = rw append-nil
  expand-merge (del a) (skip b) = rw append-nil
  expand-merge (del a) (ins b) = rw append-nil
  expand-merge (ins a) (skip b) = rw append-nil
  expand-merge (ins a) (del b) = rw append-nil

  expand-push :
      (c : OpComponent) (op : TextOp)
      → expand (push_component c op) ≡ expand op ++ expand_component c
  unfolding push_component
  expand-push c [] = rw append-nil
  expand-push c (x ∷ []) = rw append-nil (expand-merge x c)
  expand-push c (x ∷ y ∷ rest) =
      rw (expand-push c (y ∷ rest))
        (sym (append_assoc (expand_component x) (expand (y ∷ rest)) (expand_component c)))

  -- `append_move` adds the component's edits at the end.
  pub expand-append_move :
      (c : OpComponent) (op : TextOp) → expand (append_move c op) ≡ expand op ++ expand_component c
  unfolding append_move
  expand-append_move c op = elim (Bool-cases (is_noop c)) [
    | inl e ↦ rw (e, expand-noop c e) (sym (append-nil (expand op)))
    | inr e ↦ rw e (expand-push c op)
  ]

  apply_edits_cong :
      (es xs ys : List Edit)
      → ((doc : List ℕ) → apply_edits xs doc ≡ apply_edits ys doc)
      → (doc : List ℕ) → apply_edits (es ++ xs) doc ≡ apply_edits (es ++ ys) doc
  unfolding apply_edits
  apply_edits_cong [] xs ys h doc = h doc
  apply_edits_cong (put c ∷ es) xs ys h doc =
      ap (λ (l : List ℕ). c ∷ l) (apply_edits_cong es xs ys h doc)
  apply_edits_cong (keep ∷ es) xs ys h [] = apply_edits_cong es xs ys h []
  apply_edits_cong (keep ∷ es) xs ys h (c ∷ doc) =
      ap (λ (l : List ℕ). c ∷ l) (apply_edits_cong es xs ys h doc)
  apply_edits_cong (cut ∷ es) xs ys h [] = apply_edits_cong es xs ys h []
  apply_edits_cong (cut ∷ es) xs ys h (c ∷ doc) = apply_edits_cong es xs ys h doc

  apply-keeps : (n : ℕ) (doc : List ℕ) → apply_edits (replicate n keep ++ []) doc ≡ doc
  unfolding apply_edits
  apply-keeps zero doc = refl
  apply-keeps (suc n) [] = apply-keeps n []
  apply-keeps (suc n) (c ∷ doc) = ap (λ (l : List ℕ). c ∷ l) (apply-keeps n doc)

  trim_component_lem :
      (c : OpComponent) (rest : TextOp) (doc : List ℕ)
      → apply_edits (expand (trim_component c rest)) doc ≡ apply_edits (expand (c ∷ rest)) doc
  unfolding trim_component apply_edits
  trim_component_lem (skip n) [] doc = sym (apply-keeps n doc)
  trim_component_lem (skip n) (x ∷ rest) doc = refl
  trim_component_lem (del n) rest doc = refl
  trim_component_lem (ins s) rest doc = refl

  -- `trim` does not change what the operation does to any document.
  pub apply-trim :
      (op : TextOp) (doc : List ℕ)
      → apply_edits (expand (trim op)) doc ≡ apply_edits (expand op) doc
  unfolding trim
  apply-trim [] doc = refl
  apply-trim (c ∷ op) doc =
      trim_component_lem c (trim op) doc
      ∙ apply_edits_cong (expand_component c) (expand (trim op)) (expand op) (apply-trim op) doc

  Fits-cong :
      (es xs ys : List Edit)
      → ((doc : List ℕ) → Fits xs doc → Fits ys doc)
      → (doc : List ℕ) → Fits (es ++ xs) doc
      → Fits (es ++ ys) doc
  Fits-cong [] xs ys h doc f = h doc f
  Fits-cong (put c ∷ es) xs ys h doc f = Fits-cong es xs ys h doc f
  Fits-cong (keep ∷ es) xs ys h [] f = f
  Fits-cong (keep ∷ es) xs ys h (c ∷ doc) f = Fits-cong es xs ys h doc f
  Fits-cong (cut ∷ es) xs ys h [] f = f
  Fits-cong (cut ∷ es) xs ys h (c ∷ doc) f = Fits-cong es xs ys h doc f

  trim_component-Fits :
      (c : OpComponent) (rest : TextOp) (doc : List ℕ)
      → Fits (expand (c ∷ rest)) doc
      → Fits (expand (trim_component c rest)) doc
  unfolding trim_component
  trim_component-Fits (skip n) [] doc f = tt
  trim_component-Fits (skip n) (x ∷ rest) doc f = f
  trim_component-Fits (del n) rest doc f = f
  trim_component-Fits (ins s) rest doc f = f

  pub trim-Fits : (op : TextOp) (doc : List ℕ) → Fits (expand op) doc → Fits (expand (trim op)) doc
  unfolding trim
  trim-Fits [] doc f = tt
  trim-Fits (c ∷ op) doc f =
      trim_component-Fits c (trim op) doc
        (Fits-cong (expand_component c) (expand op) (expand (trim op)) (trim-Fits op) doc f)
