-- ===== src/OtBench/Document/Apply.antt =====
-- `apply` of tools/ot-bench/src/main.rs does to the text of a rope what the edits do.
use egwalker_paper.Base.{
  ℕ, zero, suc, ◌+◌, ◌≤◌, ◌≡◌, refl, ap, ◌∙◌, List, [], ◌∷◌, ◌++◌, arith, length, length-append,
  length-take, take-append-drop, take, drop, replicate, append_assoc,
}
use egwalker_paper.OtBench.TextOp.{OpComponent, skip, del, ins, TextOp}
use egwalker_paper.OtBench.TextOp.Strings.{StrIndices}
use egwalker_paper.OtBench.TextOp.Edits.{Edit, keep, cut, apply_edits, Fits}
use egwalker_paper.OtBench.TextOp.Edits.Bulk.{puts}
use egwalker_paper.OtBench.TextOp.Expand.{expand}
use egwalker_paper.OtBench.Document.{Rope, apply_loop, apply}

module _ {ℓ} {A : Type ℓ} where
  take-append_left : (xs ys : List A) → take (length xs) (xs ++ ys) ≡ xs
  take-append_left [] ys = refl
  take-append_left (x ∷ xs) ys = ap (λ (l : List A). x ∷ l) (take-append_left xs ys)

  drop-append_left : (xs ys : List A) (n : ℕ) → drop (length xs + n) (xs ++ ys) ≡ drop n ys
  drop-append_left [] ys n = let e : 0 + n ≡ n = omega arith in rw e
  drop-append_left (x ∷ xs) ys n =
      let e : suc (length xs) + n ≡ suc (length xs + n) = omega arith in
      rw e (drop-append_left xs ys n)

-- A run of kept or deleted characters needs that many, and takes them.
Fits-run_keep :
    (n : ℕ) (es : List Edit) (doc : List ℕ)
    → Fits (replicate n keep ++ es) doc
    → (n ≤ length doc) × Fits es (drop n doc)
Fits-run_keep zero es doc f = (omega arith, f)
Fits-run_keep (suc n) es [] f = absurd f
Fits-run_keep (suc n) es (c ∷ doc) f = let (h, g) = Fits-run_keep n es doc f in (omega arith, g)

Fits-run_cut :
    (n : ℕ) (es : List Edit) (doc : List ℕ)
    → Fits (replicate n cut ++ es) doc
    → (n ≤ length doc) × Fits es (drop n doc)
Fits-run_cut zero es doc f = (omega arith, f)
Fits-run_cut (suc n) es [] f = absurd f
Fits-run_cut (suc n) es (c ∷ doc) f = let (h, g) = Fits-run_cut n es doc f in (omega arith, g)

Fits-puts : (s : List ℕ) (es : List Edit) (doc : List ℕ) → Fits (puts s ++ es) doc → Fits es doc
Fits-puts [] es doc f = f
Fits-puts (c ∷ s) es doc f = Fits-puts s es doc f

pub apply_run_keep :
    (n : ℕ) (es : List Edit) (doc : List ℕ)
    → n ≤ length doc
    → apply_edits (replicate n keep ++ es) doc ≡ take n doc ++ apply_edits es (drop n doc)
unfolding apply_edits
apply_run_keep zero es doc h = refl
apply_run_keep (suc n) es [] h = absurd (omega arith)
apply_run_keep (suc n) es (c ∷ doc) h =
    ap (λ (l : List ℕ). c ∷ l) (apply_run_keep n es doc (omega arith))

pub apply_run_cut :
    (n : ℕ) (es : List Edit) (doc : List ℕ)
    → n ≤ length doc
    → apply_edits (replicate n cut ++ es) doc ≡ apply_edits es (drop n doc)
unfolding apply_edits
apply_run_cut zero es doc h = refl
apply_run_cut (suc n) es [] h = absurd (omega arith)
apply_run_cut (suc n) es (c ∷ doc) h = apply_run_cut n es doc (omega arith)

pub apply_puts :
    (s : List ℕ) (es : List Edit) (doc : List ℕ)
    → apply_edits (puts s ++ es) doc ≡ s ++ apply_edits es doc
unfolding apply_edits
apply_puts [] es doc = refl
apply_puts (c ∷ s) es doc = ap (λ (l : List ℕ). c ∷ l) (apply_puts s es doc)

module _ ⦃ix : StrIndices⦄ (rope : Rope) where
  open rope use {Text, chars, remove, insert, chars-remove, chars-insert}

  removed :
      (n : ℕ) (doc : Text) (front todo : List ℕ)
      → chars doc ≡ front ++ todo
      → n ≤ length todo
      → chars (remove (length front) (length front + n) doc) ≡ front ++ drop n todo
  removed n doc front todo e h =
      chars-remove (length front) (length front + n) doc (omega arith)
        (rw e (omega (arith, length-append front todo)))
      ∙ rw (e, take-append_left front todo, drop-append_left front todo n)

  inserted :
      (s : List ℕ) (doc : Text) (front todo : List ℕ)
      → chars doc ≡ front ++ todo
      → chars (insert (length front) s doc) ≡ (front ++ s) ++ todo
  inserted s doc front todo e =
      let z : length front + 0 ≡ length front = omega arith in
      chars-insert (length front) s doc (rw e (omega (arith, length-append front todo)))
      ∙ rw (
        e,
        take-append_left front todo,
        rw z at (drop-append_left front todo 0),
        append_assoc front s todo,
      )

  -- `front` is the text before `pos`, and `todo` the text from it on.
  loop_lem :
      (cs : List OpComponent) (pos : ℕ) (doc : Text) (front todo : List ℕ)
      → length front ≡ pos
      → chars doc ≡ front ++ todo
      → Fits (expand cs) todo
      → chars (apply_loop rope cs pos doc) ≡ front ++ apply_edits (expand cs) todo
  unfolding apply_loop
  loop_lem [] pos doc front todo p e f = unfold apply_edits in e
  loop_lem (skip n ∷ cs) pos doc front todo p e f =
      let (h, g) = Fits-run_keep n (expand cs) todo f in
      loop_lem cs (pos + n) doc (front ++ take n todo) (drop n todo)
        (omega (arith, length-append front (take n todo), length-take n todo))
        (e ∙ rw (append_assoc front (take n todo) (drop n todo), take-append-drop n todo)) g
      ∙ rw (
        append_assoc front (take n todo) (apply_edits (expand cs) (drop n todo)),
        apply_run_keep n (expand cs) todo h,
      )
  loop_lem (del n ∷ cs) pos doc front todo p e f =
      let (h, g) = Fits-run_cut n (expand cs) todo f in
      loop_lem cs pos (remove pos (pos + n) doc) front (drop n todo) p
        (rw (← p) (removed n doc front todo e h)) g
      ∙ rw (apply_run_cut n (expand cs) todo h)
  loop_lem (ins s ∷ cs) pos doc front todo p e f =
      loop_lem cs (pos + ix.count s) (insert pos s doc) (front ++ s) todo
        (omega (arith, length-append front s, ix.count_lem s))
        (rw (← p) (inserted s doc front todo e)) (Fits-puts s (expand cs) todo f)
      ∙ rw (append_assoc front s (apply_edits (expand cs) todo), apply_puts s (expand cs) todo)

  -- On a document with every character that the operation keeps or deletes, `apply` does to the
  -- text what the edits of the operation do.
  pub chars-apply :
      (op : TextOp) (doc : Text)
      → Fits (expand op) (chars doc)
      → chars (apply rope op doc) ≡ apply_edits (expand op) (chars doc)
  unfolding apply
  chars-apply op doc f = loop_lem op 0 doc [] (chars doc) refl refl f
