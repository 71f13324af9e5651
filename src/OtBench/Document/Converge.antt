-- ===== src/OtBench/Document/Converge.antt =====
-- Two users' concurrent operations lead to the same document: `transform2` of
-- tools/ot-bench/src/ot_text.rs, run by `apply` of tools/ot-bench/src/main.rs.
use egwalker_paper.Base.{◌≡◌, sym, ◌∙◌, Bool, true, false, not, List, ℕ}
use egwalker_paper.Base.Panic.{done}
use egwalker_paper.OtBench.TextOp.{TextOp}
use egwalker_paper.OtBench.TextOp.Strings.{StrIndices}
use egwalker_paper.OtBench.TextOp.Edits.{Edit, apply_edits, Fits, xf, xf_commutes, xf-Fits}
use egwalker_paper.OtBench.TextOp.Expand.{expand}
use egwalker_paper.OtBench.TextOp.Iterate.{transform2}
use egwalker_paper.OtBench.TextOp.Iterate.Chunks.{IsSpaced}
use egwalker_paper.OtBench.TextOp.Iterate.Transform.{transform1_lem}
use egwalker_paper.OtBench.Document.{Rope, apply}
use egwalker_paper.OtBench.Document.Apply.{chars-apply}

xf_diamond :
    (l : Bool) (us os : List Edit) (doc : List ℕ)
    → Fits us doc
    → Fits os doc
    → apply_edits (xf (not l) os us) (apply_edits us doc)
      ≡ apply_edits (xf l us os) (apply_edits os doc)
xf_diamond true us os doc f g = xf_commutes us os doc f g
xf_diamond false us os doc f g = sym (xf_commutes os us doc g f)

module _ ⦃ix : StrIndices⦄ (rope : Rope) where
  open rope use {Text, chars}

  -- The text after `first`, and then after a transform of `second` past it.
  chars_after :
      (l : Bool) (first second r : TextOp) (doc : Text)
      → Fits (expand first) (chars doc)
      → Fits (expand second) (chars doc)
      → ((text : List ℕ)
          → apply_edits (expand r) text ≡ apply_edits (xf l (expand second) (expand first)) text)
      → ((text : List ℕ) → Fits (xf l (expand second) (expand first)) text → Fits (expand r) text)
      → chars (apply rope r (apply rope first doc))
        ≡ apply_edits (xf l (expand second) (expand first)) (apply_edits (expand first) (chars doc))
  chars_after l first second r doc f g h k =
      let text : List ℕ = apply_edits (expand first) (chars doc) in
      let e : chars (apply rope first doc) ≡ text = chars-apply rope first doc f in
      let fits : Fits (expand r) text =
        k text (xf-Fits l (expand second) (expand first) (chars doc) g f) in
      chars-apply rope r (apply rope first doc) (rw e fits) ∙ rw e (h text)

  -- For two operations in normal form (IsSpaced: no component is empty or as long as `usize::MAX`, and no
  -- two insertions stand next to each other) that fit a document, `transform2` returns transformed
  -- operations `a'` and `b'`, and running `a` and then `b'` gives the text that running `b` and
  -- then `a'` gives, whichever of the two inserts first. Sums of lengths are taken to fit `usize`.
  pub transform2_converges :
      (a b : TextOp) (is_left : Bool) (doc : Text)
      → IsSpaced a
      → IsSpaced b
      → Fits (expand a) (chars doc)
      → Fits (expand b) (chars doc)
      → (a' : TextOp) × (b' : TextOp) × (transform2 a b is_left ≡ done (a', b'))
        × (chars (apply rope b' (apply rope a doc)) ≡ chars (apply rope a' (apply rope b doc)))
  transform2_converges a b l doc sa sb f g =
      let (a', da, ha, ka) = transform1_lem a b l sa in
      let (b', db, hb, kb) = transform1_lem b a (not l) sb in
      (
        a',
        b',
        unfold transform2 in rw (da, db),
        chars_after (not l) a b b' doc f g hb kb
            ∙ xf_diamond l (expand a) (expand b) (chars doc) f g
            ∙ sym (chars_after l b a a' doc g f ha ka),
      )
