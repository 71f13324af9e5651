-- ===== src/OtBench/Document.antt =====
-- Of tools/ot-bench/src/main.rs: patches, their text operations, and `apply`, which runs an
-- operation on a `JumpRopeBuf`. The rope is a parameter, with what the crate documents of positions
-- inside the text.
pub mod Apply
pub mod Converge
use egwalker_paper.Base.{
  ℕ, zero, suc, ◌+◌, ◌≤◌, ◌≡◌, Bool, true, false, List, [], ◌∷◌, ◌++◌, ltb, if◌then◌else◌, length,
  take, drop,
}
use egwalker_paper.Base.Panic.{Outcome, done, panic, ◌>>=◌}
use egwalker_paper.OtBench.TextOp.{OpComponent, skip, del, ins, TextOp}
use egwalker_paper.OtBench.TextOp.Strings.{StrIndices}
use egwalker_paper.OtBench.TextOp.Iterate.{compose}

pub record Rope : Type 1 where
  pub Text : Type 0
  pub chars : Text → List ℕ
  pub new : Text
  pub remove : ℕ → ℕ → Text → Text
  pub insert : ℕ → List ℕ → Text → Text
  pub chars-new : chars new ≡ []
  pub chars-remove :
      (start end : ℕ) (doc : Text)
      → start ≤ end
      → end ≤ length (chars doc)
      → chars (remove start end doc) ≡ take start (chars doc) ++ drop end (chars doc)
  pub chars-insert :
      (pos : ℕ) (s : List ℕ) (doc : Text)
      → pos ≤ length (chars doc)
      → chars (insert pos s doc) ≡ take pos (chars doc) ++ (s ++ drop pos (chars doc))

-- `SimpleTextOp(pos, del_len, ins_content)`
pub record SimpleTextOp : Type 0 where
  pub pos : ℕ
  pub del_len : ℕ
  pub ins_content : List ℕ

-- `debug_assert!(!value.2.is_empty())`
unfoldable pub assert_text : List ℕ → Outcome (Unit {0})
assert_text [] = panic
assert_text (c ∷ cs) = done tt

-- `From<SimpleTextOp> for TextOp`
unfoldable pub text_op_of : SimpleTextOp → Outcome TextOp
text_op_of value =
    let result = if ltb 0 value.pos then skip value.pos ∷ [] else [] in
    if ltb 0 value.del_len
    then done (result ++ (del value.del_len ∷ []))
    else (do u ← assert_text value.ins_content; done (result ++ (ins value.ins_content ∷ [])))

module _ ⦃ix : StrIndices⦄ where
  pub patches_loop : List SimpleTextOp → TextOp → Outcome TextOp
  patches_loop [] result = done result
  patches_loop (patch ∷ patches) result = do
    op ← text_op_of patch
    result' ← compose result op
    patches_loop patches result'

  pub patches_to_text_op : List SimpleTextOp → Outcome TextOp
  patches_to_text_op patches = patches_loop patches []

module _ ⦃ix : StrIndices⦄ (rope : Rope) where
  open rope use {Text, remove, insert}

  unfoldable pub apply_loop : List OpComponent → ℕ → Text → Text
  apply_loop [] pos doc = doc
  apply_loop (skip n ∷ cs) pos doc = apply_loop cs (pos + n) doc
  apply_loop (del len ∷ cs) pos doc = apply_loop cs pos (remove pos (pos + len) doc)
  apply_loop (ins s ∷ cs) pos doc = apply_loop cs (pos + ix.count s) (insert pos s doc)

  unfoldable pub apply : TextOp → Text → Text
  apply op doc = apply_loop op 0 doc

  unfoldable pub apply_all : List TextOp → Text → Text
  apply_all [] doc = doc
  apply_all (op ∷ ops) doc = apply_all ops (apply op doc)
