-- ===== src/OtBench/TextOp.antt =====
-- The text operations of tools/ot-bench/src/ot_text.rs: a list of components that walks over a
-- document. A `SmartString` is the list of its characters (code points), as Rust's `str` is;
-- slices of a `str` go by bytes of its UTF-8 form. `str_indices::chars` is a parameter.
pub mod Strings
pub mod Iterate
pub mod Edits
pub mod Expand
use egwalker_paper.Base.{
  ℕ, ◌+◌, ◌-◌, ◌^◌, Bool, true, false, List, [], ◌∷◌, ◌++◌, ltb, leb, ◌==◌, if◌then◌else◌,
}
use egwalker_paper.Base.Panic.{Outcome, done, panic, ◌>>=◌}
use Strings.{StrIndices, slice_from, slice_to}

pub data OpComponent : Type 0 where
  skip : ℕ → OpComponent
  del : ℕ → OpComponent
  ins : List ℕ → OpComponent

abbrev pub TextOp : Type 0
TextOp = List OpComponent

pub data Context : Type 0 where
  pre post : Context

module _ ⦃ix : StrIndices⦄ where
  unfoldable pub count : OpComponent → ℕ
  count (skip n) = n
  count (del n) = n
  count (ins s) = ix.count s

  unfoldable pub is_noop : OpComponent → Bool
  unfolding count
  is_noop c = count c == 0

  unfoldable pub slice : ℕ → ℕ → OpComponent → Outcome OpComponent
  slice offset len (skip n) = done (skip len)
  slice offset len (del n) = done (del len)
  slice offset len (ins s) = do
    r ← slice_from (ix.to_byte_idx s offset) s
    t ← slice_to (ix.to_byte_idx r len) r
    done (ins t)

  -- The `match (self.0.last_mut(), c)` of `append` and `append_move`, on the last component.
  unfoldable pub merge_component : OpComponent → OpComponent → TextOp
  merge_component (skip a) (skip b) = skip (a + b) ∷ []
  merge_component (del a) (del b) = del (a + b) ∷ []
  merge_component (ins a) (ins b) = ins (a ++ b) ∷ []
  merge_component x c = x ∷ c ∷ []

  unfoldable pub push_component : OpComponent → TextOp → TextOp
  push_component c [] = c ∷ []
  push_component c (x ∷ []) = merge_component x c
  push_component c (x ∷ y ∷ rest) = x ∷ push_component c (y ∷ rest)

  -- `append` and `append_move`, which differ in ownership only. The merged lengths are unbounded: the
  -- overflow of a sum of `usize` is left out.
  unfoldable pub append_move : OpComponent → TextOp → TextOp
  append_move c op = if is_noop c then op else push_component c op

  pub from_iter_loop : List OpComponent → TextOp → TextOp
  from_iter_loop [] op = op
  from_iter_loop (c ∷ cs) op = from_iter_loop cs (append_move c op)

  pub from_iter : List OpComponent → TextOp
  from_iter cs = from_iter_loop cs []

  -- `while let Some(Skip(_)) = self.0.last() { self.0.pop(); }`: from the back, so a component
  -- goes if it is a skip and all behind it went.
  unfoldable pub trim_component : OpComponent → TextOp → TextOp
  trim_component (skip n) [] = []
  trim_component c rest = c ∷ rest

  unfoldable pub trim : TextOp → TextOp
  trim [] = []
  trim (c ∷ cs) = trim_component c (trim cs)

  unfoldable pub pre_len : OpComponent → ℕ
  pre_len (skip n) = n
  pre_len (del n) = n
  pre_len (ins s) = 0

  unfoldable pub post_len : OpComponent → ℕ
  post_len (skip n) = n
  post_len (del n) = 0
  post_len (ins s) = ix.count s

  unfoldable pub ctx_len : Context → OpComponent → ℕ
  unfolding pre_len post_len
  ctx_len pre c = pre_len c
  ctx_len post c = post_len c
