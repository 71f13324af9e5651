-- ===== src/OtBench/TextOp/Iterate.antt =====
-- `TextOpIterator`, `transform1`, `transform2`, `transform_list` and `compose` of
-- tools/ot-bench/src/ot_text.rs. The iterator's `op` and `idx` are the components from `idx` on.
-- Each `while len > 0` loop takes fuel: a round makes `len` or the list of components shorter.
pub mod Chunks
pub mod Loop
pub mod Component
pub mod Remainder
pub mod Transform
use egwalker_paper.Base.{
  ℕ, zero, suc, ◌+◌, ◌-◌, ◌^◌, Bool, true, false, not, List, [], ◌∷◌, ltb, leb, ◌==◌, if◌then◌else◌,
  length,
}
use egwalker_paper.Base.Panic.{Outcome, done, panic, stuck, checked_sub, ◌>>=◌}
use egwalker_paper.OtBench.TextOp.{
  OpComponent, skip, del, ins, TextOp, Context, pre, post, slice, append_move, trim, pre_len,
  post_len, ctx_len,
}
use egwalker_paper.OtBench.TextOp.Strings.{StrIndices}

abbrev pub usize_max : ℕ
usize_max = 2 ^ 64 - 1

pub record TextOpIterator : Type 0 where
  pub rest : List OpComponent
  pub ctx : Context
  pub offset : ℕ

unfoldable pub iter : Context → TextOp → TextOpIterator
iter ctx op = record { rest = op; ctx = ctx; offset = 0 }

module _ ⦃ix : StrIndices⦄ where
  -- `assert_eq!(self.offset, 0)` panics where it fails.
  unfoldable pub next_from :
      ℕ → Context → List OpComponent → ℕ → Outcome (OpComponent × TextOpIterator)
  unfolding checked_sub
  next_from max_size ctx [] offset =
      done (skip max_size, record { rest = []; ctx = ctx; offset = offset })
  next_from max_size ctx (c ∷ cs) offset =
      let clen = ctx_len ctx c in
      if clen == 0
      then (if offset == 0 then done (c, record { rest = cs; ctx = ctx; offset = 0 }) else panic)
      else (do
        left ← checked_sub clen offset
        if leb left max_size
            then (do
              result ← slice offset left c
              done (result, record { rest = cs; ctx = ctx; offset = 0 }))
            else (do
              result ← slice offset max_size c
              done (result, record { rest = c ∷ cs; ctx = ctx; offset = offset + max_size })))

  unfoldable pub next : ℕ → TextOpIterator → Outcome (OpComponent × TextOpIterator)
  next max_size it = next_from max_size it.ctx it.rest it.offset

  unfoldable pub is_end : ℕ → OpComponent → Bool
  is_end max_size (skip n) = n == max_size
  is_end max_size _ = false

  unfoldable pub append_remainder : ℕ → TextOpIterator → TextOp → Outcome TextOp
  append_remainder zero it result = stuck
  append_remainder (suc fuel) it result = do
    (chunk, it') ← next usize_max it
    elim (is_end usize_max chunk) [
      | true ↦ done result
      | false ↦ append_remainder fuel it' (append_move chunk result)
    ]

  -- The loops of `transform1` for a `Skip` and for a `Del` of the other operation. They differ in
  -- what they keep of a chunk.
  unfoldable pub keep_chunk : OpComponent → TextOp → TextOp
  keep_chunk chunk result = append_move chunk result

  unfoldable pub keep_insert : OpComponent → TextOp → TextOp
  keep_insert (ins s) result = append_move (ins s) result
  keep_insert _ result = result

  unfoldable pub pre_loop :
      (OpComponent → TextOp → TextOp)
      → ℕ
      → ℕ
      → TextOpIterator
      → TextOp
      → Outcome (TextOpIterator × TextOp)
  pre_loop body zero len it result = stuck
  pre_loop body (suc fuel) len it result = elim (ltb 0 len) [
    | false ↦ done (it, result)
    | true ↦ do
      (chunk, it') ← next len it
      len' ← checked_sub len (pre_len chunk)
      pre_loop body fuel len' it' (body chunk result)
  ]

  abbrev pub loop_fuel : ℕ → TextOpIterator → ℕ
  loop_fuel len it = suc (len + length it.rest)

  unfoldable pub transform_component :
      Bool → OpComponent → TextOpIterator → TextOp → Outcome (TextOpIterator × TextOp)
  transform_component is_left (skip len) it result =
      pre_loop keep_chunk (loop_fuel len it) len it result
  transform_component is_left (del len) it result =
      pre_loop keep_insert (loop_fuel len it) len it result
  transform_component true (ins s) it result = do
    (chunk, it') ← next 0 it
    done (it', append_move (skip (post_len (ins s))) (append_move chunk result))
  transform_component false (ins s) it result =
      done (it, append_move (skip (post_len (ins s))) result)

  unfoldable pub transform_loop :
      Bool → List OpComponent → TextOpIterator → TextOp → Outcome (TextOpIterator × TextOp)
  transform_loop is_left [] it result = done (it, result)
  transform_loop is_left (c ∷ cs) it result = do
    (it', result') ← transform_component is_left c it result
    transform_loop is_left cs it' result'

  unfoldable pub transform1 : TextOp → TextOp → Bool → Outcome TextOp
  transform1 op other is_left = do
    (it, result) ← transform_loop is_left other (iter pre op) []
    full ← append_remainder (suc (length it.rest)) it result
    done (trim full)

  unfoldable pub transform2 : TextOp → TextOp → Bool → Outcome (TextOp × TextOp)
  transform2 a b is_left = do
    a' ← transform1 a b is_left
    b' ← transform1 b a (not is_left)
    done (a', b')

  -- The inner loop of `transform_list`: `o2` passes over all of `ops`.
  unfoldable pub transform_over : List TextOp → TextOp → Bool → Outcome (List TextOp × TextOp)
  transform_over [] o2 is_left = done ([], o2)
  transform_over (op ∷ ops) o2 is_left = do
    (a, b) ← transform2 op o2 is_left
    (rest, o2') ← transform_over ops b is_left
    done (a ∷ rest, o2')

  unfoldable pub transform_list : List TextOp → List TextOp → Bool → Outcome (List TextOp)
  transform_list ops [] is_left = done ops
  transform_list ops (o2 ∷ others) is_left = do
    (ops', last) ← transform_over ops o2 is_left
    transform_list ops' others is_left

  -- `compose`: the loops take `len` characters of the text after `a`.
  pub keep_delete : OpComponent → TextOp → TextOp
  keep_delete (skip n) result = append_move (del n) result
  keep_delete (del n) result = append_move (del n) result
  keep_delete (ins s) result = result

  pub post_loop :
      (OpComponent → TextOp → TextOp)
      → ℕ
      → ℕ
      → TextOpIterator
      → TextOp
      → Outcome (TextOpIterator × TextOp)
  post_loop body zero len it result = stuck
  post_loop body (suc fuel) len it result = elim (ltb 0 len) [
    | false ↦ done (it, result)
    | true ↦ do
      (chunk, it') ← next len it
      len' ← checked_sub len (post_len chunk)
      post_loop body fuel len' it' (body chunk result)
  ]

  pub compose_component : OpComponent → TextOpIterator → TextOp → Outcome (TextOpIterator × TextOp)
  compose_component (skip len) it result = post_loop keep_chunk (loop_fuel len it) len it result
  compose_component (del len) it result = post_loop keep_delete (loop_fuel len it) len it result
  compose_component (ins s) it result = done (it, append_move (ins s) result)

  pub compose_loop : List OpComponent → TextOpIterator → TextOp → Outcome (TextOpIterator × TextOp)
  compose_loop [] it result = done (it, result)
  compose_loop (c ∷ cs) it result = do
    (it', result') ← compose_component c it result
    compose_loop cs it' result'

  pub compose : TextOp → TextOp → Outcome TextOp
  compose a b = do
    (it, result) ← compose_loop b (iter post a) []
    full ← append_remainder (suc (length it.rest)) it result
    done (trim full)
