-- ===== src/DiamondTypes/RleVec/KvPair.antt =====
-- `KVPair` of tools/diamond-types/src/rle/mod.rs: a span with a key is a span.
use egwalker_paper.Base.{
  ℕ, ◌+◌, ◌<◌, ◌≡◌, refl, ap, Bool, true, false, ◌++◌, ◌==◌, if◌then◌else◌, length, arith,
  Bool-cases, inl, inr,
}
use egwalker_paper.Base.Panic.{Outcome, done, ◌>>=◌}
use egwalker_paper.Rle.Spans.{Span}
use egwalker_paper.DiamondTypes.DtRange.{DtRange}

record KvPair (V : Type 0) : Type 0 where
  pub key : ℕ
  pub val : V

module _ (sp : Span) where
  kv_len : KvPair sp.Elem → Outcome ℕ
  kv_len e = sp.len e.val

  kv_range : KvPair sp.Elem → Outcome DtRange
  kv_range e = do n ← kv_len e; done (record { start = e.key; end = e.key + n })

  kv_truncate : ℕ → KvPair sp.Elem → Outcome (KvPair sp.Elem × KvPair sp.Elem)
  kv_truncate at e = do
    (self, remainder) ← sp.truncate at e.val
    done (record { key = e.key; val = self }, record { key = e.key + at; val = remainder })

  kv_truncate_keeping_right : ℕ → KvPair sp.Elem → Outcome (KvPair sp.Elem × KvPair sp.Elem)
  kv_truncate_keeping_right at e = do
    (self, trimmed) ← sp.truncate_keeping_right at e.val
    done (record { key = e.key + at; val = self }, record { key = e.key; val = trimmed })

  kv_can_append : KvPair sp.Elem → KvPair sp.Elem → Outcome Bool
  kv_can_append self other = do
    n ← kv_len self
    if other.key == self.key + n then sp.can_append self.val other.val else done false

  kv_append : KvPair sp.Elem → KvPair sp.Elem → KvPair sp.Elem
  kv_append self other = record { key = self.key; val = sp.append self.val other.val }

  kv_prepend : KvPair sp.Elem → KvPair sp.Elem → KvPair sp.Elem
  kv_prepend self other = record { key = other.key; val = sp.prepend self.val other.val }

  inner_can_append :
      (a b : KvPair sp.Elem)
      → sp.IsValid a.val
      → kv_can_append a b ≡ done true
      → sp.can_append a.val b.val ≡ done true
  unfolding kv_can_append kv_len
  inner_can_append a b v h = elim (Bool-cases (b.key == a.key + length (sp.items a.val))) [
    | inl t ↦ rw (sp.len_lem a.val v, t) at h
    | inr f ↦
        let no_end : ◌≡◌ {A = Outcome Bool} (done false) (done true) =
          rw (sp.len_lem a.val v, f) at h in
        absurd (ground (arith, no_end))
  ]

  kv_truncate_lem :
      (at : ℕ) (e : KvPair sp.Elem)
      → sp.IsValid e.val
      → 0 < at
      → at < length (sp.items e.val)
      → (l : KvPair sp.Elem) × (r : KvPair sp.Elem) × (kv_truncate at e ≡ done (l, r))
        × (kv_truncate_keeping_right at e ≡ done (r, l))
        × sp.IsValid l.val
        × sp.IsValid r.val
        × (sp.items e.val ≡ sp.items l.val ++ sp.items r.val)
        × (length (sp.items l.val) ≡ at)
  unfolding kv_truncate kv_truncate_keeping_right
  kv_truncate_lem at e v m n =
      let (l, r, h, k, vl, vr, split, cut) = sp.truncate_lem at e.val v m n in
      (
        record { key = e.key; val = l },
        record { key = e.key + at; val = r },
        rw h refl,
        rw k refl,
        vl,
        vr,
        split,
        cut,
      )

  kv_can_append_lem :
      (a b : KvPair sp.Elem)
      → sp.IsValid a.val
      → sp.IsValid b.val
      → (c : Bool) × (kv_can_append a b ≡ done c)
  unfolding kv_can_append kv_len
  kv_can_append_lem a b v w = elim (Bool-cases (b.key == a.key + length (sp.items a.val))) [
    | inl t ↦ let (c, h) = sp.can_append_lem a.val b.val v w in (c, rw (sp.len_lem a.val v, t) h)
    | inr f ↦ (false, rw (sp.len_lem a.val v, f) refl)
  ]

  kv_len_lem : (e : KvPair sp.Elem) → sp.IsValid e.val → kv_len e ≡ done (length (sp.items e.val))
  unfolding kv_len
  kv_len_lem e v = sp.len_lem e.val v

  kv_append_lem :
      (a b : KvPair sp.Elem)
      → sp.IsValid a.val
      → sp.IsValid b.val
      → kv_can_append a b ≡ done true
      → sp.IsValid (kv_append a b).val
        × (sp.items (kv_append a b).val ≡ sp.items a.val ++ sp.items b.val)
  unfolding kv_append
  kv_append_lem a b v w h = sp.append_lem a.val b.val v w (inner_can_append a b v h)

  kv_prepend_lem :
      (a b : KvPair sp.Elem)
      → sp.IsValid a.val
      → sp.IsValid b.val
      → kv_can_append a b ≡ done true
      → kv_prepend b a ≡ kv_append a b
  unfolding kv_append kv_prepend
  kv_prepend_lem a b v w h =
      ap (λ (x : sp.Elem). record { key = a.key; val = x })
        (sp.prepend_lem a.val b.val v w (inner_can_append a b v h))

  kv_span : Span
  kv_span = record {
    Elem = KvPair sp.Elem;
    items = λ e. sp.items e.val;
    IsValid = λ e. sp.IsValid e.val;
    len = kv_len;
    truncate = kv_truncate;
    truncate_keeping_right = kv_truncate_keeping_right;
    can_append = kv_can_append;
    append = kv_append;
    prepend = kv_prepend;
    len_lem = kv_len_lem;
    nonempty = λ e v. sp.nonempty e.val v;
    truncate_lem = kv_truncate_lem;
    can_append_lem = kv_can_append_lem;
    append_lem = kv_append_lem;
    prepend_lem = kv_prepend_lem;
  }
