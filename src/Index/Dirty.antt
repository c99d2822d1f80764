-- ===== src/Index/Dirty.antt =====
-- The flag `dirty` may be trusted: an operation that leaves it unset has changed nothing, so that a
-- save may be skipped.
use ghostsnap.Prelude.{
  ◌≡◌, refl, ap, ◌∙◌, Bool, true, false, List, [], ◌∷◌, arith, ltb, length, Map, contains,
  retain_keys, length-retain_keys, ◌-◌, Bool-cases, inl, inr, list_eq,
}
use ghostsnap.Types.{ChunkId}
use ghostsnap.Index.{
  Bloom, Index, add_chunk, add_pack, remove_chunk, remove_pack, merge, compact, is_dirty,
  rebuild_bloom,
}
use ghostsnap.Index.Refinement.{Op, compact_op, mark_clean_op, apply, run}

retain_keys_all {ℓ κ} :
    {K : Type ℓ} {V : Type κ} (p : K → Bool) (m : Map K V)
    → length (retain_keys p m) ≡ length m
    → retain_keys p m ≡ m
retain_keys_all p [] h = refl
retain_keys_all p ((k, v) ∷ m) h = elim (Bool-cases (p k)) [
  | inl e ↦ rw e (ap (λ t. (k, v) ∷ t) (retain_keys_all p m (ground arith)))
  | inr e ↦ absurd (ground (arith, length-retain_keys p m))
]

module _ {F : Type 0} ⦃b : Bloom F⦄ where
  abbrev pub is_save : Op F → Bool
  is_save mark_clean_op = true
  is_save _ = false

  abbrev pub NoSave : List (Op F) → Type 0
  NoSave [] = Unit
  NoSave (o ∷ os) = (is_save o ≡ false) × NoSave os

  -- The content that a save writes.
  pub record SameContent (i j : Index F) : Type 0 where
    pub chunks : i.chunks ≡ j.chunks
    pub packs : i.packs ≡ j.packs

  compact_clean :
      (used : List ChunkId) (i : Index F)
      → (compact used i).0.dirty ≡ false
      → (i.dirty ≡ false) × SameContent (compact used i).0 i
  unfolding compact rebuild_bloom
  compact_clean used i h =
      elim (Bool-cases
        (ltb 0 (length i.chunks - length (retain_keys (λ id. contains id used) i.chunks)))) [
          | inl e ↦ ground arith
          | inr e ↦
              let all =
                retain_keys_all (λ id. contains id used) i.chunks
                  (ground (arith, length-retain_keys (λ id. contains id used) i.chunks)) in
              (rw e at h, rw e (record { chunks = all; packs = refl }))
        ]

  apply_clean :
      (o : Op F)
      → is_save o ≡ false
      → (i : Index F) → (apply o i).dirty ≡ false
      → (i.dirty ≡ false) × SameContent (apply o i) i
  unfolding add_chunk add_pack remove_chunk remove_pack merge
  apply_clean (compact_op used) n i h = compact_clean used i h
  apply_clean _ n i h = ground arith

  -- If an index is clean after operations among which there is no save, it was clean before them
  -- and its content is what it was.
  pub run-clean :
      (os : List (Op F)) (i : Index F)
      → NoSave os
      → is_dirty (run os i) ≡ false
      → (is_dirty i ≡ false) × SameContent (run os i) i
  unfolding is_dirty
  run-clean [] i n h = (h, record { chunks = refl; packs = refl })
  run-clean (o ∷ os) i n h =
      let (h', rest) = run-clean os (apply o i) n.1 h in
      let (clean, one) = apply_clean o n.0 i h' in
      (clean, record { chunks = rest.chunks ∙ one.chunks; packs = rest.packs ∙ one.packs })
