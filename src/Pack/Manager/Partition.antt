-- ===== src/Pack/Manager/Partition.antt =====
-- What the pack manager hands out: the chunks in their order, cut into packs that are full.
use mathlib.Core.List.{flatten, append_assoc}
use mathlib.Core.Path.{subst₂}
use ghostsnap.Prelude.{
  ℕ, ◌+◌, ◌%◌, ◌^◌, ◌≤◌, ◌≡◌, ◌≢◌, ◌⊎◌, refl, ap, Option, none, some, List, [], ◌∷◌, ◌++◌,
  Bool-cases, inl, inr, leb→le,
}
use ghostsnap.Errors.{ok, >>=-eq-ok}
use ghostsnap.Foreign.{Bytes, Zlib}
use ghostsnap.Types.{ChunkId, PackId}
use ghostsnap.Pack
use ghostsnap.Pack.{PackFile, is_full, size}
use ghostsnap.Pack.Contents.{add_all}
use ghostsnap.Pack.Manager.{
  PackManager, new, needs_new, start_new_pack, add_to_current, add_chunk, add_chunks, prepend,
}

module _ (zlib : Zlib) (stamp : ℕ → PackId × ℕ) where
  -- A pack that is made of exactly these chunks, in this order, and of at least one.
  pub record Built (group : List (ChunkId × Bytes)) (p : PackFile) : Type 0 where
    pub counter : ℕ
    pub made : add_all zlib group (Pack.new (stamp counter).0 (stamp counter).1) ≡ ok p
    pub some_chunk : group ≢ []

  abbrev pub AllBuilt : List (List (ChunkId × Bytes)) → List PackFile → Type 0
  AllBuilt [] [] = Unit
  AllBuilt [] (p ∷ packs) = ⊥
  AllBuilt (group ∷ groups) [] = ⊥
  AllBuilt (group ∷ groups) (p ∷ packs) = Built group p × AllBuilt groups packs

  abbrev pub AllFull : ℕ → List PackFile → Type 0
  AllFull max_pack_size [] = Unit
  AllFull max_pack_size (p ∷ packs) = (max_pack_size ≤ size p) × AllFull max_pack_size packs

  -- The chunks are cut into groups, one for each pack; all packs but the current one are full.
  pub record Partition (items : List (ChunkId × Bytes)) (packs : List PackFile) (last : PackManager)
      (max_size : ℕ) : Type 0 where
    pub groups : List (List (ChunkId × Bytes))
    pub whole : flatten groups ≡ items
    pub built : AllBuilt groups (packs ++ prepend last.current_pack [])
    pub full : AllFull max_size packs

  add_all-append :
      (group : List (ChunkId × Bytes)) (id : ChunkId) (d : Bytes) (p q r : PackFile)
      → add_all zlib group p ≡ ok q
      → Pack.add_chunk zlib id d q ≡ ok r
      → add_all zlib (group ++ (id, d) ∷ []) p ≡ ok r
  add_all-append [] id d p q r h k = let is : p ≡ q = cc in rw (is, k)
  add_all-append ((j, x) ∷ group) id d p q r h k =
      let (t, first, rest) = >>=-eq-ok (Pack.add_chunk zlib j x p) (add_all zlib group) h in
      rw first (add_all-append group id d t q r rest k)

  abbrev holding : PackFile → ℕ → ℕ → PackManager
  holding p max_size counter = record {
    current_pack = some p;
    max_pack_size = max_size;
    pack_counter = counter;
  }

  abbrev fresh : ℕ → PackFile
  fresh counter = Pack.new (stamp counter).0 (stamp counter).1

  -- The outcomes of `add_chunk` on a manager with a current pack.
  record Rotated (id : ChunkId) (d : Bytes) (p : PackFile) (max_size counter : ℕ) (m : PackManager)
      (finished : Option PackFile) : Type 0 where
    full : max_size ≤ size p
    next : PackFile
    added : Pack.add_chunk zlib id d (fresh counter) ≡ ok next
    after : m ≡ holding next max_size ((counter + 1) % 2 ^ 64)
    handed : finished ≡ some p

  record Extended (id : ChunkId) (d : Bytes) (p : PackFile) (max_size counter : ℕ) (m : PackManager)
      (finished : Option PackFile) : Type 0 where
    next : PackFile
    added : Pack.add_chunk zlib id d p ≡ ok next
    after : m ≡ holding next max_size counter
    handed : finished ≡ none

  add_chunk_cases :
      (id : ChunkId) (d : Bytes) (p : PackFile) (max_size counter : ℕ) (m : PackManager)
      (finished : Option PackFile)
      → add_chunk zlib stamp id d (holding p max_size counter) ≡ ok (m, finished)
      → Rotated id d p max_size counter m finished ⊎ Extended id d p max_size counter m finished
  unfolding add_chunk size
  add_chunk_cases id d p max_size counter m finished h = elim (Bool-cases (is_full max_size p)) [
    | inl e ↦
        let (m', first, rest) =
          >>=-eq-ok
            (add_to_current zlib id d (start_new_pack stamp (holding p max_size counter))
              (some (fresh counter)))
            _ (rw e at h) in
        let (q, added, after) = >>=-eq-ok (Pack.add_chunk zlib id d (fresh counter)) _ first in
        inl (record { full = leb→le _ _ e; next = q; added = added; after = cc; handed = cc })
    | inr e ↦
        let (m', first, rest) =
          >>=-eq-ok (add_to_current zlib id d (holding p max_size counter) (some p)) _
            (rw e at h) in
        let (q, added, after) = >>=-eq-ok (Pack.add_chunk zlib id d p) _ first in
        inr (record { next = q; added = added; after = cc; handed = cc })
  ]

  one_chunk :
      (id : ChunkId) (d : Bytes) (counter : ℕ) (q : PackFile)
      → Pack.add_chunk zlib id d (fresh counter) ≡ ok q
      → Built ((id, d) ∷ []) q
  one_chunk id d counter q added = record {
    counter = counter;
    made = rw added;
    some_chunk = λ e. cc;
  }

  more_chunk :
      (group : List (ChunkId × Bytes)) (id : ChunkId) (d : Bytes) (p q : PackFile)
      → Built group p
      → Pack.add_chunk zlib id d p ≡ ok q
      → Built (group ++ (id, d) ∷ []) q
  more_chunk group id d p q b added = record {
    counter = b.counter;
    made = add_all-append group id d (fresh b.counter) p q b.made added;
    some_chunk = append-ne-nil group;
  }
    where
      append-ne-nil : (g : List (ChunkId × Bytes)) → g ++ (id, d) ∷ [] ≢ []
      append-ne-nil [] e = cc
      append-ne-nil (x ∷ g) e = cc

  cons-Partition :
      (group items : List (ChunkId × Bytes)) (p : PackFile) (packs : List PackFile)
      (last : PackManager) (max_size : ℕ)
      → Built group p
      → max_size ≤ size p
      → Partition items packs last max_size
      → Partition (group ++ items) (p ∷ packs) last max_size
  unfolding flatten
  cons-Partition group items p packs last max_size b full rest = record {
    groups = group ∷ rest.groups;
    whole = ap (λ t. group ++ t) rest.whole;
    built = (b, rest.built);
    full = (full, rest.full);
  }

  Partition-from :
      (items group : List (ChunkId × Bytes)) (p : PackFile) (max_size counter : ℕ)
      (packs : List PackFile) (last : PackManager)
      → Built group p
      → add_chunks zlib stamp items (holding p max_size counter) ≡ ok (packs, last)
      → Partition (group ++ items) packs last max_size
  unfolding add_chunks flatten
  Partition-from [] group p max_size counter packs last b h =
      let only : Partition (group ++ []) [] (holding p max_size counter) max_size = record {
        groups = group ∷ [];
        whole = refl;
        built = (b, tt);
        full = tt;
      } in
      subst₂ (λ ps m. Partition (group ++ []) ps m max_size) (cc) (cc) only
  Partition-from ((id, d) ∷ items) group p max_size counter packs last b h =
      let ((m, finished), first, others) =
        >>=-eq-ok (add_chunk zlib stamp id d (holding p max_size counter)) _ h in
      let ((ps, m'), loop, end) = >>=-eq-ok (add_chunks zlib stamp items m) _ others in
      elim (add_chunk_cases id d p max_size counter m finished first) [
        | inl r ↦
            let rest =
              Partition-from items ((id, d) ∷ []) r.next max_size ((counter + 1) % 2 ^ 64) ps m'
                (one_chunk id d counter r.next r.added) (rw r.after at loop) in
            subst₂ (λ x y. Partition (group ++ (id, d) ∷ items) x y max_size) (cc (r.handed, end))
              (cc end) (cons-Partition group ((id, d) ∷ items) p ps m' max_size b r.full rest)
        | inr r ↦
            let rest =
              Partition-from items (group ++ (id, d) ∷ []) r.next max_size counter ps m'
                (more_chunk group id d p r.next b r.added) (rw r.after at loop) in
            subst₂ (λ x y. Partition (group ++ (id, d) ∷ items) x y max_size) (cc (r.handed, end))
              (cc end) (rw append_assoc at rest)
      ]

  first_chunk :
      (id : ChunkId) (d : Bytes) (max_size : ℕ) (m : PackManager) (finished : Option PackFile)
      → add_chunk zlib stamp id d (new max_size) ≡ ok (m, finished)
      → (q : PackFile) × (Pack.add_chunk zlib id d (fresh 0) ≡ ok q)
        × (m ≡ holding q max_size 1)
        × (finished ≡ none)
  unfolding add_chunk new
  first_chunk id d max_size m finished h =
      let (m', first, rest) =
        >>=-eq-ok (add_to_current zlib id d (start_new_pack stamp (new max_size)) (some (fresh 0)))
          _ h in
      let (q, added, after) = >>=-eq-ok (Pack.add_chunk zlib id d (fresh 0)) _ first in
      (q, added, cc, cc)

  -- If a run of `add_chunk` on a new manager succeeds, the chunks it was given, in order, are cut into
  -- non-empty groups, one for each pack that came out and one for the current pack if there is one; each
  -- pack is a new pack with the chunks of its group added, and each that came out is full.
  pub Partition-run :
      (items : List (ChunkId × Bytes)) (max_size : ℕ) (packs : List PackFile) (last : PackManager)
      → add_chunks zlib stamp items (new max_size) ≡ ok (packs, last)
      → Partition items packs last max_size
  unfolding add_chunks flatten new
  Partition-run [] max_size packs last h =
      let empty : Partition [] [] (new max_size) max_size = record {
        groups = [];
        whole = refl;
        built = tt;
        full = tt;
      } in
      subst₂ (λ ps m. Partition [] ps m max_size) (cc) (cc) empty
  Partition-run ((id, d) ∷ items) max_size packs last h =
      let ((m, finished), first, others) =
        >>=-eq-ok (add_chunk zlib stamp id d (new max_size)) _ h in
      let ((ps, m'), loop, end) = >>=-eq-ok (add_chunks zlib stamp items m) _ others in
      let (q, added, after, none_handed) = first_chunk id d max_size m finished first in
      let rest =
        Partition-from items ((id, d) ∷ []) q max_size 1 ps m' (one_chunk id d 0 q added)
          (rw after at loop) in
      subst₂ (λ x y. Partition ((id, d) ∷ items) x y max_size) (cc (none_handed, end)) (cc end) rest

  abbrev Compresses : Type 0
  Compresses = (d : Bytes) → (c : Bytes) × (zlib.compress d ≡ some c)

  add_to_current_total :
      Compresses
      → (id : ChunkId) (d : Bytes) (m : PackManager) (o : Option PackFile)
      → (m' : PackManager) × (add_to_current zlib id d m o ≡ ok m')
  unfolding add_to_current Pack.add_chunk
  add_to_current_total all id d m none = (m, refl)
  add_to_current_total all id d m (some p) =
      let (c, made) = all d in
      (record m { current_pack = some (Pack.append_chunk zlib id d c p) }, rw made)

  add_chunk_total :
      Compresses
      → (id : ChunkId) (d : Bytes) (m : PackManager)
      → (m' : PackManager) × (finished : Option PackFile) × (add_chunk zlib stamp id d m
          ≡ ok (m', finished))
  unfolding add_chunk
  add_chunk_total all id d m = elim (Bool-cases (needs_new m.max_pack_size m.current_pack)) [
    | inl e ↦
        let started = start_new_pack stamp m in
        let (m', run) = add_to_current_total all id d started started.current_pack in
        (m', m.current_pack, rw (e, run))
    | inr e ↦
        let (m', run) = add_to_current_total all id d m m.current_pack in (m', none, rw (e, run))
  ]

  add_chunks_total :
      Compresses
      → (items : List (ChunkId × Bytes)) (m : PackManager)
      → (packs : List PackFile) × (last : PackManager) × (add_chunks zlib stamp items m
          ≡ ok (packs, last))
  unfolding add_chunks
  add_chunks_total all [] m = ([], m, refl)
  add_chunks_total all ((id, d) ∷ items) m =
      let (m', finished, first) = add_chunk_total all id d m in
      let (packs, last, rest) = add_chunks_total all items m' in
      (prepend finished packs, last, rw (first, rest))

  -- Where every chunk can be compressed, a run of `add_chunk` on a new manager succeeds, and the chunks
  -- it was given, in order, are cut into non-empty groups, one for each pack that came out and one for
  -- the current pack if there is one; each pack is a new pack with the chunks of its group added, and
  -- each that came out is full.
  pub add_chunks-Partition :
      ((d : Bytes) → (c : Bytes) × (zlib.compress d ≡ some c))
      → (items : List (ChunkId × Bytes)) (max_size : ℕ)
      → (packs : List PackFile) × (last : PackManager) × (add_chunks zlib stamp items (new max_size)
          ≡ ok (packs, last))
        × Partition items packs last max_size
  add_chunks-Partition all items max_size =
      let (packs, last, run) = add_chunks_total all items (new max_size) in
      (packs, last, run, Partition-run items max_size packs last run)
