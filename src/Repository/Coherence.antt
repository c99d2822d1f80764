-- ===== src/Repository/Coherence.antt =====
-- The pack cache cannot be seen: in a coherent repository `load_pack` answers as the storage does, and
-- every method keeps it coherent.
use ghostsnap.Prelude.{
  ◌≡◌, ◌≢◌, refl, sym, ap, ◌∙◌, ◌==◌, string_eq, none, some, arith, Bool-cases, Option-cases, inl,
  inr,
}
use mathlib.Core.Path.{subst}
use ghostsnap.Errors.{Result, ok, err, panic, ◌>>=◌, Result-cases}
use ghostsnap.Types.{PackId}
use ghostsnap.Pack
use ghostsnap.Pack.{PackFile}
use ghostsnap.Pack.Encoding.{from_encrypted_bytes}
use ghostsnap.PackCache.{evict}
use ghostsnap.PackCache.Eviction.{peek-evict}
use ghostsnap.Storage.{pack_path}
use ghostsnap.Repository.{
  Crates, Repository, encryptor_of, cache_pack, cache_get, load_missing, load_pack,
}

module _ {S C F : Type 0} (crates : Crates S C) where
  -- What the storage holds under a pack id.
  abbrev pub stored_pack : PackId → Repository S C F → Result PackFile
  stored_pack pack_id r = do
    encryptor ← encryptor_of r
    bytes ← crates.store.read (pack_path pack_id) r.storage
    from_encrypted_bytes crates.cipher crates.hasher crates.hex crates.headers crates.tables
        encryptor bytes

  -- Every pack of the cache is the stored one.
  pub record IsCoherent (r : Repository S C F) : Type 0 where
    pub cached :
        (pack_id : PackId) (p : PackFile)
        → crates.lru.peek pack_id r.pack_cache ≡ some p
        → stored_pack pack_id r ≡ ok p

  abbrev keep : PackId → Result PackFile → Repository S C F → Result PackFile × Repository S C F
  keep pack_id panic r = (panic, r)
  keep pack_id (err failure) r = (err failure, r)
  keep pack_id (ok p) r = (ok p, cache_pack crates pack_id p r)

  load_missing-none :
      (pack_id : PackId) (r : Repository S C F)
      → load_missing crates pack_id none r ≡ keep pack_id (stored_pack pack_id r) r
  unfolding load_missing
  load_missing-none pack_id r = elim (Result-cases (encryptor_of r)) [
    | inl e ↦ rw e refl
    | inr (inl (failure, e)) ↦ rw e refl
    | inr (inr (encryptor, e)) ↦
        rw e (elim (Result-cases (crates.store.read (pack_path pack_id) r.storage)) [
          | inl g ↦ rw g refl
          | inr (inl (failure, g)) ↦ rw g refl
          | inr (inr (bytes, g)) ↦
              rw g
                (elim (Result-cases (
                  from_encrypted_bytes crates.cipher crates.hasher crates.hex crates.headers
                    crates.tables encryptor bytes)) [
                      | inl d ↦ rw d refl
                      | inr (inl (failure, d)) ↦ rw d refl
                      | inr (inr (p, d)) ↦ rw d refl
                    ])
        ])
  ]

  cache_pack-IsCoherent :
      (pack_id : PackId) (p : PackFile) (r : Repository S C F)
      → stored_pack pack_id r ≡ ok p
      → IsCoherent r
      → IsCoherent (cache_pack crates pack_id p r)
  unfolding cache_pack encryptor_of
  cache_pack-IsCoherent pack_id p r h v = record {
    cached = λ j q e.
        let left =
          evict crates.lru r.max_cache_size (Pack.size p) (crates.lru.len r.pack_cache) r.pack_cache
            r.pack_cache_size in
        elim (Bool-cases (pack_id == j)) [
          | inl same ↦
              let is : pack_id ≡ j = ground (arith, string_eq.beq_iff pack_id j) in
              let put : crates.lru.peek pack_id (crates.lru.put pack_id p left.0) ≡ some q =
                subst (λ k. crates.lru.peek k (crates.lru.put pack_id p left.0) ≡ some q) (sym is)
                  e in
              let shown : p ≡ q = ground (arith, put, crates.lru.peek-put_self pack_id p left.0) in
              subst (λ k. stored_pack k r ≡ ok q) is (h ∙ ap ok shown)
          | inr other ↦
              let apart : pack_id ≢ j = λ is. ground (arith, string_eq.beq_iff pack_id j, is) in
              v.cached j q (
                peek-evict crates.lru r.max_cache_size (Pack.size p) (crates.lru.len r.pack_cache)
                  r.pack_cache r.pack_cache_size j q
                  (crates.lru.peek-put_other pack_id j p q left.0 apart e))
        ];
  }

  -- What a load does: its answer is the stored pack, and of the repository only the cache changes.
  pub record IsLoad (pack_id : PackId) (r : Repository S C F)
      (run : Result PackFile × Repository S C F) : Type 0 where
    pub answer : run.0 ≡ stored_pack pack_id r
    pub coherent : IsCoherent run.1
    pub storage : run.1.storage ≡ r.storage
    pub encryptor : run.1.encryptor ≡ r.encryptor
    pub index : run.1.index ≡ r.index

  keep-IsLoad :
      (pack_id : PackId) (outcome : Result PackFile) (r : Repository S C F)
      → stored_pack pack_id r ≡ outcome
      → IsCoherent r
      → IsLoad pack_id r (keep pack_id outcome r)
  unfolding cache_pack
  keep-IsLoad pack_id panic r h v = record {
    answer = sym h;
    coherent = v;
    storage = refl;
    encryptor = refl;
    index = refl;
  }
  keep-IsLoad pack_id (err failure) r h v = record {
    answer = sym h;
    coherent = v;
    storage = refl;
    encryptor = refl;
    index = refl;
  }
  keep-IsLoad pack_id (ok p) r h v = record {
    answer = sym h;
    coherent = cache_pack-IsCoherent pack_id p r h v;
    storage = refl;
    encryptor = refl;
    index = refl;
  }

  abbrev touched : PackId → Repository S C F → Repository S C F
  touched pack_id r = record r { pack_cache = (crates.lru.get pack_id r.pack_cache).1 }

  touched-IsCoherent :
      (pack_id : PackId) (r : Repository S C F) → IsCoherent r → IsCoherent (touched pack_id r)
  unfolding encryptor_of
  touched-IsCoherent pack_id r v = record {
    cached = λ j q e. v.cached j q (sym (crates.lru.peek-get pack_id j r.pack_cache) ∙ e);
  }

  -- In a coherent repository `load_pack` answers as if there were no cache, errors included: with the
  -- decoded pack of the storage. The repository is coherent afterwards, and its storage, key and index are
  -- what they were.
  pub load_pack-IsLoad :
      (pack_id : PackId) (r : Repository S C F)
      → IsCoherent r
      → IsLoad pack_id r (load_pack crates pack_id r)
  unfolding load_pack cache_get encryptor_of
  load_pack-IsLoad pack_id r v = elim (Option-cases (crates.lru.peek pack_id r.pack_cache)) [
    | inl e ↦
        let hit : (crates.lru.get pack_id r.pack_cache).0 ≡ none =
          crates.lru.get_value pack_id r.pack_cache ∙ e in
        let run =
          keep-IsLoad pack_id (stored_pack pack_id r) (touched pack_id r) refl
            (touched-IsCoherent pack_id r v) in
        rw (hit, load_missing-none pack_id (touched pack_id r))
          (record {
            answer = run.answer;
            coherent = run.coherent;
            storage = run.storage;
            encryptor = run.encryptor;
            index = run.index;
          })
    | inr (p, e) ↦
        let hit : (crates.lru.get pack_id r.pack_cache).0 ≡ some p =
          crates.lru.get_value pack_id r.pack_cache ∙ e in
        rw hit (
          unfold load_missing in
          record {
            answer = sym (v.cached pack_id p e);
            coherent = touched-IsCoherent pack_id r v;
            storage = refl;
            encryptor = refl;
            index = refl;
          })
  ]
