-- ===== src/Check/Packs.antt =====
-- What a scan of packs that counted no error has seen.
use ghostsnap.Prelude.{
  ℕ, ◌+◌, ◌≡◌, refl, ◌∙◌, sym, Bool, true, false, List, [], ◌∷◌, string_eq, list_eq, arith, inl,
  inr,
}
use ghostsnap.Errors.{ok}
use ghostsnap.Action.{resume-eq-ok, attempt-eq-ok}
use ghostsnap.Types.{PackId}
use ghostsnap.Repository.{Crates, Repository, encryptor_of, load_pack}
use ghostsnap.Repository.Objects.{pack_exists}
use ghostsnap.Repository.Coherence.{IsCoherent, IsLoad, stored_pack, load_pack-IsLoad}
use ghostsnap.Check.{or_error, read_packs, find_packs, check_packs}

module _ {S C F : Type 0} (crates : Crates S C) where
  -- Every pack can be read and decoded.
  abbrev pub AllStored : List PackId → Repository S C F → Type 0
  AllStored [] r = Unit
  AllStored (id ∷ ids) r = ((pack : _) × (stored_pack crates id r ≡ ok pack)) × AllStored ids r

  stored_pack-IsLoad :
      (id p : PackId) (r : Repository S C F)
      → IsLoad crates id r (load_pack crates id r)
      → stored_pack crates p (load_pack crates id r).1 ≡ stored_pack crates p r
  unfolding encryptor_of
  stored_pack-IsLoad id p r load = rw (load.storage, load.encryptor) refl

  AllStored-IsLoad :
      (ids : List PackId) (id : PackId) (r : Repository S C F)
      → IsLoad crates id r (load_pack crates id r)
      → AllStored ids (load_pack crates id r).1
      → AllStored ids r
  AllStored-IsLoad [] id r load h = tt
  AllStored-IsLoad (p ∷ ids) id r load h =
      ((h.0.0, sym (stored_pack-IsLoad id p r load) ∙ h.0.1), AllStored-IsLoad ids id r load h.1)

  read_packs-clean :
      (ids : List PackId) (errors total : ℕ) (r r' : Repository S C F)
      → read_packs crates ids errors r ≡ (ok total, r')
      → total ≡ 0
      → errors ≡ 0
  unfolding read_packs
  read_packs-clean [] errors total r r' h clean = let is : errors ≡ total = cc in is ∙ clean
  read_packs-clean (id ∷ ids) errors total r r' h clean =
      let first = load_pack crates id r in
      elim (attempt-eq-ok first _ h) [
        | inl (failure, e, h₀) ↦
            let rest = read_packs-clean ids (errors + 1) total first.1 r' h₀ clean in
            absurd (omega (arith, rest))
        | inr (pack, e, h₀) ↦ read_packs-clean ids errors total first.1 r' h₀ clean
      ]

  read_packs-AllStored :
      (ids : List PackId) (errors total : ℕ) (r r' : Repository S C F)
      → IsCoherent crates r
      → read_packs crates ids errors r ≡ (ok total, r')
      → total ≡ 0
      → AllStored ids r
  unfolding read_packs
  read_packs-AllStored [] errors total r r' v h clean = tt
  read_packs-AllStored (id ∷ ids) errors total r r' v h clean =
      let first = load_pack crates id r in
      let load = load_pack-IsLoad crates id r v in
      elim (attempt-eq-ok first _ h) [
        | inl (failure, e, h₀) ↦
            let rest = read_packs-clean ids (errors + 1) total first.1 r' h₀ clean in
            absurd (omega (arith, rest))
        | inr (pack, e, h₀) ↦
            let rest = read_packs-AllStored ids errors total first.1 r' load.coherent h₀ clean in
            ((pack, sym load.answer ∙ e), AllStored-IsLoad ids id r load rest)
      ]

  find_packs-clean :
      (ids : List PackId) (errors total : ℕ) (r r' : Repository S C F)
      → find_packs crates ids errors r ≡ (ok total, r')
      → total ≡ 0
      → errors ≡ 0
  unfolding find_packs pack_exists
  find_packs-clean [] errors total r r' h clean = let is : errors ≡ total = cc in is ∙ clean
  find_packs-clean (id ∷ ids) errors total r r' h clean =
      let (found, e, h₀) = resume-eq-ok (crates.store.exists_at _ r.storage) r _ h in
      let rest = find_packs-clean ids (or_error found errors) total r r' h₀ clean in
      ground (arith, rest)

  pub check_packs-clean :
      (read_data : Bool) (ids : List PackId) (errors total : ℕ) (r r' : Repository S C F)
      → check_packs crates read_data ids errors r ≡ (ok total, r')
      → total ≡ 0
      → errors ≡ 0
  unfolding check_packs
  check_packs-clean true ids errors total r r' h clean =
      read_packs-clean ids errors total r r' h clean
  check_packs-clean false ids errors total r r' h clean =
      find_packs-clean ids errors total r r' h clean

  pub check_packs-AllStored :
      (read_data : Bool) (ids : List PackId) (errors total : ℕ) (r r' : Repository S C F)
      → IsCoherent crates r
      → check_packs crates read_data ids errors r ≡ (ok total, r')
      → total ≡ 0
      → read_data ≡ true
      → AllStored ids r
  unfolding check_packs
  check_packs-AllStored true ids errors total r r' v h clean asked =
      read_packs-AllStored ids errors total r r' v h clean
  check_packs-AllStored false ids errors total r r' v h clean asked = absurd (ground (arith, asked))
