-- ===== src/Repository/Opening/RoundTrip.antt =====
-- A repository that was initialized is opened with its password.
use ghostsnap.Prelude.{
  ◌≡◌, ◌≢◌, refl, ap, ◌∙◌, sym, String, true, false, some, [], ◌∷◌, length, arith, Bool-cases,
  Option-cases, inl, inr, first_code, first_code-append,
}
use ghostsnap.Errors.{Error, ok, ok_or, ok_or-eq-ok, ok-injective}
use ghostsnap.Action.{resume-eq-ok}
use ghostsnap.Foreign.{Bytes}
use ghostsnap.Crypto.{Encryptor, new_encryptor, encrypt, decrypt-encrypt}
use ghostsnap.Index.{Bloom, new}
use ghostsnap.Location.{
  RepositoryLocation, transport_from_location, resolve_location-transport_from_location,
}
use ghostsnap.Location.Uri.{display}
use ghostsnap.Storage.{RepositoryStorage}
use ghostsnap.Repository.Opening.{
  Setup, Draws, Opened, key_path, local_path, write_new, init_at_location, find_key,
  load_or_migrate_index, read_index, new_or_migrated, open_with, open_at_location,
}
use ghostsnap.Repository.Opening.Config.{
  RepoConfig, KeyFile, default_config, derive_from_password, storage_for_location,
}
use ghostsnap.Repository.Opening.Legacy.{has_legacy}

key_path-ne-config : (name : String) → key_path name ≢ "config"
key_path-ne-config name h =
    let start = first_code-append "k" "eys/" name in
    let codes : 107 ≡ 99 = sym start ∙ ap first_code h in absurd (omega (arith, codes))

abbrev config_of : RepositoryLocation → Draws → RepoConfig
config_of location draws = record (default_config draws.salt draws.id) {
  transport = some (transport_from_location location);
}

module _ {W P : Type 0} (setup : Setup W P) where
  -- What a store tells of a repository that is new: its configuration is there, and one key; no index has
  -- been written yet, and no index of an old repository is in its directory.
  pub record IsSettled (location : RepositoryLocation) (key_id : String) (w : W)
      (store : RepositoryStorage W) : Type 0 where
    pub config : store.exists_at "config" w ≡ ok true
    pub keys : store.list "keys" w ≡ ok (key_id ∷ [])
    pub index : store.exists_at "index/main.idx" w ≡ ok false
    pub legacy :
        (dir : String)
        → local_path location ≡ some dir
        → has_legacy setup.files dir w ≡ (ok false, w)

  -- What is on the way from the password to the data key.
  pub record Keys (draws : Draws) (password : String) (config : RepoConfig) : Type 0 where
    pub master_key : Bytes
    pub encryptor : Encryptor
    pub key_encryptor : Encryptor
    pub encrypted : Bytes
    pub derived : derive_from_password setup.argon2 password config.kdf_params ≡ ok master_key
    pub for_data : new_encryptor draws.data_key ≡ ok encryptor
    pub for_key : new_encryptor master_key ≡ ok key_encryptor
    pub sealed : encrypt setup.cipher key_encryptor draws.nonce draws.data_key ≡ ok encrypted

module _ {W P F : Type 0} ⦃b : Bloom F⦄ (setup : Setup W P) where
  -- What `write_new` returned and wrote.
  record IsNew (location : RepositoryLocation) (password : String) (draws : Draws)
      (store : RepositoryStorage W) (made : Opened F) (w' : W) : Type 0 where
    keys : Keys setup draws password (config_of location draws)
    config_json : String
    key_json : String
    config_made : setup.configs.to_string_pretty (config_of location draws) ≡ some config_json
    key_made :
        setup.keys.to_string_pretty (record {
          encrypted_key = keys.encrypted;
          kdf_params = (config_of location draws).kdf_params;
        })
        ≡ some key_json
    config_read : store.read "config" w' ≡ ok (setup.utf8.encode config_json)
    key_read : store.read (key_path draws.key_id) w' ≡ ok (setup.utf8.encode key_json)
    made_is : made ≡ record {
      location = location;
      display_path = display location;
      config = config_of location draws;
      master_key = some keys.master_key;
      encryptor = some keys.encryptor;
      index = new;
    }

  write_new-IsNew :
      (location : RepositoryLocation) (password : String) (draws : Draws)
      (store : RepositoryStorage W) (made : Opened F) (w w' : W)
      → write_new setup store location password draws w ≡ (ok made, w')
      → IsNew location password draws store made w'
  unfolding write_new
  write_new-IsNew location password draws store made w w' h =
      let config = config_of location draws in
      let started = store.init w in
      let (u₀, is₀, h₀) = resume-eq-ok started.0 started.1 _ h in
      let (master_key, derived, h₁) =
        resume-eq-ok (derive_from_password setup.argon2 password config.kdf_params) started.1 _
          h₀ in
      let (encryptor, for_data, h₂) = resume-eq-ok (new_encryptor draws.data_key) started.1 _ h₁ in
      let (key_encryptor, for_key, h₃) = resume-eq-ok (new_encryptor master_key) started.1 _ h₂ in
      let (encrypted, sealed, h₄) =
        resume-eq-ok (encrypt setup.cipher key_encryptor draws.nonce draws.data_key) started.1 _
          h₃ in
      let key_file : KeyFile = record {
        encrypted_key = encrypted;
        kdf_params = config.kdf_params;
      } in
      let (config_json, config_made, h₅) =
        resume-eq-ok
          (ok_or (setup.configs.to_string_pretty config) (Error.serialization "serde_json::Error"))
          started.1 _ h₄ in
      let first = store.write "config" (setup.utf8.encode config_json) started.1 in
      let (u₁, is₁, h₆) = resume-eq-ok first.0 first.1 _ h₅ in
      let (key_json, key_made, h₇) =
        resume-eq-ok
          (ok_or (setup.keys.to_string_pretty key_file) (Error.serialization "serde_json::Error"))
          first.1 _ h₆ in
      let second = store.write (key_path draws.key_id) (setup.utf8.encode key_json) first.1 in
      let (u₂, is₂, h₈) = resume-eq-ok second.0 second.1 _ h₇ in
      let ended : second.1 ≡ w' = ap (λ run. run.1) h₈ in
      record {
        keys = record {
          master_key = master_key;
          encryptor = encryptor;
          key_encryptor = key_encryptor;
          encrypted = encrypted;
          derived = derived;
          for_data = for_data;
          for_key = for_key;
          sealed = sealed;
        };
        config_json = config_json;
        key_json = key_json;
        config_made = ok_or-eq-ok _ _ config_made;
        key_made = ok_or-eq-ok _ _ key_made;
        config_read =
            ap (store.read "config") (sym ended)
            ∙ store.read-write_other (key_path draws.key_id) "config" (setup.utf8.encode key_json)
                first.1 (key_path-ne-config draws.key_id)
            ∙ store.read-write_same "config" (setup.utf8.encode config_json) started.1 is₁;
        key_read =
            ap (store.read (key_path draws.key_id)) (sym ended)
            ∙ store.read-write_same (key_path draws.key_id) (setup.utf8.encode key_json) first.1
                is₂;
        made_is = sym (ok-injective _ _ (ap (λ run. run.0) h₈));
      }

  init-IsNew :
      (location : RepositoryLocation) (password : String) (draws : Draws) (made : Opened F)
      (w w' : W)
      → init_at_location setup location password draws w ≡ (ok made, w')
      → (store : RepositoryStorage W) × (storage_for_location setup.var setup.connect location
          ≡ ok store)
        × IsNew location password draws store made w'
  unfolding init_at_location
  init-IsNew location password draws made w w' h =
      let (store, connected, h₀) =
        resume-eq-ok (storage_for_location setup.var setup.connect location) w _ h in
      let (present, is, h₁) = resume-eq-ok (store.exists_at "config" w) w _ h₀ in
      elim (Bool-cases present) [
        | inl e ↦ absurd (cc (rw e at h₁))
        | inr e ↦
            (store, connected, write_new-IsNew location password draws store made w w' (rw e at h₁))
      ]

  -- The index of a repository in which none was written.
  load_or_migrate_index-new :
      (store : RepositoryStorage W) (location : RepositoryLocation) (key_id : String)
      (encryptor : Encryptor) (nonce : Bytes) (w : W)
      → IsSettled setup location key_id w store
      → load_or_migrate_index setup store (local_path location) encryptor nonce w
        ≡ (ok (new {F = F}), w)
  unfolding load_or_migrate_index
  load_or_migrate_index-new store location key_id encryptor nonce w v =
      rw v.index (elim (Option-cases (local_path location)) [
        | inl e ↦ rw e (unfold read_index in refl)
        | inr (dir, e) ↦
            rw e (unfold read_index in rw (v.legacy dir e) (unfold new_or_migrated in refl))
      ])

  -- The key file is found.
  find_key-new :
      (location : RepositoryLocation) (password : String) (draws : Draws)
      (store : RepositoryStorage W) (made : Opened F) (w : W)
      (n : IsNew location password draws store made w)
      → find_key setup store (draws.key_id ∷ []) w ≡ (
        ok (
            some (record {
              encrypted_key = n.keys.encrypted;
              kdf_params = (config_of location draws).kdf_params;
            })),
        w,
      )
  unfolding find_key
  find_key-new location password draws store made w n =
      rw
        (
          n.key_read,
          setup.utf8.decode-encode n.key_json,
          setup.keys.from_str-to_string_pretty _ n.key_json n.key_made,
        )
        refl

  open_with-new :
      (location : RepositoryLocation) (password : String) (draws : Draws) (made : Opened F) (w : W)
      (nonce : Bytes) (store : RepositoryStorage W)
      → length draws.nonce ≡ 12
      → storage_for_location setup.var setup.connect location ≡ ok store
      → IsNew location password draws store made w
      → IsSettled setup location draws.key_id w store
      → open_with setup location (config_of location draws) password nonce w ≡ (ok made, w)
  unfolding open_with
  open_with-new location password draws made w nonce store n12 connected n v =
      rw (resolve_location-transport_from_location location).1 (
        rw (connected, v.keys)
          (rw (find_key-new location password draws store made w n) (
            rw (n.keys.derived, n.keys.for_key)
              (rw
                (decrypt-encrypt setup.cipher n.keys.key_encryptor draws.nonce draws.data_key
                  n.keys.encrypted n12 n.keys.sealed)
                (rw n.keys.for_data (
                  rw
                    (load_or_migrate_index-new store location draws.key_id n.keys.encryptor nonce w
                      v)
                    (ap (λ o. (ok o, w)) (sym n.made_is))))))))

  -- When a repository has been initialized with success under a 12-byte nonce, and its store shows the
  -- configuration, that one key and no index, then opening it with the same password succeeds, changes
  -- nothing, and gives the repository that was made: its location, its configuration, its keys and its empty
  -- index.
  pub open_at_location-init_at_location :
      (location : RepositoryLocation) (password : String) (draws : Draws) (made : Opened F)
      (w w' : W) (nonce : Bytes)
      → length draws.nonce ≡ 12
      → init_at_location setup location password draws w ≡ (ok made, w')
      → ((store : RepositoryStorage W)
          → storage_for_location setup.var setup.connect location ≡ ok store
          → IsSettled setup location draws.key_id w' store)
      → open_at_location setup location password nonce w' ≡ (ok made, w')
  unfolding open_at_location
  open_at_location-init_at_location location password draws made w w' nonce n12 h settled =
      let (store, connected, n) = init-IsNew location password draws made w w' h in
      let v = settled store connected in
      rw (connected, v.config, n.config_read)
        (rw
          (
            setup.utf8.decode-encode n.config_json,
            setup.configs.from_str-to_string_pretty (config_of location draws) n.config_json
                n.config_made,
          )
          (open_with-new location password draws made w' nonce store n12 connected n v))
