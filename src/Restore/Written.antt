-- ===== src/Restore/Written.antt =====
-- What stands in a file that was restored.
use ghostsnap.Prelude.{
  ℕ, ◌≡◌, refl, ap, sym, ◌∙◌, String, Bool, true, false, Option, none, some, List, [], ◌∷◌,
  has_code, Bool-cases, inl, inr,
}
use ghostsnap.Errors.{Result, ok, err, panic, ok-injective}
use ghostsnap.Action.{Action, resume, resume-eq-ok}
use ghostsnap.Foreign.{Bytes}
use ghostsnap.Types.{ChunkRef, PackId}
use ghostsnap.Index.{Bloom}
use ghostsnap.Pack.Encoding.{Nonces}
use ghostsnap.Pack.Manager.{PackManager}
use ghostsnap.Chunker.{Chunk, Chunker, FastCdc, chunk_data}
use ghostsnap.Snapshot.{TreeNode}
use ghostsnap.Repository.{Crates, Repository}
use ghostsnap.Repository.Coherence.{IsCoherent}
use ghostsnap.Backup.{process_file}
use ghostsnap.Restore.{restored_content, read_chunks}
use ghostsnap.Restore.RoundTrip.{HoldsAll, read_chunks-process_file}
use ghostsnap.Restore.Files.{
  FileSystem, RestoreCommand, unless, c_string, set_ownership, set_timestamps, restore_xattrs,
  restore_some_xattrs, create_parent, finish_file, restore_file,
}

module _ {D A : Type 0} (files : FileSystem D) (path : String) where
  -- The step leaves the content of the file as it was.
  abbrev KeepsContent : Action D A → Type 0
  KeepsContent step = (d : D) → files.content path (step d).1 ≡ files.content path d

module _ {D A B : Type 0} (files : FileSystem D) (path : String) where
  resume-KeepsContent :
      (first : Result A × D) (rest : A → Action D B) (d : D)
      → files.content path first.1 ≡ files.content path d
      → ((a : A) → KeepsContent files path (rest a))
      → files.content path (resume first rest).1 ≡ files.content path d
  resume-KeepsContent (panic, d') rest d h each = h
  resume-KeepsContent (err failure, d') rest d h each = h
  resume-KeepsContent (ok a, d') rest d h each = each a d' ∙ h

module _ {D : Type 0} (files : FileSystem D) (path : String) where
  unless-KeepsContent :
      (b : Bool) (step : Action D Unit)
      → KeepsContent files path step
      → KeepsContent files path (unless b step)
  unless-KeepsContent true step k d = refl
  unless-KeepsContent false step k d = k d

  c_string-KeepsContent :
      (p : String) (d : D) → files.content path (c_string p d).1 ≡ files.content path d
  c_string-KeepsContent p d = elim (Bool-cases (has_code 0 p)) [
    | inl e ↦ rw e refl
    | inr e ↦ rw e refl
  ]

  set_ownership-KeepsContent :
      (p : String) (uid gid : ℕ) → KeepsContent files path (set_ownership files p uid gid)
  unfolding set_ownership
  set_ownership-KeepsContent p uid gid = unless-KeepsContent _ _ (λ d.
      resume-KeepsContent files path (c_string p d) _ d (c_string-KeepsContent p d)
        (λ checked e. files.content-chown p path uid gid e))

  set_timestamps-KeepsContent :
      (p : String) (mtime : ℕ) → KeepsContent files path (set_timestamps files p mtime)
  unfolding set_timestamps
  set_timestamps-KeepsContent p mtime d =
      resume-KeepsContent files path (c_string p d) _ d (c_string-KeepsContent p d)
        (λ checked e. files.content-utimensat p path mtime e)

  restore_xattrs-KeepsContent :
      (p : String) (xattrs : List (String × Bytes))
      → KeepsContent files path (restore_xattrs files p xattrs)
  unfolding restore_xattrs
  restore_xattrs-KeepsContent p [] d = refl
  restore_xattrs-KeepsContent p ((name, value) ∷ xattrs) d =
      restore_xattrs-KeepsContent p xattrs (files.set_xattr p name value d)
      ∙ files.content-set_xattr p path name value d

  restore_some_xattrs-KeepsContent :
      (p : String) (xattrs : Option (List (String × Bytes)))
      → KeepsContent files path (restore_some_xattrs files p xattrs)
  restore_some_xattrs-KeepsContent p none d = refl
  restore_some_xattrs-KeepsContent p (some xattrs) d = restore_xattrs-KeepsContent p xattrs d

  finish_file-KeepsContent :
      (cmd : RestoreCommand) (node : TreeNode)
      → cmd.sparse ≡ false
      → KeepsContent files path (finish_file files cmd node path)
  unfolding finish_file
  finish_file-KeepsContent cmd node dense d =
      let last =
        unless-KeepsContent cmd.no_xattr _ (restore_some_xattrs-KeepsContent path node.xattr) in
      rw dense (
        resume-KeepsContent files path
          (unless cmd.no_permissions (files.set_permissions path node.mode) d) _ d
          (unless-KeepsContent cmd.no_permissions _
            (files.content-set_permissions path path node.mode) d)
          (λ permitted e.
            resume-KeepsContent files path
              (unless cmd.no_ownership (set_ownership files path node.uid node.gid) e) _ e
              (unless-KeepsContent cmd.no_ownership _
                (set_ownership-KeepsContent path node.uid node.gid) e)
              (λ owned f.
                resume-KeepsContent files path
                  (unless cmd.no_timestamps (set_timestamps files path node.mtime) f) _ f
                  (unless-KeepsContent cmd.no_timestamps _
                    (set_timestamps-KeepsContent path node.mtime) f)
                  (λ dated g. last g))))

module _ {S C F D : Type 0} ⦃b : Bloom F⦄ (crates : Crates S C) (files : FileSystem D)
    (cmd : RestoreCommand) where
  -- A file that was restored without holes has the content of its chunks.
  content-restore_file :
      (node : TreeNode) (path : String) (bytes : Bytes) (r r' : Repository S C F) (d d' : D)
      → cmd.sparse ≡ false
      → (restored_content crates node r).0 ≡ ok bytes
      → restore_file crates files cmd node path (r, d) ≡ (ok tt, (r', d'))
      → files.content path d' ≡ some bytes
  unfolding restore_file
  content-restore_file node path bytes r r' d d' dense whole h =
      let made = create_parent files path d in
      let (u₀, is₀, h₀) = resume-eq-ok made.0 (r, made.1) _ h in
      let got = restored_content crates node r in
      let (file_data, is₁, h₁) = resume-eq-ok got.0 (got.1, made.1) _ h₀ in
      let written = files.write path file_data made.1 in
      let (u₂, is₂, h₂) = resume-eq-ok written.0 (got.1, written.1) _ h₁ in
      let same : file_data ≡ bytes = ok-injective file_data bytes (sym is₁ ∙ whole) in
      let there : files.content path written.1 ≡ some file_data =
        files.content-write path file_data made.1 written.1 (ap (λ o. (o, written.1)) is₂) in
      let ended : (finish_file files cmd node path written.1).1 ≡ d' = ap (λ run. run.1.1) h₂ in
      ap (files.content path) (sym ended)
      ∙ finish_file-KeepsContent files path cmd node dense written.1
      ∙ there
      ∙ ap some same

  -- When the content of a file was processed by a backup with success, and a node with the references that were
  -- returned is restored with success, without `--sparse`, from any coherent repository that holds the chunks,
  -- then the file that was restored has that content.
  pub content-restore_file-process_file :
      (draw : PackId → Nonces) (stamp : ℕ → PackId × ℕ) (fastcdc : FastCdc) (chunker : Chunker)
      (bytes : Bytes) (result : List ChunkRef × ℕ × ℕ) (s s' : Repository S C F × PackManager)
      (node : TreeNode) (path : String) (r r' : Repository S C F) (d d' : D)
      → process_file crates draw stamp fastcdc chunker bytes s ≡ (ok result, s')
      → node.chunks ≡ result.0
      → IsCoherent crates r
      → ((chunks : List Chunk)
          → chunk_data fastcdc chunker bytes ≡ ok chunks
          → HoldsAll crates r chunks)
      → cmd.sparse ≡ false
      → restore_file crates files cmd node path (r, d) ≡ (ok tt, (r', d'))
      → files.content path d' ≡ some bytes
  content-restore_file-process_file draw stamp fastcdc chunker bytes result s s' node path r r' d d'
        processed same v holds dense restored =
      let whole : (restored_content crates node r).0 ≡ ok bytes =
        unfold restored_content in
        ap (λ refs. (read_chunks crates refs [] r).0) same
        ∙ read_chunks-process_file crates draw stamp fastcdc chunker bytes result s s' r processed v
            holds in
      content-restore_file node path bytes r r' d d' dense whole restored
