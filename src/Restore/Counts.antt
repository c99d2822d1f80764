-- ===== src/Restore/Counts.antt =====
-- The counters of a restore: each selected node is in one of them.
use ghostsnap.Prelude.{
  ℕ, suc, ◌+◌, ◌≤◌, ◌≡◌, refl, ap, ◌∙◌, String, Bool, true, false, not, ◌&&◌, Option, none, some,
  List, [], ◌∷◌, Map, arith, is_some, length,
}
use mathlib.Core.Path.{subst}
use ghostsnap.Errors.{ok, ok-injective}
use ghostsnap.Action.{resume-eq-ok, caught}
use ghostsnap.Index.{Bloom}
use ghostsnap.Snapshot.{TreeNode, NodeType, file, directory, symlink, is_file}
use ghostsnap.Repository.{Crates, Repository}
use ghostsnap.Restore.Files.{FileSystem, RestoreCommand, on_files}
use ghostsnap.Restore.Run.{
  result_of, verify_if, restore_next, restore_unless, restore_nodes, restore_selected, times_if,
}
use ghostsnap.Restore.Progress.{
  Progress, no_progress, add_bytes, skip_node, note_directory, note_file, count_result,
}
use ghostsnap.Restore.Selection.{by_name, place, sort_nodes}

-- `n` nodes were counted between `p` and `q`: each as restored, skipped or failed, and of the restored ones some
-- as hard links, and some as verified or not.
pub record IsCounted (p q : Progress) (n : ℕ) : Type 0 where
  pub total :
      q.restored_count + q.skipped_count + q.failed_count
      ≡ p.restored_count + p.skipped_count + p.failed_count + n
  pub checked :
      q.verified_count + q.verify_failed_count + p.restored_count
      ≤ p.verified_count + p.verify_failed_count + q.restored_count
  pub linked : q.hardlinks_restored + p.restored_count ≤ p.hardlinks_restored + q.restored_count

IsCounted-none : (p : Progress) → IsCounted p p 0
IsCounted-none p = record { total = omega arith; checked = omega arith; linked = omega arith }

IsCounted-trans :
    (p q r : Progress) (n m : ℕ) → IsCounted p q n → IsCounted q r m → IsCounted p r (n + m)
IsCounted-trans p q r n m c d = record {
  total = omega (arith, c.total, d.total);
  checked = omega (arith, c.checked, d.checked);
  linked = omega (arith, c.linked, d.linked);
}

add_bytes-IsCounted : (b : Bool) (size : ℕ) (p : Progress) → IsCounted p (add_bytes b size p) 0
add_bytes-IsCounted false size p = IsCounted-none p
add_bytes-IsCounted true size p = record {
  total = omega arith;
  checked = omega arith;
  linked = omega arith;
}

note_directory-IsCounted :
    (t : NodeType) (dry : Bool) (node : TreeNode) (path : String) (p : Progress)
    → IsCounted p (note_directory t dry node path p) 0
unfolding note_directory
note_directory-IsCounted directory false node path p = record {
  total = omega arith;
  checked = omega arith;
  linked = omega arith;
}
note_directory-IsCounted directory true node path p = IsCounted-none p
note_directory-IsCounted file dry node path p = IsCounted-none p
note_directory-IsCounted symlink dry node path p = IsCounted-none p

note_file-IsCounted :
    (t : NodeType) (dry : Bool) (target : Option String) (done : Bool) (name path : String)
    (p : Progress)
    → IsCounted p (note_file t dry target done name path p) 0
unfolding note_file
note_file-IsCounted file false none true name path p = record {
  total = omega arith;
  checked = omega arith;
  linked = omega arith;
}
note_file-IsCounted file false none false name path p = IsCounted-none p
note_file-IsCounted file false (some target) done name path p = IsCounted-none p
note_file-IsCounted file true target done name path p = IsCounted-none p
note_file-IsCounted directory dry target done name path p = IsCounted-none p
note_file-IsCounted symlink dry target done name path p = IsCounted-none p

count_result-IsCounted :
    (cmd : RestoreCommand) (node : TreeNode) (done link : Bool) (verified : Option Bool)
    (p : Progress)
    → (is_some node.hardlink_target && not cmd.no_hardlinks) ≡ link
    → IsCounted p (count_result cmd node done verified p) 1
unfolding count_result
count_result-IsCounted cmd node false link verified p e = record {
  total = omega arith;
  checked = omega arith;
  linked = omega arith;
}
count_result-IsCounted cmd node true false none p e =
    rw e (record { total = omega arith; checked = omega arith; linked = omega arith })
count_result-IsCounted cmd node true false (some true) p e =
    rw e (record { total = omega arith; checked = omega arith; linked = omega arith })
count_result-IsCounted cmd node true false (some false) p e =
    rw e (record { total = omega arith; checked = omega arith; linked = omega arith })
count_result-IsCounted cmd node true true none p e =
    rw e (record { total = omega arith; checked = omega arith; linked = omega arith })
count_result-IsCounted cmd node true true (some true) p e =
    rw e (record { total = omega arith; checked = omega arith; linked = omega arith })
count_result-IsCounted cmd node true true (some false) p e =
    rw e (record { total = omega arith; checked = omega arith; linked = omega arith })

skip_node-IsCounted : (node : TreeNode) (p : Progress) → IsCounted p (skip_node node p) 1
unfolding skip_node
skip_node-IsCounted node p =
    let skipped = record p { skipped_count = p.skipped_count + 1 } in
    IsCounted-trans p skipped _ 1 0
      (record { total = omega arith; checked = omega arith; linked = omega arith })
      (add_bytes-IsCounted (is_file node) node.size skipped)

length-place : (a : TreeNode) (bs : List TreeNode) → length (place a bs) ≡ suc (length bs)
unfolding place
length-place a [] = refl
length-place a (b ∷ bs) = ground (arith, length-place a bs)

length-sort_nodes : (nodes : List TreeNode) → length (sort_nodes nodes) ≡ length nodes
unfolding sort_nodes
length-sort_nodes [] = refl
length-sort_nodes (node ∷ nodes) =
    length-place node (sort_nodes nodes) ∙ ap suc (length-sort_nodes nodes)

module _ {S C F D : Type 0} ⦃b : Bloom F⦄ (crates : Crates S C) (files : FileSystem D)
    (cmd : RestoreCommand) where
  restore_next-IsCounted :
      (node_by_name : Map String TreeNode) (node : TreeNode) (path : String) (p q : Progress)
      (w w' : Repository S C F × D)
      → restore_next crates files cmd node_by_name node path p w ≡ (ok q, w')
      → IsCounted p q 1
  unfolding restore_next
  restore_next-IsCounted node_by_name node path p q w w' h =
      let tried =
        caught (result_of crates files cmd cmd.dry_run node_by_name p.restored_files node path w) in
      let (result, is₀, h₀) = resume-eq-ok tried.0 tried.1 _ h in
      let check =
        verify_if crates files cmd
          (is_some result && (cmd.verify && (is_file node && not cmd.dry_run))) node path tried.1 in
      let (verified, is₁, h₁) = resume-eq-ok check.0 check.1 _ h₀ in
      let p₁ = add_bytes (is_file node && cmd.dry_run) node.size p in
      let p₂ = note_directory node.node_type cmd.dry_run node path p₁ in
      let p₃ =
        note_file node.node_type cmd.dry_run node.hardlink_target (is_some result) node.name path
          p₂ in
      let p₄ = count_result cmd node (is_some result) verified p₃ in
      let p₅ = add_bytes (is_file node) node.size p₄ in
      let ended : p₅ ≡ q = ok-injective p₅ q (ap (λ run. run.0) h₁) in
      subst (λ x. IsCounted p x 1) ended
        (IsCounted-trans p p₁ p₅ 0 1 (add_bytes-IsCounted _ node.size p) (
          IsCounted-trans p₁ p₂ p₅ 0 1
            (note_directory-IsCounted node.node_type cmd.dry_run node path p₁)
            (IsCounted-trans p₂ p₃ p₅ 0 1
              (note_file-IsCounted node.node_type cmd.dry_run node.hardlink_target (is_some result)
                node.name path p₂)
              (IsCounted-trans p₃ p₄ p₅ 1 0
                (count_result-IsCounted cmd node (is_some result) _ verified p₃ refl)
                (add_bytes-IsCounted (is_file node) node.size p₄)))))

  restore_unless-IsCounted :
      (skipped : Bool) (node_by_name : Map String TreeNode) (node : TreeNode) (path : String)
      (p q : Progress) (w w' : Repository S C F × D)
      → restore_unless crates files cmd skipped node_by_name node path p w ≡ (ok q, w')
      → IsCounted p q 1
  restore_unless-IsCounted true node_by_name node path p q w w' h =
      subst (λ x. IsCounted p x 1) (ok-injective (skip_node node p) q (ap (λ run. run.0) h))
        (skip_node-IsCounted node p)
  restore_unless-IsCounted false node_by_name node path p q w w' h =
      restore_next-IsCounted node_by_name node path p q w w' h

  restore_nodes-IsCounted :
      (node_by_name : Map String TreeNode) (nodes : List TreeNode) (p q : Progress)
      (w w' : Repository S C F × D)
      → restore_nodes crates files cmd node_by_name nodes p w ≡ (ok q, w')
      → IsCounted p q (length nodes)
  unfolding restore_nodes
  restore_nodes-IsCounted node_by_name [] p q w w' h =
      subst (λ x. IsCounted p x 0) (ok-injective p q (ap (λ run. run.0) h)) (IsCounted-none p)
  restore_nodes-IsCounted node_by_name (node ∷ nodes) p q w w' h =
      let path = files.join cmd.target node.name in
      let skipped = files.exists_at path w.1 && (not cmd.overwrite && not cmd.dry_run) in
      let first = restore_unless crates files cmd skipped node_by_name node path p w in
      let (next, is, h₀) = resume-eq-ok first.0 first.1 _ h in
      let one_more : 1 + length nodes ≡ suc (length nodes) = omega arith in
      subst (IsCounted p q) one_more (
        IsCounted-trans p next q 1 (length nodes)
          (restore_unless-IsCounted skipped node_by_name node path p next w first.1
            (ap (λ o. (o, first.1)) is))
          (restore_nodes-IsCounted node_by_name nodes next q first.1 w' h₀))

  -- When a restore of the selected nodes ends without a panic, each of them has been counted once, as restored,
  -- skipped or failed; what was counted as verified or as failing its verification, and what was counted as a
  -- hard link, is no more than what was restored.
  pub restore_selected-IsCounted :
      (all nodes : List TreeNode) (p : Progress) (w w' : Repository S C F × D)
      → restore_selected crates files cmd all nodes w ≡ (ok p, w')
      → (p.restored_count + p.skipped_count + p.failed_count ≡ length nodes)
        × (p.verified_count + p.verify_failed_count ≤ p.restored_count)
        × (p.hardlinks_restored ≤ p.restored_count)
  unfolding restore_selected
  restore_selected-IsCounted all [] p w w' h =
      subst
        (λ x.
          (x.restored_count + x.skipped_count + x.failed_count ≡ 0)
          × (x.verified_count + x.verify_failed_count ≤ x.restored_count)
          × (x.hardlinks_restored ≤ x.restored_count))
        (ok-injective no_progress p (ap (λ run. run.0) h))
        ((omega arith), (omega arith), (omega arith))
  restore_selected-IsCounted all (node ∷ nodes) p w w' h =
      let sorted = sort_nodes (node ∷ nodes) in
      let first = restore_nodes crates files cmd (by_name all []) sorted no_progress w in
      let (q, is₀, h₀) = resume-eq-ok first.0 first.1 _ h in
      let timed =
        on_files (times_if files (not cmd.dry_run && not cmd.no_timestamps) q.directories)
          first.1 in
      let (u, is₁, h₁) = resume-eq-ok timed.0 timed.1 _ h₀ in
      let same : q ≡ p = ok-injective q p (ap (λ run. run.0) h₁) in
      let c =
        subst (λ x. IsCounted no_progress x (length sorted)) same
          (restore_nodes-IsCounted (by_name all []) sorted no_progress q w first.1
            (ap (λ o. (o, first.1)) is₀)) in
      let n = length-sort_nodes (node ∷ nodes) in
      (omega (arith, c.total, n), omega (arith, c.checked), omega (arith, c.linked))
