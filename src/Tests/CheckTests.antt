-- ===== src/Tests/CheckTests.antt =====
-- The check of a repository, and its verification, at the repository of ObjectsTests.
use ghostsnap.Prelude.{String, ◌≡◌, refl, true, false, set_insert, list_eq, string_eq, none, List}
use ghostsnap.Errors.{ok}
use ghostsnap.Types.{to_hex}
use ghostsnap.Crypto.{decrypt}
use ghostsnap.Index
use ghostsnap.Index.{Index}
use ghostsnap.Snapshot.Encoding.{deserialize_tree, deserialize_snapshot}
use ghostsnap.Storage.{pack_path}
use ghostsnap.Repository.{encryptor_of}
use ghostsnap.Repository.Objects.{load_tree, load_snapshot, list_packs, list_snapshots, pack_exists}
use ghostsnap.Repository.Garbage.{insert_nodes}
use ghostsnap.Repository.Coherence.{IsCoherent}
use ghostsnap.Repository.Verify.{verify, verify-true}
use ghostsnap.Check.{
  run, snapshots_to_check, check_snapshots, check_snapshot, check_trees, missing_chunks,
  missing_packs, referenced_packs, check_packs, find_packs,
}
use ghostsnap.Check.Soundness.{IsSound, run-IsSound}
use ghostsnap.Tests.Crates.{sample_value, print}
use ghostsnap.Tests.ObjectsTests.{bloom, snapshots, trees, start, crates}

start-IsCoherent : IsCoherent crates start
start-IsCoherent = record { cached = λ id p h. cc }

-- Without the data, the check finds nothing wrong: the snapshot and its tree are read, its chunk has an
-- entry, and both packs are there.
ran : run crates snapshots trees (λ ids. ids) none false start ≡ (ok tt, start)
unfolding run snapshots_to_check list_snapshots check_snapshots check_snapshot check_trees
    missing_chunks list_packs missing_packs referenced_packs check_packs find_packs pack_exists
    load_snapshot load_tree deserialize_snapshot deserialize_tree decrypt sample_value to_hex
    pack_path print encryptor_of insert_nodes set_insert Index.has_chunk Index.get_chunk
ran = refl

run-IsSound_example :
    (ids : List String) × (packs : List String) × (snapshots_to_check crates none (λ ids. ids) start
      ≡ (ok ids, start))
    × IsSound crates snapshots trees false ids packs start
run-IsSound_example =
    run-IsSound crates snapshots trees (λ ids. ids) none false start start start-IsCoherent ran

verify-true_example :
    verify crates snapshots (λ ids. ids) true start
    ≡ verify crates snapshots (λ ids. ids) false start
verify-true_example = verify-true crates snapshots (λ ids. ids) start start-IsCoherent
