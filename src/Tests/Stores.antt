-- ===== src/Tests/Stores.antt =====
-- A storage of objects by path, and a cache of one entry.
use ghostsnap.Prelude.{
  ℕ, String, is_some, list_eq, ◌≡◌, refl, ◌==◌, string_eq, Option, none, some, List, [], ◌∷◌,
  length, arith, Map, lookup, insert, remove, lookup-insert, lookup-remove, if◌then◌else◌,
}
use ghostsnap.Errors.{Error, ok, err, ok_or}
use ghostsnap.Foreign.{Bytes}
use ghostsnap.Types.{PackId}
use ghostsnap.Pack.{PackFile}
use ghostsnap.PackCache.{LruCache}
use ghostsnap.Storage.{RepositoryStorage}

-- Objects by path; a deletion or a write always succeeds.
abbrev pub map_storage : RepositoryStorage (Map String Bytes)
map_storage = record {
  init = λ s. (ok tt, s);
  exists_at = λ path s. ok (is_some (lookup path s));
  read = λ path s. ok_or (lookup path s) (Error.io "not found");
  write = λ path bytes s. (ok tt, insert path bytes s);
  delete = λ path s. (ok tt, remove path s);
  list = λ prefix s. ok [];
  metadata_size = λ path s. elim (lookup path s) [
    | none ↦ err (Error.io "not found")
    | some bytes ↦ ok (length bytes)
  ];
  read-write_same = λ path bytes s h.
      rw (lookup-insert path path bytes s) (ground (arith, string_eq.beq_iff path path));
  read-write_other = λ path other bytes s apart.
      rw (lookup-insert path other bytes s) (ground (arith, string_eq.beq_iff path other, apart));
  read-delete_other = λ path other s apart.
      rw (lookup-remove path other s) (ground (arith, string_eq.beq_iff path other, apart));
}

abbrev pub Slot : Type 0
Slot = Option (PackId × PackFile)

abbrev pub peek_slot : PackId → Slot → Option PackFile
peek_slot k none = none
peek_slot k (some (j, p)) = if j == k then some p else none

abbrev pub pop_slot : PackId → Slot → Slot
pop_slot k none = none
pop_slot k (some (j, p)) = if j == k then none else some (j, p)

abbrev pub slot_len : Slot → ℕ
slot_len none = 0
slot_len (some x) = 1

pub peek-pop_slot_self : (k : PackId) (c : Slot) → peek_slot k (pop_slot k c) ≡ none
peek-pop_slot_self k none = refl
peek-pop_slot_self k (some (j, p)) = ground arith

pub peek-pop_slot :
    (k j : PackId) (q : PackFile) (c : Slot)
    → peek_slot j (pop_slot k c) ≡ some q
    → peek_slot j c ≡ some q
peek-pop_slot k j q none h = h
peek-pop_slot k j q (some (i, p)) h = ground arith

abbrev pub slot_entries : Slot → List (PackId × PackFile)
slot_entries none = []
slot_entries (some x) = x ∷ []

pub slot_len-entries : (c : Slot) → slot_len c ≡ length (slot_entries c)
slot_len-entries none = refl
slot_len-entries (some x) = refl

pub slot_entries-pop :
    (c : Slot) (oldest : PackId × PackFile) (rest : List (PackId × PackFile))
    → slot_entries c ≡ oldest ∷ rest
    → (c ≡ some oldest) × ([] ≡ rest)
slot_entries-pop none oldest rest h = cc
slot_entries-pop (some x) oldest rest h = (cc, cc)

-- A cache of one entry.
abbrev pub slot_cache : LruCache Slot
slot_cache = record {
  peek = peek_slot;
  get = λ k c. (peek_slot k c, c);
  put = λ k p c. some (k, p);
  pop = λ k c. (peek_slot k c, pop_slot k c);
  pop_lru = λ c. (c, none);
  len = slot_len;
  get_value = λ k c. refl;
  peek-get = λ k j c. refl;
  peek-put_self = λ k p c. ground (arith, string_eq.beq_iff k k);
  peek-put_other = λ k j p q c apart h. ground (arith, string_eq.beq_iff k j, apart, h);
  peek-pop_self = peek-pop_slot_self;
  peek-pop_other = peek-pop_slot;
  peek-pop_lru = λ j q c h. cc;
  entries = slot_entries;
  len-entries = slot_len-entries;
  pop_lru-entries = slot_entries-pop;
}
