-- ===== src/Opfs/Commit/Atomic.antt =====
-- src/opfs-directory-store.ts: restores while the writes of a commit are under way.
use clawsembly_kernel.Prelude.{
  ℕ, zero, suc, ◌<◌, ◌≡◌, ◌≢◌, refl, sym, ap, subst, ◌∙◌, Option, none, some, List, [], ◌∷◌, ◌++◌,
  arith, All, length, take, ==_ne,
}
use mathlib.Core.Path.{fun_ext}
use clawsembly_kernel.Prelude.JsMap
use clawsembly_kernel.JsText.{Text}
use clawsembly_kernel.Opfs.{
  StoreError, Result, ok, err, ◌>>=◌, ◌>>◌, guard, validate_segment, validate_store_id,
  validate_subtree_root,
}
use clawsembly_kernel.Opfs.Disk.{
  Bytes, DiskPath, Disk, Handle, names_eq, get_directory, get_nested_directory, found, read_file,
  apply_writes, SnapshotHead, Platform, generations_directory, head_filename, store_root,
  stores_directory, generation_path, head_path,
}
use clawsembly_kernel.Opfs.Commit.{Children, Outcome, commit_directory_tree}
use clawsembly_kernel.Opfs.Restore.{
  parsed, restore_generation, is_head, restore_head, restore_bytes, restore_store,
  restore_directory_tree,
}
use clawsembly_kernel.Opfs.Commit.Plan.{AreBelow, IsPlan, commit-IsPlan}

-- Reads of a path that is not written.
pub get-apply_writes :
    (path : DiskPath) (writes : List (DiskPath × Bytes)) (disk : Disk)
    → All (λ w. w.0 ≢ path) writes
    → JsMap.get path (apply_writes writes disk) ≡ JsMap.get path disk
unfolding apply_writes
get-apply_writes path [] disk n = refl
get-apply_writes path ((p, bytes) ∷ writes) disk (here, later) =
    get-apply_writes path writes (JsMap.set p bytes disk) later
    ∙ JsMap.get-set p path bytes disk
    ∙ rw (==_ne p path here) refl

apart :
    (store_id generation_id : Text) (path : DiskPath) (writes : List (DiskPath × Bytes))
    → ((rest : DiskPath) → generation_path store_id generation_id rest ≢ path)
    → AreBelow store_id generation_id writes
    → All (λ w. w.0 ≢ path) writes
apart store_id generation_id path [] n h = tt
apart store_id generation_id path ((p, bytes) ∷ writes) n (b, h) =
    ((λ e. n b.rest (sym b.shape ∙ e)), apart store_id generation_id path writes n h)

-- The generation that HEAD names, if it can be read, is another one.
abbrev pub IsFreshGeneration : Platform → Text → Text → Disk → Type 0
IsFreshGeneration platform store_id generation_id disk =
    (bytes : Bytes) (head : SnapshotHead)
    → JsMap.get (head_path store_id) disk ≡ some bytes
    → platform.parse_head bytes ≡ some head
    → head.generation_id ≢ generation_id

two_down :
    (root : Handle) (a b : Text)
    → get_nested_directory root (a ∷ b ∷ [])
      ≡ (validate_segment a >> (validate_segment b >> ok (λ path. root (a ∷ b ∷ path))))
unfolding get_nested_directory get_directory
two_down root a b = ground (arith, validate_segment a, validate_segment b)

three_down :
    (root : Handle) (a b c : Text)
    → get_nested_directory root (a ∷ b ∷ c ∷ []) ≡ (
        validate_segment a
        >> (validate_segment b >> (validate_segment c >> ok (λ path. root (a ∷ b ∷ c ∷ path)))))
unfolding get_nested_directory get_directory
three_down root a b c = ground (arith, validate_segment a, validate_segment b, validate_segment c)

module _ (platform : Platform) (root_path store_id generation_id : Text)
    (writes : List (DiskPath × Bytes)) (disk : Disk)
    (below : AreBelow store_id generation_id writes) where
  abbrev store_of : Disk → Handle
  store_of d path = JsMap.get (store_root ∷ stores_directory ∷ store_id ∷ path) d

  head_kept :
      JsMap.get (head_path store_id) (apply_writes writes disk)
      ≡ JsMap.get (head_path store_id) disk
  head_kept =
      get-apply_writes (head_path store_id) writes disk
        (apart store_id generation_id _ writes (λ rest e. cc) below)

  restore_head_kept :
      (head : SnapshotHead)
      → head.generation_id ≢ generation_id
      → restore_head platform root_path store_id (store_of (apply_writes writes disk)) head
        ≡ restore_head platform root_path store_id (store_of disk) head
  unfolding restore_head
  restore_head_kept head other = simp two_down (
      ap
        (λ handle.
          guard (is_head head) StoreError.invalid_head
          >> (validate_segment generations_directory
              >> (validate_segment head.generation_id >> ok handle)
              >>= restore_generation platform root_path store_id head))
        (fun_ext same))
    where
      same :
          (path : DiskPath)
          → store_of (apply_writes writes disk) (generations_directory ∷ head.generation_id ∷ path)
            ≡ store_of disk (generations_directory ∷ head.generation_id ∷ path)
      same path =
          get-apply_writes (generation_path store_id head.generation_id path) writes disk
            (apart store_id generation_id _ writes (λ rest e. other (cc)) below)

  module _ (fresh : IsFreshGeneration platform store_id generation_id disk) where
    restore_bytes_kept :
        (bytes : Bytes)
        → JsMap.get (head_path store_id) disk ≡ some bytes
        → restore_bytes platform root_path store_id (store_of (apply_writes writes disk)) bytes
          ≡ restore_bytes platform root_path store_id (store_of disk) bytes
    unfolding restore_bytes
    restore_bytes_kept bytes e = by_head (platform.parse_head bytes) refl
      where
        by_head :
            (o : Option SnapshotHead)
            → platform.parse_head bytes ≡ o
            → (parsed o
                >>= restore_head platform root_path store_id (store_of (apply_writes writes disk)))
              ≡ (parsed o >>= restore_head platform root_path store_id (store_of disk))
        by_head none p = refl
        by_head (some head) p = restore_head_kept head (fresh bytes head e p)

    restore_store_kept :
        restore_store platform root_path store_id (store_of (apply_writes writes disk))
        ≡ restore_store platform root_path store_id (store_of disk)
    unfolding restore_store read_file
    restore_store_kept =
        ap
          (λ o.
            (validate_segment head_filename >> found o)
            >>= restore_bytes platform root_path store_id (store_of (apply_writes writes disk)))
          head_kept
        ∙ by_bytes (validate_segment head_filename) _ refl
      where
        by_bytes :
            (valid : Result (Unit {0})) (o : Option Bytes)
            → JsMap.get (head_path store_id) disk ≡ o
            → ((valid >> found o)
                >>= restore_bytes platform root_path store_id (store_of (apply_writes writes disk)))
              ≡ ((valid >> found o) >>= restore_bytes platform root_path store_id (store_of disk))
        by_bytes (err e) o h = refl
        by_bytes (ok _) none e = refl
        by_bytes (ok _) (some bytes) e = restore_bytes_kept bytes e

    restore_opened_kept :
        (a b c : Result (Unit {0}))
        → ((a >> (b >> (c >> ok (store_of (apply_writes writes disk)))))
            >>= restore_store platform root_path store_id)
          ≡ ((a >> (b >> (c >> ok (store_of disk)))) >>= restore_store platform root_path store_id)
    restore_opened_kept (err e) b c = refl
    restore_opened_kept (ok _) (err e) c = refl
    restore_opened_kept (ok _) (ok _) (err e) = refl
    restore_opened_kept (ok _) (ok _) (ok _) = restore_store_kept

    pub restore_kept :
        restore_directory_tree platform root_path store_id (apply_writes writes disk)
        ≡ restore_directory_tree platform root_path store_id disk
    unfolding restore_directory_tree
    restore_kept = simp three_down (
        ap (λ r. validate_subtree_root root_path >> (validate_store_id store_id >> r))
          (restore_opened_kept (validate_segment store_root) (validate_segment stores_directory)
            (validate_segment store_id)))

AreBelow-take :
    (store_id generation_id : Text) (k : ℕ) (writes : List (DiskPath × Bytes))
    → AreBelow store_id generation_id writes
    → AreBelow store_id generation_id (take k writes)
AreBelow-take store_id generation_id zero writes h = tt
AreBelow-take store_id generation_id (suc k) [] h = tt
AreBelow-take store_id generation_id (suc k) (w ∷ writes) (b, h) =
    (b, AreBelow-take store_id generation_id k writes h)

take-snoc :
    (k : ℕ) (earlier : List (DiskPath × Bytes)) (last : DiskPath × Bytes)
    → k < length (earlier ++ last ∷ [])
    → take k (earlier ++ last ∷ []) ≡ take k earlier
take-snoc zero earlier last h = refl
take-snoc (suc k) [] last h = absurd (omega arith)
take-snoc (suc k) (w ∷ earlier) last h = ap (◌∷◌ w) (take-snoc k earlier last (omega arith))

module _ (platform : Platform) (store_id generation_id : Text) where
  stopped-AreBelow :
      (o : Outcome) (k : ℕ)
      → IsPlan store_id generation_id platform o
      → k < length o.0.writes
      → AreBelow store_id generation_id (take k o.0.writes)
  stopped-AreBelow (w, err e) k h l = AreBelow-take store_id generation_id k w.writes h
  stopped-AreBelow (w, ok _) k (earlier, bytes, shape, h) l =
      subst (AreBelow store_id generation_id)
        (sym (ap (take k) shape ∙ take-snoc k earlier _ (subst (λ ws. k < length ws) shape l)))
        (AreBelow-take store_id generation_id k earlier h)

-- A commit that stops before its last write, for whatever reason, leaves what a restore gives as it
-- was: if the generation that HEAD names, where it can be read, is not the new one, then a restore
-- after the first `k` writes, fewer than all, gives what it gave before.
pub restore-stopped_commit :
    (platform : Platform) (tree : Children) (root_path store_id generation_id created_at : Text)
    (disk : Disk) (k : ℕ)
    → IsFreshGeneration platform store_id generation_id disk
    → k
      < length
          (commit_directory_tree platform tree root_path store_id generation_id created_at).0.writes
    → restore_directory_tree platform root_path store_id (
        apply_writes
          (take k
            (commit_directory_tree platform tree root_path store_id generation_id
              created_at).0.writes)
          disk)
      ≡ restore_directory_tree platform root_path store_id disk
restore-stopped_commit platform tree root_path store_id generation_id created_at disk k fresh l =
    restore_kept platform root_path store_id generation_id _ disk
      (stopped-AreBelow platform store_id generation_id
        (commit_directory_tree platform tree root_path store_id generation_id created_at) k
        (commit-IsPlan store_id generation_id platform tree root_path created_at) l)
      fresh
