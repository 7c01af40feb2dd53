-- ===== src/Opfs/Commit/Interrupted.antt =====
-- src/opfs-directory-store.ts: restores after a commit one of whose writes has thrown.
use clawsembly_kernel.Prelude.{
  ℕ, zero, suc, ◌≤◌, ◌<◌, ◌≡◌, ◌≢◌, refl, sym, ap, subst, ◌∙◌, Option, none, some, List, [], ◌∷◌,
  ◌++◌, arith, length, length-append, append-nil,
}
use clawsembly_kernel.Prelude.JsMap
use clawsembly_kernel.JsText.{Text}
use clawsembly_kernel.Opfs.{ok, err}
use clawsembly_kernel.Opfs.Disk.{
  Bytes, DiskPath, Disk, names_eq, apply_writes, fail_write, interrupted, Platform, generation_path,
  head_path,
}
use clawsembly_kernel.Opfs.Commit.{Children, Outcome, commit_directory_tree}
use clawsembly_kernel.Opfs.Restore.{restore_directory_tree}
use clawsembly_kernel.Opfs.Commit.Plan.{IsBelow, AreBelow, IsPlan, commit-IsPlan}
use clawsembly_kernel.Opfs.Commit.Atomic.{IsFreshGeneration, restore_kept, get-apply_writes}

module _ (store_id generation_id : Text) where
  abbrev HasHead : Disk → Type 0
  HasHead disk = (bytes : Bytes) × (JsMap.get (head_path store_id) disk ≡ some bytes)

  -- A disk that differs from this one by files of the generation.
  abbrev IsAside : Disk → Disk → Type 0
  IsAside disk after =
      (writes : List (DiskPath × Bytes)) × AreBelow store_id generation_id writes
      × (after ≡ apply_writes writes disk)

  fail_write-IsAside :
      (disk : Disk) (path : DiskPath) (bytes : Bytes)
      → AreBelow store_id generation_id ((path, bytes) ∷ [])
      → IsAside disk (fail_write path disk)
  unfolding fail_write apply_writes
  fail_write-IsAside disk path bytes (b, _) = by_get (JsMap.get path disk)
    where
      by_get :
          (o : Option Bytes)
          → IsAside disk (elim o [ none ↦ JsMap.set path [] disk | some bytes ↦ disk ])
      by_get none = ((path, []) ∷ [], (b, tt), refl)
      by_get (some bytes) = ([], tt, refl)

  head_apart : (path : DiskPath) → IsBelow store_id generation_id path → path ≢ head_path store_id
  head_apart path b e =
      let shape : path ≡ generation_path store_id generation_id b.rest = b.shape in
      let same = sym shape ∙ e in cc

  interrupted-IsAside :
      (earlier tail : List (DiskPath × Bytes)) (k : ℕ) (disk : Disk)
      → ((d : Disk) → HasHead d → interrupted 0 tail d ≡ d)
      → k ≤ length earlier
      → AreBelow store_id generation_id earlier
      → HasHead disk
      → IsAside disk (interrupted k (earlier ++ tail) disk)
  unfolding interrupted apply_writes
  interrupted-IsAside [] tail zero disk last l h head = ([], tt, last disk head)
  interrupted-IsAside [] tail (suc k) disk last l h head = absurd (omega (arith, l))
  interrupted-IsAside ((path, bytes) ∷ earlier) tail zero disk last l (b, h) head =
      fail_write-IsAside disk path bytes (b, tt)
  interrupted-IsAside ((path, bytes) ∷ earlier) tail (suc k) disk last l (b, h) (held, found) =
      let still : HasHead (JsMap.set path bytes disk) = (
        held,
        get-apply_writes (head_path store_id) ((path, bytes) ∷ []) disk (head_apart path b, tt)
            ∙ found,
      ) in
      let (writes, below, same) =
        interrupted-IsAside earlier tail k (JsMap.set path bytes disk) last (omega (arith, l)) h
          still in
      ((path, bytes) ∷ writes, (b, below), same)

  last_write :
      (bytes : Bytes) (d : Disk)
      → HasHead d
      → interrupted 0 ((head_path store_id, bytes) ∷ []) d ≡ d
  unfolding interrupted fail_write
  last_write bytes d (held, found) =
      ap (λ o. elim o [ none ↦ JsMap.set (head_path store_id) [] d | some b ↦ d ]) found

  plan-IsAside :
      (platform : Platform) (o : Outcome) (k : ℕ) (disk : Disk)
      → IsPlan store_id generation_id platform o
      → k < length o.0.writes
      → HasHead disk
      → IsAside disk (interrupted k o.0.writes disk)
  unfolding interrupted
  plan-IsAside platform (w, err e) k disk h l head =
      subst (λ ws. IsAside disk (interrupted k ws disk)) (append-nil w.writes)
        (interrupted-IsAside w.writes [] k disk no_write (omega (arith, l)) h head)
    where
      no_write : (d : Disk) → HasHead d → interrupted 0 [] d ≡ d
      no_write d h = refl
  plan-IsAside platform (w, ok _) k disk (earlier, bytes, shape, h) l head =
      subst (λ ws. IsAside disk (interrupted k ws disk)) (sym shape)
        (interrupted-IsAside earlier ((head_path store_id, bytes) ∷ []) k disk (last_write bytes)
          (short earlier (subst (λ ws. k < length ws) shape l)) h head)
    where
      short :
          (earlier : List (DiskPath × Bytes))
          → k < length (earlier ++ (head_path store_id, bytes) ∷ [])
          → k ≤ length earlier
      short earlier l =
          let n = length-append earlier ((head_path store_id, bytes) ∷ []) in omega (arith, l, n)

-- Where a commit has been made before, so that there is a HEAD, a commit one of whose writes throws,
-- that of HEAD itself too, leaves what a restore gives as it was, although an empty file may stay:
-- if the generation that HEAD names, where it can be read, is not the new one.
pub restore-interrupted_commit :
    (platform : Platform) (tree : Children) (root_path store_id generation_id created_at : Text)
    (disk : Disk) (k : ℕ) (held : Bytes)
    → IsFreshGeneration platform store_id generation_id disk
    → JsMap.get (head_path store_id) disk ≡ some held
    → k
      < length
          (commit_directory_tree platform tree root_path store_id generation_id created_at).0.writes
    → restore_directory_tree platform root_path store_id (
        interrupted k
          (commit_directory_tree platform tree root_path store_id generation_id created_at).0.writes
          disk)
      ≡ restore_directory_tree platform root_path store_id disk
restore-interrupted_commit platform tree root_path store_id generation_id created_at disk k held
      fresh found l =
    let (writes, below, same) =
      plan-IsAside store_id generation_id platform
        (commit_directory_tree platform tree root_path store_id generation_id created_at) k disk
        (commit-IsPlan store_id generation_id platform tree root_path created_at) l (held, found) in
    ap (restore_directory_tree platform root_path store_id) same
    ∙ restore_kept platform root_path store_id generation_id writes disk below fresh
