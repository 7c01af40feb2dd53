-- ===== src/Opfs/Commit/Plan.antt =====
-- src/opfs-directory-store.ts: the order of the writes of a commit.
use clawsembly_kernel.Prelude.{
  ◌+◌, ◌≡◌, refl, ap, List, [], ◌∷◌, ◌++◌, All, length, codes, ltb, leb,
}
use clawsembly_kernel.JsText.{Text}
use clawsembly_kernel.Opfs.{
  max_files, max_payload_bytes, entry_limit, file_limit, payload_limit, source_failure, Result, ok,
  err, guard, validate_segment, validate_store_id, validate_subtree_root, relative_child,
  SnapshotManifest,
}
use clawsembly_kernel.Opfs.Disk.{
  Bytes, DiskPath, names_eq, Platform, payload_directory, manifest_filename, generation_path,
  head_path,
}
use clawsembly_kernel.Opfs.Commit.{
  Node, Children, file, dir, unreadable, unknown, nil, unlisted, child, Work, Outcome, then_do,
  check, add_directory, store_file, count_file, add_file, push_directory, visit, visit_node,
  manifest_of, head_of, write_manifest_and_head, publish, empty_work, commit_valid,
  commit_directory_tree,
}

module _ (store_id generation_id : Text) where
  -- A path in the directory of the generation.
  pub record IsBelow (path : DiskPath) : Type 0 where
    pub rest : DiskPath
    pub shape : path ≡ generation_path store_id generation_id rest

  abbrev pub AreBelow : List (DiskPath × Bytes) → Type 0
  AreBelow = All (λ w. IsBelow w.0)

  AreBelow-snoc :
      (writes : List (DiskPath × Bytes)) (path : DiskPath) (bytes : Bytes)
      → AreBelow writes
      → IsBelow path
      → AreBelow (writes ++ (path, bytes) ∷ [])
  AreBelow-snoc [] path bytes h b = (b, tt)
  AreBelow-snoc (w ∷ writes) path bytes (x, h) b = (x, AreBelow-snoc writes path bytes h b)

  IsBelow-append : (path : DiskPath) (name : Text) → IsBelow path → IsBelow (path ++ name ∷ [])
  IsBelow-append path name b = record {
    rest = b.rest ++ name ∷ [];
    shape = ap (λ p. p ++ name ∷ []) b.shape;
  }

  check-AreBelow :
      (r : Result (Unit {0})) (w : Work) (k : Work → Outcome)
      → AreBelow w.writes
      → ((v : Work) → AreBelow v.writes → AreBelow (k v).0.writes)
      → AreBelow (check r w k).0.writes
  check-AreBelow (ok _) w k h f = f w h
  check-AreBelow (err e) w k h f = h

  then_do-AreBelow :
      (o : Outcome) (k : Work → Outcome)
      → AreBelow o.0.writes
      → ((v : Work) → AreBelow v.writes → AreBelow (k v).0.writes)
      → AreBelow (then_do o k).0.writes
  then_do-AreBelow (w, ok _) k h f = f w h
  then_do-AreBelow (w, err e) k h f = h

  module _ (platform : Platform) where
    add_file-AreBelow :
        (relative : Text) (path : DiskPath) (bytes : Bytes) (w : Work)
        → IsBelow path
        → AreBelow w.writes
        → AreBelow (add_file platform relative path bytes w).0.writes
    unfolding add_file count_file store_file
    add_file-AreBelow relative path bytes w b h =
        check-AreBelow (guard (ltb (length w.files) max_files) file_limit) w
          (count_file platform relative path bytes) h
          λ v hv.
            check-AreBelow
              (guard (leb (v.payload_bytes + length bytes) max_payload_bytes) payload_limit)
              (record v { payload_bytes = v.payload_bytes + length bytes })
              (store_file platform relative path bytes) hv
              λ u hu. AreBelow-snoc u.writes path bytes hu b

    add_directory-AreBelow :
        (relative : Text) (w : Work)
        → AreBelow w.writes
        → AreBelow (add_directory platform relative w).0.writes
    unfolding add_directory
    add_directory-AreBelow relative w h =
        check-AreBelow (guard (ltb (length w.directories + length w.files) max_files) entry_limit) w
          (push_directory relative) h (λ v hv. hv)

    mutual
      unfolding visit visit_node

      visit-AreBelow :
          (cs : Children) (relative : Text) (path : DiskPath) (w : Work)
          → IsBelow path
          → AreBelow w.writes
          → AreBelow (visit platform cs relative path w).0.writes
      visit-AreBelow nil relative path w b h = h
      visit-AreBelow unlisted relative path w b h = h
      visit-AreBelow (child name node rest) relative path w b h =
          check-AreBelow (validate_segment name) w
            (λ v.
              then_do
                (visit_node platform node (relative_child relative name) (path ++ name ∷ []) v)
                (visit platform rest relative path))
            h
            λ v hv.
              then_do-AreBelow
                (visit_node platform node (relative_child relative name) (path ++ name ∷ []) v)
                (visit platform rest relative path)
                (visit_node-AreBelow node (relative_child relative name) (path ++ name ∷ []) v
                  (IsBelow-append path name b) hv)
                λ u hu. visit-AreBelow rest relative path u b hu

      visit_node-AreBelow :
          (node : Node) (relative : Text) (path : DiskPath) (w : Work)
          → IsBelow path
          → AreBelow w.writes
          → AreBelow (visit_node platform node relative path w).0.writes
      visit_node-AreBelow (file bytes) relative path w b h =
          add_file-AreBelow relative path bytes w b h
      visit_node-AreBelow (dir cs) relative path w b h =
          then_do-AreBelow (add_directory platform relative w) (visit platform cs relative path)
            (add_directory-AreBelow relative w h) λ u hu. visit-AreBelow cs relative path u b hu
      visit_node-AreBelow unreadable relative path w b h =
          check-AreBelow (guard (ltb (length w.files) max_files) file_limit) w
            (λ v. (v, err source_failure)) h (λ v hv. hv)
      visit_node-AreBelow unknown relative path w b h = h

    -- A commit that succeeds writes HEAD last; all other writes are below its generation.
    abbrev pub IsPlan : Outcome → Type 0
    IsPlan (w, err e) = AreBelow w.writes
    IsPlan (w, ok _) =
        (earlier : List (DiskPath × Bytes)) × (bytes : Bytes) × (w.writes
          ≡ earlier ++ (head_path store_id, bytes) ∷ [])
        × AreBelow earlier

    check-IsPlan :
        (r : Result (Unit {0})) (w : Work) (k : Work → Outcome)
        → AreBelow w.writes
        → IsPlan (k w)
        → IsPlan (check r w k)
    check-IsPlan (ok _) w k h p = p
    check-IsPlan (err e) w k h p = h

    then_do-IsPlan :
        (o : Outcome) (k : Work → Outcome)
        → AreBelow o.0.writes
        → ((v : Work) → AreBelow v.writes → IsPlan (k v))
        → IsPlan (then_do o k)
    then_do-IsPlan (w, ok _) k h f = f w h
    then_do-IsPlan (w, err e) k h f = h

    publish-IsPlan :
        (manifest : SnapshotManifest) (w : Work)
        → AreBelow w.writes
        → IsPlan (publish platform store_id generation_id manifest w)
    unfolding publish write_manifest_and_head
    publish-IsPlan manifest w h =
        check-IsPlan _ w (write_manifest_and_head platform store_id generation_id manifest) h (
          w.writes
              ++ (
                generation_path store_id generation_id (manifest_filename ∷ []),
                platform.manifest_bytes manifest,
              )
                ∷ [],
          platform.head_bytes (head_of platform generation_id manifest),
          refl,
          AreBelow-snoc w.writes _ (platform.manifest_bytes manifest) h
              (record { rest = manifest_filename ∷ []; shape = refl }),
        )

    commit_valid-IsPlan :
        (tree : Children) (root_path created_at : Text)
        → IsPlan (commit_valid platform tree root_path store_id generation_id created_at empty_work)
    unfolding commit_valid
    commit_valid-IsPlan tree root_path created_at =
        let payload = generation_path store_id generation_id (payload_directory ∷ []) in
        then_do-IsPlan (visit platform tree (codes "/") payload empty_work)
          (λ w.
            publish platform store_id generation_id
              (manifest_of store_id generation_id root_path created_at w) w)
          (visit-AreBelow tree (codes "/") payload empty_work
            (record { rest = payload_directory ∷ []; shape = refl }) tt)
          λ w h. publish-IsPlan (manifest_of store_id generation_id root_path created_at w) w h

    pub commit-IsPlan :
        (tree : Children) (root_path created_at : Text)
        → IsPlan (commit_directory_tree platform tree root_path store_id generation_id created_at)
    unfolding commit_directory_tree
    commit-IsPlan tree root_path created_at =
        let valid = commit_valid platform tree root_path store_id generation_id created_at in
        check-IsPlan (validate_subtree_root root_path) empty_work
          (λ v. check (validate_store_id store_id) v valid) tt
          (check-IsPlan (validate_store_id store_id) empty_work valid tt
            (commit_valid-IsPlan tree root_path created_at))
