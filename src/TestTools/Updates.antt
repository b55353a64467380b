-- ===== src/TestTools/Updates.antt =====
-- The proofs on a snapshot that is updated and then compared.
use Prim.Native.Char.{code}
use flagsmith_common.Base.{
  ◌≡◌, refl, ap, inl, inr, Bool, true, false, String, some, ◌==◌, Bool-cases, arith, if◌then◌else◌,
  str_eq, eq_refl,
}
use flagsmith_common.Base.Text.{concat, contains, starts_with, str_eq-≡}
use flagsmith_common.Base.Sets.{member, add}
use flagsmith_common.Base.Dict.{find, put, find-put}
use flagsmith_common.TestTools.Snapshots.{
  Disk, universal_newlines, text, answer, xfail, Request, write_text, init_snapshot, eq,
  snapshot_dir, snapshot_path, make_snapshot_dir, compare_snapshot,
}

-- The text has no carriage return.
abbrev pub HasNoReturn : String → Type 0
HasNoReturn t = contains "\r" t ≡ false

tail-HasNoReturn :
    (c : Prim.Native.Char.Char) (s : String)
    → HasNoReturn (String.◌∷◌ c s)
    → ((code c == 13) ≡ false) × HasNoReturn s
unfolding contains starts_with
tail-HasNoReturn c s h = ground arith

universal_newlines-same : (t : String) → HasNoReturn t → universal_newlines t ≡ t
unfolding universal_newlines
universal_newlines-same String.[] h = refl
universal_newlines-same (String.◌∷◌ c String.[]) h = rw (tail-HasNoReturn c "" h).0 refl
universal_newlines-same (String.◌∷◌ c (String.◌∷◌ d s)) h =
    let (e, rest) = tail-HasNoReturn c (String.◌∷◌ d s) h in
    rw (e, universal_newlines-same (String.◌∷◌ d s) rest) refl

module _ (join : String → String → String) (parent : String → String) (name : String)
    (t : String) where
  abbrev of_mode : Request → Bool → Request
  of_mode request update = record request { snapshot_update = update }

  abbrev path_of : Request → String
  path_of request = snapshot_path join parent request name

  abbrev made : Request → Disk → Disk
  made request disk = make_snapshot_dir join parent request disk

  -- The disk after a comparison in update mode.
  abbrev updated_disk : Request → Disk → Disk
  updated_disk request disk = record (made request disk) {
    files =
        if str_eq "" t
        then put (path_of request) "" disk.files
        else put (path_of request) t (put (path_of request) "" disk.files);
  }

  update_lem :
      (request : Request) (disk : Disk)
      → member str_eq (parent (path_of request)) (made request disk).directories ≡ true
      → compare_snapshot join parent (of_mode request true) name (text t) disk ≡ (
        (if str_eq "" t
            then answer true
            else xfail (concat "Snapshot updated: " (path_of request))),
        updated_disk request disk,
      )
  unfolding compare_snapshot init_snapshot eq write_text
  update_lem request disk exists = elim (Bool-cases (str_eq "" t)) [
    | inl e ↦ rw (compare_snapshot, init_snapshot, write_text, exists, e) refl
    | inr e ↦ rw (compare_snapshot, init_snapshot, write_text, exists, eq, e, exists) refl
  ]

  found :
      (request : Request) (disk : Disk)
      → find (path_of request) (updated_disk request disk).files ≡ some t
  found request disk = elim (Bool-cases (str_eq "" t)) [
    | inl e ↦
        rw
          (e, find-put (path_of request) (path_of request) "" disk.files, eq_refl (path_of request))
          (ap some (str_eq-≡ "" t e))
    | inr e ↦
        rw
          (
            e,
            find-put (path_of request) (path_of request) t (put (path_of request) "" disk.files),
            eq_refl (path_of request),
          )
          refl
  ]

  kept :
      (request : Request) (disk : Disk) (other : String)
      → str_eq (path_of request) other ≡ false
      → find other (updated_disk request disk).files ≡ find other disk.files
  kept request disk other d = elim (Bool-cases (str_eq "" t)) [
    | inl e ↦ rw (e, find-put other (path_of request) "" disk.files, d) refl
    | inr e ↦
        rw
          (
            e,
            find-put other (path_of request) t (put (path_of request) "" disk.files),
            d,
            find-put other (path_of request) "" disk.files,
            d,
          )
          refl
  ]

  compare_lem :
      (request : Request) (disk : Disk)
      → HasNoReturn t
      → find (path_of request) disk.files ≡ some t
      → (compare_snapshot join parent (of_mode request false) name (text t) disk).0 ≡ answer true
  unfolding compare_snapshot init_snapshot eq
  compare_lem request disk no_return e =
      rw (compare_snapshot, init_snapshot, e, eq, universal_newlines-same t no_return, eq_refl t)
        refl

  -- A test that compares a text in update mode leaves a snapshot from which a run without update mode passes
  -- with this text, if the directory of the snapshot exists and the text has no carriage return. The test
  -- itself is expected to fail, whatever the snapshot was before, unless the text is empty; and no other file
  -- changes.
  pub compare_snapshot-compare_snapshot :
      (request : Request) (disk : Disk)
      → HasNoReturn t
      → member str_eq
          (parent (snapshot_path join parent request name))
          (add str_eq (snapshot_dir join parent request) disk.directories)
        ≡ true
      → let updated = compare_snapshot join parent (of_mode request true) name (text t) disk in
        (updated.0 ≡ (
          if str_eq "" t
          then answer true
          else xfail (concat "Snapshot updated: " (snapshot_path join parent request name))))
        × ((compare_snapshot join parent (of_mode request false) name (text t) updated.1).0
            ≡ answer true)
        × ((other : String)
            → str_eq (snapshot_path join parent request name) other ≡ false
            → find other updated.1.files ≡ find other disk.files)
  compare_snapshot-compare_snapshot request disk no_return exists =
      let updated = update_lem request disk exists in
      rw updated (
        refl,
        compare_lem request (updated_disk request disk) no_return (found request disk),
        kept request disk,
      )
