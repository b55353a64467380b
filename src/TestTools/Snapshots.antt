-- ===== src/TestTools/Snapshots.antt =====
-- Snapshot of common/test_tools/types.py, and the fixture snapshot of plugin.py. The paths of pathlib are
-- parameters: `join` for `/`, and `parent`.
use Prim.Native.Char.{code}
use flagsmith_common.Base.{
  Bool, true, false, String, Option, none, some, List, ◌==◌, if◌then◌else◌, str_eq,
}
use flagsmith_common.Base.Text.{concat}
use flagsmith_common.Base.Sets.{member, add}
use flagsmith_common.Base.Dict.{Dict, find, put}

pub record Disk : Type 0 where
  pub directories : List String
  pub files : Dict String

-- What a file that is opened as text yields for its contents: "\r\n" and "\r" are read as "\n".
unfoldable pub universal_newlines : String → String
unfolding concat
universal_newlines String.[] = ""
universal_newlines (String.◌∷◌ c String.[]) = if code c == 13 then "\n" else String.◌∷◌ c ""
universal_newlines (String.◌∷◌ c (String.◌∷◌ d s)) =
    let behind_both = universal_newlines s in
    let behind_one = universal_newlines (String.◌∷◌ d s) in
    if code c == 13
    then if code d == 10 then concat "\n" behind_both else concat "\n" behind_one
    else String.◌∷◌ c behind_one

pub record Snapshot : Type 0 where
  pub path : String
  pub content : String
  pub for_update : Bool

-- What a snapshot is compared with: a text, or an object that decides by itself which texts it equals.
pub data Object : Type 0 where
  text : String → Object
  object : (equals : String → Bool) → Object

-- How a comparison ends: by an answer, by pytest.xfail, or by a FileNotFoundError.
pub data Comparison : Type 0 where
  answer : Bool → Comparison
  xfail : (reason : String) → Comparison
  file_not_found : Comparison

abbrev pub is_equal : String → Object → Bool
is_equal content (text t) = str_eq content t
is_equal content (object equals) = equals content

-- What the fixture reads of the request of pytest.
pub record Request : Type 0 where
  pub node_name : String
  pub test_directory : String
  pub snapshot_update : Bool

module _ (join : String → String → String) (parent : String → String) where
  -- A file is opened for writing, with this text in place of its contents. Its directory must exist.
  unfoldable pub write_text : String → String → Disk → Option Disk
  unfolding put
  write_text path content disk =
      if member str_eq (parent path) disk.directories
      then some (record disk { files = put path content disk.files })
      else none

  -- Snapshot.__init__: the mode "w+" empties the file before it is read.
  unfoldable pub init_snapshot : String → (for_update : Bool) → Disk → Option (Snapshot × Disk)
  unfolding write_text universal_newlines find
  init_snapshot path true disk = elim (write_text path "" disk) [
    | none ↦ none
    | some disk' ↦ some (record { path = path; content = ""; for_update = true }, disk')
  ]
  init_snapshot path false disk = elim (find path disk.files) [
    | none ↦ none
    | some t ↦
        some (record { path = path; content = universal_newlines t; for_update = false }, disk)
  ]

  -- Snapshot.__eq__
  unfoldable pub eq : Snapshot → Object → Disk → Comparison × Disk
  unfolding write_text concat
  eq snapshot other disk =
      if is_equal snapshot.content other
      then (answer true, disk)
      else if snapshot.for_update
      then elim other [
        | object _ ↦ (answer false, disk)
        | text t ↦ elim (write_text snapshot.path t disk) [
          | none ↦ (file_not_found, disk)
          | some disk' ↦ (xfail (concat "Snapshot updated: " snapshot.path), disk')
        ]
      ]
      else (answer false, disk)

  abbrev pub snapshot_dir : Request → String
  snapshot_dir request = join request.test_directory "snapshots"

  -- name or f"{request.node.name}.txt"
  abbrev pub snapshot_name : Request → String → String
  snapshot_name request name = if str_eq name "" then concat request.node_name ".txt" else name

  abbrev pub snapshot_path : Request → String → String
  snapshot_path request name = join (snapshot_dir request) (snapshot_name request name)

  -- The fixture makes the directory, and passes the getter on.
  abbrev pub make_snapshot_dir : Request → Disk → Disk
  make_snapshot_dir request disk = record disk {
    directories = add str_eq (snapshot_dir request) disk.directories;
  }

  abbrev pub get_snapshot : Request → String → Disk → Option (Snapshot × Disk)
  get_snapshot request name disk =
      init_snapshot (snapshot_path request name) request.snapshot_update disk

  -- A test that asserts `snapshot(name) == other`.
  unfoldable pub compare_snapshot : Request → String → Object → Disk → Comparison × Disk
  unfolding init_snapshot eq
  compare_snapshot request name other disk =
      let made = make_snapshot_dir request disk in
      elim (get_snapshot request name made) [
        | none ↦ (file_not_found, made)
        | some (snapshot, opened) ↦ eq snapshot other opened
      ]
