-- ===== src/FileSystem/Serial.antt =====
-- filesystem_serialize and filesystem_deserialize of utility/FileSystem/FileSystem.c. A `char` is
-- its value as `unsigned char`, as both functions cast it. sprintf and sscanf are a parameter.
pub mod RoundTrip
use seven_deadly_syns.Prelude.{
  ℕ, zero, suc, ◌+◌, ◌-◌, ◌≡◌, ◌≢◌, ◌<◌, Bool, true, false, ◌==◌, if◌then◌else◌, Option, none, some,
  List, [], ◌∷◌, ◌++◌, drop, length,
}
use seven_deadly_syns.FileSystem.Types.{
  Name, File, Folder, Folders, folder, nil, cons, FileSystem, files, folders, folder_name,
  push_folder,
}

-- FILE_MARKER, FOLDER_START and FOLDER_END.
abbrev pub file_marker : ℕ
file_marker = 0xFF

abbrev pub folder_start : ℕ
folder_start = 0xFE

abbrev pub folder_end : ℕ
folder_end = 0xFD

-- The three numbers of a file, as they are printed and read.
pub record Stats : Type 0 where
  pub size : ℕ
  pub last_modified : ℕ
  pub is_folder : Bool

-- A string without a terminator in it.
abbrev pub NoNull : List ℕ → Type 0
NoNull [] = Unit {0}
NoNull (b ∷ bs) = (b ≢ 0) × NoNull bs

-- `sprintf(buf, "%ld %ld %d", …)`, and `sscanf(…, "%lu %ld %d%n", …)` with the count of the bytes
-- read. What is printed is read back whole, up to the terminator behind it, whatever follows.
pub record Stdio : Type 0 where
  pub sprintf : Stats → List ℕ
  pub sscanf : List ℕ → Option (Stats × ℕ)
  pub sprintf_NoNull : (s : Stats) → NoNull (sprintf s)
  pub sscanf-sprintf :
      (s : Stats) (rest : List ℕ) → sscanf (sprintf s ++ (0 ∷ rest)) ≡ some (s, length (sprintf s))

-- push_string: the bytes and a 0.
unfoldable pub push_string : List ℕ → List ℕ
push_string s = s ++ (0 ∷ [])

-- copy_string at the start of the data, and what stands behind the terminator. There is no
-- terminator in what is left: the read goes past the buffer.
unfoldable pub read_string : List ℕ → Option (List ℕ × List ℕ)
read_string [] = none
read_string (b ∷ bs) = if b == 0 then some ([], bs) else longer b (read_string bs)
  where
    longer : ℕ → Option (List ℕ × List ℕ) → Option (List ℕ × List ℕ)
    longer c none = none
    longer c (some (s, rest)) = some (c ∷ s, rest)

module _ (io : Stdio) where
  stats : File → Stats
  stats f = record { size = f.size; last_modified = f.last_modified; is_folder = f.is_folder }

  -- The first loop of filesystem_serialize_helper.
  unfoldable pub serialize_files : List File → List ℕ
  unfolding stats push_string
  serialize_files [] = []
  serialize_files (f ∷ fs) =
      file_marker
      ∷ (push_string f.name ++ (push_string (io.sprintf (stats f)) ++ serialize_files fs))

  -- filesystem_serialize_helper: the bytes that it pushes.
  unfoldable mutual
    pub serialize_folder : Folder → List ℕ
    serialize_folder (folder n fs ds) =
        folder_start
        ∷ (push_string n ++ (serialize_files fs ++ (serialize_folders ds ++ (folder_end ∷ []))))

    pub serialize_folders : Folders → List ℕ
    serialize_folders nil = []
    serialize_folders (cons d ds) = serialize_folder d ++ serialize_folders ds

  unfoldable pub serialize : FileSystem → List ℕ
  unfolding serialize_folder serialize_files push_string
  serialize fs = serialize_folder fs.root

  -- The case FILE_MARKER of filesystem_deserialize_helper: a file, and the rest of the data.
  unfoldable pub read_file : List ℕ → Option (File × List ℕ)
  unfolding read_string
  read_file bs = elim (read_string bs) [
    | none ↦ none
    | some (name, rest) ↦ elim (io.sscanf rest) [
      | none ↦ none
      | some (s, num_read) ↦ some (
        record {
          name = name;
          size = s.size;
          last_modified = s.last_modified;
          is_folder = s.is_folder;
        },
        drop (num_read + 1) rest,
      )
    ]
  ]

  -- filesystem_deserialize_helper: the name, and the loop with what it has read so far. `none` is
  -- a read past the data or an `assert(0)`. `fuel` bounds the calls and the rounds.
  unfoldable mutual
    pub read_folder : ℕ → List ℕ → Option (Folder × List ℕ)
    read_folder zero bs = none
    read_folder (suc fuel) bs = elim (read_string bs) [
      | none ↦ none
      | some (name, rest) ↦ read_items fuel name [] nil rest
    ]

    pub read_items : ℕ → Name → List File → Folders → List ℕ → Option (Folder × List ℕ)
    read_items zero name fs ds bs = none
    read_items (suc fuel) name fs ds [] = none
    read_items (suc fuel) name fs ds (b ∷ bs) =
        let sub : Option (Folder × List ℕ) = elim (read_folder fuel bs) [
          | none ↦ none
          | some (d, rest) ↦ read_items fuel name fs (push_folder ds d) rest
        ] in
        let file : Option (Folder × List ℕ) = elim (read_file bs) [
          | none ↦ none
          | some (f, rest) ↦ read_items fuel name (fs ++ (f ∷ [])) ds rest
        ] in
        if b == folder_start
        then sub
        else if b == file_marker
        then file
        else if b == folder_end
        then some (folder name fs ds, bs)
        else none

  -- filesystem_deserialize: the first byte is passed over; the second result is `bytesRead`.
  unfoldable pub deserialize : List ℕ → Option (FileSystem × ℕ)
  unfolding read_folder read_file push_folder
  deserialize data_in = elim (read_folder (length data_in) (drop 1 data_in)) [
    | none ↦ none
    | some (root, rest) ↦
        some (record { root_path = none; root = root }, length data_in - length rest)
  ]
