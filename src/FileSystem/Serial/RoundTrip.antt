-- ===== src/FileSystem/Serial/RoundTrip.antt =====
-- What filesystem_serialize writes, filesystem_deserialize reads back.
use mathlib.Core.List.{append-nil, append_assoc}
use seven_deadly_syns.Prelude.{
  ℕ, zero, suc, ◌+◌, ◌≤◌, ◌≡◌, refl, sym, ap, ◌∙◌, none, some, List, [], ◌∷◌, ◌++◌, drop, length,
  length-append, arith,
}
use seven_deadly_syns.FileSystem.Types.{
  Name, File, Folder, Folders, folder, nil, cons, FileSystem, push_folder,
}
use seven_deadly_syns.FileSystem.Serial.{
  Stdio, NoNull, push_string, read_string, stats, serialize_files, serialize_folder,
  serialize_folders, serialize, read_file, read_folder, read_items, deserialize, file_marker,
  folder_start, folder_end,
}

-- Every name of the tree is a C string.
abbrev pub AreNamed : List File → Type 0
AreNamed [] = Unit {0}
AreNamed (f ∷ fs) = NoNull f.name × AreNamed fs

mutual
  pub data IsNamed : Folder → Type 0 where
    named :
        {n : Name} {fs : List File} {ds : Folders}
        → NoNull n
        → AreNamed fs
        → AllNamed ds
        → IsNamed (folder n fs ds)

  pub data AllNamed : Folders → Type 0 where
    none_left : AllNamed nil
    one_more : {d : Folder} {ds : Folders} → IsNamed d → AllNamed ds → AllNamed (cons d ds)

pub read_string_lem : (s rest : List ℕ) → NoNull s → read_string (s ++ (0 ∷ rest)) ≡ some (s, rest)
unfolding read_string
read_string_lem [] rest h = refl
read_string_lem (b ∷ bs) rest h = ground (arith, read_string_lem bs rest h.1)

pub drop-string : (s rest : List ℕ) → drop (length s + 1) (s ++ (0 ∷ rest)) ≡ rest
drop-string [] rest = refl
drop-string (b ∷ bs) rest =
    let e : suc (length bs) + 1 ≡ suc (length bs + 1) = omega arith in rw e (drop-string bs rest)

pub push_string-append : (s rest : List ℕ) → push_string s ++ rest ≡ s ++ (0 ∷ rest)
unfolding push_string
push_string-append s rest = append_assoc s (0 ∷ []) rest

-- The folders of the first queue, then those of the second.
join : Folders → Folders → Folders
join nil es = es
join (cons d ds) es = cons d (join ds es)

join-push_folder :
    (ds : Folders) (d : Folder) (es : Folders) → join (push_folder ds d) es ≡ join ds (cons d es)
unfolding join push_folder
join-push_folder nil d es = refl
join-push_folder (cons c ds) d es = ap (cons c) (join-push_folder ds d es)

join-nil : (ds : Folders) → join ds nil ≡ ds
unfolding join
join-nil nil = refl
join-nil (cons d ds) = ap (cons d) (join-nil ds)

module _ (io : Stdio) where
  read_file_lem :
      (f : File) (rest : List ℕ)
      → NoNull f.name
      → read_file io (push_string f.name ++ (push_string (io.sprintf (stats io f)) ++ rest))
        ≡ some (f, rest)
  unfolding read_file stats
  read_file_lem f rest h =
      rw (push_string-append f.name, push_string-append (io.sprintf (stats io f)) rest)
        (rw (read_string_lem f.name (io.sprintf (stats io f) ++ (0 ∷ rest)) h, read_file)
          (rw (io.sscanf-sprintf (stats io f) rest, read_file)
            (ap (λ r. some (f, r)) (drop-string (io.sprintf (stats io f)) rest))))

  step-file :
      (fuel : ℕ) (n : Name) (fs : List File) (ds : Folders) (f : File) (bs rest : List ℕ)
      → read_file io bs ≡ some (f, rest)
      → read_items io (suc fuel) n fs ds (file_marker ∷ bs)
        ≡ read_items io fuel n (fs ++ (f ∷ [])) ds rest
  unfolding read_items
  step-file fuel n fs ds f bs rest e = rw (e, read_items)

  step-folder :
      (fuel : ℕ) (n : Name) (fs : List File) (ds : Folders) (d : Folder) (bs rest : List ℕ)
      → read_folder io fuel bs ≡ some (d, rest)
      → read_items io (suc fuel) n fs ds (folder_start ∷ bs)
        ≡ read_items io fuel n fs (push_folder ds d) rest
  unfolding read_items
  step-folder fuel n fs ds d bs rest e = ground (arith, e)

  step-end :
      (fuel : ℕ) (n : Name) (fs : List File) (ds : Folders) (rest : List ℕ)
      → read_items io (suc fuel) n fs ds (folder_end ∷ rest) ≡ some (folder n fs ds, rest)
  unfolding read_items
  step-end fuel n fs ds rest = refl

  -- The files of a folder are read in order, with fuel left for what follows.
  read_items-files :
      (fs : List File) (k fuel : ℕ) (n : Name) (gs : List File) (ds : Folders) (rest : List ℕ)
      → AreNamed fs
      → length (serialize_files io fs) + k ≤ fuel
      → (left : ℕ) × (k ≤ left)
        × (read_items io fuel n gs ds (serialize_files io fs ++ rest)
            ≡ read_items io left n (gs ++ fs) ds rest)
  unfolding serialize_files
  read_items-files [] k fuel n gs ds rest h room =
      (fuel, omega arith, ap (λ xs. read_items io fuel n xs ds rest) (sym (append-nil gs)))
  read_items-files (f ∷ fs) k zero n gs ds rest h room = absurd (omega arith)
  read_items-files (f ∷ fs) k (suc fuel) n gs ds rest h room =
      let stat : List ℕ = push_string (io.sprintf (stats io f)) in
      let more : List ℕ = serialize_files io fs in
      let bs : List ℕ = push_string f.name ++ (stat ++ (more ++ rest)) in
      let enough : length more + k ≤ fuel =
        omega (arith, length-append (push_string f.name) (stat ++ more), length-append stat more) in
      let (left, h', e) = read_items-files fs k fuel n (gs ++ (f ∷ [])) ds rest h.1 enough in
      let regroup : (push_string f.name ++ (stat ++ more)) ++ rest ≡ bs =
        append_assoc (push_string f.name) (stat ++ more) rest
        ∙ ap (◌++◌ (push_string f.name)) (append_assoc stat more rest) in
      (
        left,
        h',
        ap (λ xs. read_items io (suc fuel) n gs ds (file_marker ∷ xs)) regroup
            ∙ step-file fuel n gs ds f bs (more ++ rest) (read_file_lem f (more ++ rest) h.0)
            ∙ e
            ∙ ap (λ xs. read_items io left n xs ds rest) (append_assoc gs (f ∷ []) fs),
      )

  -- The bytes of a folder behind its FOLDER_START.
  abbrev body : Name → List File → Folders → List ℕ
  body n fs ds =
      push_string n ++ (serialize_files io fs ++ (serialize_folders io ds ++ (folder_end ∷ [])))

  -- Reading the folders of a queue in order, with fuel left for what follows.
  abbrev ReadsFolders : Folders → Type 0
  ReadsFolders ds =
      (k fuel : ℕ) (m : Name) (gs : List File) (es : Folders) (rest : List ℕ)
      → length (serialize_folders io ds) + k ≤ fuel
      → (left : ℕ) × (k ≤ left)
        × (read_items io fuel m gs es (serialize_folders io ds ++ rest)
            ≡ read_items io left m gs (join es ds) rest)

  read_folder-name :
      (fuel : ℕ) (n : Name) (rest : List ℕ)
      → NoNull n
      → read_folder io (suc fuel) (push_string n ++ rest) ≡ read_items io fuel n [] nil rest
  unfolding read_folder
  read_folder-name fuel n rest h =
      ap (read_folder io (suc fuel)) (push_string-append n rest)
      ∙ rw (read_string_lem n rest h, read_folder)

  length-push_string : (s : List ℕ) → length (push_string s) ≡ length s + 1
  unfolding push_string
  length-push_string s = length-append s (0 ∷ [])

  finish :
      (left : ℕ) (n : Name) (fs : List File) (ds : Folders) (rest : List ℕ)
      → 1 ≤ left
      → read_items io left n fs ds (folder_end ∷ rest) ≡ some (folder n fs ds, rest)
  finish zero n fs ds rest h = absurd (omega arith)
  finish (suc left) n fs ds rest h = step-end left n fs ds rest

  -- Reading a folder's name, its files, its folders and its end.
  read_folder-body :
      (n : Name) (fs : List File) (ds : Folders) (fuel : ℕ) (rest : List ℕ)
      → NoNull n
      → AreNamed fs
      → ReadsFolders ds
      → length (body n fs ds) ≤ fuel
      → read_folder io fuel (body n fs ds ++ rest) ≡ some (folder n fs ds, rest)
  read_folder-body n fs ds zero rest hn hf subs room = absurd (
      omega (
        arith,
        length-push_string n,
        length-append (push_string n)
            (serialize_files io fs ++ (serialize_folders io ds ++ (folder_end ∷ []))),
      ))
  read_folder-body n fs ds (suc fuel) rest hn hf subs room =
      let fbytes : List ℕ = serialize_files io fs in
      let dbytes : List ℕ = serialize_folders io ds in
      let end : List ℕ = folder_end ∷ [] in
      let lengths : length fbytes + (length dbytes + 1) ≤ fuel = omega (
        arith,
        length-push_string n,
        length-append (push_string n) (fbytes ++ (dbytes ++ end)),
        length-append fbytes (dbytes ++ end),
        length-append dbytes end,
      ) in
      let (left, room', files_read) =
        read_items-files fs (length dbytes + 1) fuel n [] nil (dbytes ++ (folder_end ∷ rest)) hf
          lengths in
      let (last, room'', folders_read) = subs 1 left n fs nil (folder_end ∷ rest) room' in
      ap (read_folder io (suc fuel)) (
        append_assoc (push_string n) (fbytes ++ (dbytes ++ end)) rest
        ∙ ap (◌++◌ (push_string n)) (
            append_assoc fbytes (dbytes ++ end) rest
            ∙ ap (◌++◌ fbytes) (append_assoc dbytes end rest)))
      ∙ read_folder-name fuel n (fbytes ++ (dbytes ++ (folder_end ∷ rest))) hn
      ∙ files_read
      ∙ folders_read
      ∙ (unfold join in finish last n fs ds rest room'')

  serialize_folder-start :
      (d : Folder) → serialize_folder io d ≡ folder_start ∷ drop 1 (serialize_folder io d)
  unfolding serialize_folder
  serialize_folder-start (folder n fs ds) = refl

  ReadsFolders-cons :
      (d : Folder) (ds : Folders)
      → ((fuel : ℕ) (rest : List ℕ)
          → length (serialize_folder io d) ≤ suc fuel
          → read_folder io fuel (drop 1 (serialize_folder io d) ++ rest) ≡ some (d, rest))
      → ReadsFolders ds
      → ReadsFolders (cons d ds)
  unfolding serialize_folders
  ReadsFolders-cons d ds first others k zero m gs es rest room = absurd (
      omega (
        arith,
        ap length (serialize_folder-start d),
        length-append (serialize_folder io d) (serialize_folders io ds),
      ))
  ReadsFolders-cons d ds first others k (suc fuel) m gs es rest room =
      let sum = length-append (serialize_folder io d) (serialize_folders io ds) in
      let bytes = drop 1 (serialize_folder io d) in
      let nonempty = ap length (serialize_folder-start d) in
      let (left, room', read) = others k fuel m gs (push_folder es d) rest (omega arith) in
      (
        left,
        room',
        ap (read_items io (suc fuel) m gs es) (
              append_assoc (serialize_folder io d) (serialize_folders io ds) rest
              ∙ ap (λ xs. xs ++ (serialize_folders io ds ++ rest)) (serialize_folder-start d))
            ∙ step-folder fuel m gs es d (bytes ++ (serialize_folders io ds ++ rest))
                (serialize_folders io ds ++ rest)
                (first fuel (serialize_folders io ds ++ rest) (omega arith))
            ∙ read
            ∙ ap (λ xs. read_items io left m gs xs rest) (join-push_folder es d ds),
      )

  mutual
    unfolding serialize_folder serialize_folders

    read_folder_lem :
        (f : Folder)
        → IsNamed f
        → (fuel : ℕ) (rest : List ℕ) → length (serialize_folder io f) ≤ suc fuel
        → read_folder io fuel (drop 1 (serialize_folder io f) ++ rest) ≡ some (f, rest)
    read_folder_lem (folder n fs ds) (named hn hf hd) fuel rest room =
        read_folder-body n fs ds fuel rest hn hf (read_items-folders ds hd) (omega arith)

    read_items-folders : (ds : Folders) → AllNamed ds → ReadsFolders ds
    read_items-folders nil hd = λ k fuel m gs es rest room.
        (fuel, omega arith, ap (λ xs. read_items io fuel m gs xs rest) (sym (join-nil es)))
    read_items-folders (cons d ds) (one_more hf hd) =
        ReadsFolders-cons d ds (read_folder_lem d hf) (read_items-folders ds hd)

  -- filesystem_deserialize on what filesystem_serialize wrote gives the same tree, with a root path
  -- of NULL, and counts all the bytes, also where other data follows. No name holds a 0.
  pub deserialize-serialize :
      (fs : FileSystem) (rest : List ℕ)
      → IsNamed fs.root
      → deserialize io (serialize io fs ++ rest)
        ≡ some (record { root_path = none; root = fs.root }, length (serialize io fs))
  unfolding deserialize serialize
  deserialize-serialize fs rest h =
      let bytes : List ℕ = serialize_folder io fs.root in
      let size = length-append bytes rest in
      let start : drop 1 (bytes ++ rest) ≡ drop 1 bytes ++ rest =
        ap (λ xs. drop 1 (xs ++ rest)) (serialize_folder-start fs.root) in
      let read : read_folder io (length (bytes ++ rest)) (drop 1 (bytes ++ rest))
          ≡ some (fs.root, rest) =
        ap (read_folder io (length (bytes ++ rest))) start
        ∙ read_folder_lem fs.root h (length (bytes ++ rest)) rest (omega arith) in
      rw (read, deserialize)
        (ap (λ k. some (record { root_path = none; root = fs.root }, k)) (omega arith))
