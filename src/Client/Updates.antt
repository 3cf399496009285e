-- ===== src/Client/Updates.antt =====
-- client/client.c: UpdateLocalFilesystem, what the client does with a tree or a diff of the tracker, and
-- CheckLocalFilesystem.
use seven_deadly_syns.Prelude.{
  ℕ, ◌-◌, ltb, true, false, if◌then◌else◌, Option, none, some, List, [], ◌∷◌,
}
use seven_deadly_syns.FileSystem.Types.{Name, FileSystem}
use seven_deadly_syns.FileSystem.Subtract.{diff, filesystem_equals}
use seven_deadly_syns.FileSystem.Listing.{relative_iterator}
use seven_deadly_syns.FileSystem.Update.{minus_equals, plus_equals}
use seven_deadly_syns.FileTable.{
  FileTable, remove_filesystem, add_filesystem, enqueue_work_for_filesystem,
}
use seven_deadly_syns.Client.{
  Disk, Client, Sent, updated_files, my_id, check_file_system, local_chunks, remove_file_deletions,
  make_additions, get_file_additions,
}

module _ {D : Type 0} (io : Disk D) (dartsync_dir : Name) where
  -- The part of UpdateLocalFilesystem for the deletions.
  unfoldable pub update_deletions : Client D → FileSystem → Option (Client D)
  unfolding check_file_system remove_filesystem remove_file_deletions
  update_deletions c deletions = elim (check_file_system deletions) [
    | none ↦ none
    | some false ↦ some c
    | some true ↦
        remove_file_deletions io dartsync_dir (record c { ft = remove_filesystem c.ft deletions })
          deletions
  ]

  -- The part of UpdateLocalFilesystem for the additions.
  unfoldable pub update_additions : (ℕ → ℕ) → Client D → FileSystem → Option (Client D)
  unfolding check_file_system relative_iterator make_additions enqueue_work_for_filesystem
  update_additions rand c additions = elim (check_file_system additions) [
    | none ↦ none
    | some false ↦ some c
    | some true ↦ elim (relative_iterator additions false) [
      | none ↦ none
      | some listed ↦ elim (make_additions io dartsync_dir false listed c.disk c.ft) [
        | none ↦ none
        | some (d, ft') ↦ elim (enqueue_work_for_filesystem rand ft' additions) [
          | none ↦ none
          | some ft'' ↦ some (record c { disk = d; ft = ft'' })
        ]
      ]
    ]
  ]

  -- UpdateLocalFilesystem
  unfoldable pub update_local_filesystem :
      (ℕ → ℕ) → Client D → FileSystem → Option (Client D × List Sent)
  unfolding diff update_deletions relative_iterator check_file_system local_chunks update_additions
  update_local_filesystem rand c new_fs =
      let (additions, deletions) = diff c.cur_fs new_fs in
      elim (update_deletions c deletions) [
        | none ↦ none
        | some c' ↦ elim (relative_iterator c'.cur_fs false) [
          | none ↦ none
          | some listed ↦ elim (check_file_system c'.cur_fs) [
            | none ↦ none
            | some some_files ↦ elim (update_additions rand c' additions) [
              | none ↦ none
              | some c'' ↦
                  some
                    (record c'' { cur_fs = new_fs }, if some_files then local_chunks listed else [])
            ]
          ]
        ]
      ]

  -- The last part of SendMasterFSRequest, with what recv_master and recv_master_ft gave.
  unfoldable pub receive_first_master :
      (ℕ → ℕ) → Client D → FileSystem → FileTable → Option (Client D × List Sent)
  unfolding update_local_filesystem
  receive_first_master rand c master ft =
      update_local_filesystem rand (record c { ft = ft })
        (record master { root_path = some dartsync_dir })

  -- The body of the loop on recv_master.
  unfoldable pub receive_master : (ℕ → ℕ) → Client D → FileSystem → Option (Client D × List Sent)
  unfolding update_local_filesystem
  receive_master rand c master =
      update_local_filesystem rand c (record master { root_path = some dartsync_dir })

  -- The body of the loop on recv_diff.
  unfoldable pub receive_diff : (ℕ → ℕ) → Client D → FileSystem → FileSystem → ℕ → Option (Client D)
  unfolding remove_file_deletions minus_equals plus_equals remove_filesystem add_filesystem
      get_file_additions
  receive_diff rand c adds dels peer_id =
      let additions : FileSystem = record adds { root_path = some dartsync_dir } in
      let deletions : FileSystem = record dels { root_path = some dartsync_dir } in
      elim (remove_file_deletions io dartsync_dir c deletions) [
        | none ↦ none
        | some c' ↦ elim (plus_equals (minus_equals c'.cur_fs deletions) additions) [
          | none ↦ none
          | some fs ↦
              elim (get_file_additions io dartsync_dir
                (record c' {
                  cur_fs = fs;
                  ft =
                      add_filesystem rand (remove_filesystem c'.ft deletions) additions peer_id
                        true;
                })
                additions) [
                  | none ↦ none
                  | some c'' ↦
                      some (record c'' { cur_fs = io.filesystem_new c''.disk dartsync_dir })
                ]
        ]
      ]

  -- CheckLocalFilesystem at the time `now`; microseconds_between is over unsigned long, and the time does
  -- not go back.
  unfoldable pub check_local_filesystem : (ℕ → ℕ) → Client D → ℕ → Option (Client D × List Sent)
  unfolding filesystem_equals diff check_file_system remove_filesystem add_filesystem
  check_local_filesystem rand c now =
      if ltb (now - c.prev_time) 5000000
      then some (c, [])
      else (let new_fs = io.filesystem_new c.disk dartsync_dir in
          let c' : Client D = record c { prev_time = now } in
          if (elim (c.prev_fs) [ none ↦ false | some prev ↦ filesystem_equals prev new_fs ])
          then (let (adds, dels) = diff c.cur_fs new_fs in
              elim (check_file_system adds) [
                | none ↦ none
                | some some_adds ↦ elim (check_file_system dels) [
                  | none ↦ none
                  | some some_dels ↦
                      if (if some_adds then true else some_dels)
                      then some (
                        record c' {
                          cur_fs = new_fs;
                          ft = add_filesystem rand (remove_filesystem c.ft dels) adds my_id false;
                        },
                        updated_files adds dels ∷ [],
                      )
                      else some (c', [])
                ]
              ])
          else some (record c' { prev_fs = some new_fs }, []))
