-- ===== src/Client/Report.antt =====
-- A change that a client finds on its disk, on its way to the tracker's tree.
use seven_deadly_syns.Prelude.{
  ℕ, ◌-◌, ◌≡◌, refl, sym, ap, ap₂, ◌∙◌, ltb, Bool, true, false, ◌||◌, Option, none, some, List, [],
  ◌∷◌, arith, Option-cases, inl, inr,
}
use seven_deadly_syns.FileSystem.Types.{Name, File, FileSystem}
use seven_deadly_syns.FileSystem.Paths.{files_at}
use seven_deadly_syns.FileSystem.Diff.{has}
use seven_deadly_syns.FileSystem.Serial.{Stdio}
use seven_deadly_syns.FileSystem.Serial.RoundTrip.{IsNamed}
use seven_deadly_syns.FileSystem.Subtract.{diff, filesystem_equals}
use seven_deadly_syns.FileSystem.Update.{add, remove, minus_equals, plus_equals}
use seven_deadly_syns.FileSystem.Update.Good.{Good}
use seven_deadly_syns.FileSystem.Update.Sync.{plus-minus-diff}
use seven_deadly_syns.FileTable.{remove_filesystem, add_filesystem}
use seven_deadly_syns.Tracker.{Tracker, Message, update_network}
use seven_deadly_syns.Tracker.Sync.{update_network-runs}
use seven_deadly_syns.Network.Bodies.{
  send_updated_files, receive_client_update, bare_fs, update_lem,
}
use seven_deadly_syns.Client.Updates.{check_local_filesystem}
use seven_deadly_syns.Client.{Disk, Client, my_id, updated_files, check_file_system}

-- The root paths play no part in an update.
plus_equals-roots :
    (fs fs' additions additions' deletions deletions' r : FileSystem)
    → fs.root ≡ fs'.root
    → additions.root ≡ additions'.root
    → deletions.root ≡ deletions'.root
    → plus_equals (minus_equals fs deletions) additions ≡ some r
    → (r' : FileSystem) × (plus_equals (minus_equals fs' deletions') additions' ≡ some r')
      × (r'.root ≡ r.root)
unfolding plus_equals minus_equals
plus_equals-roots fs fs' additions additions' deletions deletions' r e ea ed runs =
    elim (Option-cases (add additions.root (remove deletions.root fs.root))) [
      | inl stuck ↦ absurd (ground (arith, stuck, runs))
      | inr (x, yes_) ↦
          let same : r.root ≡ x = ground (arith, yes_, runs) in
          let there : add additions'.root (remove deletions'.root fs'.root) ≡ some x =
            ap₂ (λ a f. add a (remove deletions'.root f)) (sym ea) (sym e)
            ∙ ap (λ d. add additions.root (remove d fs.root)) (sym ed)
            ∙ yes_ in
          (record fs' { root = x }, rw (there, plus_equals) refl, sym same)
    ]

-- Is a diff worth sending?
abbrev pub some_change : Option Bool → Option Bool → Bool
some_change (some a) (some b) = a || b
some_change o o' = false

module _ {D : Type 0} (io : Disk D) (dir : Name) (rand : ℕ → ℕ) (c : Client D) (now : ℕ) where
  -- The directory, and what has changed in it.
  abbrev pub new_fs : FileSystem
  new_fs = io.filesystem_new c.disk dir

  abbrev pub adds : FileSystem
  adds = (diff c.cur_fs new_fs).0

  abbrev pub dels : FileSystem
  dels = (diff c.cur_fs new_fs).1

  abbrev reported : Client D
  reported = record c {
    prev_time = now;
    cur_fs = new_fs;
    ft = add_filesystem rand (remove_filesystem c.ft dels) adds my_id false;
  }

  check-sends :
      (prev : FileSystem)
      → ltb (now - c.prev_time) 5000000 ≡ false
      → c.prev_fs ≡ some prev
      → filesystem_equals prev new_fs ≡ true
      → some_change (check_file_system adds) (check_file_system dels) ≡ true
      → check_local_filesystem io dir rand c now ≡ some (reported, updated_files adds dels ∷ [])
  unfolding check_local_filesystem
  check-sends prev late settled same change =
      by_changes (check_file_system adds) (check_file_system dels) refl refl change
    where
      settles : (elim (c.prev_fs) [ none ↦ false | some p ↦ filesystem_equals p new_fs ]) ≡ true
      settles = rw settled same

      by_changes :
          (a d : Option Bool)
          → check_file_system adds ≡ a
          → check_file_system dels ≡ d
          → some_change a d ≡ true
          → check_local_filesystem io dir rand c now ≡ some (reported, updated_files adds dels ∷ [])
      by_changes none d ea ed h = cc
      by_changes (some a) none ea ed h = cc
      by_changes (some true) (some d) ea ed h =
          rw (late, settles, ea, ed, check_local_filesystem) refl
      by_changes (some false) (some true) ea ed h =
          rw (late, settles, ea, ed, check_local_filesystem) refl
      by_changes (some false) (some false) ea ed h = cc

  -- CheckLocalFilesystem, five seconds or more after the last time, when the directory is as it was then
  -- and not as the tree that the tracker knows, the client's and the tracker's tree being the same: it
  -- reports the difference once and takes the directory's tree over; the tracker reads just this
  -- difference out of the data that the client sends, its update meets no failed assert, and its tree
  -- then holds at each path the files that the client's directory holds. The trees are built as
  -- folder_new does, and no name holds a 0.
  pub report_lem :
      (prev : FileSystem) (stdio : Stdio) (t : Tracker) (id : ℕ)
      → ltb (now - c.prev_time) 5000000 ≡ false
      → c.prev_fs ≡ some prev
      → filesystem_equals prev new_fs ≡ true
      → some_change (check_file_system adds) (check_file_system dels) ≡ true
      → c.cur_fs.root ≡ t.fs.root
      → Good c.cur_fs.root
      → Good new_fs.root
      → IsNamed adds.root
      → IsNamed dels.root
      → (c' : Client D) × (check_local_filesystem io dir rand c now
          ≡ some (c', updated_files adds dels ∷ []))
        × (c'.cur_fs ≡ new_fs)
        × (additions : FileSystem) × (deletions : FileSystem) × (receive_client_update stdio
              (send_updated_files stdio adds dels)
            ≡ some (additions, deletions))
        × (t' : Tracker) × (sent : List Message) × (update_network rand t id additions deletions
            ≡ some (t', sent))
        × ((p : List Name) (x : File)
            → has x (files_at p t'.fs.root) ≡ has x (files_at p new_fs.root))
  report_lem prev stdio t id late settled same change one go gn na nd =
      let (r, runs, agree) = plus-minus-diff c.cur_fs new_fs go gn in
      let (r', runs', tree) =
        plus_equals-roots c.cur_fs t.fs adds (bare_fs adds) dels (bare_fs dels) r one refl refl
          runs in
      let (t', fs, result) = update_network-runs rand t id (bare_fs adds) (bare_fs dels) r' runs' in
      (
        reported,
        check-sends prev late settled same change,
        refl,
        bare_fs adds,
        bare_fs dels,
        (update_lem stdio adds dels 0 na nd (omega arith)).0,
        t',
        _,
        result,
        λ p x. ap (λ f. has x (files_at p f)) (ap (λ f. f.root) fs ∙ tree) ∙ agree p x,
      )
