-- ===== src/Tracker/Sync.antt =====
-- An update by a client, handled by the tracker.
use seven_deadly_syns.Prelude.{ℕ, ◌≡◌, refl, false, none, some}
use seven_deadly_syns.Queue.Spec
use seven_deadly_syns.FileSystem.Types.{FileSystem}
use seven_deadly_syns.FileSystem.Update.{minus_equals, plus_equals}
use seven_deadly_syns.FileSystem.Update.Good.{Good}
use seven_deadly_syns.FileTable.{remove_filesystem, add_filesystem}
use seven_deadly_syns.Tracker.{Tracker, filesystem_update_broadcast, update_network}

-- The root paths play no part.
update-root :
    (fs additions deletions r : FileSystem)
    → plus_equals (minus_equals fs deletions) additions ≡ some r
    → plus_equals
        (minus_equals fs (record deletions { root_path = none }))
        (record additions { root_path = none })
      ≡ some r
unfolding plus_equals minus_equals
update-root fs additions deletions r e = e

pub update_network-runs :
    (rand : ℕ → ℕ) (t : Tracker) (pusher : ℕ) (additions deletions r : FileSystem)
    → plus_equals (minus_equals t.fs deletions) additions ≡ some r
    → (t' : Tracker) × (t'.fs ≡ r)
      × (update_network rand t pusher additions deletions
          ≡ some (
            t',
            filesystem_update_broadcast t.peer_table
                (record additions { root_path = none })
                (record deletions { root_path = none })
                pusher,
          ))
unfolding update_network
update_network-runs rand t pusher additions deletions r e =
    let adds : FileSystem = record additions { root_path = none } in
    let dels : FileSystem = record deletions { root_path = none } in
    (
      record t {
        fs = r;
        filetable = add_filesystem rand (remove_filesystem t.filetable dels) adds pusher false;
      },
      refl,
      rw (update-root t.fs additions deletions r e, update_network) refl,
    )
