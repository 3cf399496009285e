-- ===== src/Client/Paths.antt =====
-- client/client.c: append_DSRoot and tilde_compress.
use seven_deadly_syns.Prelude.{
  ◌==◌, if◌then◌else◌, Option, none, some, [], ◌∷◌, ◌++◌, length, get_or,
}
use seven_deadly_syns.FileSystem.Types.{Name}

-- append_DSRoot; `none` is NULL, and the read before a root that is empty.
unfoldable pub append_ds_root : Name → Name → Option Name
append_ds_root relative_path [] = none
append_ds_root relative_path (c ∷ cs) =
    if get_or (c ∷ cs) (length cs) 0 == b'/' then none else some ((c ∷ cs) ++ relative_path)
