-- ===== src/Client/Arrival.antt =====
-- The arrival of a chunk, or of a rejection, for a request that is outstanding.
use seven_deadly_syns.Queue.Spec
use seven_deadly_syns.ChunkyFile.{ChunkyFile}
use seven_deadly_syns.FileTable.{FileTable}
use seven_deadly_syns.Client.{Client}
