-- ===== src/Lib.antt =====
-- SevenDeadlySYNs keeps a directory the same on several machines: a tracker (tracker/) knows the
-- file system, the peers and who has which file; the clients (client/) report changes to it and
-- fetch chunks of files from each other. Both stand on the containers and trees of utility/ and on
-- common/.
--
-- Queue models utility/Queue/Queue.c: the circular array with its length, space, head and tail.
-- An operation takes the queue and returns it, `malloc` is a parameter that gives the content of a
-- fresh block. `push`, `pop`, `pop_back`, `peek_back`, `remove`, `search`, `shuffle`, `filter`,
-- `map` and `concat` are queue_push, queue_pop, queue_spop, queue_speek, queue_remove,
-- queue_search, queue_shuffle, queue_filter, queue_map and queue_concat. queue_remove with no search
-- function searches by pointer equality, which a caller passes here. The loop of queue_concat
-- runs on fuel, one round more than the queue has elements. Queue/Spec holds the same operations on
-- lists, Queue/Contents the list that a queue stands for, Queue/Run sequences of calls; Queue/Push,
-- Pop, Peek, Shift, Remove, Access and Whole hold one group of operations each.
--
-- AsyncQueue models utility/AsyncQueue/AsyncQueue.c, on Queue: any number of threads whose calls are
-- interleaved as the steps of a relation. A call waits for the mutex, reads the queue, writes it and
-- frees the mutex, in four steps; the state keeps the calls that are done, with what they returned.
--
-- FileSystem models utility/FileSystem/FileSystem.c. Types: `_File`, `_Folder`, `_FileSystem` and
-- file_equals and its relatives. Subtract: folder_subtract, folder_copy, filesystem_diff,
-- filesystem_equals. Serial: filesystem_serialize and filesystem_deserialize; sprintf and
-- sscanf are a parameter. Here the queues of files and folders are the lists that Queue shows them
-- to be: queue_remove is `erase`. Reading runs on fuel: the number of bytes is enough, since each
-- step reads at least one. Paths says which files stand at a path of a tree.
--
-- Update is filesystem_minus_equals and filesystem_plus_equals (folder_remove and folder_add), which a
-- peer runs on the deletions and the additions of a difference: Good holds the trees that the code
-- builds, Files and Children the loops, OneLevel and Sync their composition. Listing is the iterator of
-- paths. Components is get_path_components and filesystem_remove_file_at_path; the loop that cuts a path
-- has fuel, and one more than the bytes of the path is enough where it ends.
--
-- ChunkyFile models utility/ChunkyFile/ChunkyFile.c: a file in memory and its chunks of 500000
-- bytes. PeerTable models common/peer_table.c: the slots of the table, some of which realloc
-- leaves uninitialised; a run that reads such a slot gives `fault`. PeerTable/Codec is the table as
-- bytes.
--
-- SdSet models utility/SDSet/SDSet.c: the sparse set over memory that is never initialised. `put` is
-- sdset_set. The loop that grows it has fuel key + 1, which is enough since the space is positive
-- and each round adds to it. A read or a write out of bounds gives `none`. Grow holds the validity
-- of a set and its growth, Pigeon the counting that bounds the size, Set the operations.
--
-- HashTable models utility/HashTable/HashTable.c; its buckets, of utility/LinkedList/LinkedList.c, are
-- lists. Buckets and Lookup compare the table with the list of its elements, Iterate its iterator,
-- whose calls run on fuel, one more than there are elements.
--
-- LinkedList models utility/LinkedList/LinkedList.c: the nodes on a heap of addresses, with their pointers
-- in both directions. malloc is the address that a caller gives. Reading or writing through NULL or at an
-- address that holds no node gives `none`. A search has as much fuel as the list is long. Heap is about
-- segments of nodes, Unlink linkednode_unlink, Refine the list that the nodes stand for, Run sequences of
-- calls, Iterator the iterator, and Cursor and Before what it does at a node.
--
-- FileTable models utility/FileTable/FileTable.c: for each path the entry with the peers that have
-- each chunk, and with the chunks still to fetch. It stands on HashTable and on the listings of
-- FileSystem; rand is a parameter. Hash is hashPJW, Peers who has which chunk, Codec the table as
-- bytes, Reading and RoundTrip reading what was written. That loop has fuel, one more than there are
-- bytes: each round reads at least one.
--
-- Packets models common/packets.c: safe_recv over a socket that gives its bytes in parts. The fuel of
-- its loop is the length plus one, since each call of recv that is not the last gives a byte.
--
-- Tracker models tracker/tracker.c. `peer_table` is PeerIds, whose slots hold an id or -1; the three
-- globals are the record Tracker. A handler of the main loop takes the tracker and an event, what a
-- receive_ function gave, and returns the tracker and the messages, the calls of send_ functions;
-- `run` is a sequence of events. `none` is a failed assert or a read out of bounds. Broadcasts is the
-- table of peers and who gets a broadcast, Sync updateNetwork, Pruned prune_filesystem, Lost the loss of a
-- peer. The fuel is for the iterator of the file table and for paths.
--
-- Client models client/client.c. Its global variables are the record Client; what stands behind stat,
-- fts, mkdir, remove, fopen, fputc and utime is the parameter Disk, through which chunkyfile_write works. A call of a send_ function is a
-- message, Sent. Client holds RemoveFileDeletions and GetFileAdditions, Updates
-- UpdateLocalFilesystem, CheckLocalFilesystem and the handling of the tracker's diffs, Chunks the loops of
-- main on chunks, check_work_queue and one event of main. Jobs and Work are the requests that check_work_queue sends: the
-- fuel of its inner loop is one more than the longest work queue, since each round takes a chunk from
-- it. Kept and Arrival are what a chunk or a rejection does. Report is the way of a local change to the tracker's
-- tree, through Network and Tracker.
--
-- Network models the packets of client/network_client.c and tracker/network_tracker.c, as lists of bytes:
-- their headers, which the two safe_recv of handle_tracker_msg and handle_client_msg read, the switches of
-- the two, and check_liveliness (Alive). Bodies is the data of a packet: what a send_ function
-- writes and the receive_ function of the other side reads. Chunks are the packets between two
-- clients. Frames and Peers are about the receiving.
--
-- Numbers of type int, size and time are natural numbers without an upper bound; no sum of the
-- modelled code is meant to reach 2 ^ 31. Memory allocation does not fail. Not modelled: freeing memory,
-- printing, an effect without a result that the modelled code reads; the
-- start and the end of the programs; select, the sockets and the threads of the network, which move packets
-- between the queues modelled here; the connection records of client/network_client.c; the web page of the
-- tracker; tracker/file_table.c, which nothing uses.
pub mod AsyncQueue
pub mod ChunkyFile
pub mod Client
pub mod FileSystem
pub mod FileTable
pub mod HashTable
pub mod LinkedList
pub mod Network
pub mod Packets
pub mod PeerTable
pub mod Prelude
pub mod Queue
pub mod SdSet
pub mod Tracker
