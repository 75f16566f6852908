-- ===== src/Lib.antt =====
-- A network file system: a naming server (NamingServerModule.c), storage servers
-- (StorageServerModule.c) and clients (clientfunctions.c), which exchange short texts over TCP.
--
-- A storage server reports itself to the naming server with its paths. A client sends each
-- request to the naming server, which acknowledges it; READ, WRITE and GETSIZE are answered with
-- the address of a storage server, and the client goes there; CREATE, DELETE and COPY are passed
-- on to the storage servers by the naming server, and LISTALL is answered by it.
--
-- Base: lists and C strings over the native numbers. A string value is the list of its bytes, a
-- `char` array the list of all its bytes. Run: code that can fault or run out of rounds.
-- Decimal, Scanf: `%d`, `atoi` and `sscanf("%s %s")` of the C library, as the program uses them.
-- Whitespace: `removeWhitespace`, the naming server's `strip` and the client's `strip`, in
-- place.
-- Paths: `getDirectoryPath`, `getFileName`, `remove_prefix`, `extractPath`, `extractPathThird`
-- (NamingServerModule.c), `getSubstringBeforeLastSlash`, `replacePrefix`
-- (StorageServerModule.c).
-- Lru: the cache of NamingServerModule.c, with its pointers over a heap; Cells, Search, Front
-- and Evict have the lemmas on the linked list, Recency the list that it implements, Lookup,
-- Addition and Uses what the operations make of it.
-- NamingServer: the records and globals (State), `handleStorageServer` (Registration),
-- `send_request_async` (Tasks), and `handleClientInput` (Dispatch) with its branches: READ,
-- WRITE and GETSIZE (Locate), CREATE (Create), DELETE and `update_list_of_accessiblepaths`
-- (Delete), COPY (Copy), LISTALL (Listing). Reachable has the steps of the server and
-- the states that they lead to, Connection the loop over a client's requests, Commands the requests that
-- nothing sends. Listeners has `startStorageServerListener`, `handleClientRequest` and `main`,
-- Accepted what the first makes of its connections; Concurrent the steps of threads that put paths
-- into one server's record, Create.Effects and Create.Orders the orders in which the threads of one
-- CREATE finish; Logging `loggingfunction`, GetPath `get_path_ss`.
-- StorageServer: the system calls (FileSystem, with a disk in memory in Memory), `mkdir_p` and
-- the CREATE branch of `executeNMRequest` (Folders), `deleteDirectory` and its DELETE branch
-- (Deletion), `update_accessible_paths_recursive` and its GETPATHS branch (Scan),
-- `executeClientRequest` (Files), `registerStorageServer` (Registration),
-- `listDirectoriesRecursively` and `listFilesRecursively` (Tree), the COPY branch of
-- `executeNMRequest` (Transfer, with Reports, Copied and Agreed for what it has sent),
-- `executeSSRequest` and `executeSSRequestRecv` (Archive), `executeNMRequest` itself (Requests),
-- and its own cache, which nothing there calls (Cache). Listeners has the four
-- `handle…Connections…`, with Received for the requests that they start threads with, Startup
-- `getAvailablePort`, `reportToNamingServer` and `main`.
-- Client: `waitforAck` (Session), `clientRead`, `clientWrite`, `clientGetSize` (Locate),
-- `clientCreate`, `clientDelete`, `clientCopy` (Replies), `clientListAll` (Listing), a round of
-- the loop of `main` (Commands), `main` (Start, with Ended
-- for the end of its input).
-- Protocol: what one side sends, read by the other. System puts the parts together for a line
-- that a user types; Requests and Rounds have the lemmas on a request's way, WriteThenRead two
-- rounds. Created follows a CREATE to its storage server, Archive a COPY between two of them,
-- PathList the paths that a storage server is asked for, Joining a new storage server, Started one
-- from its `main` to what the naming server has of it, Report the bytes of its report on their way.
-- Struct: the bytes of `struct StorageServer`, as they are sent and as they are read.
-- Sockets: the calls that set a socket up, a process that may end, what a listener does.
-- Trials: temp.c, temp_client.c and tempjainit.c, programs beside the system.
-- Checks: properties of all bytes of a text, from a test that is run.
-- Examples: concrete inputs.
--
-- Outside the source: uthash (uthash.h) is the interface NamingServer.Index, with the laws of
-- HASH_ADD_STR and HASH_FIND_STR, and an association list that meets them. The file system is
-- the interface StorageServer.FileSystem, with laws of the manual pages, and a disk in memory
-- that meets them; `system` and the writing of an archive are StorageServer.Archive.Shell. The
-- network is a function from an address and a request to what comes back. A send on the
-- connection of the one who asks succeeds, and one `recv` yields one message; only for the report of
-- a storage server and for an archive can it yield other parts of what is sent. In the handlers each
-- thread of a CREATE updates the shared records in one step, at any place in the order of the
-- threads; NamingServer.Concurrent takes that step apart into the accesses of the memory, of which
-- a `strcpy` and a HASH_ADD_STR are one each, though uthash needs a lock that is not taken. What the
-- listeners' system calls and `malloc` give is an argument, and a thread that they start is an event,
-- with what it is given. A write of a path behind the 500 slots of a server is dropped; the lengths of the `char` arrays
-- are a bound only where the source tests it: the text of the whole listing is not bounded by its
-- array of 40960 bytes, and a path of 100 bytes or more is kept whole instead of going on into the
-- next array. A count of paths that is negative is kept as 0.
--
-- A value that a function without `return` leaves, or a variable or buffer that has not been
-- written, is a fault where it is used; what a block of `malloc` or the stack holds behind the
-- bytes that one `recv` yields is an argument of Struct, Listeners, Delete and Created. In
-- Tasks and in Create.Direct the answer of a server is the string that is in the array.
--
-- Rounds: a loop over a `char` array has as many rounds as the array has bytes, or one more; the
-- search of the cache has the eleven rounds that the source counts, and the walk to the last
-- entry of the cache one more than the cache's size. The walks of a storage server over its
-- directories are given the depth to which they go. A storage server that waits for a reply that
-- does not come has run out of replies, which is a timeout. The client's loop over a listing is
-- given its rounds by a theorem's hypothesis.
--
-- Not modelled: printing of the servers, the scheduling inside a `strcpy` or the hash table,
-- `serializeStorageServer`, which nothing calls, and the older trials test.c, test_client.c and
-- test_Amey.c.
pub mod Base
pub mod Decimal
pub mod Whitespace
pub mod Paths
pub mod Scanf
pub mod Checks
pub mod Run
pub mod Sockets
pub mod Lru
pub mod NamingServer
pub mod StorageServer
pub mod Struct
pub mod Client
pub mod Protocol
pub mod Trials
mod Examples
