-- ===== src/Lib.antt =====
-- The Pterodactyl-Proxmox-Backup bridge, an S3 server that keeps each object as a snapshot on a
-- Proxmox Backup Server.
--
-- A request goes through the signature check (internal/sigv4), the handlers (internal/s3api) and
-- the backend (internal/backend), which maps keys to snapshot names (internal/idmap), runs
-- proxmox-backup-client (internal/pbs), keeps what it has stored in a database (internal/store) and
-- parts of uploads in files (internal/stage). Modelled here are internal/idmap, internal/sigv4,
-- internal/s3api, internal/store, internal/pbs, internal/stage, internal/backend, internal/config,
-- and how cmd/bridge puts them together.
--
-- Shared:
--   Prelude.Steps: code that changes a state and may fail, with do blocks.
--   Prelude, Strings, Sorting: numbers, integers of 64 bits, texts as lists of bytes, and what the
--     code uses of the packages strings, bytes, strconv, fmt, hex, utf8, sort.
--   Http: what is used of a request of net/http: the host, the path, the headers and the query.
--   Samples: concrete parameters for the tests.
--
-- internal/idmap/sanitize.go:
--   IdMap: SanitizeBackupID is `sanitize_backup_id`, GroupIDFromKey `group_id_from_key`,
--     SanitizeNamespace `sanitize_namespace`. IdMap.Valid, Clean, Distinct and Namespace hold their
--     theorems. SHA-256 is the parameter `Sha256`: a function with sums of 32 bytes.
--
-- internal/sigv4:
--   SigV4.Errors (errors.go), SigV4.Scope and SigV4.Canonical (canonical.go), SigV4.Encode
--     (uriEncode and the canonical path), SigV4.Clock and SigV4.AmzDate (clock.go),
--     SigV4.AuthHeader and SigV4.Verify (verify.go), SigV4.Presign (presign.go). `verify_header`
--     and `verify_presigned` are VerifyHeader and VerifyPresigned. An AuthError is its code; its
--     message is not kept. HMAC is in the parameter `Crypto`. A time is in nanoseconds since the
--     start of year 0, a duration an int64 with its wrap-around. The order in which a Go map is
--     visited is a list of its entries, in any order. SigV4.Chunked is the reader of aws-chunked
--     bodies (chunked.go), as a function from what can be read of a body to the bytes it gives out
--     and the error it ends with: `next_chunk` is nextChunk. Its fuel is the length of the body and
--     one, since a chunk takes at least a byte. SigV4.Chunked.Frames is the framing apart from the
--     code.
--
-- internal/store:
--   Bolt is the database go.etcd.io/bbolt, a parameter: buckets of sorted pairs with the laws of
--     Put and Delete that its documentation states.
--   Store: transactions. A write transaction takes the next fault of a schedule, so that it may
--     fail as it begins or as it commits. Store.Keys: objectMapKey and partKey (bbolt.go).
--     Store.Objects: objects.go, `put_object_mapping`, `get_object_mapping`,
--     `delete_object_mapping` and `list_objects`. Store.Multipart: multipart.go. encoding/json is
--     the parameter `Json`; a theorem that needs a value back has `RoundTrips` for it, or
--     `Storable` (Backend.Commit), which asks it of a value that can be marshaled, and of no other.
--     Values too long for bbolt are left out. Opening and closing the file is not modelled.
--   Store.Lock: the KeyedMutex of lock.go, as the moves of any number of calls in any order: what a
--     call does under `mu` is one move (`enter_at`, `leave_at`), and so is each call of the mutex
--     of a key (`acquire_at`, `release_at`). The objects that a lock points to are numbers in a
--     heap.
--
-- internal/pbs:
--   Pbs: errors.go, the classes of errors by their texts. Pbs.Client: client.go, with `backup`,
--     `restore`, `forget` and `update_notes` over `run_with_retry`. The command and the server
--     behind it, the context and its deadline are the parameter `Cli`: what a program does to a
--     world, and whether a wait passes before the context is done. The two loops count the tries
--     that are left, two after the first in runWithRetry and five in Backup, as their constants
--     say; they need no other bound. Pbs.Stream: RestoreStream, `restore_stream`, whose result is
--     the bytes that can be read; that its reader is closed, and the log, are not modelled.
--     Pbs.Time: the format of a snapshot's time. Pbs.Keeps: what each run keeps, the loops keep.
--
-- internal/stage:
--   Disk: the files and directories, with what is used of Go's package os. A path is clean, so that
--     filepath.Join puts a slash between its parts: the root is clean, and the ids of uploads are
--     hexadecimal digits, since an id that the database does not have is refused first. Each call
--     takes the next fault of a schedule, and a write that fails has written a first part. The
--     names that os.CreateTemp draws are a list, which it goes through until one is free. The order
--     of os.ReadDir is left open. A file that is open is known by its path.
--   Stage: staging.go, `write_to_temp`, `write_part`, `concat_parts` and the others. MD5 is a
--     parameter, a function on bytes. Stage.Temp, Copy, Concat and Total hold their theorems.
--   Stage.Gc: gc.go, `sweep`, `reconcile_on_startup` and `run_gc`, over the times at which the
--     ticker fires.
--
-- internal/backend/backend.go:
--   Backend: the parts that the engine is built with, its state (the database, the scratch disk
--     with the server, the clock and the random bytes), and the steps on each. The command acts on
--     the disk and the server, the parameter `Host`. Backend.Objects, Uploads and Listing: the
--     operations, by the names of the source (ListObjects is `list_grouped`, ListParts
--     `list_upload_parts`). Backend.Interface: the engine as the interface that the handlers of
--     S3Api take. An operation is one step of the state, as it holds the lock of its key to its end
--     (Store.Lock); the interleaving of operations at different keys is not modelled. Errors are
--     the two kinds that the handlers tell apart. The reader of a GET is read to its end and
--     closed.
--   Backend.Laws: what is relied on of proxmox-backup-client, the hypotheses `IsPbs` on one run of
--     it. Backend.Snapshots, Commit, Backed and Invariant: every key has a snapshot of its own.
--     Found, Put, Complete and Assembled: what is found at the keys. Reads: GET and HEAD against
--     the database. Backend.Toy: a host for the tests.
--
-- internal/s3api:
--   S3Api: the interface Backend over the state of an implementation, the answers and errors
--     (backend.go, errors.go, xmlresp.go). S3Api.Route: splitPath and the switch of ServeHTTP
--     (router.go), `dispatch`, for a request that has been authenticated. S3Api.Serve: ServeHTTP,
--     `serve`, with authenticate before it; the request ID and the text of an AuthError are
--     arguments. S3Api.Objects and S3Api.Uploads: the handlers. S3Api.Range: parseRange
--     (get_object.go). S3Api.Etag: the quotes of an ETag. S3Api.Dates: the formats of times. A
--     response is its status, the fields that the handler has set, and its document, not yet
--     written as XML; the reader of the completion document is the parameter `ParseXml`. The
--     content of a GET is all that its reader gives.
--
-- internal/config/config.go:
--   Config: Load is `load`, over the environment as a function from names to values. An error is
--     its kind and the names of the variables.
--
-- cmd/bridge/main.go:
--   Bridge: the client, the verifier, the engine and the handler that run builds from a
--     configuration (`client_of`, `verifier_of`, `engine_of`, `handler_of`), and pbsPassword.
--
-- Not modelled: internal/logging, the flags, the server and the health check of cmd/bridge, which
-- are input and output, and internal/testsign, the signer of the tests.
pub mod Prelude
pub mod Strings
pub mod Sorting
pub mod Http
pub mod IdMap
pub mod SigV4
pub mod Bolt
pub mod Store
pub mod Samples
pub mod Pbs
pub mod S3Api
pub mod Config
pub mod Disk
pub mod Stage
pub mod Backend
pub mod Bridge
