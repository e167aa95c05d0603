-- ===== src/Lib.antt =====
-- nixcached: a cache for Nix store objects in a bucket. The `upload` command reads store paths, one
-- to a line, and writes their archives and `.narinfo` files into a bucket; the `send` command writes
-- such lines into the pipe that an `upload` reads; the `serve` command offers a bucket, the local
-- store or a store behind ssh over HTTP.
--
-- - Prelude: Go's strings as lists of bytes, Boolean tests, options and lists over the native
--   numbers.
-- - Nix: the module zombiezen.com/go/nix, which is not part of the repository, as a parameter.
-- - Shell: `shellEscape`, `isShellSafe` and the command line of `(*SSH).newCommand`
--   (internal/nixstore/ssh.go). Shell/Reader is an independent description of how a POSIX shell
--   splits a simple command into words.
-- - Send: `runSend` and the argument check of send.go. What the file does is a parameter, which may
--   depend on what was written before.
-- - HashPart: `queryPathFromHashPart` (internal/nixstore/local.go). `sort.Search` runs on fuel: `n`
--   rounds for an interval of length `n`, which every round makes shorter.
-- - Compression and NarUrl: `compressionExtensions`, `compressionMIMEType`, `isNARInfoPath`,
--   `parseNARURLPath` and `buildNARURL` (serve.go, upload.go).
-- - Scan: `scanLinesWithEOF` and `matchInlineEOF` (upload.go) under `bufio.Scanner`, whose reads are
--   an arbitrary list of chunks. The fuel of a scan is one more than the bytes in its buffer, and
--   every token takes one at least.
-- - Upload: `uploadStorePath`, `checkUploadOverwrite`, `dump` and `ensureCacheInfo` (upload.go). What
--   the program does to the bucket is a list of writes; Upload/Bucket says what a reader sees after
--   them, and Upload/Concurrent what several uploads do at the same time. Upload/Stream is `dump` as
--   the chain of its writers, and Upload/Pipe the goroutine that makes the listing.
-- - XzWriter: the writer of internal/xzcmd/writer.go, by what it does with its command.
-- - Intake: the scan loop of `runUpload` and `gatherStorePathSet`, with the query as a parameter.
--   Intake/Handover is `runUpload` and `processUploads` as two goroutines: the channel between them, the
--   batches, the end of the context and the deferred wait, as a step relation in which a timer may go
--   off at any time. Intake/Jobs is the semaphore of `processUploads` and the goroutines that hold it,
--   as another one. Intake/Setup is what the command and `runUpload` do before that, and Intake/Reached
--   goes from the sender to the jobs.
-- - Discovery: `signalDiscovery` (serve.go), the task that it starts and the requests that call it,
--   as a step relation. A step is what one goroutine does without giving up the lock.
-- - Stores: `pathInfoFromCLI` and the lookups of the local store (internal/nixstore/local.go), the
--   store behind ssh (ssh.go) and the bucket (bucket.go), over the output of the nix
--   command. Stores/SshList is the listing over sftp, and Stores/Commands the processes that the two
--   stores start, `Query`, `CacheInfo` and `List`.
-- - Serve: `ServeHTTP`, `serveNAR`, `serveNARInfo` and `serveCacheInfo` (serve.go). What the cache
--   connection returns, the parsed URLs and the Accept header are parameters; an answer is the list
--   of what is done to the response writer. Serve/Run is `runServe`, and Serve/Size `formatSize`, whose
--   conversion to floating point rounds to 53 binary digits.
-- - UiCache: the database behind the index page and `uiCacheConn` on it (uicache.go, the statements
--   in uicache/, and `serveIndex` of serve.go). What the statements mean is written out on lists of
--   rows; whether they fail for other reasons than their data is a parameter. `discover` runs on one
--   unit of fuel more than there are digests, and every turn but the last takes one at least.
--   UiCache/Closure is the recursive part of index.sql; it runs on one unit of fuel more than there
--   are references, and every turn takes a row of the queue, on which no row comes twice.
-- - Urls: `path.Clean` and the URLs of a bucket, `OpenBucket` and `urlKey`
--   (internal/nixstore/bucket.go).
-- - Listing: the list iterators of the three stores, on what the directory or the bucket gives.
-- - Download: `Download` of the three stores, and the settings of a store behind ssh.
-- - BatchInfo: `BatchNARInfo` (internal/nixstore/nixstore.go), whose goroutines are a step relation.
-- - Calls: `openFileCtx` and `writeCtx` (main.go), as one step relation with the files that are open.
-- - Entry: the openers of buckets and the exit status (main.go).
-- - Tests: small runs, and the theorems at concrete inputs.
--
-- Not modelled: flags and logging, the migrations of the database, which a library applies
-- (uicache.go), the options of the HTTP server (serve.go), the processes of the stores in
-- internal/nixstore, and the input and output of the libraries.
pub mod Prelude
pub mod Nix
pub mod Shell
pub mod Send
pub mod HashPart
pub mod Compression
pub mod NarUrl
pub mod Scan
pub mod Upload
pub mod XzWriter
pub mod Intake
pub mod Discovery
pub mod Stores
pub mod Serve
pub mod UiCache
pub mod Urls
pub mod Listing
pub mod Download
pub mod BatchInfo
pub mod Calls
pub mod Entry
mod Tests
