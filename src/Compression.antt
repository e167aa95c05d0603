-- ===== src/Compression.antt =====
-- The values of `nix.CompressionType` that the program tells apart, and what it derives from them:
-- `compressionExtensions` (serve.go) and `compressionMIMEType` (upload.go).
use nixcached.Prelude.{Bool, true, false, Option, none, some, Bytes, codes, [], same}

pub data Compression : Type 0 where
  unset : Compression
  no_compression : Compression
  gzip : Compression
  bzip2 : Compression
  brotli : Compression
  xz : Compression
  zstandard : Compression
  other : Bytes → Compression

unfoldable pub compression_extension : Compression → Option Bytes
compression_extension no_compression = some []
compression_extension bzip2 = some (codes ".bz2")
compression_extension gzip = some (codes ".gz")
compression_extension brotli = some (codes ".br")
compression_extension xz = some (codes ".xz")
compression_extension c = none

unfoldable pub compression_mime_type : Bytes → Compression → Bytes
compression_mime_type underlying unset = underlying
compression_mime_type underlying no_compression = underlying
compression_mime_type underlying gzip = codes "application/gzip"
compression_mime_type underlying bzip2 = codes "application/x-bzip2"
compression_mime_type underlying xz = codes "application/x-xz"
compression_mime_type underlying zstandard = codes "application/zstd"
compression_mime_type underlying c = codes "application/octet-stream"

-- `==` on compression types.
unfoldable pub same_compression : Compression → Compression → Bool
same_compression unset unset = true
same_compression no_compression no_compression = true
same_compression gzip gzip = true
same_compression bzip2 bzip2 = true
same_compression brotli brotli = true
same_compression xz xz = true
same_compression zstandard zstandard = true
same_compression (other s) (other t) = same s t
same_compression c d = false
