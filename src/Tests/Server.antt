-- ===== src/Tests/Server.antt =====
-- Examples of requests.
use nixcached.Prelude.{
  ◌≡◌, refl, true, arith, [], ◌∷◌, some, inl, inr, Bytes, codes, same, contains_byte, cut_prefix,
  cut_suffix,
}
use nixcached.Compression.{
  unset, no_compression, gzip, bzip2, brotli, xz, zstandard, other, compression_extension,
}
use nixcached.NarUrl.{trim_prefix, is_nar_info_path, build_nar_url}
use nixcached.Upload.{NarInfo}
use nixcached.Serve.{Backend, hit, complete, get, trim_suffix, serve_nar, serve_nar_info}
use nixcached.Serve.Links.{VisitsAll, archive_reply, serve_nar_info-served}
use nixcached.Serve.Route.{Site, NoSlash}
use nixcached.Tests.Small.{tiny, all_orders}
use nixcached.Tests.Bucket.{reported}

-- The cache has one object, whose archive lies elsewhere.
abbrev stored : NarInfo
stored = record reported { url = codes "file:///a"; compression = gzip }

abbrev backend : Backend Bytes
backend = record {
  connects = true;
  nar_info = λ digest. hit stored;
  cache_info = some (codes "/nix/store");
  parse_url = λ text. some text;
  download = λ url. complete (codes "archive");
  marshal_text = λ info. some info.url;
  marshal_cache_info = λ dir. some dir;
  format_int = λ n. codes "0";
  sri = λ hash. hash;
  nar_mime_type = codes "application/x-nix-nar";
  nar_info_mime_type = codes "text/x-nix-narinfo";
  cache_info_mime_type = codes "text/x-nix-cache-info";
}

all_orders-VisitsAll : VisitsAll all_orders
unfolding compression_extension
all_orders-VisitsAll unset ext e = cc e
all_orders-VisitsAll no_compression ext e = inr (inl refl)
all_orders-VisitsAll gzip ext e = inr (inr (inl refl))
all_orders-VisitsAll bzip2 ext e = inr (inr (inr (inr (inl refl))))
all_orders-VisitsAll brotli ext e = inr (inr (inr (inl refl)))
all_orders-VisitsAll xz ext e = inl refl
all_orders-VisitsAll zstandard ext e = cc e
all_orders-VisitsAll (other s) ext e = cc e

serve_nar_info-served_example :
    (info : NarInfo) × (backend.nar_info
        (trim_suffix (codes ".narinfo") (trim_prefix (codes "/") (codes "/ab.narinfo")))
      ≡ hit info)
    × (record stored { url = codes "nar/ab.nar.gz" } ≡ record info { url = codes "nar/ab.nar.gz" })
    × (serve_nar tiny all_orders backend get (codes "/nar/ab.nar.gz")
        ≡ archive_reply tiny all_orders backend get info)
unfolding serve_nar_info is_nar_info_path build_nar_url compression_extension cut_prefix cut_suffix
    same contains_byte
serve_nar_info-served_example =
    serve_nar_info-served tiny all_orders backend refl all_orders-VisitsAll get
      (codes "/ab.narinfo") (record stored { url = codes "nar/ab.nar.gz" })
      ((codes "Content-Type", codes "text/x-nix-narinfo")
        ∷ (codes "Content-Length", codes "0")
        ∷ [])
      (codes "nar/ab.nar.gz") refl

tiny-NoSlash : NoSlash tiny
unfolding contains_byte
tiny-NoSlash dir [] h = refl
tiny-NoSlash dir (a ∷ []) h = refl
tiny-NoSlash dir (a ∷ b ∷ []) h = refl
tiny-NoSlash dir (a ∷ b ∷ c ∷ rest) h = ground arith

abbrev site : Site Bytes
site = record {
  has_templates = true;
  has_static = true;
  cache_info_name = codes "nix-cache-info";
  parse_accept = λ text. some text;
  html_quality = λ text. 1000;
  nar_info_quality = λ text. 1000;
  nar_info_first = codes "text/x-nix-narinfo,*/*;q=0.9";
}
