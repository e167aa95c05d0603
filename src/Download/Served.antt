-- ===== src/Download/Served.antt =====
-- The URLs that the local store and a store behind ssh give, and their downloads.
use nixcached.Prelude.{
  ◌≡◌, refl, sym, ap, ◌∙◌, true, false, List, [], ◌∷◌, Option, none, some, some_inj, Option-cases,
  inl, inr, if_rule, map, All, is_empty, Bytes, codes, same, same_refl, has_prefix,
}
use nixcached.Nix.{Nix, StorePath}
use nixcached.NarUrl.{is_digest}
use nixcached.Upload.{NarInfo}
use nixcached.Serve.{Download, broken}
use nixcached.Stores.{
  Cli, on_this_machine, behind_ssh, url_of, answer, has_hash, path_info_from_cli,
  batch_nar_info_from_cli, set_info_url, sort_digests, batch_nar_info, ssh_result, ssh_nar_info,
  query_chunks, single_result, local_nar_info,
}
use nixcached.Urls.{Url}
use nixcached.Download.{
  Ssh, dir_or_default, remote_url, local_url, whole_path, local_download, dump_path_args,
  ssh_download,
}

answer_inj : {i j : NarInfo} → answer i ≡ answer j → i ≡ j
answer_inj e = cc e

module _ (cli : Cli) where
  -- An info with the URL of its store path.
  abbrev IsOwn : NarInfo → Type 0
  IsOwn info = info.url ≡ url_of cli info.store_path

  IsOwn-All : (infos : List NarInfo) → All IsOwn (map (set_info_url cli) infos)
  unfolding set_info_url
  IsOwn-All [] = tt
  IsOwn-All (info ∷ infos) = (refl, IsOwn-All infos)

  own : (info : NarInfo) → IsOwn (set_info_url cli info)
  unfolding set_info_url
  own info = refl

  moved : (i j : NarInfo) → i ≡ j → IsOwn i → IsOwn j
  moved i j e o =
      ap (λ (x : NarInfo). x.url) (sym e) ∙ o ∙ ap (λ (x : NarInfo). url_of cli x.store_path) e

  batch_nar_info-IsOwn :
      (nix : Nix) (dir : Bytes) (listing : Option (List Bytes)) (digests : List Bytes)
      (infos : List NarInfo)
      → batch_nar_info cli nix dir listing digests ≡ some infos
      → All IsOwn infos
  unfolding batch_nar_info
  batch_nar_info-IsOwn nix dir none digests infos h = cc h
  batch_nar_info-IsOwn nix dir (some entries) digests infos h =
      let (outputs, derivations) = sort_digests cli nix dir entries digests in
      elim (Option-cases (batch_nar_info_from_cli cli outputs derivations)) [
        | inl e ↦ cc (rw (e, batch_nar_info) at h)
        | inr (found, e) ↦ rw (some_inj (rw (e, batch_nar_info) at h)) at (IsOwn-All found)
      ]

  ssh_result-IsOwn :
      (nix : Nix) (dir : Bytes) (o : Option (List NarInfo)) (info : NarInfo)
      → ((infos : List NarInfo) → o ≡ some infos → All IsOwn infos)
      → ssh_result cli nix dir o ≡ answer info
      → IsOwn info
  unfolding ssh_result
  ssh_result-IsOwn nix dir none info h e = cc e
  ssh_result-IsOwn nix dir (some []) info h e = cc e
  ssh_result-IsOwn nix dir (some (i ∷ [])) info h e =
      if_rule (λ a. a ≡ answer info → IsOwn info) (has_hash i) _ _
        (λ _ k. moved i info (answer_inj k) (h (i ∷ []) refl).0) (λ _ k. cc k) e
  ssh_result-IsOwn nix dir (some (i ∷ j ∷ infos)) info h e = cc e

  single_result-IsOwn :
      (nix : Nix) (dir : Bytes) (o : Option (List NarInfo)) (info : NarInfo)
      → single_result cli nix dir o ≡ answer info
      → IsOwn info
  unfolding single_result set_info_url
  single_result-IsOwn nix dir none info e = cc e
  single_result-IsOwn nix dir (some []) info e = cc e
  single_result-IsOwn nix dir (some (i ∷ [])) info e =
      if_rule (λ a. a ≡ answer info → IsOwn info) (has_hash i) _ _
        (λ _ k. moved (set_info_url cli i) info (answer_inj k) (own i)) (λ _ k. cc k) e
  single_result-IsOwn nix dir (some (i ∷ j ∷ infos)) info e = cc e

  local_nar_info-IsOwn :
      (nix : Nix) (dir : Bytes) (chunks : List (List Bytes)) (digest : Bytes) (info : NarInfo)
      → local_nar_info cli nix dir chunks digest ≡ answer info
      → IsOwn info
  unfolding local_nar_info
  local_nar_info-IsOwn nix dir chunks digest info h =
      if_rule (λ a. a ≡ answer info → IsOwn info) (is_digest nix digest) _ _
        (λ _ k. elim (Option-cases (query_chunks cli nix dir chunks digest)) [
          | inl e ↦ cc (rw (e, local_nar_info) at k)
          | inr (p, e) ↦
              single_result-IsOwn nix dir
                (path_info_from_cli cli (nix.is_derivation p) false (p ∷ [])) info
                (rw (e, local_nar_info) at k)
        ])
        (λ _ k. cc k) h

-- What is downloaded for a URL that the URL parser may refuse.
abbrev pub followed : (Bytes → Option Url) → (Url → Download) → Bytes → Download
followed parse download text = elim (parse text) [ none ↦ broken [] | some u ↦ download u ]

url_of-ssh :
    (cli : Cli) (s : Ssh) (p : StorePath)
    → cli.origin ≡ behind_ssh s
    → url_of cli p ≡ cli.print_url s.username (remote_url s p)
url_of-ssh cli s p o = rw o refl

url_of-local :
    (cli : Cli) (p : StorePath)
    → cli.origin ≡ on_this_machine
    → url_of cli p ≡ cli.print_url [] (local_url p)
url_of-local cli p o = rw o refl

-- A store path of the store directory, as `ParsePath` takes it.
pub record IsStorePath (nix : Nix) (dir : Bytes) (p : StorePath) : Type 0 where
  pub filled : is_empty p ≡ false
  pub absolute : has_prefix (codes "/") p ≡ true
  pub parsed : nix.parse_path dir p ≡ some (p, [])

ssh_download-remote_url :
    (nix : Nix) (s : Ssh) (run : List Bytes → Download) (p : StorePath)
    → IsStorePath nix (dir_or_default nix s.directory) p
    → ssh_download nix s run (remote_url s p) ≡ run (dump_path_args p)
unfolding ssh_download whole_path remote_url same
ssh_download-remote_url nix s run p i = rw (same_refl s.host, i.filled, i.parsed) refl

local_download-local_url :
    (nix : Nix) (dir : Bytes) (dump : StorePath → Download) (p : StorePath)
    → IsStorePath nix dir p
    → local_download nix dir dump (local_url p) ≡ dump p
unfolding local_download whole_path local_url same
local_download-local_url nix dir dump p i = rw (i.filled, i.parsed) refl

-- The URL that `setInfoURL` puts into each info that a store behind ssh answers, whose store path lies in
-- its directory, leads to `nix nar dump-path` on that store path, if net/url parses the URLs of the store's
-- host and user with absolute paths again as it printed them.
pub ssh_download-ssh_nar_info :
    (cli : Cli) (nix : Nix) (s : Ssh) (run : List Bytes → Download) (parse : Bytes → Option Url)
    (listing : Option (List Bytes)) (digest : Bytes) (info : NarInfo)
    → cli.origin ≡ behind_ssh s
    → ((p : StorePath)
        → has_prefix (codes "/") p ≡ true
        → parse (cli.print_url s.username (remote_url s p)) ≡ some (remote_url s p))
    → IsStorePath nix (dir_or_default nix s.directory) info.store_path
    → ssh_nar_info cli nix (dir_or_default nix s.directory) listing digest ≡ answer info
    → followed parse (ssh_download nix s run) info.url ≡ run (dump_path_args info.store_path)
unfolding ssh_nar_info
ssh_download-ssh_nar_info cli nix s run parse listing digest info o u i h =
    let own =
      ssh_result-IsOwn cli nix (dir_or_default nix s.directory)
        (batch_nar_info cli nix (dir_or_default nix s.directory) listing (digest ∷ [])) info
        (λ infos e.
          batch_nar_info-IsOwn cli nix (dir_or_default nix s.directory) listing (digest ∷ []) infos
            e)
        h in
    ap (followed parse (ssh_download nix s run)) (own ∙ url_of-ssh cli s info.store_path o)
    ∙ rw (followed, u info.store_path i.absolute)
        (ssh_download-remote_url nix s run info.store_path i)

-- Where the URLs of the local store are printed so that they are parsed again, the URL of each info
-- that it answers, whose store path lies in its directory, leads to the archive of that store path.
pub local_download-local_nar_info :
    (cli : Cli) (nix : Nix) (dir : Bytes) (dump : StorePath → Download) (parse : Bytes → Option Url)
    (chunks : List (List Bytes)) (digest : Bytes) (info : NarInfo)
    → cli.origin ≡ on_this_machine
    → ((p : StorePath)
        → has_prefix (codes "/") p ≡ true
        → parse (cli.print_url [] (local_url p)) ≡ some (local_url p))
    → IsStorePath nix dir info.store_path
    → local_nar_info cli nix dir chunks digest ≡ answer info
    → followed parse (local_download nix dir dump) info.url ≡ dump info.store_path
local_download-local_nar_info cli nix dir dump parse chunks digest info o u i h =
    ap (followed parse (local_download nix dir dump))
      (local_nar_info-IsOwn cli nix dir chunks digest info h ∙ url_of-local cli info.store_path o)
    ∙ rw (followed, u info.store_path i.absolute)
        (local_download-local_url nix dir dump info.store_path i)
