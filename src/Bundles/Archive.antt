-- ===== src/Bundles/Archive.antt =====
-- The archive that internal/roomctl/build.go writes and the list of files in its manifest.
use sys_escape.Prelude.{
  ◌≡◌, refl, ap, ◌∙◌, List, [], ◌∷◌, ◌++◌, Option, none, some, String, if◌then◌else◌, ok, or_err,
  ◌>>=◌, head_of-ok, ok_inj, next_of-ok, or_err-some, map_err, fail_if, ◌>>◌, subst, arith,
  Option-cases, Bool-cases, inl, inr,
}
use sys_escape.Bundles.Build.{
  Node, Listing, file, special, no_info, unlisted, folder, nil, entry, BundleEntry, Collected,
  with_file, with_folder, walk, walk_node, collect_bundle_entries, pack_room, Packed, BuildTools,
  create_deterministic_tar, pack_found, invalid, bad_build_version, TarHeader, header_of,
  headers_of, BuildError, bad_tar,
}
use sys_escape.Prelude.Int.{ℤ, pos, ltb_ℤ}
use sys_escape.Prelude.Text.{str_eq}
use sys_escape.Bundles.Check.{
  Disk, Decoders, Metadata, parse_yaml, validate_room_dir, check_engine_b_leak,
}
use sys_escape.Bundles.Paths.{join}

-- The names of the files among the entries, and among the members of the archive.
abbrev pub file_names : List BundleEntry → List String
file_names [] = []
file_names (e ∷ entries) = if e.is_dir then file_names entries else e.rel ∷ file_names entries

abbrev pub regular_names : List TarHeader → List String
regular_names [] = []
regular_names (h ∷ headers) =
    if h.is_regular then h.name ∷ regular_names headers else regular_names headers

abbrev Lists : Collected → Type 0
Lists c = file_names c.0 ≡ c.1

file_names-++ : (es fs : List BundleEntry) → file_names (es ++ fs) ≡ file_names es ++ file_names fs
file_names-++ [] fs = refl
file_names-++ (e ∷ es) fs = ground (arith, file_names-++ es fs)

with_folder-Lists :
    (rel : String) (inner found : Collected)
    → Lists inner
    → Lists found
    → Lists (with_folder rel inner found)
with_folder-Lists rel inner found i f = rw (file_names-++ inner.0 found.0, i, f) refl

mutual
  unfolding walk

  walk-Lists : (rel : String) (l : Listing) (c : Collected) → walk rel l ≡ ok c → Lists c
  walk-Lists rel nil c h = subst Lists (ok_inj ([], []) c h) refl
  walk-Lists rel (entry name node others) c h =
      let (f, g, e) =
        head_of-ok (λ found. walk rel others >>= λ rest. ok (found rest))
          (walk_node (join rel name) node) h in
      let (rest, k, d) = head_of-ok (λ rest. ok (f rest)) (walk rel others) g in
      subst Lists (ok_inj (f rest) c k)
        (walk_node-Lists (join rel name) node f rest e (walk-Lists rel others rest d))

  walk_node-Lists :
      (rel : String) (n : Node) (f : Collected → Collected) (c : Collected)
      → walk_node rel n ≡ ok f
      → Lists c
      → Lists (f c)
  walk_node-Lists rel (file content) f c h k =
      subst (λ (g : Collected → Collected). Lists (g c)) (ok_inj (with_file rel content) f h)
        (ap (λ names. rel ∷ names) k)
  walk_node-Lists rel special f c h k = absurd (ground (arith, h))
  walk_node-Lists rel no_info f c h k = absurd (ground (arith, h))
  walk_node-Lists rel unlisted f c h k = absurd (ground (arith, h))
  walk_node-Lists rel (folder inner) f c h k =
      let (found, g, e) = head_of-ok (λ found. ok (with_folder rel found)) (walk rel inner) h in
      subst (λ (g : Collected → Collected). Lists (g c)) (ok_inj (with_folder rel found) f g)
        (with_folder-Lists rel found c (walk-Lists rel inner found e) k)

one_header :
    (e : BundleEntry) (h : TarHeader) (entries : List BundleEntry) (headers : List TarHeader)
    → or_err bad_tar (header_of e) ≡ ok h
    → regular_names headers ≡ file_names entries
    → regular_names (h ∷ headers) ≡ file_names (e ∷ entries)
one_header e h entries headers d k = elim (Bool-cases e.is_dir) [
  | inl i ↦ ground (arith, d, i, k)
  | inr i ↦ elim (Option-cases e.content) [
    | inr (text, t) ↦ ground (arith, d, i, k, t)
    | inl t ↦ absurd (ground (arith, d, i, t))
  ]
]

headers_of-names :
    (entries : List BundleEntry) (headers : List TarHeader)
    → headers_of entries ≡ ok headers
    → regular_names headers ≡ file_names entries
unfolding headers_of
headers_of-names [] headers h = subst (λ hs. regular_names hs ≡ []) (ok_inj [] headers h) refl
headers_of-names (e ∷ entries) headers h =
    let (first, g, d) =
      head_of-ok (λ first. headers_of entries >>= λ rest. ok (first ∷ rest))
        (or_err bad_tar (header_of e)) h in
    let (rest, k, b) = head_of-ok (λ rest. ok (first ∷ rest)) (headers_of entries) g in
    subst (λ hs. regular_names hs ≡ file_names (e ∷ entries)) (ok_inj (first ∷ rest) headers k)
      (one_header e first entries rest d (headers_of-names entries rest b))

-- An archive was written of headers of which the regular ones are the files.
pub record IsPacked (tools : BuildTools) (packed : Packed) : Type 0 where
  pub headers : List TarHeader
  pub is_written : tools.write_tar headers ≡ some packed.archive
  pub is_listed : regular_names headers ≡ packed.files

collect_bundle_entries-Lists :
    (root : Option Listing) (c : Collected) → collect_bundle_entries root ≡ ok c → Lists c
unfolding collect_bundle_entries
collect_bundle_entries-Lists none c h = cc
collect_bundle_entries-Lists (some l) c h = walk-Lists "" l c h

create_deterministic_tar-written :
    (tools : BuildTools) (entries : List BundleEntry) (archive : String)
    → create_deterministic_tar tools entries ≡ ok archive
    → (headers : List TarHeader) × (tools.write_tar headers ≡ some archive)
      × (regular_names headers ≡ file_names entries)
unfolding create_deterministic_tar
create_deterministic_tar-written tools entries archive h =
    let (headers, k, e) =
      head_of-ok (λ headers. or_err bad_tar (tools.write_tar headers)) (headers_of entries) h in
    (
      headers,
      or_err-some archive bad_tar (tools.write_tar headers) k,
      headers_of-names entries headers e,
    )

pack_found-IsPacked :
    (tools : BuildTools) (meta : Metadata) (found : Collected) (packed : Packed)
    → Lists found
    → pack_found tools meta found ≡ ok packed
    → IsPacked tools packed
unfolding pack_found
pack_found-IsPacked tools meta found packed lists h =
    let pack : String → Packed =
      λ archive. record { meta = meta; files = found.1; archive = archive } in
    let made = create_deterministic_tar tools found.0 in
    let leak =
      if str_eq meta.engine "B" then map_err invalid (check_engine_b_leak found.1) else ok tt in
    let (archive, same, k) =
      head_of-ok {E = BuildError} (λ archive. ok (pack archive)) made
        (next_of-ok packed leak (made >>= λ archive. ok (pack archive)) h) in
    let (headers, written, listed) = create_deterministic_tar-written tools found.0 archive k in
    subst (IsPacked tools) (ok_inj (pack archive) packed same)
      (record { headers = headers; is_written = written; is_listed = listed ∙ lists })

pub pack_room-IsPacked :
    (tools : BuildTools) (disk : Disk) (decoders : Decoders) (room_dir : String)
    (root : Option Listing) (version : ℤ) (packed : Packed)
    → pack_room tools disk decoders room_dir root version ≡ ok packed
    → IsPacked tools packed
unfolding pack_room
pack_room-IsPacked tools disk decoders room_dir root version packed h =
    let found_of = λ (meta : Metadata). collect_bundle_entries root >>= pack_found tools meta in
    let meta_of =
      map_err invalid (parse_yaml disk decoders.metadata (join room_dir "metadata.yaml")) in
    let valid = map_err invalid (validate_room_dir disk decoders room_dir) in
    let version_ok = fail_if (ltb_ℤ version (pos 1)) bad_build_version in
    let (meta, k, m) = head_of-ok found_of meta_of (
      next_of-ok packed valid (meta_of >>= found_of)
        (next_of-ok packed version_ok (valid >> (meta_of >>= found_of)) h)) in
    let (found, j, c) = head_of-ok (pack_found tools meta) (collect_bundle_entries root) k in
    pack_found-IsPacked tools meta found packed (collect_bundle_entries-Lists root found c) j
