-- ===== src/Bundles/Build.antt =====
-- internal/roomctl/build.go and manifest.go. What the walk meets under a directory comes as a tree; the
-- writer of archive/tar and crypto/sha256 are the parameter `BuildTools`.
use sys_escape.Prelude.{
  ℕ, Bool, true, false, List, [], ◌∷◌, ◌++◌, Option, none, some, String, if◌then◌else◌, Result, ok,
  err, not, fail_if, or_err, map_err, ◌>>=◌, ◌>>◌,
}
use sys_escape.Prelude.Int.{ℤ, pos, ltb_ℤ}
use sys_escape.Prelude.Text.{str_eq, append_text}
use sys_escape.Bundles.Paths.{join}
use sys_escape.Bundles.Check.{
  Metadata, Disk, Decoders, CheckError, parse_yaml, validate_room_dir, check_engine_b_leak,
}

-- A file has its content, `none` where reading it fails; `special` is no regular file.
mutual
  pub data Node : Type 0 where
    file : Option String → Node
    special no_info unlisted : Node
    folder : Listing → Node

  -- What `os.ReadDir` gives, in its order.
  pub data Listing : Type 0 where
    nil : Listing
    entry : String → Node → Listing → Listing

pub data BuildError : Type 0 where
  bad_build_version bad_tar no_output : BuildError
  invalid : CheckError → BuildError
  unreadable_dir unreadable_info unsupported : String → BuildError

-- `content` stands for what reading the file at `abs` gives.
pub record BundleEntry : Type 0 where
  pub rel : String
  pub is_dir : Bool
  pub content : Option String

-- The entries and the names of the files.
abbrev pub Collected : Type 0
Collected = List BundleEntry × List String

abbrev pub with_file : String → Option String → Collected → Collected
with_file rel content (entries, files) =
    (record { rel = rel; is_dir = false; content = content } ∷ entries, rel ∷ files)

abbrev pub with_folder : String → Collected → Collected → Collected
with_folder rel (inner, inner_files) (entries, files) =
    (record { rel = rel; is_dir = true; content = none } ∷ inner ++ entries, inner_files ++ files)

-- The closure `walk`, and one round of its loop.
unfoldable mutual
  unfolding join

  pub walk : String → Listing → Result BuildError Collected
  walk rel nil = ok ([], [])
  walk rel (entry name node others) =
      walk_node (join rel name) node >>= λ found. walk rel others >>= λ rest. ok (found rest)

  pub walk_node : String → Node → Result BuildError (Collected → Collected)
  walk_node rel (file content) = ok (with_file rel content)
  walk_node rel special = err (unsupported rel)
  walk_node rel no_info = err (unreadable_info rel)
  walk_node rel unlisted = err (unreadable_dir rel)
  walk_node rel (folder inner) = walk rel inner >>= λ found. ok (with_folder rel found)

-- `none` is a directory that cannot be listed.
unfoldable pub collect_bundle_entries : Option Listing → Result BuildError Collected
unfolding walk
collect_bundle_entries root = do listing ← or_err (unreadable_dir "") root; walk "" listing

-- The owner is 0, its names are empty and the times are those of the epoch in every header; the size is
-- that of the content.
pub record TarHeader : Type 0 where
  pub name : String
  pub is_regular : Bool
  pub mode : ℕ
  pub content : String

abbrev pub header_of : BundleEntry → Option TarHeader
header_of e =
    if e.is_dir
    then some
        (record { name = append_text e.rel "/"; is_regular = false; mode = 493; content = "" })
    else elim e.content [
      | none ↦ none
      | some text ↦ some (record { name = e.rel; is_regular = true; mode = 420; content = text })
    ]

unfoldable pub headers_of : List BundleEntry → Result BuildError (List TarHeader)
headers_of [] = ok []
headers_of (e ∷ entries) = do h ← or_err bad_tar (header_of e); hs ← headers_of entries; ok (h ∷ hs)

-- `sha256` gives the sum in hexadecimal; `none` of `write_tar` is an error of the writer.
pub record BuildTools : Type 0 where
  pub write_tar : List TarHeader → Option String
  pub sha256 : String → String

unfoldable pub create_deterministic_tar : BuildTools → List BundleEntry → Result BuildError String
unfolding headers_of
create_deterministic_tar tools entries = do
  headers ← headers_of entries
  or_err bad_tar (tools.write_tar headers)

pub record Manifest : Type 0 where
  pub schema_version : ℤ
  pub slug : String
  pub engine : String
  pub version : ℤ
  pub bundle_hash_sha256 : String
  pub files : List String
  pub built_at : String

pub record BuildResult : Type 0 where
  pub bundle_path : String
  pub manifest_path : String
  pub manifest : Manifest

-- The two files of the output directory, the manifest in place of its JSON; what a failed write leaves
-- behind counts as unreadable.
pub record BuiltFiles : Type 0 where
  pub bundle_tar : Option String
  pub manifest_json : Option Manifest

-- Which steps on the output directory work, and the time.
pub record OutputWeather : Type 0 where
  pub makes_dir : Bool
  pub writes_bundle : Bool
  pub writes_manifest : Bool
  pub built_at : String

-- What is known before anything is written.
pub record Packed : Type 0 where
  pub meta : Metadata
  pub files : List String
  pub archive : String

-- After the walk.
unfoldable pub pack_found : BuildTools → Metadata → Collected → Result BuildError Packed
unfolding check_engine_b_leak create_deterministic_tar
pack_found tools meta found = do
  (if str_eq meta.engine "B" then map_err invalid (check_engine_b_leak found.1) else ok tt)
  archive ← create_deterministic_tar tools found.0
  ok (record { meta = meta; files = found.1; archive = archive })

unfoldable pub pack_room :
    BuildTools → Disk → Decoders → String → Option Listing → ℤ → Result BuildError Packed
unfolding validate_room_dir parse_yaml join collect_bundle_entries pack_found
pack_room tools disk decoders room_dir root version = do
  fail_if (ltb_ℤ version (pos 1)) bad_build_version
  map_err invalid (validate_room_dir disk decoders room_dir)
  meta ← map_err invalid (parse_yaml disk decoders.metadata (join room_dir "metadata.yaml"))
  found ← collect_bundle_entries root
  pack_found tools meta found

abbrev pub manifest_of : BuildTools → OutputWeather → ℤ → Packed → Manifest
manifest_of tools weather version packed = record {
  schema_version = pos 1;
  slug = packed.meta.slug;
  engine = packed.meta.engine;
  version = version;
  bundle_hash_sha256 = tools.sha256 packed.archive;
  files = packed.files;
  built_at = weather.built_at;
}

abbrev pub write_output :
    OutputWeather → Manifest → String → BuiltFiles → BuiltFiles × Result BuildError BuildResult
write_output weather manifest archive before =
    let dir = join ".build" manifest.slug in
    if not weather.makes_dir
    then (before, err no_output)
    else if not weather.writes_bundle
    then (record before { bundle_tar = none }, err no_output)
    else if not weather.writes_manifest
    then (record { bundle_tar = some archive; manifest_json = none }, err no_output)
    else (
      record { bundle_tar = some archive; manifest_json = some manifest },
      ok (record {
        bundle_path = join dir "bundle.tar";
        manifest_path = join dir "manifest.json";
        manifest = manifest;
      }),
    )

abbrev pub write_packed :
    BuildTools
    → OutputWeather
    → ℤ
    → BuiltFiles
    → Result BuildError Packed
    → BuiltFiles × Result BuildError BuildResult
write_packed tools weather version before (err e) = (before, err e)
write_packed tools weather version before (ok packed) =
    write_output weather (manifest_of tools weather version packed) packed.archive before

unfoldable pub build_room :
    BuildTools
    → Disk
    → Decoders
    → OutputWeather
    → String
    → Option Listing
    → ℤ
    → BuiltFiles
    → BuiltFiles × Result BuildError BuildResult
unfolding pack_room
build_room tools disk decoders weather room_dir root version before =
    write_packed tools weather version before (pack_room tools disk decoders room_dir root version)
