-- ===== src/Tool/Publish.antt =====
-- `PublishRoom` of internal/roomctl/publish.go, with the upload of internal/platform/storage/bundle_store.go.
use sys_escape.Prelude.{
  Bool, List, Option, none, String, if◌then◌else◌, not, Result, ok, err, fail_if, or_err, map_err,
  ◌>>=◌, ◌>>◌,
}
use sys_escape.Prelude.Int.{ℤ}
use sys_escape.Prelude.Assoc.{insert}
use sys_escape.Prelude.Text.{append_text}
use sys_escape.Bundles.Check.{Disk, Decoders, CheckError, validate_room_dir}
use sys_escape.Bundles.Build.{
  Listing, BuildTools, BuildError, BuildResult, BuiltFiles, Manifest, OutputWeather, build_room,
}
use sys_escape.Settings.Env.{Env}
use sys_escape.Tool.Options.{
  PublishOptions, OptionError, with_publish_defaults, validate_publish_options,
}
use sys_escape.Tool.Client.{
  Wire, ClientError, PublishMutationInput, new_graphql_client, client_publish_room_version,
}

pub record PublishResult : Type 0 where
  pub slug : String
  pub version : ℤ
  pub hash : String
  pub activated : Bool
  pub room_version_id : String

pub data PublishError : Type 0 where
  bad_options : OptionError → PublishError
  invalid_room : CheckError → PublishError
  build_failed : BuildError → PublishError
  client_failed : ClientError → PublishError
  unreadable_bundle no_store upload_failed : PublishError

-- What the tool runs in: the room directories (`list_room` for the walk), the network, and whether the
-- archive can be read back, the store of the options opens (`NewS3BundleStore`) and the PutObject works.
pub record Workplace : Type 0 where
  pub env : Env
  pub disk : Disk
  pub decoders : Decoders
  pub tools : BuildTools
  pub list_room : String → Option Listing
  pub output : OutputWeather
  pub wire : Wire
  pub new_uuid : String
  pub reads_bundle : Bool
  pub connects : Bool
  pub uploads : Bool

-- The objects of the bucket, by key, and the files in the output directory of the room.
pub record Stores : Type 0 where
  pub objects : List (String × String)
  pub built : BuiltFiles

unfoldable pub object_key : String → String
object_key hash = append_text "bundles/" (append_text hash ".tar")

-- `S3BundleStore.Upload`: a PutObject.
unfoldable pub upload : String → String → List (String × String) → List (String × String)
unfolding insert object_key
upload hash bytes objects = insert (object_key hash) bytes objects

-- Before anything is built.
unfoldable pub checked_options : Workplace → PublishOptions → Result PublishError PublishOptions
unfolding with_publish_defaults validate_publish_options validate_room_dir
checked_options w opts = do
  map_err bad_options (validate_publish_options (with_publish_defaults w.env opts))
  map_err invalid_room
      (validate_room_dir w.disk w.decoders (with_publish_defaults w.env opts).room_dir)
  ok (with_publish_defaults w.env opts)

-- After the build: the bytes to upload.
unfoldable pub bundle_to_upload :
    Workplace → BuiltFiles → Result BuildError BuildResult → Result PublishError (Manifest × String)
bundle_to_upload w built result = do
  res ← map_err build_failed result
  bundle ← or_err unreadable_bundle (if w.reads_bundle then built.bundle_tar else none)
  fail_if (not w.connects) no_store
  fail_if (not w.uploads) upload_failed
  ok (res.manifest, bundle)

abbrev pub mutation_input : Workplace → PublishOptions → Manifest → PublishMutationInput
mutation_input w opts manifest = record {
  client_request_id = w.new_uuid;
  room_slug = manifest.slug;
  version = opts.version;
  changelog = opts.changelog;
  bundle_hash_sha256 = manifest.bundle_hash_sha256;
  activate = opts.activate;
}

-- After the upload.
unfoldable pub announce : Workplace → PublishOptions → Manifest → Result PublishError PublishResult
unfolding new_graphql_client client_publish_room_version
announce w opts manifest = do
  published ← map_err client_failed (
      client_publish_room_version w.wire (new_graphql_client opts.bff_url opts.admin_api_key)
        (mutation_input w opts manifest))
  ok (record {
    slug = manifest.slug;
    version = opts.version;
    hash = manifest.bundle_hash_sha256;
    activated = opts.activate;
    room_version_id = published.id;
  })

abbrev pub built_of :
    Workplace → PublishOptions → Stores → BuiltFiles × Result BuildError BuildResult
built_of w opts s =
    build_room w.tools w.disk w.decoders w.output opts.room_dir (w.list_room opts.room_dir)
      opts.version s.built

abbrev pub upload_and_announce :
    Workplace
    → PublishOptions
    → List (String × String)
    → BuiltFiles
    → Result PublishError (Manifest × String)
    → Stores × Result PublishError PublishResult
upload_and_announce w opts objects built (err e) =
    (record { objects = objects; built = built }, err e)
upload_and_announce w opts objects built (ok (manifest, bundle)) = (
  record { objects = upload manifest.bundle_hash_sha256 bundle objects; built = built },
  announce w opts manifest,
)

abbrev pub publish_built :
    Workplace
    → PublishOptions
    → Stores
    → BuiltFiles × Result BuildError BuildResult
    → Stores × Result PublishError PublishResult
publish_built w opts s (built, result) =
    upload_and_announce w opts s.objects built (bundle_to_upload w built result)

abbrev pub build_and_publish :
    Workplace
    → Stores
    → Result PublishError PublishOptions
    → Stores × Result PublishError PublishResult
build_and_publish w s (err e) = (s, err e)
build_and_publish w s (ok opts) = publish_built w opts s (built_of w opts s)

-- `PublishRoom`.
unfoldable pub publish_room :
    Workplace → PublishOptions → Stores → Stores × Result PublishError PublishResult
unfolding checked_options build_room bundle_to_upload upload announce
publish_room w opts s = build_and_publish w s (checked_options w opts)
