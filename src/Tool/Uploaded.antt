-- ===== src/Tool/Uploaded.antt =====
-- What PublishRoom leaves in the bucket and in the output directory.
use sys_escape.Prelude.{
  ◌≡◌, refl, ap, sym, ◌∙◌, List, some, String, Result, ok, err, arith, Result-cases, inl, inr,
}
use sys_escape.Prelude.Int.{ℤ}
use sys_escape.Prelude.Assoc.{lookup, lookup-insert}
use sys_escape.Prelude.Text.{eq_refl}
use sys_escape.Bundles.Build.{
  BuildTools, BuildError, BuildResult, BuiltFiles, Manifest, OutputWeather, Packed, TarHeader,
  manifest_of, write_output, write_packed, build_room, pack_room,
}
use sys_escape.Bundles.Archive.{regular_names, IsPacked, pack_room-IsPacked}
use sys_escape.Tool.Options.{PublishOptions}
use sys_escape.Tool.Client.{new_graphql_client, client_publish_room_version}
use sys_escape.Tool.Publish.{
  Workplace, Stores, PublishResult, PublishError, mutation_input, object_key, upload, announce,
  checked_options, bundle_to_upload, upload_and_announce, build_and_publish, built_of,
  publish_built, publish_room,
}

-- The object under a sum, and the manifest beside the archive.
pub record IsUploaded (tools : BuildTools) (after : Stores) (hash : String) : Type 0 where
  pub headers : List TarHeader
  pub bytes : String
  pub manifest : Manifest
  pub is_written : tools.write_tar headers ≡ some bytes
  pub is_sum : hash ≡ tools.sha256 bytes
  pub is_stored : lookup (object_key hash) after.objects ≡ some bytes
  pub is_described : after.built.manifest_json ≡ some manifest
  pub is_listed : regular_names headers ≡ manifest.files

-- A build that succeeds leaves the archive and its manifest.
write_output-ok :
    (weather : OutputWeather) (manifest : Manifest) (archive : String) (before : BuiltFiles)
    (result : BuildResult)
    → (write_output weather manifest archive before).1 ≡ ok result
    → ((write_output weather manifest archive before).0
        ≡ record { bundle_tar = some archive; manifest_json = some manifest })
      × (result.manifest ≡ manifest)
write_output-ok weather manifest archive before result h = ground (arith, h)

record IsBuilt (tools : BuildTools) (after : BuiltFiles) (result : BuildResult) : Type 0 where
  packed : Packed
  is_packed : IsPacked tools packed
  is_sum : result.manifest.bundle_hash_sha256 ≡ tools.sha256 packed.archive
  is_listed : result.manifest.files ≡ packed.files
  is_output :
      after ≡ record { bundle_tar = some packed.archive; manifest_json = some result.manifest }

write_packed-IsBuilt :
    (tools : BuildTools) (weather : OutputWeather) (version : ℤ) (before : BuiltFiles)
    (made : Result BuildError Packed) (result : BuildResult)
    → ((packed : Packed) → made ≡ ok packed → IsPacked tools packed)
    → (write_packed tools weather version before made).1 ≡ ok result
    → IsBuilt tools (write_packed tools weather version before made).0 result
write_packed-IsBuilt tools weather version before (err e) result p h = absurd (ground (arith, h))
write_packed-IsBuilt tools weather version before (ok packed) result p h =
    let (out, same) =
      write_output-ok weather (manifest_of tools weather version packed) packed.archive before
        result h in
    record {
      packed = packed;
      is_packed = p packed refl;
      is_sum = rw same refl;
      is_listed = rw same refl;
      is_output = rw same out;
    }

built_of-IsBuilt :
    (w : Workplace) (opts : PublishOptions) (s : Stores) (result : BuildResult)
    → (built_of w opts s).1 ≡ ok result
    → IsBuilt w.tools (built_of w opts s).0 result
unfolding build_room
built_of-IsBuilt w opts s result =
    write_packed-IsBuilt w.tools w.output opts.version s.built
      (pack_room w.tools w.disk w.decoders opts.room_dir (w.list_room opts.room_dir) opts.version)
      result
      (pack_room-IsPacked w.tools w.disk w.decoders opts.room_dir (w.list_room opts.room_dir)
        opts.version)

bundle_to_upload-ok :
    (w : Workplace) (built : BuiltFiles) (result : Result BuildError BuildResult)
    (manifest : Manifest) (bundle : String)
    → bundle_to_upload w built result ≡ ok (manifest, bundle)
    → (res : BuildResult) × (result ≡ ok res)
      × (built.bundle_tar ≡ some bundle)
      × (res.manifest ≡ manifest)
unfolding bundle_to_upload
bundle_to_upload-ok w built (err e) manifest bundle h = cc
bundle_to_upload-ok w built (ok res) manifest bundle h =
    (res, refl, ground (arith, h), ground (arith, h))

announce-hash :
    (w : Workplace) (opts : PublishOptions) (manifest : Manifest) (result : PublishResult)
    → announce w opts manifest ≡ ok result
    → result.hash ≡ manifest.bundle_hash_sha256
unfolding announce
announce-hash w opts manifest result h =
    elim (Result-cases (
      client_publish_room_version w.wire (new_graphql_client opts.bff_url opts.admin_api_key)
        (mutation_input w opts manifest))) [
          | inr (e, k) ↦ absurd (ground (arith, rw k at h))
          | inl (p, k) ↦ ground (arith, rw k at h)
        ]

-- Where the rest of the call succeeds after a build, the object is there under the sum of the manifest.
upload_and_announce-ok :
    (w : Workplace) (opts : PublishOptions) (objects : List (String × String)) (built : BuiltFiles)
    (to_upload : Result PublishError (Manifest × String)) (published : PublishResult)
    → (upload_and_announce w opts objects built to_upload).1 ≡ ok published
    → (manifest : Manifest) × (bundle : String) × (to_upload ≡ ok (manifest, bundle))
      × ((upload_and_announce w opts objects built to_upload).0.built ≡ built)
      × (lookup
            (object_key published.hash)
            (upload_and_announce w opts objects built to_upload).0.objects
          ≡ some bundle)
      × (published.hash ≡ manifest.bundle_hash_sha256)
unfolding upload
upload_and_announce-ok w opts objects built (err e) published h = absurd (ground (arith, h))
upload_and_announce-ok w opts objects built (ok (manifest, bundle)) published h =
    let same = announce-hash w opts manifest published h in
    let key = object_key manifest.bundle_hash_sha256 in
    (
      manifest,
      bundle,
      refl,
      refl,
      rw same (lookup-insert key key bundle objects ∙ rw (eq_refl key) refl),
      same,
    )

publish_built-IsUploaded :
    (w : Workplace) (opts : PublishOptions) (s : Stores) (built : BuiltFiles)
    (made : Result BuildError BuildResult) (published : PublishResult)
    → ((result : BuildResult) → made ≡ ok result → IsBuilt w.tools built result)
    → (publish_built w opts s (built, made)).1 ≡ ok published
    → IsUploaded w.tools (publish_built w opts s (built, made)).0 published.hash
publish_built-IsUploaded w opts s built made published p h =
    let (manifest, bundle, to_upload, kept, stored, hash) =
      upload_and_announce-ok w opts s.objects built (bundle_to_upload w built made) published h in
    let (result, k, read, same) = bundle_to_upload-ok w built made manifest bundle to_upload in
    let b = p result k in
    let bytes : bundle ≡ b.packed.archive =
      ground (arith, sym read ∙ ap (λ (f : BuiltFiles). f.bundle_tar) b.is_output) in
    record {
      headers = b.is_packed.headers;
      bytes = bundle;
      manifest = result.manifest;
      is_written = rw bytes b.is_packed.is_written;
      is_sum =
          hash
          ∙ sym (ap (λ (m : Manifest). m.bundle_hash_sha256) same)
          ∙ b.is_sum
          ∙ ap w.tools.sha256 (sym bytes);
      is_stored = stored;
      is_described = ap (λ (f : BuiltFiles). f.manifest_json) (kept ∙ b.is_output);
      is_listed = b.is_packed.is_listed ∙ sym b.is_listed;
    }

build_and_publish-IsUploaded :
    (w : Workplace) (s : Stores) (checked : Result PublishError PublishOptions)
    (published : PublishResult)
    → (build_and_publish w s checked).1 ≡ ok published
    → IsUploaded w.tools (build_and_publish w s checked).0 published.hash
build_and_publish-IsUploaded w s (err e) published h = absurd (ground (arith, h))
build_and_publish-IsUploaded w s (ok opts) published h =
    publish_built-IsUploaded w opts s (built_of w opts s).0 (built_of w opts s).1 published
      (built_of-IsBuilt w opts s) h

-- Where PublishRoom returns a result, the object in the bucket under its hash is an archive whose SHA-256
-- sum the hash is; it was written from headers of which the regular ones are, in order, the files of the
-- manifest left in the output directory.
pub publish_room-IsUploaded :
    (w : Workplace) (opts : PublishOptions) (s : Stores) (published : PublishResult)
    → (publish_room w opts s).1 ≡ ok published
    → IsUploaded w.tools (publish_room w opts s).0 published.hash
unfolding publish_room
publish_room-IsUploaded w opts s = build_and_publish-IsUploaded w s (checked_options w opts)
