-- ===== src/Tests/Packing.antt =====
-- Concrete runs of building and publishing a room (internal/roomctl/build.go, publish.go).
use sys_escape.Prelude.{
  ◌≡◌, refl, true, false, List, [], ◌∷◌, Option, none, some, String, if◌then◌else◌, ok, err,
}
use sys_escape.Prelude.Int.{pos}
use sys_escape.Prelude.Assoc.{lookup, insert}
use sys_escape.Prelude.Text.{str_eq, is_blank, trim_space, cut_prefix, append_text}
use sys_escape.Bundles.Paths.{clean, join, base}
use sys_escape.Bundles.Check.{
  Metadata, must_dir, parse_yaml, validate_metadata, validate_engine_a, validate_room_dir,
  check_engine_b_leak, leak,
}
use sys_escape.Bundles.Build.{
  Listing, file, special, folder, nil, entry, walk, collect_bundle_entries, headers_of, TarHeader,
  create_deterministic_tar, pack_found, pack_room, build_room, unsupported, invalid,
}
use sys_escape.Settings.Env.{env_or_default, parse_bool, bool_env_or_default}
use sys_escape.Tool.Options.{
  PublishOptions, admin_key_of, with_publish_defaults, validate_publish_options,
}
use sys_escape.Tool.Client.{new_graphql_client, tool_request, client_publish_room_version}
use sys_escape.Tool.Publish.{
  Workplace, Stores, PublishResult, object_key, upload, checked_options, bundle_to_upload, announce,
  publish_room,
}
use sys_escape.Tool.Uploaded.{IsUploaded, publish_room-IsUploaded}

-- A room of Engine B: its files are checked by no parser.
abbrev room_meta : Metadata
room_meta = record {
  slug = "git-room";
  title = "Git";
  district = "north";
  difficulty = "L1";
  engine = "B";
  description = "A room";
  estimated_minutes = pos 20;
  tags = "git" ∷ [];
}

abbrev room_tree : Listing
room_tree =
    entry "engineB"
      (folder (entry "workspace" (folder (entry "main.go" (file (some "package main")) nil)) nil))
      (entry "metadata.yaml" (file (some "meta")) nil)

abbrev leaking_tree : Listing
leaking_tree =
    entry "engineB"
      (folder (
        entry "workspace"
          (folder (
            entry "judge"
              (folder (entry "hidden_tests" (folder (entry "a" (file (some "")) nil)) nil)) nil))
          nil))
      nil

abbrev contents : List TarHeader → String
contents [] = ""
contents (h ∷ headers) =
    append_text h.name (append_text ":" (append_text h.content (contents headers)))

abbrev place : Option Listing → Workplace
place tree = record {
  env = λ key. if str_eq key "ADMIN_API_KEY" then "secret" else "";
  disk = record {
    stat = λ path. some true;
    read_file = λ path. some "meta";
    read_dir = λ path. none;
  };
  decoders = record {
    metadata = λ text. some room_meta;
    scenario = λ text. true;
    actions = λ text. none;
    signals = λ text. true;
    win_checks = λ text. true;
    simulation_keys = λ text. none;
  };
  tools = record {
    write_tar = λ headers. some (contents headers);
    sha256 = λ bytes. append_text "sum of " bytes;
  };
  list_room = λ dir. tree;
  output = record {
    makes_dir = true;
    writes_bundle = true;
    writes_manifest = true;
    built_at = "now";
  };
  wire = record {
    send = λ request. some (record { status = 200; body = "reply" });
    parse = λ body. some (record {
      room_version =
          some (record { id = "7"; version_number = pos 2; status = "PUBLISHED"; changelog = "" });
      errors = [];
    });
  };
  new_uuid = "u";
  reads_bundle = true;
  connects = true;
  uploads = true;
}

abbrev options : PublishOptions
options = record {
  room_dir = "rooms/git-room";
  version = pos 2;
  activate = true;
  bff_url = "";
  s3_endpoint = "";
  s3_bucket = "";
  s3_access_key = "";
  s3_secret_key = "";
  s3_region = "";
  s3_force_path_style = false;
  admin_api_key = "";
  changelog = "";
}

abbrev empty : Stores
empty = record { objects = []; built = record { bundle_tar = none; manifest_json = none } }

-- All that publishing a room computes with.
packing : Unit {0}
unfolding is_blank trim_space cut_prefix lookup insert clean join base must_dir parse_yaml
    validate_metadata validate_engine_a validate_room_dir check_engine_b_leak walk
    collect_bundle_entries headers_of create_deterministic_tar pack_found pack_room build_room
    env_or_default parse_bool bool_env_or_default admin_key_of with_publish_defaults
    validate_publish_options new_graphql_client tool_request client_publish_room_version object_key
    upload checked_options bundle_to_upload announce publish_room
packing = tt

abbrev archive : String
archive = "engineB/:engineB/workspace/:engineB/workspace/main.go:package mainmetadata.yaml:meta"

abbrev published : PublishResult
published = record {
  slug = "git-room";
  version = pos 2;
  hash = append_text "sum of " archive;
  activated = true;
  room_version_id = "7";
}

collect_test : collect_bundle_entries (some (entry "link" special nil)) ≡ err (unsupported "link")
unfolding packing
collect_test = refl

leak_test :
    pack_room
      (place none).tools
      (place none).disk
      (place none).decoders
      "git-room"
      (some leaking_tree)
      (pos 1)
    ≡ err (invalid (leak "engineB/workspace/judge/hidden_tests/a"))
unfolding packing
leak_test = refl

publish_test : (publish_room (place (some room_tree)) options empty).1 ≡ ok published
unfolding packing
publish_test = refl

publish_room-IsUploaded_example :
    IsUploaded
      (place (some room_tree)).tools
      (publish_room (place (some room_tree)) options empty).0
      published.hash
publish_room-IsUploaded_example =
    publish_room-IsUploaded (place (some room_tree)) options empty published publish_test
