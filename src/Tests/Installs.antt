-- ===== src/Tests/Installs.antt =====
-- Downloads and installations at concrete values.
use mathlib.Core.List.{Permᴰ}
use bilbycast_gateway_sdk.Base.{
  all_chars, is_ascii_hexdigit, ℕ, zero, suc, ◌≤◌, ◌≡◌, refl, ◌⊎◌, String, len, Bool, true, false,
  Option, none, some, List, [], ◌∷◌, ◌++◌, ok, map, length, eq_ignore_ascii_case,
}
use bilbycast_gateway_sdk.Upgrade.Manifest.{ParsedUrl, validate_url_host, any_is}
use bilbycast_gateway_sdk.Upgrade.Download.{
  Bytes, Reply, network_error, answered, TextBody, FileBody, is_success, is_retryable_status,
  after_reply, attempt_all, read_chunks, read_file, fetch_text, fetch_with_sha256,
}
use bilbycast_gateway_sdk.Upgrade.Download.Attempts.{requests, time_slept}
use bilbycast_gateway_sdk.Upgrade.Download.Integrity.{
  all_read, fetch_with_sha256-Fetched, fetches-end,
}
use bilbycast_gateway_sdk.Upgrade.Archive.{at_top}
use bilbycast_gateway_sdk.Upgrade.Apply.{
  Root, Call, Extraction, set_permissions, Found, Aged, gc_versions, name_of, stage_new_version,
  swap_current_symlink, step, link_current,
}
use bilbycast_gateway_sdk.Upgrade.Apply.Newest.{AllNewer}
use bilbycast_gateway_sdk.Upgrade.Apply.Garbage.{Sorts, gc_versions-keeps}
use bilbycast_gateway_sdk.Upgrade.Apply.Disk.{Kept}
use bilbycast_gateway_sdk.Upgrade.State.{InstallState, staged_manual, holds}
use bilbycast_gateway_sdk.Upgrade.Watchdog.CrashLoop.{no_faults}
use bilbycast_gateway_sdk.Upgrade.Apply.Manual.{manual_apply_pending, pending, finish}
use bilbycast_gateway_sdk.Upgrade.Apply.Manual.Started.{
  IsPending, Swapped, started, manual_apply_pending-starts,
}
use bilbycast_gateway_sdk.Upgrade.Apply.Links.{stage_new_version-Kept}

abbrev parse_url : String → Option ParsedUrl
parse_url url = some (record { scheme = "https"; host_str = some "github.com" })

abbrev url : String
url = "https://github.com/acme/gateway/releases/download/v2/gateway.tar.gz"

abbrev digest : String
digest = "00112233445566778899aabbccddeeff00112233445566778899aabbccddeeff"

abbrev no_text : Bytes → Option String
no_text bytes = none

abbrev sha : Bytes → String
sha bytes = digest

-- A server error, and then the file in two chunks.
abbrev files : ℕ → Reply FileBody
files zero = answered 503 (record { content_length = none; chunks = [] })
files (suc n) =
    answered 200
      (record { content_length = some 3; chunks = some (1 ∷ 2 ∷ []) ∷ some (3 ∷ []) ∷ [] })

abbrev no_answer : ℕ → Reply TextBody
no_answer n = network_error "reset"

abbrev content : Bytes
content = 1 ∷ 2 ∷ 3 ∷ []

fetched : (fetch_with_sha256 parse_url no_text sha true url digest files).0 ≡ ok content
unfolding fetch_with_sha256 validate_url_host attempt_all after_reply is_retryable_status read_file
    read_chunks eq_ignore_ascii_case
fetched = refl

fetch_with_sha256-Fetched_example :
    (validate_url_host parse_url url ≡ ok tt)
    × (len digest ≡ 64)
    × (all_chars is_ascii_hexdigit digest ≡ true)
    × (eq_ignore_ascii_case (sha content) digest ≡ true)
    × (length content ≤ 536870912)
    × ((attempt status : ℕ) × (body : FileBody) × (files attempt ≡ answered status body)
        × (is_success status ≡ true)
        × (all_read body.chunks ≡ some content))
fetch_with_sha256-Fetched_example =
    fetch_with_sha256-Fetched parse_url no_text sha true url digest files content fetched

fetches-end_example :
    (requests (fetch_text parse_url no_text sha true url no_answer).1 ≤ 3)
    × (time_slept (fetch_text parse_url no_text sha true url no_answer).1 ≤ 1750)
    × (requests (fetch_with_sha256 parse_url no_text sha true url digest files).1 ≤ 3)
    × (time_slept (fetch_with_sha256 parse_url no_text sha true url digest files).1 ≤ 1750)
fetches-end_example = fetches-end parse_url no_text sha true url digest no_answer files

abbrev found : List Found
found =
    record { name = "1.0.0"; mtime = some 10 }
    ∷ record { name = "1.1.0"; mtime = some 20 }
    ∷ record { name = "1.2.0"; mtime = some 30 }
    ∷ record { name = "0.9.0"; mtime = some 5 }
    ∷ record { name = "0.8.0.partial"; mtime = some 4 }
    ∷ record { name = "2.0.0"; mtime = some 40 }
    ∷ []

gc_versions-keeps_example :
    (any_is (gc_versions "2.0.0" 3 found) "2.0.0" ≡ false)
    × ((kept gone aged : List Aged) × (leftovers : List String) × Sorts "2.0.0" found aged leftovers
        × (gc_versions "2.0.0" 3 found ≡ leftovers ++ map name_of gone)
        × Permᴰ (kept ++ gone) aged
        × AllNewer kept gone
        × (length kept ≤ 3)
        × ((gone ≡ []) ⊎ (length kept ≡ 3)))
gc_versions-keeps_example = gc_versions-keeps "2.0.0" 3 found

abbrev root : Root
root = record {
  dirs = "1.2.0" ∷ "1.1.0" ∷ [];
  current = some "1.2.0";
  previous = some "1.1.0";
  current_tmp = none;
}

-- The permissions of the binary cannot be set.
abbrev fails : Call → Bool
fails set_permissions = true
fails _ = false

abbrev extraction : Extraction
extraction = record { succeeds = true; touches = λ d. d }

stage_new_version-Kept_example :
    Kept
      (some "1.2.0")
      "2.0.0"
      (stage_new_version fails "2.0.0" found "2.0.0" extraction at_top root)
stage_new_version-Kept_example =
    stage_new_version-Kept fails "2.0.0" "2.0.0" found extraction at_top root (λ d. refl) refl refl

abbrev staged : InstallState
staged = record {
  current_version = "1.1.0";
  previous_version = some "1.2.0";
  channel = "stable";
  variant = "default";
  arch = "x86_64-linux";
  status = staged_manual;
  boot_attempts = 0;
  staged_at = 5;
  last_health_at = none;
  last_sequence = 7;
}

abbrev no_failure : Call → Bool
no_failure _ = false

manual_apply_pending-starts_example :
    (s : InstallState) × IsPending root (holds staged) s
    × Swapped s.current_version root.dirs
        (manual_apply_pending no_failure no_faults root (holds staged)).0.0
    × ((manual_apply_pending no_failure no_faults root (holds staged)).0.1 ≡ holds (started s))
unfolding manual_apply_pending pending finish swap_current_symlink step link_current
manual_apply_pending-starts_example =
    manual_apply_pending-starts no_failure no_faults root (holds staged) refl
