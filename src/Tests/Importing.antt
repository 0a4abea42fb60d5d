-- ===== src/Tests/Importing.antt =====
-- A log of two repetitions is parsed, and imported when it was imported before.
use executorch_bencher.Prelude.{
  ◌+◌, pos, String, true, false, some, none, List, [], ◌∷◌, map, ok, ◌≡◌, inr, refl,
}
use executorch_bencher.Prelude.Lists.{length, All}
use executorch_bencher.Domain.{external}
use executorch_bencher.Host.{of_android}
use executorch_bencher.ImportLog.Again.{IsDone, import_records_again}
use executorch_bencher.ImportLog.Import.{World, Setting, Counts, contains, minus_one}
use executorch_bencher.ImportLog.Loop.{import_records}
use executorch_bencher.ImportLog.Manifest.{Manifest}
use executorch_bencher.ImportLog.Markers.{key, markers, parse_log-markers}
use executorch_bencher.ImportLog.Parse.{
  Observer, Record, parse_log, parse_lines, on_line, on_marker, on_repetition, on_other,
  on_observer, on_observed, flush, bare_record, inner_of, strip_prefix, strip_suffix, rsplit_once,
  split_here, parse_i64, digits, digits_from,
}
use executorch_bencher.Tests.Disk.{disk, hasher}
use executorch_bencher.Tests.Instance.{toy}
use executorch_bencher.Tests.Memory.{memory}
use executorch_bencher.Tests.Registry.{models, files}
use executorch_bencher.Tests.Request.{digest, phone}

abbrev observer : Observer toy
observer = record {
  prefill_token_per_sec = 300;
  decode_token_per_sec = some 20;
  prompt_tokens = pos 12;
  generated_tokens = pos 64;
  model_load_start_ms = pos 1000;
  inference_end_ms = pos 2000;
}

abbrev log : List String
log = "=== a rep1 ===" ∷ "PyTorchObserver {}" ∷ "" ∷ "=== a rep2 ===" ∷ "=== DONE ===" ∷ []

abbrev pub first : Record toy
first = record {
  tag = "a";
  rep = pos 1;
  line_number = 1;
  raw_line = some "PyTorchObserver {}";
  observer = some observer;
}

abbrev pub second : Record toy
second = record { tag = "a"; rep = pos 2; line_number = 4; raw_line = none; observer = none }

was_parsed : parse_log (λ s. some observer) log ≡ ok (first ∷ second ∷ [])
unfolding parse_log parse_lines on_line on_marker on_repetition on_other on_observer on_observed
    flush bare_record inner_of strip_prefix strip_suffix rsplit_once split_here parse_i64 digits
    digits_from
was_parsed = refl

parse_log-markers_example : map (key (λ s. some observer)) (first ∷ second ∷ []) ≡ markers 1 log
parse_log-markers_example =
    parse_log-markers (λ s. some observer) log (first ∷ second ∷ []) was_parsed

abbrev pub manifest : Manifest toy
manifest = record {
  collector_version = "1";
  host = record {
    hostname = "lab";
    device_model = none;
    os = none;
    kernel = none;
    cpu_model = none;
    cpu_count = none;
    memory_bytes = none;
    accelerator = none;
    accelerator_driver = none;
  };
  git = record {
    commit_sha = "abc";
    branch = none;
    commit_timestamp = none;
    commit_subject = none;
    dirty = false;
  };
  prompt_token_count = none;
  args_template = [];
  executable_name = "llama_main";
  models = [];
  skip_tags = [];
  failures = [];
}

abbrev pub setting : Setting toy
setting = record {
  manifest = manifest;
  device_class = external;
  host = of_android phone;
  prompt_sha256 = record { text = digest };
  prompt_artifact = "prompt";
  prompt_path_on_host = none;
  prompt_text = some "hello";
  executable_sha256 = none;
  imported = ("a", pos 0) ∷ ("a", pos 1) ∷ [];
  artifact_root = "/a";
  temporary_dir = "/t";
  new_id = λ n. "id";
  now = λ n. n;
  now_text = λ n. "2026";
}

abbrev pub world : World {x = toy} disk models memory
world = record { disk = record { files = λ p. none; table = [] }; models = []; runs = [] }

is_again : All (IsDone setting) (first ∷ second ∷ [])
unfolding contains minus_one
is_again = (inr (refl, refl), (inr (refl, refl), tt))

import_records_again_example :
    (n : Counts) × (import_records hasher disk models memory files
        (λ p. true)
        (λ ms. none)
        (λ n. "1")
        (λ r e. "{}")
        setting
        0
        []
        (first ∷ second ∷ [])
        (record { inserted = 0; skipped_existing = 0; skipped_tags = 0 }, [])
        world
      ≡ (ok n, world))
    × (n.inserted ≡ 0)
    × (n.inserted + n.skipped_existing + n.skipped_tags ≡ 0 + length (first ∷ second ∷ []))
import_records_again_example =
    import_records_again hasher disk models memory files (λ p. true) (λ ms. none) (λ n. "1")
      (λ r e. "{}") setting 0 [] (first ∷ second ∷ [])
      (record { inserted = 0; skipped_existing = 0; skipped_tags = 0 }, []) world is_again
