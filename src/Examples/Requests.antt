-- ===== src/Examples/Requests.antt =====
-- The theorems on values and requests at concrete inputs.
use ironqueue.Common.{
  All, ℕ, ◌+◌, ◌-◌, ◌*◌, ◌^◌, ◌≤◌, ◌<◌, min, ◌≡◌, refl, ◌⊎◌, true, false, none, some, ◌++◌, arith,
  ltb, length, take, pos, Text, codes, text_eq, same_key, contains_nul, job_payload, ok,
}
use ironqueue.Job.Duration.{
  max_duration, validate_nonzero_duration, duration_to_ms, from_millis, duration_to_ms-from_millis,
}
use ironqueue.Job.Retention.{for, forever}
use ironqueue.Job.Backoff.{
  exponential, capped_by, exponential_delay_bound, exponential_delay_bound_closed,
}
use ironqueue.Job.Json.{
  Value, null, str, arr, obj, nil, cons, end, entry, json_contains_nul, json_exceeds_depth, depth,
  total, max_json_depth, max_json_document_bytes, json_exceeds_bytes, validate_json_document,
  json_exceeds_depth-depth,
}
use ironqueue.Job.Config.{
  JobConfig, validate_config, JobRequest, validate_request, validate_enqueue,
}
use ironqueue.Job.Stored.{
  timeout, panic, display, from_stored, max_stored_error_bytes, truncation_marker, is_char_boundary,
  truncate_owned_utf8, truncate_stored_error, new_error,
}
use ironqueue.Job.Json.Strings.{
  Plain, strings, validate_json_document_sound, validate_json_document_complete,
}
use ironqueue.Database.Row.{JobRow, Store}
use ironqueue.Database.Enqueue.{inserted, live_dedupe_holder, deduplicated_by, enqueue_raw}
use ironqueue.Database.Publishing.{enqueue_raw-twice}
use ironqueue.Job.Truncation.{truncate_owned_utf8_lem, new_error-storable, from_stored-stored}
use ironqueue.History.Calls.{state_after, unchanged_by}
use ironqueue.Examples.Data.{handle, store, calendar, chunks}

duration_to_ms-from_millis_example : duration_to_ms (from_millis 1500) ≡ 1500
duration_to_ms-from_millis_example = duration_to_ms-from_millis 1500 (omega arith)

exponential_delay_bound_closed_example :
    exponential_delay_bound 1000000 4 (some 5000000)
    ≡ capped_by (some 5000000) (min (1000000 * 2 ^ (4 - 1)) max_duration)
exponential_delay_bound_closed_example = exponential_delay_bound_closed 1000000 4 (some 5000000)

abbrev nested : Value
nested = arr (cons (obj (entry (codes "k") (str (codes "v")) end)) nil)

json_exceeds_depth-depth_example : json_exceeds_depth nested 1 ≡ ltb 1 (depth nested)
json_exceeds_depth-depth_example = json_exceeds_depth-depth nested 1

validate_json_document_sound_example :
    (depth nested ≤ max_json_depth)
    × All Plain (strings nested)
    × (total (chunks nested) ≤ max_json_document_bytes)
unfolding validate_json_document json_exceeds_depth json_contains_nul contains_nul
    json_exceeds_bytes
validate_json_document_sound_example = validate_json_document_sound chunks job_payload nested refl

validate_json_document_complete_example : validate_json_document chunks job_payload nested ≡ ok tt
validate_json_document_complete_example =
    validate_json_document_complete chunks job_payload nested validate_json_document_sound_example.0
      validate_json_document_sound_example.1 validate_json_document_sound_example.2

abbrev long_text : Text
long_text = codes "a message of thirty characters"

truncate_owned_utf8_lem_example :
    (length (truncate_owned_utf8 long_text 20) ≤ 20)
    × (((length long_text ≤ 20) × (truncate_owned_utf8 long_text 20 ≡ long_text))
        ⊎ ((20 < length long_text)
            × ((cut : ℕ) × (truncate_owned_utf8 long_text 20
                  ≡ take cut long_text ++ truncation_marker)
                × (is_char_boundary long_text cut ≡ true)
                × (cut + 15 ≤ 20))))
truncate_owned_utf8_lem_example = truncate_owned_utf8_lem long_text 20 (omega arith)

new_error-storable_example :
    (contains_nul (display (new_error timeout long_text)) ≡ false)
    × (length (display (new_error timeout long_text)) ≤ max_stored_error_bytes)
new_error-storable_example = new_error-storable timeout long_text

from_stored-stored_example :
    from_stored (truncate_stored_error (display (new_error panic long_text)))
    ≡ new_error panic long_text
from_stored-stored_example = from_stored-stored panic long_text

abbrev config_of_job : JobConfig
config_of_job = record {
  max_attempts = 3;
  timeout = some 10000000000;
  retention = for 600000000000;
  failed_retention = forever;
  retry_delay = 1000000000;
  backoff = exponential (some 60000000000);
  priority = pos 0;
}

abbrev request : JobRequest
request = record {
  name = codes "send";
  payload = null;
  config = config_of_job;
  dedupe_key = some (codes "weekly");
  scheduled_at = none;
  meta = obj end;
}

abbrev published_store : Store
published_store = state_after store (
    enqueue_raw calendar chunks handle 1000 30 true false request none unchanged_by unchanged_by
      store)

was_published :
    enqueue_raw calendar chunks handle 1000 30 true false request none unchanged_by unchanged_by
      store
    ≡ ok (published_store, inserted 30)
unfolding enqueue_raw validate_enqueue validate_request contains_nul validate_json_document
    json_exceeds_depth json_contains_nul json_exceeds_bytes validate_config
    validate_nonzero_duration text_eq same_key
was_published = refl

valid_request : validate_enqueue calendar chunks 2000 request none ≡ ok tt
unfolding validate_enqueue validate_request contains_nul validate_json_document json_exceeds_depth
    json_contains_nul json_exceeds_bytes validate_config validate_nonzero_duration
valid_request = refl

enqueue_raw-twice_example :
    (holder : JobRow) × (live_dedupe_holder handle.name (some (codes "weekly")) published_store.jobs
      ≡ some holder)
    × (enqueue_raw calendar chunks handle 2000 31 true false request none unchanged_by unchanged_by
          published_store
        ≡ ok (published_store, deduplicated_by holder))
enqueue_raw-twice_example =
    enqueue_raw-twice calendar chunks handle 1000 2000 30 31 true true false false request request
      none none (codes "weekly") unchanged_by unchanged_by unchanged_by unchanged_by store
      published_store (inserted 30) refl refl was_published valid_request
