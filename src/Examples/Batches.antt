-- ===== src/Examples/Batches.antt =====
-- The theorem on batches at a concrete table.
use ironqueue.Common.{
  ℕ, ◌≡◌, refl, true, false, Option, none, some, List, [], ◌∷◌, map, any, Text, codes, text_eq,
  same_key, contains_nul, ok,
}
use ironqueue.Job.Duration.{
  validate_duration, validate_nonzero_duration, duration_to_ms, from_millis,
}
use ironqueue.Job.Retention.{forever, as_result_ttl_ms, from_result_ttl_ms}
use ironqueue.Job.Json.{
  json_contains_nul, json_exceeds_depth, over_budget, json_byte_len, json_exceeds_bytes,
  validate_json_document,
}
use ironqueue.Job.Config.{validate_config, JobRequest, validate_request, validate_enqueue}
use ironqueue.Database.Row.{enqueue, Store}
use ironqueue.Database.Requeue.{is_due, wake}
use ironqueue.Database.Abort.{holds_key}
use ironqueue.Database.Dequeue.{has_id}
use ironqueue.Database.Enqueue.{EnqueueResult, inserted, deduplicated, new_row, live_dedupe_holder}
use ironqueue.Database.Batch.{
  BatchItem, validate_batch, holder_result, holder_of_row, holder_of_job, put, batch_keys,
  live_dedupe_holders, admit_row, admit_result, admit, insert_all, insert_jobs, replacement_of,
  replace_swallowed, replacements, patch_all, resolve_batch, enqueue_batch_validated, with_ids,
  enqueue_batch_in,
}
use ironqueue.Database.Batch.Holders.{enqueue_each, reported}
use ironqueue.Database.Batch.Sequence.{enqueue_batch_in-sequence}
use ironqueue.Examples.Crontabs.{template}
use ironqueue.Examples.Data.{store, handle, calendar, chunks, running_job, queued_job, finished_job}

-- A request under a key.
abbrev under : Option Text → JobRequest
under key = record template { dedupe_key = key }

abbrev item : Option Text → BatchItem
item key = record { request = under key; delay = none }

-- Two jobs under a fresh key and one without a key.
abbrev batch : List BatchItem
batch = item (some (codes "hourly")) ∷ item (some (codes "hourly")) ∷ item none ∷ []

abbrev ids : List ℕ
ids = 50 ∷ 51 ∷ 52 ∷ []

abbrev batch_results : List EnqueueResult
batch_results = inserted 50 ∷ deduplicated 50 (codes "report") forever forever ∷ inserted 52 ∷ []

abbrev batch_store : Store
batch_store = record store {
  jobs =
      running_job
      ∷ queued_job
      ∷ finished_job
      ∷ new_row handle 1000 50 false (under (some (codes "hourly"))) none
      ∷ new_row handle 1000 52 false (under none) none
      ∷ [];
  notices = enqueue ∷ [];
}

was_batched :
    enqueue_batch_in calendar chunks handle 1000 ids true (λ u. u) (λ u. u) batch store
    ≡ ok (batch_store, batch_results)
unfolding enqueue_batch_in validate_batch validate_enqueue validate_request contains_nul
    validate_json_document json_exceeds_depth json_contains_nul json_exceeds_bytes validate_config
    validate_nonzero_duration json_byte_len enqueue_batch_validated admit with_ids
    live_dedupe_holders any same_key text_eq holds_key admit_result admit_row batch_keys
    holder_of_job holder_of_row holder_result insert_all insert_jobs patch_all put replace_swallowed
    replacement_of replacements resolve_batch has_id live_dedupe_holder new_row is_due wake
    duration_to_ms from_millis validate_duration over_budget as_result_ttl_ms from_result_ttl_ms
was_batched = refl

enqueue_batch_in-sequence_example :
    (u : Store) × (answers : List EnqueueResult) × (enqueue_each handle 1000 true
        (with_ids ids batch)
        store
      ≡ ok (u, answers))
    × (batch_store.jobs ≡ u.jobs)
    × (map reported answers ≡ map reported batch_results)
enqueue_batch_in-sequence_example =
    enqueue_batch_in-sequence calendar chunks handle 1000 ids true batch store batch_store
      batch_results was_batched
