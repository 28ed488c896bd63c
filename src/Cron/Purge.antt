-- ===== src/Cron/Purge.antt =====
-- `purge_cron_occurrences` of ironqueue/src/sweeper.rs.
use ironqueue.Common.{
  ℕ, Bool, not, ◌&&◌, ◌||◌, List, [], ◌∷◌, ltb, leb, ◌==◌, if◌then◌else◌, length, take, select, any,
  Text, text_eq,
}
use ironqueue.Database.Statement.{Fate, keep, remove, apply, removed}
use ironqueue.Database.Row.{Handle}
use ironqueue.Cron.Tables.{CronOccurrence, CronStore, is_claim}

-- `ORDER BY expires_at, dedupe_key, scheduled_at`, where `collates` is the order of the database's
-- collation.
unfoldable pub claim_before : (Text → Text → Bool) → CronOccurrence → CronOccurrence → Bool
claim_before collates a b =
    ltb a.expires_at b.expires_at
    || (a.expires_at == b.expires_at
        && (collates a.dedupe_key b.dedupe_key
            || (text_eq a.dedupe_key b.dedupe_key && ltb a.scheduled_at b.scheduled_at)))

unfoldable pub insert_claim :
    (Text → Text → Bool) → CronOccurrence → List CronOccurrence → List CronOccurrence
unfolding claim_before
insert_claim collates o [] = o ∷ []
insert_claim collates o (a ∷ rest) =
    let later = insert_claim collates o rest in
    if claim_before collates a o then a ∷ later else o ∷ a ∷ rest

unfoldable pub sort_claims : (Text → Text → Bool) → List CronOccurrence → List CronOccurrence
unfolding insert_claim
sort_claims collates [] = []
sort_claims collates (o ∷ os) = insert_claim collates o (sort_claims collates os)

unfoldable pub is_lapsed_claim : Text → ℕ → CronOccurrence → Bool
is_lapsed_claim queue now o = text_eq o.queue queue && leb o.expires_at now

unfoldable pub expired_claims :
    (Text → Text → Bool)
    → Handle
    → ℕ
    → (CronOccurrence → Bool)
    → List CronOccurrence
    → List CronOccurrence
unfolding sort_claims is_lapsed_claim
expired_claims collates h now locked os =
    take h.sweep_batch_size
      (sort_claims collates (select (λ o. is_lapsed_claim h.name now o && not (locked o)) os))

unfoldable pub purge_claim_fate : List CronOccurrence → CronOccurrence → Fate CronOccurrence
purge_claim_fate doomed o =
    if any (is_claim o.queue o.dedupe_key o.scheduled_at) doomed then remove else keep

unfoldable pub purge_cron_occurrences :
    (Text → Text → Bool) → Handle → ℕ → (CronOccurrence → Bool) → CronStore → CronStore × ℕ
unfolding purge_claim_fate
purge_cron_occurrences collates h now locked s =
    let fate = purge_claim_fate (expired_claims collates h now locked s.occurrences) in
    (record s { occurrences = apply fate s.occurrences }, length (removed fate s.occurrences))
