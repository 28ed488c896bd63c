-- ===== src/Database/Intake.antt =====
-- A closed intake: what heartbeats and shutdown requeues do to a worker's lease.
use ironqueue.Common.{
  ℕ, ◌≡◌, refl, subst, ◌∙◌, ◌≢◌, ◌⊎◌, inl, inr, Bool, true, false, ◌&&◌, Option, List, [], ◌∷◌,
  arith, ◌==◌, Bool-cases, any, All, Text, text_eq, worker_stats, lease_ttl, Result, ok, err, ◌>>=◌,
  >>-eq-ok,
}
use ironqueue.Job.Duration.{validate_duration, duration_to_ms}
use ironqueue.Job.Json.{Value, validate_json_document}
use ironqueue.Database.Statement.{write, settle, apply, apply-All}
use ironqueue.Database.Row.{JobRow, WorkerRow, Store, Handle}
use ironqueue.Database.Dequeue.{accepts, dequeue}
use ironqueue.Database.Lease.{
  LeaseIntake, reopens, renew_fate, validate_metadata, upsert_lease, write_worker_info,
  stop_intake_fate, stop_worker_intake,
}
use ironqueue.Database.Claims.{dequeue-closed}

-- The lease of this worker in this queue is there and takes no work.
abbrev Closed : Text → ℕ → WorkerRow → Type 0
Closed queue id w = (w.id ≢ id) ⊎ (text_eq w.queue queue ≡ false) ⊎ (w.accepting ≡ false)

renew-Closed :
    (queue : Text) (now id : ℕ) (stats : Value) (m : Option Value) (ttl : ℕ) (intake : LeaseIntake)
    (id' : ℕ) (queue' : Text) (w w' : WorkerRow)
    → reopens intake ≡ false
    → Closed queue' id' w
    → renew_fate queue now id stats m ttl intake w ≡ write w'
    → Closed queue' id' w'
unfolding renew_fate
renew-Closed queue now id stats m ttl intake id' queue' w w' n c e = ground arith

-- No lease of the worker accepts.
Closed-accepts :
    (queue : Text) (now id : ℕ) (ws : List WorkerRow)
    → All (Closed queue id) ws
    → any (accepts queue now id) ws ≡ false
unfolding any accepts
Closed-accepts queue now id [] h = refl
Closed-accepts queue now id (w ∷ ws) h = ground (arith, Closed-accepts queue now id ws h.1, h.0)

stopped :
    (queue : Text) (now id : ℕ) (ws : List WorkerRow)
    → All (Closed queue id) (apply (stop_intake_fate queue now id) ws)
unfolding apply stop_intake_fate settle
stopped queue now id [] = tt
stopped queue now id (w ∷ ws) = elim (Bool-cases (w.id == id && text_eq w.queue queue)) [
  | inl p ↦ rw p (inr (inr refl), stopped queue now id ws)
  | inr p ↦ rw p (ground arith, stopped queue now id ws)
]

upsert-Closed :
    (h : Handle) (now id : ℕ) (stats : Value) (m : Option Value) (ttl : ℕ) (intake : LeaseIntake)
    (ws ws' : List WorkerRow)
    → reopens intake ≡ false
    → any (λ w. w.id == id) ws ≡ true
    → All (Closed h.name id) ws
    → upsert_lease h now id stats m ttl intake ws ≡ ok ws'
    → All (Closed h.name id) ws'
unfolding upsert_lease
upsert-Closed h now id stats m ttl intake ws ws' n a c e =
    subst (All (Closed h.name id)) (renewed_all e) (
      apply-All (Closed h.name id) (renew_fate h.name now id stats m ttl intake)
        (λ w w' k r. renew-Closed h.name now id stats m ttl intake id h.name w w' n k r) ws c)
  where
    renewed_all :
        upsert_lease h now id stats m ttl intake ws ≡ ok ws'
        → apply (renew_fate h.name now id stats m ttl intake) ws ≡ ws'
    renewed_all e = ground arith

present :
    (queue : Text) (now id : ℕ) (ws : List WorkerRow)
    → any (λ w. w.id == id) (apply (stop_intake_fate queue now id) ws) ≡ any (λ w. w.id == id) ws
unfolding apply any stop_intake_fate settle
present queue now id [] = refl
present queue now id (w ∷ ws) = ground (arith, present queue now id ws)

stored :
    (s t : Store) (r : Result (List WorkerRow))
    → (r >>= (λ ws. ok (record s { workers = ws }))) ≡ ok t
    → r ≡ ok (t.workers)
stored s t (ok ws) e = ground arith
stored s t (err x) e = ground arith

heartbeat-workers :
    (chunks : Value → List ℕ) (h : Handle) (now w : ℕ) (stats : Value) (m : Option Value) (ttl : ℕ)
    (intake : LeaseIntake) (s t : Store)
    → write_worker_info chunks h now w stats m ttl intake s ≡ ok t
    → upsert_lease h now w stats m (duration_to_ms ttl) intake s.workers ≡ ok (t.workers)
unfolding write_worker_info
heartbeat-workers chunks h now w stats m ttl intake s t e =
    stored s t (upsert_lease h now w stats m (duration_to_ms ttl) intake s.workers)
      (>>-eq-ok (validate_metadata chunks m) _
        (>>-eq-ok (validate_json_document chunks worker_stats stats) _
          (>>-eq-ok (validate_duration lease_ttl ttl) _ e).1).1).1

-- A worker that stopped its intake stays out of work: after `stop_worker_intake`, a heartbeat that does
-- not ask to reopen renews the lease, which is there, but a guarded dequeue by this worker then returns
-- no job and leaves the jobs as they are.
pub stop_worker_intake-closes :
    (chunks : Value → List ℕ) (h : Handle) (now now' now'' w : ℕ) (stats : Value) (m : Option Value)
    (ttl : ℕ) (intake : LeaseIntake) (locked : ℕ → Bool) (limit : ℕ) (s t u : Store)
    (batch : List JobRow)
    → any (λ x. x.id == w) s.workers ≡ true
    → reopens intake ≡ false
    → write_worker_info chunks h now' w stats m ttl intake (stop_worker_intake h now w s) ≡ ok t
    → dequeue h now'' locked limit w true t ≡ ok (u, batch)
    → (batch ≡ []) × (u.jobs ≡ t.jobs)
unfolding stop_worker_intake
stop_worker_intake-closes chunks h now now' now'' w stats m ttl intake locked limit s t u batch p n
      e d =
    dequeue-closed h now'' locked limit w t u batch
      (Closed-accepts h.name now'' w t.workers (
        upsert-Closed h now' w stats m (duration_to_ms ttl) intake _ t.workers n
          (present h.name now w s.workers ∙ p) (stopped h.name now w s.workers)
          (heartbeat-workers chunks h now' w stats m ttl intake (stop_worker_intake h now w s) t
            e)))
      d
