-- ===== src/History/Refusal.antt =====
-- A finish or a requeue whose statement matches no row changes no row and reports false.
use ironqueue.Common.{ℕ, ◌≡◌, refl, sym, subst, true, false, Option, All, Text, ok}
use ironqueue.Job.Status.{JobStatus, is_terminal}
use ironqueue.Job.Json.{Value}
use ironqueue.Database.Statement.{keep}
use ironqueue.Database.Row.{JobRow, Store, Handle, AttemptGuard}
use ironqueue.Database.Requeue.{RequeueGuards, requeue_fate, is_nonempty, requeue_guarded}
use ironqueue.Database.Finish.{announce, finish_attempt_fate, finish_with_guards}
use ironqueue.History.Target.{keeps-All}

module _ {κ} (P : JobRow → Type κ) where
  pub finish-refused_when :
      (h : Handle) (now : ℕ) (g : AttemptGuard) (st : JobStatus) (v : Option Value)
      (e : Option Text) (u : Store)
      → is_terminal st ≡ true
      → ((r : JobRow) → P r → finish_attempt_fate h.name now g st v e r ≡ keep)
      → All P u.jobs
      → finish_with_guards h now g st v e u ≡ ok (u, false)
  unfolding finish_with_guards is_nonempty announce
  finish-refused_when h now g st v e u t keeps f =
      let k = keeps-All P (finish_attempt_fate h.name now g st v e) keeps u.jobs f in
      rw (t, k.0, k.1, k.2) refl

  pub requeue-refused_when :
      (h : Handle) (now : ℕ) (g : AttemptGuard) (e : Option Text) (d : ℕ) (gs : RequeueGuards)
      (u : Store)
      → ((r : JobRow) → P r → requeue_fate h.name now g e d gs r ≡ keep)
      → All P u.jobs
      → ((requeue_guarded h now g e d gs u).1 ≡ false)
        × ((requeue_guarded h now g e d gs u).0.jobs ≡ u.jobs)
  unfolding requeue_guarded is_nonempty
  requeue-refused_when h now g e d gs u keeps f =
      let k = keeps-All P (requeue_fate h.name now g e d gs) keeps u.jobs f in
      (subst (λ w. is_nonempty w ≡ false) (sym k.2) refl, k.0)
