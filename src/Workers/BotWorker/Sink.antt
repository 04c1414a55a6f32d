-- ===== src/Workers/BotWorker/Sink.antt =====
-- What ts-core/src/workers/bot-worker.ts reports when its action sink throws.
use Prim.Native.String.{String}
use mathlib.Core.List.{append-nil, append_assoc}
use mc_servant.Base.{
  ℕ, suc, ◌+◌, ◌≤◌, ◌<◌, ◌≡◌, ◌≢◌, ap, ◌⊎◌, inl, inr, false, Option, none, some, List, [], ◌∷◌, ◌∙◌,
  ◌++◌, arith, length, length-append,
}
use mc_servant.Workers.BotWorker.{
  BotWorkerTask, WorkerError, completed, failed, Report, started, terminal, BotWorkerAction,
  emit_task_lifecycle, enqueue_brain, task_started, task_ended, Worker, Surroundings, returned,
  emit_actions, report, create_bot_worker_actions, thrown, conclude, try_body, handle, process_task,
  push_event,
}
use mc_servant.Workers.BotWorker.Reports.{not_stale, execute_task-report}

-- Actions that do not reach the one at which the sink throws.
emit_actions-quiet :
    (u : Surroundings) (as' : List BotWorkerAction) (w : Worker) (k : ℕ)
    → ((n : ℕ) → n ≢ k → u.sink n ≡ none)
    → (k < length w.sent) ⊎ (length w.sent + length as' ≤ k)
    → emit_actions u as' w ≡ (record w { sent = w.sent ++ as' }, none)
unfolding emit_actions
emit_actions-quiet u [] w k h f = ground (arith, append-nil w.sent)
emit_actions-quiet u (a ∷ as') w k h f = ground (
  arith,
  h (length w.sent) (λ e. omega (arith, e, f)),
  append_assoc w.sent (a ∷ []) as',
  emit_actions-quiet u as' (record w { sent = w.sent ++ a ∷ [] }) k h
      (omega (arith, f, length-append w.sent (a ∷ []))),
)

emit_actions-throws :
    (u : Surroundings) (a b : BotWorkerAction) (as' : List BotWorkerAction) (w : Worker)
    (x : WorkerError)
    → u.sink (length w.sent) ≡ none
    → u.sink (suc (length w.sent)) ≡ some x
    → emit_actions u (a ∷ b ∷ as') w ≡ (record w { sent = w.sent ++ a ∷ b ∷ [] }, some x)
unfolding emit_actions
emit_actions-throws u a b as' w x h k =
    ground (arith, h, k, append_assoc w.sent (a ∷ []) (b ∷ []), ap u.sink (one_more))
  where
    one_more : length (w.sent ++ a ∷ []) ≡ suc (length w.sent)
    one_more = omega (arith, length-append w.sent (a ∷ []))

report-sent :
    (u : Surroundings) (task : BotWorkerTask) (r : Report) (w : Worker)
    → u.refusal r ≡ none
    → report u task r w ≡ emit_actions u (create_bot_worker_actions task r) w
unfolding report
report-sent u task r w h = ground (arith, h)

body-throws :
    (u : Surroundings) (task : BotWorkerTask) (steps : ℕ) (text : String) (s y : Worker)
    (x : WorkerError)
    → report u task (terminal completed steps "" none) s ≡ (y, some x)
    → try_body u task (returned completed steps text none) s ≡ (y, thrown false x)
unfolding try_body conclude
body-throws u task steps text s y x h = ground (arith, h)

handle-fails :
    (u : Surroundings) (task : BotWorkerTask) (y z : Worker) (x : WorkerError)
    → x.interrupt_source ≡ none
    → report u task (terminal failed 0 x.message none) y ≡ (z, none)
    → handle u task (y, thrown false x)
      ≡ (push_event (task_ended failed task.exec_job.message_id) z, some x)
unfolding handle
handle-fails u task y z x e h = ground (arith, e, h)

-- If the action sink throws at the second action of a completed task's report, an error that is no
-- interrupt, the task is reported again as failed: the outside has been told that it completed, and
-- is told that it failed.
pub process_task-reported_twice :
    (u : Surroundings) (epoch : ℕ) (task : BotWorkerTask) (steps : ℕ) (text : String) (w : Worker)
    (x : WorkerError)
    → epoch ≤ task.exec_job.intent_epoch
    → ((r : Report) → u.refusal r ≡ none)
    → u.sink (length w.sent + 2) ≡ some x
    → ((n : ℕ) → n ≢ length w.sent + 2 → u.sink n ≡ none)
    → x.interrupt_source ≡ none
    → let p = process_task u epoch task (returned completed steps text none) w in
      (p.0.sent
        ≡ w.sent
          ++ (emit_task_lifecycle task started
              ∷ emit_task_lifecycle task (terminal completed steps "" none)
              ∷ enqueue_brain task completed
              ∷ create_bot_worker_actions task (terminal failed 0 x.message none)))
      × (p.1 ≡ some x)
unfolding create_bot_worker_actions
process_task-reported_twice u epoch task steps text w x h r t f e =
    let k : ℕ = length w.sent + 2 in
    let answer = returned completed steps text none in
    let id = task.exec_job.message_id in
    let a1 : BotWorkerAction = emit_task_lifecycle task started in
    let a2 : BotWorkerAction = emit_task_lifecycle task (terminal completed steps "" none) in
    let a3 : BotWorkerAction = enqueue_brain task completed in
    let v : Worker = record w { sent = w.sent ++ a1 ∷ [] } in
    let s : Worker = record (push_event (task_started id) v) { executed = suc v.executed } in
    let y : Worker = record s { sent = s.sent ++ a2 ∷ a3 ∷ [] } in
    let begun : report u task started w ≡ (v, none) =
      report-sent u task started w (r started)
      ∙ emit_actions-quiet u (a1 ∷ []) w k f (inr (omega arith)) in
    let told : report u task (terminal completed steps "" none) s ≡ (y, some x) =
      report-sent u task (terminal completed steps "" none) s (r _)
      ∙ emit_actions-throws u a2 a3 _ s x
          (f _ (λ q. omega (arith, q, length-append w.sent (a1 ∷ []))))
          (ap u.sink (omega (arith, length-append w.sent (a1 ∷ []))) ∙ t) in
    let again =
      report-sent u task (terminal failed 0 x.message none) y (r _)
      ∙ emit_actions-quiet u (create_bot_worker_actions task (terminal failed 0 x.message none)) y k
          f
          (inl
            (omega (arith, length-append w.sent (a1 ∷ []), length-append s.sent (a2 ∷ a3 ∷ [])))) in
    let q = not_stale u epoch task answer w h ∙ execute_task-report u task answer w v begun in
    let p : Worker × Option WorkerError = (
      push_event (task_ended failed id) (record y {
        sent = y.sent ++ create_bot_worker_actions task (terminal failed 0 x.message none);
      }),
      some x,
    ) in
    let all : process_task u epoch task answer w ≡ p =
      q
      ∙ ap (handle u task) (body-throws u task steps text s y x told)
      ∙ handle-fails u task y _ x e again in
    (
      ap (λ (z : Worker × Option WorkerError). z.0.sent) all
          ∙ (append_assoc (w.sent ++ a1 ∷ []) _ _ ∙ append_assoc w.sent _ _),
      ap (λ (z : Worker × Option WorkerError). z.1) all,
    )
