-- ===== src/Scheduler/ResultPipeline/Delivery.antt =====
-- result_pipeline.go: what is submitted is processed, once and in order.
use rayavriti_netmonitor.Common.{
  List, [], ◌∷◌, ◌++◌, ◌≡◌, refl, ap, ◌∙◌, sym, ltb, leb, length, arith, if◌then◌else◌, Bool-cases,
  inl, inr,
}
use mathlib.Core.List.{append-nil, append_assoc}
use rayavriti_netmonitor.Common.Int.{ℤ}
use rayavriti_netmonitor.Scheduler.Types.{PollResult}
use rayavriti_netmonitor.Scheduler.ResultPipeline.Run.{
  Pipeline, Event, submitted, received, ticked, channel_size, new_result_pipeline, submit, process,
  flush_batch, receive_from, receive, step, run, flush, finish, submit_all, stop,
}

module _ {F : Type 0} where
  abbrev pub flatten : List (List (PollResult F)) → List (PollResult F)
  flatten [] = []
  flatten (b ∷ bs) = b ++ flatten bs

  flatten-append :
      (bs : List (List (PollResult F))) (b : List (PollResult F))
      → flatten (bs ++ (b ∷ [])) ≡ flatten bs ++ b
  flatten-append [] b = append-nil b
  flatten-append (c ∷ bs) b = rw (flatten-append bs b) (sym (append_assoc c (flatten bs) b))

  -- All the results that the pipeline has or has had, in order.
  abbrev content : Pipeline F → List (PollResult F)
  content s = flatten s.processed ++ (s.batch ++ s.result_ch)

  -- The results that find room in the channel.
  abbrev pub taken : PollResult F → Pipeline F → List (PollResult F)
  taken pr s = if ltb (length s.result_ch) channel_size then pr ∷ [] else []

  abbrev pub accepted : List (Event F) → Pipeline F → List (PollResult F)
  accepted [] s = []
  accepted (submitted pr ∷ es) s = taken pr s ++ accepted es (submit pr s)
  accepted (received ∷ es) s = accepted es (receive s)
  accepted (ticked ∷ es) s = accepted es (flush_batch s)

  abbrev pub accepted_late : List (PollResult F) → Pipeline F → List (PollResult F)
  accepted_late [] s = []
  accepted_late (pr ∷ prs) s = taken pr s ++ accepted_late prs (submit pr s)

  process_lem :
      (prs : List (PollResult F)) (s : Pipeline F)
      → flatten (process prs s).processed ≡ flatten s.processed ++ prs
  process_lem [] s = sym (append-nil (flatten s.processed))
  process_lem (pr ∷ prs) s = flatten-append s.processed (pr ∷ prs)

  process-result_ch :
      (prs : List (PollResult F)) (s : Pipeline F) → (process prs s).result_ch ≡ s.result_ch
  process-result_ch [] s = refl
  process-result_ch (pr ∷ prs) s = refl

  content-submit :
      (pr : PollResult F) (s : Pipeline F) → content (submit pr s) ≡ content s ++ taken pr s
  unfolding submit
  content-submit pr s = elim (Bool-cases (ltb (length s.result_ch) channel_size)) [
    | inl room ↦ rw room (simp (append_assoc))
    | inr full ↦ rw full (sym (append-nil (content s)))
  ]

  content-flush_batch : (s : Pipeline F) → content (flush_batch s) ≡ content s
  unfolding flush_batch
  content-flush_batch s = simp (process_lem s.batch s, process-result_ch s.batch s, append_assoc)

  content-receive_from :
      (queued : List (PollResult F)) (s : Pipeline F)
      → s.result_ch ≡ queued
      → content (receive_from queued s) ≡ content s
  unfolding receive_from
  content-receive_from [] s e = refl
  content-receive_from (pr ∷ queued) s e =
      let t : Pipeline F = record s { result_ch = queued; batch = s.batch ++ (pr ∷ []) } in
      let moved : content t ≡ content s =
        ap (λ c. flatten s.processed ++ c)
          (append_assoc s.batch (pr ∷ []) queued ∙ ap (λ q. s.batch ++ q) (sym e)) in
      elim (Bool-cases (leb t.batch_size (length t.batch))) [
        | inl full ↦ rw full (content-flush_batch t ∙ moved)
        | inr room ↦ rw room moved
      ]

  content-step :
      (e : Event F) (es : List (Event F)) (s : Pipeline F)
      → content (step e s) ++ accepted es (step e s) ≡ content s ++ accepted (e ∷ es) s
  unfolding step receive
  content-step (submitted pr) es s =
      ap (λ c. c ++ accepted es (submit pr s)) (content-submit pr s)
      ∙ append_assoc (content s) (taken pr s) (accepted es (submit pr s))
  content-step received es s =
      ap (λ c. c ++ accepted es (receive s)) (content-receive_from s.result_ch s refl)
  content-step ticked es s = ap (λ c. c ++ accepted es (flush_batch s)) (content-flush_batch s)

  content-run :
      (es : List (Event F)) (s : Pipeline F) → content (run es s) ≡ content s ++ accepted es s
  unfolding run
  content-run [] s = sym (append-nil (content s))
  content-run (e ∷ es) s = content-run es (step e s) ∙ content-step e es s

  content-submit_all :
      (prs : List (PollResult F)) (s : Pipeline F)
      → content (submit_all prs s) ≡ content s ++ accepted_late prs s
  unfolding submit_all
  content-submit_all [] s = sym (append-nil (content s))
  content-submit_all (pr ∷ prs) s =
      content-submit_all prs (submit pr s)
      ∙ ap (λ c. c ++ accepted_late prs (submit pr s)) (content-submit pr s)
      ∙ append_assoc (content s) (taken pr s) (accepted_late prs (submit pr s))

  submit-batch : (pr : PollResult F) (s : Pipeline F) → (submit pr s).batch ≡ s.batch
  unfolding submit
  submit-batch pr s = ground arith

  submit_all-batch :
      (prs : List (PollResult F)) (s : Pipeline F) → (submit_all prs s).batch ≡ s.batch
  unfolding submit_all
  submit_all-batch [] s = refl
  submit_all-batch (pr ∷ prs) s = submit_all-batch prs (submit pr s) ∙ submit-batch pr s

  flush_lem : (s : Pipeline F) → s.batch ≡ [] → flatten (flush s).processed ≡ content s
  unfolding flush
  flush_lem s e =
      process_lem s.result_ch s ∙ ap (λ b. flatten s.processed ++ (b ++ s.result_ch)) (sym e)

  process-batch : (prs : List (PollResult F)) (s : Pipeline F) → (process prs s).batch ≡ s.batch
  process-batch [] s = refl
  process-batch (pr ∷ prs) s = refl

  content-flush : (s : Pipeline F) → s.batch ≡ [] → content (flush s) ≡ content s
  unfolding flush
  content-flush s e =
      let b = (process s.result_ch s).batch in
      ap (λ c. c ++ (b ++ [])) (flush_lem s e)
      ∙ ap (λ c. content s ++ (c ++ [])) (process-batch s.result_ch s ∙ e)
      ∙ append-nil (content s)

  content-finish : (s : Pipeline F) → content (finish s) ≡ content s
  unfolding finish flush_batch
  content-finish s = content-flush (flush_batch s) refl ∙ content-flush_batch s

  finish-batch : (s : Pipeline F) → (finish s).batch ≡ []
  unfolding finish flush
  finish-batch s =
      let t : Pipeline F = record (process s.batch s) { batch = [] } in process-batch t.result_ch t

  start-content : (size : ℤ) → content (new_result_pipeline {F = F} size) ≡ []
  unfolding new_result_pipeline
  start-content size = refl

  -- From the start, through any order of submissions, receipts and ticks, to the stop with any late
  -- submissions, the batches processed are together exactly the results that found room in the
  -- channel, each once and in the order of their submission.
  pub stop-run_lem :
      (size : ℤ) (es : List (Event F)) (late : List (PollResult F))
      → flatten (stop late (run es (new_result_pipeline size))).processed
        ≡ accepted es (new_result_pipeline size)
          ++ accepted_late late (finish (run es (new_result_pipeline size)))
  unfolding stop
  stop-run_lem size es late =
      let s = run es (new_result_pipeline size) in
      flush_lem (submit_all late (finish s)) (submit_all-batch late (finish s) ∙ finish-batch s)
      ∙ content-submit_all late (finish s)
      ∙ ap (λ c. c ++ accepted_late late (finish s))
          (content-finish s
            ∙ content-run es (new_result_pipeline size)
            ∙ ap (λ c. c ++ accepted es (new_result_pipeline size)) (start-content size))
