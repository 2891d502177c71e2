-- ===== src/Scheduler/ResultPipeline/Batches.antt =====
-- result_pipeline.go: the sizes of the loop's batches.
use rayavriti_netmonitor.Common.{
  ℕ, ◌≤◌, ◌<◌, List, [], ◌∷◌, ◌++◌, ◌≡◌, refl, ap, leb, length, arith, length-append, Bool-cases,
  inl, inr, All, if◌then◌else◌, ltb,
}
use rayavriti_netmonitor.Common.Int.{ℤ, pos, negsuc, is_nonpositive, to_nat}
use rayavriti_netmonitor.Scheduler.Types.{PollResult}
use rayavriti_netmonitor.Scheduler.ResultPipeline.Run.{
  Pipeline, Event, submitted, received, ticked, channel_size, new_result_pipeline, submit, process,
  flush_batch, receive_from, receive, step, run,
}

start_size-positive : (size : ℤ) → 0 < (if is_nonpositive size then 100 else to_nat size)
start_size-positive (pos n) = ground arith
start_size-positive (negsuc n) = omega arith

module _ {F : Type 0} where
  -- A processed batch is not empty and not larger than the batch size.
  abbrev pub Fits : ℕ → List (PollResult F) → Type 0
  Fits size b = (1 ≤ length b) × (length b ≤ size)

  -- The batch being filled is below the batch size, the channel holds at most 2,048 results, and
  -- each processed batch fits.
  pub record IsBounded (s : Pipeline F) : Type 0 where
    pub filling : length s.batch < s.batch_size
    pub queued : length s.result_ch ≤ channel_size
    pub batches : All (Fits s.batch_size) s.processed

  All-append :
      (P : List (PollResult F) → Type 0) (bs : List (List (PollResult F))) (b : List (PollResult F))
      → All P bs
      → P b
      → All P (bs ++ (b ∷ []))
  All-append P [] b all p = (p, tt)
  All-append P (c ∷ bs) b all p = (all.0, All-append P bs b all.1 p)

  flush_batch-IsBounded :
      (batch : List (PollResult F)) (s : Pipeline F)
      → s.batch ≡ batch
      → length batch ≤ s.batch_size
      → 0 < s.batch_size
      → length s.result_ch ≤ channel_size
      → All (Fits s.batch_size) s.processed
      → IsBounded (record (process batch s) { batch = [] })
  flush_batch-IsBounded [] s e fits positive room all = record {
    filling = positive;
    queued = room;
    batches = all;
  }
  flush_batch-IsBounded (pr ∷ prs) s e fits positive room all = record {
    filling = positive;
    queued = room;
    batches = All-append (Fits s.batch_size) s.processed (pr ∷ prs) all (omega arith, fits);
  }

  receive_from-IsBounded :
      (queue : List (PollResult F)) (s : Pipeline F)
      → s.result_ch ≡ queue
      → IsBounded s
      → IsBounded (receive_from queue s)
  unfolding receive_from flush_batch
  receive_from-IsBounded [] s e b = b
  receive_from-IsBounded (pr ∷ queue) s e b =
      let t : Pipeline F = record s { result_ch = queue; batch = s.batch ++ (pr ∷ []) } in
      let grown = length-append s.batch (pr ∷ []) in
      let filling = b.filling in
      let room : length queue ≤ channel_size =
        let shorter = ap length e in let most = b.queued in omega (arith, shorter, most) in
      elim (Bool-cases (leb t.batch_size (length t.batch))) [
        | inl full ↦ rw full (
            flush_batch-IsBounded t.batch t refl (omega (arith, grown, filling))
              (omega (arith, filling)) room b.batches)
        | inr below ↦
            rw below
              (record { filling = ground (arith, below); queued = room; batches = b.batches })
      ]

  submit-IsBounded : (pr : PollResult F) (s : Pipeline F) → IsBounded s → IsBounded (submit pr s)
  unfolding submit
  submit-IsBounded pr s b = elim (Bool-cases (ltb (length s.result_ch) channel_size)) [
    | inl room ↦ rw room (record {
      filling = b.filling;
      queued = ground (arith, room, length-append s.result_ch (pr ∷ []));
      batches = b.batches;
    })
    | inr full ↦ rw full b
  ]

  step-IsBounded : (e : Event F) (s : Pipeline F) → IsBounded s → IsBounded (step e s)
  unfolding step receive flush_batch
  step-IsBounded (submitted pr) s b = submit-IsBounded pr s b
  step-IsBounded received s b = receive_from-IsBounded s.result_ch s refl b
  step-IsBounded ticked s b =
      let filling = b.filling in
      flush_batch-IsBounded s.batch s refl (omega (arith, filling)) (omega (arith, filling))
        b.queued b.batches

  run-keeps : (es : List (Event F)) (s : Pipeline F) → IsBounded s → IsBounded (run es s)
  unfolding run
  run-keeps [] s b = b
  run-keeps (e ∷ es) s b = run-keeps es (step e s) (step-IsBounded e s b)

  -- After any order of submissions, receipts and ticks, for any configured batch size, the batch
  -- being filled is below the batch size, the channel holds at most 2,048 results, and every batch
  -- the loop has processed has at least one result and at most the batch size.
  pub run-IsBounded :
      (size : ℤ) (es : List (Event F)) → IsBounded (run es (new_result_pipeline size))
  unfolding new_result_pipeline
  run-IsBounded size es =
      run-keeps es (new_result_pipeline size)
        (record { filling = start_size-positive size; queued = omega arith; batches = tt })
