-- ===== src/Scheduler/ResultPipeline/Run.antt =====
-- result_pipeline.go: the loop that collects results into batches. Its channel, its batch and the
-- batches it has processed are the state; the loop, and those who submit, take steps in any order.
use rayavriti_netmonitor.Common.{ℕ, List, [], ◌∷◌, ◌++◌, ltb, leb, length, if◌then◌else◌}
use rayavriti_netmonitor.Common.Int.{ℤ, is_nonpositive, to_nat}
use rayavriti_netmonitor.Scheduler.Types.{PollResult}

pub record Pipeline (F : Type 0) : Type 0 where
  pub batch_size : ℕ
  pub result_ch : List (PollResult F)
  pub batch : List (PollResult F)
  pub processed : List (List (PollResult F))

-- What happens: a result is submitted, the loop receives one, the ticker fires.
pub data Event (F : Type 0) : Type 0 where
  submitted : PollResult F → Event F
  received : Event F
  ticked : Event F

abbrev pub channel_size : ℕ
channel_size = 2048

module _ {F : Type 0} where
  -- A new pipeline; a batch size that is not positive becomes 100.
  unfoldable pub new_result_pipeline : ℤ → Pipeline F
  new_result_pipeline size = record {
    batch_size = if is_nonpositive size then 100 else to_nat size;
    result_ch = [];
    batch = [];
    processed = [];
  }

  -- A full channel drops the result when the wait for room has run out.
  unfoldable pub submit : PollResult F → Pipeline F → Pipeline F
  submit pr s =
      if ltb (length s.result_ch) channel_size
      then record s { result_ch = s.result_ch ++ (pr ∷ []) }
      else s

  abbrev pub process : List (PollResult F) → Pipeline F → Pipeline F
  process [] s = s
  process (pr ∷ prs) s = record s { processed = s.processed ++ ((pr ∷ prs) ∷ []) }

  unfoldable pub flush_batch : Pipeline F → Pipeline F
  flush_batch s = record (process s.batch s) { batch = [] }

  unfoldable pub receive_from : List (PollResult F) → Pipeline F → Pipeline F
  unfolding flush_batch
  receive_from [] s = s
  receive_from (pr ∷ queued) s =
      let t = record s { result_ch = queued; batch = s.batch ++ (pr ∷ []) } in
      if leb t.batch_size (length t.batch) then flush_batch t else t

  unfoldable pub receive : Pipeline F → Pipeline F
  unfolding receive_from
  receive s = receive_from s.result_ch s

  unfoldable pub step : Event F → Pipeline F → Pipeline F
  unfolding submit receive flush_batch
  step (submitted pr) s = submit pr s
  step received s = receive s
  step ticked s = flush_batch s

  unfoldable pub run : List (Event F) → Pipeline F → Pipeline F
  unfolding step
  run [] s = s
  run (e ∷ es) s = run es (step e s)

  -- The drain of the channel, processed as one batch.
  unfoldable pub flush : Pipeline F → Pipeline F
  flush s = record (process s.result_ch s) { result_ch = [] }

  -- The end of the loop, and `Stop`, which drains what was submitted after it.
  unfoldable pub finish : Pipeline F → Pipeline F
  unfolding flush
  finish s = flush (record (process s.batch s) { batch = [] })

  unfoldable pub submit_all : List (PollResult F) → Pipeline F → Pipeline F
  unfolding submit
  submit_all [] s = s
  submit_all (pr ∷ prs) s = submit_all prs (submit pr s)

  unfoldable pub stop : List (PollResult F) → Pipeline F → Pipeline F
  unfolding finish flush submit_all
  stop late s = flush (submit_all late (finish s))
