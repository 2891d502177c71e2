-- ===== src/Cache/MetricBuffer.antt =====
-- cache/metric_buffer.go: metrics wait in a Redis list until the database takes them in batches. The
-- JSON texts, the answers of Redis and those of the database are parameters; a COPY that fails inserts
-- nothing, and a push inserts its values at the head of the list one after the other.
pub mod Counts
pub mod Conservation
pub mod Draining
mod Examples
use rayavriti_netmonitor.Common.{
  ℕ, zero, suc, Bool, true, false, not, ◌||◌, String, Option, none, some, List, [], ◌∷◌, ◌++◌,
  length, take, drop, reverse_onto, if◌then◌else◌, ltb,
}

-- json.Marshal and json.Unmarshal of a metric.
pub record Codec (M : Type 0) : Type 0 where
  pub marshal : M → Option String
  pub unmarshal : String → Option M

-- The answer of the database to an insertion; `permanent` is an error of class 22 or 23.
pub data Answer : Type 0 where
  inserted transient permanent : Answer

-- What the services do in one flush; `row` is the answer to the insertion of one metric, with the
-- number of those that follow it.
pub record Weather (M : Type 0) : Type 0 where
  pub pop_fails : Bool
  pub push_fails : Bool
  pub dead_letter_fails : Bool
  pub batch : Answer
  pub row : ℕ → M → Answer

pub record Buffer (M : Type 0) : Type 0 where
  pub buffer : List String
  pub dead_letters : List String
  pub table : List M

abbrev pub max_batches_per_tick : ℕ
max_batches_per_tick = 50

abbrev pub dead_letter_max : ℕ
dead_letter_max = 10000

abbrev pub cons_some {ℓ} : {A : Type ℓ} → Option A → List A → List A
cons_some none xs = xs
cons_some (some x) xs = x ∷ xs

-- What became of the rows of a batch.
pub record Sorted (M : Type 0) : Type 0 where
  pub to_insert : List M
  pub to_requeue : List M
  pub to_dead_letter : List M

-- LTRIM to the dead letters that are kept.
unfoldable pub trimmed : List String → List String
trimmed raws = take dead_letter_max raws

module _ {M : Type 0} (codec : Codec M) where
  unfoldable pub encode : List M → List String
  encode [] = []
  encode (m ∷ metrics) = cons_some (codec.marshal m) (encode metrics)

  unfoldable pub decode : List String → List M
  decode [] = []
  decode (raw ∷ items) = cons_some (codec.unmarshal raw) (decode items)

  abbrev pub pushed : Option String → Buffer M → Option (Buffer M)
  pushed none b = none
  pushed (some raw) b = some (record b { buffer = b.buffer ++ raw ∷ [] })

  -- `none` is an error that Push returns.
  unfoldable pub push : M → Bool → Buffer M → Option (Buffer M)
  push m fails b = if fails then none else pushed (codec.marshal m) b

  unfoldable pub requeue : Bool → List M → Buffer M → Buffer M
  unfolding encode
  requeue fails metrics b =
      if fails then b else record b { buffer = reverse_onto (encode metrics) b.buffer }

  abbrev pub dead_letter_raws : List String → Buffer M → Buffer M
  dead_letter_raws [] b = b
  dead_letter_raws (raw ∷ raws) b = record b {
    dead_letters = trimmed (reverse_onto (raw ∷ raws) b.dead_letters);
  }

  unfoldable pub dead_letter : Bool → List M → Buffer M → Buffer M
  unfolding encode
  dead_letter fails metrics b = if fails then b else dead_letter_raws (encode metrics) b

  -- The row-by-row insertion of a batch.
  unfoldable pub put : Answer → M → Sorted M → Sorted M
  put inserted m s = record s { to_insert = m ∷ s.to_insert }
  put transient m s = record s { to_requeue = m ∷ s.to_requeue }
  put permanent m s = record s { to_dead_letter = m ∷ s.to_dead_letter }

  unfoldable pub sort_rows : (ℕ → M → Answer) → List M → Sorted M
  unfolding put
  sort_rows row [] = record { to_insert = []; to_requeue = []; to_dead_letter = [] }
  sort_rows row (m ∷ metrics) = put (row (length metrics) m) m (sort_rows row metrics)

  abbrev pub is_empty : List M → Bool
  is_empty [] = true
  is_empty (m ∷ metrics) = false

  unfoldable pub after_rows : Weather M → Sorted M → Buffer M → Bool × Buffer M
  after_rows w s b = (
    is_empty s.to_requeue,
    dead_letter w.dead_letter_fails s.to_dead_letter
        (requeue w.push_fails s.to_requeue (record b { table = b.table ++ s.to_insert })),
  )

  -- The insertion of a batch, and whether the cycle goes on.
  unfoldable pub persist : Answer → Weather M → List M → Buffer M → Bool × Buffer M
  persist inserted w metrics b = (true, record b { table = b.table ++ metrics })
  persist transient w metrics b = (false, requeue w.push_fails metrics b)
  persist permanent w metrics b = after_rows w (sort_rows w.row metrics) b

  unfoldable pub persist_some : Weather M → List M → Buffer M → Bool × Buffer M
  persist_some w [] b = (true, b)
  persist_some w (m ∷ metrics) b = persist w.batch w (m ∷ metrics) b

  -- The batch that was popped, or none if the pop failed.
  unfoldable pub flush_popped : Bool → ℕ → Weather M → Buffer M → (ℕ × Bool) × Buffer M
  unfolding decode
  flush_popped true batch_size w b = ((0, false), b)
  flush_popped false batch_size w b =
      let items = take batch_size b.buffer in
      let (ok, after) =
        persist_some w (decode items) (record b { buffer = drop batch_size b.buffer }) in
      ((length items, ok), after)

  unfoldable pub flush : ℕ → Weather M → Buffer M → (ℕ × Bool) × Buffer M
  unfolding flush_popped
  flush batch_size w b = flush_popped w.pop_fails batch_size w b

  -- At most `n` flushes, each in its own weather.
  unfoldable pub drain_batches : ℕ → ℕ → (ℕ → Weather M) → Buffer M → Buffer M
  unfolding flush
  drain_batches zero batch_size weather b = b
  drain_batches (suc n) batch_size weather b =
      let ((popped, ok), after) = flush batch_size (weather n) b in
      let rest = drain_batches n batch_size weather after in
      if not ok || ltb popped batch_size then after else rest

  unfoldable pub drain : ℕ → (ℕ → Weather M) → Buffer M → Buffer M
  unfolding drain_batches
  drain = drain_batches max_batches_per_tick
