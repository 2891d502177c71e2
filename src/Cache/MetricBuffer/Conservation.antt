-- ===== src/Cache/MetricBuffer/Conservation.antt =====
-- metric_buffer.go: where the metrics of a batch go.
use rayavriti_netmonitor.Common.{
  ℕ, ◌+◌, ◌≤◌, ◌≡◌, refl, Bool, true, false, String, some, List, [], ◌∷◌, ◌++◌, length, take, drop,
  reverse_onto, count_if, count_if-append, length-reverse_onto, length-take, ◌∙◌, arith,
}
use rayavriti_netmonitor.Cache.MetricBuffer.{
  Codec, Answer, inserted, transient, permanent, Weather, Buffer, Sorted, encode, decode, requeue,
  dead_letter, dead_letter_raws, sort_rows, after_rows, persist, persist_some, flush, flush_popped,
  dead_letter_max,
}
use rayavriti_netmonitor.Cache.MetricBuffer.Counts.{
  trimmed-short, length-decode, length-to_dead_letter, count_raw, present, count_raw-take-drop,
  count_raw-reverse_onto, count_sorted, sort_rows-count_sorted,
}

module _ {M : Type 0} (codec : Codec M) (p : M → Bool) where
  -- A metric that is written as JSON is read back.
  abbrev pub RoundTrips : Type 0
  RoundTrips =
      (m : M) → (raw : String) × (codec.marshal m ≡ some raw) × (codec.unmarshal raw ≡ some m)

  module _ (trips : RoundTrips) where
    count_raw-encode :
        (metrics : List M) → count_raw codec p (encode codec metrics) ≡ count_if p metrics
    unfolding count_raw decode encode
    count_raw-encode [] = refl
    count_raw-encode (m ∷ metrics) =
        let (raw, written, read) = trips m in
        rw written (rw read (omega (arith, count_raw-encode metrics)))

    length-encode : (metrics : List M) → length (encode codec metrics) ≡ length metrics
    unfolding encode
    length-encode [] = refl
    length-encode (m ∷ metrics) =
        let (raw, written, read) = trips m in rw written (omega (arith, length-encode metrics))

    requeue-present :
        (metrics : List M) (b : Buffer M)
        → present codec p (requeue codec false metrics b) ≡ count_if p metrics + present codec p b
    unfolding requeue present
    requeue-present metrics b = omega (
      arith,
      count_raw-encode metrics,
      count_raw-reverse_onto codec p (encode codec metrics) b.buffer,
    )

    dead_letter_raws-present :
        (raws : List String) (b : Buffer M)
        → length raws + length b.dead_letters ≤ dead_letter_max
        → present codec p (dead_letter_raws codec raws b)
          ≡ count_raw codec p raws + present codec p b
    unfolding present count_raw decode
    dead_letter_raws-present [] b room = omega arith
    dead_letter_raws-present (raw ∷ raws) b room =
        let all = reverse_onto (raw ∷ raws) b.dead_letters in
        let kept =
          trimmed-short all
            (omega (arith, room, length-reverse_onto (raw ∷ raws) b.dead_letters)) in
        rw kept (omega (arith, count_raw-reverse_onto codec p (raw ∷ raws) b.dead_letters))

    dead_letter-present :
        (metrics : List M) (b : Buffer M)
        → length metrics + length b.dead_letters ≤ dead_letter_max
        → present codec p (dead_letter codec false metrics b)
          ≡ count_if p metrics + present codec p b
    unfolding dead_letter
    dead_letter-present metrics b room = omega (
      arith,
      count_raw-encode metrics,
      dead_letter_raws-present (encode codec metrics) b
          (omega (arith, room, length-encode metrics)),
    )

    table-present :
        (metrics : List M) (b : Buffer M)
        → present codec p (record b { table = b.table ++ metrics })
          ≡ count_if p metrics + present codec p b
    unfolding present
    table-present metrics b = omega (arith, count_if-append p b.table metrics)

    after_rows-present :
        (w : Weather M) (s : Sorted M) (b : Buffer M)
        → w.push_fails ≡ false
        → w.dead_letter_fails ≡ false
        → length s.to_dead_letter + length b.dead_letters ≤ dead_letter_max
        → present codec p (after_rows codec w s b).1 ≡ count_sorted codec p s + present codec p b
    unfolding after_rows requeue
    after_rows-present w s b push letters room =
        let with_table = record b { table = b.table ++ s.to_insert } in
        rw push (
          rw letters (
            dead_letter-present s.to_dead_letter (requeue codec false s.to_requeue with_table) room
            ∙ omega (arith, requeue-present s.to_requeue with_table, table-present s.to_insert b)))

    persist-present :
        (a : Answer) (w : Weather M) (metrics : List M) (b : Buffer M)
        → w.push_fails ≡ false
        → w.dead_letter_fails ≡ false
        → length metrics + length b.dead_letters ≤ dead_letter_max
        → present codec p (persist codec a w metrics b).1 ≡ count_if p metrics + present codec p b
    unfolding persist
    persist-present inserted w metrics b push letters room = table-present metrics b
    persist-present transient w metrics b push letters room = rw push (requeue-present metrics b)
    persist-present permanent w metrics b push letters room =
        after_rows-present w (sort_rows codec w.row metrics) b push letters
          (omega (arith, room, length-to_dead_letter codec w.row metrics))
        ∙ omega (arith, sort_rows-count_sorted codec p w.row metrics)

    persist_some-present :
        (w : Weather M) (metrics : List M) (b : Buffer M)
        → w.push_fails ≡ false
        → w.dead_letter_fails ≡ false
        → length metrics + length b.dead_letters ≤ dead_letter_max
        → present codec p (persist_some codec w metrics b).1
          ≡ count_if p metrics + present codec p b
    unfolding persist_some
    persist_some-present w [] b push letters room = omega arith
    persist_some-present w (m ∷ metrics) b push letters room =
        persist-present w.batch w (m ∷ metrics) b push letters room

    drop-present :
        (n : ℕ) (b : Buffer M)
        → count_if p (decode codec (take n b.buffer))
            + present codec p (record b { buffer = drop n b.buffer })
          ≡ present codec p b
    unfolding present count_raw
    drop-present n b = omega (arith, count_raw-take-drop codec p n b.buffer)

    flush_popped-present :
        (fails : Bool) (batch_size : ℕ) (w : Weather M) (b : Buffer M)
        → w.push_fails ≡ false
        → w.dead_letter_fails ≡ false
        → batch_size + length b.dead_letters ≤ dead_letter_max
        → present codec p (flush_popped codec fails batch_size w b).1 ≡ present codec p b
    unfolding flush_popped
    flush_popped-present true batch_size w b push letters room = refl
    flush_popped-present false batch_size w b push letters room =
        persist_some-present w (decode codec (take batch_size b.buffer))
          (record b { buffer = drop batch_size b.buffer }) push letters
          (omega (
            arith,
            room,
            length-decode codec (take batch_size b.buffer),
            length-take batch_size b.buffer,
          ))
        ∙ drop-present batch_size b

    -- A flush loses no metric and makes none: for any test, as many metrics that pass it are in the
    -- list, in the table or among the dead letters as before, whether Redis gives up the batch or not,
    -- whatever the database answers to the batch and to each of its rows. Metrics are read back from
    -- JSON as they were written, pushes to Redis succeed, and the dead letters have room for the batch.
    pub flush-present :
        (batch_size : ℕ) (w : Weather M) (b : Buffer M)
        → w.push_fails ≡ false
        → w.dead_letter_fails ≡ false
        → batch_size + length b.dead_letters ≤ dead_letter_max
        → present codec p (flush codec batch_size w b).1 ≡ present codec p b
    unfolding flush
    flush-present batch_size w b push letters room =
        flush_popped-present w.pop_fails batch_size w b push letters room
