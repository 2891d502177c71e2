-- ===== src/Cache/MetricBuffer/Draining.antt =====
-- metric_buffer.go, drain: a backlog is worked down in one cycle when the services answer.
use rayavriti_netmonitor.Common.{
  ℕ, zero, suc, ◌+◌, ◌*◌, ◌≤◌, ◌<◌, ◌≡◌, refl, sym, ap, ◌∙◌, true, false, String, Option, none,
  some, List, [], ◌∷◌, ◌++◌, length, take, drop, arith, Bool-cases, inl, inr, ltb, ltb→lt,
  length-append, length-take-drop, take-length, drop-short, take-short,
}
use mathlib.Core.List.{append-nil, append_assoc}
use rayavriti_netmonitor.Cache.MetricBuffer.{
  Codec, inserted, Weather, Buffer, cons_some, decode, push, pushed, persist, persist_some, flush,
  flush_popped, drain_batches, drain, max_batches_per_tick,
}

cons_some-append :
    {M : Type 0} (o : Option M) (xs ys : List M) → cons_some o (xs ++ ys) ≡ cons_some o xs ++ ys
cons_some-append none xs ys = refl
cons_some-append (some x) xs ys = refl

module _ {M : Type 0} (codec : Codec M) where
  decode-append :
      (xs ys : List String) → decode codec (xs ++ ys) ≡ decode codec xs ++ decode codec ys
  unfolding decode
  decode-append [] ys = refl
  decode-append (x ∷ xs) ys =
      ap (cons_some (codec.unmarshal x)) (decode-append xs ys)
      ∙ cons_some-append (codec.unmarshal x) (decode codec xs) (decode codec ys)

  append-take-drop : (n : ℕ) (xs : List String) → take n xs ++ drop n xs ≡ xs
  append-take-drop zero xs = refl
  append-take-drop (suc n) [] = refl
  append-take-drop (suc n) (x ∷ xs) = ap (◌∷◌ x) (append-take-drop n xs)

  -- The buffer after a batch of the table was stored.
  abbrev stored : ℕ → Buffer M → Buffer M
  stored n b = record b {
    buffer = drop n b.buffer;
    table = b.table ++ decode codec (take n b.buffer);
  }

  -- Redis gives up batches and the database takes them.
  abbrev pub IsGood : Weather M → Type 0
  IsGood w = (w.pop_fails ≡ false) × (w.batch ≡ inserted)

  persist_some-inserted :
      (w : Weather M) (metrics : List M) (b : Buffer M)
      → w.batch ≡ inserted
      → persist_some codec w metrics b ≡ (true, record b { table = b.table ++ metrics })
  unfolding persist_some persist
  persist_some-inserted w [] b h =
      ap (λ t. (true, record b { table = t })) (sym (append-nil b.table))
  persist_some-inserted w (m ∷ metrics) b h = rw h refl

  flush-good :
      (batch_size : ℕ) (w : Weather M) (b : Buffer M)
      → IsGood w
      → flush codec batch_size w b
        ≡ ((length (take batch_size b.buffer), true), stored batch_size b)
  unfolding flush flush_popped
  flush-good batch_size w b good =
      ap (λ f. flush_popped codec f batch_size w b) good.0
      ∙ ap (λ r. ((length (take batch_size b.buffer), r.0), r.1))
          (persist_some-inserted w (decode codec (take batch_size b.buffer))
            (record b { buffer = drop batch_size b.buffer }) good.1)

  -- The buffer after all of the list was stored.
  abbrev pub all_stored : Buffer M → Buffer M
  all_stored b = record b { buffer = []; table = b.table ++ decode codec b.buffer }

  stored-all : (n : ℕ) (b : Buffer M) → length b.buffer ≤ n → stored n b ≡ all_stored b
  stored-all n b h =
      ap (λ rest. record b { buffer = rest; table = b.table ++ decode codec (take n b.buffer) })
        (drop-short n b.buffer h)
      ∙ ap (λ items. record b { buffer = []; table = b.table ++ decode codec items })
          (take-length n b.buffer h)

  all_stored-stored : (n : ℕ) (b : Buffer M) → all_stored (stored n b) ≡ all_stored b
  all_stored-stored n b =
      ap (λ t. record b { buffer = []; table = t })
        (append_assoc b.table (decode codec (take n b.buffer)) (decode codec (drop n b.buffer))
          ∙ ap (λ t. b.table ++ t)
              (sym (decode-append (take n b.buffer) (drop n b.buffer))
                ∙ ap (decode codec) (append-take-drop n b.buffer)))

  drain_batches-good :
      (n batch_size : ℕ) (weather : ℕ → Weather M) (b : Buffer M)
      → ((i : ℕ) → IsGood (weather i))
      → length b.buffer < n * batch_size
      → drain_batches codec n batch_size weather b ≡ all_stored b
  unfolding drain_batches
  drain_batches-good zero batch_size weather b good h =
      let bad : ⊥ = omega (arith, h) in elim bad [ ]
  drain_batches-good (suc n) batch_size weather b good h =
      rw (flush-good batch_size (weather n) b (good n))
        (elim (Bool-cases (ltb (length (take batch_size b.buffer)) batch_size)) [
          | inl e ↦ rw e (
              stored-all batch_size b (
                omega (
                  arith,
                  take-short batch_size b.buffer
                      (ltb→lt (length (take batch_size b.buffer)) batch_size e),
                )))
          | inr e ↦ rw e (
              drain_batches-good n batch_size weather (stored batch_size b) good
                (grind (arith, length-take-drop batch_size b.buffer, e, h))
              ∙ all_stored-stored batch_size b)
        ])

  decode_last :
      (items : List String) (m : M) (raw : String)
      → codec.unmarshal raw ≡ some m
      → decode codec (items ++ raw ∷ []) ≡ decode codec items ++ m ∷ []
  unfolding decode
  decode_last items m raw read =
      decode-append items (raw ∷ []) ∙ ap (λ o. decode codec items ++ cons_some o []) read

  -- A metric that is pushed is in the table after one drain, after all that were waiting, in order,
  -- and nothing is left to wait: for Redis and a database that answer, a metric that is read back from
  -- JSON as it was written, and fewer than 50 batches with it.
  pub push-drain :
      (batch_size : ℕ) (weather : ℕ → Weather M) (b : Buffer M) (m : M) (raw : String)
      → codec.marshal m ≡ some raw
      → codec.unmarshal raw ≡ some m
      → ((i : ℕ) → IsGood (weather i))
      → length b.buffer + 1 < max_batches_per_tick * batch_size
      → (after : Buffer M) × (push codec m false b ≡ some after)
        × ((drain codec batch_size weather after).buffer ≡ [])
        × ((drain codec batch_size weather after).table
            ≡ b.table ++ (decode codec b.buffer ++ m ∷ []))
  unfolding push drain
  push-drain batch_size weather b m raw written read good fits =
      let after = record b { buffer = b.buffer ++ raw ∷ [] } in
      let drained =
        drain_batches-good max_batches_per_tick batch_size weather after good
          (omega (arith, fits, length-append b.buffer (raw ∷ []))) in
      (
        after,
        ap (λ o. pushed codec o b) written,
        ap (λ d. d.buffer) drained,
        ap (λ d. d.table) drained ∙ ap (λ t. b.table ++ t) (decode_last b.buffer m raw read),
      )
