-- ===== src/Cache/MetricBuffer/Counts.antt =====
-- metric_buffer.go: how many metrics a list of texts and a sorted batch hold.
use rayavriti_netmonitor.Common.{
  ℕ, zero, suc, ◌+◌, ◌≤◌, ◌≡◌, Bool, String, Option, none, some, List, [], ◌∷◌, length, take, drop,
  reverse_onto, count_if, take-length, arith,
}
use rayavriti_netmonitor.Cache.MetricBuffer.{
  Codec, Answer, inserted, transient, permanent, Buffer, Sorted, cons_some, decode, put, sort_rows,
  dead_letter_max, trimmed,
}

pub trimmed-short : (raws : List String) → length raws ≤ dead_letter_max → trimmed raws ≡ raws
unfolding trimmed
trimmed-short raws room = take-length dead_letter_max raws room

pub length-cons_some :
    {M : Type 0} (o : Option M) (xs : List M) → length (cons_some o xs) ≤ suc (length xs)
length-cons_some none xs = omega arith
length-cons_some (some x) xs = omega arith

module _ {M : Type 0} (codec : Codec M) where
  pub length-decode : (items : List String) → length (decode codec items) ≤ length items
  unfolding decode
  length-decode [] = omega arith
  length-decode (raw ∷ items) =
      omega
        (arith, length-cons_some (codec.unmarshal raw) (decode codec items), length-decode items)

  pub length-put :
      (a : Answer) (m : M) (s : Sorted M)
      → length (put codec a m s).to_dead_letter ≤ suc (length s.to_dead_letter)
  unfolding put
  length-put inserted m s = omega arith
  length-put transient m s = omega arith
  length-put permanent m s = omega arith

  pub length-to_dead_letter :
      (row : ℕ → M → Answer) (metrics : List M)
      → length (sort_rows codec row metrics).to_dead_letter ≤ length metrics
  unfolding sort_rows
  length-to_dead_letter row [] = omega arith
  length-to_dead_letter row (m ∷ metrics) = omega (
    arith,
    length-put (row (length metrics) m) m (sort_rows codec row metrics),
    length-to_dead_letter row metrics,
  )

module _ {M : Type 0} (codec : Codec M) (p : M → Bool) where
  -- How many of the texts of a list are metrics that pass a test.
  unfoldable pub count_raw : List String → ℕ
  unfolding decode
  count_raw items = count_if p (decode codec items)

  -- Where a metric is: in the list, in the table or among the dead letters.
  unfoldable pub present : Buffer M → ℕ
  present b = count_raw b.buffer + count_raw b.dead_letters + count_if p b.table

  pub count_raw-cons :
      (raw : String) (items : List String)
      → count_raw (raw ∷ items) ≡ count_if p (cons_some (codec.unmarshal raw) []) + count_raw items
  unfolding count_raw decode
  count_raw-cons raw items = one (codec.unmarshal raw)
    where
      one :
          (o : Option M)
          → count_if p (cons_some o (decode codec items))
            ≡ count_if p (cons_some o []) + count_if p (decode codec items)
      one none = omega arith
      one (some m) = omega arith

  pub count_raw-take-drop :
      (n : ℕ) (items : List String)
      → count_raw (take n items) + count_raw (drop n items) ≡ count_raw items
  unfolding count_raw decode
  count_raw-take-drop zero items = omega arith
  count_raw-take-drop (suc n) [] = omega arith
  count_raw-take-drop (suc n) (raw ∷ items) = omega (
    arith,
    count_raw-cons raw (take n items),
    count_raw-cons raw items,
    count_raw-take-drop n items,
  )

  pub count_raw-reverse_onto :
      (xs ys : List String) → count_raw (reverse_onto xs ys) ≡ count_raw xs + count_raw ys
  unfolding count_raw decode
  count_raw-reverse_onto [] ys = omega arith
  count_raw-reverse_onto (x ∷ xs) ys =
      omega (arith, count_raw-reverse_onto xs (x ∷ ys), count_raw-cons x xs, count_raw-cons x ys)

  -- How many of the rows of a batch pass a test.
  abbrev pub count_sorted : Sorted M → ℕ
  count_sorted s = count_if p s.to_insert + count_if p s.to_requeue + count_if p s.to_dead_letter

  pub put-count_sorted :
      (a : Answer) (m : M) (s : Sorted M)
      → count_sorted (put codec a m s) ≡ count_if p (m ∷ []) + count_sorted s
  unfolding put
  put-count_sorted inserted m s = omega arith
  put-count_sorted transient m s = omega arith
  put-count_sorted permanent m s = omega arith

  pub sort_rows-count_sorted :
      (row : ℕ → M → Answer) (metrics : List M)
      → count_sorted (sort_rows codec row metrics) ≡ count_if p metrics
  unfolding sort_rows
  sort_rows-count_sorted row [] = omega arith
  sort_rows-count_sorted row (m ∷ metrics) = omega (
    arith,
    put-count_sorted (row (length metrics) m) m (sort_rows codec row metrics),
    sort_rows-count_sorted row metrics,
  )
