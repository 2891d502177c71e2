-- ===== src/Cache/MetricBuffer/Examples.antt =====
-- The metric buffer with two kinds of metrics, at concrete inputs.
use rayavriti_netmonitor.Common.{
  ℕ, ◌≡◌, refl, Bool, true, false, String, str_eq, none, some, [], ◌∷◌, ◌++◌, if◌then◌else◌, arith,
}
use rayavriti_netmonitor.Cache.MetricBuffer.{
  Codec, inserted, permanent, Weather, Buffer, encode, decode, put, sort_rows, after_rows, persist,
  persist_some, requeue, dead_letter, trimmed, push, flush, flush_popped, drain,
}
use rayavriti_netmonitor.Cache.MetricBuffer.Counts.{present}
use rayavriti_netmonitor.Cache.MetricBuffer.Conservation.{RoundTrips, flush-present}
use rayavriti_netmonitor.Cache.MetricBuffer.Draining.{push-drain}

abbrev text_of : Bool → String
text_of true = "up"
text_of false = "down"

abbrev codec : Codec Bool
codec = record {
  marshal = λ b. some (text_of b);
  unmarshal =
      λ s. if str_eq s "up" then some true else if str_eq s "down" then some false else none;
}

codec-RoundTrips : (p : Bool → Bool) → RoundTrips codec p
codec-RoundTrips p true = ("up", refl, refl)
codec-RoundTrips p false = ("down", refl, refl)

-- The batch is refused, a `true` is taken, and a `false` never can be.
abbrev refusing : Weather Bool
refusing = record {
  pop_fails = false;
  push_fails = false;
  dead_letter_fails = false;
  batch = permanent;
  row = λ n b. if b then inserted else permanent;
}

abbrev waiting : Buffer Bool
waiting = record { buffer = "up" ∷ "down" ∷ "up" ∷ []; dead_letters = []; table = [] }

flushed :
    flush codec 2 refusing waiting
    ≡ ((2, true), record { buffer = "up" ∷ []; dead_letters = "down" ∷ []; table = true ∷ [] })
unfolding flush flush_popped decode encode persist_some persist sort_rows put after_rows requeue
    dead_letter trimmed
flushed = refl

flush-present_example :
    present codec (λ b. b) (flush codec 2 refusing waiting).1 ≡ present codec (λ b. b) waiting
flush-present_example =
    flush-present codec (λ b. b) (codec-RoundTrips (λ b. b)) 2 refusing waiting refl refl
      (omega arith)

abbrev calm : ℕ → Weather Bool
calm i = record refusing { batch = inserted }

push-drain_example :
    (after : Buffer Bool) × (push codec true false waiting ≡ some after)
    × ((drain codec 2 calm after).buffer ≡ [])
    × ((drain codec 2 calm after).table ≡ [] ++ (decode codec waiting.buffer ++ true ∷ []))
push-drain_example =
    push-drain codec 2 calm waiting true "up" refl refl (λ i. (refl, refl)) (omega arith)
