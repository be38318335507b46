-- ===== src/Telemetry/Intake.antt =====
-- services/telemetry/cmd/main.go, `main`: the subscription to samples, the channel between its callback and
-- the flusher, and the flusher, as inputs in any order.
use quantime.Prelude.{
  ℕ, ◌≡◌, refl, ap, sym, ◌∙◌, Bool, true, Option, none, some, List, [], ◌∷◌, ◌++◌, map,
}
use quantime.Go.Channel.{
  Channel, make, IsFifo, make-IsFifo, try_send, try_send-IsFifo, receive-IsFifo,
}
use quantime.Telemetry.Rows.{Sample, to_row}
use quantime.Telemetry.Flusher.{Flusher, sampled, ticked, lived, step}
use quantime.Telemetry.Batches.{received, rows_of, step_rows_sampled, step_rows_other}

-- A message decodes as a sample or not; the other inputs are the cases of the flusher's `select`.
pub data Input : Type 0 where
  message : Option Sample → Input
  takes : Bool → Input
  ticks : Bool → Input
  lives : Bool → (ℕ → Bool) → Input

abbrev pub buf_capacity : ℕ
buf_capacity = 50000

-- `arrived` and `taken` are the samples that were decoded, and those that the flusher received.
pub record Telemetry : Type 0 where
  pub buf : Channel Sample
  pub flusher : Flusher
  pub arrived : List Sample
  pub taken : List Sample

abbrev pub on_telemetry : Option Sample → Telemetry → Telemetry
on_telemetry none t = t
on_telemetry (some s) t = record t {
  buf = try_send buf_capacity s t.buf;
  arrived = t.arrived ++ s ∷ [];
}

abbrev pub take_sample : Bool → List Sample → Telemetry → Telemetry
take_sample inserts [] t = t
take_sample inserts (s ∷ rest) t = record t {
  buf = record (t.buf) { buffer = rest };
  flusher = step (sampled s inserts) t.flusher;
  taken = t.taken ++ s ∷ [];
}

unfoldable pub on_input : Input → Telemetry → Telemetry
unfolding try_send step
on_input (message m) t = on_telemetry m t
on_input (takes inserts) t = take_sample inserts t.buf.buffer t
on_input (ticks inserts) t = record t { flusher = step (ticked inserts) t.flusher }
on_input (lives redis takes_it) t = record t { flusher = step (lived redis takes_it) t.flusher }

unfoldable pub run_inputs : List Input → Telemetry → Telemetry
unfolding on_input
run_inputs [] t = t
run_inputs (i ∷ is) t = run_inputs is (on_input i t)

abbrev pub ready : Telemetry
ready = record {
  buf = make;
  flusher = record { batch = []; aggs = []; table = []; published = []; lost = [] };
  arrived = [];
  taken = [];
}

-- No insert fails.
abbrev pub InputInserts : Input → Type 0
InputInserts (message m) = Unit
InputInserts (takes inserts) = inserts ≡ true
InputInserts (ticks inserts) = inserts ≡ true
InputInserts (lives redis takes_it) = Unit

abbrev pub AllInputsInsert : List Input → Type 0
AllInputsInsert [] = Unit
AllInputsInsert (i ∷ is) = InputInserts i × AllInputsInsert is

-- The samples that the flusher took are in the table or in its batch, and what arrived was taken, waits,
-- or was dropped.
pub record IsAtMostOnce (t : Telemetry) : Type 0 where
  pub rows_are : rows_of t.flusher ≡ map to_row t.taken
  pub fifo : IsFifo 50000 t.arrived t.taken t.buf

map-append-one :
    (xs : List Sample) (s : Sample) → map to_row (xs ++ s ∷ []) ≡ map to_row xs ++ to_row s ∷ []
map-append-one [] s = refl
map-append-one (x ∷ xs) s = ap (λ rs. to_row x ∷ rs) (map-append-one xs s)

take_sample-IsAtMostOnce :
    (l : List Sample) (t : Telemetry)
    → t.buf.buffer ≡ l
    → IsAtMostOnce t
    → IsAtMostOnce (take_sample true l t)
take_sample-IsAtMostOnce [] t e h = h
take_sample-IsAtMostOnce (s ∷ rest) t e h = record {
  rows_are =
      step_rows_sampled s t.flusher
      ∙ ap (λ rs. rs ++ to_row s ∷ []) h.rows_are
      ∙ sym (map-append-one t.taken s);
  fifo = receive-IsFifo s rest t.buf e h.fifo;
}

on_input-IsAtMostOnce :
    (i : Input) (t : Telemetry) → InputInserts i → IsAtMostOnce t → IsAtMostOnce (on_input i t)
unfolding on_input received
on_input-IsAtMostOnce (message none) t ok h = h
on_input-IsAtMostOnce (message (some s)) t ok h = record {
  rows_are = h.rows_are;
  fifo = try_send-IsFifo s t.buf h.fifo;
}
on_input-IsAtMostOnce (takes inserts) t ok h =
    rw ok (take_sample-IsAtMostOnce t.buf.buffer t refl h)
on_input-IsAtMostOnce (ticks inserts) t ok h = record {
  rows_are = step_rows_other (ticked inserts) t.flusher ok refl ∙ h.rows_are;
  fifo = h.fifo;
}
on_input-IsAtMostOnce (lives redis takes_it) t ok h = record {
  rows_are = step_rows_other (lived redis takes_it) t.flusher tt refl ∙ h.rows_are;
  fifo = h.fifo;
}

run_inputs-kept :
    (is : List Input) (t : Telemetry)
    → AllInputsInsert is
    → IsAtMostOnce t
    → IsAtMostOnce (run_inputs is t)
unfolding run_inputs
run_inputs-kept [] t ok h = h
run_inputs-kept (i ∷ is) t ok h =
    run_inputs-kept is (on_input i t) ok.1 (on_input-IsAtMostOnce i t ok.0 h)

-- Over every sequence of messages, receipts and ticks in which no insert fails, the table and the batch
-- hold the rows of the samples that the flusher took, each once; these and the at most 50,000 that wait are
-- those that arrived, in order, but for the dropped ones.
pub run_inputs-IsAtMostOnce :
    (is : List Input) → AllInputsInsert is → IsAtMostOnce (run_inputs is ready)
run_inputs-IsAtMostOnce is ok =
    run_inputs-kept is ready ok (record { rows_are = refl; fifo = make-IsFifo buf_capacity })
