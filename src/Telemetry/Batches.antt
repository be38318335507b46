-- ===== src/Telemetry/Batches.antt =====
-- services/telemetry/cmd/main.go, `flusher`: what becomes of the samples.
use quantime.Prelude.{
  ℕ, zero, suc, ◌+◌, ◌<◌, ◌≤◌, ◌≡◌, refl, sym, ap, ◌∙◌, Bool, true, Bool-cases, inl, inr, some, ◌⊎◌,
  List, [], ◌∷◌, ◌++◌, map, append-nil, append_assoc, arith, length, length-append, ltb, ltb→lt,
  ltb→le, get_elem?,
}
use quantime.Telemetry.Rows.{Sample, Row, to_row, copy_source, next, values, drain}
use quantime.Telemetry.Flusher.{
  Flusher, Event, sampled, ticked, lived, flush, bump, is_empty, on_sample, batch_max, publish_live,
  step, run_events, flusher,
}

-- The samples of the events, in order.
unfoldable pub received : List Event → List Sample
received [] = []
received (sampled s inserts ∷ es) = s ∷ received es
received (ticked inserts ∷ es) = received es
received (lived redis takes ∷ es) = received es

-- No insert fails.
abbrev pub Inserts : Event → Type 0
Inserts (sampled s inserts) = inserts ≡ true
Inserts (ticked inserts) = inserts ≡ true
Inserts (lived redis takes) = Unit

abbrev pub AllInsert : List Event → Type 0
AllInsert [] = Unit
AllInsert (e ∷ es) = Inserts e × AllInsert es

-- The rows that are written, and those that the batch will make.
abbrev pub rows_of : Flusher → List Row
rows_of f = f.table ++ map to_row f.batch

full_or_not : (n : ℕ) → (batch_max ≤ n) ⊎ (n < batch_max)
full_or_not n = elim (Bool-cases (ltb n batch_max)) [
  | inl more ↦ inr (ltb→lt n batch_max more)
  | inr full ↦ inl (ltb→le n batch_max full)
]

is_empty→nil : (l : List Sample) → is_empty l ≡ true → l ≡ []
is_empty→nil [] h = refl
is_empty→nil (s ∷ l) h = ground arith

flush_rows : (f : Flusher) → rows_of (flush true f) ≡ rows_of f
unfolding flush
flush_rows f = elim (Bool-cases (is_empty f.batch)) [
  | inl e ↦ rw e refl
  | inr e ↦ rw e (append-nil (f.table ++ map to_row f.batch))
]

flush_batch : (inserts : Bool) (f : Flusher) → (flush inserts f).batch ≡ []
unfolding flush
flush_batch inserts f = elim (Bool-cases (is_empty f.batch)) [
  | inl e ↦ rw e (is_empty→nil f.batch e)
  | inr e ↦ rw e (ground arith)
]

abbrev taken : Sample → Flusher → Flusher
taken s f = record f { batch = f.batch ++ s ∷ []; aggs = bump s f.aggs }

on_sample_full :
    (inserts : Bool) (s : Sample) (f : Flusher)
    → batch_max ≤ length (f.batch ++ s ∷ [])
    → on_sample inserts s f ≡ flush inserts (taken s f)
unfolding on_sample
on_sample_full inserts s f h = ground arith

on_sample_more :
    (inserts : Bool) (s : Sample) (f : Flusher)
    → length (f.batch ++ s ∷ []) < batch_max
    → on_sample inserts s f ≡ taken s f
unfolding on_sample
on_sample_more inserts s f h = ground arith

map-append : (xs ys : List Sample) → map to_row (xs ++ ys) ≡ map to_row xs ++ map to_row ys
map-append [] ys = refl
map-append (x ∷ xs) ys = ap (◌∷◌ (to_row x)) (map-append xs ys)

taken_rows : (s : Sample) (f : Flusher) → rows_of (taken s f) ≡ rows_of f ++ to_row s ∷ []
taken_rows s f =
    rw (map-append f.batch (s ∷ []))
      (sym (append_assoc f.table (map to_row f.batch) (to_row s ∷ [])))

on_sample_rows :
    (s : Sample) (f : Flusher) → rows_of (on_sample true s f) ≡ rows_of f ++ to_row s ∷ []
on_sample_rows s f = elim (full_or_not (length (f.batch ++ s ∷ []))) [
  | inl full ↦ rw (on_sample_full true s f full, flush_rows (taken s f)) (taken_rows s f)
  | inr more ↦ rw (on_sample_more true s f more) (taken_rows s f)
]

live_rows :
    (redis : Bool) (takes : ℕ → Bool) (f : Flusher)
    → rows_of (publish_live redis takes f) ≡ rows_of f
unfolding publish_live
live_rows redis takes f = ground arith

on_sample_bounded :
    (inserts : Bool) (s : Sample) (f : Flusher) → length (on_sample inserts s f).batch < batch_max
on_sample_bounded inserts s f = elim (full_or_not (length (f.batch ++ s ∷ []))) [
  | inl full ↦ rw (on_sample_full inserts s f full, flush_batch inserts (taken s f)) (omega arith)
  | inr more ↦ rw (on_sample_more inserts s f more) more
]

-- No event leaves 5000 or more samples in a batch that held fewer.
step_bounded :
    (e : Event) (f : Flusher) → length f.batch < batch_max → length (step e f).batch < batch_max
unfolding step publish_live
step_bounded (sampled s inserts) f h = on_sample_bounded inserts s f
step_bounded (ticked inserts) f h = ground (arith, flush_batch inserts f)
step_bounded (lived redis takes) f h = ground arith

pub step_rows_sampled :
    (s : Sample) (f : Flusher) → rows_of (step (sampled s true) f) ≡ rows_of f ++ to_row s ∷ []
unfolding step
step_rows_sampled s f = on_sample_rows s f

-- The other events write no new rows.
pub step_rows_other :
    (e : Event) (f : Flusher) → Inserts e → received (e ∷ []) ≡ [] → rows_of (step e f) ≡ rows_of f
unfolding step received
step_rows_other (sampled s inserts) f ok none_new = ground arith
step_rows_other (ticked inserts) f ok none_new = rw ok (flush_rows f)
step_rows_other (lived redis takes) f ok none_new = live_rows redis takes f

run_events_rows :
    (es : List Event) (f : Flusher)
    → AllInsert es
    → rows_of (run_events es f) ≡ rows_of f ++ map to_row (received es)
unfolding run_events received step
run_events_rows [] f h = sym (append-nil (rows_of f))
run_events_rows (sampled s inserts ∷ es) f h = rw (run_events_rows es (on_sample inserts s f) h.1) (
    rw (h.0, on_sample_rows s f)
      (append_assoc (rows_of f) (to_row s ∷ []) (map to_row (received es))))
run_events_rows (ticked inserts ∷ es) f h =
    rw (run_events_rows es (flush inserts f) h.1, h.0, flush_rows f)
run_events_rows (lived redis takes ∷ es) f h =
    rw (run_events_rows es (publish_live redis takes f) h.1, live_rows redis takes f)

flush_table : (f : Flusher) → (flush true f).table ≡ rows_of f
flush_table f =
    let rows = flush_rows f in
    sym (append-nil (flush true f).table) ∙ (rw (flush_batch true f) at rows)

-- If no insert fails, the table holds after the last flush the rows of the samples that were
-- received, all of them, once and in order.
flusher_rows : (es : List Event) → AllInsert es → (flusher es true).table ≡ map to_row (received es)
unfolding flusher
flusher_rows es h =
    let start : Flusher = record { batch = []; aggs = []; table = []; published = []; lost = [] } in
    flush_table (run_events es start) ∙ run_events_rows es start h

get_elem?-middle :
    (done : List Sample) (r : Sample) (rest : List Sample)
    → get_elem? (done ++ r ∷ rest) (length done) ≡ some r
get_elem?-middle [] r rest = refl
get_elem?-middle (x ∷ done) r rest = get_elem?-middle done r rest

drain-end :
    (rows : List Sample) (fuel i : ℕ)
    → length rows ≤ i
    → drain fuel (record { rows = rows; next_idx = i }) ≡ []
unfolding drain next
drain-end rows zero i h = refl
drain-end rows (suc fuel) i h = ground arith

drain-step :
    (fuel : ℕ) (done : List Sample) (r : Sample) (rest : List Sample)
    → drain (suc fuel) (record { rows = done ++ r ∷ rest; next_idx = length done })
      ≡ some (to_row r)
        ∷ drain fuel (record { rows = done ++ r ∷ rest; next_idx = length done + 1 })
unfolding drain next values
drain-step fuel done r rest =
    ground (arith, length-append done (r ∷ rest), get_elem?-middle done r rest)

drain_from :
    (done rest : List Sample)
    → drain (suc (length rest)) (record { rows = done ++ rest; next_idx = length done })
      ≡ map some (map to_row rest)
drain_from done [] = drain-end (done ++ []) 1 (length done) (omega (arith, length-append done []))
drain_from done (r ∷ rest) =
    let more = drain_from (done ++ r ∷ []) rest in
    drain-step (suc (length rest)) done r rest
    ∙ ap (◌∷◌ (some (to_row r)))
        (rw (append_assoc done (r ∷ []) rest, length-append done (r ∷ [])) at more)

-- A reader that calls `Values` after each `Next` that holds gets the row of each sample of the
-- batch, in order, and then `Next` is false.
drain_rows :
    (rows : List Sample) → drain (suc (length rows)) (copy_source rows) ≡ map some (map to_row rows)
drain_rows rows = drain_from [] rows
