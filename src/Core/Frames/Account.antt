-- ===== src/Core/Frames/Account.antt =====
-- Every reading is accounted for: numbered, and counted if the broker did not take it.
use device_serial_scanner.Common.{
  ℕ, zero, suc, ◌+◌, ◌≡◌, ◌∙◌, ap, ap₂, List, [], ◌∷◌, map, u64, length, arith,
}
use device_serial_scanner.Device.{Frame}
use device_serial_scanner.Core.Pipeline.{Pipeline}
use device_serial_scanner.Core.Frames.{
  Rx, Outcome, outcome_published, outcome_failed, outcome_dropped, Attempt, publish_frame,
  publish_frames,
}

-- So many numbers behind this one, as a uint64 counts.
abbrev pub numbers : ℕ → ℕ → List ℕ
numbers seq zero = []
numbers seq (suc n) = u64 (seq + 1) ∷ numbers (u64 (seq + 1)) n

abbrev one_unless_published : Outcome → ℕ
one_unless_published outcome_published = 0
one_unless_published outcome_failed = 1
one_unless_published outcome_dropped = 1

-- How many readings the broker did not take.
abbrev pub unpublished : List (Rx × Outcome) → ℕ
unpublished [] = 0
unpublished ((rx, outcome) ∷ records) = one_unless_published outcome + unpublished records

-- What publishing these frames has done to the pipeline, with these records.
pub record Accounted (frames : List (Frame × Attempt)) (before after : Pipeline)
    (records : List (Rx × Outcome)) : Type 0 where
  pub in_order : map (λ r. r.0.raw) records ≡ map (λ f. f.0.raw) frames
  pub numbered : map (λ r. r.0.seq) records ≡ numbers before.seq (length frames)
  pub in_step : before.counters.rx_frames ≡ before.seq → after.counters.rx_frames ≡ after.seq
  pub failures :
      u64 after.counters.publish_failures
      ≡ u64 (before.counters.publish_failures + unpublished records)

publish_frame-Accounted :
    (frame : Frame) (a : Attempt) (line : Pipeline)
    → (let out = publish_frame frame a line in
        Accounted ((frame, a) ∷ []) line out.0 ((out.1, out.2) ∷ [])
        × (out.0.seq ≡ u64 (line.seq + 1)))
unfolding publish_frame
publish_frame-Accounted frame a line = ground arith

publish_frame-rx :
    (frame : Frame) (a : Attempt) (line : Pipeline)
    → (let rx = (publish_frame frame a line).1 in
        (rx.raw ≡ frame.raw) × (rx.seq ≡ u64 (line.seq + 1)))
unfolding publish_frame
publish_frame-rx frame a line = ground arith

-- Publishing a device's frames leaves none out, whatever the encoder, the broker and the drain's
-- deadline do: the readings are the frames in order, numbered one by one from the pipeline's
-- sequence number as a uint64 counts, so that the counter of frames stays equal to that number; and
-- the counter of publish failures grows by the number of readings that the broker did not take.
pub publish_frames-Accounted :
    (frames : List (Frame × Attempt)) (line : Pipeline)
    → (let out = publish_frames frames line in Accounted frames line out.0 out.1)
unfolding publish_frames
publish_frames-Accounted [] line = ground arith
publish_frames-Accounted ((frame, a) ∷ frames) line =
    let (here, next) = publish_frame-Accounted frame a line in
    let rest = publish_frames-Accounted frames (publish_frame frame a line).0 in
    record {
      in_order = ap₂ ◌∷◌ (publish_frame-rx frame a line).0 rest.in_order;
      numbered =
          ap₂ ◌∷◌ (publish_frame-rx frame a line).1
            (rest.numbered ∙ ap (λ seq. numbers seq (length frames)) next);
      in_step = λ e. rest.in_step (here.in_step e);
      failures = omega (arith, here.failures, rest.failures);
    }
