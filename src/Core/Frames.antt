-- ===== src/Core/Frames.antt =====
-- Publishing a device's frames, internal/core/frames.go. What the clock says and what the encoder
-- and the broker answer enter as arguments; a message's id and its other stamps are left out.
pub mod Account
use device_serial_scanner.Common.{
  ℕ, zero, suc, ◌+◌, Bool, true, false, ◌&&◌, List, [], ◌∷◌, Bytes, ltb, u64, if◌then◌else◌,
}
use device_serial_scanner.Device.{Frame}
use device_serial_scanner.Core.Pipeline.{Pipeline, count_frame, count_publish_failure}

-- A reading as it is published.
pub record Rx : Type 0 where
  pub device_id : Bytes
  pub seq : ℕ
  pub raw : Bytes
  pub at : ℕ

pub data Outcome : Type 0 where
  outcome_published outcome_failed outcome_dropped : Outcome

-- What the publishing of one frame meets: the clock, the drain's deadline (0: not set), whether the
-- reading can be encoded, and whether the broker takes it.
pub record Attempt : Type 0 where
  pub now : ℕ
  pub deadline : ℕ
  pub encodes : Bool
  pub acknowledged : Bool

-- pastDrainDeadline.
unfoldable pub past_drain_deadline : ℕ → ℕ → Bool
past_drain_deadline deadline now = ltb 0 deadline && ltb deadline now

-- publishRx.
unfoldable pub publish_rx : Attempt → Pipeline → Pipeline × Outcome
publish_rx a line =
    if a.encodes
    then (if a.acknowledged
        then (line, outcome_published)
        else (count_publish_failure line, outcome_failed))
    else (count_publish_failure line, outcome_dropped)

-- A turn of publishFrames' loop.
unfoldable pub publish_frame : Frame → Attempt → Pipeline → Pipeline × Rx × Outcome
unfolding past_drain_deadline publish_rx
publish_frame frame a line =
    let taken : Pipeline = count_frame (record line { seq = u64 (line.seq + 1) }) in
    let rx : Rx = record {
      device_id = taken.device.id;
      seq = taken.seq;
      raw = frame.raw;
      at = frame.at;
    } in
    if past_drain_deadline a.deadline a.now
    then (count_publish_failure taken, rx, outcome_dropped)
    else (let (done, outcome) = publish_rx a taken in (done, rx, outcome))

-- publishFrames, until the channel is closed, with what became of each reading.
unfoldable pub publish_frames : List (Frame × Attempt) → Pipeline → Pipeline × List (Rx × Outcome)
unfolding publish_frame
publish_frames [] line = (line, [])
publish_frames ((frame, a) ∷ frames) line =
    let (next, rx, outcome) = publish_frame frame a line in
    let (last, records) = publish_frames frames next in (last, (rx, outcome) ∷ records)
