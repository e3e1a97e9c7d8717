-- ===== src/Serial/New.antt =====
-- The building of a serial device, internal/device/serial/serial.go, New, and what
-- cmd/skuhus-device-agent/devices.go gives it. The logger, the opener and the channel are left out.
use device_serial_scanner.Common.{
  ℕ, ◌+◌, ◌&&◌, not, Option, none, some, List, [], ◌∷◌, Bytes, codes, text_eq, length,
  if◌then◌else◌, ℤ, at_least, at_most, natural,
}
use device_serial_scanner.Backoff.{PolicySettings, PolicyProblem, validate_policy}
use device_serial_scanner.Framer.{FramerError, new_framer, built, refused}
use device_serial_scanner.Config.Settings.{DeviceConfig, reopen_policy}

-- The serial library's values; their names are the configuration's.
pub data Parity : Type 0 where
  no_parity odd_parity even_parity mark_parity space_parity : Parity

pub data StopBits : Type 0 where
  one_stop_bit two_stop_bits : StopBits

-- ParityByName and StopBitsByName.
unfoldable pub parity_by_name : Bytes → Option Parity
parity_by_name name =
    if text_eq (codes "none") name
    then some no_parity
    else if text_eq (codes "odd") name
    then some odd_parity
    else if text_eq (codes "even") name
    then some even_parity
    else if text_eq (codes "mark") name
    then some mark_parity
    else if text_eq (codes "space") name
    then some space_parity
    else none

unfoldable pub stop_bits_by_name : Bytes → Option StopBits
stop_bits_by_name name =
    if text_eq name (codes "1")
    then some one_stop_bit
    else if text_eq name (codes "2")
    then some two_stop_bits
    else none

pub record NewOptions : Type 0 where
  pub id : Bytes
  pub path : Bytes
  pub baud : ℤ
  pub data_bits : ℤ
  pub parity : Parity
  pub stop_bits : StopBits
  pub separator : Bytes
  pub max_frame_bytes : ℤ
  pub inter_char_timeout : ℤ
  pub tx_chunk_bytes : ℤ
  pub reopen : PolicySettings

pub data NewError : Type 0 where
  id_required path_required bad_baud bad_inter_char_timeout bad_data_bits : NewError
  framer_refused : FramerError → NewError
  bad_chunk_bytes : NewError
  reopen_refused : List PolicyProblem → NewError
  unknown_parity unknown_stop_bits : NewError

-- A device with its line format, and room for a whole frame with its separator.
pub record SerialDevice : Type 0 where
  pub opts : NewOptions
  pub read_buffer_bytes : ℕ

pub data Built : Type 0 where
  device_built : SerialDevice → Built
  device_refused : NewError → Built

-- The checks of New behind the framer's.
unfoldable pub new_behind_framer : NewOptions → Built
new_behind_framer opts =
    if not (at_least 1 opts.tx_chunk_bytes)
    then device_refused bad_chunk_bytes
    else elim (validate_policy opts.reopen) [
      | problem ∷ problems ↦ device_refused (reopen_refused (problem ∷ problems))
      | [] ↦ device_built (record {
        opts = opts;
        read_buffer_bytes = natural opts.max_frame_bytes + length opts.separator;
      })
    ]

-- New. NewFramer refuses a frame size below 1, as `new_framer` does for 0.
unfoldable pub new : NewOptions → Built
unfolding new_behind_framer
new opts =
    if text_eq opts.id []
    then device_refused id_required
    else if text_eq opts.path []
    then device_refused path_required
    else if not (at_least 1 opts.baud)
    then device_refused bad_baud
    else if not (at_least 1 opts.inter_char_timeout)
    then device_refused bad_inter_char_timeout
    else if not (at_least 5 opts.data_bits && at_most 8 opts.data_bits)
    then device_refused bad_data_bits
    else elim (new_framer opts.separator (natural opts.max_frame_bytes)) [
      | refused e ↦ device_refused (framer_refused e)
      | built framer ↦ new_behind_framer opts
    ]

-- newSerialReader, behind lineFormat.
abbrev pub options_of : DeviceConfig → Parity → StopBits → NewOptions
options_of device_cfg parity stop_bits = record {
  id = device_cfg.id;
  path = device_cfg.path;
  baud = device_cfg.baud;
  data_bits = device_cfg.data_bits;
  parity = parity;
  stop_bits = stop_bits;
  separator = device_cfg.separator;
  max_frame_bytes = device_cfg.max_frame_bytes;
  inter_char_timeout = device_cfg.inter_char_timeout;
  tx_chunk_bytes = device_cfg.tx_chunk_bytes;
  reopen = reopen_policy device_cfg;
}

-- lineFormat and newSerialReader.
unfoldable pub new_serial_reader : DeviceConfig → Built
unfolding new parity_by_name stop_bits_by_name
new_serial_reader device_cfg = elim (parity_by_name device_cfg.parity) [
  | none ↦ device_refused unknown_parity
  | some parity ↦ elim (stop_bits_by_name device_cfg.stop_bits) [
    | none ↦ device_refused unknown_stop_bits
    | some stop_bits ↦ new (options_of device_cfg parity stop_bits)
  ]
]
