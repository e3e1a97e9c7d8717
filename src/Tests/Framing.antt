-- ===== src/Tests/Framing.antt =====
-- internal/device/serial/framer.go at a scanner's settings: CR LF as separator, frames of at most
-- four bytes.
use device_serial_scanner.Common.{
  ◌≡◌, ◌+◌, refl, true, false, none, some, List, [], ◌∷◌, ◌++◌, Bytes, codes, length, All, arith,
}
use device_serial_scanner.Wire.Counters.{resync, inter_char_timeout}
use device_serial_scanner.Framer.{Framer, append, timeout, add_discard}
use device_serial_scanner.Framer.Index.{index}
use device_serial_scanner.Framer.Bounded.{
  IsConfigured, IsSettled, SameSettings, IsFrame, append-IsSettled, append-IsFrame,
}
use device_serial_scanner.Framer.Resync.{fresh, append_dropping, append_resync}
use device_serial_scanner.Framer.Stream.{IsSendable, feed, reading, feed-encode, timeout_recovers}

abbrev crlf : Bytes
crlf = 13 ∷ 10 ∷ []

abbrev scanner : Framer
scanner = record { separator = crlf; max_frame = 4; buf = codes "1"; dropping = false; dropped = 0 }

abbrev lost : Framer
lost = record { separator = crlf; max_frame = 4; buf = 13 ∷ []; dropping = true; dropped = 7 }

scanner-IsConfigured : IsConfigured scanner
scanner-IsConfigured = record { separator_length = omega arith; max_frame_positive = omega arith }

scanner-IsSettled : IsSettled scanner
unfolding index
scanner-IsSettled = record {
  no_separator = refl;
  dropping_bound = λ h. cc;
  reading_bound = λ h. omega arith;
}

abbrev two_frames : List Bytes
two_frames = codes "12" ∷ codes "3\r4" ∷ []

two_frames-IsSendable : All (IsSendable crlf 4) two_frames
unfolding index
two_frames-IsSendable = (
  record { nonempty = omega arith; within = omega arith; delimited = refl },
  (record { nonempty = omega arith; within = omega arith; delimited = refl }, tt),
)

append_run : (append scanner (codes "2\r\n\r\n34567\r\n8")).frames ≡ codes "12" ∷ []
unfolding append index
append_run = refl

append-IsSettled_example :
    IsSettled (append scanner (codes "2\r\n34567")).framer
    × SameSettings scanner (append scanner (codes "2\r\n34567")).framer
append-IsSettled_example = append-IsSettled scanner (codes "2\r\n34567") scanner-IsConfigured

append-IsFrame_example : All (IsFrame crlf 4) (append scanner (codes "2\r\n34567\r\n8\r\n")).frames
append-IsFrame_example = append-IsFrame scanner (codes "2\r\n34567\r\n8\r\n") scanner-IsConfigured

lost_quiet : index crlf (13 ∷ codes "34") ≡ none
unfolding index
lost_quiet = refl

append_dropping_example :
    ((append lost (codes "34")).frames ≡ [])
    × ((append lost (codes "34")).discards ≡ [])
    × ((append lost (codes "34")).framer.dropping ≡ true)
    × ((append lost (codes "34")).framer.dropped + length (append lost (codes "34")).framer.buf
        ≡ 10)
append_dropping_example = append_dropping lost (codes "34") refl lost_quiet

lost_found : index crlf (13 ∷ codes "\n56\r\n") ≡ some 0
unfolding index
lost_found = refl

append_resync_example :
    append lost (codes "\n56\r\n")
    ≡ add_discard
        (record { reason = resync; bytes = 9; held = none })
        (append (fresh lost) (codes "56\r\n"))
append_resync_example = append_resync lost (codes "\n56\r\n") 0 (omega arith) refl lost_found

feed-encode_example :
    feed (reading scanner []) (codes "1" ∷ codes "2\r" ∷ codes "\n3\r4\r\n" ∷ [])
    ≡ record { framer = reading scanner []; frames = two_frames; discards = [] }
feed-encode_example =
    feed-encode scanner scanner-IsConfigured two_frames
      (codes "1" ∷ codes "2\r" ∷ codes "\n3\r4\r\n" ∷ []) two_frames-IsSendable refl

tail_found : index crlf (codes "9" ++ crlf) ≡ some 1
unfolding index
tail_found = refl

timeout_recovers_example :
    ((timeout (reading scanner (codes "78"))).1
      ≡ some (record { reason = inter_char_timeout; bytes = 2; held = some (codes "78") }))
    × (feed (timeout (reading scanner (codes "78"))).0 (codes "9\r\n12\r" ∷ codes "\n3\r4\r\n" ∷ [])
        ≡ record {
          framer = reading scanner [];
          frames = two_frames;
          discards = record { reason = resync; bytes = 3; held = none } ∷ [];
        })
timeout_recovers_example =
    timeout_recovers scanner scanner-IsConfigured (codes "78") (codes "9") (codes "12\r") two_frames
      (codes "\n3\r4\r\n" ∷ []) (omega arith) tail_found two_frames-IsSendable refl
