-- ===== src/Agent/Intake.antt =====
-- The intake of tx, newTxIntake of cmd/skuhus-device-agent/run.go: what the MQTT client hands over
-- goes to the core, or is dropped. The log record of a dropped tx is left out.
pub mod Deadline
use device_serial_scanner.Common.{
  ℕ, Bool, true, false, List, [], ◌∷◌, ◌++◌, length, ltb, if◌then◌else◌,
}
use device_serial_scanner.Mqtt.Client.{Message}
use device_serial_scanner.Core.Tx.{TxMessage}

-- A message as the core takes it.
unfoldable pub tx_message_of : Message → TxMessage
tx_message_of message = record {
  topic = message.topic;
  payload = message.payload;
  expiry = message.expiry;
  received = message.received;
}

-- onMessage, on a channel that holds at most `size`: what waits in it, and whether the message went
-- in.
unfoldable pub on_message : ℕ → Message → List TxMessage → List TxMessage × Bool
unfolding tx_message_of
on_message size message intake =
    if ltb (length intake) size
    then (intake ++ tx_message_of message ∷ [], true)
    else (intake, false)
