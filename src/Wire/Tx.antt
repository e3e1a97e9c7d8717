-- ===== src/Wire/Tx.antt =====
-- Tx messages and tx results, internal/wire/messages.go. The sentences of a result, which nothing
-- parses, are left out; the facts that they are made of are in `TxDetail`.
use device_serial_scanner.Common.{ℕ, Bool, Option, none, some, [], ◌∷◌, Bytes}
use device_serial_scanner.Wire.Counters.{ErrorClass}

pub data TxState : Type 0 where
  accepted written failed rejected : TxState

pub data TxCode : Type 0 where
  code_accepted code_written code_already_written code_in_progress : TxCode
  code_invalid_message code_invalid_id code_port_unavailable : TxCode
  code_write_failed code_expired code_agent_stopping : TxCode

-- txCodeStates.
unfoldable pub tx_code_state : TxCode → TxState
tx_code_state code_accepted = accepted
tx_code_state code_written = written
tx_code_state code_already_written = written
tx_code_state code_in_progress = rejected
tx_code_state code_invalid_message = failed
tx_code_state code_invalid_id = failed
tx_code_state code_port_unavailable = failed
tx_code_state code_write_failed = failed
tx_code_state code_expired = failed
tx_code_state code_agent_stopping = failed

pub data TxStage : Type 0 where
  queued writing : TxStage

pub record TxRef : Type 0 where
  pub id : Bytes
  pub sender : Bytes

-- Why a tx cannot be read, as the checks of ReadTx name it.
pub data Problem : Type 0 where
  not_an_object more_than_one_value : Problem
  unknown_fields missing_fields : Problem
  wrong_type wrong_schema empty_sender line_break bad_base64 no_bytes not_uuid : Problem

pub record TxProblem : Type 0 where
  pub code : TxCode
  pub text : Problem

-- The detail of a result, by its code. Times are instants.
pub data TxDetail : Type 0 where
  no_detail : TxDetail
  wrote : ℕ → ℕ → TxDetail
  written_at : ℕ → TxDetail
  standing_at : TxStage → ℕ → ℕ → TxDetail
  problem : Problem → TxDetail
  unavailable : ErrorClass → Bytes → ℕ → TxDetail
  broke_off : ErrorClass → Bytes → ℕ → ℕ → TxDetail
  attempted : ℕ → TxDetail
  stopped_after : ℕ → TxDetail

pub record TxResult : Type 0 where
  pub device_open : Bool
  pub tx_id : Option Bytes
  pub sender : Option Bytes
  pub state : TxState
  pub code : TxCode
  pub detail : TxDetail

-- nilIfEmpty.
unfoldable pub nil_if_empty : Bytes → Option Bytes
nil_if_empty [] = none
nil_if_empty (c ∷ cs) = some (c ∷ cs)

-- Builder.txResult.
unfoldable pub tx_result : Bool → TxRef → TxCode → TxDetail → TxResult
unfolding nil_if_empty tx_code_state
tx_result device_open ref code detail = record {
  device_open = device_open;
  tx_id = nil_if_empty ref.id;
  sender = nil_if_empty ref.sender;
  state = tx_code_state code;
  code = code;
  detail = detail;
}

module _ (is_open : Bool) (ref : TxRef) where
  -- The Builder's methods, one for each code.
  abbrev pub tx_accepted : TxResult
  tx_accepted = tx_result is_open ref code_accepted no_detail

  abbrev pub tx_written : ℕ → ℕ → TxResult
  tx_written bytes attempts = tx_result is_open ref code_written (wrote bytes attempts)

  abbrev pub tx_already_written : ℕ → TxResult
  tx_already_written at = tx_result is_open ref code_already_written (written_at at)

  abbrev pub tx_in_progress : TxStage → ℕ → ℕ → TxResult
  tx_in_progress stage since bytes =
      tx_result is_open ref code_in_progress (standing_at stage since bytes)

  abbrev pub tx_invalid_message : Problem → TxResult
  tx_invalid_message why = tx_result is_open ref code_invalid_message (problem why)

  abbrev pub tx_invalid_id : TxResult
  tx_invalid_id = tx_result is_open ref code_invalid_id no_detail

  abbrev pub tx_port_unavailable : ErrorClass → Bytes → ℕ → TxResult
  tx_port_unavailable class text attempts =
      tx_result is_open ref code_port_unavailable (unavailable class text attempts)

  abbrev pub tx_write_failed : ErrorClass → Bytes → ℕ → ℕ → TxResult
  tx_write_failed class text bytes attempts =
      tx_result is_open ref code_write_failed (broke_off class text bytes attempts)

  abbrev pub tx_expired : ℕ → TxResult
  tx_expired attempts = tx_result is_open ref code_expired (attempted attempts)

  abbrev pub tx_agent_stopping : ℕ → TxResult
  tx_agent_stopping bytes = tx_result is_open ref code_agent_stopping (stopped_after bytes)
