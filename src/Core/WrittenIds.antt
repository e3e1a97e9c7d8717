-- ===== src/Core/WrittenIds.antt =====
-- The ids of the tx most recently written to a device, internal/core/tx.go, writtenIDs.
pub mod Memory
use device_serial_scanner.Common.{
  ℕ, Option, none, some, List, [], ◌∷◌, ◌++◌, Bytes, Assoc, lookup, remove, put, length, leb,
  if◌then◌else◌,
}

-- `order` holds the ids oldest first.
pub record WrittenIds : Type 0 where
  pub limit : ℕ
  pub at : Assoc ℕ
  pub order : List Bytes

abbrev pub new_written_ids : ℕ → WrittenIds
new_written_ids limit = record { limit = limit; at = []; order = [] }

-- `order[0]` and `order[1:]`; `none` is Go's panic on an empty slice.
unfoldable pub forget_oldest : WrittenIds → Option WrittenIds
forget_oldest ids = elim ids.order [
  | [] ↦ none
  | oldest ∷ rest ↦ some (record ids { at = remove oldest ids.at; order = rest })
]

abbrev pub append_id : Bytes → ℕ → WrittenIds → WrittenIds
append_id id at ids = record ids { at = put id at ids.at; order = ids.order ++ id ∷ [] }

unfoldable pub remember : Bytes → ℕ → WrittenIds → Option WrittenIds
unfolding forget_oldest
remember id at ids = elim (lookup id ids.at) [
  | some known ↦ some (record ids { at = put id at ids.at })
  | none ↦
      if leb ids.limit (length ids.order)
      then elim (forget_oldest ids) [ none ↦ none | some kept ↦ some (append_id id at kept) ]
      else some (append_id id at ids)
]
