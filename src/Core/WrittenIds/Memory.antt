-- ===== src/Core/WrittenIds/Memory.antt =====
-- What the memory of written ids holds after each write.
use device_serial_scanner.Common.{
  ℕ, ◌+◌, ◌-◌, ◌≤◌, ◌≡◌, ◌≢◌, refl, sym, ap, ◌∙◌, inl, inr, Bool, true, false, Option, none, some,
  List, [], ◌∷◌, ◌++◌, Bytes, lookup, remove, put, lookup-put, lookup-remove, length, length-append,
  drop, leb, text_eq, text_eq_iff, text_eq_refl, if◌then◌else◌, arith, Option-cases, Bool-cases,
}
use device_serial_scanner.Core.WrittenIds.{WrittenIds, append_id, remember}

-- Whether an id is in a list.
unfoldable pub contains : List Bytes → Bytes → Bool
contains [] id = false
contains (x ∷ xs) id = if text_eq x id then true else contains xs id

-- No id stands twice.
abbrev pub IsDistinct : List Bytes → Type 0
IsDistinct [] = Unit
IsDistinct (x ∷ xs) = (contains xs x ≡ false) × IsDistinct xs

abbrev pub is_some {ℓ} : {A : Type ℓ} → Option A → Bool
is_some none = false
is_some (some a) = true

-- The map and the order hold the same ids, each once, and no more than the limit.
pub record IsConsistent (ids : WrittenIds) : Type 0 where
  pub bounded : length ids.order ≤ ids.limit
  pub distinct : IsDistinct ids.order
  pub agrees : (id : Bytes) → is_some (lookup id ids.at) ≡ contains ids.order id

pub contains-append :
    (xs : List Bytes) (y id : Bytes)
    → contains (xs ++ y ∷ []) id ≡ (if contains xs id then true else text_eq y id)
unfolding contains
contains-append [] y id = ground arith
contains-append (x ∷ xs) y id = ground (arith, contains-append xs y id)

pub IsDistinct-append :
    (xs : List Bytes) (y : Bytes)
    → IsDistinct xs
    → contains xs y ≡ false
    → IsDistinct (xs ++ y ∷ [])
unfolding contains
IsDistinct-append [] y d h = (refl, tt)
IsDistinct-append (x ∷ xs) y d h = (
  ground (arith, contains-append xs y x, text_eq_iff x y, text_eq_iff y x),
  IsDistinct-append xs y d.1 (ground arith),
)

not_in_rest :
    (id x : Bytes) (xs : List Bytes) → contains (x ∷ xs) id ≡ false → contains xs id ≡ false
unfolding contains
not_in_rest id x xs h = ground arith

-- Writing an id that the memory holds changes only when it was written.
-- With room for a new id it goes to the end; with none the oldest id is forgotten for it.
-- In every case the memory is there, consistent, and answers for the id with the time given, and
-- for every other id that it did not forget as before.
pub record Remembers (id : Bytes) (at : ℕ) (ids kept : WrittenIds) : Type 0 where
  pub consistent : IsConsistent kept
  pub same_limit : kept.limit ≡ ids.limit
  pub answers_self : lookup id kept.at ≡ some at
  pub order_is : kept.order ≡ (
      if contains ids.order id
      then ids.order
      else drop (length ids.order + 1 - ids.limit) (ids.order ++ id ∷ []))
  pub answers_other :
      (j : Bytes) → j ≢ id → contains kept.order j ≡ true → lookup j kept.at ≡ lookup j ids.at

module _ (id : Bytes) (at : ℕ) (ids : WrittenIds) (c : IsConsistent ids)
    (positive : 1 ≤ ids.limit) where
  Remembers-known :
      contains ids.order id ≡ true → Remembers id at ids (record ids { at = put id at ids.at })
  Remembers-known h = record {
    consistent = record {
      bounded = c.bounded;
      distinct = c.distinct;
      agrees = λ j. ground (arith, lookup-put id j at ids.at, c.agrees j, text_eq_iff id j);
    };
    same_limit = refl;
    answers_self = rw (lookup-put id id at ids.at, text_eq_refl id);
    order_is = rw h;
    answers_other = λ j n m. ground (arith, lookup-put id j at ids.at, text_eq_iff id j);
  }

  Remembers-room :
      contains ids.order id ≡ false
      → length ids.order + 1 ≤ ids.limit
      → Remembers id at ids (append_id id at ids)
  Remembers-room h r = record {
    consistent = record {
      bounded = omega (arith, length-append ids.order (id ∷ []));
      distinct = IsDistinct-append ids.order id c.distinct h;
      agrees = λ j. ground (
        arith,
        lookup-put id j at ids.at,
        c.agrees j,
        text_eq_iff id j,
        contains-append ids.order id j,
      );
    };
    same_limit = refl;
    answers_self = rw (lookup-put id id at ids.at, text_eq_refl id);
    order_is = rw h (let e : length ids.order + 1 - ids.limit ≡ 0 = omega arith in rw e);
    answers_other = λ j n m. ground (arith, lookup-put id j at ids.at, text_eq_iff id j);
  }

  Remembers-full :
      (oldest : Bytes) (rest : List Bytes)
      → ids.order ≡ oldest ∷ rest
      → contains ids.order id ≡ false
      → ids.limit ≤ length ids.order
      → Remembers id at ids
          (append_id id at (record ids { at = remove oldest ids.at; order = rest }))
  unfolding contains
  Remembers-full oldest rest e h r =
      let d : IsDistinct (oldest ∷ rest) = rw e at c.distinct in
      let n : contains (oldest ∷ rest) id ≡ false = rw e at h in
      record {
        consistent = record {
          bounded = omega (arith, length-append rest (id ∷ []), ap length e, c.bounded);
          distinct = IsDistinct-append rest id d.1 (not_in_rest id oldest rest n);
          agrees = λ j. ground (
            arith,
            lookup-put id j at (remove oldest ids.at),
            lookup-remove oldest j ids.at,
            rw e at (c.agrees j),
            contains-append rest id j,
            text_eq_iff id j,
            text_eq_iff oldest j,
            d.0,
          );
        };
        same_limit = refl;
        answers_self = rw (lookup-put id id at (remove oldest ids.at), text_eq_refl id);
        order_is = rw h (
            rw e (
              let k : length (oldest ∷ rest) + 1 - ids.limit ≡ 1 =
                omega (arith, ap length e, c.bounded) in
              rw k));
        answers_other = λ j o m. ground (
          arith,
          lookup-put id j at (remove oldest ids.at),
          lookup-remove oldest j ids.at,
          contains-append rest id j,
          text_eq_iff id j,
          text_eq_iff oldest j,
          d.0,
        );
      }

  Remembers-new :
      lookup id ids.at ≡ none
      → contains ids.order id ≡ false
      → (order : List Bytes) → ids.order ≡ order
      → (kept : WrittenIds) × (remember id at ids ≡ some kept) × Remembers id at ids kept
  unfolding remember
  Remembers-new e h [] o =
      (append_id id at ids, ground arith, Remembers-room h (omega (arith, ap length o)))
  Remembers-new e h (oldest ∷ rest) o = elim (Bool-cases (leb ids.limit (length ids.order))) [
    | inl full ↦ (
      append_id id at (record ids { at = remove oldest ids.at; order = rest }),
      ground arith,
      Remembers-full oldest rest o h (ground arith),
    )
    | inr room ↦ (append_id id at ids, ground arith, Remembers-room h (ground arith))
  ]

  -- Remembering an id in a consistent memory with a positive limit never runs into the empty
  -- slice. The memory it leaves is consistent: the map and the order hold the same ids, each once,
  -- and no more than the limit. It answers for the id with the time given. A known id keeps its
  -- place; a new one goes to the end, and the oldest one is forgotten if there was no room. The
  -- answer for every other id that stays is as before.
  pub remember-Remembers :
      (kept : WrittenIds) × (remember id at ids ≡ some kept) × Remembers id at ids kept
  unfolding remember
  remember-Remembers = elim (Option-cases (lookup id ids.at)) [
    | inr (t, e) ↦ (
      record ids { at = put id at ids.at },
      rw (e, remember),
      Remembers-known (sym (c.agrees id) ∙ rw e),
    )
    | inl e ↦ Remembers-new e (sym (c.agrees id) ∙ rw e) ids.order refl
  ]
