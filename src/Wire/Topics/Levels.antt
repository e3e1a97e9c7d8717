-- ===== src/Wire/Topics/Levels.antt =====
-- A topic is read back into its levels, so equal topics have equal levels.
use device_serial_scanner.Common.{
  ℕ, ◌≡◌, refl, ◌∙◌, ap, true, false, List, [], ◌∷◌, ◌++◌, append_assoc, Bytes, ◌==◌, if◌then◌else◌,
  All, arith,
}
use device_serial_scanner.Wire.Topics.{is_segment, all_segment_bytes, join_levels}

-- A byte string split at its slashes.
abbrev onto : ℕ → List Bytes → List Bytes
onto c [] = (c ∷ []) ∷ []
onto c (level ∷ levels) = (c ∷ level) ∷ levels

unfoldable pub split_levels : Bytes → List Bytes
split_levels [] = [] ∷ []
split_levels (c ∷ cs) = let rest = split_levels cs in if c == b'/' then [] ∷ rest else onto c rest

abbrev pub IsLevel : Bytes → Type 0
IsLevel = All (λ c. (c == b'/') ≡ false)

pub IsLevel-segment : (level : Bytes) → is_segment level ≡ true → IsLevel level
unfolding is_segment
IsLevel-segment [] h = cc
IsLevel-segment (c ∷ cs) h = go (c ∷ cs) h
  where
    go : (l : Bytes) → all_segment_bytes l ≡ true → IsLevel l
    go [] h = tt
    go (c ∷ cs) h = (ground arith, go cs (ground arith))

split_level : (level : Bytes) → IsLevel level → split_levels level ≡ level ∷ []
unfolding split_levels
split_level [] h = refl
split_level (c ∷ cs) h = rw (h.0, split_level cs h.1)

split_join :
    (level rest : Bytes)
    → IsLevel level
    → split_levels (level ++ b'/' ∷ rest) ≡ level ∷ split_levels rest
unfolding split_levels
split_join [] rest h = refl
split_join (c ∷ cs) rest h = rw (h.0, split_join cs rest h.1)

-- Splitting undoes joining, for levels that hold no slash.
pub split-join :
    (level : Bytes) (levels : List Bytes)
    → All IsLevel (level ∷ levels)
    → split_levels (join_levels (level ∷ levels)) ≡ level ∷ levels
unfolding join_levels
split-join level [] h = split_level level h.0
split-join level (next ∷ levels) h =
    split_join level (join_levels (next ∷ levels)) h.0
    ∙ ap (λ l. level ∷ l) (split-join next levels h.1)

-- A prefix that was joined before joins on.
pub join-join :
    (a : Bytes) (more : List Bytes) (b : Bytes) (bs : List Bytes)
    → join_levels (join_levels (a ∷ more) ∷ b ∷ bs) ≡ join_levels (a ∷ (more ++ b ∷ bs))
unfolding join_levels
join-join a [] b bs = refl
join-join a (c ∷ cs) b bs =
    append_assoc a (b'/' ∷ join_levels (c ∷ cs)) (b'/' ∷ join_levels (b ∷ bs))
    ∙ ap (λ l. a ++ b'/' ∷ l) (join-join c cs b bs)
