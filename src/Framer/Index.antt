-- ===== src/Framer/Index.antt =====
-- `bytes.Index`, as the framer calls it: where a separator first occurs.
use device_serial_scanner.Common.{
  ℕ, zero, suc, ◌+◌, ◌≤◌, ◌<◌, ◌≡◌, refl, Bool, true, false, ◌&&◌, Option, none, some, [], ◌∷◌,
  ◌++◌, arith, Bytes, length, drop, ◌==◌, if◌then◌else◌,
}

-- Whether the text starts with the separator.
unfoldable pub starts_with : Bytes → Bytes → Bool
starts_with [] buf = true
starts_with (s ∷ ss) [] = false
starts_with (s ∷ ss) (b ∷ bs) = s == b && starts_with ss bs

abbrev shift : Option ℕ → Option ℕ
shift none = none
shift (some n) = some (suc n)

-- `none` is Go's -1.
unfoldable pub index : Bytes → Bytes → Option ℕ
unfolding starts_with
index sep [] = if starts_with sep [] then some 0 else none
index sep (b ∷ bs) = if starts_with sep (b ∷ bs) then some 0 else shift (index sep bs)

starts_with-le : (sep buf : Bytes) → starts_with sep buf ≡ true → length sep ≤ length buf
unfolding starts_with
starts_with-le [] buf h = omega arith
starts_with-le (s ∷ ss) [] h = cc
starts_with-le (s ∷ ss) (b ∷ bs) h = ground (arith, starts_with-le ss bs)

starts_with-append_true :
    (sep buf rest : Bytes) → starts_with sep buf ≡ true → starts_with sep (buf ++ rest) ≡ true
unfolding starts_with
starts_with-append_true [] buf rest h = refl
starts_with-append_true (s ∷ ss) [] rest h = cc
starts_with-append_true (s ∷ ss) (b ∷ bs) rest h =
    ground (arith, starts_with-append_true ss bs rest)

-- More bytes behind the text change nothing if the text is as long as the separator.
starts_with-append :
    (sep buf rest : Bytes)
    → length sep ≤ length buf
    → starts_with sep (buf ++ rest) ≡ starts_with sep buf
unfolding starts_with
starts_with-append [] buf rest h = refl
starts_with-append (s ∷ ss) [] rest h = absurd (omega arith)
starts_with-append (s ∷ ss) (b ∷ bs) rest h = ground (arith, starts_with-append ss bs rest)

starts_with_self : (sep rest : Bytes) → starts_with sep (sep ++ rest) ≡ true
unfolding starts_with
starts_with_self [] rest = refl
starts_with_self (s ∷ ss) rest = ground (arith, starts_with_self ss rest)

-- A separator that is found lies inside the text.
pub index-le : (sep buf : Bytes) (at : ℕ) → index sep buf ≡ some at → at + length sep ≤ length buf
unfolding index
index-le sep [] at h = ground (arith, starts_with-le sep [])
index-le sep (b ∷ bs) zero h = ground (arith, starts_with-le sep (b ∷ bs))
index-le sep (b ∷ bs) (suc at) h = ground (arith, index-le sep bs at)

-- A text shorter than the separator does not hold it.
pub index_short : (sep buf : Bytes) → length buf < length sep → index sep buf ≡ none
unfolding index
index_short sep [] h = ground (arith, starts_with-le sep [])
index_short sep (b ∷ bs) h = ground (arith, starts_with-le sep (b ∷ bs), index_short sep bs)

-- More bytes behind the text do not move the first separator.
pub index-append :
    (sep buf rest : Bytes) (at : ℕ) → index sep buf ≡ some at → index sep (buf ++ rest) ≡ some at
unfolding index
index-append sep [] [] at h = h
index-append sep [] (r ∷ rs) at h = ground (arith, starts_with-append_true sep [] (r ∷ rs))
index-append sep (b ∷ bs) rest zero h = ground (arith, starts_with-append_true sep (b ∷ bs) rest)
index-append sep (b ∷ bs) rest (suc at) h =
    ground
      (arith, starts_with-append sep (b ∷ bs) rest, index-append sep bs rest at, index-le sep bs at)

index-nil : (sep rest : Bytes) (at : ℕ) → index sep rest ≡ some (suc at) → index sep [] ≡ none
unfolding index
index-nil [] [] at h = cc
index-nil [] (r ∷ rs) at h = cc
index-nil (s ∷ ss) rest at h = refl

-- Before the end of the first separator there is none.
pub index_prefix :
    (sep buf rest : Bytes) (at : ℕ)
    → index sep (buf ++ rest) ≡ some at
    → length buf < at + length sep
    → index sep buf ≡ none
unfolding index
index_prefix sep [] rest zero h k = ground (arith, starts_with-le sep [])
index_prefix sep [] rest (suc at) h k = index-nil sep rest at h
index_prefix sep (b ∷ bs) rest zero h k =
    ground (arith, starts_with-le sep (b ∷ bs), index_short sep bs)
index_prefix sep (b ∷ bs) rest (suc at) h k =
    ground (arith, starts_with-append_true sep (b ∷ bs) rest, index_prefix sep bs rest at)

-- What stands at the first separator is the separator.
pub index-starts_with :
    (sep buf : Bytes) (at : ℕ) → index sep buf ≡ some at → starts_with sep (drop at buf) ≡ true
unfolding index
index-starts_with sep [] zero h = ground arith
index-starts_with sep [] (suc at) h = ground arith
index-starts_with sep (b ∷ bs) zero h = ground arith
index-starts_with sep (b ∷ bs) (suc at) h = ground (arith, index-starts_with sep bs at)
