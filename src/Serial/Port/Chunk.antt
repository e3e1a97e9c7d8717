-- ===== src/Serial/Port/Chunk.antt =====
-- What one chunk puts on the line, whatever the port takes in each call.
use device_serial_scanner.Common.{
  ℕ, zero, suc, ◌+◌, ◌≤◌, ◌<◌, ◌≡◌, inl, inr, refl, sym, ◌∙◌, ap, Bool, true, false, Option, none,
  some, [], ◌∷◌, ◌++◌, append_assoc, append-nil, arith, Bytes, length, take, drop, ltb, ◌==◌,
  length-drop, drop-drop, Bool-cases, Option-cases,
}
use native.Mathlib.Nat.{zero-add, suc-add}
use device_serial_scanner.Serial.Classify.{Failure}
use device_serial_scanner.Serial.Port.{
  port_fault, closed_fault, no_bytes_fault, Sent, chunk_loop, write_chunk,
}

-- Cutting off in two goes.
pub take-add : (m n : ℕ) (xs : Bytes) → take m xs ++ take n (drop m xs) ≡ take (m + n) xs
take-add zero n xs = rw zero-add refl
take-add (suc m) zero [] = rw suc-add refl
take-add (suc m) (suc n) [] = rw suc-add refl
take-add (suc m) n (x ∷ xs) = rw suc-add (ap (◌∷◌ x) (take-add m n xs))

-- A prefix of a prefix.
pub take-take : (n m : ℕ) (xs : Bytes) → n ≤ length (take m xs) → take n (take m xs) ≡ take n xs
take-take zero m xs h = refl
take-take (suc n) zero xs h = absurd (omega arith)
take-take (suc n) (suc m) [] h = refl
take-take (suc n) (suc m) (x ∷ xs) h = ap (◌∷◌ x) (take-take n m xs (omega arith))

pub length-take-le : (n : ℕ) (xs : Bytes) → length (take n xs) ≤ length xs
length-take-le zero xs = omega arith
length-take-le (suc n) [] = omega arith
length-take-le (suc n) (x ∷ xs) = omega (arith, length-take-le n xs)

pub take-nonempty : (n : ℕ) (xs : Bytes) → 1 ≤ n → 1 ≤ length xs → 1 ≤ length (take n xs)
take-nonempty zero xs h k = absurd (omega arith)
take-nonempty (suc n) [] h k = absurd (omega arith)
take-nonempty (suc n) (x ∷ xs) h k = omega arith

-- The port's contract, that of io.Writer: a call takes a prefix of its bytes, and puts that on the
-- line.
pub record IsPort {ℓ} {P : Type ℓ} (port_write : P → Bytes → P × ℕ × Option Failure)
    (line : P → Bytes) : Type ℓ where
  pub takes : (p : P) (bytes : Bytes) → (port_write p bytes).1 ≤ length bytes
  pub puts :
      (p : P) (bytes : Bytes)
      → line (port_write p bytes).0 ≡ line p ++ take (port_write p bytes).1 bytes

module _ {ℓ} {P : Type ℓ} (port_write : P → Bytes → P × ℕ × Option Failure) (line : P → Bytes)
    (contract : IsPort port_write line) where
  -- A chunk from `written` on: so many bytes more were put on the line, in order, and all of them
  -- unless there was a fault.
  pub record Chunked (p : P) (chunk : Bytes) (written : ℕ) (sent : Sent P) : Type ℓ where
    pub added : ℕ
    pub total : sent.written ≡ written + added
    pub within : sent.written ≤ length chunk
    pub whole : sent.fault ≡ none → sent.written ≡ length chunk
    pub line_is : line sent.port ≡ line p ++ take added (drop written chunk)

  -- One call of Write: how many bytes it takes, and what the line holds behind it.
  step-line :
      (p : P) (chunk : Bytes) (written more : ℕ)
      → (let (next, accepted, failure) = port_write p (drop written chunk) in
          line next ++ take more (drop (written + accepted) chunk)
          ≡ line p ++ take (accepted + more) (drop written chunk))
  step-line p chunk written more =
      let bytes = drop written chunk in
      let accepted = (port_write p bytes).1 in
      ap (λ l. l ++ take more (drop (written + accepted) chunk)) (contract.puts p bytes)
      ∙ append_assoc (line p) (take accepted bytes) (take more (drop (written + accepted) chunk))
      ∙ ap (λ b. line p ++ (take accepted bytes ++ take more b))
          (sym (drop-drop written accepted chunk))
      ∙ ap (◌++◌ (line p)) (take-add accepted more bytes)

  accepted-le :
      (p : P) (chunk : Bytes) (written : ℕ)
      → written ≤ length chunk
      → written + (port_write p (drop written chunk)).1 ≤ length chunk
  accepted-le p chunk written h =
      omega (arith, contract.takes p (drop written chunk), length-drop {0} written chunk)

  chunk_loop-Chunked :
      (fuel : ℕ) (p : P) (chunk : Bytes) (written : ℕ)
      → written ≤ length chunk
      → length chunk < written + fuel
      → (sent : Sent P) × (chunk_loop port_write fuel p chunk written ≡ some sent)
        × Chunked p chunk written sent
  unfolding chunk_loop
  chunk_loop-Chunked zero p chunk written h k = absurd (omega arith)
  chunk_loop-Chunked (suc fuel) p chunk written h k =
      let bytes = drop written chunk in
      let accepted = (port_write p bytes).1 in
      elim (Bool-cases (ltb written (length chunk))) [
        | inr done ↦ (
          record { port = p; written = written; fault = none },
          ground arith,
          record {
            added = 0;
            total = omega arith;
            within = h;
            whole = λ _. ground arith;
            line_is = sym (append-nil (line p));
          },
        )
        | inl more ↦ elim (Option-cases (port_write p bytes).2) [
          | inr (f, e) ↦ (
            record {
              port = (port_write p bytes).0;
              written = written + accepted;
              fault = some (port_fault f);
            },
            ground arith,
            record {
              added = accepted;
              total = refl;
              within = accepted-le p chunk written h;
              whole = λ q. ground arith;
              line_is = contract.puts p bytes;
            },
          )
          | inl e ↦ elim (Bool-cases (accepted == 0)) [
            | inl z ↦ (
              record {
                port = (port_write p bytes).0;
                written = written;
                fault = some no_bytes_fault;
              },
              ground arith,
              record {
                added = accepted;
                total = ground arith;
                within = h;
                whole = λ q. ground arith;
                line_is = contract.puts p bytes;
              },
            )
            | inr z ↦
                let (sent, runs, c) =
                  chunk_loop-Chunked fuel (port_write p bytes).0 chunk (written + accepted)
                    (accepted-le p chunk written h) (ground arith) in
                (
                  sent,
                  ground arith,
                  record {
                    added = accepted + c.added;
                    total = omega (arith, c.total);
                    within = c.within;
                    whole = c.whole;
                    line_is = c.line_is ∙ step-line p chunk written c.added;
                  },
                )
          ]
        ]
      ]

  pub write_chunk-Chunked :
      (p : P) (closed : Bool) (chunk : Bytes)
      → (sent : Sent P) × (write_chunk port_write p closed chunk ≡ some sent)
        × Chunked p chunk 0 sent
  unfolding write_chunk
  write_chunk-Chunked p true chunk = (
    record { port = p; written = 0; fault = some closed_fault },
    refl,
    record {
      added = 0;
      total = refl;
      within = omega arith;
      whole = λ q. ground arith;
      line_is = sym (append-nil (line p));
    },
  )
  write_chunk-Chunked p false chunk =
      chunk_loop-Chunked (length chunk + 1) p chunk 0 (omega arith) (omega arith)
