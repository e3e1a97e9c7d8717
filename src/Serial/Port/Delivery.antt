-- ===== src/Serial/Port/Delivery.antt =====
-- What reaches the line: the bytes of a tx, in order, as far as the answer says.
use device_serial_scanner.Common.{
  ℕ, zero, suc, ◌+◌, ◌≤◌, ◌<◌, ◌≡◌, inl, inr, refl, sym, ◌∙◌, ap, Option, none, some, List, [], ◌∷◌,
  ◌++◌, append_assoc, append-nil, arith, Bytes, length, take, drop, ltb, ◌==◌, length-drop,
  drop-drop, Bool-cases, Option-cases,
}
use mathlib.Core.Path.{subst}
use device_serial_scanner.Serial.Classify.{Failure}
use device_serial_scanner.Serial.Port.{
  Fault, ended_fault, Sent, Written, Moment, noted, after_chunk, shared_loop, shared_write,
}
use device_serial_scanner.Serial.Port.Chunk.{
  take-add, take-take, length-take-le, take-nonempty, IsPort, Chunked, write_chunk-Chunked,
}

-- The calls of `progress`: each says more than the one before, and the last says all.
pub data Climbs : ℕ → List ℕ → ℕ → Type 0 where
  stays : (n : ℕ) → Climbs n [] n
  climbs : {low n top : ℕ} {ns : List ℕ} → low < n → Climbs n ns top → Climbs low (n ∷ ns) top

module _ {ℓ} {P : Type ℓ} (port_write : P → Bytes → P × ℕ × Option Failure) (line : P → Bytes)
    (contract : IsPort port_write line) where
  -- A tx from `written` on: so many bytes more were put on the line, in order, all of them unless
  -- there was a fault, and `progress` was told of each step.
  pub record IsSent (p : P) (bytes : Bytes) (written : ℕ) (w : Written P) : Type ℓ where
    pub added : ℕ
    pub total : w.written ≡ written + added
    pub within : w.written ≤ length bytes
    pub whole : w.fault ≡ none → w.written ≡ length bytes
    pub line_is : line w.port ≡ line p ++ take added (drop written bytes)
    pub told : Climbs written w.progress w.written

  Climbs-noted :
      (accepted written top : ℕ) (calls : List ℕ)
      → Climbs (written + accepted) calls top
      → Climbs written (noted accepted (written + accepted) calls) top
  Climbs-noted accepted written top calls c = elim (Bool-cases (accepted == 0)) [
    | inl z ↦
        let e : written + accepted ≡ written = ground arith in
        rw z (subst (λ n. Climbs n calls top) e c)
    | inr z ↦ rw z (climbs (ground arith) c)
  ]

  chunk-line :
      (cb : ℕ) (p : P) (bytes : Bytes) (written : ℕ) (sent : Sent P)
      → (c : Chunked port_write line contract p (take cb (drop written bytes)) 0 sent)
      → line sent.port ≡ line p ++ take sent.written (drop written bytes)
  chunk-line cb p bytes written sent c =
      let e : c.added ≡ sent.written = omega (arith, c.total) in
      c.line_is
      ∙ ap (λ n. line p ++ take n (take cb (drop written bytes))) e
      ∙ ap (◌++◌ (line p)) (take-take sent.written cb (drop written bytes) c.within)

  chunk-within :
      (cb : ℕ) (p : P) (bytes : Bytes) (written : ℕ) (sent : Sent P)
      → written ≤ length bytes
      → Chunked port_write line contract p (take cb (drop written bytes)) 0 sent
      → written + sent.written ≤ length bytes
  chunk-within cb p bytes written sent h c =
      omega (arith, c.within, length-take-le cb (drop written bytes), length-drop {0} written bytes)

  -- A chunk without a fault takes one byte at least.
  chunk-moves :
      (cb : ℕ) (p : P) (bytes : Bytes) (written : ℕ) (sent : Sent P)
      → 1 ≤ cb
      → written < length bytes
      → sent.fault ≡ none
      → Chunked port_write line contract p (take cb (drop written bytes)) 0 sent
      → 1 ≤ sent.written
  chunk-moves cb p bytes written sent h k e c =
      let left : 1 ≤ length (drop written bytes) = omega (arith, length-drop {0} written bytes) in
      omega (arith, c.whole e, take-nonempty cb (drop written bytes) h left)

  fault-IsSent :
      (cb : ℕ) (p : P) (bytes : Bytes) (written : ℕ) (sent : Sent P) (fault : Fault)
      → written ≤ length bytes
      → Chunked port_write line contract p (take cb (drop written bytes)) 0 sent
      → IsSent p bytes written (record {
        port = sent.port;
        written = written + sent.written;
        fault = some fault;
        progress = noted sent.written (written + sent.written) [];
      })
  fault-IsSent cb p bytes written sent fault h c = record {
    added = sent.written;
    total = refl;
    within = chunk-within cb p bytes written sent h c;
    whole = λ q. ground arith;
    line_is = chunk-line cb p bytes written sent c;
    told = Climbs-noted sent.written written _ [] (stays _);
  }

  next-IsSent :
      (cb : ℕ) (p : P) (bytes : Bytes) (written : ℕ) (sent : Sent P) (w : Written P)
      → Chunked port_write line contract p (take cb (drop written bytes)) 0 sent
      → IsSent sent.port bytes (written + sent.written) w
      → IsSent p bytes written
          (record w { progress = noted sent.written (written + sent.written) w.progress })
  next-IsSent cb p bytes written sent w c d = record {
    added = sent.written + d.added;
    total = omega (arith, d.total);
    within = d.within;
    whole = d.whole;
    line_is =
        d.line_is
        ∙ ap (λ l. l ++ take d.added (drop (written + sent.written) bytes))
            (chunk-line cb p bytes written sent c)
        ∙ append_assoc (line p) (take sent.written (drop written bytes))
            (take d.added (drop (written + sent.written) bytes))
        ∙ ap (λ b. line p ++ (take sent.written (drop written bytes) ++ take d.added b))
            (sym (drop-drop written sent.written bytes))
        ∙ ap (◌++◌ (line p)) (take-add sent.written d.added (drop written bytes));
    told = Climbs-noted sent.written written _ w.progress d.told;
  }

  still-IsSent :
      (p : P) (bytes : Bytes) (written : ℕ) (fault : Option Fault)
      → written ≤ length bytes
      → (fault ≡ none → written ≡ length bytes)
      → IsSent p bytes written
          (record { port = p; written = written; fault = fault; progress = [] })
  still-IsSent p bytes written fault h k = record {
    added = 0;
    total = omega arith;
    within = h;
    whole = k;
    line_is = sym (append-nil (line p));
    told = stays _;
  }

  after_chunk-fault :
      (written : ℕ) (sent : Sent P) (fault : Fault)
      → sent.fault ≡ some fault
      → (rest : Option (Written P))
      → after_chunk written sent rest
        ≡ some (record {
          port = sent.port;
          written = written + sent.written;
          fault = some fault;
          progress = noted sent.written (written + sent.written) [];
        })
  after_chunk-fault written sent fault q rest = rw q refl

  after_chunk-next :
      (written : ℕ) (sent : Sent P) (w : Written P) {rest : Option (Written P)}
      → sent.fault ≡ none
      → rest ≡ some w
      → after_chunk written sent rest
        ≡ some (record w { progress = noted sent.written (written + sent.written) w.progress })
  after_chunk-next written sent w q runs = rw (q, runs) refl

  shared_loop-IsSent :
      (fuel cb : ℕ) (p : P) (bytes : Bytes) (written : ℕ) (moments : ℕ → Moment)
      → 1 ≤ cb
      → written ≤ length bytes
      → length bytes < written + fuel
      → (w : Written P) × (shared_loop port_write fuel cb p bytes written moments ≡ some w)
        × IsSent p bytes written w
  unfolding shared_loop
  shared_loop-IsSent zero cb p bytes written moments h k l = absurd (omega arith)
  shared_loop-IsSent (suc fuel) cb p bytes written moments h k l =
      let chunk = take cb (drop written bytes) in
      let (sent, chunked, c) =
        write_chunk-Chunked port_write line contract p (moments written).closed chunk in
      elim (Bool-cases (ltb written (length bytes))) [
        | inr e ↦ (_, rw e refl, still-IsSent p bytes written none k (λ _. ground arith))
        | inl more ↦ elim (Bool-cases (moments written).ended) [
          | inl e ↦ (
            _,
            rw (more, e) refl,
            still-IsSent p bytes written (some ended_fault) k (λ q. ground arith),
          )
          | inr e ↦ elim (Option-cases sent.fault) [
            | inr (f, q) ↦ (
              _,
              rw (more, e, chunked) (after_chunk-fault written sent f q _),
              fault-IsSent cb p bytes written sent f k c,
            )
            | inl q ↦
                let (w, runs, d) =
                  shared_loop-IsSent fuel cb sent.port bytes (written + sent.written) moments h
                    (chunk-within cb p bytes written sent k c)
                    (omega (arith, chunk-moves cb p bytes written sent h (ground arith) q c)) in
                (
                  _,
                  rw (more, e, chunked) (after_chunk-next written sent w q runs),
                  next-IsSent cb p bytes written sent w c d,
                )
          ]
        ]
      ]

  -- A tx written through the shared port always comes to an end, whatever the port takes in each
  -- call and whenever it is closed or the context ends. What the line then holds more than before
  -- is the tx's bytes, in order and without a gap, as many as the answer says; they are all of them
  -- unless there is a fault. The progress function was told of ever more bytes, and last of that
  -- many.
  pub shared_write-Climbs :
      (chunk_bytes : ℕ) (p : P) (bytes : Bytes) (moments : ℕ → Moment)
      → 1 ≤ chunk_bytes
      → (w : Written P) × (shared_write port_write chunk_bytes p bytes moments ≡ some w)
        × (w.written ≤ length bytes)
        × (w.fault ≡ none → w.written ≡ length bytes)
        × (line w.port ≡ line p ++ take w.written bytes)
        × Climbs 0 w.progress w.written
  unfolding shared_write
  shared_write-Climbs chunk_bytes p bytes moments h =
      let (w, runs, s) =
        shared_loop-IsSent (length bytes + 1) chunk_bytes p bytes 0 moments h (omega arith)
          (omega arith) in
      let e : s.added ≡ w.written = omega (arith, s.total) in
      (w, runs, s.within, s.whole, s.line_is ∙ ap (λ n. line p ++ take n bytes) e, s.told)
