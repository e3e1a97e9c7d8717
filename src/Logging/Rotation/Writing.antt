-- ===== src/Logging/Rotation/Writing.antt =====
-- What a write to the log leaves, whichever calls fail: internal/logging/file.go, Write.
use device_serial_scanner.Common.{
  ℕ, zero, suc, ◌+◌, ◌≤◌, ◌<◌, ◌≡◌, ◌⊎◌, inl, inr, refl, sym, ap, ◌∙◌, Bool, true, false, ◌&&◌,
  some, [], ◌++◌, append-nil, Bytes, length, length-append, take, take_all, length-zero, ltb, arith,
  Option-cases, Bool-cases,
}
use device_serial_scanner.Logging.{
  Disk, File, Answers, shift, create, open_live, rotate, append_record, write,
}
use device_serial_scanner.Logging.Rotation.{Keeps, shift-Keeps, shift-emptied}

-- The open file is there, and its size is known.
pub record IsLive (file : File) (disk : Disk) : Type 0 where
  pub text : Bytes
  pub there : disk 0 ≡ some text
  pub size_is : file.size ≡ length text

-- What a generation held is still there, in its file or the next one, with at most something behind.
abbrev pub Survives : Disk → Disk → ℕ → Type 0
Survives before after g =
    (text : Bytes)
    → before g ≡ some text
    → (more : Bytes) × ((after g ≡ some (text ++ more)) ⊎ (after (suc g) ≡ some (text ++ more)))

create-keeps : (g : ℕ) (disk : Disk) (text : Bytes) → disk g ≡ some text → create disk g ≡ some text
create-keeps zero disk text e = ground arith
create-keeps (suc g) disk text e = ground arith

open_live-keeps :
    (os : Answers) (file : File) (g : ℕ) (disk : Disk) (text : Bytes)
    → disk g ≡ some text
    → (open_live os file disk).1 g ≡ some text
unfolding open_live
open_live-keeps os file g disk text e = ground (arith, create-keeps g disk text e)

open_live-IsLive :
    (os : Answers) (file : File) (disk : Disk)
    → file.is_open ≡ false
    → (open_live os file disk).0.is_open ≡ true
    → IsLive (open_live os file disk).0 (open_live os file disk).1
unfolding open_live
open_live-IsLive os file disk c h = elim (Option-cases (disk 0)) [
  | inl e ↦ record { text = []; there = ground arith; size_is = ground arith }
  | inr (t, e) ↦ record { text = t; there = ground arith; size_is = ground arith }
]

open_live-same :
    (os : Answers) (file : File) (disk : Disk)
    → ((open_live os file disk).0.keep ≡ file.keep)
      × ((open_live os file disk).0.max_bytes ≡ file.max_bytes)
unfolding open_live
open_live-same os file disk = ground arith

rotate-Keeps :
    (os : Answers) (file : File) (g : ℕ) (disk : Disk)
    → g < file.keep
    → Keeps disk (rotate os file disk).1 g
unfolding rotate
rotate-Keeps os file g disk k text e =
    let shifted = (shift os file.keep disk).0 in
    let closed : File = record file { is_open = false } in
    elim (shift-Keeps os file.keep g disk k text e) [
      | inl h ↦ inl (open_live-keeps os closed g shifted text h)
      | inr h ↦ inr (open_live-keeps os closed (suc g) shifted text h)
    ]

rotate-IsLive :
    (os : Answers) (file : File) (disk : Disk)
    → (rotate os file disk).0.is_open ≡ true
    → IsLive (rotate os file disk).0 (rotate os file disk).1
unfolding rotate
rotate-IsLive os file disk h =
    open_live-IsLive os (record file { is_open = false }) (shift os file.keep disk).0 refl h

-- Behind a rotation without an error the live file is empty.
rotate-emptied :
    (os : Answers) (file : File) (disk : Disk)
    → (rotate os file disk).2 ≡ true
    → (rotate os file disk).1 0 ≡ some []
unfolding rotate open_live
rotate-emptied os file disk h = ground (arith, shift-emptied os file.keep disk)

-- The record stands whole behind an earlier text, within the limit or alone.
abbrev pub IsWhole : Bytes → ℕ → Disk → Type 0
IsWhole text max_bytes disk =
    (earlier : Bytes) × (disk 0 ≡ some (earlier ++ text))
    × ((earlier ≡ []) ⊎ (length (earlier ++ text) ≤ max_bytes))

-- What a write leaves of the files.
pub record Written (text : Bytes) (file file' : File) (disk disk' : Disk) (ok : Bool) : Type 0 where
  pub survives : (g : ℕ) → g < file.keep → Survives disk disk' g
  pub live : file'.is_open ≡ true → IsLive file' disk'
  pub whole : ok ≡ true → IsWhole text file.max_bytes disk'

append_record-survives :
    (os : Answers) (text : Bytes) (file : File) (disk : Disk) (g : ℕ) (t : Bytes)
    → disk g ≡ some t
    → (more : Bytes) × ((append_record os text file disk).1 g ≡ some (t ++ more))
unfolding append_record
append_record-survives os text file disk zero t e = (take os.takes text, ground arith)
append_record-survives os text file disk (suc g) t e = ([], ground (arith, append-nil t))

append_record-IsWhole :
    (os : Answers) (text : Bytes) (file : File) (disk : Disk) (max_bytes : ℕ)
    → (os.fails ≡ false → length text ≤ os.takes)
    → (earlier : Bytes) → disk 0 ≡ some earlier
    → (earlier ≡ []) ⊎ (length earlier + length text ≤ max_bytes)
    → (append_record os text file disk).2 ≡ true
    → IsWhole text max_bytes (append_record os text file disk).1
unfolding append_record
append_record-IsWhole os text file disk max_bytes w earlier e room ok = (
  earlier,
  ground (arith, take_all os.takes text (w (ground arith))),
  rw (length-append earlier text) room,
)

append_record-IsLive :
    (os : Answers) (text : Bytes) (file : File) (disk : Disk)
    → IsLive file disk
    → IsLive (append_record os text file disk).0 (append_record os text file disk).1
unfolding append_record
append_record-IsLive os text file disk l = record {
  text = l.text ++ take os.takes text;
  there = ground (arith, l.there);
  size_is = omega (arith, l.size_is, length-append l.text (take os.takes text));
}

-- The three ways through Write.
write-closed :
    (os : Answers) (text : Bytes) (file : File) (disk : Disk)
    → file.is_open ≡ false
    → write os text file disk ≡ (file, disk, false)
unfolding write
write-closed os text file disk c = rw c refl

abbrev must_rotate : Bytes → File → Bool
must_rotate text file = ltb 0 file.size && ltb file.max_bytes (file.size + length text)

write-room :
    (os : Answers) (text : Bytes) (file : File) (disk : Disk)
    → file.is_open ≡ true
    → must_rotate text file ≡ false
    → write os text file disk ≡ append_record os text file disk
unfolding write
write-room os text file disk o r = rw (o, r) refl

write-stuck :
    (os : Answers) (text : Bytes) (file : File) (disk : Disk)
    → file.is_open ≡ true
    → must_rotate text file ≡ true
    → (rotate os file disk).0.is_open ≡ false
    → write os text file disk ≡ ((rotate os file disk).0, (rotate os file disk).1, false)
unfolding write
write-stuck os text file disk o r s = rw (o, r, s) refl

write-rotated :
    (os : Answers) (text : Bytes) (file : File) (disk : Disk)
    → file.is_open ≡ true
    → must_rotate text file ≡ true
    → (rotate os file disk).0.is_open ≡ true
    → (let (f, d, ok) = append_record os text (rotate os file disk).0 (rotate os file disk).1 in
        write os text file disk ≡ (f, d, (rotate os file disk).2 && ok))
unfolding write
write-rotated os text file disk o r s = rw (o, r, s) refl

module _ (os : Answers) (text : Bytes) (file : File) (disk : Disk)
    (honest : os.fails ≡ false → length text ≤ os.takes) where
  unwritten-Survives : (g : ℕ) → Survives disk disk g
  unwritten-Survives g t e = ([], inl (e ∙ ap some (sym (append-nil t))))

  rotated-Survives :
      (g : ℕ)
      → g < file.keep
      → Survives disk (append_record os text (rotate os file disk).0 (rotate os file disk).1).1 g
  rotated-Survives g k t e =
      let rotated = (rotate os file disk).0 in
      let shifted = (rotate os file disk).1 in
      elim (rotate-Keeps os file g disk k t e) [
        | inl h ↦
            let (more, m) = append_record-survives os text rotated shifted g t h in (more, inl m)
        | inr h ↦
            let (more, m) = append_record-survives os text rotated shifted (suc g) t h in
            (more, inr m)
      ]

  room :
      (l : IsLive file disk)
      → must_rotate text file ≡ false
      → (l.text ≡ []) ⊎ (length l.text + length text ≤ file.max_bytes)
  room l r = elim (Bool-cases (ltb 0 file.size)) [
    | inl p ↦ inr (ground (arith, l.size_is))
    | inr p ↦ inl (length-zero l.text (ground (arith, l.size_is)))
  ]

  -- Whichever of the calls fail, a write loses nothing but the oldest generation: what each
  -- younger file held is still there, in its file or in the next one, with at most something
  -- behind it. The file is live after it, if it is open: its text is there, and its size is known.
  -- A write without an error has put the whole record at the end of the live file, which is then
  -- within its limit, unless it holds that record alone. The file is live before, and a write call
  -- that reports no error has taken every byte.
  pub write-Written :
      (file.is_open ≡ true → IsLive file disk)
      → Written text file
          (write os text file disk).0
          disk
          (write os text file disk).1
          (write os text file disk).2
  write-Written live = elim (Bool-cases file.is_open) [
    | inr c ↦ rw (write-closed os text file disk c) (record {
      survives = λ g k. unwritten-Survives g;
      live = live;
      whole = λ ok. absurd (ground arith);
    })
    | inl o ↦ elim (Bool-cases (must_rotate text file)) [
      | inr r ↦ rw (write-room os text file disk o r) (
          let l = live o in
          record {
            survives = λ g k t e.
                let (more, m) = append_record-survives os text file disk g t e in (more, inl m);
            live = λ _. append_record-IsLive os text file disk l;
            whole =
                append_record-IsWhole os text file disk file.max_bytes honest l.text l.there
                  (room l r);
          })
      | inl r ↦ elim (Bool-cases (rotate os file disk).0.is_open) [
        | inr s ↦ rw (write-stuck os text file disk o r s) (record {
          survives = λ g k t e. elim (rotate-Keeps os file g disk k t e) [
            | inl h ↦ ([], inl (h ∙ ap some (sym (append-nil t))))
            | inr h ↦ ([], inr (h ∙ ap some (sym (append-nil t))))
          ];
          live = λ h. absurd (cc);
          whole = λ ok. absurd (ground arith);
        })
        | inl s ↦ rw (write-rotated os text file disk o r s) (
            let rotated = (rotate os file disk).0 in
            let shifted = (rotate os file disk).1 in
            record {
              survives = rotated-Survives;
              live =
                  λ _. append_record-IsLive os text rotated shifted (rotate-IsLive os file disk s);
              whole = λ ok.
                  append_record-IsWhole os text rotated shifted file.max_bytes honest []
                    (rotate-emptied os file disk (ground arith)) (inl refl) (ground arith);
            })
      ]
    ]
  ]
