-- ===== src/Logging/Rotation.antt =====
-- What a write to the log leaves of the files, whichever calls fail.
pub mod Writing
use device_serial_scanner.Common.{
  ℕ, zero, suc, ◌+◌, ◌-◌, ◌≤◌, ◌<◌, ◌≡◌, ◌≢◌, ◌⊎◌, inl, inr, refl, sym, ap, ◌∙◌, Bool, true, false,
  not, ◌&&◌, Option, none, some, List, [], ◌∷◌, ◌++◌, append-nil, Bytes, length, length-append,
  take, ltb, ◌==◌, ==_iff, if◌then◌else◌, arith, Option-cases, Bool-cases,
}
use device_serial_scanner.Logging.{
  Disk, set, File, Answers, remove_file, move_up, shift_loop, shift, create, content_of, open_live,
  rotate, append_record, write,
}

-- The text of a generation, then in the same file or in the next one.
abbrev pub Keeps : Disk → Disk → ℕ → Type 0
Keeps before after g =
    (text : Bytes) → before g ≡ some text → (after g ≡ some text) ⊎ (after (suc g) ≡ some text)

move_up-above :
    (os : Answers) (g h : ℕ) (disk : Disk) → suc g < h → (move_up os g disk).0 h ≡ disk h
unfolding move_up
move_up-above os g h disk k = ground arith

move_up-below : (os : Answers) (g h : ℕ) (disk : Disk) → h < g → (move_up os g disk).0 h ≡ disk h
unfolding move_up
move_up-below os g h disk k = ground arith

move_up-Keeps : (os : Answers) (g : ℕ) (disk : Disk) → Keeps disk (move_up os g disk).0 g
unfolding move_up
move_up-Keeps os g disk text e = ground arith

shift_loop-above :
    (os : Answers) (g h : ℕ) (disk : Disk) → suc g < h → (shift_loop os g disk).0 h ≡ disk h
unfolding shift_loop
shift_loop-above os zero h disk k = move_up-above os 0 h disk k
shift_loop-above os (suc g) h disk k = ground (
  arith,
  move_up-above os (suc g) h disk k,
  shift_loop-above os g h (move_up os (suc g) disk).0 (omega arith),
)

move_up-moved :
    (os : Answers) (g : ℕ) (disk : Disk) (text : Bytes)
    → (move_up os g disk).1 ≡ true
    → disk g ≡ some text
    → (move_up os g disk).0 (suc g) ≡ some text
unfolding move_up
move_up-moved os g disk text w e = ground arith

shift_loop-stopped :
    (os : Answers) (g : ℕ) (disk : Disk)
    → (move_up os (suc g) disk).1 ≡ false
    → shift_loop os (suc g) disk ≡ ((move_up os (suc g) disk).0, false)
unfolding shift_loop
shift_loop-stopped os g disk e = rw e refl

shift_loop-went_on :
    (os : Answers) (g : ℕ) (disk : Disk)
    → (move_up os (suc g) disk).1 ≡ true
    → shift_loop os (suc g) disk ≡ shift_loop os g (move_up os (suc g) disk).0
unfolding shift_loop
shift_loop-went_on os g disk e = rw e refl

last-cases : (g h : ℕ) → h ≤ suc g → (h ≡ suc g) ⊎ (h ≤ g)
last-cases g h k = elim (Bool-cases (h == suc g)) [
  | inl e ↦ inl ((==_iff h (suc g)).0 e)
  | inr e ↦ inr (ground (arith, ==_iff h (suc g)))
]

shift_loop-Keeps :
    (os : Answers) (g h : ℕ) (disk : Disk) → h ≤ g → Keeps disk (shift_loop os g disk).0 h
unfolding shift_loop
shift_loop-Keeps os zero h disk k text e =
    let z : h ≡ 0 = omega arith in rw z (move_up-Keeps os 0 disk text (rw z at e))
shift_loop-Keeps os (suc g) h disk k text e = elim (Bool-cases (move_up os (suc g) disk).1) [
  | inr w ↦ rw (shift_loop-stopped os g disk w) (elim (last-cases g h k) [
    | inl q ↦ rw q (move_up-Keeps os (suc g) disk text (rw q at e))
    | inr q ↦ inl (move_up-below os (suc g) h disk (omega arith) ∙ e)
  ])
  | inl w ↦ rw (shift_loop-went_on os g disk w) (elim (last-cases g h k) [
    | inl q ↦
        let moved = (move_up os (suc g) disk).0 in
        inr (
          ap (λ n. (shift_loop os g moved).0 (suc n)) q
          ∙ shift_loop-above os g (suc (suc g)) moved (omega arith)
          ∙ move_up-moved os (suc g) disk text w (ap disk (sym q) ∙ e))
    | inr q ↦
        shift_loop-Keeps os g h (move_up os (suc g) disk).0 q text
          (move_up-below os (suc g) h disk (omega arith) ∙ e)
  ])
]

remove_file-other :
    (os : Answers) (g h : ℕ) (disk : Disk) → h ≢ g → (remove_file os g disk).0 h ≡ disk h
unfolding remove_file
remove_file-other os g h disk n = ground (arith, ==_iff h g)

pub shift-Keeps :
    (os : Answers) (keep h : ℕ) (disk : Disk) → h < keep → Keeps disk (shift os keep disk).0 h
unfolding shift
shift-Keeps os zero h disk k text e = absurd (omega arith)
shift-Keeps os (suc keep) h disk k text e =
    let removed = remove_file os (suc keep) disk in
    let same = remove_file-other os (suc keep) h disk (λ q. omega arith) in
    elim (Bool-cases removed.1) [
      | inl w ↦ rw w (shift_loop-Keeps os keep h removed.0 (omega arith) text (same ∙ e))
      | inr w ↦ rw w (inl (same ∙ e))
    ]

move_up-emptied :
    (os : Answers) (g : ℕ) (disk : Disk)
    → (move_up os g disk).1 ≡ true
    → (move_up os g disk).0 g ≡ none
unfolding move_up
move_up-emptied os g disk w = ground arith

shift_loop-emptied :
    (os : Answers) (g : ℕ) (disk : Disk)
    → (shift_loop os g disk).1 ≡ true
    → (shift_loop os g disk).0 0 ≡ none
unfolding shift_loop
shift_loop-emptied os zero disk w = move_up-emptied os 0 disk w
shift_loop-emptied os (suc g) disk w =
    ground (arith, shift_loop-emptied os g (move_up os (suc g) disk).0)

-- Behind a shift whose steps all went well, no live file is left.
pub shift-emptied :
    (os : Answers) (keep : ℕ) (disk : Disk)
    → (shift os keep disk).1 ≡ true
    → (shift os keep disk).0 0 ≡ none
unfolding shift remove_file
shift-emptied os zero disk w = ground arith
shift-emptied os (suc keep) disk w =
    ground (arith, shift_loop-emptied os keep (remove_file os (suc keep) disk).0)
