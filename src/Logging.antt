-- ===== src/Logging.antt =====
-- The log file and its rotation, internal/logging/file.go. The files are known by their generation:
-- 0 is the live file, n the rotated one with the ending .n. What the operating system answers enters
-- as arguments, and nothing else touches the files. An operation runs under the file's lock.
pub mod Rotation
use device_serial_scanner.Common.{
  ℕ, zero, suc, ◌+◌, ◌-◌, ◌*◌, Bool, true, false, not, ◌&&◌, Option, none, some, List, [], ◌∷◌,
  ◌++◌, Bytes, text_eq, length, take, ltb, ◌==◌, if◌then◌else◌, ℤ, at_least, natural,
}

-- What each file holds; none for a file that is not there.
abbrev pub Disk : Type 0
Disk = ℕ → Option Bytes

abbrev pub set : ℕ → Option Bytes → Disk → Disk
set generation content disk = λ g. if g == generation then content else disk g

-- `size` is what the program believes of the live file.
pub record File : Type 0 where
  pub max_bytes : ℕ
  pub keep : ℕ
  pub is_open : Bool
  pub size : ℕ

-- Which calls succeed where they can: the close, a remove and a rename of each generation, the open
-- of the live file and its stat; and how much of a record is written, with whether that is an error.
pub record Answers : Type 0 where
  pub closes : Bool
  pub removes : ℕ → Bool
  pub renames : ℕ → Bool
  pub opens : Bool
  pub stats : Bool
  pub takes : ℕ
  pub fails : Bool

-- os.Remove, with a missing file for no error: whether it went on.
unfoldable pub remove_file : Answers → ℕ → Disk → Disk × Bool
remove_file os g disk = elim (disk g) [
  | none ↦ (disk, true)
  | some content ↦ if os.removes g then (set g none disk, true) else (disk, false)
]

-- os.Rename to the next generation, with a missing file for no error.
unfoldable pub move_up : Answers → ℕ → Disk → Disk × Bool
move_up os g disk = elim (disk g) [
  | none ↦ (disk, true)
  | some content ↦
      if os.renames g then (set g none (set (suc g) (some content) disk), true) else (disk, false)
]

-- The loop of shift from a generation down to 1, and the live file behind it.
unfoldable pub shift_loop : Answers → ℕ → Disk → Disk × Bool
unfolding move_up
shift_loop os zero disk = move_up os 0 disk
shift_loop os (suc g) disk =
    let (moved, went_on) = move_up os (suc g) disk in
    let rest = shift_loop os g moved in if went_on then rest else (moved, false)

-- shift.
unfoldable pub shift : Answers → ℕ → Disk → Disk × Bool
unfolding remove_file shift_loop
shift os zero disk = remove_file os 0 disk
shift os (suc keep) disk =
    let (removed, went_on) = remove_file os (suc keep) disk in
    if went_on then shift_loop os keep removed else (removed, false)

-- The live file with os.O_CREATE.
abbrev pub create : Disk → Disk
create disk = elim (disk 0) [ none ↦ set 0 (some []) disk | some content ↦ disk ]

abbrev pub content_of : Option Bytes → Bytes
content_of none = []
content_of (some content) = content

-- open: whether it succeeded.
unfoldable pub open_live : Answers → File → Disk → File × Disk × Bool
open_live os file disk =
    if os.opens
    then (let created = create disk in
        if os.stats
        then (record file { is_open = true; size = length (content_of (created 0)) }, created, true)
        else (file, created, false))
    else (file, disk, false)

-- rotate: whether no step failed.
unfoldable pub rotate : Answers → File → Disk → File × Disk × Bool
unfolding shift open_live
rotate os file disk =
    let (shifted, went_on) = shift os file.keep disk in
    let (reopened, live, opened) = open_live os (record file { is_open = false }) shifted in
    (reopened, live, os.closes && went_on && opened)

-- file.Write on the open live file: as much of the record as the answer says.
unfoldable pub append_record : Answers → Bytes → File → Disk → File × Disk × Bool
append_record os text file disk =
    let part = take os.takes text in
    (
      record file { size = file.size + length part },
      set 0 (some (content_of (disk 0) ++ part)) disk,
      not os.fails,
    )

-- Write: whether there is no error.
unfoldable pub write : Answers → Bytes → File → Disk → File × Disk × Bool
unfolding rotate append_record
write os text file disk =
    if not file.is_open
    then (file, disk, false)
    else if ltb 0 file.size && ltb file.max_bytes (file.size + length text)
    then (let (rotated, shifted, went_well) = rotate os file disk in
        if not rotated.is_open
        then (rotated, shifted, false)
        else (let (written, live, ok) = append_record os text rotated shifted in
            (written, live, went_well && ok)))
    else append_record os text file disk

-- Sync and Close: whether there is no error.
unfoldable pub sync : Bool → File → Bool
sync flushes file = file.is_open && flushes

unfoldable pub close : Bool → Answers → File → File × Bool
close flushes os file =
    if file.is_open then (record file { is_open = false }, flushes && os.closes) else (file, true)

pub data OpenError : Type 0 where
  path_required bad_max_size bad_keep directory_missing not_a_directory live_refused : OpenError

pub data Opened : Type 0 where
  opened_file : File → Disk → Opened
  open_refused : OpenError → Opened

-- OpenFile; `directory` is what os.Stat says of the parent: none for an error, and whether it is
-- a directory.
unfoldable pub open_file : Answers → Option Bool → Bytes → ℤ → ℤ → Disk → Opened
unfolding open_live
open_file os directory path max_size_mb keep disk =
    if text_eq path []
    then open_refused path_required
    else if not (at_least 1 max_size_mb)
    then open_refused bad_max_size
    else if not (at_least 0 keep)
    then open_refused bad_keep
    else elim directory [
      | none ↦ open_refused directory_missing
      | some false ↦ open_refused not_a_directory
      | some true ↦
          let file : File = record {
            max_bytes = natural max_size_mb * 1048576;
            keep = natural keep;
            is_open = false;
            size = 0;
          } in
          let (live, created, ok) = open_live os file disk in
          if ok then opened_file live created else open_refused live_refused
    ]
