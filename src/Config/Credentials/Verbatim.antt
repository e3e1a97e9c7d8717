-- ===== src/Config/Credentials/Verbatim.antt =====
-- The password of the credentials file reaches the broker as it is written.
use device_serial_scanner.Common.{
  ℕ, suc, ◌≡◌, refl, ◌∙◌, Bool, true, false, some, List, [], ◌∷◌, ◌++◌, Bytes, codes, lookup,
  text_eq, All,
}
use device_serial_scanner.Config.Credentials.{
  Credentials, Strings, loaded, cut, is_skipped, read_key, read_lines, read_credentials_file,
  no_credentials, complete, load_credentials,
}

-- What TrimSpace and ToLower do with the two keys and with a line that begins with one of them.
pub record IsStrings (str : Strings) : Type 0 where
  pub username_key : str.to_lower (str.trim_space (codes "username")) ≡ codes "username"
  pub password_key : str.to_lower (str.trim_space (codes "password")) ≡ codes "password"
  pub keeps_u : (cs : Bytes) → (rest : Bytes) × (str.trim_space (b'u' ∷ cs) ≡ b'u' ∷ rest)
  pub keeps_p : (cs : Bytes) → (rest : Bytes) × (str.trim_space (b'p' ∷ cs) ≡ b'p' ∷ rest)

abbrev pub AllSkipped : Strings → List Bytes → Type 0
AllSkipped str lines = All (λ line. is_skipped (str.trim_space line) ≡ true) lines

read_lines-skipped :
    (str : Strings) (scans : Bool) (n : ℕ) (skipped lines : List Bytes) (c : Credentials)
    → AllSkipped str skipped
    → (m : ℕ) × (read_lines str scans n (skipped ++ lines) c ≡ read_lines str scans m lines c)
unfolding read_lines
read_lines-skipped str scans n [] lines c s = (n, refl)
read_lines-skipped str scans n (line ∷ skipped) lines c s =
    let (m, e) = read_lines-skipped str scans (suc n) skipped lines c s.1 in (m, rw s.0 e)

read_lines-AllSkipped :
    (str : Strings) (n : ℕ) (skipped : List Bytes) (c : Credentials)
    → AllSkipped str skipped
    → read_lines str true n skipped c ≡ loaded c
unfolding read_lines
read_lines-AllSkipped str n [] c s = refl
read_lines-AllSkipped str n (line ∷ skipped) c s =
    rw s.0 (read_lines-AllSkipped str (suc n) skipped c s.1)

read_lines-username :
    (str : Strings) (scans : Bool) (n : ℕ) (user : Bytes) (lines : List Bytes) (c : Credentials)
    → IsStrings str
    → read_lines str scans n ((codes "username=" ++ user) ∷ lines) c
      ≡ read_lines str scans (suc n) lines (record c { username = str.trim_space user })
unfolding read_lines is_skipped cut read_key text_eq
read_lines-username str scans n user lines c s =
    let (rest, k) = s.keeps_u (codes "sername=" ++ user) in rw (k, s.username_key) refl

read_lines-password :
    (str : Strings) (scans : Bool) (n : ℕ) (password : Bytes) (lines : List Bytes) (c : Credentials)
    → IsStrings str
    → read_lines str scans n ((codes "password=" ++ password) ∷ lines) c
      ≡ read_lines str scans (suc n) lines (record c { password = password })
unfolding read_lines is_skipped cut read_key text_eq
read_lines-password str scans n password lines c s =
    let (rest, k) = s.keeps_p (codes "assword=" ++ password) in rw (k, s.password_key) refl

complete-no_env :
    (user password : Bytes)
    → text_eq user [] ≡ false
    → text_eq password [] ≡ false
    → complete [] (record { username = user; password = password })
      ≡ loaded (record { username = user; password = password })
unfolding complete lookup
complete-no_env user password u p = rw (p, u) refl

abbrev pub username_line : Bytes → Bytes
username_line user = codes "username=" ++ user

abbrev pub password_line : Bytes → Bytes
password_line password = codes "password=" ++ password

-- The lines of a file that names both keys, the username first, between lines that say nothing.
abbrev pub both_keys : List Bytes → Bytes → List Bytes → Bytes → List Bytes → List Bytes
both_keys above user between password below =
    above ++ (username_line user ∷ (between ++ (password_line password ∷ below)))

read_lines-both_keys :
    (str : Strings) (n : ℕ) (above : List Bytes) (user : Bytes) (between : List Bytes)
    (password : Bytes) (below : List Bytes) (c : Credentials)
    → IsStrings str
    → AllSkipped str above
    → AllSkipped str between
    → AllSkipped str below
    → read_lines str true n (both_keys above user between password below) c
      ≡ loaded (record { username = str.trim_space user; password = password })
unfolding read_lines
read_lines-both_keys str n above user between password below c s a b e =
    let rest = between ++ (password_line password ∷ below) in
    let (m, first) = read_lines-skipped str true n above (username_line user ∷ rest) c a in
    let named = record c { username = str.trim_space user } in
    let (k, second) =
      read_lines-skipped str true (suc m) between (password_line password ∷ below) named b in
    first
    ∙ read_lines-username str true m user rest c s
    ∙ second
    ∙ read_lines-password str true k password below named s
    ∙ read_lines-AllSkipped str (suc k) below (record named { password = password }) e

-- A credentials file gives the broker what it says. For every file with a line `username=` and,
-- further down, a line `password=`, where all other lines are blank or comments, every user whose
-- trimmed name is not empty and every password that is not empty, with no credentials in the
-- environment: LoadCredentials returns the trimmed user and the password as it is written, with
-- the spaces and the "=" that it may have.
pub load_credentials-both_keys :
    (str : Strings) (path : Bytes) (above : List Bytes) (user : Bytes) (between : List Bytes)
    (password : Bytes) (below : List Bytes)
    → IsStrings str
    → AllSkipped str above
    → AllSkipped str between
    → AllSkipped str below
    → text_eq path [] ≡ false
    → text_eq (str.trim_space user) [] ≡ false
    → text_eq password [] ≡ false
    → load_credentials str path (some (both_keys above user between password below, true)) []
      ≡ loaded (record { username = str.trim_space user; password = password })
unfolding load_credentials read_credentials_file
load_credentials-both_keys str path above user between password below s a b e f u p =
    rw (f, read_lines-both_keys str 1 above user between password below no_credentials s a b e)
      (complete-no_env (str.trim_space user) password u p)
