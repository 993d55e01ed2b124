-- ===== src/Files/Disk.antt =====
-- The functions of FileSystem/File that read and change the disk, over the system's own: a record of
-- operations on a state of the disk. A file is opened in text mode, for which the library of the
-- compiler turns a line's end into two characters on the way out and back on the way in, where the
-- character 26 ends the text.
use h1z1_server.Base.{
  ℕ, ◌≡◌, Bool, true, false, not, ◌&&◌, Option, none, some, List, [], ◌∷◌, ◌==◌, if◌then◌else◌,
}

-- `opens`: the bytes of a file that can be opened for reading. `writes`: the disk after a file was
-- opened for writing, given these bytes and closed, if it can be opened. Then `CopyFile` with what it
-- returns, `DeleteFile` and `CreateDirectory`. `alike`: whether two paths, which may differ in their
-- letters' case, lead to one file.
pub record System (T : Type 0) : Type 0 where
  pub opens : T → List ℕ → Option (List ℕ)
  pub writes : T → List ℕ → List ℕ → Option T
  pub copies : T → List ℕ → List ℕ → Bool × T
  pub deletes : T → List ℕ → T
  pub creates : T → List ℕ → T
  pub alike : T → List ℕ → List ℕ → Bool

-- A file that was written has these bytes, by whatever path it is opened, and other files are as
-- they were.
pub record IsLawful {T : Type 0} (system : System T) : Type 0 where
  pub opens-writes :
      (t t' : T) (path other bytes read : List ℕ)
      → system.writes t path bytes ≡ some t'
      → system.alike t' path other ≡ true
      → system.opens t' other ≡ some read
      → read ≡ bytes
  pub opens-writes_other :
      (t t' : T) (path other bytes : List ℕ)
      → system.writes t path bytes ≡ some t'
      → system.alike t' path other ≡ false
      → system.opens t' other ≡ system.opens t other

unfoldable pub text_out : List ℕ → List ℕ
text_out [] = []
text_out (c ∷ text) = let rest = text_out text in if c == 10 then 13 ∷ 10 ∷ rest else c ∷ rest

-- A character that was read, in front of what stands behind it.
unfoldable pub text_front : ℕ → List ℕ → List ℕ → List ℕ
text_front c [] rest = c ∷ rest
text_front c (d ∷ behind) rest = if (c == 13) && (d == 10) then rest else c ∷ rest

unfoldable pub text_in : List ℕ → List ℕ
unfolding text_front
text_in [] = []
text_in (c ∷ text) = let rest = text_in text in if c == 26 then [] else text_front c text rest

-- What is read of a file that may not open.
unfoldable pub text_of : Option (List ℕ) → List ℕ
unfolding text_in
text_of none = []
text_of (some bytes) = text_in bytes

module _ {T : Type 0} (system : System T) where
  unfoldable pub read_file : T → List ℕ → List ℕ
  read_file t path = text_of (system.opens t path)

  unfoldable pub write_file : T → List ℕ → List ℕ → T
  write_file t path text = elim (system.writes t path (text_out text)) [ none ↦ t | some t' ↦ t' ]

  unfoldable pub file_exists : T → List ℕ → Bool
  file_exists t path = elim (system.opens t path) [ none ↦ false | some bytes ↦ true ]

  unfoldable pub copy_file : T → List ℕ → List ℕ → Bool × T
  unfolding file_exists
  copy_file t from to =
      let copied = system.copies t from to in
      if not (file_exists t from)
      then (false, t)
      else if copied.0
      then (true, copied.1)
      else (false, copied.1)

  unfoldable pub delete_file : T → List ℕ → Bool × T
  unfolding file_exists
  delete_file t path =
      let after = system.deletes t path in
      if file_exists t path
      then if file_exists after path then (false, after) else (true, after)
      else (false, t)

  -- `create_directory`. The attributes that it passes are not set.
  unfoldable pub create_directory : T → List ℕ → T
  create_directory t path = system.creates t path
