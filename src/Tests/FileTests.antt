-- ===== src/Tests/FileTests.antt =====
-- A disk whose paths do not tell small letters from capitals.
use h1z1_server.Base.{
  ℕ, ◌-◌, ◌≡◌, refl, sym, ◌∙◌, ap, true, false, ◌&&◌, Option, none, some, List, [], ◌∷◌,
  if◌then◌else◌, codes, same_bytes, map, ltb,
}
use h1z1_server.Files.Disk.{System, IsLawful, text_out, text_in, read_file, write_file, file_exists}
use h1z1_server.Files.Text.{read_file-write_file}

abbrev capital : ℕ → ℕ
capital c = if ltb 96 c && ltb c 123 then c - 32 else c

-- The files by their names in capitals.
abbrev Disk : Type 0
Disk = List ℕ → Option (List ℕ)

abbrev put_file : Disk → List ℕ → Option (List ℕ) → Disk
put_file disk path file other = if same_bytes (map capital path) other then file else disk other

abbrev system : System Disk
system = record {
  opens = λ disk path. disk (map capital path);
  writes = λ disk path bytes. some (put_file disk path (some bytes));
  copies = λ disk from to. (true, put_file disk to (disk (map capital from)));
  deletes = λ disk path. put_file disk path none;
  creates = λ disk path. disk;
  alike = λ disk path other. same_bytes (map capital path) (map capital other);
}

some_inj : {A : Type 0} (a b : A) → some a ≡ some b → a ≡ b
some_inj a b e = cc

put_file-same :
    (disk : Disk) (path other : List ℕ) (file : Option (List ℕ))
    → same_bytes (map capital path) other ≡ true
    → put_file disk path file other ≡ file
put_file-same disk path other file e = rw e refl

put_file-other :
    (disk : Disk) (path other : List ℕ) (file : Option (List ℕ))
    → same_bytes (map capital path) other ≡ false
    → put_file disk path file other ≡ disk other
put_file-other disk path other file e = rw e refl

system-IsLawful : IsLawful system
system-IsLawful = record {
  opens-writes = λ t t' path other bytes read written same opened. sym (
      some_inj bytes read (
        sym (put_file-same t path (map capital other) (some bytes) same)
        ∙ ap (λ (d : Disk). d (map capital other)) (some_inj _ t' written)
        ∙ opened));
  opens-writes_other = λ t t' path other bytes written apart.
      ap (λ (d : Disk). d (map capital other)) (sym (some_inj _ t' written))
      ∙ put_file-other t path (map capital other) (some bytes) apart;
}

abbrev disk : Disk
disk path = if same_bytes path (codes "A") then some (codes "old") else none

-- Two lines.
abbrev lines : List ℕ
lines = 72 ∷ 13 ∷ 10 ∷ 73 ∷ 10 ∷ []

written_lines : text_out lines ≡ 72 ∷ 13 ∷ 13 ∷ 10 ∷ 73 ∷ 13 ∷ 10 ∷ []
unfolding text_out
written_lines = refl

cut_short : text_in (72 ∷ 26 ∷ 73 ∷ []) ≡ 72 ∷ []
unfolding text_in
cut_short = refl

-- Another spelling of the path.
read_file-write_file_example :
    read_file system (write_file system disk (codes "a") lines) (codes "A") ≡ lines
unfolding same_bytes file_exists
read_file-write_file_example =
    read_file-write_file system system-IsLawful disk
      (put_file disk (codes "a") (some (text_out lines))) (codes "a") (codes "A") lines refl
      (refl, (refl, (refl, (refl, (refl, tt))))) (λ same. refl)
