-- ===== src/Files/Text.antt =====
-- Texts that are written to the disk and read back.
use h1z1_server.Base.{
  ℕ, ◌≡◌, ◌≢◌, refl, ap, ◌∙◌, true, false, some, List, [], ◌∷◌, ◌==◌, if◌then◌else◌, All, arith,
  Bool-cases, Option-cases, inl, inr,
}
use h1z1_server.Files.Disk.{
  System, IsLawful, text_out, text_front, text_in, text_of, read_file, write_file, file_exists,
}

-- A character that does not end a text.
abbrev pub IsText : ℕ → Type 0
IsText c = (c == 26) ≡ false

text_in-text_out : (text : List ℕ) → All IsText text → text_in (text_out text) ≡ text
unfolding text_in text_out text_front
text_in-text_out [] h = refl
text_in-text_out (c ∷ []) h = ground (arith, h.0)
text_in-text_out (c ∷ d ∷ text) h = ground (arith, h.0, text_in-text_out (d ∷ text) h.1)

module _ {T : Type 0} (system : System T) (lawful : IsLawful system) where
  write_file-done :
      (t t' : T) (path text : List ℕ)
      → system.writes t path (text_out text) ≡ some t'
      → write_file system t path text ≡ t'
  unfolding write_file
  write_file-done t t' path text written = rw (write_file, written)

  file_exists-opens :
      (t : T) (path : List ℕ)
      → file_exists system t path ≡ true
      → (bytes : List ℕ) × (system.opens t path ≡ some bytes)
  unfolding file_exists
  file_exists-opens t path there = elim (Option-cases (system.opens t path)) [
    | inr opened ↦ opened
    | inl shut ↦ absurd (clash (rw (file_exists, shut) at there))
  ]
    where
      clash : false ≢ true
      clash e = cc

  read_file-alike :
      (t t' : T) (path other text : List ℕ)
      → system.writes t path (text_out text) ≡ some t'
      → All IsText text
      → system.alike t' path other ≡ true
      → file_exists system t' other ≡ true
      → read_file system t' other ≡ text
  unfolding read_file text_of
  read_file-alike t t' path other text written is_text same there =
      let (bytes, opened) = file_exists-opens t' other there in
      ap text_of opened
      ∙ ap text_in (lawful.opens-writes t t' path other (text_out text) bytes written same opened)
      ∙ text_in-text_out text is_text

  -- Over a system that keeps its documentation, where a path opens for writing and a text has no
  -- character that ends texts, after `write_file` of the text to the path, `read_file` of any
  -- path returns the text if that path leads to the same file, provided that `file_exists` then
  -- holds of it, and otherwise what it returned before.
  pub read_file-write_file :
      (t t' : T) (path other text : List ℕ)
      → system.writes t path (text_out text) ≡ some t'
      → All IsText text
      → (system.alike t' path other ≡ true → file_exists system t' other ≡ true)
      → read_file system (write_file system t path text) other
        ≡ (if system.alike t' path other then text else read_file system t other)
  unfolding read_file
  read_file-write_file t t' path other text written is_text there =
      ap (λ d. read_file system d other) (write_file-done t t' path text written)
      ∙ elim (Bool-cases (system.alike t' path other)) [
        | inl same ↦
            rw same (read_file-alike t t' path other text written is_text same (there same))
        | inr apart ↦
            rw apart
              (ap text_of (lawful.opens-writes_other t t' path other (text_out text) written apart))
      ]
