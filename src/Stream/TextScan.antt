-- ===== src/Stream/TextScan.antt =====
-- `ReadString` in the mode `UNTIL_NULL_TERM`: the scan for the terminator.
use h1z1_server.Base.{
  ℕ, suc, ◌+◌, ◌^◌, ◌≤◌, ◌<◌, ◌≡◌, refl, ◌∙◌, ap, Bool, true, false, List, [], ◌∷◌, ◌++◌, length,
  take, drop, arith, done, fault, minus_one, length-append, drop-add, add32, lt→ltb, ◌==◌,
  if◌then◌else◌, take-append, drop-append, All, inl, inr, Bool-cases,
}
use h1z1_server.Stream.Buffer.{Stream, contents}
use h1z1_server.Stream.Valid.{IsValid}
use h1z1_server.Stream.Access.{safety_check-index}
use h1z1_server.Stream.Consumes.{remaining, length-remaining}
use h1z1_server.Stream.TextRead.{read_narrow-take}
use h1z1_server.Stream.Text.{until_null_term, read_string, read_narrow, scan, scan_bytes, read_at}

abbrev pub IsNonzero : ℕ → Type 0
IsNonzero b = 0 < b

-- The scan stops at the terminator, and counts what stands in front of it.
scan_bytes-terminated :
    (size pos : ℕ) (str rest : List ℕ) (count : ℕ)
    → All IsNonzero str
    → pos + length str ≤ size
    → scan_bytes size pos (str ++ 0 ∷ rest) count ≡ done (count + length str)
unfolding scan_bytes
scan_bytes-terminated size pos [] rest count h fits = ap done (omega arith)
scan_bytes-terminated size pos (b ∷ str) rest count h fits =
    ground (arith, h.0, scan_bytes-terminated size (pos + 1) str rest (count + 1) h.1)

-- With no terminator in the block it runs past the end.
scan_bytes-unterminated :
    (size pos : ℕ) (bs : List ℕ) (count : ℕ)
    → All IsNonzero bs
    → pos + length bs ≤ size
    → scan_bytes size pos bs count ≡ fault
unfolding scan_bytes
scan_bytes-unterminated size pos [] count h fits = refl
scan_bytes-unterminated size pos (b ∷ bs) count h fits =
    ground (arith, h.0, scan_bytes-unterminated size (pos + 1) bs (count + 1) h.1)

module _ (malloc : ℕ → Bool) (s : Stream) (v : IsValid s) where
  scan-remaining :
      s.idx + 0 ≡ s.idx → scan s s.idx false false ≡ scan_bytes s.buffer_size s.idx (remaining s) 0
  unfolding scan
  scan-remaining e = rw (e, lt→ltb s.idx (2 ^ 31) (omega (arith, v.inside, v.small)))

  -- On a valid stream with a zero-terminated string at the index, `ReadString` up to the
  -- terminator returns the string, but the empty string for one of exactly one character; the
  -- index moves to the terminator, not behind it.
  pub read_string-until_null :
      (str rest : List ℕ)
      → All IsNonzero str
      → remaining s ≡ str ++ 0 ∷ rest
      → (read_string malloc s until_null_term minus_one false false
          ≡ done (if length str == 1 then [] else str, record s { idx = s.idx + length str }))
        × (drop (s.idx + length str) (contents s) ≡ 0 ∷ rest)
  unfolding read_string read_at
  read_string-until_null str rest h next = (
    rw
        (
          safety_check-index s v pos,
          scan-remaining (omega arith),
          next,
          scan_bytes-terminated s.buffer_size s.idx str rest 0 h (omega (arith, size)),
          zero_plus,
        )
        result,
    drop-add s.idx (length str) (contents s)
        ∙ ap (drop (length str)) next
        ∙ drop-append (length str) str (0 ∷ rest) refl,
  )
    where
      size : s.idx + length str + suc (length rest) ≡ s.buffer_size
      size =
          omega
            (arith, ap length next, length-append str (0 ∷ rest), length-remaining s v, v.inside)

      pos : 0 < s.buffer_size
      pos = omega (arith, size)

      zero_plus : 0 + length str ≡ length str
      zero_plus = omega arith

      first : take (length str) (drop s.idx (contents s)) ≡ str
      first = ap (take (length str)) next ∙ take-append (length str) str (0 ∷ rest) refl

      past_one : (length str == 1) ≡ true → add32 s.idx 1 ≡ s.idx + length str
      past_one e = ground (arith, size, v.small)

      result :
          (if length str == 1
            then done ([], record s { idx = add32 s.idx 1 })
            else read_narrow s until_null_term (s.idx, true) s.idx (length str))
          ≡ done (if length str == 1 then [] else str, record s { idx = s.idx + length str })
      result = elim (Bool-cases (length str == 1)) [
        | inl one ↦ rw one (ap (λ (i : ℕ). done ([], record s { idx = i })) (past_one one))
        | inr other ↦
            rw
              (
                other,
                read_narrow-take s v until_null_term s.idx (length str) pos (omega (arith, size)),
                first,
              )
              (ap (λ (i : ℕ). done (str, record s { idx = i })) (omega arith))
      ]

  -- On a valid stream that is not empty and has no zero from the index to the end of the block,
  -- `ReadString` up to a terminator reads past the end of the block.
  read_string-unterminated :
      0 < s.buffer_size
      → All IsNonzero (remaining s)
      → read_string malloc s until_null_term minus_one false false ≡ fault
  unfolding read_string
  read_string-unterminated pos h = rw (
    safety_check-index s v pos,
    scan-remaining (omega arith),
    scan_bytes-unterminated s.buffer_size s.idx (remaining s) 0 h
        (omega (arith, length-remaining s v, v.inside)),
  )
