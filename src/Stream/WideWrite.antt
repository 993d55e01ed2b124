-- ===== src/Stream/WideWrite.antt =====
-- `WriteString` with `wideString`: the pointer to the temporary block has moved past the
-- characters when the block is copied and freed.
use h1z1_server.Base.{
  ℕ, ◌+◌, ◌*◌, ◌<◌, ◌≡◌, ◌≢◌, ◌∙◌, Bool, true, List, [], ◌∷◌, length, set, arith, done, fault, leb,
  ltb, if◌then◌else◌, >>=-eq-done, length-set, length-replicate, add32, le_bytes, inl, inr,
  Bool-cases, not, ◌&&◌,
}
use h1z1_server.Stream.Buffer.{Stream, store, auto_buffer, safety_check}
use h1z1_server.Stream.Text.{
  StringInterpretMode, until_null_term, given_size, given_size_null_term, write_string, write_wide,
  widen, copy_out, scratch,
}

abbrev written_pair : Bool → ℕ → List ℕ → ℕ → List ℕ
written_pair le c block off =
    set (set block off (if le then 0 else c)) (off + 1) (if le then c else 0)

length-written_pair :
    (le : Bool) (c : ℕ) (block : List ℕ) (off : ℕ)
    → length (written_pair le c block off) ≡ length block
length-written_pair le c block off =
    length-set (set block off (if le then 0 else c)) (off + 1) (if le then c else 0)
    ∙ length-set block off (if le then 0 else c)

-- Where the loop ends without a fault, the pointer has moved by two bytes for each character.
widen-moved :
    (le : Bool) (cs block : List ℕ) (off : ℕ) {r : List ℕ × ℕ}
    → widen le cs block off ≡ done r
    → (r.1 ≡ off + 2 * length cs) × (length r.0 ≡ length block)
unfolding widen
widen-moved le [] block off h = ground arith
widen-moved le (c ∷ cs) block off {r} h = elim (Bool-cases (leb (off + 2) (length block))) [
  | inl fits ↦
      let (moved, size) =
        widen-moved le cs (written_pair le c block off) (off + 2) {r = r} (rw fits at h) in
      (omega (arith, moved), size ∙ length-written_pair le c block off)
  | inr past ↦ cc (rw past at h)
]

scratch-length : (malloc : ℕ → Bool) (n : ℕ) {b : List ℕ} → scratch malloc n ≡ done b → length b ≡ n
unfolding scratch
scratch-length malloc n h = ground (arith, length-replicate {A = ℕ} n 0)

copy_out-past : (block : List ℕ) (off n : ℕ) → length block < off + n → copy_out block off n ≡ fault
unfolding copy_out
copy_out-past block off n h = ground arith

module _ (malloc : ℕ → Bool) where
  write_wide-ne-done :
      (s : Stream) (str : List ℕ) (mode : StringInterpretMode) (at : ℕ × Bool) (le : Bool)
      {t : Stream}
      → 0 < length str
      → write_wide malloc s str mode at le ≢ done t
  unfolding write_wide
  write_wide-ne-done s str given_size at le pos h =
      let (block, allocated, h₁) = >>=-eq-done (scratch malloc (length str * 2)) _ h in
      let (moved, looped, h₂) = >>=-eq-done (widen le str block 0) _ h₁ in
      let (t, stored, h₃) = >>=-eq-done (store s at.0 (le_bytes 4 (length str))) _ h₂ in
      let (bytes, copied, h₄) = >>=-eq-done (copy_out moved.0 moved.1 (length str * 2)) _ h₃ in
      cc (
        copied,
        copy_out-past moved.0 moved.1 (length str * 2) (
            omega (
              arith,
              widen-moved le str block 0 {r = moved} looped,
              scratch-length malloc (length str * 2) {b = block} allocated,
            )),
      )
  write_wide-ne-done s str until_null_term at le pos h =
      let (block, allocated, h₁) = >>=-eq-done (scratch malloc (length str * 2 + 2)) _ h in
      let (moved, looped, h₂) = >>=-eq-done (widen le str block 0) _ h₁ in
      let (bytes, copied, h₃) =
        >>=-eq-done
          (copy_out (set (set moved.0 moved.1 0) (moved.1 + 1) 0) moved.1 (length str * 2 + 2)) _
          h₂ in
      cc (
        copied,
        copy_out-past (set (set moved.0 moved.1 0) (moved.1 + 1) 0) moved.1 (length str * 2 + 2) (
            omega (
              arith,
              length-set (set moved.0 moved.1 0) (moved.1 + 1) 0,
              length-set moved.0 moved.1 0,
              widen-moved le str block 0 {r = moved} looped,
              scratch-length malloc (length str * 2 + 2) {b = block} allocated,
            )),
      )
  write_wide-ne-done s str given_size_null_term at le pos h =
      let (block, allocated, h₁) = >>=-eq-done (scratch malloc (length str * 2 + 2)) _ h in
      let (moved, looped, h₂) = >>=-eq-done (widen le str block 0) _ h₁ in
      let (t, stored, h₃) = >>=-eq-done (store s at.0 (le_bytes 4 (length str))) _ h₂ in cc h₃

  -- `WriteString` with `wideString` and a string that is not empty never returns normally, in
  -- any mode, on any stream and at any start.
  pub write_string-wide-ne-done :
      (s : Stream) (str : List ℕ) (mode : StringInterpretMode) (auto_resize : Bool) (start : ℕ)
      (le : Bool) (t : Stream)
      → 0 < length str
      → write_string malloc s str mode auto_resize start true le ≢ done t
  unfolding write_string
  write_string-wide-ne-done s str mode auto_resize start le t pos h =
      let (s', grown, h₁) =
        >>=-eq-done (auto_buffer malloc s (add32 (length str * 2) 4) auto_resize) _ h in
      let (at, checked, h₂) = >>=-eq-done (safety_check s' start) _ h₁ in
      elim (Bool-cases (ltb s'.buffer_size (add32 at.0 (length str)) && not auto_resize)) [
        | inl throws ↦ cc (rw throws at h₂)
        | inr goes_on ↦ write_wide-ne-done s' str mode at le {t = t} pos (rw goes_on at h₂)
      ]
