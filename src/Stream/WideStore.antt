-- ===== src/Stream/WideStore.antt =====
-- What `WriteWString` leaves in the block, mode by mode.
use h1z1_server.Base.{
  ℕ, zero, suc, ◌+◌, ◌*◌, ◌/◌, ◌-◌, ◌%◌, ◌^◌, ◌≤◌, ◌<◌, ◌≡◌, refl, sym, ◌∙◌, ap, Bool, true, List,
  [], ◌∷◌, ◌++◌, length, take, arith, done, minus_one, le_bytes, length-le_bytes, length-append,
  add32, All, ltb, some, ◌>>=◌, subst, ap₂,
}
use h1z1_server.Stream.Buffer.{Stream, contents, store, auto_buffer, advance}
use h1z1_server.Stream.Valid.{IsValid, HasRoom, Grows, auto_buffer-Grows}
use h1z1_server.Stream.Access.{overwritten, store-overwritten, safety_check-index}
use h1z1_server.Stream.Appends.{Appends, Appends-overwritten}
use h1z1_server.Stream.Text.{StringInterpretMode, until_null_term, given_size, given_size_null_term}
use h1z1_server.Stream.TextStore.{&&-false, sized-overwritten}
use h1z1_server.Stream.WideText.{unit_bytes, bytes_units, write_units, write_wstring}

pub length-unit_bytes : (us : List ℕ) → length (unit_bytes us) ≡ length us * 2
unfolding unit_bytes le_bytes
length-unit_bytes [] = refl
length-unit_bytes (u ∷ us) = omega (arith, length-unit_bytes us)

-- A unit.
abbrev pub IsUnit : ℕ → Type 0
IsUnit u = u < 2 ^ 16

pub bytes_units-unit_bytes :
    (n : ℕ) (us rest : List ℕ)
    → All IsUnit us
    → n ≤ length us
    → bytes_units (take (n * 2) (unit_bytes us ++ rest)) ≡ take n us
unfolding bytes_units unit_bytes le_bytes
bytes_units-unit_bytes zero us rest h k = refl
bytes_units-unit_bytes (suc n) [] rest h k = absurd (omega arith)
bytes_units-unit_bytes (suc n) (u ∷ us) rest h k =
    ap (λ (m : ℕ). bytes_units (take m (u % 256 ∷ u / 256 % 256 ∷ (unit_bytes us ++ rest)))) two
    ∙ ap₂ ◌∷◌ (omega (arith, h.0)) (bytes_units-unit_bytes n us rest h.1 (omega (arith, k)))
  where
    two : suc n * 2 ≡ suc (suc (n * 2))
    two = omega arith

-- What each mode puts into the block, apart from the code.
unfoldable pub encode_wstring : StringInterpretMode → List ℕ → List ℕ
encode_wstring until_null_term str = unit_bytes (str ++ 0 ∷ [])
encode_wstring given_size str = le_bytes 4 (length str) ++ unit_bytes str
encode_wstring given_size_null_term str = le_bytes 4 (length str) ++ unit_bytes (str ++ 0 ∷ [])

-- The mode that writes a terminator behind a sized string needs a unit more than it asks for.
abbrev pub HasWideSpare : StringInterpretMode → Stream → List ℕ → Type 0
HasWideSpare until_null_term s str = Unit
HasWideSpare given_size s str = Unit
HasWideSpare given_size_null_term s str = s.idx + (length str * 2 + 6) ≤ s.buffer_size

length-encode_wstring :
    (mode : StringInterpretMode) (str : List ℕ)
    → length (encode_wstring mode str)
      ≡ length str * 2
        + (elim mode [ until_null_term ↦ 2 | given_size ↦ 4 | given_size_null_term ↦ 6 ])
unfolding encode_wstring
length-encode_wstring until_null_term str =
    omega (arith, length-unit_bytes (str ++ 0 ∷ []), length-append str (0 ∷ []))
length-encode_wstring given_size str = omega (
  arith,
  length-append (le_bytes 4 (length str)) (unit_bytes str),
  length-le_bytes 4 (length str),
  length-unit_bytes str,
)
length-encode_wstring given_size_null_term str = omega (
  arith,
  length-append (le_bytes 4 (length str)) (unit_bytes (str ++ 0 ∷ [])),
  length-le_bytes 4 (length str),
  length-unit_bytes (str ++ 0 ∷ []),
  length-append str (0 ∷ []),
)

-- The copies of a sized mode, where they fit.
sized_units-overwritten :
    (s : Stream) (n m : ℕ) (us : List ℕ)
    → IsValid s
    → 0 < s.buffer_size
    → m ≡ length us * 2
    → s.idx + (m + 4) ≤ s.buffer_size
    → (store s s.idx (le_bytes 4 n) >>= λ t.
        store t (s.idx + 4) (unit_bytes us) >>= λ u. done (advance u true (add32 s.idx (m + 4))))
      ≡ done (record s {
        buffer = some (overwritten (contents s) s.idx (le_bytes 4 n ++ unit_bytes us));
        idx = s.idx + (m + 4);
      })
sized_units-overwritten s n m us v pos e h =
    subst
      (λ k.
        (store s s.idx (le_bytes 4 n) >>= λ t.
        store t (s.idx + 4) (unit_bytes us) >>= λ u. done (advance u true (add32 s.idx (k + 4))))
        ≡ done (record s {
          buffer = some (overwritten (contents s) s.idx (le_bytes 4 n ++ unit_bytes us));
          idx = s.idx + (k + 4);
        }))
      (length-unit_bytes us ∙ sym e)
      (sized-overwritten s n (unit_bytes us) v pos (omega (arith, h, e, length-unit_bytes us)))

write_units-overwritten :
    (s : Stream) (str : List ℕ) (mode : StringInterpretMode)
    → IsValid s
    → 0 < s.buffer_size
    → s.idx + length (encode_wstring mode str) ≤ s.buffer_size
    → write_units s str mode (s.idx, true)
      ≡ done (record s {
        buffer = some (overwritten (contents s) s.idx (encode_wstring mode str));
        idx = s.idx + length (encode_wstring mode str);
      })
unfolding write_units encode_wstring advance
write_units-overwritten s str until_null_term v pos h =
    rw (store-overwritten s v s.idx (unit_bytes (str ++ 0 ∷ [])) pos h, no_wrap)
  where
    no_wrap : add32 s.idx (length (str ++ 0 ∷ []) * 2) ≡ s.idx + length (unit_bytes (str ++ 0 ∷ []))
    no_wrap = omega (arith, h, v.small, length-unit_bytes (str ++ 0 ∷ []))
write_units-overwritten s str given_size v pos h =
    sized_units-overwritten s (length str) (length str * 2) str v pos refl (omega (arith, h, size))
    ∙ ap
        (λ (i : ℕ). done (record s {
          buffer =
              some (overwritten (contents s) s.idx (le_bytes 4 (length str) ++ unit_bytes str));
          idx = s.idx + i;
        }))
        (sym size)
  where
    size : length (le_bytes 4 (length str) ++ unit_bytes str) ≡ length str * 2 + 4
    size = length-encode_wstring given_size str
write_units-overwritten s str given_size_null_term v pos h = rw minus (
    sized_units-overwritten s (length str) (length (str ++ 0 ∷ []) * 2) (str ++ 0 ∷ []) v pos refl
      (omega (arith, h, size))
    ∙ ap
        (λ (i : ℕ). done (record s {
          buffer = some (
              overwritten (contents s) s.idx
                (le_bytes 4 (length str) ++ unit_bytes (str ++ 0 ∷ [])));
          idx = s.idx + i;
        }))
        (sym size))
  where
    minus : length (str ++ 0 ∷ []) - 1 ≡ length str
    minus = omega (arith, length-append str (0 ∷ []))

    size :
        length (le_bytes 4 (length str) ++ unit_bytes (str ++ 0 ∷ []))
        ≡ length (str ++ 0 ∷ []) * 2 + 4
    size = omega (arith, length-encode_wstring given_size_null_term str, length-append str (0 ∷ []))

-- Growing, and the checks, which `autoResize` turns off but for one.
write_wstring-Grows :
    (malloc : ℕ → Bool) (s : Stream) (str : List ℕ) (mode : StringInterpretMode)
    → (g : Grows s (length str * 2 + 4) (auto_buffer malloc s (length str * 2 + 4) true))
    → write_wstring malloc s str mode true minus_one ≡ write_units g.out str mode (g.out.idx, true)
unfolding write_wstring
write_wstring-Grows malloc s str mode g =
    rw (no_wrap, g.returns, safety_check-index g.out g.valid some_room)
      (rw (&&-false (ltb g.out.buffer_size (add32 (add32 g.out.idx (length str)) 4))))
  where
    no_wrap : add32 (length str * 2) 4 ≡ length str * 2 + 4
    no_wrap = omega (arith, g.room, g.valid.small)

    some_room : 0 < g.out.buffer_size
    some_room = omega (arith, g.room)

module _ (malloc : ℕ → Bool) (s : Stream) (str : List ℕ) (v : IsValid s)
    (room : HasRoom malloc s (length str * 2 + 4) true) where
  pub write_wstring-Appends :
      (mode : StringInterpretMode)
      → HasWideSpare mode s str
      → Appends s
          (length str * 2 + 4)
          (encode_wstring mode str)
          (write_wstring malloc s str mode true minus_one)
  write_wstring-Appends mode spare =
      rw
        (
          write_wstring-Grows malloc s str mode g,
          write_units-overwritten g.out str mode g.valid (omega (arith, g.room))
              (rw g.same_idx (fits mode spare)),
        )
        (Appends-overwritten s (length str * 2 + 4) (encode_wstring mode str) _ v g
          (fits mode spare))
    where
      g : Grows s (length str * 2 + 4) (auto_buffer malloc s (length str * 2 + 4) true)
      g = auto_buffer-Grows malloc s (length str * 2 + 4) true v room

      fits :
          (mode : StringInterpretMode)
          → HasWideSpare mode s str
          → s.idx + length (encode_wstring mode str) ≤ g.out.buffer_size
      fits until_null_term spare = omega (arith, length-encode_wstring until_null_term str, g.room)
      fits given_size spare = omega (arith, length-encode_wstring given_size str, g.room)
      fits given_size_null_term spare =
          omega (arith, length-encode_wstring given_size_null_term str, g.size, spare)
