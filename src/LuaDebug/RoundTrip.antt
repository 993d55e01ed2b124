-- ===== src/LuaDebug/RoundTrip.antt =====
-- The bytes of a dump come back from its columns.
use h1z1_server.Base.{
  ℕ, zero, suc, ◌+◌, ◌*◌, ◌^◌, ◌≤◌, ◌≡◌, inl, inr, refl, sym, ◌∙◌, Bool, false, some, List, [], ◌∷◌,
  ◌++◌, get_elem?, length, drop, drop-add, take-append-drop, All, IsByte, arith, lt→ltb, le→ltb,
  done, fault,
}
use h1z1_server.Stream.Buffer.{Stream}
use h1z1_server.LuaStream.{Arguments, argument}
use mathlib.Core.List.{append_assoc}
use h1z1_server.LuaDebug.{hex_column, print_column, columns, dump_row, dump_rows, hex_dump}
use h1z1_server.LuaDebug.Reading.{
  read_rows, read_rows-nil, hexes, prints, index-cases, drop-All, row, past-row, read_columns-row,
  drop-nil_beyond,
}

module _ {S : Type 0} (isprint : ℕ → Bool) (bytes : List ℕ) where
  columns-hex_column :
      (n k : ℕ)
      → columns {S = S} isprint bytes (length bytes) (hex_column isprint bytes (length bytes)) n k
        ≡ done (hexes n (drop k bytes))
  unfolding columns hex_column hexes
  columns-hex_column zero k = refl
  columns-hex_column (suc n) k = elim (index-cases bytes k) [
    | inl out ↦
        rw
          (
            columns,
            hex_column,
            le→ltb k (length bytes) out.0,
            columns-hex_column n (suc k),
            out.1,
            out.2,
          )
          refl
    | inr inside ↦
        rw
          (
            columns,
            hex_column,
            lt→ltb k (length bytes) inside.0,
            inside.1.1,
            columns-hex_column n (suc k),
            inside.1.2,
          )
          refl
  ]

  columns-print_column :
      (n k : ℕ)
      → columns {S = S} isprint bytes (length bytes) (print_column isprint bytes (length bytes)) n k
        ≡ done (prints isprint n (drop k bytes))
  unfolding columns print_column prints
  columns-print_column zero k = refl
  columns-print_column (suc n) k = elim (index-cases bytes k) [
    | inl out ↦
        rw
          (
            columns,
            print_column,
            le→ltb k (length bytes) out.0,
            columns-print_column n (suc k),
            out.1,
            out.2,
          )
          refl
    | inr inside ↦
        rw
          (
            columns,
            print_column,
            lt→ltb k (length bytes) inside.0,
            inside.1.1,
            columns-print_column n (suc k),
            inside.1.2,
          )
          refl
  ]

  dump_row-row :
      (k : ℕ)
      → dump_row {S = S} isprint bytes (length bytes) k
        ≡ done (row isprint k (drop k bytes) ++ 10 ∷ [])
  unfolding dump_row row
  dump_row-row k = rw (dump_row, columns-hex_column 16 k, columns-print_column 16 k)

  dump_rows-nil :
      (n k : ℕ) → length bytes ≤ k → dump_rows {S = S} isprint bytes (length bytes) n k ≡ done []
  unfolding dump_rows
  dump_rows-nil zero k h = refl
  dump_rows-nil (suc n) k h = rw (dump_rows, le→ltb k (length bytes) h)

  dump_rows-read_rows :
      (n k : ℕ)
      → isprint 10 ≡ false
      → All IsByte bytes
      → length bytes + 16 ≤ 2 ^ 31
      → length bytes ≤ k + 16 * n
      → (text : List ℕ) × (dump_rows {S = S} isprint bytes (length bytes) n k ≡ done text)
        × (read_rows n text ≡ drop k bytes)
  unfolding dump_rows read_rows
  dump_rows-read_rows zero k newline are_bytes small enough =
      ([], refl, sym (drop-nil_beyond bytes k (omega (arith, enough))))
  dump_rows-read_rows (suc n) k newline are_bytes small enough = elim (index-cases bytes k) [
    | inl out ↦ ([], dump_rows-nil (suc n) k out.0, read_rows-nil (suc n) ∙ sym out.1)
    | inr inside ↦
        let (text, dumped, back) =
          dump_rows-read_rows n (k + 16) newline are_bytes small (omega (arith, enough)) in
        (
          row isprint k (drop k bytes) ++ 10 ∷ text,
          rw (
            dump_rows,
            lt→ltb k (length bytes) inside.0,
            dump_row-row k,
            lt→ltb (k + 16) (2 ^ 31) (omega (arith, inside.0, small)),
            dumped,
            append_assoc (row isprint k (drop k bytes)) (10 ∷ []) text,
          ),
          rw
              (
                read_columns-row isprint k (drop k bytes) (10 ∷ text)
                    (drop-All IsByte k bytes are_bytes),
                past-row isprint k (drop k bytes) text newline,
                back,
                drop-add k 16 bytes,
              )
              (take-append-drop 16 (drop k bytes)),
        )
  ]

enough_rounds : (n : ℕ) → n ≤ 0 + 16 * n
enough_rounds n = omega arith

-- `HexDump` of a reader over a whole block of bytes, of at most 2 ^ 31 - 16 of them, where the
-- end of a line does not count as printable, prints a text from whose columns the bytes are read
-- back in order; the number of its results is undefined.
pub hex_dump-read_rows :
    {V D : Type 0} (lua : Arguments V D) (isprint : ℕ → Bool) (place : ℕ) (objects : List Stream)
    (s : Stream) (bytes : List ℕ)
    → get_elem? objects place ≡ some s
    → s.buffer ≡ some bytes
    → s.buffer_size ≡ length bytes
    → All IsByte bytes
    → length bytes + 16 ≤ 2 ^ 31
    → isprint 10 ≡ false
    → (text : List ℕ) × (hex_dump lua isprint (lua.userdata "ByteStreamReader" place ∷ []) objects
        ≡ done (text, fault))
      × (read_rows (length bytes) text ≡ bytes)
unfolding hex_dump argument
hex_dump-read_rows lua isprint place objects s bytes found block size are_bytes small newline =
    let (text, dumped, back) =
      dump_rows-read_rows {S = List Stream} isprint bytes (length bytes) 0 newline are_bytes small
        (enough_rounds (length bytes)) in
    (
      text,
      rw (
        hex_dump,
        lua.check_udata-userdata "ByteStreamReader" place,
        found,
        block,
        size,
        lt→ltb (length bytes) (2 ^ 31) (omega (arith, small)),
        dumped,
      ),
      back,
    )
