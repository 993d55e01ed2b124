-- ===== src/LuaDebug.antt =====
-- `Debug.HexDump` (ServerSystem/LuaSystem/Debug/LuaDebug.cpp): the text that it prints, as a list of
-- characters' codes. An `int` offset passes 2 ^ 31 - 1 only with undefined behaviour.
pub mod Reading
pub mod RoundTrip
use h1z1_server.Base.{
  ℕ, zero, suc, ◌+◌, ◌-◌, ◌/◌, ◌%◌, ◌^◌, Bool, Option, none, some, List, [], ◌∷◌, ◌++◌, get_elem?,
  length, ltb, ◌==◌, not, if◌then◌else◌, Outcome, done, threw, fault, script_error, ◌>>=◌,
}
use h1z1_server.Stream.Buffer.{Stream}
use h1z1_server.LuaStream.{Arguments, argument}
use h1z1_server.LuaStream.Methods.{given}

-- What `%x` makes of a number: so many digits, and at least six of them in `%06x`.
unfoldable pub hex_digit : ℕ → ℕ
hex_digit n = if ltb n 10 then 48 + n else 87 + n

unfoldable pub hex_digits : ℕ → ℕ → List ℕ
unfolding hex_digit
hex_digits zero n = []
hex_digits (suc w) n = hex_digits w (n / 16) ++ hex_digit (n % 16) ∷ []

unfoldable pub offset_digits : ℕ → List ℕ
unfolding hex_digits
offset_digits n =
    if ltb n (16 ^ 6)
    then hex_digits 6 n
    else if ltb n (16 ^ 7)
    then hex_digits 7 n
    else hex_digits 8 n

-- `buf` is the block, and `buflen` the `int` with its size.
module _ {S : Type 0} (isprint : ℕ → Bool) (buf : List ℕ) (buflen : ℕ) where
  -- The steps of the two inner loops.
  unfoldable pub hex_column : ℕ → Outcome S (List ℕ)
  unfolding hex_digits
  hex_column k =
      if ltb k buflen
      then (do b ← given (get_elem? buf k); done (hex_digits 2 b ++ 32 ∷ []))
      else done (32 ∷ 32 ∷ 32 ∷ [])

  unfoldable pub print_column : ℕ → Outcome S (List ℕ)
  print_column k =
      if ltb k buflen
      then (do b ← given (get_elem? buf k); done ((if isprint b then b else 46) ∷ []))
      else done []

  -- An inner loop, with `n` columns left.
  unfoldable pub columns : (ℕ → Outcome S (List ℕ)) → ℕ → ℕ → Outcome S (List ℕ)
  columns column zero k = done []
  columns column (suc n) k = do
    text ← column k
    rest ← columns column n (suc k)
    done (text ++ rest)

  unfoldable pub dump_row : ℕ → Outcome S (List ℕ)
  unfolding hex_column print_column columns offset_digits
  dump_row i = do
    bytes ← columns hex_column 16 i
    characters ← columns print_column 16 i
    done (offset_digits i ++ (58 ∷ 32 ∷ bytes ++ 32 ∷ characters) ++ 10 ∷ [])

  -- The outer loop, from the offset `i` on; `n` bounds its rounds.
  unfoldable pub dump_rows : ℕ → ℕ → Outcome S (List ℕ)
  dump_rows zero i = done []
  dump_rows (suc n) i =
      let rest = dump_rows n (i + 16) in
      if not (ltb i buflen) then done [] else (do
        row ← dump_row i
        rows ← (if ltb (i + 16) (2 ^ 31) then rest else fault)
        done (row ++ rows))

module _ {V D : Type 0} (lua : Arguments V D) (isprint : ℕ → Bool) where
  -- `Debug_HexDump`: what it prints, and the number of results, which is undefined since the
  -- function ends without a `return`. A round passes a byte at least.
  unfoldable pub hex_dump :
      List V → List Stream → Outcome (List Stream) (List ℕ × Outcome (List Stream) ℕ)
  unfolding argument dump_rows
  hex_dump args objects = if not (length args == 1) then threw script_error objects else (do
    place ← argument lua (lua.check_udata "ByteStreamReader") args 1 objects
    s ← given (get_elem? objects place)
    let block : List ℕ = elim s.buffer [ none ↦ [] | some bytes ↦ bytes ]
    text ←
        if ltb s.buffer_size (2 ^ 31)
        then dump_rows isprint block s.buffer_size s.buffer_size 0
        else done []
    done (text, fault))
