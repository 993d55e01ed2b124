-- ===== src/Stream/Appends.antt =====
-- A write at the index appends to the bytes that were written before.
use h1z1_server.Base.{
  refl, ℕ, ◌+◌, ◌≤◌, ◌<◌, ◌≡◌, sym, ◌∙◌, ap, Bool, false, some, List, ◌++◌, length, take, drop,
  arith, Outcome, done, length-append, length-take, minus_one, length-replicate, ap₂, take_all,
  take-append, drop-append, take-append_le, add32, le→ltb, le→leb, replicate,
}
use mathlib.Core.List.{append_assoc}
use h1z1_server.Base.{drop-add, drop-append_le, replicate-add}
use h1z1_server.Stream.Buffer.{Stream, contents, advance, auto_buffer}
use h1z1_server.Stream.Writer.{write_data, store_from}
use h1z1_server.Stream.Valid.{IsValid, HasRoom, Grows, auto_buffer-Grows}
use h1z1_server.Stream.Access.{
  overwritten, length-overwritten, safety_check-index, store-overwritten,
}

-- The bytes in front of the index.
abbrev pub written : Stream → List ℕ
written s = take s.idx (contents s)

-- `r` is a normal return that appended `bytes`; the stream grew by `ask` bytes at most, and
-- behind the new index stands what stood there, with zeros where the block grew.
pub record Appends (s : Stream) (ask : ℕ) (bytes : List ℕ) (r : Outcome Stream Stream)
    : Type 0 where
  pub out : Stream
  pub returns : r ≡ done out
  pub valid : IsValid out
  pub appended : written out ≡ written s ++ bytes
  pub moved : out.idx ≡ s.idx + length bytes
  pub added : ℕ
  pub at_most : added ≤ ask
  pub grown : out.buffer_size ≡ s.buffer_size + added
  pub behind : drop out.idx (contents out) ≡ drop out.idx (contents s ++ replicate added 0)
  pub same_auto : out.auto_buffer ≡ s.auto_buffer
  pub same_endian : out.big_endian ≡ s.big_endian

store_from-overwritten :
    (s : Stream) (at : ℕ) (bytes : List ℕ)
    → IsValid s
    → 0 < s.buffer_size
    → at + length bytes ≤ s.buffer_size
    → store_from s at bytes (length bytes)
      ≡ done (record s { buffer = some (overwritten (contents s) at bytes) })
unfolding store_from
store_from-overwritten s at bytes v pos h =
    rw
      (
        le→leb (length bytes) (length bytes) (omega arith),
        take_all (length bytes) bytes (omega arith),
      )
      (store-overwritten s v at bytes pos h)

-- What stands before and behind the end of the bytes written over a block.
pub written-overwritten :
    (b : List ℕ) (at : ℕ) (bytes : List ℕ)
    → at + length bytes ≤ length b
    → (take (at + length bytes) (overwritten b at bytes) ≡ take at b ++ bytes)
      × (drop (at + length bytes) (overwritten b at bytes) ≡ drop (at + length bytes) b)
written-overwritten b at bytes h =
    rw (sym (append_assoc (take at b) bytes (drop (at + length bytes) b)))
      (take-append _ _ _ size, drop-append _ _ _ size)
  where
    size : at + length bytes ≡ length (take at b ++ bytes)
    size = omega (arith, length-append (take at b) bytes, length-take at b (omega arith))

-- Bytes copied to the index of a stream that has grown for them are appended.
pub Appends-overwritten :
    (s : Stream) (n : ℕ) (bytes : List ℕ) (r : Outcome Stream Stream)
    → IsValid s
    → (g : Grows s n r) → s.idx + length bytes ≤ g.out.buffer_size
    → Appends s n bytes (
        done (record g.out {
          buffer = some (overwritten (contents g.out) g.out.idx bytes);
          idx = g.out.idx + length bytes;
        }))
Appends-overwritten s n bytes r v g enough = record {
  out = _;
  returns = refl;
  valid = record {
    sized = length-overwritten (contents g.out) g.out.idx bytes fits ∙ g.valid.sized;
    small = g.valid.small;
    inside = omega (arith, enough, g.same_idx);
  };
  appended = front.0 ∙ ap (λ (xs : List ℕ). xs ++ bytes) kept;
  moved = omega (arith, g.same_idx);
  added = g.added;
  at_most = g.at_most;
  grown = omega (
    arith,
    g.valid.sized,
    v.sized,
    ap length g.block,
    length-append (contents s) (replicate g.added 0),
    length-replicate {A = ℕ} g.added 0,
  );
  behind = front.1 ∙ ap (drop (g.out.idx + length bytes)) g.block;
  same_auto = g.same_auto;
  same_endian = g.same_endian;
}
  where
    fits : g.out.idx + length bytes ≤ length (contents g.out)
    fits = omega (arith, enough, g.same_idx, g.valid.sized)

    front :
        (take (g.out.idx + length bytes) (overwritten (contents g.out) g.out.idx bytes)
          ≡ take g.out.idx (contents g.out) ++ bytes)
        × (drop (g.out.idx + length bytes) (overwritten (contents g.out) g.out.idx bytes)
            ≡ drop (g.out.idx + length bytes) (contents g.out))
    front = written-overwritten (contents g.out) g.out.idx bytes fits

    kept : take g.out.idx (contents g.out) ≡ written s
    kept =
        ap₂ take g.same_idx g.block
        ∙ take-append_le s.idx (contents s) (replicate g.added 0) (omega (arith, v.inside, v.sized))

module _ (malloc : ℕ → Bool) where
  -- Where growing succeeds, so do the checks and the copy.
  write_data-Grows :
      (s : Stream) (bytes : List ℕ)
      → 0 < length bytes
      → (g : Grows s (length bytes) (auto_buffer malloc s (length bytes) false))
      → write_data malloc s bytes (length bytes) minus_one
        ≡ done (record g.out {
          buffer = some (overwritten (contents g.out) g.out.idx bytes);
          idx = g.out.idx + length bytes;
        })
  unfolding write_data advance
  write_data-Grows s bytes pos g = rw (
    g.returns,
    safety_check-index g.out g.valid some_room,
    no_wrap,
    le→ltb g.out.buffer_size (g.out.idx + length bytes) fits,
    store_from-overwritten g.out g.out.idx bytes g.valid some_room fits,
  )
    where
      fits : g.out.idx + length bytes ≤ g.out.buffer_size
      fits = omega (arith, g.room, g.same_idx)

      some_room : 0 < g.out.buffer_size
      some_room = omega (arith, fits)

      no_wrap : add32 g.out.idx (length bytes) ≡ g.out.idx + length bytes
      no_wrap = omega (arith, fits, g.valid.small)

  -- `WriteData` at the index of a valid stream, of at least one byte, with room or with leave
  -- and memory to grow, returns a valid stream: the bytes follow those in front of the index,
  -- the index moves by their number, the block grows by no more than that number, and what stood
  -- behind the new index, and the modes, are kept.
  pub write_data-Appends :
      (s : Stream) (bytes : List ℕ)
      → IsValid s
      → 0 < length bytes
      → HasRoom malloc s (length bytes) false
      → Appends s (length bytes) bytes (write_data malloc s bytes (length bytes) minus_one)
  write_data-Appends s bytes v pos room =
      rw (write_data-Grows s bytes pos g) (Appends-overwritten s (length bytes) bytes _ v g g.room)
    where
      g : Grows s (length bytes) (auto_buffer malloc s (length bytes) false)
      g = auto_buffer-Grows malloc s (length bytes) false v room

-- Two appends in a row are one.
pub Appends-trans :
    (s : Stream) (m n : ℕ) (xs ys : List ℕ) (p : Outcome Stream Stream) (a : Appends s m xs p)
    (q : Outcome Stream Stream)
    → IsValid s
    → Appends a.out n ys q
    → Appends s (m + n) (xs ++ ys) q
Appends-trans s m n xs ys p a q v b = record {
  out = b.out;
  returns = b.returns;
  valid = b.valid;
  appended =
      b.appended ∙ ap (λ (zs : List ℕ). zs ++ ys) a.appended ∙ append_assoc (written s) xs ys;
  moved = omega (arith, a.moved, b.moved, length-append xs ys);
  added = a.added + b.added;
  at_most = omega (arith, a.at_most, b.at_most);
  grown = omega (arith, a.grown, b.grown);
  behind =
      b.behind
      ∙ ap (λ (i : ℕ). drop i (contents a.out ++ replicate b.added 0)) b.moved
      ∙ drop-add a.out.idx (length ys) (contents a.out ++ replicate b.added 0)
      ∙ ap (drop (length ys)) seam
      ∙ sym (drop-add a.out.idx (length ys) (contents s ++ replicate (a.added + b.added) 0))
      ∙ ap (λ (i : ℕ). drop i (contents s ++ replicate (a.added + b.added) 0)) (sym b.moved);
  same_auto = b.same_auto ∙ a.same_auto;
  same_endian = b.same_endian ∙ a.same_endian;
}
  where
    seam :
        drop a.out.idx (contents a.out ++ replicate b.added 0)
        ≡ drop a.out.idx (contents s ++ replicate (a.added + b.added) 0)
    seam =
        drop-append_le a.out.idx (contents a.out) (replicate b.added 0)
          (omega (arith, a.valid.inside, a.valid.sized))
        ∙ ap (λ (zs : List ℕ). zs ++ replicate b.added 0) a.behind
        ∙ sym (
            drop-append_le a.out.idx (contents s ++ replicate a.added 0) (replicate b.added 0) (
              omega (
                arith,
                length-append (contents s) (replicate a.added 0),
                length-replicate {A = ℕ} a.added 0,
                v.sized,
                a.valid.inside,
                a.grown,
              )))
        ∙ ap (drop a.out.idx) (
            append_assoc (contents s) (replicate a.added 0) (replicate b.added 0)
            ∙ ap (◌++◌ (contents s)) (sym (replicate-add a.added b.added 0)))
