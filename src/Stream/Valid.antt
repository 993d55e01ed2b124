-- ===== src/Stream/Valid.antt =====
-- The invariant of a stream, and what growing, storing and loading do to a stream that has it.
use h1z1_server.Base.{
  ℕ, ◌+◌, ◌^◌, ◌≤◌, ◌<◌, ◌≡◌, refl, sym, ◌⊎◌, inl, inr, Bool, true, ◌||◌, some, ◌++◌, ltb, length,
  replicate, add32, sub32, arith, Outcome, done, length-append, length-replicate, take_all,
  Bool-cases, ◌&&◌,
}
use mathlib.Core.List.{append-nil}
use h1z1_server.Stream.Buffer.{Stream, contents, auto_buffer, resize_persist}

-- The size is that of the block, it fits an `int`, and the index lies within.
pub record IsValid (s : Stream) : Type 0 where
  pub sized : length (contents s) ≡ s.buffer_size
  pub small : s.buffer_size < 2 ^ 31
  pub inside : s.idx ≤ s.buffer_size

-- Room for `n` more bytes: free space, or the leave and the memory to grow.
abbrev pub HasRoom : (ℕ → Bool) → Stream → ℕ → Bool → Type 0
HasRoom malloc s n force =
    (s.idx + n ≤ s.buffer_size)
    ⊎ (((s.auto_buffer || force) ≡ true)
        × (malloc (s.buffer_size + n) ≡ true)
        × (s.buffer_size + n < 2 ^ 31))

-- A stream with a prefix of zeros added behind its block, and with room for `n` bytes.
pub record Grows (s : Stream) (n : ℕ) (r : Outcome Stream Stream) : Type 0 where
  pub out : Stream
  pub returns : r ≡ done out
  pub valid : IsValid out
  pub added : ℕ
  pub at_most : added ≤ n
  pub block : contents out ≡ contents s ++ replicate added 0
  pub same_idx : out.idx ≡ s.idx
  pub same_auto : out.auto_buffer ≡ s.auto_buffer
  pub same_endian : out.big_endian ≡ s.big_endian
  pub room : s.idx + n ≤ out.buffer_size
  pub size : out.buffer_size ≡ s.buffer_size + added
  pub only_if : s.idx + n ≤ s.buffer_size → added ≡ 0

module _ (malloc : ℕ → Bool) where
  resize_persist-grow :
      (s : Stream) (n : ℕ)
      → IsValid s
      → malloc (s.buffer_size + n) ≡ true
      → resize_persist malloc s (s.buffer_size + n)
        ≡ done (record s {
          buffer = some (contents s ++ replicate n 0);
          buffer_size = s.buffer_size + n;
        })
  unfolding resize_persist
  resize_persist-grow s n v granted = ground (arith, take_all s.buffer_size (contents s))

  -- `AUTO_BUFFER` on a valid stream, with room, or with leave and memory to grow, returns a
  -- valid stream with room for the bytes asked for: the block is the old one with zeros behind
  -- it, no more of them than were asked for, and none where there was room.
  pub auto_buffer-Grows :
      (s : Stream) (n : ℕ) (force : Bool)
      → IsValid s
      → HasRoom malloc s n force
      → Grows s n (auto_buffer malloc s n force)
  unfolding auto_buffer
  auto_buffer-Grows s n force v room =
      elim (Bool-cases ((s.auto_buffer || force) && ltb (sub32 s.buffer_size s.idx) n)) [
        | inl grow ↦ record {
          out = record s {
            buffer = some (contents s ++ replicate n 0);
            buffer_size = s.buffer_size + n;
          };
          returns = rw (grow, exact (granted grow)) (resize_persist-grow s n v (granted grow).0);
          valid = record {
            sized = omega (
              arith,
              length-append (contents s) (replicate n 0),
              length-replicate {A = ℕ} n 0,
              v.sized,
            );
            small = (granted grow).1;
            inside = omega (arith, v.inside);
          };
          added = n;
          at_most = omega arith;
          block = refl;
          same_idx = refl;
          same_auto = refl;
          same_endian = refl;
          room = omega (arith, v.inside);
          size = refl;
          only_if = λ h. absurd (not_needed h grow);
        }
        | inr keep ↦ record {
          out = s;
          returns = rw keep;
          valid = v;
          added = 0;
          at_most = omega arith;
          block = sym (append-nil (contents s));
          same_idx = refl;
          same_auto = refl;
          same_endian = refl;
          room = ground (arith, v.inside, v.small);
          size = omega arith;
          only_if = λ h. refl;
        }
      ]
    where
      not_needed :
          s.idx + n ≤ s.buffer_size
          → ((s.auto_buffer || force) && ltb (sub32 s.buffer_size s.idx) n) ≡ true
          → ⊥
      not_needed h e = ground (arith, v.small)

      granted :
          ((s.auto_buffer || force) && ltb (sub32 s.buffer_size s.idx) n) ≡ true
          → (malloc (s.buffer_size + n) ≡ true) × (s.buffer_size + n < 2 ^ 31)
      granted e = ground (arith, v.inside, v.small)

      exact :
          (malloc (s.buffer_size + n) ≡ true) × (s.buffer_size + n < 2 ^ 31)
          → add32 s.buffer_size n ≡ s.buffer_size + n
      exact h = omega (arith, h.1)
