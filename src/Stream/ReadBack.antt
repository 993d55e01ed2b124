-- ===== src/Stream/ReadBack.antt =====
-- A reader over the block of a writer, set to where the writer started.
use h1z1_server.Base.{
  ℕ, ◌≡◌, sym, ◌∙◌, ap, List, ◌++◌, drop, arith, Outcome, take-append-drop, drop-append,
  length-take,
}
use mathlib.Core.List.{append_assoc}
use h1z1_server.Stream.Buffer.{Stream, contents, set_idx}
use h1z1_server.Stream.Reader.{init_reader}
use h1z1_server.Stream.Valid.{IsValid}
use h1z1_server.Stream.Appends.{Appends, written}
use h1z1_server.Stream.Consumes.{remaining}

abbrev pub reader_at : Stream → ℕ → Stream
reader_at t start = set_idx (init_reader t.buffer t.buffer_size t.big_endian) start

module _ (s : Stream) (v : IsValid s) (n : ℕ) (bytes : List ℕ) (r : Outcome Stream Stream)
    (a : Appends s n bytes r) where
  pub reader_at-IsValid : IsValid (reader_at a.out s.idx)
  unfolding init_reader set_idx
  reader_at-IsValid = record {
    sized = a.valid.sized;
    small = a.valid.small;
    inside = omega (arith, a.grown, v.inside);
  }

  pub remaining-reader_at : remaining (reader_at a.out s.idx) ≡ bytes ++ remaining a.out
  unfolding init_reader set_idx
  remaining-reader_at =
      ap (drop s.idx) (block ∙ append_assoc (written s) bytes (remaining a.out))
      ∙ drop-append s.idx (written s) (bytes ++ remaining a.out)
          (omega (arith, length-take s.idx (contents s) (omega (arith, v.inside, v.sized))))
    where
      block : contents a.out ≡ (written s ++ bytes) ++ remaining a.out
      block =
          sym (take-append-drop a.out.idx (contents a.out))
          ∙ ap (λ (xs : List ℕ). xs ++ remaining a.out) a.appended

  pub reader_at-endian : (reader_at a.out s.idx).big_endian ≡ s.big_endian
  unfolding init_reader set_idx
  reader_at-endian = a.same_endian
