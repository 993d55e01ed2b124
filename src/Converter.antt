-- ===== src/Converter.antt =====
-- `Networking::StreamConverter` (SonyNetworking/Networking): the cipher over the buffer of a
-- stream. A converter that is initialized from a stream shares its block: the block of `buffer`
-- after a call is what the stream's pointer leads to as well.
pub mod Tail
pub mod Laws
use h1z1_server.Base.{
  ℕ, ◌^◌, Bool, true, false, List, ◌++◌, Option, none, some, ltb, if◌then◌else◌, take, drop, sub32,
  Outcome, done, threw, fault, ◌>>=◌,
}
use h1z1_server.Stream.Buffer.{Stream, contents, setup_over}
use h1z1_server.Rc4.{Crc4, init_crc4, encrypt}

pub record Converter : Type 0 where
  pub buffer : Stream
  pub enc_key : List ℕ
  pub enc_key_len : ℕ

-- The constructors and `Initialize` from a writer or a reader: a buffer of its own over the
-- block of the stream, which it does not free.
unfoldable pub from_stream : Stream → List ℕ → ℕ → Converter
unfolding setup_over
from_stream s key len = record {
  buffer = setup_over s.buffer s.buffer_size s.big_endian s.auto_buffer;
  enc_key = key;
  enc_key_len = len;
}

-- `Initialize` from a buffer copies all of its members, the one that says who frees included.
unfoldable pub from_buffer : Stream → List ℕ → ℕ → Converter
from_buffer s key len = record { buffer = s; enc_key = key; enc_key_len = len }

-- New bytes behind the pointer of a stream.
abbrev pub with_contents : Stream → List ℕ → Stream
with_contents s b = record s { buffer = elim s.buffer [ none ↦ none | some old ↦ some b ] }

-- The rest of `Convert`, with the cipher at hand. The size is an `int` difference, taken as
-- unsigned.
unfoldable pub apply_cipher : Converter → ℕ → Crc4 → Outcome Converter Converter
apply_cipher conv start c =
    elim (encrypt c (drop start (contents conv.buffer)) (sub32 conv.buffer.buffer_size start)) [
      | done (bytes, used) ↦
          if ltb start (2 ^ 31)
          then done (record conv {
            buffer = with_contents conv.buffer (take start (contents conv.buffer) ++ bytes);
          })
          else fault
      | threw e c ↦ threw e conv
      | fault ↦ fault
    ]

-- `Convert`. The cipher object stands on the stack, over memory that nothing has been written to:
-- `stack_key` and `stack` are what is found there.
unfoldable pub convert : List ℕ → List ℕ → Converter → ℕ → Outcome Converter Converter
convert stack_key stack conv start =
    elim (init_crc4 stack_key stack conv.enc_key conv.enc_key_len) [
      | done c ↦ apply_cipher conv start c
      | threw e c ↦ threw e conv
      | fault ↦ fault
    ]
