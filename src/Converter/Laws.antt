-- ===== src/Converter/Laws.antt =====
-- `Convert` undoes itself, given the same memory behind the cipher object.
use h1z1_server.Base.{
  ℕ, ◌≤◌, ◌<◌, ◌≡◌, ◌∙◌, List, length, take, drop, arith, done, sub32, length-drop,
}
use h1z1_server.Stream.Buffer.{contents}
use h1z1_server.Stream.Valid.{IsValid}
use h1z1_server.Rc4.{Crc4, init_crc4, encrypt, ready}
use h1z1_server.Rc4.Keystream.{encrypt-encrypt}
use h1z1_server.Converter.{Converter, apply_cipher, convert}
use h1z1_server.Converter.Tail.{
  init_crc4-ready, with_tail, apply_cipher-with_tail, take-with_tail, with_tail-IsValid,
  apply_cipher_twice,
}

-- With the cipher object ready, `convert` is the cipher over the tail.
convert-ready :
    (stack_key stack : List ℕ) (conv : Converter) (start : ℕ) (c : Crc4)
    → init_crc4 stack_key stack conv.enc_key conv.enc_key_len ≡ done c
    → convert stack_key stack conv start ≡ apply_cipher conv start c
unfolding convert apply_cipher
convert-ready stack_key stack conv start c e = rw (convert, e)

convert-tail :
    (stack_key stack : List ℕ) (conv : Converter) (start : ℕ) (c : Crc4) (bytes : List ℕ)
    → init_crc4 stack_key stack conv.enc_key conv.enc_key_len ≡ done c
    → convert stack_key stack (with_tail conv start bytes) start
      ≡ apply_cipher (with_tail conv start bytes) start c
convert-tail stack_key stack conv start c bytes e =
    convert-ready stack_key stack (with_tail conv start bytes) start c (unfold with_tail in e)

tail_size :
    (conv : Converter) (start : ℕ)
    → IsValid conv.buffer
    → start ≤ conv.buffer.buffer_size
    → sub32 conv.buffer.buffer_size start ≡ length (drop start (contents conv.buffer))
tail_size conv start v inside =
    omega (arith, inside, v.small, v.sized, length-drop start (contents conv.buffer))

-- With a key of 1 to 256 bytes and a start inside a valid buffer, `Convert` succeeds, keeps the
-- bytes in front of the start and the validity of the buffer, and a second `Convert`, over the
-- same stack memory, gives the first converter back.
pub convert-convert :
    (stack_key stack : List ℕ) (conv : Converter) (start : ℕ)
    → IsValid conv.buffer
    → length stack ≡ 260
    → 0 < conv.enc_key_len
    → conv.enc_key_len ≤ 256
    → conv.enc_key_len ≤ length conv.enc_key
    → start ≤ conv.buffer.buffer_size
    → (out : Converter) × (convert stack_key stack conv start ≡ done out)
      × (convert stack_key stack out start ≡ done conv)
      × IsValid out.buffer
      × (take start (contents out.buffer) ≡ take start (contents conv.buffer))
convert-convert stack_key stack conv start v room pos small fits inside = (
  with_tail conv start both.0,
  convert-ready stack_key stack conv start made.0 made.1
      ∙ apply_cipher-with_tail conv start made.0 both.1 both.0 both.2
          (omega (arith, inside, v.small)),
  convert-tail stack_key stack conv start made.0 both.0 made.1
      ∙ apply_cipher_twice conv start made.0 both.1 both.0 v inside both.4 both.3,
  with_tail-IsValid conv start both.0 v both.4,
  take-with_tail conv start both.0 (omega (arith, inside, v.sized)) both.4,
)
  where
    made :
        (c : Crc4) × (init_crc4 stack_key stack conv.enc_key conv.enc_key_len ≡ done c)
        × (ready c ≡ done c)
        × (length c.memory ≡ 260)
    made = init_crc4-ready stack_key stack conv.enc_key conv.enc_key_len room pos small fits

    both :
        (bytes : List ℕ) × (used : Crc4) × (encrypt made.0
            (drop start (contents conv.buffer))
            (sub32 conv.buffer.buffer_size start)
          ≡ done (bytes, used))
        × (encrypt made.0 bytes (sub32 conv.buffer.buffer_size start)
            ≡ done (drop start (contents conv.buffer), used))
        × (length bytes ≡ length (drop start (contents conv.buffer)))
        × (drop (sub32 conv.buffer.buffer_size start) bytes
            ≡ drop (sub32 conv.buffer.buffer_size start) (drop start (contents conv.buffer)))
    both =
        encrypt-encrypt made.0 made.0 (drop start (contents conv.buffer))
          (sub32 conv.buffer.buffer_size start) made.2 (omega (arith, made.3))
          (omega (arith, tail_size conv start v inside))
