-- ===== src/Converter/Tail.antt =====
-- What `Convert` replaces in the buffer: the bytes from the start on.
use h1z1_server.Base.{
  [], ◌∷◌, zero, suc, ℕ, ◌+◌, ◌^◌, ◌≤◌, ◌<◌, ◌≡◌, refl, sym, ◌∙◌, ap, List, ◌++◌, length, take,
  drop, set, get_or, arith, done, sub32, length-take, length-append, length-set, take-append,
  drop-append, take-append-drop, lt→ltb, le_bytes,
}
use h1z1_server.Stream.Buffer.{Stream, contents}
use h1z1_server.Stream.Valid.{IsValid}
use h1z1_server.Rc4.{Crc4, init_crc4, encrypt, initialize, ready}
use h1z1_server.Rc4.Schedule.{initialize-Rearranged, count, ascending}
use h1z1_server.Converter.{Converter, with_contents, apply_cipher}

get_or-set_self : (m : List ℕ) (i v : ℕ) → i < length m → get_or (set m i v) i 0 ≡ v
get_or-set_self [] i v h = absurd (omega arith)
get_or-set_self (x ∷ m) zero v h = refl
get_or-set_self (x ∷ m) (suc i) v h = get_or-set_self m i v (omega arith)

-- An object that was just initialized is ready.
pub init_crc4-ready :
    (stack_key stack key : List ℕ) (size : ℕ)
    → length stack ≡ 260
    → 0 < size
    → size ≤ 256
    → size ≤ length key
    → (c : Crc4) × (init_crc4 stack_key stack key size ≡ done c)
      × (ready c ≡ done c)
      × (length c.memory ≡ 260)
unfolding init_crc4 ready
init_crc4-ready stack_key stack key size room pos small fits = (
  c,
  entered.1,
  rw (get_or-set_self entered.0 256 1 (omega (arith, entered.2))),
  length-set entered.0 256 1 ∙ entered.2,
)
  where
    entered :
        (m : List ℕ) × (initialize (record { key = stack_key; memory = stack }) key size
          ≡ done (record {
            key = le_bytes 4 size ++ (take size key ++ drop (4 + size) stack_key);
            memory = set m 256 1;
          }))
        × (length m ≡ 260)
        × ((a : ℕ) → count a m ≡ count a (ascending 256 0 ++ drop 256 stack))
    entered =
        initialize-Rearranged (record { key = stack_key; memory = stack }) key size room pos small
          fits

    c : Crc4
    c = record {
      key = le_bytes 4 size ++ (take size key ++ drop (4 + size) stack_key);
      memory = set entered.0 256 1;
    }

empty : (b : List ℕ) → length b ≡ 0 → b ≡ []
empty [] h = refl
empty (x ∷ b) h = absurd (omega arith)

contents-with_contents :
    (s : Stream) (b : List ℕ) → length b ≡ length (contents s) → contents (with_contents s b) ≡ b
contents-with_contents s b h = ground (arith, empty b)

with_contents_self :
    (s : Stream) (b c : List ℕ) → c ≡ contents s → with_contents (with_contents s b) c ≡ s
with_contents_self s b c h = ground arith

-- The part of the buffer that a call with a start replaces.
unfoldable pub with_tail : Converter → ℕ → List ℕ → Converter
with_tail conv start bytes = record conv {
  buffer = with_contents conv.buffer (take start (contents conv.buffer) ++ bytes);
}

-- The contents of a converter after a call: the front as before, and the new bytes.
contents-with_tail :
    (conv : Converter) (start : ℕ) (bytes : List ℕ)
    → length bytes ≡ length (drop start (contents conv.buffer))
    → contents (with_tail conv start bytes).buffer ≡ take start (contents conv.buffer) ++ bytes
unfolding with_tail
contents-with_tail conv start bytes same =
    contents-with_contents conv.buffer (take start (contents conv.buffer) ++ bytes) (
      length-append (take start (contents conv.buffer)) bytes
      ∙ ap (◌+◌ (length (take start (contents conv.buffer)))) same
      ∙ sym (length-append (take start (contents conv.buffer)) (drop start (contents conv.buffer)))
      ∙ ap length (take-append-drop start (contents conv.buffer)))

with_tail_back :
    (conv : Converter) (start : ℕ) (bytes : List ℕ)
    → start ≤ length (contents conv.buffer)
    → length bytes ≡ length (drop start (contents conv.buffer))
    → with_tail (with_tail conv start bytes) start (drop start (contents conv.buffer)) ≡ conv
unfolding with_tail
with_tail_back conv start bytes inside same =
    ap (λ (s : Stream). record conv { buffer = s })
      (with_contents_self conv.buffer (take start (contents conv.buffer) ++ bytes) _ (
        ap (λ (front : List ℕ). front ++ drop start (contents conv.buffer)) front
        ∙ take-append-drop start (contents conv.buffer)))
  where
    front :
        take start (contents (with_tail conv start bytes).buffer)
        ≡ take start (contents conv.buffer)
    front =
        ap (take start) (contents-with_tail conv start bytes same)
        ∙ take-append start (take start (contents conv.buffer)) bytes
            (sym (length-take start (contents conv.buffer) inside))

pub apply_cipher-with_tail :
    (conv : Converter) (start : ℕ) (c used : Crc4) (bytes : List ℕ)
    → encrypt c (drop start (contents conv.buffer)) (sub32 conv.buffer.buffer_size start)
      ≡ done (bytes, used)
    → start < 2 ^ 31
    → apply_cipher conv start c ≡ done (with_tail conv start bytes)
unfolding apply_cipher with_tail
apply_cipher-with_tail conv start c used bytes e h = rw (apply_cipher, e, lt→ltb start (2 ^ 31) h)

drop-with_tail :
    (conv : Converter) (start : ℕ) (bytes : List ℕ)
    → start ≤ length (contents conv.buffer)
    → length bytes ≡ length (drop start (contents conv.buffer))
    → drop start (contents (with_tail conv start bytes).buffer) ≡ bytes
drop-with_tail conv start bytes inside same =
    ap (drop start) (contents-with_tail conv start bytes same)
    ∙ drop-append start (take start (contents conv.buffer)) bytes
        (sym (length-take start (contents conv.buffer) inside))

pub take-with_tail :
    (conv : Converter) (start : ℕ) (bytes : List ℕ)
    → start ≤ length (contents conv.buffer)
    → length bytes ≡ length (drop start (contents conv.buffer))
    → take start (contents (with_tail conv start bytes).buffer) ≡ take start (contents conv.buffer)
take-with_tail conv start bytes inside same =
    ap (take start) (contents-with_tail conv start bytes same)
    ∙ take-append start (take start (contents conv.buffer)) bytes
        (sym (length-take start (contents conv.buffer) inside))

pub with_tail-IsValid :
    (conv : Converter) (start : ℕ) (bytes : List ℕ)
    → IsValid conv.buffer
    → length bytes ≡ length (drop start (contents conv.buffer))
    → IsValid (with_tail conv start bytes).buffer
unfolding with_tail
with_tail-IsValid conv start bytes v same = record {
  sized =
      ap length (contents-with_tail conv start bytes same)
      ∙ length-append (take start (contents conv.buffer)) bytes
      ∙ ap (◌+◌ (length (take start (contents conv.buffer)))) same
      ∙ sym (length-append (take start (contents conv.buffer)) (drop start (contents conv.buffer)))
      ∙ ap length (take-append-drop start (contents conv.buffer))
      ∙ v.sized;
  small = v.small;
  inside = v.inside;
}

-- The cipher applied to what it gave.
pub apply_cipher_twice :
    (conv : Converter) (start : ℕ) (c used : Crc4) (bytes : List ℕ)
    → IsValid conv.buffer
    → start ≤ conv.buffer.buffer_size
    → length bytes ≡ length (drop start (contents conv.buffer))
    → encrypt c bytes (sub32 conv.buffer.buffer_size start)
      ≡ done (drop start (contents conv.buffer), used)
    → apply_cipher (with_tail conv start bytes) start c ≡ done conv
apply_cipher_twice conv start c used bytes v inside same e =
    apply_cipher-with_tail (with_tail conv start bytes) start c used
      (drop start (contents conv.buffer))
      (ap
          (λ (bs : List ℕ).
            encrypt c bs (sub32 (with_tail conv start bytes).buffer.buffer_size start))
          (drop-with_tail conv start bytes within same)
        ∙ unfold with_tail in e)
      (omega (arith, inside, v.small))
    ∙ ap done (with_tail_back conv start bytes within same)
  where
    within : start ≤ length (contents conv.buffer)
    within = omega (arith, inside, v.sized)
