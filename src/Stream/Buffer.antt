-- ===== src/Stream/Buffer.antt =====
-- `ByteStreamBuffer` (ServerSystem/Stream/Stream.h and Stream.cpp): the state of a stream, its
-- constructors, `Resize`, and the macros that its methods share. `buffer` is the block of memory
-- that the pointer leads to, or `none` for a null pointer; an access outside the block is a fault.
-- The build is Win32: `SIZE_T` and `int` are 32 bits wide.
use h1z1_server.Base.{
  ℕ, ◌+◌, ◌-◌, ◌^◌, Bool, true, false, not, ◌&&◌, ◌||◌, Option, none, some, List, ◌++◌, ltb, leb,
  ◌==◌, if◌then◌else◌, length, take, drop, replicate, add32, sub32, minus_one, Outcome, done, threw,
  fault, null_buffer, invalid_index,
}

pub record Stream : Type 0 where
  pub allocated_inst : Bool
  pub buffer : Option (List ℕ)
  pub buffer_size : ℕ
  pub idx : ℕ
  pub auto_buffer : Bool
  pub big_endian : Bool

-- The default constructor.
unfoldable pub init_null : Stream
init_null = record {
  allocated_inst = false;
  buffer = none;
  buffer_size = 0;
  idx = minus_one;
  auto_buffer = true;
  big_endian = false;
}

-- The constructor and the `SetupBuffer` over a block that the caller owns.
unfoldable pub setup_over : Option (List ℕ) → ℕ → Bool → Bool → Stream
setup_over block size big auto = record {
  allocated_inst = false;
  buffer = block;
  buffer_size = size;
  idx = 0;
  auto_buffer = auto;
  big_endian = big;
}

unfoldable pub set_idx : Stream → ℕ → Stream
set_idx s idx = record s { idx = idx }

-- The destructor: whether it frees the block.
unfoldable pub frees : Stream → Bool
frees s = s.allocated_inst && (not (is_null s.buffer) && not (s.buffer_size == 0))
  where
    is_null : Option (List ℕ) → Bool
    is_null none = true
    is_null (some b) = false

-- What the pointer leads to; nothing, if it is null.
abbrev pub contents : Stream → List ℕ
contents s = elim s.buffer [ none ↦ List.[] | some b ↦ b ]

-- `memcpy(buffer + start, bytes, …)`. A start from 2 ^ 31 on stands for a negative `int`.
unfoldable pub store : Stream → ℕ → List ℕ → Outcome Stream Stream
store s start bytes = elim s.buffer [
  | none ↦ fault
  | some b ↦
      if ltb start (2 ^ 31) && leb (start + length bytes) (length b)
      then done
          (record s { buffer = some (take start b ++ (bytes ++ drop (start + length bytes) b)) })
      else fault
]

-- The `n` bytes at `buffer + start`.
unfoldable pub load : Stream → ℕ → ℕ → Outcome Stream (List ℕ)
load s start n = elim s.buffer [
  | none ↦ fault
  | some b ↦
      if ltb start (2 ^ 31) && leb (start + n) (length b)
      then done (take n (drop start b))
      else fault
]

-- `SAFETY_CHECK`: where the access starts, and whether the index is to move.
unfoldable pub safety_check : Stream → ℕ → Outcome Stream (ℕ × Bool)
safety_check s start = elim s.buffer [
  | none ↦ threw null_buffer s
  | some b ↦
      if s.buffer_size == 0
      then threw null_buffer s
      else if start == minus_one
      then if s.idx == minus_one then threw invalid_index s else done (s.idx, true)
      else done (start, false)
]

-- `if (incrIndex) this->idx = …`
unfoldable pub advance : Stream → Bool → ℕ → Stream
advance s incr idx = if incr then record s { idx = idx } else s

-- `malloc` and `free`: whether a request for so many bytes is granted.
module _ (malloc : ℕ → Bool) where
  -- The constructor and the `SetupBuffer` that allocate: the block is cleared before the call
  -- returns, and clearing the null pointer of a request that failed is a fault.
  unfoldable pub setup_sized : ℕ → Bool → Bool → Outcome Stream Stream
  setup_sized size big auto =
      if size == 0
      then done (make none)
      else if malloc size
      then done (make (some (replicate size 0)))
      else fault
    where
      make : Option (List ℕ) → Stream
      make block = record {
        allocated_inst = true;
        buffer = block;
        buffer_size = size;
        idx = 0;
        auto_buffer = auto;
        big_endian = big;
      }

  -- `Resize` with `persist`: the old size is copied, whatever the new one is.
  unfoldable pub resize_persist : Stream → ℕ → Outcome Stream Stream
  resize_persist s size =
      if malloc size && (leb s.buffer_size size && leb s.buffer_size (length (contents s)))
      then done (record s {
        buffer = some (take s.buffer_size (contents s) ++ replicate (size - s.buffer_size) 0);
        buffer_size = size;
      })
      else fault

  -- `Resize` without: after a request that failed the pointer is null, and it is the parameter
  -- `bufferSize` that is set to 0, not the field.
  unfoldable pub resize_clear : Stream → ℕ → Stream
  resize_clear s size =
      if malloc size
      then record s { buffer = some (replicate size 0); buffer_size = size }
      else record s { buffer = none }

  unfoldable pub resize : Stream → ℕ → Bool → Outcome Stream Stream
  unfolding resize_persist resize_clear
  resize s size persist = if persist then resize_persist s size else done (resize_clear s size)

  -- `AUTO_BUFFER` and, with `force`, `AUTO_BUFFERF`. The room left is an unsigned difference.
  unfoldable pub auto_buffer : Stream → ℕ → Bool → Outcome Stream Stream
  unfolding resize
  auto_buffer s size force =
      if (s.auto_buffer || force) && ltb (sub32 s.buffer_size s.idx) size
      then resize s (add32 s.buffer_size size) true
      else done s
