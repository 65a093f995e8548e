-- ===== src/Buffer.antt =====
-- `nrdpx_channel_t::buffer_t` of src/nrdpx_server.h: the bytes read from one socket and not yet
-- sent to the other. `bytes` is the allocated memory; its first `pos` bytes are the content. The
-- operations are those of the main loop of src/nrdpx_server.cpp on it.
pub mod Stream
use nuords_proxy.Prelude.{
  ℕ, ◌+◌, ◌-◌, ltb, ◌==◌, if◌then◌else◌, ◌++◌, length, take, drop, Bytes, replicate,
}

pub record Buffer : Type 0 where
  pub bytes : Bytes
  pub size : ℕ
  pub pos : ℕ

-- `NRDPX_BUFFER_SIZE_MIN`, six segments of 1460 bytes.
abbrev pub buffer_size_min : ℕ
buffer_size_min = 8760

abbrev pub buffer_size_max : ℕ
buffer_size_max = 131072

-- The constructor: `malloc` leaves the memory as it is, here zeros.
unfoldable pub empty_buffer : Buffer
empty_buffer = record { bytes = replicate buffer_size_min 0; size = buffer_size_min; pos = 0 }

abbrev pub content : Buffer → Bytes
content b = take b.pos b.bytes

-- What `recv` has written from `data + pos` on.
unfoldable pub received : Bytes → Buffer → Buffer
received bytes b = record b {
  bytes = take b.pos b.bytes ++ bytes ++ drop (b.pos + length bytes) b.bytes;
  pos = b.pos + length bytes;
}

-- `memmove(data, data + n, k)`.
unfoldable pub move_down : ℕ → ℕ → Bytes → Bytes
move_down n k bytes = take k (drop n bytes) ++ drop k bytes

-- After `send` has taken `n` bytes.
unfoldable pub consumed : ℕ → Buffer → Buffer
consumed n b =
    if n == b.pos
    then record b { pos = 0 }
    else record b { bytes = move_down n (b.pos - n) b.bytes; pos = b.pos - n }

-- `realloc`, where the buffer is to grow. What it adds is not initialised, here zeros.
unfoldable pub grow : ℕ → Buffer → Buffer
grow size b =
    if ltb b.size size
    then record b { bytes = b.bytes ++ replicate (size - b.size) 0; size = size }
    else b
