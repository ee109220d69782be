-- ===== src/Amqp/Buffer.antt =====
-- src/internal/app-transport/amqp-handler.cpp: `Buffer`, a byte buffer of a fixed capacity.
pub mod Content
use limb_worker.Prelude.{
  Bytes, ℕ, ◌+◌, ◌-◌, ◌%◌, ◌^◌, List, ◌++◌, ◌==◌, ltb, if◌then◌else◌, length, take, drop, replicate,
}

-- `m_data`, of the capacity's length, and `m_use`.
pub record Buffer : Type 0 where
  pub bytes : Bytes
  pub used : ℕ

-- `memcpy` of `source` to the offset.
abbrev pub copy_to : ℕ → Bytes → Bytes → Bytes
copy_to offset source target =
    take offset target ++ (source ++ drop (offset + length source) target)

-- How many of `size` bytes are written; the sum is a `size_t`.
abbrev pub write_size : Buffer → ℕ → ℕ
write_size b size =
    if ltb ((size + b.used) % 2 ^ 64) (length b.bytes) then size else length b.bytes - b.used

-- `data` and `size` of the source are one list here; the result is how many bytes were taken.
unfoldable pub write : Buffer → Bytes → Buffer × ℕ
write b bytes =
    let count = write_size b (length bytes) in
    if b.used == length b.bytes then (b, 0) else (
      record { bytes = copy_to b.used (take count bytes) b.bytes; used = b.used + count },
      count,
    )

abbrev pub drain : Buffer → Buffer
drain b = record b { used = 0 }

-- For a count of at most the used bytes, as in its call; a larger one would wrap.
abbrev pub shl : Buffer → ℕ → Buffer
shl b count = record {
  bytes = copy_to 0 (take (b.used - count) (drop count b.bytes)) b.bytes;
  used = b.used - count;
}

-- The constructor: `replicate` is the vector of zeros.
abbrev pub make_buffer : ℕ → Buffer
make_buffer size = record { bytes = replicate size 0; used = 0 }

-- What stands at `data()`, of `available()` bytes.
abbrev pub content : Buffer → Bytes
content b = take b.used b.bytes
