-- ===== src/Tftp/Reader.antt =====
-- bootpd/tftp_reader.cpp: the blocks of a file, in order. The counters are 64 bits wide.
pub mod Blocks
use bootpd.Common.{
  ℕ, ◌+◌, ◌-◌, ◌*◌, ◌%◌, ◌^◌, ◌++◌, min, Bytes, length, take, replicate, Bool, ltb, ◌==◌,
  if◌then◌else◌,
}
use bootpd.Tftp.Packet.{Payload, make_data}

-- An open file: the bytes that seekg to an offset and a read of so many bytes give.
abbrev pub Stream : Type 0
Stream = ℕ → ℕ → Bytes

abbrev pub u64 : ℕ → ℕ
u64 n = n % 2 ^ 64

pub record TftpReader : Type 0 where
  pub stream : Stream
  pub file_length : ℕ
  pub blksiz : ℕ
  pub buffer : Bytes
  pub number : ℕ

-- resize to `count` zero bytes, and a read over their front.
abbrev pub read_into : Stream → ℕ → ℕ → Bytes
read_into stream offset count =
    let got = take count (stream offset count) in got ++ replicate (count - length got) 0

unfoldable pub next : TftpReader → TftpReader
next r =
    let offset = u64 (r.number * r.blksiz) in
    let count = min (u64 (r.file_length + 2 ^ 64 - offset)) r.blksiz in
    record r { buffer = read_into r.stream offset count; number = u64 (r.number + 1) }

-- The constructor; `file_size` is std::filesystem::file_size of the path.
unfoldable pub tftp_reader : Stream → ℕ → ℕ → ℕ → TftpReader
tftp_reader stream file_size length_ blksiz = next (record {
  stream = stream;
  file_length = if length_ == 0 then file_size else length_;
  blksiz = blksiz;
  buffer = replicate blksiz 0;
  number = 0;
})

unfoldable pub data_ : TftpReader → Payload
data_ r = make_data (r.number % 2 ^ 16) r.buffer

unfoldable pub last : TftpReader → Bool
last r = ltb (length r.buffer) r.blksiz

unfoldable pub size : TftpReader → ℕ
size r = length r.buffer

unfoldable pub total_size : TftpReader → ℕ
total_size r = r.file_length
