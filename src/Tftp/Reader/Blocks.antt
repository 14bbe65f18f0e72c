-- ===== src/Tftp/Reader/Blocks.antt =====
-- tftp_reader against the file that it reads: after k calls of next it holds block k + 1.
use bootpd.Common.{
  ℕ, zero, suc, ◌+◌, ◌-◌, ◌*◌, ◌^◌, ◌≤◌, ◌<◌, ◌≡◌, refl, sym, ap, ◌∙◌, min, [], ◌∷◌, append-nil,
  Bytes, length, take, drop, length-take, length-drop, ltb, false, ◌⊎◌, arith,
}
use bootpd.Tftp.Reader.{Stream, TftpReader, read_into, next, tftp_reader, last, u64}

-- What std::ifstream documents for a file opened in binary mode: a read gives the bytes that are there.
abbrev pub Streams : Stream → Bytes → Type 0
Streams stream contents =
    (offset count : ℕ) → stream offset count ≡ take count (drop offset contents)

take-min : (xs : Bytes) (n : ℕ) → take (min (length xs) n) xs ≡ take n xs
take-min [] zero = refl
take-min [] (suc n) = let e : min 0 (suc n) ≡ 0 = omega arith in rw e
take-min (x ∷ xs) zero = let e : min (suc (length xs)) 0 ≡ 0 = omega arith in rw e
take-min (x ∷ xs) (suc n) =
    let e : min (suc (length xs)) (suc n) ≡ suc (min (length xs) n) = omega arith in
    rw e (ap (◌∷◌ x) (take-min xs n))

take_twice : (n : ℕ) (xs : Bytes) → take n (take n xs) ≡ take n xs
take_twice zero xs = refl
take_twice (suc n) [] = refl
take_twice (suc n) (x ∷ xs) = ap (◌∷◌ x) (take_twice n xs)

-- A read of all that is left, or of one block, fills the buffer.
read_into-take :
    (stream : Stream) (contents : Bytes) (offset n : ℕ)
    → Streams stream contents
    → read_into stream offset (min (length contents - offset) n) ≡ take n (drop offset contents)
read_into-take stream contents offset n h =
    let rest = drop offset contents in
    let count = min (length contents - offset) n in
    let e : count ≡ min (length rest) n = rw (length-drop offset contents) in
    let full : count - length (take count rest) ≡ 0 =
      omega (arith, length-take count rest, length-drop offset contents) in
    rw (h offset count, take_twice count rest, full, append-nil) (rw e (take-min rest n))

-- The reader holds block `k` (counted from 0) of the file.
pub record IsAt (contents : Bytes) (blksiz k : ℕ) (r : TftpReader) : Type 0 where
  pub streams : Streams r.stream contents
  pub of_length : r.file_length ≡ length contents
  pub of_blksiz : r.blksiz ≡ blksiz
  pub fits : length contents + blksiz < 2 ^ 64
  pub positive : 0 < blksiz
  pub within : k * blksiz ≤ length contents
  pub of_number : r.number ≡ k + 1
  pub of_buffer : r.buffer ≡ take blksiz (drop (k * blksiz) contents)

-- The offsets of a file that fits 64 bits do not wrap.
offset_exact : (k b n : ℕ) → k * b ≤ n → n + b < 2 ^ 64 → u64 (k * b) ≡ k * b
offset_exact k b n h fits = omega arith

count_exact : (n b o : ℕ) → o ≤ n → n + b < 2 ^ 64 → u64 (n + 2 ^ 64 - o) ≡ n - o
count_exact n b o h fits = omega arith

blocks_bound : (k b n : ℕ) → 0 < b → k * b ≤ n → k ≤ n
blocks_bound k b n p h = grind arith

-- One step of next, from any reader whose number is the block to read.
next-IsAt :
    (contents : Bytes) (blksiz k : ℕ) (r : TftpReader)
    → Streams r.stream contents
    → r.file_length ≡ length contents
    → r.blksiz ≡ blksiz
    → length contents + blksiz < 2 ^ 64
    → 0 < blksiz
    → k * blksiz ≤ length contents
    → r.number ≡ k
    → IsAt contents blksiz k (next r)
unfolding next
next-IsAt contents b k r hs hl hb fits pos within hn = record {
  streams = hs;
  of_length = hl;
  of_blksiz = hb;
  fits = fits;
  positive = pos;
  within = within;
  of_number = rw hn (omega (arith, blocks_bound k b (length contents) pos within));
  of_buffer =
      rw
        (
          hl,
          hb,
          hn,
          offset_exact k b (length contents) within fits,
          count_exact (length contents) b (k * b) within fits,
        )
        (read_into-take r.stream contents (k * b) b hs);
}

-- The constructor, given the size of the file or 0, reads block 0.
pub tftp_reader-IsAt :
    (stream : Stream) (contents : Bytes) (length_ blksiz : ℕ)
    → Streams stream contents
    → (length_ ≡ 0) ⊎ (length_ ≡ length contents)
    → length contents + blksiz < 2 ^ 64
    → 0 < blksiz
    → IsAt contents blksiz 0 (tftp_reader stream (length contents) length_ blksiz)
unfolding tftp_reader
tftp_reader-IsAt stream contents length_ b hs hl fits pos =
    next-IsAt contents b 0 _ hs (ground arith) refl fits pos (omega arith) refl

-- A reader that stands at block k says that it is the last exactly where less than a whole block is
-- left of the file.
pub last-IsAt :
    (contents : Bytes) (blksiz k : ℕ) (r : TftpReader)
    → IsAt contents blksiz k r
    → last r ≡ ltb (length contents) (k * blksiz + blksiz)
unfolding last
last-IsAt contents b k r h =
    rw
      (
        h.of_buffer,
        h.of_blksiz,
        length-take b (drop (k * b) contents),
        length-drop (k * b) contents,
      )
      (shift (length contents) (k * b) b h.within)
  where
    shift : (n o b : ℕ) → o ≤ n → ltb (min b (n - o)) b ≡ ltb n (o + b)
    shift n o b w = ground arith

-- A reader that stands at block k of a file that fits 64 bits, and says that it is not the last,
-- stands at block k + 1 after next.
pub next_block :
    (contents : Bytes) (blksiz k : ℕ) (r : TftpReader)
    → IsAt contents blksiz k r
    → last r ≡ false
    → IsAt contents blksiz (k + 1) (next r)
next_block contents b k r h e =
    next-IsAt contents b (k + 1) r h.streams h.of_length h.of_blksiz h.fits h.positive
      (more (length contents) k b (sym (last-IsAt contents b k r h) ∙ e)) h.of_number
  where
    more : (n k b : ℕ) → ltb n (k * b + b) ≡ false → (k + 1) * b ≤ n
    more n k b e = ground arith
