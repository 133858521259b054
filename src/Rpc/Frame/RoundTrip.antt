-- ===== src/Rpc/Frame/RoundTrip.antt =====
-- What Encode writes, Decode reads (swifty_rpc/internal/protocol/message.go).
use mathlib.Core.List.{append_assoc}
use swifty_go.Prelude.{
  ℕ, ◌+◌, ◌%◌, ◌≡◌, ◌≤◌, ◌<◌, refl, ap, ◌∙◌, arith, List, [], ◌++◌, length, replicate,
  length-append, append-nil, leb, ◌&&◌, if◌then◌else◌, word32, half64, ltb, some,
}
use swifty_go.Rpc.Frame.{
  Result, ok, bind, Header, Compressor, Codecs, compress, decompress, put16, put32, overwrite,
  slice, magic, fill, pack_body, encode, unpack_body, split_frame, decode,
}
use swifty_go.Rpc.Frame.Bytes.{uint32-put32, overwrite-replicate, slice-middle}

-- the magic number and the two lengths
abbrev pub prefix_of : List ℕ → List ℕ → List ℕ
prefix_of h b = put16 magic ++ (put32 (length h) ++ put32 (length b))

-- the layout of a frame: its prefix, the header, the body
abbrev pub frame : List ℕ → List ℕ → List ℕ
frame h b = prefix_of h b ++ (h ++ b)

small-mod : (n : ℕ) → n < word32 → n % word32 ≡ n
small-mod n h = omega arith

-- the buffer after its five writes
writes-frame :
    (h b : List ℕ) (total header_end : ℕ)
    → total ≡ 10 + length h + length b
    → header_end ≡ 10 + length h
    → overwrite
        (overwrite
          (overwrite
            (overwrite (overwrite (replicate total 0) 0 (put16 magic)) 2 (put32 (length h)))
            6
            (put32 (length b)))
          10
          h)
        header_end
        b
      ≡ frame h b
writes-frame h b total header_end t e =
    let n = length h in
    let m = length b in
    let one = overwrite-replicate [] (put16 magic) total (8 + n + m) 0 refl (omega arith) in
    let two =
      overwrite-replicate (put16 magic) (put32 n) (8 + n + m) (4 + n + m) 2 refl (omega arith) in
    let three =
      overwrite-replicate (put16 magic ++ put32 n) (put32 m) (4 + n + m) (n + m) 6 refl
        (omega arith) in
    let four = overwrite-replicate (prefix_of h b) h (n + m) m 10 refl refl in
    let five =
      overwrite-replicate (prefix_of h b ++ h) b m 0 header_end (omega arith) (omega arith) in
    ap
      (λ buf.
        overwrite (overwrite (overwrite (overwrite buf 2 (put32 n)) 6 (put32 m)) 10 h) header_end b)
      one
    ∙ ap (λ buf. overwrite (overwrite (overwrite buf 6 (put32 m)) 10 h) header_end b) two
    ∙ ap (λ buf. overwrite (overwrite buf 10 h) header_end b) three
    ∙ ap (λ buf. overwrite buf header_end b) four
    ∙ five
    ∙ append-nil ((prefix_of h b ++ h) ++ b)

guard-both :
    {A : Type 0} (a b c d : ℕ) (x y : A) → a ≤ b → c ≤ d → (if leb a b && leb c d then x else y) ≡ x
guard-both a b c d x y h k = ground arith

-- the tests of Decode on the lengths
guards-pass :
    {A : Type 0} (size total : ℕ) (short large partial x : A)
    → 10 ≤ size
    → total < half64
    → total ≤ size
    → (if ltb size 10
        then short
        else if leb half64 total
        then large
        else if ltb size total
        then partial
        else x)
      ≡ x
guards-pass size total short large partial x h k l = ground arith

-- the two slices of Decode
slices-parts :
    (h b rest : List ℕ) (header_end total : ℕ)
    → header_end ≡ 10 + length h
    → total ≡ 10 + length h + length b
    → bind {B = List ℕ × Result (List ℕ)}
        (slice (frame h b ++ rest) 10 header_end)
        (λ header_bytes. ok (header_bytes, slice (frame h b ++ rest) header_end total))
      ≡ ok (h, ok b)
slices-parts h b rest header_end total e t =
    let nested : (h ++ b) ++ rest ≡ h ++ (b ++ rest) = append_assoc h b rest in
    let cut_header = slice-middle (prefix_of h b) h (b ++ rest) 10 header_end refl e in
    let cut_body =
      slice-middle (prefix_of h b ++ h) b rest header_end total (omega arith) (omega arith) in
    let parts : List ℕ → Result (List ℕ) → Result (List ℕ × Result (List ℕ)) =
      λ d r. bind {B = List ℕ × Result (List ℕ)} r (λ hs. ok (hs, slice d header_end total)) in
    ap (λ d. parts (prefix_of h b ++ d) (slice (prefix_of h b ++ d) 10 header_end)) nested
    ∙ ap (parts (prefix_of h b ++ (h ++ (b ++ rest)))) cut_header
    ∙ ap (λ r. ok (h, r)) cut_body

-- The buffer that Encode fills is the frame, unless it has 2 ^ 32 bytes or more.
fill-frame : (h b : List ℕ) → 10 + length h + length b < word32 → fill h b ≡ ok (frame h b)
unfolding fill
fill-frame h b small =
    let total = small-mod (10 + length h + length b) small in
    let header = small-mod (length h) (omega arith) in
    let body = small-mod (length b) (omega arith) in
    let header_end = small-mod (10 + length h) (omega arith) in
    rw (header, body, total, header_end)
      (guard-both 10 (10 + length h + length b) (10 + length h) (10 + length h + length b) _ _
          (omega arith) (omega arith)
        ∙ ap ok (writes-frame h b (10 + length h + length b) (10 + length h) refl refl))

-- Whatever follows a frame, its header and its body are cut out of it.
split_frame-frame :
    (h b rest : List ℕ)
    → 10 + length h + length b < word32
    → split_frame (frame h b ++ rest) ≡ ok (h, ok b)
unfolding split_frame
split_frame-frame h b rest small =
    let header_len = uint32-put32 (length h) (put32 (length b) ++ (h ++ b) ++ rest) (omega arith) in
    let body_len = uint32-put32 (length b) ((h ++ b) ++ rest) (omega arith) in
    rw
      (
        header_len,
        body_len,
        small-mod (10 + length h) (omega arith),
        small-mod (10 + length h + length b) small,
      )
      (guards-pass (length (frame h b ++ rest)) (10 + length h + length b) _ _ _ _ (omega arith)
          (omega arith) (omega (arith, length-append (h ++ b) rest, length-append h b))
        ∙ slices-parts h b rest (10 + length h) (10 + length h + length b) refl refl)

decompress-compress :
    (c : Codecs) (body packed : List ℕ) (t : ℕ)
    → ((t : ℕ) (z : Compressor) (d e : List ℕ)
        → c.get_compressor t ≡ some z
        → z.compress d ≡ ok e
        → z.decompress e ≡ ok d)
    → compress c body t ≡ ok packed
    → decompress c packed t ≡ ok body
unfolding compress decompress
decompress-compress c body packed t law p = grind arith

unpack_body-pack_body :
    (c : Codecs) (h : Header) (body packed : List ℕ)
    → ((t : ℕ) (z : Compressor) (d e : List ℕ)
        → c.get_compressor t ≡ some z
        → z.compress d ≡ ok e
        → z.decompress e ≡ ok d)
    → pack_body c h body ≡ ok packed
    → unpack_body c h packed ≡ ok body
unfolding pack_body unpack_body
unpack_body-pack_body c h body packed law p =
    ground (arith, decompress-compress c body packed h.compression law)

-- Of a message with a header, whose body is compressed to `packed` and whose header is marshalled
-- to `header_bytes`, Encode makes the frame of these if it is shorter than 2 ^ 32 bytes, and Decode
-- gives the message back from this frame, whatever bytes follow it. The libraries are assumed to
-- read what they wrote: decompression the compressed bytes, and unmarshalling this header.
pub decode-encode :
    (c : Codecs) (h : Header) (body packed header_bytes rest : List ℕ)
    → ((t : ℕ) (z : Compressor) (d e : List ℕ)
        → c.get_compressor t ≡ some z
        → z.compress d ≡ ok e
        → z.decompress e ≡ ok d)
    → c.marshal h ≡ ok header_bytes
    → c.unmarshal header_bytes ≡ ok h
    → pack_body c h body ≡ ok packed
    → 10 + length header_bytes + length packed < word32
    → (encode c (record { header = some h; body = body }) ≡ ok (frame header_bytes packed))
      × (decode c (frame header_bytes packed ++ rest)
          ≡ ok (record { header = some h; body = body }))
unfolding encode decode
decode-encode c h body packed header_bytes rest law m u p small = (
  rw (p, m) (fill-frame header_bytes packed small),
  rw (
    split_frame-frame header_bytes packed rest small,
    u,
    unpack_body-pack_body c h body packed law p,
  ),
)
