-- ===== src/Rpc/Frame.antt =====
-- Frames on the wire: protocol/header.go and protocol/message.go of swifty_rpc/internal, and the
-- PacketBuffer of transport/tcp_connection.go. A byte is a number below 256. The libraries
-- encoding/json and compress/gzip, and further compressors, are parameters (`Codecs`).
pub mod Bytes
pub mod RoundTrip
pub mod Buffer
pub mod Stream
mod Tests
use swifty_go.Prelude.{
  ℕ, suc, zero, ◌+◌, ◌*◌, ◌-◌, ◌/◌, ◌%◌, Bool, true, false, Option, none, some, List, [], ◌∷◌, ◌++◌,
  ◌&&◌, not, if◌then◌else◌, length, get_or, take, drop, replicate, ltb, leb, ◌==◌, word32, half64,
}

pub data Failure : Type 0 where
  header_is_nil compressor_not_found data_too_short invalid_magic_number : Failure
  packet_too_large incomplete_packet : Failure
  -- an error of a library
  external : Failure
  -- an index out of range
  panicked : Failure

pub data Result (A : Type 0) : Type 0 where
  ok : A → Result A
  failed : Failure → Result A

abbrev pub bind : {A B : Type 0} → Result A → (A → Result B) → Result B
bind (ok a) k = k a
bind (failed e) k = failed e

pub record Header : Type 0 where
  pub request_id : ℕ
  pub service_name : List ℕ
  pub method_name : List ℕ
  pub error : List ℕ
  pub codec_type : ℕ
  pub compression : ℕ
  pub stream_flag : ℕ

-- `none` is a nil header
pub record Message : Type 0 where
  pub header : Option Header
  pub body : List ℕ

pub record Compressor : Type 0 where
  pub compress : List ℕ → Result (List ℕ)
  pub decompress : List ℕ → Result (List ℕ)

-- the codec of JSON, and the compressors that are registered
pub record Codecs : Type 0 where
  pub marshal : Header → Result (List ℕ)
  pub unmarshal : List ℕ → Result Header
  pub get_compressor : ℕ → Option Compressor

unfoldable pub compress : Codecs → List ℕ → ℕ → Result (List ℕ)
compress c bytes t = elim (c.get_compressor t) [
  | none ↦ failed compressor_not_found
  | some z ↦ z.compress bytes
]

unfoldable pub decompress : Codecs → List ℕ → ℕ → Result (List ℕ)
decompress c bytes t = elim (c.get_compressor t) [
  | none ↦ failed compressor_not_found
  | some z ↦ z.decompress bytes
]

-- 0x1234
abbrev pub magic : ℕ
magic = 4660

-- binary.BigEndian of encoding/binary, for 16 and 32 bits
abbrev pub put16 : ℕ → List ℕ
put16 n = (n / 256 % 256) ∷ (n % 256) ∷ []

abbrev pub put32 : ℕ → List ℕ
put32 n = (n / 16777216 % 256) ∷ (n / 65536 % 256) ∷ (n / 256 % 256) ∷ (n % 256) ∷ []

abbrev pub uint16 : List ℕ → ℕ
uint16 (a ∷ b ∷ _) = a * 256 + b
uint16 _ = 0

abbrev pub uint32 : List ℕ → ℕ
uint32 (a ∷ b ∷ c ∷ d ∷ _) = a * 16777216 + b * 65536 + c * 256 + d
uint32 _ = 0

-- copy(buf[off:], src)
abbrev pub overwrite : List ℕ → ℕ → List ℕ → List ℕ
overwrite [] off src = []
overwrite (b ∷ bs) (suc off) src = b ∷ overwrite bs off src
overwrite (b ∷ bs) zero [] = b ∷ bs
overwrite (b ∷ bs) zero (x ∷ src) = x ∷ overwrite bs zero src

-- data[lo:hi]
abbrev pub slice : List ℕ → ℕ → ℕ → Result (List ℕ)
slice bytes lo hi =
    if leb lo hi && leb hi (length bytes)
    then ok (take (hi - lo) (drop lo bytes))
    else failed panicked

-- the buffer that Encode fills
unfoldable pub fill : List ℕ → List ℕ → Result (List ℕ)
fill header_bytes body_bytes =
    let header_len = length header_bytes % word32 in
    let body_len = length body_bytes % word32 in
    let total = (2 + 4 + 4 + header_len + body_len) % word32 in
    let buf = replicate total 0 in
    if leb 10 total && leb ((10 + header_len) % word32) total
    then ok (
        overwrite
          (overwrite
            (overwrite (overwrite (overwrite buf 0 (put16 magic)) 2 (put32 header_len)) 6
              (put32 body_len))
            10 header_bytes)
          ((10 + header_len) % word32) body_bytes)
    else failed panicked

unfoldable pub pack_body : Codecs → Header → List ℕ → Result (List ℕ)
pack_body c h body = if not (h.compression == 0) then compress c body h.compression else ok body

unfoldable pub encode : Codecs → Message → Result (List ℕ)
encode c msg = elim msg.header [
  | none ↦ failed header_is_nil
  | some h ↦
      bind (pack_body c h msg.body)
        (λ body_bytes. bind (c.marshal h) (λ header_bytes. fill header_bytes body_bytes))
]

unfoldable pub decode_header_len : List ℕ → ℕ
decode_header_len bytes = if ltb (length bytes) 4 then 0 else uint32 bytes

unfoldable pub decode_body_len : List ℕ → ℕ
decode_body_len bytes = if ltb (length bytes) 4 then 0 else uint32 bytes

unfoldable pub unpack_body : Codecs → Header → List ℕ → Result (List ℕ)
unpack_body c h body = if not (h.compression == 0) then decompress c body h.compression else ok body

-- what Decode does before it unmarshals the header: the header's bytes, and the body's, which it
-- cuts out later
unfoldable pub split_frame : List ℕ → Result (List ℕ × Result (List ℕ))
split_frame bytes =
    let header_len = uint32 (drop 2 bytes) in
    let body_len = uint32 (drop 6 bytes) in
    let total_len = 10 + header_len + body_len in
    let header_end = (10 + header_len) % word32 in
    if ltb (length bytes) 10
    then failed data_too_short
    else if not (uint16 bytes == magic)
    then failed invalid_magic_number
    else if leb half64 total_len
    then failed packet_too_large
    else if ltb (length bytes) total_len
    then failed incomplete_packet
    else bind (slice bytes 10 header_end) (λ header_bytes.
      ok (header_bytes, slice bytes header_end ((header_end + body_len) % word32)))

unfoldable pub decode : Codecs → List ℕ → Result Message
decode c bytes = bind (split_frame bytes) (λ parts. bind (c.unmarshal parts.0) (λ h.
    bind parts.1 (λ body_bytes.
      bind (unpack_body c h body_bytes) (λ body. ok (record { header = some h; body = body })))))

pub record PacketBuffer : Type 0 where
  pub buf : List ℕ

unfoldable pub write : PacketBuffer → List ℕ → PacketBuffer
write pb bytes = record { buf = pb.buf ++ bytes }

-- the loop that skips bytes until the buffer starts with the magic number
unfoldable pub resync : List ℕ → List ℕ
resync [] = []
resync (a ∷ []) = a ∷ []
resync (a ∷ b ∷ rest) =
    let later = resync (b ∷ rest) in if uint16 (a ∷ b ∷ []) == magic then a ∷ b ∷ rest else later

-- what Read does once the buffer starts with the magic number or is short
unfoldable pub take_frame : List ℕ → PacketBuffer × Option (List ℕ)
take_frame buf =
    let header_len = decode_header_len (take 4 (drop 2 buf)) in
    let body_len = decode_body_len (take 4 (drop 6 buf)) in
    let total_len = 10 + header_len + body_len in
    if ltb (length buf) 10
    then (record { buf = buf }, none)
    else if ltb (length buf) total_len
    then (record { buf = buf }, none)
    else (record { buf = drop total_len buf }, some (take total_len buf))

unfoldable pub read : PacketBuffer → PacketBuffer × Option (List ℕ)
read pb = take_frame (resync pb.buf)
