-- ===== src/Rpc/Frame/Tests.antt =====
-- Runs of Encode, Decode and the PacketBuffer of swifty_rpc/internal on concrete bytes.
use swifty_go.Prelude.{
  ℕ, ◌≡◌, refl, arith, Option, some, none, List, [], ◌∷◌, ◌++◌, ◌==◌, if◌then◌else◌,
}
use swifty_go.Rpc.Frame.{
  Result, ok, failed, external, Header, Compressor, Codecs, pack_body, compress, encode, decode,
  write, read,
}
use swifty_go.Rpc.Frame.RoundTrip.{frame, decode-encode}
use swifty_go.Rpc.Frame.Buffer.{read-parts}
use swifty_go.Rpc.Frame.Stream.{stream, reads, reads-stream}

-- a header that is its request's number
abbrev request : ℕ → Header
request n = record {
  request_id = n;
  service_name = [];
  method_name = [];
  error = [];
  codec_type = 1;
  compression = 1;
  stream_flag = 0;
}

abbrev parse : List ℕ → Result Header
parse (n ∷ []) = ok (request n)
parse _ = failed external

-- a compressor that marks what it compressed
abbrev unmark : List ℕ → Result (List ℕ)
unmark (m ∷ bs) = if m == 9 then ok bs else failed external
unmark [] = failed external

abbrev marking : Compressor
marking = record { compress = λ bs. ok (9 ∷ bs); decompress = unmark }

abbrev registered : ℕ → Option Compressor
registered t = if t == 1 then some marking else none

abbrev codecs : Codecs
codecs = record {
  marshal = λ h. ok (h.request_id ∷ []);
  unmarshal = parse;
  get_compressor = registered;
}

marking_back :
    (t : ℕ) (z : Compressor) (d e : List ℕ)
    → codecs.get_compressor t ≡ some z
    → z.compress d ≡ ok e
    → z.decompress e ≡ ok d
marking_back t z d e r c = grind arith

packed_body : pack_body codecs (request 5) (65 ∷ []) ≡ ok (9 ∷ 65 ∷ [])
unfolding pack_body compress
packed_body = refl

decode-encode_example :
    (encode codecs (record { header = some (request 5); body = 65 ∷ [] })
      ≡ ok (18 ∷ 52 ∷ 0 ∷ 0 ∷ 0 ∷ 1 ∷ 0 ∷ 0 ∷ 0 ∷ 2 ∷ 5 ∷ 9 ∷ 65 ∷ []))
    × (decode codecs (frame (5 ∷ []) (9 ∷ 65 ∷ []) ++ (77 ∷ []))
        ≡ ok (record { header = some (request 5); body = 65 ∷ [] }))
decode-encode_example =
    decode-encode codecs (request 5) (65 ∷ []) (9 ∷ 65 ∷ []) (5 ∷ []) (77 ∷ []) marking_back refl
      refl packed_body (omega arith)

read-parts_example :
    (read (write (record { buf = [] }) (18 ∷ 52 ∷ 0 ∷ []))
      ≡ (record { buf = 18 ∷ 52 ∷ 0 ∷ [] }, none))
    × (read
          (write (record { buf = 18 ∷ 52 ∷ 0 ∷ [] }) (0 ∷ 0 ∷ 1 ∷ 0 ∷ 0 ∷ 0 ∷ 1 ∷ 5 ∷ 65 ∷ 18 ∷ []))
        ≡ (record { buf = 18 ∷ [] }, some (frame (5 ∷ []) (65 ∷ []))))
read-parts_example = read-parts (5 ∷ []) (65 ∷ []) (18 ∷ []) 3 (omega arith) (omega arith)

abbrev two_frames : List (List ℕ × List ℕ)
two_frames = (5 ∷ [], 65 ∷ []) ∷ (6 ∷ [], []) ∷ []

reads-stream_example :
    reads (record { buf = stream two_frames ++ (18 ∷ []) }) 2
    ≡ (record { buf = 18 ∷ [] }, some (frame (5 ∷ []) (65 ∷ [])) ∷ some (frame (6 ∷ []) []) ∷ [])
reads-stream_example = reads-stream two_frames (18 ∷ []) (omega arith, (omega arith, tt))
