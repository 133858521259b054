-- ===== src/Rpc/Frame/Buffer.antt =====
-- How frames come out of the PacketBuffer, in which chunks their bytes may go in
-- (swifty_rpc/internal/transport/tcp_connection.go).
use swifty_go.Prelude.{
  ℕ, suc, zero, ◌+◌, ◌-◌, ◌≡◌, ◌≢◌, ◌≤◌, ◌<◌, ◌⊎◌, inl, inr, refl, sym, ap, subst, ◌∙◌, arith, List,
  [], ◌∷◌, ◌++◌, length, take, drop, take-append-drop, length-append, length-take, word32, some,
  none,
}
use swifty_go.Rpc.Frame.{decode_header_len, decode_body_len, write, resync, take_frame, read}
use swifty_go.Rpc.Frame.Bytes.{uint32-put32, take-append, drop-append}
use swifty_go.Rpc.Frame.RoundTrip.{prefix_of, frame}

resync-magic : (r : List ℕ) → resync (18 ∷ 52 ∷ r) ≡ 18 ∷ 52 ∷ r
unfolding resync
resync-magic r = refl

-- the two lengths in a prefix that is there as a whole
lengths-prefix_of :
    (h b r : List ℕ)
    → 10 + length h + length b < word32
    → (decode_header_len (take 4 (drop 2 (prefix_of h b ++ r))) ≡ length h)
      × (decode_body_len (take 4 (drop 6 (prefix_of h b ++ r))) ≡ length b)
unfolding decode_header_len decode_body_len
lengths-prefix_of h b r small =
    (uint32-put32 (length h) [] (omega arith), uint32-put32 (length b) [] (omega arith))

-- the decision of Read, from the lengths that the buffer has and tells
take_frame-decides :
    (buf : List ℕ) (hl bl : ℕ)
    → decode_header_len (take 4 (drop 2 buf)) ≡ hl
    → decode_body_len (take 4 (drop 6 buf)) ≡ bl
    → (length buf < 10 + hl + bl → take_frame buf ≡ (record { buf = buf }, none))
      × (10 + hl + bl ≤ length buf
          → take_frame buf
            ≡ (record { buf = drop (10 + hl + bl) buf }, some (take (10 + hl + bl) buf)))
unfolding take_frame
take_frame-decides buf hl bl h b = ground arith

take_frame-short : (buf : List ℕ) → length buf < 10 → take_frame buf ≡ (record { buf = buf }, none)
unfolding take_frame
take_frame-short buf h = ground arith

-- the sizes of a frame
length-frame : (h b : List ℕ) → 10 + length h + length b ≡ length (frame h b)
length-frame h b = omega (arith, length-append h b)

-- A buffer that starts with a frame gives out exactly this frame, and keeps what follows.
pub read-frame :
    (h b rest : List ℕ)
    → 10 + length h + length b < word32
    → read (record { buf = frame h b ++ rest }) ≡ (record { buf = rest }, some (frame h b))
unfolding read
read-frame h b rest small =
    let buf = frame h b ++ rest in
    let size = length-frame h b in
    let lengths = lengths-prefix_of h b ((h ++ b) ++ rest) small in
    let enough = (take_frame-decides buf (length h) (length b) lengths.0 lengths.1).1 in
    ap take_frame (resync-magic (drop 2 buf))
    ∙ enough (omega (arith, length-append (frame h b) rest))
    ∙ ap (λ d. (record { buf = d }, some (take (10 + length h + length b) buf)))
        (drop-append (frame h b) rest (10 + length h + length b) size)
    ∙ ap (λ t. (record { buf = rest }, some t))
        (take-append (frame h b) rest (10 + length h + length b) size)

resync-take : (k : ℕ) (r : List ℕ) → resync (take k (18 ∷ 52 ∷ r)) ≡ take k (18 ∷ 52 ∷ r)
unfolding resync
resync-take zero r = refl
resync-take (suc zero) r = refl
resync-take (suc (suc k)) r = refl

lt-or-le : (a b : ℕ) → (a < b) ⊎ (b ≤ a)
lt-or-le a b = ground arith

-- a part of a frame
take_frame-take :
    (h b rest : List ℕ) (k j : ℕ)
    → 10 + length h + length b < word32
    → k < 10 + length h + length b
    → (10 ≤ k → k ≡ suc (suc (suc (suc (suc (suc (suc (suc (suc (suc j))))))))))
    → take_frame (take k (frame h b ++ rest)) ≡ (record { buf = take k (frame h b ++ rest) }, none)
take_frame-take h b rest k j small part e = elim (lt-or-le k 10) [
  | inl short ↦
      take_frame-short (take k (frame h b ++ rest))
        (omega (arith, length-take k (frame h b ++ rest)))
  | inr long ↦
      let tail = (h ++ b) ++ rest in
      let kept = take j tail in
      let lengths = lengths-prefix_of h b kept small in
      let wait =
        (take_frame-decides (prefix_of h b ++ kept) (length h) (length b) lengths.0 lengths.1).0 in
      let k_is = e long in
      let same : take k (frame h b ++ rest) ≡ prefix_of h b ++ kept =
        ap (λ (i : ℕ). take i (frame h b ++ rest)) k_is in
      subst (λ d. take_frame d ≡ (record { buf = d }, none)) (sym same)
        (wait (omega (arith, length-take j tail)))
]

-- A frame of less than 2 ^ 32 bytes that arrives in two parts, the second one with bytes of later
-- frames behind it, comes out once it is there as a whole: a read after the first part gives nothing
-- and changes nothing, a read after the second gives exactly the frame and leaves the later bytes in
-- the buffer.
pub read-parts :
    (h b rest : List ℕ) (k : ℕ)
    → 10 + length h + length b < word32
    → k < 10 + length h + length b
    → (read (write (record { buf = [] }) (take k (frame h b ++ rest)))
        ≡ (record { buf = take k (frame h b ++ rest) }, none))
      × (read (write (record { buf = take k (frame h b ++ rest) }) (drop k (frame h b ++ rest)))
          ≡ (record { buf = rest }, some (frame h b)))
unfolding read write
read-parts h b rest k small part = (
  ap take_frame (resync-take k (drop 2 (frame h b ++ rest)))
      ∙ take_frame-take h b rest k (k - 10) small part (λ long. omega arith),
  ap (λ d. read (record { buf = d })) (take-append-drop k (frame h b ++ rest))
      ∙ read-frame h b rest small,
)

-- bytes that no magic number starts with
abbrev pub IsGarbage : List ℕ → Type 0
IsGarbage [] = Unit {0}
IsGarbage (g ∷ gs) = (g < 256) × (g ≢ 18) × IsGarbage gs

resync-skip : (a b : ℕ) (r : List ℕ) → a ≢ 18 → b < 256 → resync (a ∷ b ∷ r) ≡ resync (b ∷ r)
unfolding resync
resync-skip a b r h k = ground arith

resync-garbage : (gs r : List ℕ) → IsGarbage gs → resync (gs ++ (18 ∷ 52 ∷ r)) ≡ 18 ∷ 52 ∷ r
resync-garbage [] r g = resync-magic r
resync-garbage (a ∷ []) r g = resync-skip a 18 (52 ∷ r) g.1 (omega arith) ∙ resync-magic r
resync-garbage (a ∷ b ∷ gs) r g =
    resync-skip a b (gs ++ (18 ∷ 52 ∷ r)) g.1 g.2.0 ∙ resync-garbage (b ∷ gs) r g.2

read-garbage_same :
    (gs r : List ℕ)
    → IsGarbage gs
    → read (record { buf = gs ++ (18 ∷ 52 ∷ r) }) ≡ read (record { buf = 18 ∷ 52 ∷ r })
unfolding read
read-garbage_same gs r g = ap take_frame (resync-garbage gs r g ∙ sym (resync-magic r))

-- Bytes in front of a frame of less than 2 ^ 32 bytes that the first byte of the magic number is not
-- among are skipped: the read gives the frame and leaves what follows it.
pub read-garbage :
    (gs h b rest : List ℕ)
    → IsGarbage gs
    → 10 + length h + length b < word32
    → read (record { buf = gs ++ (frame h b ++ rest) }) ≡ (record { buf = rest }, some (frame h b))
read-garbage gs h b rest g small =
    read-garbage_same gs (drop 2 (frame h b ++ rest)) g ∙ read-frame h b rest small
