-- ===== src/Rpc/Frame/Stream.antt =====
-- Several frames in one stream of bytes (swifty_rpc/internal/transport/tcp_connection.go).
use mathlib.Core.List.{append_assoc}
use swifty_go.Prelude.{
  ℕ, suc, zero, ◌+◌, ◌≡◌, ◌<◌, ap, ◌∙◌, refl, Option, some, List, [], ◌∷◌, ◌++◌, map, length,
  word32,
}
use swifty_go.Rpc.Frame.{PacketBuffer, read}
use swifty_go.Rpc.Frame.RoundTrip.{frame}
use swifty_go.Rpc.Frame.Buffer.{read-frame}

-- the bytes of the frames of some headers and bodies
abbrev pub stream : List (List ℕ × List ℕ) → List ℕ
stream [] = []
stream ((h, b) ∷ fs) = frame h b ++ stream fs

-- each frame is below 2 ^ 32 bytes
abbrev pub AllSmall : List (List ℕ × List ℕ) → Type 0
AllSmall [] = Unit {0}
AllSmall ((h, b) ∷ fs) = (10 + length h + length b < word32) × AllSmall fs

-- so many reads, and what they give
unfoldable pub reads : PacketBuffer → ℕ → PacketBuffer × List (Option (List ℕ))
reads pb zero = (pb, [])
reads pb (suc n) = let rest = reads (read pb).0 n in (rest.0, (read pb).1 ∷ rest.1)

-- the frame that a read gives
abbrev pub whole : List ℕ × List ℕ → Option (List ℕ)
whole (h, b) = some (frame h b)

-- Frames, each of less than 2 ^ 32 bytes, that were written one after another come out one by one, in
-- their order and with nothing lost between them: as many reads as there are frames give the frames,
-- and leave in the buffer what followed the last.
pub reads-stream :
    (fs : List (List ℕ × List ℕ)) (rest : List ℕ)
    → AllSmall fs
    → reads (record { buf = stream fs ++ rest }) (length fs) ≡ (record { buf = rest }, map whole fs)
unfolding reads
reads-stream [] rest s = refl
reads-stream ((h, b) ∷ fs) rest s =
    let tail = stream fs ++ rest in
    let start : stream ((h, b) ∷ fs) ++ rest ≡ frame h b ++ tail =
      append_assoc (frame h b) (stream fs) rest in
    let next : (read (record { buf = stream ((h, b) ∷ fs) ++ rest }))
        ≡ (record { buf = tail }, some (frame h b)) =
      ap (λ d. read (record { buf = d })) start ∙ read-frame h b tail s.0 in
    ap
      (λ (r : PacketBuffer × Option (List ℕ)).
        ((reads r.0 (length fs)).0, r.1 ∷ (reads r.0 (length fs)).1))
      next
    ∙ ap (λ (r : PacketBuffer × List (Option (List ℕ))). (r.0, some (frame h b) ∷ r.1))
        (reads-stream fs rest s.1)
