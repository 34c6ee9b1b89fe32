-- ===== src/Sshserver/Protocol/SideBand.antt =====
-- protocol.go, sideBandWriter: the packets and the data.
use kai_server.Common.{
  Option, ℕ, zero, suc, ◌≤◌, ◌<◌, ◌≡◌, ◌≢◌, arith, Bool, none, [], ◌∷◌, ◌++◌, length, length-drop,
  take, drop, ltb, if◌then◌else◌, ok, stuck, inl, inr, Option-cases,
}
use kai_server.Common.Bytes.{Bytes}
use kai_server.Sshserver.Protocol.{
  PktError, pkt_data, read_pkt_line_v2, Writer, taken, write_pkt_line, side_band_loop,
  side_band_write,
}

-- What a reader of the side band collects from a channel: each packet is read off the wire, and its
-- payload is the channel's byte and a piece of the data.
pub data Carries (channel : ℕ) : Bytes → Bytes → Type 0 where
  done : Carries channel [] []
  piece :
      {wire rest chunk more sent : Bytes}
      → read_pkt_line_v2 wire ≡ ok (channel ∷ chunk, pkt_data, rest)
      → Carries channel rest more
      → sent ≡ chunk ++ more
      → Carries channel wire sent

module _ (accepts : Bytes → Bytes → Bool) (max_data channel : ℕ) (pos : 0 < max_data)
    (fits : max_data ≤ 65530) where
  abbrev size : Bytes → ℕ
  size p = if ltb max_data (length p) then max_data else length p

  abbrev payload : Bytes → Bytes
  payload p = channel ∷ take (size p) p

  -- What a call that reports n of the bytes p as written leaves on the wire behind `out`: packets of
  -- the channel with the first n bytes, and, only after an error, a piece of one more packet.
  abbrev Reports : Bytes → Bytes → ℕ → Option PktError → Writer → Type 0
  Reports out p n e w =
      (wire : Bytes) × (tail : Bytes) × (w ≡ taken (out ++ (wire ++ tail)))
      × Carries channel wire (take n p)
      × (n ≤ length p)
      × (e ≡ none → (tail ≡ []) × (n ≡ length p))

  side_band_loop-ne-stuck :
      (fuel : ℕ) (w : Writer) (p : Bytes) (written : ℕ)
      → length p ≤ fuel
      → side_band_loop accepts fuel max_data channel w p written ≢ stuck
  unfolding side_band_loop
  side_band_loop-ne-stuck fuel w [] written h = λ q. cc
  side_band_loop-ne-stuck zero w (b ∷ p) written h = absurd (omega arith)
  side_band_loop-ne-stuck (suc fuel) w (b ∷ p) written h =
      let sent = write_pkt_line accepts w (payload (b ∷ p)) in
      elim (Option-cases sent.0) [
        | inl e ↦
            rw (e, side_band_loop)
              (side_band_loop-ne-stuck fuel sent.1 (drop (size (b ∷ p)) (b ∷ p)) _
                (ground (arith, length-drop (size (b ∷ p)) (b ∷ p))))
        | inr (x, e) ↦ rw (e, side_band_loop) (λ q. cc)
      ]

  -- With a positive maxData, Write ends whatever the data and the writer.
  pub side_band_write-ne-stuck :
      (w : Writer) (p : Bytes) → side_band_write accepts max_data channel w p ≢ stuck
  unfolding side_band_write
  side_band_write-ne-stuck w p = side_band_loop-ne-stuck (length p) w p 0 (omega arith)
