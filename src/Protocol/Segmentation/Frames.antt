-- ===== src/Protocol/Segmentation/Frames.antt =====
-- SegmentationLayer::encode (src/protocol.cpp): the frames that it makes.
use libstored.Prelude.{
  ℕ, zero, suc, true, ◌≡◌, refl, List, [], ◌∷◌, ◌++◌, ◌-◌, ◌≤◌, arith, take, drop, length,
  length-append, length-take, append-nil, append_assoc, inl, inr, All, All-append, All-take,
  All-drop, IsByte,
}
use libstored.Protocol.{Bytes, Chunk, frames}
use libstored.Protocol.Layer.Stacked.{AllBytes}
use libstored.Protocol.Segmentation.{encode_loop, continue_marker}
use libstored.Protocol.Segmentation.Encode.{
  HasRoom, part, step_size, round_cases, loop-nil, loop-cons,
}

frames-part :
    (pend : Bytes) (n : ℕ) (buffer : Bytes) (cs : List Chunk)
    → frames pend (part n buffer ++ cs) ≡ frames (pend ++ take n buffer) cs
unfolding frames
frames-part pend zero buffer cs = rw append-nil
frames-part pend (suc n) buffer cs = ground arith

abbrev pub Fit : ℕ → List Bytes → Type 0
Fit mtu fs = All (λ (f : Bytes). length f ≤ mtu) fs

part-IsByte : (n : ℕ) (buffer : Bytes) → All IsByte buffer → AllBytes IsByte (part n buffer)
part-IsByte zero buffer ok = tt
part-IsByte (suc n) buffer ok = ground (arith, All-take IsByte (suc n) buffer ok)

-- A full frame: what was out, what the round takes, and the marker.
full_frame :
    (pend buffer : Bytes) (mtu encoded : ℕ)
    → HasRoom mtu encoded
    → encoded ≡ length pend
    → let n = step_size mtu encoded buffer in
      n ≡ mtu - encoded - 1 → length ((pend ++ take n buffer) ++ (continue_marker ∷ [])) ≤ mtu
full_frame pend buffer mtu encoded h e filled =
    let n = step_size mtu encoded buffer in
    omega (
      arith,
      length-append (pend ++ take n buffer) (continue_marker ∷ []),
      length-append pend (take n buffer),
      length-take n buffer,
    )

-- Each frame that the loop completes has at most the size of a frame, whatever part of the first
-- was out already, and only bytes are sent.
pub loop_fits :
    (fuel mtu encoded : ℕ) (pend buffer : Bytes)
    → HasRoom mtu encoded
    → encoded ≡ length pend
    → All IsByte buffer
    → let out = (encode_loop fuel mtu encoded buffer).2 in
      Fit mtu (frames pend out) × AllBytes IsByte out
unfolding frames
loop_fits zero mtu encoded pend buffer h e ok = unfold encode_loop in (tt, tt)
loop_fits (suc fuel) mtu encoded pend [] h e ok = unfold encode_loop in (tt, tt)
loop_fits (suc fuel) mtu encoded pend (b ∷ buffer) h e ok =
    elim (round_cases mtu encoded (b ∷ buffer) h) [
      | inl (filled, step) ↦
          let (fit, bytes) =
            loop_fits fuel mtu 0 [] (drop n (b ∷ buffer)) (omega arith) refl
              (All-drop IsByte n (b ∷ buffer) ok) in
          rw
            (
              loop-cons fuel mtu encoded b buffer,
              step,
              append_assoc (part n (b ∷ buffer)) ((continue_marker ∷ [], true) ∷ [])
                  (encode_loop fuel mtu 0 (drop n (b ∷ buffer))).2,
              frames-part pend n (b ∷ buffer)
                  ((continue_marker ∷ [], true) ∷ (encode_loop fuel mtu 0 (drop n (b ∷ buffer))).2),
            )
            (
              (full_frame pend (b ∷ buffer) mtu encoded h e filled, fit),
              All-append _ (part n (b ∷ buffer)) _ (part-IsByte n (b ∷ buffer) ok)
                  ((omega arith, tt), bytes),
            )
      | inr (whole, room, step) ↦
          rw
            (
              loop-cons fuel mtu encoded b buffer,
              step,
              loop-nil,
              frames-part pend n (b ∷ buffer) [],
            )
            (tt, All-append _ (part n (b ∷ buffer)) [] (part-IsByte n (b ∷ buffer) ok) tt)
    ]
  where
    n : ℕ
    n = step_size mtu encoded (b ∷ buffer)
