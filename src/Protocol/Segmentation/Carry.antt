-- ===== src/Protocol/Segmentation/Carry.antt =====
-- SegmentationLayer (src/protocol.cpp): the layer carries messages of any size in frames of
-- limited size.
use libstored.Prelude.{
  ℕ, ◌≡◌, refl, sym, ap, ◌∙◌, Bool, true, false, List, [], ◌∷◌, ◌++◌, All, All-append, IsByte,
}
use libstored.Prelude.{◌^◌, ◌<◌, ◌≤◌, arith, length, length-append, if◌then◌else◌}
use libstored.Protocol.{Bytes, Chunk, frames, pending}
use libstored.Protocol.Layer.{Carries, encode_all, deliver}
use libstored.Protocol.Layer.Stacked.{
  AllBytes, carries_all, deliver-append, deliver-frames, frames-append,
}
use libstored.Protocol.Segmentation.{
  lower_mtu, frame_size, encode_loop, enough, encode, end_marker, segmentation_layer,
}
use libstored.Protocol.Segmentation.Encode.{loop-Sent, peer_end}
use libstored.Protocol.Segmentation.Frames.{Fit, loop_fits}

-- Both limits are values of `size_t`.
module _ (own lower : ℕ) (own_size : own < 2 ^ 64) (lower_size : lower < 2 ^ 64) where
  abbrev pub size : ℕ
  size = frame_size (lower_mtu own lower)

  pub frame_size_bounds : (2 ≤ size) × (size < 2 ^ 64)
  unfolding frame_size lower_mtu
  frame_size_bounds = ground arith

  -- The peer collected the frames of a message, and the rest of what was encoded is on its way.
  abbrev pub SegmentationSync : ℕ → Bytes → Bytes → Bytes → Type 0
  SegmentationSync encoded collected acc pend =
      (collected ++ pend ≡ acc) × (encoded ≡ length pend) × (encoded < size)

  pub segmentation_step :
      (encoded : ℕ) (r acc pend b : Bytes) (last : Bool)
      → SegmentationSync encoded r acc pend
      → All IsByte b
      → let (s', out) = encode own lower encoded b last in
        let (r', pend', up) = deliver (segmentation_layer own lower) r pend out in
        (up ≡ (if last then (acc ++ b) ∷ [] else []))
        × SegmentationSync s' r' (if last then [] else acc ++ b) pend'
        × AllBytes IsByte out
  unfolding encode
  segmentation_step encoded r acc pend b false (e, n, room) ok =
      let s =
        loop-Sent own lower (enough b) size encoded r pend b (omega (arith, frame_size_bounds)) n
          (unfold enough in ground arith) in
      let (fit, bytes) =
        loop_fits (enough b) size encoded pend b (omega (arith, frame_size_bounds)) n ok in
      (s.1, (s.4 ∙ ap (λ t. t ++ b) e, s.2, s.3), bytes)
  segmentation_step encoded r acc pend b true (e, n, room) ok =
      let s =
        loop-Sent own lower (enough b) size encoded r pend b (omega (arith, frame_size_bounds)) n
          (unfold enough in ground arith) in
      let (fit, bytes) =
        loop_fits (enough b) size encoded pend b (omega (arith, frame_size_bounds)) n ok in
      let out = (encode_loop (enough b) size encoded b).2 in
      let (r', pend', up) = deliver (segmentation_layer own lower) r pend out in
      rw
        (
          deliver-append (segmentation_layer own lower) r pend out ((end_marker ∷ [], true) ∷ []),
          s.1,
          peer_end own lower r' pend',
          s.4,
          e,
        )
        (
          refl,
          (refl, refl, omega (arith, frame_size_bounds)),
          All-append _ out ((end_marker ∷ [], true) ∷ []) bytes ((omega arith, tt), tt),
        )

  abbrev pub segmentation-Carries : Carries (segmentation_layer own lower)
  segmentation-Carries = record {
    Accepts = IsByte;
    Emits = IsByte;
    Sync = SegmentationSync;
    step = segmentation_step;
  }

  -- For any two limits of 64 bits, messages of bytes of any size, encoded in whatever parts, are
  -- put together again by the peer.
  pub segmentation_deliver-encode_all :
      (cs : List Chunk)
      → AllBytes IsByte cs
      → (deliver
          (segmentation_layer own lower)
          []
          []
          (encode_all (segmentation_layer own lower) 0 cs).1).2
        ≡ frames [] cs
  segmentation_deliver-encode_all cs ok =
      (carries_all segmentation-Carries cs 0 [] [] [] (refl, refl, omega (arith, frame_size_bounds))
        ok).0

  -- For any two limits of 64 bits: whatever of a frame is out already, if it is below the size of a
  -- frame and counted in `m_encoded`, each frame that an `encode` completes is at most as long
  -- as the limit: the lower of the two limits, or 2 where that is 1.
  segmentation_encode_fits :
      (encoded : ℕ) (pend b : Bytes) (last : Bool)
      → encoded ≡ length pend
      → encoded < size
      → All IsByte b
      → Fit size (frames pend (encode own lower encoded b last).1)
  unfolding encode frames
  segmentation_encode_fits encoded pend b false n room ok =
      (loop_fits (enough b) size encoded pend b (omega (arith, frame_size_bounds)) n ok).0
  segmentation_encode_fits encoded pend b true n room ok =
      let s =
        loop-Sent own lower (enough b) size encoded [] pend b (omega (arith, frame_size_bounds)) n
          (unfold enough in ground arith) in
      let (fit, bytes) =
        loop_fits (enough b) size encoded pend b (omega (arith, frame_size_bounds)) n ok in
      let out = (encode_loop (enough b) size encoded b).2 in
      let behind : pending pend out ≡ (deliver (segmentation_layer own lower) [] pend out).1 = sym (
        ap (λ (p : Bytes × Bytes × List Bytes). p.1)
          (deliver-frames (segmentation_layer own lower) [] pend out)) in
      rw (frames-append pend out ((end_marker ∷ [], true) ∷ [])) (
        All-append _ (frames pend out) _ fit (
          rw behind (
              omega (
                arith,
                length-append (deliver (segmentation_layer own lower) [] pend out).1
                    (end_marker ∷ []),
                s.2,
                s.3,
              )),
          tt,
        ))
