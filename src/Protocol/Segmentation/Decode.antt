-- ===== src/Protocol/Segmentation/Decode.antt =====
-- SegmentationLayer::decode (src/protocol.cpp) on the two kinds of frames.
use libstored.Prelude.{
  ℕ, ◌≡◌, sym, true, false, not, ◌||◌, [], ◌∷◌, ◌++◌, arith, length, length-append, append-nil,
  take-snoc, get_or-snoc, if◌then◌else◌, ◌==◌, ltb, is_empty,
}
use libstored.Protocol.{Bytes}
use libstored.Protocol.Segmentation.{decode, continue_marker, end_marker}

some_length : (p : Bytes) (m : ℕ) → (length (p ++ (m ∷ [])) == 0) ≡ false
some_length p m = ground (arith, length-append p (m ∷ []))

saved_all :
    (collected p : Bytes) (m : ℕ)
    → (if ltb 1 (length (p ++ (m ∷ []))) then collected ++ p else collected) ≡ collected ++ p
saved_all collected [] m = sym (append-nil collected)
saved_all collected (y ∷ p) m =
    let long : ltb 1 (length (y ∷ p ++ (m ∷ []))) ≡ true =
      ground (arith, length-append p (m ∷ [])) in
    rw long

-- A frame is its payload and a marker.
decode_marked :
    (collected p : Bytes) (m : ℕ)
    → decode collected (p ++ (m ∷ [])) ≡ (
        if not (is_empty collected) || not (m == end_marker)
        then (if m == end_marker then ([], (collected ++ p) ∷ []) else (collected ++ p, []))
        else (collected, p ∷ []))
unfolding decode
decode_marked collected p m =
    rw (some_length p m, take-snoc p m, get_or-snoc p m 0, saved_all collected p m)

pub decode_end :
    (collected p : Bytes) → decode collected (p ++ (end_marker ∷ [])) ≡ ([], (collected ++ p) ∷ [])
decode_end [] p = decode_marked [] p end_marker
decode_end (x ∷ collected) p = decode_marked (x ∷ collected) p end_marker

pub decode_continue :
    (collected p : Bytes) → decode collected (p ++ (continue_marker ∷ [])) ≡ (collected ++ p, [])
decode_continue [] p = decode_marked [] p continue_marker
decode_continue (x ∷ collected) p = decode_marked (x ∷ collected) p continue_marker
