-- ===== src/Protocol/Segmentation/Encode.antt =====
-- SegmentationLayer::encode (src/protocol.cpp): the loop over the buffer, as the peer sees it.
use libstored.Prelude.{
  ℕ, zero, suc, ◌≡◌, refl, sym, ap, ◌∙◌, Bool, true, false, not, ◌&&◌, List, [], ◌∷◌, ◌++◌,
}
use libstored.Prelude.{
  ◌+◌, ◌-◌, ◌*◌, ◌^◌, ◌≤◌, ◌<◌, min, arith, ◌==◌, if◌then◌else◌, take, drop, length, is_empty,
}
use libstored.Prelude.{
  length-append, length-drop, take-append-drop, take_all, append-nil, append_assoc, inl, inr, ◌⊎◌,
  sub_size, sub_size-le,
}
use libstored.Protocol.{Bytes, Chunk}
use libstored.Protocol.Layer.{deliver}
use libstored.Protocol.Segmentation.{
  encode_round, encode_loop, enough, continue_marker, end_marker, segmentation_layer,
}
use libstored.Protocol.Segmentation.Decode.{decode_continue, decode_end}

-- The frame size is one that `encode` works with, and what of a frame is out leaves room for the
-- marker.
abbrev pub HasRoom : ℕ → ℕ → Type 0
HasRoom mtu encoded = (2 ≤ mtu) × (mtu < 2 ^ 64) × (encoded < mtu)

remaining_room :
    (mtu encoded : ℕ) → HasRoom mtu encoded → sub_size (sub_size mtu encoded) 1 ≡ mtu - encoded - 1
remaining_room mtu encoded h =
    ap (λ n. sub_size n 1) (sub_size-le mtu encoded (omega arith) (omega arith))
    ∙ sub_size-le (mtu - encoded) 1 (omega arith) (omega arith)

-- The bytes that a round takes, and the calls that it makes for them.
abbrev pub step_size : ℕ → ℕ → Bytes → ℕ
step_size mtu encoded buffer = min (length buffer) (mtu - encoded - 1)

abbrev pub part : ℕ → Bytes → List Chunk
part n buffer = if n == 0 then [] else (take n buffer, false) ∷ []

and_false : (b : Bool) → (b && false) ≡ false
and_false true = refl
and_false false = refl

-- The test of a round, at the rest of the buffer: the frame is full and more follows, or the
-- buffer is used up.
pick_cases :
    (mtu encoded len n : ℕ) (rest : Bytes) (full plain : List Chunk)
    → HasRoom mtu encoded
    → n ≡ min len (mtu - encoded - 1)
    → length rest ≡ len - n
    → let picked : ℕ × Bytes × List Chunk =
        (if n == mtu - encoded - 1 && not (is_empty rest)
          then (0, rest, full)
          else (encoded + n, rest, plain)) in
      ((n ≡ mtu - encoded - 1) × (picked ≡ (0, rest, full)))
      ⊎ ((n ≡ len) × (encoded + n < mtu) × (picked ≡ (encoded + n, [], plain)))
pick_cases mtu encoded len n [] full plain h en er =
    inr (omega arith, omega arith, rw (and_false (n == mtu - encoded - 1)))
pick_cases mtu encoded len n (x ∷ rest) full plain h en er =
    let filled : n ≡ mtu - encoded - 1 = omega arith in
    let test : (n == mtu - encoded - 1) ≡ true = ground arith in inl (filled, rw test)

pub round_cases :
    (mtu encoded : ℕ) (buffer : Bytes)
    → HasRoom mtu encoded
    → let n = step_size mtu encoded buffer in
      ((n ≡ mtu - encoded - 1)
        × (encode_round mtu encoded buffer
            ≡ (0, drop n buffer, part n buffer ++ ((continue_marker ∷ [], true) ∷ []))))
      ⊎ ((n ≡ length buffer)
          × (encoded + n < mtu)
          × (encode_round mtu encoded buffer ≡ (encoded + n, [], part n buffer)))
unfolding encode_round
round_cases mtu encoded buffer h =
    let n = step_size mtu encoded buffer in
    rw (remaining_room mtu encoded h) (
      pick_cases mtu encoded (length buffer) n (drop n buffer)
        (part n buffer ++ ((continue_marker ∷ [], true) ∷ [])) (part n buffer) h refl
        (length-drop n buffer))

pub loop-nil : (fuel mtu encoded : ℕ) → encode_loop fuel mtu encoded [] ≡ (encoded, [], [])
unfolding encode_loop
loop-nil zero mtu encoded = refl
loop-nil (suc fuel) mtu encoded = refl

pub loop-cons :
    (fuel mtu encoded b : ℕ) (buffer : Bytes)
    → encode_loop (suc fuel) mtu encoded (b ∷ buffer) ≡ (
        let (encoded1, rest, out) = encode_round mtu encoded (b ∷ buffer) in
        let (encoded2, left, more) = encode_loop fuel mtu encoded1 rest in
        (encoded2, left, out ++ more))
unfolding encode_loop
loop-cons fuel mtu encoded b buffer = refl

module _ (own lower : ℕ) where
  abbrev pub peer : Bytes → Bytes → List Chunk → Bytes × Bytes × List Bytes
  peer = deliver (segmentation_layer own lower)

  -- The peer takes in a part that is written without a marker, also where it is empty.
  peer-part :
      (r pend : Bytes) (n : ℕ) (buffer : Bytes) (cs : List Chunk)
      → peer r pend (part n buffer ++ cs) ≡ peer r (pend ++ take n buffer) cs
  unfolding deliver
  peer-part r pend zero buffer cs = rw append-nil
  peer-part r pend (suc n) buffer cs = ground arith

  peer_continue :
      (r pend : Bytes) (cs : List Chunk)
      → peer r pend ((continue_marker ∷ [], true) ∷ cs) ≡ peer (r ++ pend) [] cs
  unfolding deliver
  peer_continue r pend cs = rw (decode_continue r pend)

  pub peer_end :
      (r pend : Bytes) → peer r pend ((end_marker ∷ [], true) ∷ []) ≡ ([], [], (r ++ pend) ∷ [])
  unfolding deliver
  peer_end r pend = rw (decode_end r pend)

  -- Rounds that the fuel has to allow for.
  abbrev pub rounds_left : ℕ → ℕ → Bytes → ℕ
  rounds_left mtu encoded buffer = 2 * length buffer + (if encoded + 1 == mtu then 1 else 0)

  -- Behind the loop: nothing is left, no message came out, `m_encoded` counts the frame on its
  -- way, which has room for the marker, and the peer has the whole buffer.
  abbrev pub Sent : ℕ → Bytes → Bytes → Bytes → ℕ × Bytes × List Chunk → Type 0
  Sent mtu r pend buffer res =
      let (r', pend', up) = peer r pend res.2 in
      (res.1 ≡ [])
      × (up ≡ [])
      × (res.0 ≡ length pend')
      × (res.0 < mtu)
      × (r' ++ pend' ≡ (r ++ pend) ++ buffer)

  -- A round that completes a frame.
  frame_Sent :
      (mtu : ℕ) (r pend buffer : Bytes) (n : ℕ) (res : ℕ × Bytes × List Chunk)
      → Sent mtu (r ++ (pend ++ take n buffer)) [] (drop n buffer) res
      → Sent mtu r pend buffer
          (res.0, res.1, (part n buffer ++ ((continue_marker ∷ [], true) ∷ [])) ++ res.2)
  frame_Sent mtu r pend buffer n res s =
      rw
        (
          append_assoc (part n buffer) ((continue_marker ∷ [], true) ∷ []) res.2,
          peer-part r pend n buffer ((continue_marker ∷ [], true) ∷ res.2),
          peer_continue r (pend ++ take n buffer) res.2,
        )
        (
          s.0,
          s.1,
          s.2,
          s.3,
          s.4
              ∙ rw
                  (
                    append-nil,
                    append_assoc r pend buffer,
                    append_assoc r (pend ++ take n buffer) (drop n buffer),
                    append_assoc pend (take n buffer) (drop n buffer),
                    take-append-drop n buffer,
                  )
                  refl,
        )

  -- The round that takes the rest of the buffer.
  rest_Sent :
      (mtu encoded : ℕ) (r pend buffer : Bytes) (n : ℕ)
      → encoded ≡ length pend
      → n ≡ length buffer
      → encoded + n < mtu
      → Sent mtu r pend buffer (encoded + n, [], part n buffer ++ [])
  unfolding deliver
  rest_Sent mtu encoded r pend buffer n e whole room =
      rw (peer-part r pend n buffer [], take_all n buffer (omega arith))
        (
          refl,
          refl,
          omega (arith, length-append pend buffer),
          room,
          sym (append_assoc r pend buffer),
        )

  -- The loop sends the whole buffer, and the peer has it in what it collected and in the frame
  -- that is on its way.
  pub loop-Sent :
      (fuel mtu encoded : ℕ) (r pend buffer : Bytes)
      → HasRoom mtu encoded
      → encoded ≡ length pend
      → rounds_left mtu encoded buffer < fuel
      → Sent mtu r pend buffer (encode_loop fuel mtu encoded buffer)
  loop-Sent zero mtu encoded r pend buffer h e enough = absurd (omega arith)
  loop-Sent (suc fuel) mtu encoded r pend [] h e enough = rw (loop-nil (suc fuel) mtu encoded) (
    refl,
    unfold deliver in refl,
    unfold deliver in e,
    h.2,
    unfold deliver in sym (append-nil (r ++ pend)),
  )
  loop-Sent (suc fuel) mtu encoded r pend (b ∷ buffer) h e enough =
      elim (round_cases mtu encoded (b ∷ buffer) h) [
        | inl (filled, step) ↦
            rw (loop-cons fuel mtu encoded b buffer, step)
              (frame_Sent mtu r pend (b ∷ buffer) (step_size mtu encoded (b ∷ buffer)) _ (
                loop-Sent fuel mtu 0 (r ++ (pend ++ take n (b ∷ buffer))) [] (drop n (b ∷ buffer))
                  (omega arith) refl (ground (arith, length-drop n (b ∷ buffer)))))
        | inr (whole, room, step) ↦
            rw (loop-cons fuel mtu encoded b buffer, step, loop-nil)
              (rest_Sent mtu encoded r pend (b ∷ buffer) (step_size mtu encoded (b ∷ buffer)) e
                whole room)
      ]
    where
      n : ℕ
      n = step_size mtu encoded (b ∷ buffer)
