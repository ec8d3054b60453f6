-- ===== src/Protocol/Layer/Stacked.antt =====
-- Layers that carry messages: sequences of messages, and stacks of layers.
use libstored.Prelude.{◌≡◌, refl, ◌∙◌, true, false, List, [], ◌∷◌, ◌++◌, All, All-append, All-map}
use libstored.Prelude.{append_assoc, ℕ}
use libstored.Protocol.{Bytes, Chunk, frames, pending}
use libstored.Protocol.Layer.{Layer, Carries, encode_all, decode_all, deliver, stack}

pub frames-append :
    (acc : Bytes) (xs ys : List Chunk)
    → frames acc (xs ++ ys) ≡ frames acc xs ++ frames (pending acc xs) ys
unfolding frames pending
frames-append acc [] ys = refl
frames-append acc ((b, false) ∷ xs) ys = frames-append (acc ++ b) xs ys
frames-append acc ((b, true) ∷ xs) ys = rw (frames-append [] xs ys)

module _ (l : Layer) where
  -- Delivery of a sequence of calls in two parts.
  pub deliver-append :
      (r : l.Receiver) (p : Bytes) (xs ys : List Chunk)
      → deliver l r p (xs ++ ys) ≡ (
          let (r1, p1, u1) = deliver l r p xs in
          let (r2, p2, u2) = deliver l r1 p1 ys in (r2, p2, u1 ++ u2))
  unfolding deliver
  deliver-append r p [] ys = refl
  deliver-append r p ((b, false) ∷ xs) ys = deliver-append r (p ++ b) xs ys
  deliver-append r p ((b, true) ∷ xs) ys =
      rw (deliver-append (l.decode r (p ++ b)).0 [] xs ys, append_assoc)

  decode_all-append :
      (r : l.Receiver) (xs ys : List Bytes)
      → decode_all l r (xs ++ ys)
        ≡ (let (r1, u1) = decode_all l r xs in let (r2, u2) = decode_all l r1 ys in (r2, u1 ++ u2))
  unfolding decode_all
  decode_all-append r [] ys = refl
  decode_all-append r (f ∷ xs) ys = rw (decode_all-append (l.decode r f).0 xs ys, append_assoc)

  -- Delivery is decoding the completed frames.
  pub deliver-frames :
      (r : l.Receiver) (p : Bytes) (cs : List Chunk)
      → deliver l r p cs ≡ (let (r', up) = decode_all l r (frames p cs) in (r', pending p cs, up))
  unfolding deliver decode_all frames pending
  deliver-frames r p [] = refl
  deliver-frames r p ((b, false) ∷ cs) = deliver-frames r (p ++ b) cs
  deliver-frames r p ((b, true) ∷ cs) = rw (deliver-frames (l.decode r (p ++ b)).0 [] cs)

abbrev pub AllBytes : (ℕ → Type 0) → List Chunk → Type 0
AllBytes P cs = All (λ (c : Chunk). All P c.0) cs

module _ {l : Layer} (c : Carries l) where
  -- Whatever sequence of calls the sender gets, the peer gets the messages that it completes.
  pub carries_all :
      (cs : List Chunk) (s : l.Sender) (r : l.Receiver) (acc pend : Bytes)
      → c.Sync s r acc pend
      → AllBytes c.Accepts cs
      → let (s', out) = encode_all l s cs in
        let (r', pend', up) = deliver l r pend out in
        (up ≡ frames acc cs) × c.Sync s' r' (pending acc cs) pend' × AllBytes c.Emits out
  unfolding encode_all frames pending deliver
  carries_all [] s r acc pend h ok = (refl, h, tt)
  carries_all ((b, false) ∷ cs) s r acc pend h ok =
      let (e, h', emits) = c.step s r acc pend b false h ok.0 in
      let (s1, out) = l.encode s b false in
      let (r1, p1, u1) = deliver l r pend out in
      let (e2, h2, emits2) = carries_all cs s1 r1 (acc ++ b) p1 h' ok.1 in
      rw (deliver-append l r pend out (encode_all l s1 cs).1, e)
        (e2, h2, All-append _ out (encode_all l s1 cs).1 emits emits2)
  carries_all ((b, true) ∷ cs) s r acc pend h ok =
      let (e, h', emits) = c.step s r acc pend b true h ok.0 in
      let (s1, out) = l.encode s b true in
      let (r1, p1, u1) = deliver l r pend out in
      let (e2, h2, emits2) = carries_all cs s1 r1 [] p1 h' ok.1 in
      rw (deliver-append l r pend out (encode_all l s1 cs).1, e, e2)
        (refl, h2, All-append _ out (encode_all l s1 cs).1 emits emits2)

module _ (up down : Layer) where
  deliver-stack :
      (ru : up.Receiver) (rd : down.Receiver) (p : Bytes) (out : List Chunk)
      → deliver (stack up down) (ru, rd) p out ≡ (
          let (rd', p', fs) = deliver down rd p out in
          let (ru', u) = decode_all up ru fs in ((ru', rd'), p', u))
  unfolding deliver decode_all
  deliver-stack ru rd p [] = refl
  deliver-stack ru rd p ((b, false) ∷ out) = deliver-stack ru rd (p ++ b) out
  deliver-stack ru rd p ((b, true) ∷ out) =
      let (rd1, fs) = down.decode rd (p ++ b) in
      let (ru1, u) = decode_all up ru fs in
      let (rd2, p2, fs2) = deliver down rd1 [] out in
      rw (deliver-stack ru1 rd1 [] out, decode_all-append up ru fs fs2)

module _ {up down : Layer} (u : Carries up) (d : Carries down) where
  -- The ends of a stack are in step when those of both layers are, over the part of the upper
  -- layer's frame that the lower layer has taken.
  abbrev pub StackSync :
      up.Sender × down.Sender → up.Receiver × down.Receiver → Bytes → Bytes → Type 0
  StackSync s r acc pend = (mid : Bytes) × u.Sync s.0 r.0 acc mid × d.Sync s.1 r.1 mid pend

  -- A lower layer that carries messages is a link to the upper one.
  pub through :
      (mid : List Chunk) (ru : up.Receiver) (sd : down.Sender) (rd : down.Receiver)
      (acc pend : Bytes)
      → d.Sync sd rd acc pend
      → AllBytes d.Accepts mid
      → let (sd', out) = encode_all down sd mid in
        let (r', pend', w) = deliver (stack up down) (ru, rd) pend out in
        let (ru', acc', w') = deliver up ru acc mid in
        (r'.0 ≡ ru') × (w ≡ w') × d.Sync sd' r'.1 acc' pend' × AllBytes d.Emits out
  through mid ru sd rd acc pend h ok =
      let (e, h', emits) = carries_all d mid sd rd acc pend h ok in
      rw
        (
          deliver-stack up down ru rd pend (encode_all down sd mid).1,
          deliver-frames up ru acc mid,
          e,
        )
        (refl, refl, h', emits)

  pub widen :
      ((x : ℕ) → u.Emits x → d.Accepts x)
      → (cs : List Chunk) → AllBytes u.Emits cs
      → AllBytes d.Accepts cs
  widen sub [] h = tt
  widen sub ((b, last) ∷ cs) h = (All-map sub b h.0, widen sub cs h.1)

  -- A layer that carries messages, on top of another that carries what it emits, carries messages.
  abbrev pub stack-Carries : ((x : ℕ) → u.Emits x → d.Accepts x) → Carries (stack up down)
  stack-Carries sub = record {
    Accepts = u.Accepts;
    Emits = d.Emits;
    Sync = StackSync;
    step = λ s r acc pend b last (mid, hu, hd) ok.
        let (e, hu', emits) = u.step s.0 r.0 acc mid b last hu ok in
        let (su, cs) = up.encode s.0 b last in
        let (er, ew, hd', out) = through cs r.0 s.1 r.1 mid pend hd (widen sub cs emits) in
        (ew ∙ e, ((deliver up r.0 mid cs).1, rw er hu', hd'), out);
  }
