-- ===== src/Protocol/Parts.antt =====
-- One `encode` of a layer that never ends a frame early: its calls set `last` on the final one at
-- most, and what they write is one piece of a frame.
use libstored.Prelude.{
  ◌≡◌, refl, Bool, true, false, List, [], ◌∷◌, ◌++◌, append-nil, ℕ, All, All-split, if◌then◌else◌,
}
use libstored.Prelude.{append_assoc, ◌≢◌}
use libstored.Protocol.{Bytes, Chunk}
use libstored.Protocol.Layer.{Layer, Carries, deliver}

-- `last` stands on the final call and on no other; where it is set there is a call.
abbrev pub IsPart : Bool → List Chunk → Type 0
IsPart last [] = last ≡ false
IsPart last ((b, l) ∷ []) = l ≡ last
IsPart last ((b, l) ∷ c ∷ cs) = (l ≡ false) × IsPart last (c ∷ cs)

-- What the calls write, in order.
abbrev pub written : List Chunk → Bytes
written [] = []
written ((b, l) ∷ cs) = b ++ written cs

pub IsPart-cons :
    (last : Bool) (b : Bytes) (cs : List Chunk)
    → cs ≢ []
    → IsPart last cs
    → IsPart last ((b, false) ∷ cs)
IsPart-cons last b [] ne h = absurd (ne refl)
IsPart-cons last b (c ∷ cs) ne h = (refl, h)

pub written-append : (xs ys : List Chunk) → written (xs ++ ys) ≡ written xs ++ written ys
written-append [] ys = refl
written-append ((b, l) ∷ xs) ys = rw (written-append xs ys, append_assoc)

module _ (l : Layer) (r : l.Receiver) where
  -- The peer takes the piece into the frame, and decodes the frame where the piece ends it.
  pub deliver-part_last :
      (p : Bytes) (cs : List Chunk)
      → IsPart true cs
      → deliver l r p cs ≡ ((l.decode r (p ++ written cs)).0, [], (l.decode r (p ++ written cs)).1)
  unfolding deliver
  deliver-part_last p [] h = cc
  deliver-part_last p ((b, false) ∷ []) h = cc
  deliver-part_last p ((b, true) ∷ []) h = rw (append-nil b, append-nil)
  deliver-part_last p ((b, false) ∷ c ∷ cs) h =
      rw (deliver-part_last (p ++ b) (c ∷ cs) h.1, append_assoc)
  deliver-part_last p ((b, true) ∷ c ∷ cs) h = cc (h.0)

  pub deliver-part_open :
      (p : Bytes) (cs : List Chunk) → IsPart false cs → deliver l r p cs ≡ (r, p ++ written cs, [])
  unfolding deliver
  deliver-part_open p [] h = rw append-nil
  deliver-part_open p ((b, false) ∷ []) h = rw append-nil
  deliver-part_open p ((b, true) ∷ []) h = cc
  deliver-part_open p ((b, false) ∷ c ∷ cs) h =
      rw (deliver-part_open (p ++ b) (c ∷ cs) h.1, append_assoc)
  deliver-part_open p ((b, true) ∷ c ∷ cs) h = cc (h.0)

pub All-written :
    (P : ℕ → Type 0) (cs : List Chunk) → All P (written cs) → All (λ (c : Chunk). All P c.0) cs
All-written P [] h = tt
All-written P ((b, l) ∷ cs) h =
    let (front, back) = All-split P b (written cs) h in (front, All-written P cs back)

-- What a layer has to keep for that its `encode` writes one piece of a frame each time.
pub record Piecewise (l : Layer) : Type 1 where
  pub Accepts : ℕ → Type 0
  pub Emits : ℕ → Type 0
  pub Sync : l.Sender → l.Receiver → Bytes → Bytes → Type 0
  pub part : (s : l.Sender) (b : Bytes) (last : Bool) → IsPart last (l.encode s b last).1
  pub emits :
      (s : l.Sender) (r : l.Receiver) (acc pend b : Bytes) (last : Bool)
      → Sync s r acc pend
      → All Accepts b
      → All Emits (written (l.encode s b last).1)
  pub more :
      (s : l.Sender) (r : l.Receiver) (acc pend b : Bytes)
      → Sync s r acc pend
      → All Accepts b
      → Sync (l.encode s b false).0 r (acc ++ b) (pend ++ written (l.encode s b false).1)
  pub final :
      (s : l.Sender) (r : l.Receiver) (acc pend b : Bytes)
      → Sync s r acc pend
      → All Accepts b
      → let (r', up) = l.decode r (pend ++ written (l.encode s b true).1) in
        (up ≡ (acc ++ b) ∷ []) × Sync (l.encode s b true).0 r' [] []

module _ {l : Layer} (p : Piecewise l) where
  pub piece_step :
      (s : l.Sender) (r : l.Receiver) (acc pend b : Bytes) (last : Bool)
      → p.Sync s r acc pend
      → All p.Accepts b
      → let (s', out) = l.encode s b last in
        let (r', pend', up) = deliver l r pend out in
        (up ≡ (if last then (acc ++ b) ∷ [] else []))
        × p.Sync s' r' (if last then [] else acc ++ b) pend'
        × All (λ (c : Chunk). All p.Emits c.0) out
  piece_step s r acc pend b true sync ok =
      let (e, sync') = p.final s r acc pend b sync ok in
      rw (deliver-part_last l r pend (l.encode s b true).1 (p.part s b true))
        (e, sync', All-written p.Emits (l.encode s b true).1 (p.emits s r acc pend b true sync ok))
  piece_step s r acc pend b false sync ok =
      rw (deliver-part_open l r pend (l.encode s b false).1 (p.part s b false)) (
        refl,
        p.more s r acc pend b sync ok,
        All-written p.Emits (l.encode s b false).1 (p.emits s r acc pend b false sync ok),
      )

  abbrev pub piecewise-Carries : Carries l
  piecewise-Carries = record {
    Accepts = p.Accepts;
    Emits = p.Emits;
    Sync = p.Sync;
    step = piece_step;
  }
