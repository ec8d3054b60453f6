-- ===== src/Protocol/Stacks.antt =====
-- Stacks of layers (include/libstored/protocol.h): debugger messages over a terminal.
use libstored.Prelude.{ℕ, ◌≡◌, refl, Bool, false, List, [], IsByte, ◌^◌, ◌<◌, arith}
use libstored.Protocol.{Chunk, frames}
use libstored.Protocol.Layer.{Layer, Carries, encode_all, deliver, stack}
use libstored.Protocol.Layer.Stacked.{AllBytes, carries_all, stack-Carries}
use libstored.Protocol.Parts.{piecewise-Carries}
use libstored.Protocol.AsciiEscape.{escape_layer}
use libstored.Protocol.AsciiEscape.Encode.{escaped}
use libstored.Protocol.AsciiEscape.RoundTrip.{escape-Piecewise}
use libstored.Protocol.Terminal.{terminal_layer, initial}
use libstored.Protocol.Terminal.Carry.{terminal-Piecewise}
use libstored.Protocol.Crc16.{crc16_layer, init, update}
use libstored.Protocol.Crc16.Carry.{crc16-Piecewise}
use libstored.Protocol.Segmentation.{segmentation_layer}
use libstored.Protocol.Segmentation.Carry.{segmentation-Carries, frame_size_bounds}

-- The layers of a debugger behind a terminal: messages of any size are cut, checked, escaped, and
-- framed by escape sequences.
abbrev pub terminal_stack : ℕ → ℕ → Bool → Layer
terminal_stack own lower all =
    stack (segmentation_layer own lower)
      (stack crc16_layer (stack (escape_layer all) terminal_layer))

abbrev pub escape_stack-Carries : (all : Bool) → Carries (stack (escape_layer all) terminal_layer)
escape_stack-Carries all =
    stack-Carries (piecewise-Carries (escape-Piecewise all)) (piecewise-Carries terminal-Piecewise)
      (λ x h. (h.0, h.4))

module _ (own lower : ℕ) (own_size : own < 2 ^ 64) (lower_size : lower < 2 ^ 64) where
  abbrev terminal_stack-Carries : (all : Bool) → Carries (terminal_stack own lower all)
  terminal_stack-Carries all =
      stack-Carries (segmentation-Carries own lower own_size lower_size)
        (stack-Carries (piecewise-Carries crc16-Piecewise) (escape_stack-Carries all) (λ x h. h))
        (λ x h. h)

  -- For any two limits of 64 bits, whatever messages of bytes are encoded, of whatever sizes and in
  -- whatever parts, the same stack at the other end gets exactly those messages, for both settings
  -- of the escape layer.
  pub terminal_stack-deliver-encode_all :
      (all : Bool) (cs : List Chunk)
      → AllBytes IsByte cs
      → (deliver
          (terminal_stack own lower all)
          ([], (tt, (tt, initial)))
          []
          (encode_all (terminal_stack own lower all) (0, (init, (tt, false))) cs).1).2
        ≡ frames [] cs
  terminal_stack-deliver-encode_all all cs ok =
      (carries_all (terminal_stack-Carries all) cs (0, (init, (tt, false)))
        ([], (tt, (tt, initial))) [] []
        (
          [],
          (refl, refl, omega (arith, frame_size_bounds own lower own_size lower_size)),
          (
            [],
            (unfold update in refl, refl, tt),
            ([], (unfold escaped in refl, tt), (refl, refl, refl)),
          ),
        )
        ok).0
