-- ===== src/Protocol/Arq/Delivery/Numbered.antt =====
-- The encode queue of ArqLayer (src/protocol.cpp), as messages and keep-alives that are numbered
-- one after the other.
use libstored.Prelude.{
  ℕ, ◌≡◌, refl, List, [], ◌∷◌, ◌++◌, ◌≤◌, length, arith, bit_or, bit_and, if◌then◌else◌, ◌==◌,
}
use libstored.Protocol.{Bytes}
use libstored.Protocol.Arq.{next_seq, nop_flag, ack_flag, seq_mask}
use libstored.Protocol.Arq.Seq.{IsSeq, headers}

pub data Item : Type 0 where
  message : Bytes → Item
  dummy : Item

abbrev pub header : ℕ → Item → ℕ
header f (message m) = f
header f dummy = bit_or f nop_flag

abbrev pub body : Item → Bytes
body (message m) = m
body dummy = []

-- The queue that holds items from number `f` on, and the number behind them.
unfoldable pub wires : ℕ → List Item → List Bytes
wires f [] = []
wires f (i ∷ is) = (header f i ∷ body i) ∷ wires (next_seq f) is

unfoldable pub after : ℕ → List Item → ℕ
after f [] = f
after f (i ∷ is) = after (next_seq f) is

-- The messages among the items.
unfoldable pub texts : List Item → List Bytes
texts [] = []
texts (message m ∷ is) = m ∷ texts is
texts (dummy ∷ is) = texts is

pub wires-append :
    (f : ℕ) (is : List Item) (j : Item)
    → wires f (is ++ (j ∷ [])) ≡ wires f is ++ ((header (after f is) j ∷ body j) ∷ [])
unfolding wires after
wires-append f [] j = refl
wires-append f (i ∷ is) j = rw (wires-append (next_seq f) is j) refl

pub after-append :
    (f : ℕ) (is : List Item) (j : Item) → after f (is ++ (j ∷ [])) ≡ next_seq (after f is)
unfolding after
after-append f [] j = refl
after-append f (i ∷ is) j = after-append (next_seq f) is j

pub texts-append_message :
    (is : List Item) (m : Bytes) → texts (is ++ (message m ∷ [])) ≡ texts is ++ (m ∷ [])
unfolding texts
texts-append_message [] m = refl
texts-append_message (message k ∷ is) m = rw (texts-append_message is m) refl
texts-append_message (dummy ∷ is) m = texts-append_message is m

pub texts-length : (f : ℕ) (is : List Item) → length (texts is) ≤ length (wires f is)
unfolding texts wires
texts-length f [] = omega arith
texts-length f (message k ∷ is) = omega (arith, texts-length (next_seq f) is)
texts-length f (dummy ∷ is) = omega (arith, texts-length (next_seq f) is)

pub header_ack : (f : ℕ) (i : Item) → IsSeq f → bit_and (header f i) ack_flag ≡ 0
header_ack f (message m) h = (headers f h).message_ack
header_ack f dummy h = ground (arith, headers f h)

pub header_seq : (f : ℕ) (i : Item) → IsSeq f → bit_and (header f i) seq_mask ≡ f
header_seq f (message m) h = (headers f h).message_seq
header_seq f dummy h = ground (arith, headers f h)

-- The payload that the receiver passes on is the message.
pub payload-header :
    (f : ℕ) (i : Item)
    → IsSeq f
    → (if bit_and (header f i) nop_flag == 0 then body i ∷ [] else []) ≡ texts (i ∷ [])
unfolding texts
payload-header f (message m) h = rw ((headers f h).message_nop) refl
payload-header f dummy h = rw ((headers f h).nop, (headers f h).nop_nop) refl

pub texts-cons : (i : Item) (is : List Item) → texts (i ∷ is) ≡ texts (i ∷ []) ++ texts is
unfolding texts
texts-cons (message m) is = refl
texts-cons dummy is = refl
