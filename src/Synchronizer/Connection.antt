-- ===== src/Synchronizer/Connection.antt =====
-- SyncConnection (include/libstored/synchronizer.h, src/synchronizer.cpp): the stores that are
-- synchronized over a connection, their ids, and the messages that the connection sends. Pointers
-- to journals are numbers.
pub mod Drop
pub mod Messages
pub mod Receive
pub mod NextId
pub mod Codec
pub mod Handshake
pub mod Commands
pub mod Start
pub mod Flow
pub mod Exchange
pub mod HelloAgain
pub mod Ids
pub mod Valid
use libstored.Prelude.{
  ℕ, zero, suc, Bool, true, false, ◌||◌, List, [], ◌∷◌, ◌++◌, Option, none, some,
}
use libstored.Prelude.{◌==◌, if◌then◌else◌, ◌+◌, ◌-◌, ◌*◌, ◌/◌, ◌%◌, ◌^◌, ltb, length, take, drop}
use libstored.Protocol.{Bytes, Chunk}
use libstored.Synchronizer.StoreJournal.Message.{to_little, to_big, of_little, of_big}
use libstored.Synchronizer.Map.{Map, contains}

pub record StoreInfo : Type 0 where
  pub seq : ℕ
  pub id_out : ℕ
  pub source : Bool

-- A new entry of `m_store`.
abbrev pub no_info : StoreInfo
no_info = record { seq = 0; id_out = 0; source = false }

-- `sent` has the calls of `encode` of the layer below.
pub record SyncConnection : Type 0 where
  pub stores : Map StoreInfo
  pub id_in : Map ℕ
  pub id_in_next : ℕ
  pub sent : List Chunk

unfoldable pub connected : SyncConnection
connected = record { stores = []; id_in = []; id_in_next = 1; sent = [] }

-- What the connection knows of the program around it: Config::StoreInLittleEndian, the hash of
-- each journal, and the map of the Synchronizer from hashes to journals. That a hash is longer than
-- an id, which encodeHash asserts, is left to the program.
pub record Registry : Type 0 where
  pub little : Bool
  pub hash : ℕ → Bytes
  pub store_map : List (Bytes × ℕ)

-- `stored_assert` fails, a loop is not done in the rounds it is given, or the store is written past
-- its end.
pub data Outcome (A : Type 0) : Type 0 where
  running : A → Outcome A
  assertion_fails : Outcome A
  unfinished : Outcome A
  past_end : Outcome A

infixl 5 ◌>>=◌
abbrev pub ◌>>=◌ : {A B : Type 0} → Outcome A → (A → Outcome B) → Outcome B
◌>>=◌ m f = elim m [
  | running a ↦ f a
  | assertion_fails ↦ assertion_fails
  | unfinished ↦ unfinished
  | past_end ↦ past_end
]

abbrev pub assert_that : {A : Type 0} → Bool → A → Outcome A
assert_that ok a = if ok then running a else assertion_fails

-- `strcmp` finds no difference.
unfoldable pub same_hash : Bytes → Bytes → Bool
same_hash [] [] = true
same_hash [] (y ∷ ys) = false
same_hash (x ∷ xs) [] = false
same_hash (x ∷ xs) (y ∷ ys) = let rest = same_hash xs ys in if x == y then rest else false

unfoldable pub find_hash : Bytes → List (Bytes × ℕ) → Option ℕ
unfolding same_hash
find_hash hash [] = none
find_hash hash ((h, j) ∷ rest) =
    let later = find_hash hash rest in if same_hash hash h then some j else later

unfoldable pub to_journal : Registry → Bytes → Option ℕ
unfolding find_hash
to_journal reg hash = find_hash hash reg.store_map

-- The commands: 'h', 'w', 'u' and 'b', in upper case where the stores are big-endian.
pub data Command : Type 0 where
  hello welcome update bye : Command

abbrev pub command_byte : Bool → Command → ℕ
command_byte true hello = 104
command_byte true welcome = 119
command_byte true update = 117
command_byte true bye = 98
command_byte false hello = 72
command_byte false welcome = 87
command_byte false update = 85
command_byte false bye = 66

unfoldable pub command_of : Bool → ℕ → Option Command
command_of little b =
    if b == command_byte little hello
    then some hello
    else if b == command_byte little welcome
    then some welcome
    else if b == command_byte little update
    then some update
    else if b == command_byte little bye
    then some bye
    else none

unfoldable pub send : List Chunk → SyncConnection → SyncConnection
send chunks c = record c { sent = c.sent ++ chunks }

unfoldable pub encode_cmd : Bool → Command → Bool → List Chunk
encode_cmd little cmd last = (command_byte little cmd ∷ [], last) ∷ []

-- The command, or 0 on an error, and what is left.
unfoldable pub decode_cmd : Bytes → ℕ × Bytes
decode_cmd [] = (0, [])
decode_cmd (b ∷ bs) = (b, bs)

abbrev pub id_bytes : Bool → ℕ → Bytes
id_bytes little id = if little then to_little 2 id else to_big 2 id []

unfoldable pub encode_id : Bool → ℕ → Bool → List Chunk
encode_id little id last = (id_bytes little id, last) ∷ []

-- The id, or 0 on an error, and what is left.
unfoldable pub decode_id : Bool → Bytes → ℕ × Bytes
decode_id little buffer =
    if ltb (length buffer) 2
    then (0, buffer)
    else ((if little then of_little (take 2 buffer) else of_big 0 (take 2 buffer)), drop 2 buffer)

-- The loop of `nextId`: the id, and `m_idInNext`.
unfoldable pub search_id : ℕ → Map ℕ → ℕ → Outcome (ℕ × ℕ)
search_id zero id_in next = unfinished
search_id (suc fuel) id_in next =
    let rest = search_id fuel id_in ((next + 1) % 2 ^ 16) in
    if next == 0 || contains next id_in then rest else running (next, (next + 1) % 2 ^ 16)

-- There are 2^16 ids.
unfoldable pub next_id : SyncConnection → Outcome (ℕ × SyncConnection)
unfolding search_id
next_id c =
    if ltb (length c.id_in) ((2 ^ 16 - 1) / 2)
    then (do
      (id, next) ← search_id (2 ^ 16) c.id_in c.id_in_next
      running (id, record c { id_in_next = next }))
    else assertion_fails
