-- ===== src/Lib.antt =====
-- libstored: the protocol layers, the queues, the synchronizer and the directory of libstored,
-- modelled and verified.
-- A layer of a protocol stack takes messages from the layer above (`encode`, in parts) and frames
-- from the layer below (`decode`). An application stacks layers between its debugger or its
-- synchronizer and a channel. This development models include/libstored/protocol.h and the
-- part of src/protocol.cpp that does not depend on the operating system; the queues of
-- include/libstored/fifo.h; src/synchronizer.cpp, where StoreJournal records the changes of a store,
-- SyncConnection sends them over a protocol stack, and Synchronizer has the stores and the
-- connections; and src/directory.cpp, which finds the objects of a store by their names.
--
-- Parts:
-- - Prelude: names of the libraries, Boolean tests, lemmas on lists, bits and exclusive or.
-- - Protocol, Protocol/Layer, Protocol/Parts: a layer as a record of its two functions, with the
--   state of the sending and of the receiving end; `stack` puts one on top of another; `Carries`
--   is the interface that a layer's proof fills, and stacks of such layers fill it too.
-- - Protocol/Chain: the pointers of ProtocolLayer, with `wrap` and `stack`.
-- - Protocol/Stacks: a stack of four layers.
-- - Protocol/AsciiEscape, Terminal, Segmentation, Crc8, Crc16, Buffer: a file for each of
--   AsciiEscapeLayer, TerminalLayer, SegmentationLayer, Crc8Layer, Crc16Layer, BufferLayer, with
--   the proofs in the modules below it. Terminal/NonDebug is about nonDebugEncode.
-- - Protocol/Loopback: Loopback1, one direction of Loopback.
-- - Protocol/Arq: ArqLayer, whose operations return the calls, events and failed assertions as a
--   list of effects; Link has the two ends over a link that loses frames.
-- - Protocol/DebugArq: DebugArqLayer; Seq has the bytes of its sequence numbers, Retransmit what a
--   repeated command does. The calls of the layer above are a parameter here too.
-- - Fifo: Buffer and Fifo; Ring has what a bounded one holds, Refine a list in its place, Growing
--   the unbounded one. Fifo/Message: MessageFifo; Bounds has where it writes.
-- - Synchronizer/Journal: the recursive functions of StoreJournal on ranges of its vector, which is
--   a binary tree; a range is the list of its elements. Halves has the induction on ranges, ShortSeq
--   the sequence numbers in 16 bits, Stamp what a vector means, Find, Iterate, Update, Regenerate
--   and Sort the functions.
-- - Synchronizer/StoreJournal: the journal as a record, and its operations. Vector, Changed, Later,
--   Bump, Window, Stale, Clean, Erase and Reach have what they do in time. Message has its messages,
--   as calls of `encode` of the layer below, with the proofs in the modules below it.
-- - Synchronizer/Connection: SyncConnection, with its messages as calls of `encode`; Drop has how
--   it lets go of stores, Messages what it sends of its own, Receive what it does with a message.
--   Codec has the fields of the messages, NextId the search for an id, Handshake and Start the
--   Hello and the Welcome, Flow and Exchange the updates, HelloAgain a loop that does not end; Ids
--   and Valid have the ids that the connection keeps, and what it can get to.
--   Synchronizer/Map: std::map as the list of its pairs, Sorted their order.
-- - Synchronizer/Service: Synchronizer; Unmap has what is left of a store that is deregistered.
-- - Directory: `find` and `list` over the memory of a directory, ObjectType the flags of a type.
--   Tree is what the memory describes, Numbers has the numbers in it, Refine and Listing show that
--   the two functions walk over the tree, Complete and Sound relate what they give, and Matching has
--   the names that match.
-- - Protocol/Tests, Fifo/Tests, Directory/Tests, Synchronizer/Tests: runs on concrete inputs.
--
-- Bytes are natural numbers; theorems that need it state that they are below 256. `size_t` is
-- modelled with 64 bits, and what may wrap around is written modulo 2^64. The loops of
-- SegmentationLayer::encode and BufferLayer::encode are on fuel: `enough` grants two rounds a
-- byte, and `length` one, and the proofs show that nothing is left over.
--
-- In ArqLayer the layer above is a parameter: the calls of `encode` that it makes while it decodes
-- a message. Memory is not modelled: allocation succeeds, and the store of spare buffers is a
-- number. The link that joins two stacks hands over whole frames.
--
-- The functions of StoreJournal on ranges are on fuel, which is the length of the vector; `halving`
-- proves that it is enough. The loop of decodeUpdates is on fuel, and as many rounds as bytes are
-- enough. std::sort is a parameter, of which the proofs use that it permutes and orders. What
-- `memcpy` would write past the end of a store ends the model of decodeUpdates. The memory order of
-- the atomic pointers of Fifo is not modelled: a run is a sequence of whole operations.
--
-- A journal is known by a number in place of its pointer, and the journals are a function of it. A
-- step of SyncConnection returns, or an assertion fails, or it is not done with its rounds: nextId
-- has 2^16 of them, which is enough, and the loop of helloAgain has as many as one likes, which is
-- never enough. The assertion of encodeHash, that a hash is longer than an id, is not modelled, and neither are those of
-- Buffer::set, that the write is within the buffer, of pushEncodeQueueRaw, that a spare buffer is
-- empty, and of waitingForAck, that the front message is not. The one of decodeKey on other sizes of
-- keys is a failed decode.
-- `find` and `list` of the directory are on fuel: the height of the tree is enough. A
-- number in a directory has ten bytes at most.
--
-- Not modelled: the layers on files, pipes, sockets and consoles, the poller and ZeroMQ, which
-- wrap the operating system or another library; the debugger, the loopback on fifos; the generated
-- stores.
pub mod Prelude
pub mod Protocol
pub mod Fifo
pub mod Synchronizer
pub mod Directory
