-- ===== src/Lib.antt =====
-- StormNet sends C++ values between the peers of a game: a writer packs them into bits, a pipe puts
-- them behind the header of its channel, a transmitter carries the message, and the protocol of the
-- other side hands it to the receiver of the channel, which reads the values back.
--
-- What models what:
--   Bits         words, shifts and masks as arithmetic on powers of two, numbers as lists of bits
--   BitUtil      NetBitUtil.h: Clz*, CountLeadingZeros, GetRequiredBits, min_store_t
--   BitWriter    NetBitWriterVector.cpp, NetBitWriter.cpp: a record of the bytes, of the bits in use of
--                the last byte, and of the count of bits; WriteBits is write_bits and so on;
--                BitWriter.Cursor has Reserve, RollBack and the writes through a cursor
--   BitReader    NetBitReaderBuffer.cpp, NetBitReader.cpp: a record with the memory that the pointer
--                walks through
--   ReaderVector NetBitReaderVector.cpp: readers that own their bytes
--   Codec        NetSerialize.h, NetDeserialize.h: an interface between types and containers, whose
--                laws say which bits a value is on the wire; its instances are Codec.Basic,
--                Codec.Plain, Optional (NetReflectionOptional.h), ArrayList
--                (NetReflectionArrayList.h), String (NetReflectionString.h) and Number
--                (NetReflectionNumber.h, at an unsigned type of 64 bits); Ptr (NetReflectionPtr.h) has
--                the objects of shared pointers in a heap
--   SparseList   NetReflectionSparseList.h: the list of the slots of its array, and the index behind
--                the highest one; Iterate has the iterators, Wire the full serialization
--   Delta        NetSerializeDelta.h, NetDeserializeDelta.h: an interface as Codec is one; its
--                instance is Delta.Plain; ArrayList.Delta has the lists, Delta.Struct has the reflected structs,
--                as lists of fields with their types, and Delta.Array the arrays
--   Map          NetReflectionMap.h: the list of the keys and values in the order of the keys
--   StaticList   NetReflectionStaticList.h: an index into a list that both sides have
--   Transmitter  NetTransmitter.cpp, NetTransmitterMemory, NetTransmitterNull: headers and queues
--   Protocol     NetProtocol.h, NetProtocolSender.h, NetProtocolReceiver.h: the dispatch of messages
--   Pipe         NetPipeFullState.h, NetPipeFullStateSeq.h, NetPipeBuffer.h, NetPipeMessage.h;
--                Pipe.SenderList is NetMessageSender.h; Pipe.DeltaState is NetPipeDeltaState.h over
--                the ring of states of NetStateStore.h, Pipe.Reliable NetPipeDeltaStateReliable.h
--   Pool         NetPoolAllocator.h: pointers are words of eight bytes, the memory a function
--                from addresses to bytes; Block and Reached have what its pools own
--   Result       exceptions as values
--   Examples     the theorems at concrete inputs
--
-- Writers, readers and containers are values: what C++ changes in place, a function here returns. A
-- callback is modelled by the list of what it was called with. The tuple of the pipes of a protocol is
-- a list over the sum of their types.
--
-- Words are natural numbers, and an operation that wraps around says so (% 2 ^ w). An int64_t is the
-- word of its two's complement. Counts of bits and bytes are below 2 ^ 31 in the sources' use, so
-- `int` arithmetic on them is plain arithmetic. The build without _DEBUG is modelled, with exceptions
-- on, on a little-endian machine.
--
-- WriteBitsInternal and ReadBitsInternal recur on a number of bits that falls by at least one in each
-- round, so the number of bits is fuel enough; WriteBuffer and ReadBuffer take at least eight bytes in
-- each round of words, so the number of bytes is. A capacity that is doubled 64 times is 0 and stays so,
-- which is what the fuel of SparseList.double stands for. The loops that move an iterator
-- through a sparse list, the one that removes its last values, and the one over the blocks of a pool take
-- the number of their tests as fuel, one more than there are slots or blocks; when it runs out, the
-- result is the error does_not_return.
--
-- Not modelled: delta serialization of sparse lists and maps, fixed-point numbers, ranged numbers of
-- signed types, bit buffers, random numbers, replay streams, the type database with the polymorphic
-- values and variants over it, and the tables of connections of server and client.
-- The enet backends (calls of a library), NetLerp.h (floating point) and NetBindings.h
-- (glue to a script engine) are left out.
pub mod Prelude
pub mod Bits
pub mod BitUtil
pub mod Result
pub mod BitWriter
pub mod BitReader
pub mod Codec
pub mod Optional
pub mod ArrayList
pub mod ReaderVector
pub mod String
pub mod Transmitter
pub mod Protocol
pub mod Pipe
pub mod Number
pub mod Ptr
pub mod StaticList
pub mod Examples
pub mod SparseList
pub mod Delta
pub mod Map
pub mod Pool
