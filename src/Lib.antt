-- ===== src/Lib.antt =====
-- BarrelTest: collections of units in C, either fixed (buckets, on memory of the caller) or
-- growing (barrel nodes, whose memory is cut from one heap in barrels of 32 bytes).
--
-- The parts, and how they work together. Helpers copy memory, compare text and build requests
-- (tHelpers.c). Types are registered by the address of their name (tTypeInfo.c). A Collection has
-- an entry of the registry of extensions (a type, a methods function and flags), a count and a
-- spin lock (tCollection.c). A Bucket adds a Chunk (tBucket.c, tChunk.c); a BarrelNode adds its
-- barrels (tBarrel.c), which it gets from a count of pages (tHeap.c). A user calls
-- Collection_Count, Collection_Read and the like, which build a request and send it to the methods
-- function.
--
-- The files, with the source they model:
--   Memory      byte memory; rawTranscribe, barrelTranscribe, stringTranscribe of tHelpers.c
--   Enums       tEnums.h and the limits of tDefines.h
--   Helpers     the rest of tHelpers.c; Request and Parameter of tModules.h
--   TypeInfo    tTypeInfo.c: the bins of types and properties, the page of null templates
--   Chunk       tChunk.c
--   Collection  tCollection.c: the registry of extensions, the lock, the fields of a Collection
--   Bucket      tBucket.c
--   Heap        tHeap.c; Worker has its thread, and the start of a thread (tServices.c, tThreads.c)
--   Barrel      tBarrel.c: the service and its nodes; Moves, Rolling, Sizing, Making and Methods.
--               Moves.Units, BackUnits and BackByOne follow the units of one node through a move,
--               Rolling.Chains, Keeps and Waits a whole chain of nodes through Barrel_Roll,
--               Sizing.Adding, Making.Filling and Making.Attaching a new node on its way into the chain
--   Numbers     tPreent.c: the length of a text, numbers to text and back; Formats has numConvert
--   Printing    tPreent.c: Preent and Geet; Pieces has what Preent writes, without its buffer
--   Links       tLink.c: doubly linked records
--   Ques        tQues.c: the queue that goes round in a bucket
--   User        tCollection.c: what a user calls on any collection; Units has the array of units
--               that Spans, Writing and RoundTrip are about, Chunks what they rely on in a collection,
--               which Buckets and Nodes give for the two kinds
--   Vectors     tVector.c: spans between chunks that are read round
--   Menu        BarrelTest.c: the menu of the test program
--   Base        shared helpers: tests, lists, integers, machine words, the result of a call
--   Tests       runs at concrete inputs
--
-- How the code is read. Memory is a function from addresses to bytes, and structs are words in it,
-- as the 64-bit build lays them out. The statics of the program are records (Bins, World,
-- HeapService, Service) that the functions take and return. The registries are lists; a pointer
-- into one is its index plus one, and NULL is 0. The two functions that are registered as methods
-- are the numbers 1 and 2. Unsigned arithmetic wraps at 2 ^ 32 or 2 ^ 64; the signed sums that the
-- code forms of small numbers do not wrap. `_barrelStart`, an int, is read as the unsigned number
-- of its bits, and the negation of INT_MIN in numConvert's signed formats is exact. A call
-- returns, waits for ever, faults, or runs out of the fuel of the model (Run). A pointer into a
-- registry that is no index of it faults, so that the call of Vector_Transcribe0 of itself, which
-- takes chunks for collections, faults at their heads where the code reads what lies there. Each
-- function that takes locals by address gets their addresses from a Frame.
--
-- Bounds and fuel. Loops with a counter recurse on the rounds left. The text loops take one round
-- for each character and one for the NUL; integerConvert one for each byte of its buffer; the
-- doubling loop of Barrel_NodeCtor one for each byte left on the heap; Barrel_Roll, which follows
-- the chain of nodes, one for each node. Barrel_Grow takes as many rounds as the node has barrels
-- afterwards. The loop of the menu takes one round for each line that is typed, and one more;
-- without them its answer is none. Vector_Transcribe0 takes the locals of its calls of itself from
-- a list.
--
-- What is outside. Console output is collected in Printing; elsewhere the lines that only print
-- are left out, but for what the messages of the menu and the one of Barrel_DeltaSize leave in the
-- buffer that the menu reads: what Barrel_ServiceInit, Barrel_ctor and Collection_GetExtensions
-- leave there, behind or before the menu's own messages, is not kept. The operations on doubles
-- are a parameter (Numbers.Formats.Doubles). The lookup of extensions is modelled for a type that
-- is not NULL: its debug output would follow the NULL. The answers of HeapCreate,
-- HeapSetInformation and CreateThread are a parameter (Heap.System), the calls of HeapAlloc and
-- HeapFree a list. Where the linker puts the statics, and what lies behind the bin of types, is a
-- parameter (TypeInfo.Layout). Interlocked operations are the compiler's intrinsics. The
-- constructors of tMutation.c use initialisers that do not fit the structs of tModules.h and are
-- not modelled, nor are the mains of TestArea.c and MutationTest.c; tHashMap.c is commented out,
-- and openssl-master is a copy of another project.
pub mod Base
pub mod Memory
pub mod Enums
pub mod Helpers
pub mod TypeInfo
pub mod Chunk
pub mod Collection
pub mod Bucket
pub mod Heap
pub mod Barrel
pub mod User
pub mod Numbers
pub mod Printing
pub mod Links
pub mod Ques
pub mod Vectors
pub mod Menu
pub mod Tests
