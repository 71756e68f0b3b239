-- ===== src/Lib.antt =====
-- The message layer of a TCP client for Lua scripts: the messages and their buffers, the frames on
-- the wire, and the connection that sends and receives them.
--
-- The program. A script fills a NetMessage by its writers, between beginForWrite and endForWrite.
-- The latter puts the length in front of the body. CConnectionManager::SendMsg queues the message,
-- and Update, which the script calls once in a frame, asks select() what the socket can do, sends
-- what is queued, and puts what recv() delivers together to messages. Messages take their buffers
-- from one pool, and give them back when they are deleted.
--
-- Files.
--   Common: shared names; Result, the outcomes of a run; integers and bytes; list lemmas.
--   MemBuffer: class MemBuffer of NetMessage.cpp. The block is a list of bytes, beside the size that
--   the class records. malloc and realloc are a parameter (Allocator), with what the C standard says
--   of them (IsAllocator) and that memory does not run out (HasMemory). An access outside the block
--   is a fault. MemBuffer/Growth is about the loop of checkBufSize, MemBuffer/Copy about memcpy.
--   NetMessage: class NetMessage of NetMessage.h and NetMessage.cpp, as a record of its fields. The
--   children are NetMessage/Write (wShort is w_short, and so on), NetMessage/Read (rShort is
--   r_short), NetMessage/Frame (beginForWrite, endForWrite, onReceive) and NetMessage/Fields, where
--   a body is a list of typed fields with an independent description of its bytes.
--   NetMessage/Frame/Receive follows a message through the chunks that recv() delivers.
--   MessagePool: class CMessageBufPool of NetMessage.cpp (Init, require, release), and the
--   constructor and destructor of a message, which call it. MessagePool/Bag is the abstract view of
--   the pool, without the order of its buffers, and Account and Conserved are about whole runs.
--   Network: class CSocketCommon of SocketCommon.h and SocketCommon.cpp, over the system calls, which
--   are a parameter (Network) with a state of their own.
--   Connection: class CConnectionManager of ConnectionManager.h and ConnectionManager.cpp. Opening
--   and closing are in Connection, Update and its loops in Connection/Update, with one definition
--   for each loop and each block; Connection/Update/Outbox and Inbox follow the two lists through
--   their loops, Channel joins two connections, Exchange is about a whole turn, and TimeOut about a
--   peer that does not answer. Connection/Steps has the calls of a program as a step relation, in
--   which the rest of the process may step in between; Tries is about the addresses that DoConnect
--   tries, Opens about how Connect ends, Renews about what Connect and ReConnect keep,
--   Counting and Leak about the descriptors that they open, Returned about the destructor. Process
--   is what the objects of the process share: the operating system, the pool, and the addresses of
--   new messages.
--   SocketObject: eng_socket.h and eng_socket.cpp, the named sockets that a script sees, and the
--   function generateSecret. What comes from the Lua stack is an argument. SocketObject/Uses has the
--   methods as steps, each of which is one or more of Connection/Steps.
--   LuaMsg: LuaMsg.h and LuaMsg.cpp, the message that a script holds. LuaMsg/Script is about sending,
--   LuaMsg/Inbox about loading.
--   LuaApi: the calls of Lua's C API, a parameter with a state of its own. LuaApi/Machine has what the
--   reference manual says of them, as laws on a view of that state (IsLua), which knows of each
--   object whether it is a table, a userdata, or a closure, of which function and over what.
--   LuaWrapper: LuaWrapper.h, the template LuaPlus with the class as a parameter (Class): push and the
--   functions that Lua calls. LuaWrapper/Register has Register, RegisteSocketClassL, setHook, and the
--   registration of LuaWrapper.cpp and eng_socket.cpp. The tables of methods, of functions, and the
--   chunk of setHook are arguments. LuaWrapper/Sees has the laws at a known view; LuaWrapper/Push, Make,
--   Known and Identity are about push, Collect about gc_T, Lifetime joins the two, and the children of
--   LuaWrapper/Register follow a class through Register (Closures: which function a table has at a
--   name).
--   Tests: runs on concrete inputs.
--
-- Numbers. A position in a block and a recorded size are natural numbers, since they are never
-- negative; an addition that overflows an int is a fault where the model makes it. m_size, and what
-- comes from outside, is an integer. A writer takes the bit pattern of its value. Floats and doubles
-- are bit patterns, and a double lies in memory with its lowest byte first. m_tOutTimer less dt is a
-- fault where it is not an integer of 32 bits.
--
-- Faults. A fault is what C++ leaves undefined: an access outside a block, a null pointer, an integer
-- that overflows, realloc to no bytes, FD_SET of a descriptor that is not below FD_SETSIZE (1024), and
-- memcpy of an object onto itself, which DoConnect does when ReConnect hands it m_server. That a
-- system's descriptors are below FD_SETSIZE is a hypothesis where a theorem excludes the fault.
--
-- Addresses. The address of a new message stands for its identity, and counts up: no two messages
-- have the same one.
--
-- Loops. A doubling loop gets 32 rounds: a recorded size of at least 1 passes 2 ^ 30 by then, and
-- the next doubling would overflow an int. The loops of Update take their rounds as arguments, since
-- how often they run is up to the network; a run that has used them up is `stuck`. A round for each
-- byte and one more are enough for the loop over a message that is sent, if each call of send()
-- takes a byte at least.
--
-- Not modelled: the build for Windows; printf; the destructors of the process's end; and the copy of
-- the Lua distribution under lua/, which the program only calls.
pub mod Common
pub mod MemBuffer
pub mod NetMessage
pub mod MessagePool
pub mod Network
pub mod Connection
pub mod SocketObject
pub mod LuaMsg
pub mod LuaApi
pub mod LuaWrapper
mod Tests
