-- ===== src/Lib.antt =====
-- The H1Z1 server: a host that runs Lua plugins (ServerHost), the library behind it with byte
-- streams, sockets, files and the Lua interface (ServerSystem), and the packet cipher of the game's
-- network protocol (SonyNetworking). A plugin gets a packet from a socket as a byte stream, reads
-- fields and strings off it, writes an answer into another stream, and has it encrypted by a
-- stream converter.
--
-- Which module is which part:
-- - Base: lists over the native numbers, 32-bit sums and differences, bytes of a word, and the
--   outcome of a call: it returns (`done`), throws (`threw`, with the object as it then is), or
--   does what C++ leaves undefined, as an access outside a block of memory (`fault`).
-- - Stream: ServerSystem/Stream. `Stream` has the fields of `ByteStreamBuffer`; its block of
--   memory is an optional list of bytes. Stream.Buffer has the constructors, `Resize`, and the
--   macros SAFETY_CHECK and AUTO_BUFFER; Stream.Writer and Stream.Reader have `WriteData`,
--   `ReadData` and the methods for words; Stream.Text has `WriteString` and `ReadString`,
--   Stream.WideText `WriteWString` and `ReadWString`. A method takes the stream before the call and
--   gives the stream after it. The other modules prove.
-- - Rc4: SonyNetworking/RC4, the class `CRC4`. The memory of an object is a list from `sbox` on,
--   since the key schedule runs past the end of `sbox`.
-- - Converter: SonyNetworking/Networking, the class `StreamConverter`, over both.
-- - Sockets: ServerSystem/Sockets, the handlers of `NetSocket` and their user data. The vector and
--   the map of the class are lists; Sockets.Registry has the abstract registry that they stand
--   for, Sockets.Reachable a step relation for the methods, and Sockets.Threads what Windows says of
--   the calls for threads. What a handler does, and what `recvfrom` returns, are parameters; a
--   handler may change the socket it is called with. Sockets.Lifetime has the constructor, the
--   thread and sending, with the calls of winsock and Windows as values.
-- - Lua: the functions of the interpreter that the program calls, as a record of operations and of
--   what the manual of Lua says of the stack, the registry and the tables.
-- - TableReader: ServerSystem/LuaSystem/LuaManager, the class `LuaTableReader`; LuaManager: there
--   too, the class `LuaManager`, with the names that it makes of paths (FileSystem/File).
-- - Plugins: ServerSystem/LuaSystem, `Load` and `Unload` of the plugins.
-- - LuaStream: ServerSystem/LuaSystem/Stream, the Lua objects for streams. The interpreter's checks
--   of arguments are a record of operations; the objects are a list of streams.
-- - LuaNetSocket: ServerSystem/LuaSystem/NetSocket, the Lua objects for sockets, their events and
--   the handler that is registered for every event. Events has `Connect`, `Disconnect` and that
--   handler; Methods has the methods by name and `NetSocket.New`. A world is the interpreter's
--   state with the sockets, events and readers that scripts have made; a pointer is a place there.
--   What a script's function does when it is called is a parameter, with what the manual of Lua
--   says of the stack behind `lua_pcall`.
-- - LuaDebug: ServerSystem/LuaSystem/Debug, the hex dump as the text that it prints.
-- - Files: ServerSystem/FileSystem. Files.Disk has what reads and changes the disk, over the
--   system's own operations as a record, and Files the listings of directories, from what the
--   system answers.
-- - ServerHost: ServerHost/main. Options has the arguments and the start, Elements the loop over a
--   table, Configuration the bodies of the two such loops and what stands around them, Servers the
--   loop over the folders, where each call asks a disk that may have changed since the last one.
--   Entries, Reading, Port and Running prove.
-- - Tests: small inputs, and each result applied to one.
--
-- Bounds: the build is Win32, so `int` and `SIZE_T` are numbers below 2 ^ 32, a negative `int` is
-- its bit pattern, and sums wrap. A valid stream is smaller than 2 ^ 31 bytes. Memory is granted or
-- not by a parameter `malloc`, from its size. The loops run over a list or for a number of rounds
-- that the code computes first, but for two. That of `Listener`, which handlers may prolong, has
-- fuel, and more rounds than handlers are enough where they leave the socket as it is; those over
-- tables have fuel, and one round more than entries is enough. The byte swaps of the compiler are
-- taken to reverse the bytes of a word.
--
-- Not modelled: what winsock does, what the threads of `NetSocket` do beyond the calls of `Listener`,
-- the fields of the metatables, the block that a Lua reader shares with its writer once that grows,
-- or with a packet once `Listener` frees it, and what the program prints but for the hex dump; the
-- Lua interpreter in ServerSystem/Lua is another project's, and only its interface is here.
pub mod Base
pub mod Stream
pub mod Rc4
pub mod Converter
pub mod Sockets
pub mod Lua
pub mod TableReader
pub mod LuaManager
pub mod Files
pub mod Plugins
pub mod LuaStream
pub mod LuaNetSocket
pub mod LuaDebug
pub mod ServerHost
pub mod Tests
