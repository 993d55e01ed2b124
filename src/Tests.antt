-- ===== src/Tests.antt =====
-- Tests, and each law applied to small objects.
mod StreamTests
mod TextTests
mod SmallLua
mod LuaTests
mod HostTests
mod ObjectTests
mod SmallWorld
mod SocketObjectTests
mod DumpTests
mod FileTests
mod CipherTests
mod SocketTests
