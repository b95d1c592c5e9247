-- ===== src/Tests.antt =====
-- Tests of the models at concrete inputs, and applications of the theorems to them.
mod Support
mod Crates
mod QueueTests
mod ServerTests
mod AuthTests
mod ClientTests
mod Chars
mod Tokens
mod ByteWire
mod MainTests
mod PlaceTests
mod ThreadTests
mod WireTests
mod LoginTests
mod SubmissionTests
mod RetrievalTests
mod RelayTests
mod Codecs
mod FileTests
mod StoreTests
