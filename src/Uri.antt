-- ===== src/Uri.antt =====
-- uri.h and uri.cpp: the percent coding, and the parser that is built without liburiparser.
pub mod Codec
pub mod RoundTrip
pub mod Parse
pub mod Components
pub mod Writing
pub mod Shapes
mod Tests
