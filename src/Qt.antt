-- ===== src/Qt.antt =====
-- src/td/qdatastream.py: the byte arrays, buffers and streams of Qt's serialization format.
--
-- A Python object that another object refers to is a field of that object here: the device of a
-- stream is in the stream, and the byte array of a buffer is in the buffer. The program keeps no
-- second reference to an object that it changes through the first, but for the `data` of a
-- descriptor, which is read back from the descriptor's buffer.
pub mod ByteArray
pub mod Buffer
pub mod DataStream
pub mod Primitive
pub mod Blob
pub mod Utf16
pub mod Text
pub mod Session
