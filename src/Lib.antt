-- ===== src/Lib.antt =====
-- opentele-ng, checked: the storage layer of a library that reads and writes the data folder of
-- Telegram Desktop ("tdata").
--
-- The parts, from the bottom up, each file with the source it models:
--   Qt: byte arrays, buffers and the big-endian stream of `src/td/qdatastream.py`. Qt/ByteArray has
--     `QByteArray`, Qt/Buffer `QBuffer`, Qt/DataStream the stream itself, Qt/Primitive its integers,
--     Qt/Utf16 and Qt/Text its strings, Qt/Blob raw data and byte arrays. Qt/Session says what it
--     means to read or to append given bytes, and has the round trips.
--   Bytes: integers as digits to the base 256, as `struct` and `int.to_bytes` lay them out.
--   Ids: `PeerId`, `DcId` and `ShiftedDcId` of `src/td/configs.py`.
--   Exception and Exec: the exceptions of `src/exception.py` as values, `Expects`, and code that changes
--     an object and may raise: a function from the state to a result and a state.
--   Crypto: the digests and the cipher that the program takes from `hashlib` and `tgcrypto`, as a
--     record of functions, with the sizes and the inversion that they document as laws.
--   Auth: `AuthKey` of `src/td/auth.py`.
--   Storage: `src/td/storage.py`. Storage/Local has `EncryptedDescriptor`, `PrepareEncrypted` and
--     `DecryptLocal`; Storage/File the files, with `FileWriteDescriptor` in Storage/File/Write and
--     `ReadFile` and `ReadEncryptedFile` in Storage/File/Read.
--   MapData: the map file of `src/td/account.py`. MapData/Keys has `lskType`, MapData/Read `_GuardCount`
--     and the loop of `MapData.read` over the decrypted stream, MapData/Write and MapData/Descriptor
--     `prepareToWrite`, MapData/Blocks and MapData/File the map file itself: `writeMap` and the start of
--     `MapData.read`, which turns to a legacy key where it is given none. The other
--     files have the layout of the sections and what follows from it.
--   Account: the authorization of an `Account` of `src/td/account.py`, which the file of the account
--     holds encrypted: `_setMtpAuthorization` and `serializeMtpAuthorization`. Account/Layout has the
--     bytes, Account/RoundTrip what follows.
--   Mtp: `MTP.DcOptions` of `src/td/mtp.py` with the built-in data centres of `src/td/configs.py`, and in
--     Mtp/Options their serialized form. Mtp/Keyed has what holds of the data centres after any use,
--     Mtp/Layout the bytes that are written, Mtp/Stored those that can be read. Mtp/Config has
--     `MTP.Config`; its children Write and Read the serialized form, Endpoints the choice of endpoints, Reload and Refusal what a saved configuration is read as.
--   Storage/Names and Storage/Settings: `CreateLocalKey`, `ComputeDataNameKey`, `ToFilePart`,
--     `ComposeDataString` and `ReadSetting` of `src/td/storage.py`. Storage/Settings/Layout has
--     the bytes of each settings block and what it changes, Storage/Settings/Reads their reading.
--     Storage/Sealed has encrypted files of one block.
--   StorageAccount: `StorageAccount` of `src/td/account.py` over a disk of folders: `start` and what it
--     reads in StorageAccount/Read, `_writeData` and what it writes in StorageAccount/Write. The other
--     files have what follows.
--   TDesktop: `src/td/tdesktop.py`. TDesktop/Load has `LoadTData`, TDesktop/Save and TDesktop/Streams
--     `SaveTData` with the new local key, TDesktop/Performance its fixed keys; TDesktop/Invariant what holds
--     after a load, TDesktop/Accounts and TDesktop/Reload what is loaded from
--     files that hold a client, TDesktop/Missing what comes of a missing key file. TDesktop/Leaves has rules
--     about what a computation leaves.
--   Examples: the theorems at concrete inputs.
--
-- `MapData` writes its sections to the stream of an `EncryptedDescriptor`; `PrepareEncrypted` puts
-- the size in front, fills up to blocks and encrypts; `FileWriteDescriptor` writes the result behind
-- a size, and the digest of everything behind that; reading goes back the same way.
--
-- Numbers are natural numbers, or the ℤ of Prelude/Int where they can be negative; every width is
-- written out. Bit masks are divisions and remainders. A stream owns its buffer and a buffer its
-- array, where the source shares them: `finish` takes the array from the buffer. The loop of
-- `MapData.read` runs on fuel, one more than the bytes at hand; a section takes at least the four
-- bytes of its key, so that the fuel is enough on every stream (MapData/Progress, MapData/Termination).
--
-- Not modelled: the conversions of `src/td/account.py` and `src/td/tdesktop.py` to and from Telethon
-- clients, and `src/api.py`. Not modelled either, as they are network clients, reflection or glue:
-- `src/tl/`, `src/utils.py`, `src/debug.py`, `src/devices.py`, `src/__main__.py` and the scripts.
pub mod Prelude
pub mod Examples
pub mod Exception
pub mod Exec
pub mod Bytes
pub mod Qt
pub mod Ids
pub mod MapData
pub mod Mtp
pub mod StorageAccount
pub mod TDesktop
pub mod Crypto
pub mod Auth
pub mod Storage
pub mod Account
