-- ===== src/Lib.antt =====
-- The client library of the time machine, tsclient/recstore-ts/src: index.ts, which turns what the
-- server sends into requests, responses and records, and compiled.js, the code that pbjs generates for
-- the messages. Beside it stands the side of the server that the client talks to: the store,
-- src/DbClient.cpp with src/IDComparator.cpp, src/handlers/SaveHandler.cpp, which stores a body, and
-- src/handlers/GetRangeHandler.cpp and SubsamplingHandler.cpp, which send a range and a sample.
--
-- How the parts work together: SaveHandler stores a body under an ID that GenerateId makes; the store
-- scans the entries of a folder in the order of its comparator and gives those of a range to the
-- handler, which sends them as rows; decodeTsRecord cuts them into records with the bytes of their
-- entries; asServingReqRes cuts such bytes into a request and its response, and gives each to the
-- decode function of its message in compiled.js. These call one another, and the Reader and Writer of
-- protobufjs.
--
-- Files:
--   Base, JsObject   numbers, lists, tests; JavaScript objects that serve as maps
--   Protobuf         the patterns that all messages of compiled.js share. Outcome: a call returns,
--                    throws, or the model is out of fuel. Runtime: protobufjs, a parameter with what
--                    its documentation says. Loop, Decoder: the loop of `decode` and its frame.
--                    Optional, Repeated, Packed, ScalarList, MapField: the kinds of fields. Codec,
--                    Build, RoundTrip, Unknown: what every message promises, and what follows
--   Wrapper, Monitoring, Serving, Tensor
--                    the messages of google.protobuf and of hydrosphere.monitoring,
--                    .tensorflow.serving and .tensorflow, a file each. `M.encode`, `M.decode`,
--                    `M.encodeDelimited` and `M.decodeDelimited` of compiled.js are `encode`,
--                    `decode`, `encode_delimited` and `decode_delimited` of the file M; `on_field` is
--                    the switch in `decode`, and `wire` the bytes that a message has. Tensor/Nested
--                    ties the recursion of tensors in tensors
--   Convert, JsValue `verify`, `fromObject`, `toObject` and `toJSON` of seven messages that hold no
--                    tensors, a file each, over plain JavaScript values. Rows, Fields, Kinds, Arrays,
--                    Conversion: what they share
--   Index            index.ts. Bytes: readInt, readLong and slices. ReqRes: decode, decodeRespOrError
--                    and asServingReqRes. TsRecords: decodeTsRecord
--   Server           Key: the keys, SerializeID and DeserializeID of src/utils/RepositoryUtils.cpp.
--                    IdComparator: Compare. Cursor: an iterator of RocksDB, a parameter with what its
--                    documentation says. Iter: DbClient::Iter; its children Scan and Loop (the loop),
--                    Seek (the start), Range, Forward, and Newer, Behind and Backward for a scan in
--                    reverse. GenerateId: GenerateId, GetUniqueRange and the number that
--                    LocalDBClient starts with. GetRange: the callback of
--                    GetRangeHandler::handleRequest, row by row, with Client, which reads the rows;
--                    Handler: the whole of it; Limits: the limits of a request; Answer: what is sent
--                    for a range; Size: its bytes. Subsampling: SubsamplingHandler::handleRequest and
--                    GetUniqueRangeForTS, with Amount (the rows that are sent), Stack (its array of
--                    keys) and Period (the range that is found). Save: SaveHandler::handleRequest;
--                    Stored: how a body that is stored is read back
--   Sample, Examples a concrete runtime, ByteBuffer, BinaryWriter and RocksDB that keep all that is
--                    relied on, and messages and bytes on which the results with conditions are
--                    applied
--
-- A message is a record with `none` for a singular field that is not an own property or is null. A map
-- is the list of its properties in the order of Object.keys; keys that are array indices, or
-- __proto__, are out of scope, which `IsPlainKey` says. A number of 64 bits is given by its bits, and
-- so is a double or a float. A read that throws is one failure, whatever the error.
--
-- Fuel: the loop of `decode` has one round more than bytes left, which is enough since each round
-- takes a byte or more or throws; so have the loop of a packed field and that of decodeTsRecord, where
-- a round takes twenty bytes or more. Tensors nest in tensors: `Tensor n` are those nested n deep, and
-- their decode has room for n calls inside its own, for any n; bytes that nest deeper overflow the
-- stack, and throw. The loop of DbClient::Iter has fuel for each entry of the folder and one round
-- more, since each round moves the iterator; that of SubsamplingHandler has as much for each row that
-- is asked for.
--
-- In the conversions a value is plain: no function, and no instance of a class inside an object. A
-- number is an integer or a double by its bits. `$util.Long` is there, since the package `long` is.
--
-- SubsamplingHandler keeps the keys of a round in an array on the stack, whose size is a parameter: where
-- the array does not fit, C++ leaves the behaviour undefined, and the model is `crashed`.
--
-- Not modelled: verify, fromObject and toObject of TensorProto, and of PredictRequest, PredictResponse
-- and ExecutionInformation, which call them: fromObject of a tensor can throw in base64.decode, leave
-- holes in an array and keep values that are no bytes and no floats; the services of compiled.js and
-- its other messages; of the server, what only calls RocksDB, gRPC and Poco, the routing of
-- HandlerFactory, its locks, and the answers to an exception; the other clients.
pub mod Base
pub mod Protobuf
pub mod JsObject
pub mod JsValue
pub mod Convert
pub mod Monitoring
pub mod Wrapper
pub mod Serving
pub mod Tensor
pub mod Sample
pub mod Index
pub mod Server
pub mod Examples
