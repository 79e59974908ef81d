-- ===== src/Lib.antt =====
-- Verification of douyinLive.
--
-- The program connects to a live room of Douyin and forwards its messages. The server of the
-- messages accepts a WebSocket only with a signature of the room's parameters, `X-Bogus`. Two
-- implementations of it are in the repository: jsScript/webmssdk.js, a script with obfuscated names
-- that jsScript/jsScript.go runs, and internal/webcastsign/native.go, which computes the same text in
-- Go. This development models the signature of both with the parts that it is made of, further
-- codings and ciphers of the script, its handling of storages, cookies, URLs, requests and events of
-- the page, what it reads from the browser, and the interpreter in the script that runs those of its
-- functions that are bytecode. Of the Go program it models how a listener starts, closes, reads and
-- reconnects, and how the server keeps its rooms and their clients.
--
-- Sdk models jsScript/webmssdk.js. The numerals of that file are sums, and its strings are read from a
-- rotated table (lines 12 to 46); they are written here as their values. A comment names a function
-- as the script does (`_0x21db29`).
--   Sdk.Text    texts as lists of UTF-16 code units
--   Sdk.Rc4     `_0x21db29`, the stream cipher (5499 to 5517)
--   Sdk.Base64  `_0x328bde`, `_0x389396`, `_0xb5350b`, the codings in base 64 (4129 to 4174)
--   Sdk.Hex     `_0x42e709`, the hexadecimal coding with its tables (3699 to 3716)
--   Sdk.Words   `_0x183951`, `_0x75d5b3`, `_0x231484`, texts as arrays of words (4216 to 4254)
--   Sdk.Xxtea   `_0x3d58e7`, `_0x4aaf04`, the block cipher on words (4242 to 4285)
--   Sdk.Utf8    `_0x532596`, `_0x45fbef`, `_0x25bfe1`, `_0x31dfb5`, UTF-8 (4287 to 4417)
--   Sdk.Cipher  `_0xdda738`, `_0x4bb829`, the cipher on texts, made of the three before (4419 to 4430)
--   Sdk.Packer  `_0x2d6b72`, words as printable characters (4185 to 4213)
--   Sdk.Hashes  `_0x246aeb`, `_0x184783`, `_0xf119da`, `_0x2e02ca`, `_0x178d7c`, hashes and identifiers
--               (4702 to 4728, 4806 to 4834 and 5044 to 5064)
--   Sdk.Strings methods of JavaScript strings
--   Sdk.Storage `_0x24dc34`, `_0x1f42cb`, `_0x2ecc5a`, `_0x39dfe4`, items in the storages and the cookies
--               of the browser (3628 to 3667, 4432 to 4450, 4776 to 4804 and 5474 to 5497)
--   Sdk.Url     `_0x53f850`, `_0x446110`, `_0x1958a5`, `_0x2b13af`, URLs (4730 to 4748, 6460 to 6489)
--   Sdk.Requests `_0x25a792`, `_0xb48e77`, `_0x1294ff`, `_0x45e0e9`, requests (6449 to 6502, 6672 to 6734)
--   Sdk.Settings `_0x59992f`, `_0x39d569`, `_0x5b850b`, `_0x43f5a3`, settings (6190 to 6228, 6776 to 6790,
--               6867 to 6909 and 6933 to 6968)
--   Sdk.Profile `_0x5c0cdd`, the sealed answers of a profile request (5110 to 5127)
--   Sdk.Keys    `_0x3a1cf3`, `_0x483e03`, objects with their keys sorted (4750 to 4774)
--   Sdk.Fields  `_0x2a900b`, `_0x5e5a64`, `_0xdc4d4c`, `_0x58210c`, `_0x252788`, codes and masks of
--               properties (4694 to 4700, 5274 to 5284, 6016 to 6074 and 6239 to 6250)
--   Sdk.Browser what the report reads from the browser: Fonts (`_0x4f323e`, 4926 to 4971), Addresses
--               (`_0x5bbaf0`, 4987 to 5042), Graphics (`_0x11a1d6`, `_0x425568`, `_0x58bcf8`, 4910 to
--               4924, 5301 to 5355 and 6146 to 6188), Plugins (`_0x1f9824`, `_0x30412e`, 4595 to
--               4633), Devices (`_0x299f3a`, `_0x4649a1`, `_0x5d3845`, 4877 to 4908, 6100 to 6138)
--   Sdk.Queue   `_0x137ba2`, the requests of an asynchronous generator (384 to 450)
--   Sdk.Events  `_0x9c0be2`, `_0x52f064`, the events of the page and their speeds (5591 to 5782);
--               Tracking has the handlers, the lists and the reports (5602 to 5749, 6886 to 6927)
--   Sdk.Bogus   `_0x26d461`, `_0x1633f2`, `_0x4145f8`, `get_sign`, the signature (5784 to 5857, 7007);
--               Bytes has the functions of its programs that put bytes into texts (5886 to 5932)
--   Sdk.Vm      `w_0x5c3140`, the loader of programs and their interpreter (48 to 374)
-- In Sdk.Vm, Loader models the loader and Loader.Assemble is its inverse; Decode reads an instruction,
-- Machine has the registers, Control the variables, the search for a handler and the return, and
-- Exec the instructions (Operators, Jumps, Calls), the step and the loop. Compile gives expressions a
-- meaning and code, as a specification of the interpreter.
-- Native models internal/webcastsign/native.go: `Native` the generator and `SignWithValues`,
-- `Native.Stdlib` what they use of Go's library, `Native.Parts`, `Native.Agreement` and
-- `Native.Session` the agreement with the script.
-- Live models the listener: `Live` its state and live_status.go, `Live.Lifecycle` lifecycle.go and the
-- end of a dial, `Live.Reconnect` the decisions of reconnect.go, `Live.Reading` its `handleReadError`
-- and the loop `processMessages` of websocket_connection.go.
-- Server models internal/server: `Server.Client` the queue of a client (room_client.go), and
-- `Server.Room` the state of a room (room.go, room_session.go, room_monitor.go, room_client.go).
--
-- Words and bytes are numbers with their wrap-around written out. A subtraction of words adds 2 ^ 32
-- first. `Math.random` is not modelled: what the script makes of a value is an argument. A reader
-- is the list of its bytes. The body of `_0x389396` is a program for the interpreter of the script;
-- its model is what that program does. The digest of bytes is the parameter `md5`: crypto/md5 in Go,
-- the digest of lines 3769 to 4025 in the script. The objects, the numbers and the operators of
-- JavaScript, and the functions that are not programs, are a parameter of the interpreter (`Host`).
--
-- Where goroutines share a state under a lock, what one of them does in one hold of the lock is a
-- step, and a run is a list of steps in any order. A count of clients stands for their table, and a
-- number for an instance. `retry.Do`, the WebSocket library and the upstream are inputs: whether a
-- dial succeeds, what a check of the status sets and answers. A delay is a word of 64 bits.
--
-- Loops are structural recursions, on the rounds that are left or on the text. The decryption of the
-- block cipher runs until its sum is 0; the model has a fuel of 58, since an array has at
-- most 6 + 52 rounds. The interpreter runs for any number of rounds that is given: its programs need
-- not end.
--
-- Not modelled: the digest of the script, a copy of a library; the helpers of its compiler, but
-- for the queue; the text that the program for reports sends; the part of the script that reads
-- single properties of the browser's objects and sends requests, which is input and output; of the
-- Go program the runner of the script, the choice of a signer, the decoding of messages, the
-- parsing of room pages, cookies and profiles, the heartbeat, and of the server its configuration,
-- HTTP interface and table of rooms. A program that names a missing string, a scope around the
-- outermost one or values below the bottom of the stack has no meaning in the model of the
-- interpreter.
pub mod Prelude
pub mod Sdk
pub mod Native
pub mod Live
pub mod Server
