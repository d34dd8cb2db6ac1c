-- ===== src/Lib.antt =====
-- Verification of hat-drivers: communication drivers written in Python over asyncio. The source stands in
-- src_py/hat/drivers; the paths below are relative to that folder.
--
-- Parts of the program that are modelled, and the files that model them:
--
-- - Base, shared by the rest: Base/Outcome is what a Python function does (a value or an exception,
--   chained by `do`), Base/Bytes has the operations on byte strings that the code uses (indexing, slices,
--   `int.from_bytes`, `struct.pack`), Base/Bits, with Digit and Xor below it, has facts on bitwise operators, and
--   Base/Stream is the loop that asks for the size of a frame and reads what is missing, which the Modbus
--   connection, the APCI transport and the MQTT connection run. Base/Utf8 is the test that `str(data, 'utf-8')` makes.
-- - Modbus/Common: modbus/common.py, the user's requests and responses.
-- - Modbus/Transport: modbus/transport. Common has the data units of common.py. Values, Checksum, Encode,
--   Decode and Size have the functions of encoder.py under their names without the leading underscore:
--   `encode_req` is `_encode_req`, and so on; the branches behind a function code have names of their own
--   (`decode_req_fields`, `res_size`). Connection has `send` and `receive` of connection.py. Requests,
--   Responses, Pdus, Tcp, Rtu, RtuSize and Ascii hold the proofs, one for each layer of a frame, and
--   Checksum/Division those on the CRC as a division of polynomials.
-- - Modbus/Slave and Modbus/Master: modbus/slave.py and modbus/master.py. `respond` is one round of
--   `Slave._receive_loop` behind the reception; `request_pdu` and `response_result` are the two halves of
--   `Master.send`, `request_adu` is the data unit of `Master._send`, and `receive_response` is
--   `Master._receive`. Modbus/Exchange joins the two: the bytes of the request go to the slave, and those
--   of the response to the master.
-- - Apci/Encoder and Apci/Transport: iec60870/apci/common.py, encoder.py and transport.py. Transport/Whole
--   describes `read` without its loop.
-- - Apci/Connection: iec60870/apci/connection.py. The record `Connection` has the fields of the class that
--   the handlers use; `process` is one round of `_read_loop`, `write_apdui` what `_write_loop` does with
--   an item, `write_apdus` what it does when the supervisory time-out expires. Window and Invariant hold
--   the send window, Steps and Sending the steps, and Delivery two connections together.
-- - Link: iec60870/link/common.py, encoder.py and endpoint.py, with the `Encoder`'s two fields as
--   arguments. Link/Endpoint has `receive`, whose `_data` is an argument and a result, and `send`.
-- - Mqtt: mqtt/common.py in Common, mqtt/transport/common.py in Packet, and mqtt/transport/encoder.py in the
--   rest, with its functions under their names without the leading underscore: Primitives (numbers, texts,
--   binary data), Properties (`_PropertyType`, `_encode_props`, `_decode_props`), Fields (what an encoder
--   puts into `props` and a decoder takes from it), one file for each group of packets (Acks, Session,
--   Subscriptions, Publish, Connect, ConnAck), and Encoder (`encode_packet`, `decode_packet`,
--   `get_next_packet_size`). `connect_options` and the like list the properties in the order in which the
--   encoder puts them into the dictionary. Connection has `send` and `receive` of mqtt/transport/connection.py.
-- - Cotp/Tpkt: tpkt.py; Cotp/Encoder: cotp/common.py and encoder.py; Cotp/Connection: cotp/connection.py, where
--   `send_data` is the loop over the data in `_send_loop`, `receive_data` is `_receive_loop` up to the data
--   that it hands on, and `connect_request`, `on_connection` and `accept_response` are the two sides of the start of
--   a connection, which Handshake puts together; Small is about a request for data units of 1 or 2 bytes.
-- - Examples in each folder: concrete runs.
--
-- Numbers are natural numbers; a negative Python integer occurs only as the size of a slice in Cotp/Connection,
-- where `unit_size` writes out where that slice ends. Byte strings are lists of numbers, and a coil or a register is a number. The callback of a slave, the stream of bytes and
-- the master's counter are parameters. A stream that ends raises `ConnectionError`. `calculate_crc` is the
-- loop in Python: the C extension that may replace it is not modelled.
--
-- Bounds: `read_frame` runs on as many rounds as the stream has bytes, and one more. That is enough, since
-- each round but the last one takes a byte; a run that ends for want of rounds has the result `stuck`,
-- which no Python function has. Link/Endpoint's `receive` runs on `enough` rounds: each takes a byte off
-- the line or off the data that was read. `receive_response` takes the number of data units that it looks at.
-- `send_data` and `receive_data` of Cotp run on as many rounds as there are data, or bytes of the stream.
--
-- In Mqtt a `str` is the list of the bytes of its UTF-8 encoding, and a dictionary of properties is a list in
-- the order of insertion. The loops over properties and items run on as many rounds as there are bytes,
-- since each round takes one at least, and those over a number of variable length on four.
--
-- In Apci/Connection every handler is one step: `write` on a TCP connection returns at once as long as its
-- output buffer takes data. An exception closes the connection, so its state is not kept. Not modelled
-- there: the response and test time-outs and the futures of `send` and `drain`. Not modelled elsewhere:
-- logging, sockets and serial ports, the queues of COTP, the MQTT client, the link layer's connections, and
-- the other protocols.
pub mod Apci
pub mod Base
pub mod Cotp
pub mod Link
pub mod Modbus
pub mod Mqtt
