-- ===== src/Lib.antt =====
-- The data gateway twin (src/twin): field devices on RS-485 buses and on TCP, a PLC that scans them
-- into its D area and serves it over Modbus TCP, an Edge collector that filters, buffers and sends
-- samples, and an MES stub that stores them.
--
-- Files:
-- - Base: names of the library, Boolean tests, lists, dictionaries with a key interface (Base.Key,
--   Base.Dict), Python's integers (Base.Int), bit operations (Base.Bits), and the interface of
--   Python's floats (Base.Floats), infinities and NaN among them, of which no law is assumed.
-- - Modbus: src/twin/common/modbus.py. Outcome has the exceptions, Crc the checksum, Pdu the request
--   and response bodies, Stream the frame readers, Value the register values. A stream is the list of
--   bytes that the other end sends.
-- - Config: the records of src/twin/common/config.py. Twin has TwinConfig and its lookups, Check the
--   validation: Devices its loops over buses and equipment, Maps the memory map and the whole.
-- - Diag: Diag of src/twin/common/util.py.
-- - Plc: src/twin/plc. Memory is PlcMemory, Server the Modbus TCP server of PlcRuntime, Scanner
--   the poll of a device by BusScanner, Runtime _build, the heartbeat and the mirror of the slave
--   (runtime.py), Link the clients TcpRtuLink and ModbusTcpLink (link.py), with the device at the
--   other end as an argument.
-- - Edge: src/twin/edge. Sample and Filter are what becomes of a sample, Buffer is the table of samples
--   that wait for the MES (core.py), Sender is _on_sample and _sender (collector.py). Reader is
--   PlcReader, Driver the drivers of devices that the Edge reads itself (collectors.py).
-- - Mes: src/twin/mes. Ingest is ingest of store.py, with route as an argument; Tables, Tanks, Runs and
--   Process are route and its handlers, Purge is the daily cleaning (store.py). Alarms is alarms.py,
--   Hub is hub.py.
-- - Field: src/twin/field. Faults is FaultManager (faults.py), Device the registers of a DeviceModel
--   (models/base.py), Server the bus server and the Modbus TCP server (servers/servers.py).
-- - Transfer: Edge.Sender and Mes.Ingest with the network between them, as events in any order.
-- - Examples: the theorems at concrete inputs.
--
-- How the parts meet: Plc.Link.Served puts the PLC's server at the other end of a link, and
-- Field.Server.Reads the field bus; Edge.Reader.Blocks follows the words of a device from its registers
-- over the scanner's block to the sample, and Edge.Reader.Wire is the link that it reads over. Modbus.Pdu is what both sides speak. The items of Edge.Sample
-- are numbered by Edge.Buffer.enqueue and stored by Mes.Ingest.ingest, which knows them by that number.
--
-- State is passed explicitly: an operation takes the record of its component and returns its result
-- and the record afterwards. A call that may raise returns Result, with the exceptions of
-- Modbus.Outcome, or Option. Times are natural numbers that the caller passes in. Python's integers
-- are natural numbers where they cannot be negative, and masks and packing are written out. Loops are
-- structural recursion, except two that run for as many rounds as their first argument says: the
-- connection loop of the server, whose theorem holds for every such number, and the loop of a tank's
-- operation (Mes.Tanks), which is proved to end within the time in seconds plus two. The Edge and the
-- MES run for any list of events.
--
-- Not modelled: sockets, threads and timers, SQLite (its statements are functions on the rows), the
-- clock, logging, the web application and its views, the YAML reader and the merge of overrides, the OPC
-- UA client and servers (what a read of a node gives is an argument), the random process models of the
-- field simulator, and the supervisor, which starts and stops the rest. A configuration is one whose
-- numbers are not negative, whose register texts do not end in 0000, and whose tank hours are whole
-- numbers of seconds; an RTU answer is compared with its time-out, a Modbus TCP answer that comes too late
-- is one that does not come.
pub mod Base
pub mod Modbus
pub mod Config
pub mod Diag
pub mod Plc
pub mod Field
pub mod Edge
pub mod Mes
pub mod Transfer
pub mod Examples
