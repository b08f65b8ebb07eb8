-- ===== src/Lib.antt =====
-- The server side of emulation_lib for the bicycle dock points (BDP), with the CRC-16 of its frames, the cache of
-- the users who rent, the serial protocol with the card reader, and the digital inputs and outputs of the board.
--
-- The server talks to dock points over two RS-485 buses. A client's request comes in over a socket
-- (svsBdpTx), becomes a frame and joins a list of frames in flight. A thread (svsBdpFrameThread) sends the
-- frames of that list, one per device at a time, and sends them again when no response comes. The bytes
-- that come in on a bus go through a state machine (svsBdpRx) that gathers a frame, tests its length and
-- its CRC-16, and hands it to the client or the callback server that waits for it. A table, filled by the
-- devices' own answers, converts between physical addresses and the numbers that clients use. The cache
-- (cache/hashmap.c) keeps one record for each user with a rental that runs or has ended a short time ago.
-- The card reader (ccr.origin) gets commands over a serial line, acknowledges them and sends replies; both carry
-- a CRC-CCITT, and a damaged or late part is asked for again. Data for a chip card are cut into several such
-- commands, and the card's answer is gathered from their replies. The digital I/O (dio/dio.c) switches the
-- supplies of the devices by bits of registers, and a thread watches the door, a switch and a button.
--
-- Files:
--   Prelude, Prelude/Tests, Prelude/Lists, Prelude/Bits: shared names, Boolean tests, C arrays as lists
--     indexed by native numbers, and lemmas on the bitwise operations.
--   Err: err_t of src/svsErr.h.
--   Crc/Crc16: crc16_init, crc16_compute and crc16_resume_compute of src/crc.c. Crc/Register compares them
--     with a shift register, Crc/Detection says what a receiver learns from a sum, and Crc/File is crc16_file.
--   Bdp/Types: the constants, the packed frame and the structures of src/svsBdp.h and src/svsBdpMsg.h.
--   Bdp/Rx: the switch of svsBdpRx in src/svsBdp.c, with Safety (bounds), Receiving, Steps and Start (the
--     bytes of a good frame).
--   Bdp/Arp: svsBdpAddrMatch, svsBdpVirtualToPhysical, svsBdpPhysicalToVirtual, svsBdpArpTableUpdate,
--     svsArpTableFlush and svsBdpMaxGet, with Find, Valid, Lookup, Outcome, Update and
--     Flush.
--   Bdp/Frames: svsBdpFrameAdd, svsBdpNodeAddFromTail, svsBdpNodeFind, svsBdpNodeRemove and
--     svsBdpFrameFindAndRemove; Frames/Pass is one pass of svsBdpFrameThread. Exclusive, Budget and Counter
--     are about passes.
--   Bdp/Server: svsBdpRx around the switch, with Body and Wire (whole frames) and Effect
--     (what the server sends for a frame).
--   Bdp/Send: svsBdpBackoff, svsBdpWakeup, svsBdpFrameSendBus and svsBdpFrameSend, with Backoff and Written;
--     Bdp/DevWrite: svsDevWrite of src/svsKr.c, with Complete.
--   Bdp/Tx: svsBdpTx, with Built, Seq and Queued.
--   Cache: the records of cache/hashmap.c. Cache/ListLib is the interface to the list library and its laws,
--     Cache/Store the operations over it, Cache/Spec what they promise on the plain list of records; Found,
--     Expired and Refines connect the two. Reach is the runs of operations, with Unique and Period (invariants);
--     Keys, Rental, Others and Removal are about users. Prelude/Integers has the signed numbers of the clock.
--   Reader: constants, codes, ErrorExchange and CrcCcitt of ccr.origin (Residue: what the sum does to itself).
--     Reader/Ack, Reader/Reply and Reader/Execute are RS232C_8_ExecuteCommand of ccr.origin/Prtcl_RS232C_8.c: up
--     to the reader's ACK, one reply with its retries (Turn: one round of it), and the whole function, with
--     Bounds, Came (the receptions of a reply), Fields (what is set in a REPLY), Sound, Outcomes and RoundTrip. Reader/Connect is RS232C_8_ConnectDevice, RS232C_8_DisconnectDevice and
--     RS232C_8_CancelCommand, with Free (their semaphores) and Calls (runs of them and of commands).
--     Reader/Receive is RS232C_ReceiveData of ccr.origin/RS232C_Interface.c, with a reader whose bytes come in one
--     stream; its Requests has the sizes that one turn of RS232C_8_ExecuteCommand asks for.
--   Reader/Transmit: TransmitControl and _TransmitControl of ccr.origin/Prtcl_RS232C_8_FuncDef.c with
--     RS232C_8_ICCardTransmit and RS232C_8_SAMTransmit, over RS232C_8_ExecuteCommand; Loop is all but the first of
--     these. Cases has the ends of one
--     command, Plan, Commands and Joined are about the commands, Received and Outcomes about what comes back,
--     Fuel about the end of the loop, and Single is a transmission in one command down to the bytes.
--   Reader/Upload: DownloadGetFileInfo, DownloadGetFileData and the lines of DownloadExe, of the same file, with
--     File and Lines; Reader/Upload/Area is AreaChange, and Parts and Exe are DownloadExe and RS232C_8_UpdateFirmware, with
--     Closed (the connection) and Turns (its loop).
--   Dio: the set and get functions of dio/dio.c. Dio/Monitor is gpio_changed, dio_monitor and dio_open_fpga;
--     Registers has the bits of a register, Ports the outputs, Changes the monitor and Start the opening.
--     Prelude/Digits has the binary digits of masked numbers.
--   Examples: concrete runs; Examples/Plain is a list library.
--
-- How the code is read. Machine integers are native numbers with their wrap-around written out. The frame
-- buffer is the list of its bytes, and header fields are read from their packed places, low byte first. A
-- pointer argument that the code tests is an option. Static state is passed as records; one function
-- of the model is one C function or a named part of it, and returns the new state beside the result code.
-- The list of frames is linked with a head that holds no data; it is modelled as the list of the nodes. The
-- clock, the results of socket sends and what `read` gives are arguments. Every loop of the code is
-- bounded by the data it runs over or by a count of its own: the backoff tests the line 17 times at most and
-- svsDevWrite calls `write` 100 times at most, and their models count these down.
--
-- The cache's loop over expired records counts down from the length of the list, which is shown to be enough.
-- Identifiers are the strings that their arrays hold, up to the first zero, and differences of times do not
-- overflow. Whether list_node_new gives a node is an argument; list_rpush, given none, leaves the list as it is.
--
-- A command to the card reader runs over the list of what the receptions give; where the list ends, the
-- call waits. The loop over replies has fuel for one turn more than there are receptions, which is shown to be
-- enough since each turn takes one. Bytes outside of a buffer are an outcome of their own. An unsigned long has
-- 32 bits where the size of a reply is computed. The port's record is an argument, so that the array of
-- records, which ends before port 256, is not seen.
--
-- Body of a REPLY is an array of the caller: a reply overwrites its first bytes, or empties it where it has no
-- data, and what is behind them stays. _TransmitControl copies from it as many bytes as the reply says to have.
--
-- A transmission executes its commands over a sequence of ports, one for each command, as the reader may behave
-- differently each time. Its loop ends only when the reader lets it, so it has fuel, and
-- for a reader that sends data with each reply that announces more an amount is shown to be enough. The update of the firmware
-- looks at the mode of the reader in a loop that, where revisions are compared, only the reader ends, so that loop
-- has fuel too; the other loops of the update count lines or tries. The revision is
-- taken from the file as far as its buffer goes. Commands and comparisons that write or read outside of a
-- buffer end a part of the update with an outcome of its own, other than that of a call that does not return. The registers of
-- the board are words by their index, with 16 bits in use; the inputs do not change within one call of
-- gpio_changed. The library of the board is built with SCU_BUILD and USE_BITMASK.
--
-- The model of dio_open_fpga is that of a mapping that succeeds: the code does not test the result of mmap.
--
-- Not modelled: threads and their interleaving beyond one pass or one read at a time (both ends hold
-- one mutex while they change the list), log output, failing `malloc` in the BDP server,
-- the opening of ports, the destruction of the reader's semaphores, the display of the progress of an update,
-- the start and stop of the board's thread, and the other
-- servers and device libraries of the repository, most of which is I/O.
pub mod Prelude
pub mod Crc
pub mod Err
pub mod Bdp
pub mod Cache
pub mod Reader
pub mod Dio
mod Examples
