-- ===== src/Lib.antt =====
-- A verification library for the middleware player interface: the conversions, the task scheduler, the
-- readers of MP4 files, the subtitle protocol, the closed captions, the AES decryptor, the manager of DRM
-- sessions, the control of GStreamer handlers and the addresses of the player, with what makes them
-- correct.
--
-- The parts of the program, and the files that model them. Every name here is the source's in snake case.
--
-- baseConversion/base16.cpp and the macro WRITE_HASCII of PlayerUtils.h are Base16. A buffer is the
-- list of its bytes; `malloc` is an argument that says which allocations succeed, and an access outside
-- a buffer is the value `fault`. baseConversion/_base64.cpp is Base64, with the functions
-- base64_URL_Encode and base64_URL_Decode of PlayerUtils.cpp, which call it and are used for DRM
-- requests. Every round of the decoder's loop takes a character, so that the number of characters is
-- fuel enough; Base64.Bounds shows it. The encoder and base64_URL_Decode count in an `int`: where it would
-- overflow, from a length of 2 ^ 31 - 1 and of 2 ^ 31 on, the models give a value that says so.
--
-- PlayerScheduler.cpp and PlayerScheduler.h are Scheduler: a queue of tasks that callers fill and one
-- thread empties. `Scheduler` holds the members, who owns mExMutex and where the thread stands in
-- ExecuteAsyncTask; what the source does under mQMutex is one function. Scheduler.Interleaving has a
-- step for each such critical section, of callers and thread alike, and a run is any sequence of them.
-- A call returns, waits for a mutex, throws std::system_error or ends the program (`Outcome`). The
-- condition variable is the test of the queue: the thread goes on when there is a task, also without a
-- notification. The functions and data of the tasks are a type parameter.
--
-- mp4demux/mp4demux.hpp is Mp4. The memory is a list of bytes, a pointer an offset into it, and a read
-- outside it, or a step from a null pointer, is the value `fault` (Mp4.Reader). Mp4.State has the
-- members, Mp4.Boxes and Mp4.Codec the functions parse..., and Mp4.Demux the switch and the loop of
-- DemuxHelper with the constructor and the accessors. DemuxHelper and parseCodecConfigHelper take fuel,
-- and `stuck` says that it ran out: the results on segments hold for every fuel of six or more, which
-- is the depth and the number of their boxes, and parseCodecConfigHelper gets more fuel than the memory
-- has bytes. Mp4.Layout and Mp4.Fragment describe the bytes of the boxes, not by
-- the steps of the parser; the sign of an offset and the width of a time are its `sign_extend` and
-- `time_size`.
-- mp4demux/mp4demux.cpp, mp4_AdjustMediaDecodeTime, is Mp4.Restamp, on fuel as well.
-- A quotient of doubles is kept as the two integers (`Seconds`). The members layer and alternate_group,
-- and compressor_name, are never set, and left out, as is the debug output.
--
-- subtec/libsubtec is Subtec. Subtec.Packet is the class Packet, Subtec.Kinds the constructors of its
-- subclasses in SubtecPacket.hpp, TtmlPacket.hpp, WebVttPacket.hpp and ClosedCaptionsPacket.hpp (the
-- constructors of TTML and of WebVTT have the same body but for the type, and are one function with the
-- type as an argument), and Subtec.Channel the classes SubtecChannel, TtmlChannel, WebVttChannel and
-- ClosedCaptionsChannel, whose packets go to PacketSender, which is Subtec.Sender. Subtec.Frame is the
-- format of a packet as its reader sees it. The replies of the socket are arguments of the sender, and
-- Subtec.Sender.Close has the steps of the threads of a close. Subtec.Styles is
-- subtec/subtecparser/TextStyleAttributes.cpp, with what cJSON makes of a text as an argument, and
-- Subtec.Styles.Described lists what each attribute is to get. A closed caption packet is modelled for
-- data shorter than 2 ^ 31 bytes, which its `int` index can count.
--
-- playerisobmff is Iso. Iso.Fields has the macros that read and write numbers of the buffer, with the
-- result type and the reader of Mp4.Reader, Iso.Leaves the boxes without children and their functions
-- construct...Box, Iso.Boxes `constructBox` with the two loops over children, Iso.Buffer the class
-- PlayerIsoBmffBuffer, and Iso.Truncate the setters that write to the buffer and the functions truncate.
-- The loops take fuel, which a box of size 0 uses up whatever it is; a buffer that is a row of boxes
-- takes one round more than it has boxes. mvhd and mdhd have the same fields and the same code, and are
-- one function. Getters and setters of members alone, destructors and printing are left out.
--
-- drm/aes/Aes.cpp, with the states of drm/HlsDrmBase.h, is Aes: `Aes` has the members and what happens
-- under the mutex, and Aes.Threads the steps of one caller, of the license thread and of others that
-- cancel or restore. OpenSSL, curl, the callbacks and the clock are arguments.
--
-- drm/DrmSessionManager.cpp and its header are Sessions: the two arrays of slots and the other members are
-- one record, with the calls that go out to the content security manager, the helper and the player.
-- Sessions.Slots has the search for a key id and the choice of a slot, Sessions.Creation getDrmSession (in
-- its child Getting), initializeDrmSession and createDrmSession, and Sessions.Watermark what is said about
-- mute, speed and clean-up. A call takes the replies of the helper, of the factory, of the sessions and of
-- the callbacks (`Outside`); the locks are left out, and each call is one step. Positions are whole
-- milliseconds. The access token, the making of a helper out of a system id and the registration of the
-- callback are left out. drm/helper/WidevineDrmHelper.cpp is Sessions.Widevine: a pointer into the PSSH box
-- is the list of what follows, and a read behind the end, or an `int` shift out of its range, is `fault`;
-- the loop over the fields has the number of the bytes as fuel, which Sessions.Pssh shows to be enough.
--
-- closedcaptions is Captions: PlayerCCManager.cpp and subtec/PlayerSubtecCCManager.cpp are Captions.Manager
-- and Captions.Users, with the tables of style values in Captions.Tables, SetStyle and sendCCSetAttribute
-- in Captions.Styling, what each attribute is to get in Captions.Attributes, and the names of tracks in
-- Captions.Tracks; subtec/SubtecConnector.cpp and
-- subtec/CCDataController.cpp are in Captions, whose commands are those of Subtec.Channel. It is the build
-- with subtitles; an attribute is kept as the number that is sent for it.
--
-- GstHandlerControl.h and GstHandlerControl.cpp are Handlers: the count and the scope helpers, and in
-- Handlers.Quiet the steps of the handlers beside a thread that waits for their end.
--
-- The prefixes, ResolveURL and trim of PlayerUtils.cpp are Url. A string is the list of its bytes
-- without the final zero, and a read through the null pointer is `fault`.
--
-- Not modelled: what only calls GStreamer (InterfacePlayerRDK.cpp, gst-plugins, setCaps of Mp4Demux),
-- OCDM or device services (the rest of drm, externals, vendor), output (playerLogManager, getTypeString of
-- Packet), the set-up of the socket, and the helpers of PlayerUtils.cpp that call the system; and, so
-- far, the init data of drm/DrmUtils.cpp.
--
-- Common has the numbers, lists and tests that all share; a 32-bit or 64-bit value is a natural number
-- with its wrap written out, and a signed one its bit pattern.
pub mod Common
pub mod Base16
pub mod Base64
pub mod Scheduler
pub mod Sessions
pub mod Mp4
pub mod Subtec
pub mod Captions
pub mod Aes
pub mod Handlers
pub mod Url
pub mod Iso
