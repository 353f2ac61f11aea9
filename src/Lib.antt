-- ===== src/Lib.antt =====
-- usb_video_class: a C library that streams video from USB cameras, over libusb.
--
-- The parts and the files that model them:
--   * Desc, Desc/Lookup: the descriptor structures of include/libuvc/libuvc.h and
--     libuvc_internal.h, and the searches of src/stream.c through them. A `DL` list is a list.
--   * Usb: the calls of libusb that the library makes. What they do is a parameter, a record of
--     functions from the state of the device to a result and a new state.
--   * Device, Device/Claim: the device handle, with `uvc_claim_if` and `uvc_release_if` of
--     src/device.c.
--   * Parse: the scan loop of `uvc_scan_control` and `uvc_scan_streaming` of src/device.c.
--     Parse/Streaming is `uvc_parse_vs` and its parsers, with those of frames in a child,
--     Parse/Control `uvc_parse_vc` with its own and both scans. Parse/Layout lays a camera's
--     descriptors out in bytes; Parse/Blocks, Parse/Formats and Parse/Camera relate the two.
--     Parse/Sized and Parse/Total are about any descriptors that are well formed.
--   * Format, Format/Table: the table of formats of src/stream.c with `_get_format_entry`,
--     `_uvc_frame_format_matches_guid` and `uvc_frame_format_for_guid`.
--   * Ctrl and its children: the control blocks, `uvc_query_stream_ctrl`, `uvc_query_still_ctrl`
--     and the negotiations `uvc_probe_stream_ctrl` and `uvc_probe_still_ctrl`.
--   * Stream: `struct uvc_stream_handle` and `_uvc_swap_buffers`. Stream/Payload is
--     `_uvc_process_payload`, which puts an image together from packets in `outbuf` and swaps it
--     with `holdbuf` when it is complete. Stream/Callback is `_uvc_stream_callback`, which libusb
--     calls with finished transfers and which calls the decoder for each packet;
--     Stream/Callback/Ownership has its steps and those of `uvc_stream_stop` as a relation, between
--     which libusb chooses. Stream/Assembly says over plain lists what the decoder is to do.
--     Stream/Poll is `_uvc_populate_frame` and `uvc_stream_get_frame`, which copy the image out of
--     `holdbuf`; Stream/Poll/User is the thread that hands it to the user's callback.
--     Stream/Callback/Delivered and Stream/Callback/Relay follow images from finished transfers to
--     the reader.
--   * Session: `uvc_stream_ctrl` and `uvc_stream_open_ctrl`, which claim the interface, commit the
--     control block and make the handle with its buffers. Session/Close is `uvc_stream_close`.
--     Session/Relay is a run from the opening of a stream over its start to the reads;
--     Session/Streaming is `uvc_start_streaming`, which closes a stream that does not start.
--   * Search: `uvc_get_stream_ctrl_format_size`, `uvc_get_still_ctrl_format_size` and
--     `uvc_trigger_still` of src/stream.c. Search/First is about their loops, Search/Rate about
--     frame intervals, Search/Exact about the whole search.
--   * Status: `_uvc_status_callback` of src/device.c, with its handlers and the user's callbacks;
--     Status/Events has the bytes that a device sends.
--   * Start: `uvc_stream_start`, with the search for an alternate setting, the size of the
--     transfers and their submission. Start/Choice is about the search, Start/Owned and
--     Start/Submitted about the transfers.
--   * Controls: src/ctrl.c and src/ctrl-gen.c. Controls/Camera and Controls/Processing list the
--     controls, one record for the getter and the setter of each; Controls/Table collects them
--     beside the header's selectors,
--     Controls/Codec and Controls/Access are about their buffers and transfers.
--   * Frame: `uvc_frame_t`. Convert: src/frame.c. Convert/Pixels has its macros for two pixels,
--     Convert/Loop its loops over a buffer; Convert/Blocks, Convert/Sized, Convert/Converted and
--     Convert/Exact are about what the conversions leave in the output. UvcError and PayloadError:
--     the error codes.
--   * Discover: `uvc_get_device_list`, `uvc_find_device` and `uvc_find_devices` of src/device.c
--     with the references that they take and drop; Discover/Wanted says
--     what they look for, Discover/Exact is about what they find and leave.
--   * Context: `struct uvc_context`, its open devices and the event thread of src/init.c. Open:
--     `uvc_open`, `uvc_wrap` and `uvc_close` of src/device.c, which work on it. Open/Rollback is
--     about what an opening leaves, Open/Handler about the event thread.
--   * Mjpeg: src/frame-mjpeg.c, over a libjpeg that is a parameter. Mjpeg/Tables has the standard
--     Huffman tables, Mjpeg/Lines is about the loop over the rows, Mjpeg/Decoded and Mjpeg/Exact
--     about what the conversions leave.
--   * Diag: src/diag.c and `uvc_get_device_descriptor` of src/device.c; what is printed is a list.
--   * Examples: a small camera and a small stream.
--
-- A negotiated control block sizes the stream's buffers; the decoder relies on that size. Numbers
-- are natural numbers with the wrap-around of their C types written out; an access outside a buffer
-- is `none`. `matches_guid` takes fuel for the depth of the table, and 3 is enough for the whole of
-- it. `scan` takes fuel for the bytes of the descriptors, which is enough for blocks that are not
-- empty; `convert_loop` takes one round more than the bytes of the output, each of whose rounds
-- writes at least one; other loops run over lists or counts.
--
-- Not modelled: locks and the condition variable (the images announced on it are a trace in the
-- handle), messages and log files, the allocator, libjpeg, the `strndup` of src/misc.c, the example
-- programs, and `uvc_exit`, whose loop reads the links of handles that it has freed.
mod Base
pub mod UvcError
pub mod PayloadError
pub mod Usb
pub mod Desc
pub mod Device
pub mod Format
pub mod Ctrl
pub mod Frame
pub mod Parse
pub mod Stream
pub mod Session
pub mod Start
pub mod Convert
pub mod Controls
pub mod Search
pub mod Status
pub mod Discover
pub mod Context
pub mod Open
pub mod Mjpeg
pub mod Diag
pub mod Examples
