-- ===== src/Lib.antt =====
-- A verification library for subtitle_overlay_fw, the firmware that listens to a USB microphone, has a
-- server transcribe the speech, and shows the text on a video picture.
--
-- The program is a set of active objects on the QP/C framework, with services under them. Video,
-- USB audio, subtitle and STT (speech to text) each have an object; the system object starts
-- them and shuts them down. Captured audio goes through the transmit queue to a WebSocket client
-- thread; transcript lines come back through the event ring to the application thread, and as text
-- events to the subtitle object, which renders them.
--
-- Base: what the models share. Lists stand for C arrays and strings, measured by native numbers;
--   Ring reads a circular buffer as a list; a C status is a Result or a signed number.
-- Stt/AudioTxq: src/svc/stt/stt_audio_txq.c. A critical section under the mutex is one function
--   from a queue to a queue. Valid is its well-formedness, Spec and Refine the queue as a list,
--   Trace the calls of all threads in any order, Deadline the wait's clock arithmetic.
-- Stt/EventRing: src/svc/stt/stt_event_ring.c, with the transcript parser as a parameter, and what
--   other threads do between the critical sections of a drain as another. Spec is the ring as a
--   list, Evict and Push the two halves of a push, Drain and Session the way out.
-- Stt/Json: src/svc/stt/stt_json.c. Text is strings and tokens in front of other text, Tree what
--   JSON is and how it is printed, Pieces and Skip that printed values are skipped, Truncate the
--   strings that are cut off. double and strtod are the record Floating.
-- Stt/Transcript: src/svc/stt/stt_transcript_parse.c, the parser that the event ring calls. Message
--   is a message as a list of members and its text, Values and Accept that the members are taken in
--   one by one, Says what a message says and that this is what is read.
-- Stt/WsFrame: src/svc/stt/stt_ws_frame.c, on a board of 32 bits. Encode/ReadBack reads frames by
--   RFC 6455, and Decode/ServerFrame writes them, Decode/Bounds says where a frame lies;
--   Base64/RoundTrip decodes by RFC 4648; Sha1/Stream feeds the hash byte by byte; Handshake checks
--   the server's response.
-- Stt/WsConfig: src/svc/stt/stt_ws_config.c, with getenv as a parameter. Url is the round trip of
--   a URL, Limits the bounds of the configuration.
-- Stt/WsClient: the life of the client of src/svc/stt/stt_ws_client.c and what its owner calls, over
--   the queue and the ring.
-- Stt/SttAo: src/svc/stt/SttAO.c, the client's owner. Forward is a poll, Startup and Stop the two
--   ends, Reach and Runs the reachable states beside the worker.
-- Subtitle/Sanitize: src/svc/subtitle_pipeline/subtitle_text_sanitize.c.
-- Subtitle/SubtitleAo: src/svc/subtitle_pipeline/SubtitleAO.c over the record Pipeline, the
--   interface of subtitle_pipeline.h. Slots is the caption pair, Screen what the log of calls says
--   of the overlay, Reach, Ready and Runs the reachable states.
-- Subtitle/Pipeline: src/svc/subtitle_pipeline/subtitle_pipeline.c, an instance of that interface.
--   Its renderer is the record Renderer. Screen is a caption's way to the display, Startup init and
--   cleanup.
-- Subtitle/TextLayout: the word wrap of src/svc/subtitle_pipeline/subtitle_text_renderer.c, over the
--   font's advances. Width is the width of its lines, Wrapped the wrap word by word.
-- Hal/SubtitleBram, Hal/SubtitleOverlay: src/hal/subtitle_bram/subtitle_bram.c and
--   src/hal/subtitle_overlay/subtitle_overlay.c, the devices under the pipeline. Bits packs a word,
--   Loops is the mask word by word, Pixels as a picture.
-- Hal/HwPlatform: src/bsp/platform/linux/hw_platform.c, with open and mmap as parameters. Owners is
--   the reference count over any calls.
-- Hal/VideoDma, Hal/VideoVtc: src/hal/video_dma/video_dma.c, src/hal/video_vtc/video_vtc.c and
--   src/hal/video_gpio/video_gpio.c, as the requests and calls that they make. Frames says which
--   channels transfer, which memory, and how many descriptors are open.
-- Video/Modes, Video/VideoIo, Video/VideoPipeline, Video/VideoAo: the files of
--   src/svc/video_pipeline. What the devices answer in one call is the record Answers. Wired is
--   starting and stopping the input and the output; Seen is the state machine, Phases the devices in
--   its states, Sound that the polls follow it, Startup init and cleanup, Unchanged and Live polls
--   without a change and with a good source; VideoAo/Reach and Runs are the reachable states.
-- System/SystemAo: src/svc/system/SystemAO.c under the record Framework, the documented dispatch
--   of QP/C. Reach is the invariant, Runs any list of signals.
-- Utils/NumberParse: src/utils/number_parse/number_parse.c.
-- Tests: runs at concrete inputs, among them the worked example of RFC 6455, section 1.3.
--
-- Fuel: the loops on fuel are given as many rounds as they can take: the depth of the ring in
-- Stt/EventRing (find_victim, close_gap), the length of the input in the sanitizer and in
-- sha1_update, 64 rounds of SHA-1 padding, one more than the length of the text for the members of a
-- transcript and twice that for the nesting of a skipped value, and the number of codepoints for the
-- words of a caption and the lines of a split word. That this is enough is proved beside the loop or
-- with the property that rests on it.
--
-- Not modelled: log output, NULL checks of the object pointers themselves, and allocation failure
-- of report events, which changes no state. stt_ws_handshake_build_request prints fixed text.
-- Of the other files, the rest of the text renderer, the session messages, the connection of the
-- WebSocket client's worker, the pixel clock, the audio sink and the USB audio service stand outside
-- this library; the rest of src/bsp is vendored, the server is another program.
pub mod Base
pub mod Hal
pub mod Stt
pub mod Subtitle
pub mod System
pub mod Tests
pub mod Utils
pub mod Video
