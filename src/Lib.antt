-- ===== src/Lib.antt =====
-- UltraDisplay OS
--
-- UltraDisplay OS sends the picture of a Windows computer (`server/`) over the network to a thin client
-- (`client/`). What both link is in `shared/`.
--
-- The parts and their files:
--
--   Shared/RingBuffer    shared/util/ring_buffer.hpp, the queue between two threads: the record is the
--                        class's members, and each method is a function on it. The loop of the
--                        constructor has fuel 65, since 64 doublings are all that a size_t admits. Queue
--                        is the specification, Fifo and Run the refinement.
--   Shared/Pool          shared/util/pool.hpp: the free blocks of a pool, by their indices.
--   Shared/Messages      shared/protocol/messages.hpp: the packet header, and its bytes on the wire.
--   Shared/Fec           shared/transport/fec.cpp: FecEncoder::encode gathers packets into groups and makes
--                        parity packets of them. Bytes are numbers below 256.
--   Shared/Clock         shared/util/clock.hpp: ClockSync, on wrapping 64-bit integers.
--   Shared/Pacer         shared/transport/pacer.cpp: the token bucket. A reading of the clock is an argument;
--                        the waiting loop takes the list of its readings.
--   Shared/Transport     shared/transport/transport.hpp: the interface of transports, as a record of
--                        operations on a state, which Multipath takes as a parameter.
--   Shared/Multipath     shared/transport/multipath.cpp: several transports behind one.
--   Shared/Congestion    shared/transport/congestion_gcc.cpp: the bitrate that the network admits.
--   Shared/CodecConfig   shared/protocol/codec_config.hpp: codecs and capabilities.
--   Shared/Result        shared/util/result.hpp: errors as values.
--   Shared/Float         floating point, a parameter of the code that uses it: nothing is assumed of
--                        rounding, so that what is proved holds for any. Float/Fixed is an instance for tests.
--   Server/Capture       server/capture/dxgi_capture.cpp: the frames of a desktop, over the outcomes of the
--                        calls of DXGI. Whether the system holds a frame is kept with the state.
--   Server/ColorConverter  server/encoder/d3d11_color_convert.cpp: captured textures made into those that an
--                        encoder takes.
--   Server/Encoders      server/encoder/encoder_factory.cpp, nvenc_encoder.cpp, amf_encoder.cpp and
--                        qsv_encoder.cpp: the choice of an encoder, and the sessions of three vendors.
--   Server/VirtualInput  server/input/virtual_input.cpp: events given to Windows.
--   Server/WasapiCapture  server/audio/wasapi_capture.cpp: the sound of a desktop.
--   Server/Scene         server/capture/scene_analyzer.cpp: the changed rectangles of a frame, merged. The
--                        fuel of both loops is the number of rectangles, which each round lessens.
--   Server/Adaptive      server/encoder/adaptive_controller.cpp: codec, bitrate and keyframes, from the
--                        statistics of the transport and the analysis of the scene.
--   Server/TrayControls  server/gui/tray_app.cpp: the controls that create_devices_tab, create_display_tab
--                        and create_network_tab create in the tabs.
--   Server/TrayApp       server/gui/tray_app.cpp: the window with its messages, the tabs and the icon. What
--                        the system keeps for the windows stands in the state.
--   Server/Transport     server/network/server_transport.cpp: datagrams by a completion port. What the calls
--                        of the system come back with are arguments.
--   Server/Discovery     server/gui/discovery.cpp: names in DNS packets, (Discovery/Response) the parsing of
--                        responses and the query that is sent, and (Discovery/Clients) the list of the
--                        clients found. The fuel of the decoding is twelve times the packet's length
--                        and one, since each round moves forward or takes one of eleven jumps.
--   Client/AlsaPlayback  client/audio/alsa_playback.cpp: sound written to a device. The loop takes the list of
--                        what its calls come back with.
--   Shared/AudioFormat   shared/audio/audio_pipeline.hpp: the format of sound.
--   Client/InputForwarder  client/input/input_forwarder.cpp: events of devices, as they are sent.
--   Client/DrmDisplay    client/compositor/drm_display.c: the display and its planes.
--   Client/TuiApp        client/tui/app.cpp and client/tui/screens/discovery_screen.cpp: keys and screens.
--   Client/WifiScreen    client/tui/screens/wifi_screen.cpp: the networks and the selection.
--   Client/ConnectionOverlay  client/tui/screens/connection_screen.cpp: the history of latencies.
--   Client/Transport     client/network/client_transport.cpp: datagrams by io_uring. The datagrams that
--                        have arrived, and the completions that the loop has not seen, stand in the
--                        state; what happens is a list of events.
--
-- Prelude has the names that all share: native numbers, lists, integers (Prelude/Int) and lemmas on bits
-- (Prelude/Bits). Each component's Tests module runs it on small data.
--
-- Integers are natural numbers, with the wrap of the machine written out where the code can reach it;
-- signed ones are those of Prelude/Int. Locks, atomics and memory orders are not modelled: each call is
-- whole. Message texts and log lines are left out.
--
-- Not modelled: the sockets of the discovery, and the code that only calls the system (the
-- decoder, Opus, the service of Windows, the tuning of the system and the log), the sync engine,
-- which has no effect, the build files and the scripts.

pub mod Prelude
pub mod Shared
pub mod Server
pub mod Client
