-- ===== src/Lib.antt =====
-- The audio and power HALs, the properties set at boot and the legacy camera's wrapper of the device
-- tree android_device_samsung_zero-common.
--
-- The primary audio HAL (audio/audio_hw.c, audio/audio_hw.h) keeps a list of usecases, each with
-- the sound devices that it plays or captures on, and a reference count for each sound device. It
-- chooses sound devices from the audio devices, the mode and the source, applies and resets mixer
-- paths through libaudioroute, opens PCMs through tinyalsa, and runs voice calls: over the RIL
-- client (audio/ril_interface.c) and the Audience voice processor (audio/audience.c). The power HAL
-- (power/power.c) stands alone, and so does the setting of the system properties by the bootloader's
-- name (libinit/init_sec.cpp) and the wrapper of the vendor's legacy camera device
-- (camera/Camera2Wrapper.cpp).
--
-- The files:
--   Common: tests, lists and bits that the parts share.
--   Platform: what stands outside the sources. Each call into a library is a constructor of `Call`
--     and goes on a log; `reply` and `pointer` answer it and may depend on all calls before it. The
--     constants of the Android headers are fields, and `allocates` says whether calloc gives the
--     memory for a usecase or a PCM device. Platform/Aosp is an instance with their values.
--     Platform/Pcms counts in a log how often a PCM handle was given and closed.
--   Audio/SndDevice, Audio/State: the enumerations, tables and structs of audio/audio_hw.h. Streams
--     are named by number in two stores, PCM handles by number; NULL is `none`. `fault` is set where
--     the code follows a NULL pointer, and where a recursion does not end.
--   Audio/Lookup, Audio/Profiles: the searches, the PCM profiles and the check of an input's format.
--   Audio/Output, Audio/Input: get_output_snd_device and get_input_snd_device.
--   Audio/Route: enable_snd_device, disable_snd_device and check_and_route_usecases. Route/Invariant
--     defines `IsRouted`, the agreement of the counts with the uses; Route/Count, Route/Backend,
--     Route/Flags, Route/Reroute, Route/Members and Route/Pair are about the operations.
--   Audio/Select: set_voice_volume, do_routing_for_call and select_devices; Select/Held,
--     Select/Switch and Select/Keeps are about the counts along a selection, Select/Streams about
--     what it leaves alone, Select/Depth about the fuel.
--   Audio/Voice: the voice call and its SCO session. Voice/Sessions and Voice/Frame are about what they
--     leave alone, Voice/Calls and Voice/Ends about the list and the counts, Voice/Handles,
--     Voice/Sco and Voice/Balance about the PCM handles.
--   Audio/Playback: the PCM devices of an output stream, start_output_stream, stop_output_stream and
--     out_standby; Playback/Paths is about what they do to the usecases. Playback/Write: out_write,
--     out_set_parameters, out_set_volume, out_get_presentation_position and the getters. A request of
--     a client is one step of a relation (Playback/Requests), and `IsSettled` (Playback/Settled) ties
--     the standby of a stream to the list of usecases. Playback/Calls and Playback/Position are about
--     the call that a routing starts and about the frames.
--   Audio/Capture and Capture/Paths: start_input_stream and stop_input_stream. Capture/Read: in_read,
--     in_standby, in_set_parameters and in_get_capture_position, with Capture/Settled and
--     Capture/Requests as for an output, and Capture/Delivery about the frames that a client gets. A
--     stream holds whether it has a resampler; resample_from_provider is a parameter.
--   Audio/Reader: get_next_buffer, release_buffer and read_frames without a resampler; a frame is a
--     number. The loop is on fuel, as much as frames are asked for, since each round delivers one at
--     least. Reader/Fifo takes the buffer as a queue.
--   Audio/Device: adev_open_output_stream, adev_open_input_stream, their ends, parameters, mode and
--     mute. Device/Mixers: mixer_init, with its retries as a recursion on those that are left.
--     Device/Opening: adev_open and adev_close. Device/Streams, Device/Modes, Device/Ready and
--     Device/Retries are about them.
--   Audio/Callbacks: audio_set_wb_amr_callback.
--   Ril, Audience: the functions of audio/ril_interface.c and audio/audience.c, with their results
--     and the log that they leave. Ril/Served is about runs of the setters, Audience/Session about the
--     order of the writes.
--   Power: power/power.c over a record of sysfs files, with the log of the writes.
--   Init: libinit/init_sec.cpp over a property area, which is a parameter. Init/Search is the search
--     for a text in the bootloader's name; Init/Flat, Init/Carriers and Init/Edge are the branches of
--     the chain, in the order of Init/Table. Init/Values lists the writes of a branch, Init/Result
--     and Init/Choice are about what a run leaves and which branch it takes.
--   Camera: camera/Camera2Wrapper.cpp with its statics and one open device; Camera/Calls is the vendor's
--     module, with a log of its calls. Camera/Runs has the requests as steps of a relation, and
--     Camera/Closing is about a run from an open to its close.
--   Examples beside each part: the theorems at concrete states.
--
-- A function that mutates a struct returns the new struct beside its result. Locks are not modelled:
-- each operation is one step under its lock. The usecases and streams are found by id and by number,
-- so a `struct audio_usecase *` in an argument is the usecase that it points to. An audio_usecase's
-- stream says whether it is a `stream_out` or a `stream_in`; where the code casts one to the other,
-- the field that is read is answered by a `Layout`, any function of the state.
--
-- select_devices calls itself on a playback usecase for the active input's usecase. It is recursion
-- on fuel; `select_depth` is 2, for the usecase and the capture that follows it, and
-- Select/Depth is about why this is enough. With no fuel left the state is marked `fault`. The loop of
-- read_frames over a resampler has as much fuel as frames are asked for; a resampler that writes
-- nothing uses it up, as it keeps the code in the loop, and `none` stands for this.
--
-- The memory for a usecase and for an input's PCM device may be missing. uc_select_pcm_devices uses
-- that for an output's PCM device without a test, so it is taken as given.
--
-- The values that str_parms_get_str finds are arguments, `none` where a key is not there. Times are
-- numbers of microseconds that the platform gives.
--
-- Not modelled: out_get_parameters, which writes the names of channel masks into a text, the
-- functions for dumps and effects, which do nothing, and logging. The strings of mixer paths are
-- modelled as far as their tables. A volume is the bit pattern of a float, and the scaling of it to
-- steps is a parameter. Of the camera wrappers camera/Camera3Wrapper.cpp and camera/CameraWrapper.cpp,
-- which hold no state of a device, and the callbacks that hand a message to the client are left out.
-- The doze and lineagehw parts of the tree, its shims and its configuration are other programs, and
-- camera/CameraParameters.cpp, its header and include/ are copies of the platform's files.
pub mod Common
pub mod Platform
pub mod Ril
pub mod Audience
pub mod Audio
pub mod Power
pub mod Init
pub mod Camera
