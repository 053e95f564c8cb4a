-- ===== src/Platform/Defs.antt =====
-- Return codes, external calls and the parameters of the model.
use android_device_samsung_z.Common.{ℕ, Bool, true, false, Option, List}

pub data Errno : Type 0 where
  einval enomem enodev enosys eexist eio enodata : Errno

-- An `int` result: 0, -1, `-EINVAL` and its like, or a nonzero value that a library returned.
pub data Ret : Type 0 where
  success : Ret
  minus_one : Ret
  failed : Errno → Ret
  code : ℕ → Ret

abbrev pub is_zero : Ret → Bool
is_zero success = true
is_zero _ = false

-- The arguments of the RIL client's setters: enum _SoundType, _AudioPath and _MuteCondition.
pub data SoundType : Type 0 where
  sound_voice sound_speaker sound_headset sound_btvoice : SoundType

pub data AudioPath : Type 0 where
  path_earpiece path_headset path_headphone path_speaker : AudioPath
  path_bluetooth path_bluetooth_no_nr path_bluetooth_wb path_bluetooth_wb_no_nr : AudioPath

pub data MuteCondition : Type 0 where
  tx_unmute tx_mute rx_unmute : MuteCondition

-- The file of mixer paths: in /vendor/etc or in /system/etc, the `_audience` one or the other.
pub data MixerPaths : Type 0 where
  vendor_paths system_paths : (audience : Bool) → MixerPaths

-- A call out of the sources. `String`s are named by number: `name` of a mixer path is the index
-- of the sound device whose entry of `device_table` is passed.
pub data Call : Type 0 where
  audio_route_apply : (card name : ℕ) → Call
  audio_route_reset : (card name : ℕ) → Call
  pcm_open : (card device flags : ℕ) → Call
  pcm_is_ready : (pcm : ℕ) → Call
  pcm_start : Option ℕ → Call
  pcm_stop : (pcm : ℕ) → Call
  pcm_close : Option ℕ → Call
  open_client : Call
  is_connected : (client : ℕ) → Call
  connect_rild : (client : ℕ) → Call
  disconnect_rild : (client : ℕ) → Call
  close_client : (client : ℕ) → Call
  register_handler : Option ℕ → (request : ℕ) → Call
  set_call_volume : Option ℕ → SoundType → (steps : ℕ) → Call
  set_call_audio_path : Option ℕ → AudioPath → Call
  set_call_clock_stop : Option ℕ → Call
  set_mute : Option ℕ → MuteCondition → Call
  set_two_mic_control : Option ℕ → Bool → Call
  write_int : (path value : ℕ) → Call
  create_resampler : (in_sample_rate out_sample_rate channel_count : ℕ) → Call
  release_resampler : (stream : ℕ) → Call
  reset_resampler : (stream : ℕ) → Call
  pcm_write : (pcm : ℕ) (buffer : List ℕ) (bytes : ℕ) → Call
  pcm_get_htimestamp : (pcm : ℕ) → Call
  clock_gettime : Call
  usleep : (microseconds : ℕ) → Call
  mixer_open : (card : ℕ) → Call
  access : (location : MixerPaths) → Call
  audio_route_init : (card : ℕ) (location : MixerPaths) → Call
  audio_route_free : (card : ℕ) → Call

-- What `calloc` is asked for.
pub data Allocation : Type 0 where
  usecase_memory pcm_device_memory : Allocation

-- A `float` is its bit pattern, and an `int` a word modulo 2 ^ 32.
pub record Platform : Type 0 where
  -- audio_devices_t
  pub bit_in : ℕ
  pub out_earpiece : ℕ
  pub out_speaker : ℕ
  pub out_wired_headset : ℕ
  pub out_wired_headphone : ℕ
  pub out_bluetooth_sco_headset : ℕ
  pub out_bluetooth_sco_carkit : ℕ
  pub out_all_sco : ℕ
  pub in_builtin_mic : ℕ
  pub in_back_mic : ℕ
  pub in_wired_headset : ℕ
  pub in_bluetooth_sco_headset : ℕ
  pub in_voice_call : ℕ
  pub in_communication : ℕ
  -- audio_source_t
  pub source_default : ℕ
  pub source_mic : ℕ
  pub source_camcorder : ℕ
  pub source_voice_recognition : ℕ
  pub source_voice_communication : ℕ
  -- audio_format_t, audio_channel_mask_t and the stream flags
  pub format_pcm_16_bit : ℕ
  pub channel_out_stereo : ℕ
  pub input_flag_fast : ℕ
  pub output_flag_primary : ℕ
  pub output_flag_deep_buffer : ℕ
  -- the flags of pcm_open
  pub pcm_in : ℕ
  pub pcm_out : ℕ
  pub pcm_monotonic : ℕ
  -- a call's `int` result, the pointer that one of the opening calls returns, and the volume
  -- `(int)(volume * steps)`
  pub reply : List Call → Call → Ret
  pub pointer : List Call → Call → Option ℕ
  pub scale_volume : (volume steps : ℕ) → ℕ
  -- whether `calloc` gives the memory
  pub allocates : List Call → Allocation → Bool
  -- `atoi` of the property ro.config.vc_call_vol_steps, which is "5" where it is not set
  pub volume_steps_property : ℕ
  -- of system/audio.h and hardware/audio.h: the channels of a mask, the bytes of a sample, and the
  -- bytes of a frame
  pub channel_count : (mask : ℕ) → ℕ
  pub bytes_per_sample : (format : ℕ) → ℕ
  pub frame_size : (format mask : ℕ) → ℕ
  -- the buffer that `adjust_channels` fills
  pub adjust_channels : (buffer : List ℕ) (in_channels out_channels sample_size : ℕ) → List ℕ
  -- what `clock_gettime` stores, in microseconds, and what `pcm_get_htimestamp` stores: the frames
  -- and the time in nanoseconds
  pub now_us : List Call → ℕ
  pub available : List Call → (pcm : ℕ) → ℕ
  pub timestamp : List Call → (pcm : ℕ) → ℕ
