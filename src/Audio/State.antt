-- ===== src/Audio/State.antt =====
-- The state of the audio HAL: the structs of audio/audio_hw.h. Streams live in two stores and are
-- named by number, as are PCM handles; lists hold what the C links through list nodes.
use android_device_samsung_z.Common.{ℕ, Bool, true, false, Option, List, ◌∷◌, ◌==◌, if◌then◌else◌}
use android_device_samsung_z.Platform.{Call, Ret}
use android_device_samsung_z.Ril.{Ril}
use android_device_samsung_z.Audio.SndDevice.{SndDevice}

pub data Mode : Type 0 where
  mode_normal mode_in_call mode_in_communication : Mode
  mode_other : ℕ → Mode

-- audio_usecase_t
abbrev pub usecase_audio_playback : ℕ
usecase_audio_playback = 0

abbrev pub usecase_audio_playback_multi_ch : ℕ
usecase_audio_playback_multi_ch = 1

abbrev pub usecase_audio_playback_deep_buffer : ℕ
usecase_audio_playback_deep_buffer = 2

abbrev pub usecase_audio_capture : ℕ
usecase_audio_capture = 3

abbrev pub usecase_voice_call : ℕ
usecase_voice_call = 4

-- usecase_type_t, with the values that the code tests as bits.
pub data UsecaseType : Type 0 where
  pcm_playback pcm_capture voice_call : UsecaseType

abbrev pub type_bits : UsecaseType → ℕ
type_bits UsecaseType.pcm_playback = 0
type_bits UsecaseType.pcm_capture = 1
type_bits UsecaseType.voice_call = 2

abbrev pub same_type : UsecaseType → UsecaseType → Bool
same_type t u = type_bits t == type_bits u

-- struct pcm_config; the format is always PCM_FORMAT_S16_LE.
pub record PcmConfig : Type 0 where
  pub channels : ℕ
  pub rate : ℕ
  pub period_size : ℕ
  pub period_count : ℕ
  pub start_threshold : ℕ
  pub stop_threshold : ℕ
  pub avail_min : ℕ

-- struct pcm_device_profile
pub record PcmProfile : Type 0 where
  pub config : PcmConfig
  pub card : ℕ
  pub id : ℕ
  pub type : UsecaseType
  pub devices : ℕ

-- struct pcm_device; the profile is named by its place in `pcm_devices`.
pub record PcmDevice : Type 0 where
  pub pcm_profile : ℕ
  pub pcm : Option ℕ
  pub status : Ret

pub record StreamOut : Type 0 where
  pub config : PcmConfig
  pub pcm_dev_list : List PcmDevice
  pub standby : Bool
  pub sample_rate : ℕ
  pub channel_mask : ℕ
  pub format : ℕ
  pub devices : ℕ
  pub flags : ℕ
  pub usecase : ℕ
  pub muted : Bool
  pub written : ℕ  -- uint64_t
  pub proc_buf_size : ℕ
  pub last_write_time_us : ℕ

pub record StreamIn : Type 0 where
  pub config : PcmConfig
  pub pcm_dev_list : List PcmDevice
  pub standby : Bool
  pub source : ℕ
  pub devices : ℕ
  pub main_channels : ℕ
  pub usecase : ℕ
  pub usecase_type : UsecaseType
  pub input_flags : ℕ
  pub requested_rate : ℕ
  pub resampler : Bool  -- whether it is not NULL
  pub proc_buf_size : ℕ
  pub read_buf_size : ℕ
  pub read_buf_frames : ℕ
  pub read_buf : List ℕ  -- [] where it is NULL
  pub read_status : Ret
  pub reads : ℕ  -- the calls of pcm_read, which the C does not count
  pub frames_read : ℕ  -- int64_t
  pub last_read_time_us : ℕ

-- The `struct audio_stream *` of a usecase, with what it really points to.
pub data Stream : Type 0 where
  of_out : ℕ → Stream
  of_in : ℕ → Stream

pub record AudioUsecase : Type 0 where
  pub id : ℕ
  pub type : UsecaseType
  pub devices : ℕ
  pub out_snd_device : SndDevice
  pub in_snd_device : SndDevice
  pub stream : Stream
  pub mixer_list : List ℕ

-- struct audio_device, with the streams, the table `pcm_devices` and the log of calls.
-- `snd_dev_ref_cnt` is a function of the index. `fault` is set where the C follows a NULL pointer
-- or recurs without end; nothing that a run does afterwards has a meaning.
pub record AudioDevice : Type 0 where
  pub mixer_list : List ℕ
  pub mode : Mode
  pub active_input : Option ℕ
  pub primary_output : Option ℕ
  pub mic_mute : Bool
  pub in_call : Bool
  pub in_call_sco : Bool
  pub in_comm_sco : Bool
  pub volume : ℕ
  pub bluetooth_nrec : Bool
  pub bluetooth_wb : Bool
  pub audience_enabled : Bool
  pub forced_voice_config : Bool
  pub wb_amr_type : ℕ
  pub ril : Ril
  pub pcm_voice_rx : Option ℕ
  pub pcm_voice_tx : Option ℕ
  pub pcm_sco_rx : Option ℕ
  pub pcm_sco_tx : Option ℕ
  pub snd_dev_ref_cnt : SndDevice → ℕ
  pub usecase_list : List AudioUsecase
  pub outs : ℕ → StreamOut
  pub ins : ℕ → StreamIn
  pub pcm_devices : List PcmProfile
  pub log : List Call
  pub fault : Bool

abbrev pub is_in_call : Mode → Bool
is_in_call mode_in_call = true
is_in_call _ = false

abbrev pub is_in_communication : Mode → Bool
is_in_communication mode_in_communication = true
is_in_communication _ = false

abbrev pub is_normal : Mode → Bool
is_normal mode_normal = true
is_normal _ = false

-- A store with one entry written.
abbrev pub update {ℓ} : {A : Type ℓ} → (ℕ → A) → ℕ → A → ℕ → A
update f k v j = if j == k then v else f j

-- A call into a library.
abbrev pub record_call : Call → AudioDevice → AudioDevice
record_call c s = record s { log = c ∷ s.log }

-- What a field of `struct stream_in` reads in an object that is a `struct stream_out`, and the
-- other way round: it depends on the layouts that the ABI gives the two, so any function will do.
pub record Layout : Type 0 where
  pub source_of_out : AudioDevice → ℕ → ℕ
  pub devices_of_out : AudioDevice → ℕ → ℕ
  pub usecase_of_out : AudioDevice → ℕ → ℕ
  pub devices_of_in : AudioDevice → ℕ → ℕ

-- The fields that are read through `(struct stream_in *)usecase->stream`.
pub record InputView : Type 0 where
  pub source : ℕ
  pub devices : ℕ
  pub usecase : ℕ

abbrev pub view_in : Layout → AudioDevice → Stream → InputView
view_in lay s (of_in i) = record {
  source = (s.ins i).source;
  devices = (s.ins i).devices;
  usecase = (s.ins i).usecase;
}
view_in lay s (of_out o) = record {
  source = lay.source_of_out s o;
  devices = lay.devices_of_out s o;
  usecase = lay.usecase_of_out s o;
}

-- `((struct stream_out *)usecase->stream)->devices`
abbrev pub view_out_devices : Layout → AudioDevice → Stream → ℕ
view_out_devices lay s (of_out o) = (s.outs o).devices
view_out_devices lay s (of_in i) = lay.devices_of_in s i
