-- ===== src/Audio/SndDevice.antt =====
-- The sound devices of audio/audio_hw.h and the table of their mixer paths in audio/audio_hw.c.
use Prim.Native.String.{String}
use android_device_samsung_z.Common.{
  ℕ, Option, none, some, List, [], ◌∷◌, ◌&&◌, ◌||◌, ◌==◌, leb, ltb, get_elem?, if◌then◌else◌,
}

-- snd_device_t, an `int` that only ever holds one of these values.
abbrev pub SndDevice : Type 0
SndDevice = ℕ

abbrev pub snd_device_none : SndDevice
snd_device_none = 0

abbrev pub snd_device_out_earpiece : SndDevice
snd_device_out_earpiece = 1

abbrev pub snd_device_out_speaker : SndDevice
snd_device_out_speaker = 2

abbrev pub snd_device_out_headphones : SndDevice
snd_device_out_headphones = 3

abbrev pub snd_device_out_speaker_and_headphones : SndDevice
snd_device_out_speaker_and_headphones = 4

abbrev pub snd_device_out_bt_sco : SndDevice
snd_device_out_bt_sco = 5

abbrev pub snd_device_out_incall_earpiece : SndDevice
snd_device_out_incall_earpiece = 6

abbrev pub snd_device_out_incall_earpiece_wb : SndDevice
snd_device_out_incall_earpiece_wb = 7

abbrev pub snd_device_out_incall_speaker : SndDevice
snd_device_out_incall_speaker = 8

abbrev pub snd_device_out_incall_speaker_wb : SndDevice
snd_device_out_incall_speaker_wb = 9

abbrev pub snd_device_out_incall_headphones : SndDevice
snd_device_out_incall_headphones = 10

abbrev pub snd_device_out_incall_headphones_wb : SndDevice
snd_device_out_incall_headphones_wb = 11

abbrev pub snd_device_out_incall_bt_sco : SndDevice
snd_device_out_incall_bt_sco = 12

abbrev pub snd_device_out_incall_bt_sco_wb : SndDevice
snd_device_out_incall_bt_sco_wb = 13

abbrev pub snd_device_out_comm_earpiece : SndDevice
snd_device_out_comm_earpiece = 14

abbrev pub snd_device_out_comm_speaker : SndDevice
snd_device_out_comm_speaker = 15

abbrev pub snd_device_out_comm_headphones : SndDevice
snd_device_out_comm_headphones = 16

abbrev pub snd_device_out_comm_bt_sco : SndDevice
snd_device_out_comm_bt_sco = 17

abbrev pub snd_device_in_begin : SndDevice
snd_device_in_begin = 18

abbrev pub snd_device_in_earpiece_mic : SndDevice
snd_device_in_earpiece_mic = 18

abbrev pub snd_device_in_speaker_mic : SndDevice
snd_device_in_speaker_mic = 19

abbrev pub snd_device_in_headset_mic : SndDevice
snd_device_in_headset_mic = 20

abbrev pub snd_device_in_bt_sco_mic : SndDevice
snd_device_in_bt_sco_mic = 21

abbrev pub snd_device_in_incall_earpiece_mic : SndDevice
snd_device_in_incall_earpiece_mic = 22

abbrev pub snd_device_in_incall_earpiece_mic_wb : SndDevice
snd_device_in_incall_earpiece_mic_wb = 23

abbrev pub snd_device_in_incall_speaker_mic : SndDevice
snd_device_in_incall_speaker_mic = 24

abbrev pub snd_device_in_incall_speaker_mic_wb : SndDevice
snd_device_in_incall_speaker_mic_wb = 25

abbrev pub snd_device_in_incall_headset_mic : SndDevice
snd_device_in_incall_headset_mic = 26

abbrev pub snd_device_in_incall_headset_mic_wb : SndDevice
snd_device_in_incall_headset_mic_wb = 27

abbrev pub snd_device_in_incall_bt_sco_mic : SndDevice
snd_device_in_incall_bt_sco_mic = 28

abbrev pub snd_device_in_incall_bt_sco_mic_wb : SndDevice
snd_device_in_incall_bt_sco_mic_wb = 29

abbrev pub snd_device_in_comm_earpiece_mic : SndDevice
snd_device_in_comm_earpiece_mic = 30

abbrev pub snd_device_in_comm_speaker_mic : SndDevice
snd_device_in_comm_speaker_mic = 31

abbrev pub snd_device_in_comm_headset_mic : SndDevice
snd_device_in_comm_headset_mic = 32

abbrev pub snd_device_in_comm_bt_sco_mic : SndDevice
snd_device_in_comm_bt_sco_mic = 33

abbrev pub snd_device_in_camcorder_mic : SndDevice
snd_device_in_camcorder_mic = 34

abbrev pub snd_device_in_camcorder_headset_mic : SndDevice
snd_device_in_camcorder_headset_mic = 35

abbrev pub snd_device_in_voice_recognition_mic : SndDevice
snd_device_in_voice_recognition_mic = 36

abbrev pub snd_device_in_voice_recognition_headset_mic : SndDevice
snd_device_in_voice_recognition_headset_mic = 37

abbrev pub snd_device_in_voice_recognition_bt_sco_mic : SndDevice
snd_device_in_voice_recognition_bt_sco_mic = 38

abbrev pub snd_device_max : SndDevice
snd_device_max = 39

abbrev pub snd_device_min : SndDevice
snd_device_min = 1

-- `device_table`, in the order of the enumeration.
abbrev pub device_table : List String
device_table =
    "none" ∷ "route-earpiece" ∷ "route-speaker" ∷ "route-headphones"
    ∷ "route-speaker-and-headphones" ∷ "route-bt-sco-headset" ∷ "route-incall-earpiece"
    ∷ "route-incall-earpiece-wb" ∷ "route-incall-speaker" ∷ "route-incall-speaker-wb"
    ∷ "route-incall-headphones" ∷ "route-incall-headphones-wb" ∷ "route-incall-bt-sco-headset"
    ∷ "route-incall-bt-sco-headset-wb" ∷ "route-comm-earpiece" ∷ "route-comm-speaker"
    ∷ "route-comm-headphones" ∷ "route-comm-bt-sco-headset" ∷ "route-earpiece-mic"
    ∷ "route-speaker-mic" ∷ "route-headset-mic" ∷ "route-bt-sco-mic" ∷ "route-incall-earpiece-mic"
    ∷ "route-incall-earpiece-mic-wb" ∷ "route-incall-speaker-mic" ∷ "route-incall-speaker-mic-wb"
    ∷ "route-incall-headset-mic" ∷ "route-incall-headset-mic-wb" ∷ "route-incall-bt-sco-mic"
    ∷ "route-incall-bt-sco-mic-wb" ∷ "route-comm-earpiece-mic" ∷ "route-comm-speaker-mic"
    ∷ "route-comm-headset-mic" ∷ "route-comm-bt-sco-mic" ∷ "route-camcorder-mic"
    ∷ "route-camcorder-headset-mic" ∷ "route-voice-recognition-mic"
    ∷ "route-voice-recognition-headset-mic" ∷ "route-voice-recognition-bt-sco-headset-in" ∷ []

-- `NULL` outside the enumeration.
unfoldable pub get_snd_device_name : SndDevice → Option String
get_snd_device_name d =
    if d == snd_device_none || (leb snd_device_min d && ltb d snd_device_max)
    then get_elem? device_table d
    else none

unfoldable pub get_snd_device_display_name : SndDevice → String
unfolding get_snd_device_name
get_snd_device_display_name d = elim (get_snd_device_name d) [
  | none ↦ "SND DEVICE NOT FOUND"
  | some name ↦ name
]
