-- ===== src/Audio/Device/Opening.antt =====
-- `adev_open` and `adev_close` of audio/audio_hw.c, and the state in which a device is opened.
use android_device_samsung_z.Common.{
  ℕ, ◌+◌, ◌-◌, ◌%◌, ◌^◌, ◌≡◌, refl, ◌⊎◌, inl, inr, Bool, true, false, Option, none, some, List, [],
  not, if◌then◌else◌, All, arith,
}
use android_device_samsung_z.Platform.{
  Platform, Call, Ret, success, failed, einval, enomem, is_zero,
}
use android_device_samsung_z.Ril.{Ril, ril_open}
use android_device_samsung_z.Audio.State.{mode_normal, PcmProfile, StreamOut, StreamIn, AudioDevice}
use android_device_samsung_z.Audio.Route.Invariant.{IsRouted}
use android_device_samsung_z.Audio.Device.{VoiceConfig, narrow, wide, other_config, configure}
use android_device_samsung_z.Audio.Device.Mixers.{free_mixer_list, mixer_init}
use android_device_samsung_z.Audio.Device.Ready.{HasMixer, mixer_init-outcome}

-- What the process holds before: the memory of the streams, the profiles, which an earlier device
-- may have changed, and the statics of audio/ril_interface.c in a handle that is zero else.
pub record World : Type 0 where
  pub outs : ℕ → StreamOut
  pub ins : ℕ → StreamIn
  pub pcm_devices : List PcmProfile
  pub ril : Ril
  pub log : List Call
  pub ref_count : ℕ  -- audio_device_ref_count

-- Which of the allocations succeed, and what the properties say.
pub record Request : Type 0 where
  pub name_matches : Bool
  pub memory : Bool
  pub ref_cnt_memory : Bool
  pub mixer_memory : ℕ → Bool
  pub uses_audience : Bool
  pub voice_config : Option VoiceConfig

-- 1.0f
abbrev pub full_volume : ℕ
full_volume = 0x3f800000

-- The device as it stands before `mixer_init`, with its mixers.
abbrev pub fresh_device : World → (mixers : List ℕ) → Ril → List Call → AudioDevice
fresh_device w mixers ril log = record {
  mixer_list = mixers;
  mode = mode_normal;
  active_input = none;
  primary_output = none;
  mic_mute = false;
  in_call = false;
  in_call_sco = false;
  in_comm_sco = false;
  volume = full_volume;
  bluetooth_nrec = false;
  bluetooth_wb = false;
  audience_enabled = false;
  forced_voice_config = false;
  wb_amr_type = 0;
  ril = ril;
  pcm_voice_rx = none;
  pcm_voice_tx = none;
  pcm_sco_rx = none;
  pcm_sco_tx = none;
  snd_dev_ref_cnt = λ d. 0;
  usecase_list = [];
  outs = w.outs;
  ins = w.ins;
  pcm_devices = w.pcm_devices;
  log = log;
  fault = false;
}

module _ (p : Platform) where
  -- `audience_enabled` is still false as `mixer_init` reads it. A failing `ril_open` leaves the
  -- mixers and the counts allocated.
  unfoldable pub adev_open : Request → World → Ret × Option AudioDevice × List Call × ℕ
  adev_open q w =
      let (initialised, mixers, log) = mixer_init p false q.mixer_memory w.pcm_devices w.log in
      let (connected, ril, log') = ril_open p w.ril log in
      if not q.name_matches
      then (failed einval, none, w.log, w.ref_count)
      else if not q.memory
      then (failed enomem, none, w.log, w.ref_count)
      else if not q.ref_cnt_memory
      then (failed enomem, none, w.log, w.ref_count)
      else if not (is_zero initialised)
      then (failed einval, none, log, w.ref_count)
      else if not (is_zero connected)
      then (failed einval, none, log', w.ref_count)
      else (
        success,
        some (configure q.uses_audience q.voice_config (fresh_device w mixers ril log')),
        log',
        (w.ref_count + 1) % 2 ^ 32,
      )

  -- `audio_device_ref_count` is unsigned.
  unfoldable pub adev_close : AudioDevice → (ref_count : ℕ) → Ret × List Call × ℕ
  adev_close s ref_count =
      (success, free_mixer_list s.mixer_list s.log, (ref_count + 2 ^ 32 - 1) % 2 ^ 32)

  -- What the client of an opened device can rely on.
  pub record IsOpened (s : AudioDevice) : Type 0 where
    pub routed : IsRouted s
    pub mixers : All (HasMixer s.mixer_list) s.pcm_devices
    pub no_usecases : s.usecase_list ≡ []
    pub no_primary : s.primary_output ≡ none
    pub no_call : s.in_call ≡ false
    pub no_fault : s.fault ≡ false

  IsOpened-voice :
      (s : AudioDevice) (audience forced : Bool) (band : ℕ)
      → IsOpened s
      → IsOpened (record s {
        audience_enabled = audience;
        forced_voice_config = forced;
        wb_amr_type = band;
      })
  IsOpened-voice s audience forced band h = record {
    routed = record {
      counted = h.routed.counted;
      shaped = h.routed.shaped;
      distinct = h.routed.distinct;
    };
    mixers = h.mixers;
    no_usecases = h.no_usecases;
    no_primary = h.no_primary;
    no_call = h.no_call;
    no_fault = h.no_fault;
  }

  configure-IsOpened :
      (uses_audience : Bool) (config : Option VoiceConfig) (s : AudioDevice)
      → IsOpened s
      → IsOpened (configure uses_audience config s)
  unfolding configure
  configure-IsOpened true config s h = IsOpened-voice s true s.forced_voice_config 0 h
  configure-IsOpened false none s h = h
  configure-IsOpened false (some narrow) s h = IsOpened-voice s s.audience_enabled true 0 h
  configure-IsOpened false (some wide) s h = IsOpened-voice s s.audience_enabled true 1 h
  configure-IsOpened false (some other_config) s h =
      IsOpened-voice s s.audience_enabled true s.wb_amr_type h

  -- Either `adev_open` answers 0 and a device whose counts are the uses, with a mixer for the card
  -- of each profile, without usecases, a primary output, a call and a fault; or it answers an error
  -- and no device, and the number of devices is as it was.
  pub adev_open-IsOpened :
      (q : Request) (w : World)
      → let (rc, device, log, ref_count) = adev_open q w in
        ((rc ≡ success) × ((s : AudioDevice) × (device ≡ some s) × IsOpened s))
        ⊎ (is_zero rc ≡ false) × (device ≡ none) × (ref_count ≡ w.ref_count)
  unfolding adev_open
  adev_open-IsOpened q w =
      let (initialised, mixers, log) = mixer_init p false q.mixer_memory w.pcm_devices w.log in
      let (connected, ril, log') = ril_open p w.ril log in
      let s = configure q.uses_audience q.voice_config (fresh_device w mixers ril log') in
      elim (mixer_init-outcome p false q.mixer_memory w.pcm_devices w.log) [
        | inl (ready, served) ↦
            let opened : IsOpened s =
              configure-IsOpened q.uses_audience q.voice_config (fresh_device w mixers ril log')
                (record {
                  routed = record { counted = λ d. refl; shaped = tt; distinct = tt };
                  mixers = served;
                  no_usecases = refl;
                  no_primary = refl;
                  no_call = refl;
                  no_fault = refl;
                }) in
            ground (arith, opened)
        | inr (bad, empty) ↦ ground (arith, bad)
      ]
