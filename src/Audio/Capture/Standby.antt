-- ===== src/Audio/Capture/Standby.antt =====
-- Which operations of audio/audio_hw.c leave the `standby` of the input streams as it is.
use android_device_samsung_z.Common.{
  ◌&&◌, ℕ, ◌+◌, ◌≡◌, refl, ap, ◌∙◌, inl, inr, not, ◌||◌, some, none, Option-cases, is_some, [], ◌∷◌,
  ◌++◌, if_of, arith,
}
use android_device_samsung_z.Platform.{
  Call, Platform, Ret, success, usecase_memory, pcm_device_memory,
}
use android_device_samsung_z.Audio.State.{
  PcmDevice, PcmConfig, PcmProfile, AudioDevice, Layout, record_call,
}
use android_device_samsung_z.Audio.Lookup.{get_usecase_from_id, get_pcm_device, get_mixer_for_card}
use android_device_samsung_z.Audio.Select.{select_depth}
use android_device_samsung_z.Audio.Select.Streams.{
  SameStreams, select_devices-SameStreams, disable_snd_device-SameStreams,
}
use android_device_samsung_z.Audio.Voice.{asked_ready, not_ready}
use android_device_samsung_z.Audio.Voice.Sessions.{asked_ready-log}
use android_device_samsung_z.Audio.Playback.Paths.{close_loop-log}
use android_device_samsung_z.Audio.Capture.{
  set_in, stop_input_stream, fast_profile, fast_table, new_input_usecase, free_resampler,
  update_config, error_open, open_input, enable_input, start_capture, start_input_stream,
}
use android_device_samsung_z.Audio.Capture.Paths.{KeepsRoutes}
use android_device_samsung_z.Audio.Capture.Read.{in_close_pcm_devices}

-- Every input stream keeps its usecase, and is in standby after it if it was before.
pub record SameStandby (s t : AudioDevice) : Type 0 where
  pub standbys : (j : ℕ) → (t.ins j).standby ≡ (s.ins j).standby
  pub ids : (j : ℕ) → (t.ins j).usecase ≡ (s.ins j).usecase

pub SameStandby-trans : (s t r : AudioDevice) → SameStandby s t → SameStandby t r → SameStandby s r
SameStandby-trans s t r f g = record {
  standbys = λ j. g.standbys j ∙ f.standbys j;
  ids = λ j. g.ids j ∙ f.ids j;
}

pub SameStreams-SameStandby : (s t : AudioDevice) → SameStreams s t → SameStandby s t
SameStreams-SameStandby s t e = record {
  standbys = λ j. ap (λ ins. (ins j).standby) e.ins;
  ids = λ j. ap (λ ins. (ins j).usecase) e.ins;
}

pub in_close-SameStandby : (i : ℕ) (s : AudioDevice) → SameStandby s (in_close_pcm_devices i s)
unfolding in_close_pcm_devices
in_close-SameStandby i s = record {
  standbys = λ j. ground (arith, close_loop-log (s.ins i).pcm_dev_list s);
  ids = λ j. ground (arith, close_loop-log (s.ins i).pcm_dev_list s);
}

pub in_close-KeepsRoutes : (i : ℕ) (s : AudioDevice) → KeepsRoutes s (in_close_pcm_devices i s)
unfolding in_close_pcm_devices
in_close-KeepsRoutes i s = record {
  routes = ground (arith, close_loop-log (s.ins i).pcm_dev_list s);
  usecases = λ j. ground (arith, close_loop-log (s.ins i).pcm_dev_list s);
}

pub stop_input-SameStandby : (i : ℕ) (s : AudioDevice) → SameStandby s (stop_input_stream i s).1
unfolding stop_input_stream
stop_input-SameStandby i s =
    let s' = record s { active_input = none } in
    elim (Option-cases (get_usecase_from_id s.usecase_list (s.ins i).usecase)) [
      | inl absent ↦
          rw (absent, stop_input_stream) (record { standbys = λ j. refl; ids = λ j. refl })
      | inr (u, f) ↦
          let same = disable_snd_device-SameStreams s' u.mixer_list u.in_snd_device in
          rw (f, stop_input_stream)
            (record {
              standbys = λ j. ground (arith, same.ins);
              ids = λ j. ground (arith, same.ins);
            })
    ]

free_resampler-SameStandby : (i : ℕ) (s : AudioDevice) → SameStandby s (free_resampler i s)
free_resampler-SameStandby i s = record { standbys = λ j. ground arith; ids = λ j. ground arith }

error_open-SameStandby : (i : ℕ) (s : AudioDevice) → SameStandby s (error_open i s)
unfolding error_open
error_open-SameStandby i s =
    let free = free_resampler i s in
    let all =
      SameStandby-trans s free _ (free_resampler-SameStandby i s) (stop_input-SameStandby i free) in
    record { standbys = all.standbys; ids = all.ids }

module _ (p : Platform) where
  update_config-SameStandby :
      (i : ℕ) (config : PcmConfig) (s : AudioDevice) → SameStandby s (update_config p i config s).1
  unfolding update_config
  update_config-SameStandby i config s = record {
    standbys = λ j. ground arith;
    ids = λ j. ground arith;
  }

  open_input-SameStandby :
      (i place : ℕ) (q : PcmProfile) (ret : Ret) (s : AudioDevice)
      → SameStandby s (open_input p i place q ret s).1
  unfolding open_input
  open_input-SameStandby i place q ret s =
      let call = Call.pcm_open q.card q.id (p.pcm_in + p.pcm_monotonic) in
      let pcm = p.pointer s.log call in
      let opened = record_call call s in
      let asked = asked_ready p pcm opened in
      let same = asked_ready-log p pcm opened in
      let closed = record_call (Call.pcm_close pcm) asked in
      let shut : SameStandby s closed = record {
        standbys = λ j. ground (arith, same);
        ids = λ j. ground (arith, same);
      } in
      if_of {A = Ret × AudioDevice} (λ r. SameStandby s r.1) (not_ready p pcm opened) _ _
        (λ e. SameStandby-trans s closed _ shut (error_open-SameStandby i closed))
        (λ e. record { standbys = λ j. ground (arith, same); ids = λ j. ground (arith, same) })

module _ (p : Platform) (lay : Layout) where
  enable_input-SameStandby :
      (i place : ℕ) (q : PcmProfile) (s : AudioDevice)
      → SameStandby s (enable_input p lay i place q s)
  unfolding enable_input
  enable_input-SameStandby i place q s =
      let device : PcmDevice = record { pcm_profile = place; pcm = none; status = success } in
      let table = fast_table p (s.ins i) place s.pcm_devices in
      let t = record (set_in i (record (s.ins i) { pcm_dev_list = device ∷ [] }) s) {
        pcm_devices = table;
        fault = s.fault || not (is_some (get_mixer_for_card s.mixer_list q.card));
      } in
      let listed = record t { usecase_list = t.usecase_list ++ new_input_usecase s i q ∷ [] } in
      let same = select_devices-SameStreams p lay select_depth listed (s.ins i).usecase in
      record { standbys = λ j. ground (arith, same.ins); ids = λ j. ground (arith, same.ins) }

  start_capture-SameStandby :
      (i place : ℕ) (q : PcmProfile) (s : AudioDevice)
      → SameStandby s (start_capture p lay i place q s).1
  unfolding start_capture
  start_capture-SameStandby i place q s =
      let t = enable_input p lay i place q s in
      let (ret, r) = update_config p i q.config t in
      let on = enable_input-SameStandby i place q s in
      let ready = SameStandby-trans s t r on (update_config-SameStandby p i q.config t) in
      SameStandby-trans s r _ ready (open_input-SameStandby p i place q ret r)

  pub start_input-SameStandby :
      (i : ℕ) (s : AudioDevice) → SameStandby s (start_input_stream p lay i s).1
  unfolding start_input_stream
  start_input-SameStandby i s =
      let active = record s { active_input = some i } in
      elim (Option-cases
        (get_pcm_device p s.pcm_devices (s.ins i).usecase_type (s.ins i).devices)) [
          | inl absent ↦
              rw (absent, start_input_stream) (record { standbys = λ j. refl; ids = λ j. refl })
          | inr ((place, profile), found) ↦
              let q = fast_profile p (s.ins i) profile in
              let all = start_capture-SameStandby i place q active in
              rw (found, start_input_stream)
                (if_of {A = Ret × AudioDevice} (λ x. SameStandby s x.1)
                  (p.allocates s.log usecase_memory && p.allocates s.log pcm_device_memory) _ _
                  (λ given. record { standbys = all.standbys; ids = all.ids })
                  (λ missing. record { standbys = λ j. refl; ids = λ j. refl }))
        ]
