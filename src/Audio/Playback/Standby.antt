-- ===== src/Audio/Playback/Standby.antt =====
-- Which operations of audio/audio_hw.c leave the `standby` of the output streams as it is.
use android_device_samsung_z.Common.{
  ℕ, ◌≡◌, refl, ap, ◌∙◌, not, Option-cases, inl, inr, [], ◌∷◌, ◌++◌, if_of, arith,
}
use android_device_samsung_z.Platform.{Platform, Ret, usecase_memory, is_zero}
use android_device_samsung_z.Audio.State.{Stream, of_out, of_in, AudioDevice, Layout}
use android_device_samsung_z.Audio.Lookup.{get_usecase_from_id}
use android_device_samsung_z.Audio.Route.{disable_snd_device}
use android_device_samsung_z.Audio.Select.{select_depth}
use android_device_samsung_z.Audio.Select.Streams.{
  SameStreams, select_devices-SameStreams, disable_snd_device-SameStreams,
}
use android_device_samsung_z.Audio.Playback.{
  set_pcm_dev_list, out_close_pcm_devices, uc_release_pcm_devices, disable_output_path_l,
  new_output_usecase, uc_select_pcm_devices, open_loop, out_open_pcm_devices, enable_output_path_l,
  add_output_usecase, start_output_stream,
}
use android_device_samsung_z.Audio.Playback.Paths.{close_loop-log, open_loop-log}

-- Every output stream keeps its usecase, and is in standby after it if it was before.
pub record SameStandby (s t : AudioDevice) : Type 0 where
  pub standbys : (q : ℕ) → (t.outs q).standby ≡ (s.outs q).standby
  pub ids : (q : ℕ) → (t.outs q).usecase ≡ (s.outs q).usecase

pub SameStandby-trans : (s t r : AudioDevice) → SameStandby s t → SameStandby t r → SameStandby s r
SameStandby-trans s t r f g = record {
  standbys = λ q. g.standbys q ∙ f.standbys q;
  ids = λ q. g.ids q ∙ f.ids q;
}

pub SameStreams-SameStandby : (s t : AudioDevice) → SameStreams s t → SameStandby s t
SameStreams-SameStandby s t e = record {
  standbys = λ q. ap (λ outs. (outs q).standby) e.outs;
  ids = λ q. ap (λ outs. (outs q).usecase) e.outs;
}

pub out_close-SameStandby : (o : ℕ) (s : AudioDevice) → SameStandby s (out_close_pcm_devices o s)
unfolding out_close_pcm_devices
out_close-SameStandby o s = record {
  standbys = λ q. ground (arith, close_loop-log (s.outs o).pcm_dev_list s);
  ids = λ q. ground (arith, close_loop-log (s.outs o).pcm_dev_list s);
}

release-SameStandby :
    (stream : Stream) (s : AudioDevice) → SameStandby s (uc_release_pcm_devices stream s)
unfolding uc_release_pcm_devices
release-SameStandby (of_out o) s = record { standbys = λ q. ground arith; ids = λ q. ground arith }
release-SameStandby (of_in i) s = record { standbys = λ q. refl; ids = λ q. refl }

pub disable_output-SameStandby :
    (o : ℕ) (s : AudioDevice) → SameStandby s (disable_output_path_l o s).1
unfolding disable_output_path_l
disable_output-SameStandby o s =
    elim (Option-cases (get_usecase_from_id s.usecase_list (s.outs o).usecase)) [
      | inl absent ↦
          rw (absent, disable_output_path_l) (record { standbys = λ q. refl; ids = λ q. refl })
      | inr (u, f) ↦
          let off = (disable_snd_device s u.mixer_list u.out_snd_device).1 in
          rw (f, disable_output_path_l)
            (record {
              standbys =
                  (SameStandby-trans s off (uc_release_pcm_devices u.stream off)
                    (SameStreams-SameStandby s off
                      (disable_snd_device-SameStreams s u.mixer_list u.out_snd_device))
                    (release-SameStandby u.stream off)).standbys;
              ids =
                  (SameStandby-trans s off (uc_release_pcm_devices u.stream off)
                    (SameStreams-SameStandby s off
                      (disable_snd_device-SameStreams s u.mixer_list u.out_snd_device))
                    (release-SameStandby u.stream off)).ids;
            })
    ]

module _ (p : Platform) where
  uc_select-SameStandby : (s : AudioDevice) (o : ℕ) → SameStandby s (uc_select_pcm_devices p s o).1
  unfolding uc_select_pcm_devices
  uc_select-SameStandby s o = record { standbys = λ q. ground arith; ids = λ q. ground arith }

  out_open-SameStandby : (o : ℕ) (s : AudioDevice) → SameStandby s (out_open_pcm_devices p o s).1
  unfolding out_open_pcm_devices
  out_open-SameStandby o s =
      let (ret, devices, t) = open_loop p (s.outs o) [] (s.outs o).pcm_dev_list s in
      let set = set_pcm_dev_list o devices t in
      let kept : SameStandby s set = record {
        standbys = λ q. ground (arith, open_loop-log p (s.outs o) [] (s.outs o).pcm_dev_list s);
        ids = λ q. ground (arith, open_loop-log p (s.outs o) [] (s.outs o).pcm_dev_list s);
      } in
      if_of {A = Ret × AudioDevice} (λ r. SameStandby s r.1) (is_zero ret) _ _ (λ e. kept)
        (λ e. SameStandby-trans s set _ kept (out_close-SameStandby o set))

module _ (p : Platform) (lay : Layout) where
  add_output-SameStandby : (o : ℕ) (s : AudioDevice) → SameStandby s (add_output_usecase p lay o s)
  unfolding add_output_usecase
  add_output-SameStandby o s =
      let (mixers, t) = uc_select_pcm_devices p s o in
      let listed = record t {
        usecase_list = t.usecase_list ++ new_output_usecase p s o mixers ∷ [];
      } in
      let switched =
        SameStreams-SameStandby listed _
          (select_devices-SameStreams p lay select_depth listed (s.outs o).usecase) in
      record {
        standbys = λ q. switched.standbys q ∙ (uc_select-SameStandby p s o).standbys q;
        ids = λ q. switched.ids q ∙ (uc_select-SameStandby p s o).ids q;
      }

  enable_output-SameStandby :
      (o : ℕ) (s : AudioDevice) → SameStandby s (enable_output_path_l p lay o s).1
  unfolding enable_output_path_l
  enable_output-SameStandby o s =
      if_of {A = Ret × AudioDevice} (λ x. SameStandby s x.1) (p.allocates s.log usecase_memory) _ _
        (λ given. add_output-SameStandby o s)
        (λ missing. record { standbys = λ q. refl; ids = λ q. refl })

  pub start_output-SameStandby :
      (o : ℕ) (s : AudioDevice) → SameStandby s (start_output_stream p lay o s).1
  unfolding start_output_stream
  start_output-SameStandby o s =
      let (enabled, t) = enable_output_path_l p lay o s in
      let (opened, r) = out_open_pcm_devices p o t in
      let on = enable_output-SameStandby o s in
      let ready = SameStandby-trans s t r on (out_open-SameStandby p o t) in
      if_of {A = Ret × AudioDevice} (λ x. SameStandby s x.1) (not (is_zero enabled)) _ _ (λ e. on)
        (λ e.
          if_of {A = Ret × AudioDevice} (λ x. SameStandby s x.1) (not (is_zero opened)) _ _
            (λ e. SameStandby-trans s r _ ready (disable_output-SameStandby o r)) (λ e. ready))
