-- ===== src/Audio/Route/Pcms.antt =====
-- `enable_snd_device`, `disable_snd_device` and `check_and_route_usecases` open and close no PCM.
use android_device_samsung_z.Common.{
  ℕ, ◌+◌, ◌-◌, Bool, Option, none, some, Option-cases, List, [], ◌∷◌, ◌++◌, inl, inr, ◌==◌, if_of,
  leb, ltb, if◌then◌else◌,
}
use android_device_samsung_z.Platform.{Call, Ret}
use android_device_samsung_z.Platform.Pcms.{SamePcms, SamePcms-trans, same_pcms}
use android_device_samsung_z.Audio.SndDevice.{SndDevice, get_snd_device_name}
use android_device_samsung_z.Audio.State.{
  UsecaseType, pcm_playback, type_bits, AudioUsecase, AudioDevice, update, record_call,
}
use android_device_samsung_z.Audio.Lookup.{get_usecase_from_type, remove_usecase}
use android_device_samsung_z.Audio.Route.{
  apply_paths, reset_paths, cycled, enable_snd_device, disable_snd_device, snd_device_of,
  set_snd_device, switch_usecase, switch_loop, switch_device, need_switch, check_and_route_usecases,
}

-- A step of the routing keeps the PCMs.
abbrev Still : AudioDevice → AudioDevice → Type 0
Still s t = SamePcms s.log t.log

apply_paths-pcms : (ms : List ℕ) (d : SndDevice) (s : AudioDevice) → Still s (apply_paths ms d s)
unfolding apply_paths
apply_paths-pcms [] d s = same_pcms s.log
apply_paths-pcms (m ∷ ms) d s =
    let rest = apply_paths-pcms ms d (record_call (Call.audio_route_apply m d) s) in
    record { same_given = λ p h. rest.same_given p h; same_closed = λ h. rest.same_closed h }

reset_paths-pcms :
    (ms : List ℕ) (d : SndDevice) (again : Option SndDevice) (s : AudioDevice)
    → Still s (reset_paths ms d again s)
unfolding reset_paths
reset_paths-pcms [] d again s = same_pcms s.log
reset_paths-pcms (m ∷ ms) d none s =
    let rest = reset_paths-pcms ms d none (record_call (Call.audio_route_reset m d) s) in
    record { same_given = λ p h. rest.same_given p h; same_closed = λ h. rest.same_closed h }
reset_paths-pcms (m ∷ ms) d (some out) s =
    let reset = record_call (Call.audio_route_reset m d) s in
    let rest =
      reset_paths-pcms ms d (some out) (record_call (Call.audio_route_apply m out) reset) in
    record { same_given = λ p h. rest.same_given p h; same_closed = λ h. rest.same_closed h }

pub enable_snd_device-pcms :
    (s : AudioDevice) (ms : List ℕ) (d : SndDevice)
    → SamePcms s.log (enable_snd_device s ms d).1.log
unfolding enable_snd_device
enable_snd_device-pcms s ms d =
    let counted = record s {
      snd_dev_ref_cnt = update s.snd_dev_ref_cnt d (s.snd_dev_ref_cnt d + 1);
    } in
    elim (Option-cases (get_snd_device_name d)) [
      | inl unnamed ↦ rw (unnamed, enable_snd_device) (same_pcms s.log)
      | inr (name, named) ↦
          rw (named, enable_snd_device)
            (if_of {A = AudioDevice} (Still s) (ltb 1 (counted.snd_dev_ref_cnt d)) _ _
              (λ e. same_pcms s.log) (λ e. apply_paths-pcms ms d counted))
    ]

pub disable_snd_device-pcms :
    (s : AudioDevice) (ms : List ℕ) (d : SndDevice)
    → SamePcms s.log (disable_snd_device s ms d).1.log
unfolding disable_snd_device
disable_snd_device-pcms s ms d =
    let out_uc_info = get_usecase_from_type s.usecase_list (type_bits pcm_playback) in
    let counted = record s {
      snd_dev_ref_cnt = update s.snd_dev_ref_cnt d (s.snd_dev_ref_cnt d - 1);
    } in
    elim (Option-cases (get_snd_device_name d)) [
      | inl unnamed ↦ rw (unnamed, disable_snd_device) (same_pcms s.log)
      | inr (name, named) ↦
          rw (named, disable_snd_device)
            (if_of {A = Ret × AudioDevice} (λ r. Still s r.1) (leb (s.snd_dev_ref_cnt d) 0) _ _
              (λ e. same_pcms s.log)
              (λ e.
                if_of {A = AudioDevice} (Still s) (counted.snd_dev_ref_cnt d == 0) _ _
                  (λ e. reset_paths-pcms ms d (cycled d out_uc_info) counted)
                  (λ e. same_pcms s.log)))
    ]

switch_loop-pcms :
    (type : UsecaseType) (d : SndDevice) (switch : ℕ → Bool) (before after : List AudioUsecase)
    (s : AudioDevice)
    → Still s (switch_loop type d switch before after s)
unfolding switch_loop switch_usecase
switch_loop-pcms type d switch before [] s = same_pcms s.log
switch_loop-pcms type d switch before (u ∷ us) s =
    let u' = if switch u.id then set_snd_device type d u else u in
    let off = (disable_snd_device s u.mixer_list (snd_device_of type u)).1 in
    let s' = if switch u.id then switch_usecase type d before u us s else s in
    let moved : Still s s' =
      if_of {A = AudioDevice} (Still s) (switch u.id) _ _
        (λ e.
          SamePcms-trans s.log off.log _
            (disable_snd_device-pcms s u.mixer_list (snd_device_of type u))
            (enable_snd_device-pcms off u.mixer_list d))
        (λ e. same_pcms s.log) in
    SamePcms-trans s.log s'.log _ moved (switch_loop-pcms type d switch (before ++ u' ∷ []) us s')

pub check_and_route-pcms :
    (s : AudioDevice) (uc_id : ℕ) (type : UsecaseType) (d : SndDevice)
    → SamePcms s.log (check_and_route_usecases s uc_id type d).log
unfolding check_and_route_usecases
check_and_route-pcms s uc_id type d =
    let others = remove_usecase uc_id s.usecase_list in
    if_of {A = AudioDevice} (Still s) (need_switch type d others) _ _
      (λ e. switch_loop-pcms type d (switch_device type d others) [] s.usecase_list s)
      (λ e. same_pcms s.log)
