-- ===== src/Audio/Playback/Calls.antt =====
-- How a routing request starts a voice call: `out_set_parameters` of audio/audio_hw.c in the mode
-- AUDIO_MODE_IN_CALL.
use android_device_samsung_z.Common.{
  ℕ, ◌≡◌, ◌⊎◌, refl, sym, ap, ◌∙◌, Bool, true, false, not, some, Option-cases, is_some, if_of, ◌==◌,
  ==_self, inl, inr, arith,
}
use mathlib.Core.Path.{subst}
use android_device_samsung_z.Platform.{Platform, success, usecase_memory}
use android_device_samsung_z.Audio.State.{usecase_voice_call, AudioDevice, Layout, is_in_call}
use android_device_samsung_z.Audio.Lookup.{get_usecase_from_id}
use android_device_samsung_z.Audio.Route.{disable_snd_device}
use android_device_samsung_z.Audio.Route.Count.{disable-list}
use android_device_samsung_z.Audio.Route.Invariant.{IsRouted, has_id}
use android_device_samsung_z.Audio.Route.Members.{SameRoutes-IsRouted, has_id-remove_other}
use android_device_samsung_z.Audio.Select.{select_devices, select_depth}
use android_device_samsung_z.Audio.Select.Keeps.{select_devices-Keeps}
use android_device_samsung_z.Audio.Voice.Calls.{IsListed, IsRefused, start_voice_call-IsListed}
use android_device_samsung_z.Audio.Voice.{start_voice_call}
use android_device_samsung_z.Audio.Playback.{
  set_out, out_close_pcm_devices, uc_release_pcm_devices, disable_output_path_l, do_out_standby_l,
}
use android_device_samsung_z.Audio.Playback.Paths.{out_close-KeepsRoutes, release-KeepsRoutes}
use android_device_samsung_z.Audio.Playback.Settled.{IsSettled}
use android_device_samsung_z.Audio.Playback.Requests.{
  has_id-type_at, route_stream-IsSettled, route_sco-SameButSco,
}
use android_device_samsung_z.Audio.Playback.Write.{
  route_stream, route_sco, route_call, out_set_parameters,
}

disable_output-absent :
    (o id : ℕ) (s : AudioDevice)
    → has_id id s.usecase_list ≡ false
    → has_id id (disable_output_path_l o s).1.usecase_list ≡ false
unfolding disable_output_path_l
disable_output-absent o id s h =
    let uc_id = (s.outs o).usecase in
    elim (Option-cases (get_usecase_from_id s.usecase_list uc_id)) [
      | inl absent ↦ rw (absent, disable_output_path_l) h
      | inr (u, f) ↦
          let off = (disable_snd_device s u.mixer_list u.out_snd_device).1 in
          let list =
            (release-KeepsRoutes u.stream off).routes.1
            ∙ disable-list s u.mixer_list u.out_snd_device in
          rw (f, disable_output_path_l)
            (has_id-remove_other uc_id id (uc_release_pcm_devices u.stream off).usecase_list
              (ap (has_id id) list ∙ h))
    ]

do_out_standby-absent :
    (o id : ℕ) (s : AudioDevice)
    → has_id id s.usecase_list ≡ false
    → has_id id (do_out_standby_l o s).1.usecase_list ≡ false
unfolding do_out_standby_l
do_out_standby-absent o id s h =
    let still = set_out o (record (s.outs o) { standby = true }) s in
    disable_output-absent o id (out_close_pcm_devices o still)
      (ap (has_id id) (out_close-KeepsRoutes o still).routes.1 ∙ h)

module _ (p : Platform) (lay : Layout) where
  select-absent :
      (uc_id id : ℕ) (s : AudioDevice)
      → IsRouted s
      → has_id id s.usecase_list ≡ false
      → has_id id (select_devices p lay select_depth s uc_id).1.usecase_list ≡ false
  select-absent uc_id id s r h =
      let t = (select_devices p lay select_depth s uc_id).1 in
      has_id-type_at id t.usecase_list
      ∙ ap is_some ((select_devices-Keeps p lay select_depth s uc_id r).types id)
      ∙ sym (has_id-type_at id s.usecase_list)
      ∙ h

  route_stream-absent :
      (o val id : ℕ) (s : AudioDevice)
      → IsRouted s
      → has_id id s.usecase_list ≡ false
      → has_id id (route_stream p lay o val s).usecase_list ≡ false
  unfolding route_stream
  route_stream-absent o val id s r h =
      let routed = set_out o (record (s.outs o) { devices = val }) s in
      if_of {A = AudioDevice} (λ t. has_id id t.usecase_list ≡ false) (s.outs o).standby _ _
        (λ e. h)
        (λ e.
          if_of {A = AudioDevice} (λ t. has_id id t.usecase_list ≡ false)
            (not ((s.outs o).devices == val)) _ _ (λ _. do_out_standby-absent o id routed h)
            (λ _.
              select-absent (s.outs o).usecase id routed
                (record { counted = r.counted; shaped = r.shaped; distinct = r.distinct }) h))

  route_call-starts :
      (o : ℕ) (devices_changed : Bool) (s : AudioDevice)
      → is_in_call s.mode ≡ true
      → s.in_call ≡ false
      → s.primary_output ≡ some o
      → route_call p lay o devices_changed s ≡ (start_voice_call p lay s).1
  unfolding route_call
  route_call-starts o devices_changed s mode idle primary = ground (arith, ==_self o)

  -- In the mode IN_CALL, with no call running and no voice usecase in the list, a routing that is
  -- not 0 for the primary output, settled, is answered by 0. Where the memory for the usecase is
  -- given when the call starts, the voice usecase is in the list and the counts are the uses; where
  -- it is not, no call runs, no voice usecase is in the list and the counts are the uses.
  pub out_set_parameters-IsListed :
      (o val : ℕ) (s : AudioDevice)
      → IsSettled o s
      → is_in_call s.mode ≡ true
      → s.in_call ≡ false
      → s.primary_output ≡ some o
      → has_id usecase_voice_call s.usecase_list ≡ false
      → (val == 0) ≡ false
      → let (rc, t) = out_set_parameters p lay o (some val) s in
        let before = route_sco p lay val (route_stream p lay o val s) in
        (rc ≡ success)
        × (((p.allocates before.log usecase_memory ≡ true) × IsListed t)
            ⊎ (p.allocates before.log usecase_memory ≡ false) × IsRefused t)
  unfolding out_set_parameters
  out_set_parameters-IsListed o val s h mode idle primary new nonzero =
      let a = route_stream p lay o val s in
      let b = route_sco p lay val a in
      let (settled, same) = route_stream-IsSettled p lay o val s h in
      let sco = route_sco-SameButSco p lay val a in
      let in_mode : is_in_call b.mode ≡ true = ground (arith, sco.mode, same, mode) in
      let no_call : b.in_call ≡ false = ground (arith, sco.in_call, same, idle) in
      let own : b.primary_output ≡ some o = ground (arith, sco.primary, same, primary) in
      let absent =
        ap (has_id usecase_voice_call) sco.routes.1
        ∙ route_stream-absent o val usecase_voice_call s h.routed new in
      let started =
        start_voice_call-IsListed p lay b o (SameRoutes-IsRouted a b sco.routes settled.routed)
          absent own in
      let starts = route_call-starts o (not ((s.outs o).devices == val)) b in_mode no_call own in
      rw nonzero (
        refl,
        elim started [
          | inl (given, ok, listed) ↦ inl (given, subst IsListed (sym starts) listed)
          | inr (missing, bad, refused) ↦ inr (missing, subst IsRefused (sym starts) refused)
        ],
      )
