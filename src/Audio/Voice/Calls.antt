-- ===== src/Audio/Voice/Calls.antt =====
-- Where `start_voice_call` and `stop_voice_call` leave the usecases and the reference counts.
use android_device_samsung_z.Common.{
  ℕ, ◌≡◌, refl, ap, ◌∙◌, ◌⊎◌, inl, inr, true, false, ◌||◌, not, some, is_some, [], ◌∷◌, ◌++◌, if_of,
  if◌then◌else◌, has, Option, none, arith,
}
use android_device_samsung_z.Platform.{Platform, Ret, success, failed, enomem, usecase_memory}
use android_device_samsung_z.Audio.State.{UsecaseType, usecase_voice_call, AudioDevice, Layout}
use android_device_samsung_z.Audio.Lookup.{get_mixer_for_card}
use android_device_samsung_z.Audio.Profiles.{sound_card}
use android_device_samsung_z.Audio.Route.Invariant.{has_id, type_at, IsRouted}
use android_device_samsung_z.Audio.Select.{select_depth, primary_devices}
use android_device_samsung_z.Audio.Select.Keeps.{select_devices-Keeps}
use android_device_samsung_z.Audio.Route.Members.{
  SameRoutes, SameRoutes-IsRouted, snoc-IsRouted, type_at-snoc,
}
use android_device_samsung_z.Audio.Voice.{
  start_voice_session_bt_sco, open_voice, new_voice_usecase, enter_call, start_call_on,
  start_allocated_call, start_voice_call, voice_exit,
}
use android_device_samsung_z.Audio.Voice.Sessions.{
  IsCallOver, voice_exit-IsCallOver, start_sco-SameRoutes, open_voice-Opens, open_voice-success,
}

-- What a call's start leaves: the usecase is in the list, whether or not the call runs.
pub record IsListed (t : AudioDevice) : Type 0 where
  pub routed : IsRouted t
  pub listed : type_at t.usecase_list usecase_voice_call ≡ some UsecaseType.voice_call

pub SameRoutes-IsListed : (s t : AudioDevice) → SameRoutes s t → IsListed s → IsListed t
SameRoutes-IsListed s t e h = record {
  routed = SameRoutes-IsRouted s t e h.routed;
  listed = ap (λ us. type_at us usecase_voice_call) e.1 ∙ h.listed;
}

-- What a call's start leaves that finds no memory: no call, and the usecases as they were.
pub record IsRefused (t : AudioDevice) : Type 0 where
  pub routed : IsRouted t
  pub unlisted : has_id usecase_voice_call t.usecase_list ≡ false
  pub over : IsCallOver t

-- The two answers of `start_voice_call` at `s`.
abbrev pub IsAnswered : Platform → AudioDevice → Ret → AudioDevice → Type 0
IsAnswered p s rc t =
    ((p.allocates s.log usecase_memory ≡ true) × (rc ≡ success) × IsListed t)
    ⊎ (p.allocates s.log usecase_memory ≡ false) × (rc ≡ failed enomem) × IsRefused t

module _ (p : Platform) (lay : Layout) where
  enter_call-IsListed :
      (s : AudioDevice) (primary : ℕ)
      → IsRouted s
      → has_id usecase_voice_call s.usecase_list ≡ false
      → IsListed (enter_call p lay s primary)
  enter_call-IsListed s primary h new =
      let u = new_voice_usecase p s primary in
      let listed = record s { usecase_list = s.usecase_list ++ u ∷ [] } in
      let k =
        select_devices-Keeps p lay select_depth listed usecase_voice_call
          (snoc-IsRouted s u h new refl refl) in
      record {
        routed = record {
          counted = k.routed.counted;
          shaped = k.routed.shaped;
          distinct = k.routed.distinct;
        };
        listed = k.types usecase_voice_call ∙ type_at-snoc s.usecase_list u new;
      }

  open_voice-IsListed :
      (s : AudioDevice) → IsListed s → ((open_voice p s).0 ≡ success) × IsListed (open_voice p s).1
  open_voice-IsListed s h =
      let o = open_voice-Opens p s in
      (open_voice-success p s, SameRoutes-IsListed s (open_voice p s).1 (o.counts, o.usecases) h)

  start_call_on-IsListed :
      (primary : ℕ) (s : AudioDevice)
      → IsRouted s
      → has_id usecase_voice_call s.usecase_list ≡ false
      → ((start_call_on p lay primary s).0 ≡ success) × IsListed (start_call_on p lay primary s).1
  unfolding start_call_on
  start_call_on-IsListed primary s h new =
      let s' = record s {
        fault = s.fault || not (is_some (get_mixer_for_card s.mixer_list sound_card));
      } in
      let t = enter_call p lay s' primary in
      let h' : IsRouted s' = record {
        counted = h.counted;
        shaped = h.shaped;
        distinct = h.distinct;
      } in
      let entered = enter_call-IsListed s' primary h' new in
      let sco =
        if has (primary_devices t) p.out_all_sco then start_voice_session_bt_sco p t else t in
      let joined =
        if_of IsListed (has (primary_devices t) p.out_all_sco) (start_voice_session_bt_sco p t) t
          (λ e. SameRoutes-IsListed t _ (start_sco-SameRoutes p t) entered) (λ e. entered) in
      if_of {A = Ret × AudioDevice} (λ r. (r.0 ≡ success) × IsListed r.1)
        (is_some t.pcm_voice_rx || is_some t.pcm_voice_tx) _ _ (λ e. (refl, entered))
        (λ e. open_voice-IsListed sco joined)

  start_allocated_call-IsListed :
      (out : Option ℕ) (s : AudioDevice) (primary : ℕ)
      → IsRouted s
      → has_id usecase_voice_call s.usecase_list ≡ false
      → out ≡ some primary
      → ((start_allocated_call p lay out s).0 ≡ success)
        × IsListed (start_allocated_call p lay out s).1
  unfolding start_allocated_call
  start_allocated_call-IsListed none s primary h new out = ground (arith, out)
  start_allocated_call-IsListed (some o) s primary h new out = start_call_on-IsListed o s h new

  -- From counts that are the uses, without a voice usecase and with a primary output: where the
  -- memory for the usecase is given, `start_voice_call` answers 0 and leaves the voice usecase in
  -- the list, on the paths that end the call for a PCM that is not ready as well; where it is not
  -- given, the answer is -ENOMEM, no voice usecase is in the list, no call and no SCO session runs
  -- and no voice PCM is held. In both cases the counts are the uses.
  pub start_voice_call-IsListed :
      (s : AudioDevice) (primary : ℕ)
      → IsRouted s
      → has_id usecase_voice_call s.usecase_list ≡ false
      → s.primary_output ≡ some primary
      → IsAnswered p s (start_voice_call p lay s).0 (start_voice_call p lay s).1
  unfolding start_voice_call
  start_voice_call-IsListed s primary h new out =
      if_of {A = Ret × AudioDevice} (λ r. IsAnswered p s r.0 r.1) (p.allocates s.log usecase_memory)
        _ _
        (λ given.
          let (ok, listed) = start_allocated_call-IsListed s.primary_output s primary h new out in
          inl (given, ok, listed))
        (λ missing.
          let (over, same) = voice_exit-IsCallOver p s in
          inr (
            missing,
            refl,
            record {
              routed = SameRoutes-IsRouted s (voice_exit p s) same h;
              unlisted = ap (has_id usecase_voice_call) same.1 ∙ new;
              over = over;
            },
          ))
