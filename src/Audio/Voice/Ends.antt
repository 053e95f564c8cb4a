-- ===== src/Audio/Voice/Ends.antt =====
-- How `stop_voice_call` ends a call: what it closes, and where it leaves the usecases.
use android_device_samsung_z.Common.{
  ℕ, ◌≡◌, refl, sym, ap, ◌∙◌, false, none, some, Option-cases, All, inl, inr, arith, if◌then◌else◌,
  true, ◌⊎◌, List, [], ◌∷◌,
}
use mathlib.Core.Path.{subst}
use android_device_samsung_z.Platform.{Platform, success, failed, einval, usecase_memory}
use android_device_samsung_z.Audio.State.{
  UsecaseType, usecase_voice_call, AudioUsecase, AudioDevice, Layout,
}
use android_device_samsung_z.Audio.Lookup.{get_usecase_from_id, remove_usecase}
use android_device_samsung_z.Audio.Route.{disable_snd_device}
use android_device_samsung_z.Audio.Route.Count.{disable-count, disable-list, disable-Routes}
use android_device_samsung_z.Audio.Route.Flags.{has_id-remove_self}
use android_device_samsung_z.Audio.Route.Invariant.{
  has_id, Distinct, IsShaped, IsRouted, held_none, find_facts,
}
use android_device_samsung_z.Audio.Route.Members.{
  SameRoutes, SameRoutes-IsRouted, remove-All, remove-Distinct, remove_count, found_of_type,
}
use android_device_samsung_z.Audio.Voice.{
  stop_pcm, stop_voice_session_bt_sco, start_voice_call, close_voice, end_voice_usecase,
  stop_voice_call,
}
use android_device_samsung_z.Audio.Voice.Calls.{IsRefused, start_voice_call-IsListed}
use android_device_samsung_z.Audio.Voice.Handles.{IsBalanced, IsBalanced-trans}
use android_device_samsung_z.Audio.Voice.Balance.{
  start_voice_call-IsBalanced, stop_voice_call-IsBalanced,
}
use android_device_samsung_z.Audio.Voice.Sessions.{stop_sco-IsScoClosed, stop_pcm-log}

-- The call is over, and its usecase has left the list with its uses.
pub record IsEnded (t : AudioDevice) : Type 0 where
  pub routed : IsRouted t
  pub unlisted : has_id usecase_voice_call t.usecase_list ≡ false
  pub no_call : t.in_call ≡ false

-- No PCM of a call is open, and no SCO session.
pub record IsClosed (t : AudioDevice) : Type 0 where
  pub no_sco : t.in_call_sco ≡ false
  pub no_voice_rx : t.pcm_voice_rx ≡ none
  pub no_voice_tx : t.pcm_voice_tx ≡ none

end_voice_usecase-IsEnded :
    (s : AudioDevice) (u : AudioUsecase)
    → IsRouted s
    → get_usecase_from_id s.usecase_list usecase_voice_call ≡ some u
    → ((end_voice_usecase s).0 ≡ success) × IsEnded (end_voice_usecase s).1
unfolding end_voice_usecase
end_voice_usecase-IsEnded s u h f =
    let shape = (find_facts s.usecase_list usecase_voice_call u f h.shaped).2 in
    let off = (disable_snd_device s u.mixer_list u.out_snd_device).1 in
    let kept =
      disable-list off u.mixer_list u.in_snd_device
      ∙ disable-list s u.mixer_list u.out_snd_device in
    rw (f, end_voice_usecase)
      (
        refl,
        record {
          routed = record {
            counted = λ e. ground (
              arith,
              kept,
              disable-count off u.mixer_list u.in_snd_device e shape.in_named,
              disable-count s u.mixer_list u.out_snd_device e shape.out_named,
              remove_count usecase_voice_call s u e h f,
              held_none s.usecase_list,
              held_none (remove_usecase usecase_voice_call s.usecase_list),
            );
            shaped =
                subst (λ us. All IsShaped (remove_usecase usecase_voice_call us)) (sym kept)
                  (remove-All usecase_voice_call s.usecase_list h.shaped);
            distinct =
                subst (λ us. Distinct (remove_usecase usecase_voice_call us)) (sym kept)
                  (remove-Distinct usecase_voice_call s.usecase_list h.distinct);
          };
          unlisted =
              ap (λ us. has_id usecase_voice_call (remove_usecase usecase_voice_call us)) kept
              ∙ has_id-remove_self usecase_voice_call s.usecase_list h.distinct;
          no_call = refl;
        },
      )

end_voice_usecase-IsClosed : (s : AudioDevice) → IsClosed s → IsClosed (end_voice_usecase s).1
unfolding end_voice_usecase
end_voice_usecase-IsClosed s h =
    elim (Option-cases (get_usecase_from_id s.usecase_list usecase_voice_call)) [
      | inl absent ↦ rw (absent, end_voice_usecase) h
      | inr (u, f) ↦
          let off = (disable_snd_device s u.mixer_list u.out_snd_device).1 in
          rw (f, end_voice_usecase)
            (ground (
              arith,
              h,
              disable-Routes off u.mixer_list u.in_snd_device,
              disable-Routes s u.mixer_list u.out_snd_device,
            ))
    ]

module _ (p : Platform) where
  -- The PCMs of the call are closed.
  close_voice-IsClosed :
      (s : AudioDevice) → IsClosed (close_voice p s) × SameRoutes s (close_voice p s)
  unfolding close_voice
  close_voice-IsClosed s =
      let s1 = if s.in_call_sco then stop_voice_session_bt_sco s else s in
      let s2 = record (stop_pcm s1.pcm_voice_rx s1) { pcm_voice_rx = none } in
      ground (
        arith,
        stop_sco-IsScoClosed s,
        stop_pcm-log s1.pcm_voice_rx s1,
        stop_pcm-log s2.pcm_voice_tx s2,
      )

  -- From any state, with or without a voice usecase, `stop_voice_call` leaves the voice PCMs closed
  -- and no SCO session.
  pub stop_voice_call-IsClosed : (s : AudioDevice) → IsClosed (stop_voice_call p s).1
  unfolding stop_voice_call
  stop_voice_call-IsClosed s =
      end_voice_usecase-IsClosed (close_voice p s) (close_voice-IsClosed s).0

  pub stop_voice_call-IsEnded :
      (s : AudioDevice) (u : AudioUsecase)
      → IsRouted s
      → get_usecase_from_id s.usecase_list usecase_voice_call ≡ some u
      → ((stop_voice_call p s).0 ≡ success) × IsEnded (stop_voice_call p s).1
  unfolding stop_voice_call
  stop_voice_call-IsEnded s u h f =
      let same = (close_voice-IsClosed s).1 in
      end_voice_usecase-IsEnded (close_voice p s) u (SameRoutes-IsRouted s _ same h)
        (ap (λ us. get_usecase_from_id us usecase_voice_call) same.1 ∙ f)

get_usecase_from_id-unlisted :
    (us : List AudioUsecase) (id : ℕ) → has_id id us ≡ false → get_usecase_from_id us id ≡ none
unfolding get_usecase_from_id
get_usecase_from_id-unlisted [] id h = refl
get_usecase_from_id-unlisted (u ∷ us) id h = ground (arith, h, get_usecase_from_id-unlisted us id)

-- Without the voice usecase there is nothing to end.
end_voice_usecase-unlisted :
    (s : AudioDevice)
    → has_id usecase_voice_call s.usecase_list ≡ false
    → ((end_voice_usecase s).0 ≡ failed einval) × ((end_voice_usecase s).1 ≡ s)
unfolding end_voice_usecase
end_voice_usecase-unlisted s absent =
    rw (get_usecase_from_id-unlisted s.usecase_list usecase_voice_call absent, end_voice_usecase)
      (refl, refl)

module _ (p : Platform) where
  close_voice-in_call : (s : AudioDevice) → (close_voice p s).in_call ≡ s.in_call
  unfolding close_voice stop_voice_session_bt_sco
  close_voice-in_call s = ground arith

  stop_voice_call-refused :
      (s : AudioDevice)
      → IsRefused s
      → ((stop_voice_call p s).0 ≡ failed einval) × IsEnded (stop_voice_call p s).1
  unfolding stop_voice_call
  stop_voice_call-refused s h =
      let t = close_voice p s in
      let (closed, same) = close_voice-IsClosed p s in
      let gone = ap (has_id usecase_voice_call) same.1 ∙ h.unlisted in
      let (failed_end, still) = end_voice_usecase-unlisted t gone in
      (
        failed_end,
        subst IsEnded (sym still) (record {
          routed = SameRoutes-IsRouted s t same h.routed;
          unlisted = gone;
          no_call = close_voice-in_call s ∙ h.over.no_call;
        }),
      )

module _ (p : Platform) (lay : Layout) where
  -- From counts that are the uses, without a voice usecase and with a primary output,
  -- `stop_voice_call` after `start_voice_call` answers 0 where the memory for the usecase was
  -- given, whether or not the PCMs of the call open, and -EINVAL where it was not. In both cases
  -- the counts are the uses again, the voice usecase is not in the list, no call and no SCO session
  -- runs and no voice PCM is held; and over the start and the stop together each PCM handle was
  -- given as often as it was closed or came to be held.
  pub stop_voice_call-start_voice_call :
      (s : AudioDevice) (primary : ℕ)
      → IsRouted s
      → has_id usecase_voice_call s.usecase_list ≡ false
      → s.primary_output ≡ some primary
      → let (rc, t) = stop_voice_call p (start_voice_call p lay s).1 in
        (((p.allocates s.log usecase_memory ≡ true) × (rc ≡ success))
          ⊎ (p.allocates s.log usecase_memory ≡ false) × (rc ≡ failed einval))
        × IsEnded t
        × IsClosed t
        × IsBalanced p s t
  stop_voice_call-start_voice_call s primary h new out =
      let started = (start_voice_call p lay s).1 in
      let shut = stop_voice_call-IsClosed p started in
      let balance =
        IsBalanced-trans p s started _ (start_voice_call-IsBalanced p lay s)
          (stop_voice_call-IsBalanced p started) in
      elim (start_voice_call-IsListed p lay s primary h new out) [
        | inl (given, answer, listed) ↦
            let (u, f) =
              found_of_type started.usecase_list usecase_voice_call UsecaseType.voice_call
                listed.listed in
            let (ok, ended) = stop_voice_call-IsEnded p started u listed.routed f in
            (inl (given, ok), ended, shut, balance)
        | inr (missing, answer, refused) ↦
            let (rc, ended) = stop_voice_call-refused p started refused in
            (inr (missing, rc), ended, shut, balance)
      ]
