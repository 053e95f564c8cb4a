-- ===== src/Audio/Device/Ready.antt =====
-- What `mixer_init` of audio/audio_hw.c leaves: a mixer for each card, or none.
use android_device_samsung_z.Common.{
  ℕ, ◌≡◌, refl, ap, ◌∙◌, ◌⊎◌, inl, inr, Bool, true, false, is_some, List, [], ◌∷◌, ◌++◌, not, All,
  if_of, arith,
}
use android_device_samsung_z.Platform.{Platform, Call, Ret, success, is_zero}
use android_device_samsung_z.Audio.State.{PcmProfile}
use android_device_samsung_z.Audio.Lookup.{get_mixer_for_card}
use android_device_samsung_z.Audio.Device.Mixers.{add_mixer, mixer_loop, mixer_init}

-- Every profile's card has a mixer.
abbrev pub HasMixer : List ℕ → PcmProfile → Type 0
HasMixer mixers q = is_some (get_mixer_for_card mixers q.card) ≡ true

get_mixer-append :
    (ms : List ℕ) (c card : ℕ)
    → is_some (get_mixer_for_card ms card) ≡ true
    → is_some (get_mixer_for_card (ms ++ c ∷ []) card) ≡ true
unfolding get_mixer_for_card
get_mixer-append [] c card h = absurd (ground arith)
get_mixer-append (m ∷ ms) c card h = ground (arith, get_mixer-append ms c card)

get_mixer-last :
    (ms : List ℕ) (card : ℕ) → is_some (get_mixer_for_card (ms ++ card ∷ []) card) ≡ true
unfolding get_mixer_for_card
get_mixer-last [] card = ground arith
get_mixer-last (m ∷ ms) card = ground (arith, get_mixer-last ms card)

is_zero-success : (ret : Ret) → is_zero ret ≡ true → ret ≡ success
is_zero-success ret h = ground arith

module _ (p : Platform) (audience : Bool) (memory : ℕ → Bool) where
  add_mixer-keeps :
      (card : ℕ) (mixers : List ℕ) (log : List Call)
      → let (ret, more, log') = add_mixer p audience (memory card) card mixers log in
        (more ≡ mixers) × (is_zero ret ≡ false) ⊎ (more ≡ mixers ++ card ∷ []) × (ret ≡ success)
  unfolding add_mixer
  add_mixer-keeps card mixers log = ground arith

  -- The cards that have a mixer keep it, and the profiles of the rest get one.
  record Serves (mixers more : List ℕ) (qs : List PcmProfile) : Type 0 where
    served : All (HasMixer more) qs
    kept :
        (card : ℕ)
        → is_some (get_mixer_for_card mixers card) ≡ true
        → is_some (get_mixer_for_card more card) ≡ true

  mixer_loop-Serves :
      (qs : List PcmProfile) (mixers : List ℕ) (log : List Call)
      → let (ret, more, log') = mixer_loop p audience memory qs mixers log in
        ret ≡ success → Serves mixers more qs
  unfolding mixer_loop
  mixer_loop-Serves [] mixers log = λ ok. record { served = tt; kept = λ card h. h }
  mixer_loop-Serves (q ∷ qs) mixers log =
      let (ret, more, log') = add_mixer p audience (memory q.card) q.card mixers log in
      if_of {A = Ret × List ℕ × List Call} (λ x. x.0 ≡ success → Serves mixers x.1 (q ∷ qs))
        (is_some (get_mixer_for_card mixers q.card)) _ _
        (λ present ok.
          let rest = mixer_loop-Serves qs mixers log ok in
          record { served = (rest.kept q.card present, rest.served); kept = rest.kept })
        (λ absent.
          if_of {A = Ret × List ℕ × List Call} (λ x. x.0 ≡ success → Serves mixers x.1 (q ∷ qs))
            (not (is_zero ret)) _ _ (λ bad ok. absurd (ground (arith, bad, ok)))
            (λ added ok. elim (add_mixer-keeps q.card mixers log) [
              | inl (same, bad) ↦ absurd (ground (arith, added, bad))
              | inr (grown, good) ↦
                  let rest = mixer_loop-Serves qs more log' ok in
                  record {
                    served = (
                      rest.kept q.card (
                          ap (λ ms. is_some (get_mixer_for_card ms q.card)) grown
                          ∙ get_mixer-last mixers q.card),
                      rest.served,
                    );
                    kept = λ card h. rest.kept card (
                        ap (λ ms. is_some (get_mixer_for_card ms card)) grown
                        ∙ get_mixer-append mixers q.card card h);
                  }
            ]))

  -- With success every profile's card has a mixer; with an error there is none, and each that had
  -- been made is freed.
  pub mixer_init-outcome :
      (table : List PcmProfile) (log : List Call)
      → let (ret, mixers, log') = mixer_init p audience memory table log in
        ((ret ≡ success) × All (HasMixer mixers) table) ⊎ (is_zero ret ≡ false) × (mixers ≡ [])
  unfolding mixer_init
  mixer_init-outcome table log =
      let (ret, mixers, log') = mixer_loop p audience memory table [] log in
      if_of {A = Ret × List ℕ × List Call}
        (λ x. ((x.0 ≡ success) × All (HasMixer x.1) table) ⊎ (is_zero x.0 ≡ false) × (x.1 ≡ []))
        (is_zero ret) _ _
        (λ ok. inl (refl, (mixer_loop-Serves table [] log (is_zero-success ret ok)).served))
        (λ bad. inr (bad, refl))
