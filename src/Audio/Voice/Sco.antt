-- ===== src/Audio/Voice/Sco.antt =====
-- The start of a Bluetooth session, and the PCM handles over it: `start_voice_session_bt_sco` of
-- audio/audio_hw.c.
use android_device_samsung_z.Common.{
  ◌∙◌, ℕ, ◌+◌, ◌≡◌, refl, ap, Bool, true, false, Option, none, is_some, ◌||◌, if_of, if◌then◌else◌,
  arith,
}
use android_device_samsung_z.Platform.{Platform, Call}
use android_device_samsung_z.Audio.State.{AudioDevice, record_call}
use android_device_samsung_z.Audio.Profiles.{sound_playback_sco_device, sound_capture_sco_device}
use android_device_samsung_z.Audio.Voice.{
  close_pcm, stop_voice_session_bt_sco, open_pcm, not_ready, asked_ready, err_sco_tx, err_sco_rx,
  open_sco, open_sco_rx, start_voice_session_bt_sco,
}
use android_device_samsung_z.Audio.Voice.Handles.{
  IsBalanced, IsBalanced-trans, balanced, opens, last_answer, is_ready, IsScoAnswered,
  stop_sco_facts,
}

module _ (p : Platform) where
  -- A SCO PCM is opened and asked for: from `s` to `t`, with the handle `pcm` and the answer `bad`.
  record IsAsked (s t : AudioDevice) (pcm : Option ℕ) (bad : Bool) : Type 0 where
    balance : IsBalanced p s t
    opened : opens t.log ≡ 1 + opens s.log
    marked : t.in_call_sco ≡ s.in_call_sco
    ready : bad ≡ false → is_ready p pcm t.log ≡ true
    answer : bad ≡ true → last_answer p t.log ≡ false

  open_tx-IsAsked :
      (s : AudioDevice)
      → s.pcm_sco_tx ≡ none
      → let (tx, s1) = open_pcm p sound_capture_sco_device (p.pcm_in + p.pcm_monotonic) s in
        let s1 = record s1 { pcm_sco_tx = tx } in
        let t = asked_ready p tx s1 in
        IsAsked s t tx (not_ready p tx s1) × (t.pcm_sco_tx ≡ tx) × (t.pcm_sco_rx ≡ s.pcm_sco_rx)
  unfolding open_pcm asked_ready not_ready
  open_tx-IsAsked s no_tx = (
    record {
      balance = record { balance = λ h. ground (arith, no_tx) };
      opened = ground arith;
      marked = ground arith;
      ready = λ e. ground (arith, e);
      answer = λ e. ground (arith, e);
    },
    ground arith,
    ground arith,
  )

  open_rx-IsAsked :
      (s : AudioDevice)
      → s.pcm_sco_rx ≡ none
      → is_ready p s.pcm_sco_tx s.log ≡ true
      → let (rx, s1) = open_pcm p sound_playback_sco_device (p.pcm_out + p.pcm_monotonic) s in
        let s1 = record s1 { pcm_sco_rx = rx } in
        let t = asked_ready p rx s1 in
        IsAsked s t rx (not_ready p rx s1)
        × (t.pcm_sco_rx ≡ rx)
        × (t.pcm_sco_tx ≡ s.pcm_sco_tx)
        × (not_ready p rx s1 ≡ false → is_ready p s.pcm_sco_tx t.log ≡ true)
  unfolding open_pcm asked_ready not_ready
  open_rx-IsAsked s no_rx ok = (
    record {
      balance = record { balance = λ h. ground (arith, no_rx) };
      opened = ground arith;
      marked = ground arith;
      ready = λ e. ground (arith, e);
      answer = λ e. ground (arith, e);
    },
    ground arith,
    ground arith,
    λ e. ground (arith, e, ok),
  )

  -- The end of a start that failed.
  record IsGivenUp (s t : AudioDevice) : Type 0 where
    balance : IsBalanced p s t
    marked : t.in_call_sco ≡ false
    no_tx : t.pcm_sco_tx ≡ none
    answer : last_answer p t.log ≡ last_answer p s.log

  err_sco_tx_facts :
      (s : AudioDevice)
      → IsGivenUp s (err_sco_tx p s) × ((err_sco_tx p s).pcm_sco_rx ≡ s.pcm_sco_rx)
  unfolding err_sco_tx
  err_sco_tx_facts s = (
    record {
      balance = record { balance = λ h. ground arith };
      marked = refl;
      no_tx = refl;
      answer = refl;
    },
    refl,
  )

  err_sco_rx_facts :
      (s : AudioDevice) → IsGivenUp s (err_sco_rx p s) × ((err_sco_rx p s).pcm_sco_rx ≡ none)
  unfolding err_sco_rx
  err_sco_rx_facts s =
      let shut = record (close_pcm s.pcm_sco_rx s) { pcm_sco_rx = none } in
      let (given_up, no_rx) = err_sco_tx_facts shut in
      (
        record {
          balance =
              IsBalanced-trans p s shut _ (record { balance = λ h. ground arith }) given_up.balance;
          marked = given_up.marked;
          no_tx = given_up.no_tx;
          answer = given_up.answer;
        },
        no_rx,
      )

  failed_start :
      (r s asked t : AudioDevice)
      → IsBalanced p s asked
      → last_answer p asked.log ≡ false
      → IsGivenUp asked t
      → t.pcm_sco_rx ≡ none
      → IsBalanced p s t × IsScoAnswered p r t
  failed_start r s asked t balance answer up no_rx = (
    IsBalanced-trans p s asked t balance up.balance,
    IsScoAnswered.failed up.marked no_rx up.no_tx (up.answer ∙ answer),
  )

  -- Both PCMs are started in a state that holds them.
  started :
      (r s asked : AudioDevice)
      → IsBalanced p s asked
      → asked.in_call_sco ≡ true
      → opens asked.log ≡ 2 + opens r.log
      → is_ready p asked.pcm_sco_tx asked.log ≡ true
      → is_ready p asked.pcm_sco_rx asked.log ≡ true
      → let t =
          record_call
            (Call.pcm_start asked.pcm_sco_rx)
            (record_call (Call.pcm_start asked.pcm_sco_tx) asked) in
        IsBalanced p s t × IsScoAnswered p r t
  started r s asked b on two tx rx = (
    record { balance = λ h. b.balance h },
    IsScoAnswered.runs asked.log on refl two (ground (arith, tx)) (ground (arith, rx)),
  )

  open_sco_rx_facts :
      (r s asked : AudioDevice)
      → IsBalanced p s asked
      → asked.in_call_sco ≡ true
      → opens asked.log ≡ 1 + opens r.log
      → asked.pcm_sco_rx ≡ none
      → is_ready p asked.pcm_sco_tx asked.log ≡ true
      → IsBalanced p s (open_sco_rx p asked) × IsScoAnswered p r (open_sco_rx p asked)
  unfolding open_sco_rx
  open_sco_rx_facts r s asked b on one no_rx ready_tx =
      let (rx, t) = open_pcm p sound_playback_sco_device (p.pcm_out + p.pcm_monotonic) asked in
      let t = record t { pcm_sco_rx = rx } in
      let rx_ready = asked_ready p rx t in
      let (a, held_rx, same_tx, still_ready) = open_rx-IsAsked asked no_rx ready_tx in
      let both = IsBalanced-trans p s asked rx_ready b a.balance in
      if_of (λ x. IsBalanced p s x × IsScoAnswered p r x) (not_ready p rx t) _ _
        (λ bad.
          let (up, gone) = err_sco_rx_facts rx_ready in
          failed_start r s rx_ready _ both (a.answer bad) up gone)
        (λ good.
          started r s rx_ready both (a.marked ∙ on) (a.opened ∙ ap (λ n. 1 + n) one ∙ omega arith)
            (ap (λ pcm. is_ready p pcm rx_ready.log) same_tx ∙ still_ready good)
            (ap (λ pcm. is_ready p pcm rx_ready.log) held_rx ∙ a.ready good))

  -- From a device whose session is closed and marked as running.
  open_sco_facts :
      (r s : AudioDevice)
      → opens s.log ≡ opens r.log
      → s.in_call_sco ≡ true
      → s.pcm_sco_rx ≡ none
      → s.pcm_sco_tx ≡ none
      → IsBalanced p s (open_sco p s) × IsScoAnswered p r (open_sco p s)
  unfolding open_sco
  open_sco_facts r s same on no_rx no_tx =
      let (tx, s1) = open_pcm p sound_capture_sco_device (p.pcm_in + p.pcm_monotonic) s in
      let s1 = record s1 { pcm_sco_tx = tx } in
      let tx_ready = asked_ready p tx s1 in
      let (a, held_tx, still) = open_tx-IsAsked s no_tx in
      if_of (λ x. IsBalanced p s x × IsScoAnswered p r x) (not_ready p tx s1) _ _
        (λ bad.
          let (up, same_rx) = err_sco_tx_facts tx_ready in
          failed_start r s tx_ready _ a.balance (a.answer bad) up (same_rx ∙ (still ∙ no_rx)))
        (λ ok.
          open_sco_rx_facts r s tx_ready a.balance (a.marked ∙ on) (a.opened ∙ ap (λ n. 1 + n) same)
            (still ∙ no_rx) (ap (λ pcm. is_ready p pcm tx_ready.log) held_tx ∙ a.ready ok))

  -- `start_voice_session_bt_sco` ends in one of three ways. Where a session was marked as running
  -- or a SCO PCM was held, nothing changes. Or two PCMs were opened, each handle that is not NULL
  -- was answered to be ready, both PCMs were started as the last calls and the session is marked as
  -- running. Or the last call answered that a PCM is not ready; then no SCO PCM is held and no
  -- session is marked as running. In each of them every PCM handle was given as often as it was
  -- closed or came to be held.
  pub start_voice_session_bt_sco-IsScoAnswered :
      (s : AudioDevice)
      → IsBalanced p s (start_voice_session_bt_sco p s)
        × IsScoAnswered p s (start_voice_session_bt_sco p s)
  unfolding start_voice_session_bt_sco
  start_voice_session_bt_sco-IsScoAnswered s =
      let stopped = if s.in_comm_sco then stop_voice_session_bt_sco s else s in
      let marked = record stopped { in_call_sco = true } in
      let P : AudioDevice → Type 0 = λ t. IsBalanced p s t × IsScoAnswered p s t in
      if_of P s.in_call_sco _ _ (λ on. (balanced p s, IsScoAnswered.kept (ground (arith, on)) refl))
        (λ off.
          if_of P (is_some s.pcm_sco_rx || is_some s.pcm_sco_tx) _ _
            (λ open_pcms. (balanced p s, IsScoAnswered.kept (ground (arith, open_pcms)) refl))
            (λ shut.
              let down = stop_sco_facts p s in
              let no_rx : marked.pcm_sco_rx ≡ none = ground (arith, shut, down) in
              let no_tx : marked.pcm_sco_tx ≡ none = ground (arith, shut, down) in
              let same : opens marked.log ≡ opens s.log = ground (arith, down) in
              let first : IsBalanced p s marked =
                if_of (λ x. IsBalanced p s (record x { in_call_sco = true })) s.in_comm_sco
                  (stop_voice_session_bt_sco s) s (λ e. record { balance = down.0.balance })
                  (λ e. record { balance = λ h. refl }) in
              let (second, answer) = open_sco_facts s marked same refl no_rx no_tx in
              (IsBalanced-trans p s marked _ first second, answer)))
