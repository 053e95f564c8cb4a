-- ===== src/Ril/Served.antt =====
-- Runs of the five setters of audio/ril_interface.c, and the calls of the RIL client in their log.
use android_device_samsung_z.Common.{
  ℕ, ◌+◌, ◌≡◌, refl, Bool, true, false, not, ◌&&◌, ◌||◌, some, List, [], ◌∷◌, length, arith,
  if◌then◌else◌,
}
use android_device_samsung_z.Platform.{
  Platform, Call, SoundType, AudioPath, MuteCondition, Ret, is_zero,
}
use android_device_samsung_z.Ril.{
  Ril, connect, ril_connect_if_required, ril_request, ril_set_call_volume, ril_set_call_audio_path,
  ril_set_call_clock_stop, ril_set_mute, ril_set_two_mic_control,
}

pub data Request : Type 0 where
  call_volume : SoundType → (volume : ℕ) → Request
  call_audio_path : AudioPath → Request
  call_clock_stop : Request
  mute : MuteCondition → Request
  two_mic_control : (report : Bool) → Request

abbrev serve : Platform → Ril → Request → List Call → Ret × List Call
serve p r (call_volume type volume) log = ril_set_call_volume p r log type volume
serve p r (call_audio_path path) log = ril_set_call_audio_path p r log path
serve p r call_clock_stop log = ril_set_call_clock_stop p r log
serve p r (mute condition) log = ril_set_mute p r log condition
serve p r (two_mic_control report) log = ril_set_two_mic_control p r log report

-- The log after the requests, the first of them first.
abbrev pub serve_all : Platform → Ril → List Request → List Call → List Call
serve_all p r [] log = log
serve_all p r (request ∷ requests) log = serve_all p r requests (serve p r request log).1

-- Whether a call is one of the setters of the RIL client.
abbrev is_request : Call → Bool
is_request (Call.set_call_volume client type volume) = true
is_request (Call.set_call_audio_path client path) = true
is_request (Call.set_call_clock_stop client) = true
is_request (Call.set_mute client condition) = true
is_request (Call.set_two_mic_control client report) = true
is_request _ = false

abbrev is_connect : Call → Bool
is_connect (Call.connect_rild client) = true
is_connect _ = false

-- Whether the last call of a log found or made the connection.
abbrev connected : Platform → List Call → Bool
connected p (Call.is_connected client ∷ log) =
    not (is_zero (p.reply log (Call.is_connected client)))
connected p (Call.connect_rild client ∷ log) = is_zero (p.reply log (Call.connect_rild client))
connected p _ = false

-- Whether the last call of a log found that there is no connection.
abbrev unconnected : Platform → List Call → Bool
unconnected p (Call.is_connected client ∷ log) = is_zero (p.reply log (Call.is_connected client))
unconnected p _ = false

-- Every setter's call stands directly on a connection found or made, and every attempt to connect
-- on the answer that there is none.
abbrev pub served : Platform → List Call → Bool
served p [] = true
served p (call ∷ log) =
    (not (is_request call) || connected p log)
    && ((not (is_connect call) || unconnected p log) && served p log)

-- The calls of setters, and the attempts to connect that failed.
abbrev pub made : List Call → ℕ
made [] = 0
made (call ∷ log) = if is_request call then 1 + made log else made log

abbrev failed_connects : Call → Bool → ℕ
failed_connects call ok = if is_connect call && not ok then 1 else 0

abbrev pub refused : Platform → List Call → ℕ
refused p [] = 0
refused p (call ∷ log) = failed_connects call (is_zero (p.reply log call)) + refused p log

module _ (p : Platform) (r : Ril) (client : ℕ) (held : r.client ≡ some client) where
  ril_request-served :
      (log : List Call) (call : Call)
      → is_request call ≡ true
      → is_connect call ≡ false
      → served p log ≡ true
      → let t = (ril_request p r log call).1 in
        (served p t ≡ true) × (made t + refused p t ≡ 1 + (made log + refused p log))
  unfolding ril_request ril_connect_if_required connect
  ril_request-served log call setter other h = ground (arith, held, setter, other, h)

  serve-served :
      (log : List Call) (request : Request)
      → served p log ≡ true
      → let t = (serve p r request log).1 in
        (served p t ≡ true) × (made t + refused p t ≡ 1 + (made log + refused p log))
  unfolding ril_set_call_volume ril_set_call_audio_path ril_set_call_clock_stop ril_set_mute
      ril_set_two_mic_control
  serve-served log (call_volume type volume) h = ril_request-served log _ refl refl h
  serve-served log (call_audio_path path) h = ril_request-served log _ refl refl h
  serve-served log call_clock_stop h = ril_request-served log _ refl refl h
  serve-served log (mute condition) h = ril_request-served log _ refl refl h
  serve-served log (two_mic_control report) h = ril_request-served log _ refl refl h

  -- For an open client, any sequence of the five setters keeps these: each call of a setter in the
  -- log comes directly after the answer that the connection stands or after an attempt to connect
  -- that succeeded, and each attempt to connect comes directly after the answer that there is no
  -- connection. The calls of setters and the attempts that failed together grow by the number of
  -- requests.
  pub serve_all-served :
      (requests : List Request) (log : List Call)
      → served p log ≡ true
      → let t = serve_all p r requests log in
        (served p t ≡ true) × (made t + refused p t ≡ length requests + (made log + refused p log))
  serve_all-served [] log h = (h, omega arith)
  serve_all-served (request ∷ requests) log h =
      let (kept, grown) = serve-served log request h in
      ground (arith, grown, serve_all-served requests (serve p r request log).1 kept)
