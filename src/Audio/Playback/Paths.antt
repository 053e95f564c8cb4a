-- ===== src/Audio/Playback/Paths.antt =====
-- What the start and the standby of an output stream do to the usecases and the reference counts.
use android_device_samsung_z.Common.{
  ℕ, ◌≡◌, refl, sym, ap, ◌∙◌, ◌⊎◌, inl, inr, true, false, not, some, Option-cases, Bool-cases, List,
  [], ◌∷◌, ◌++◌, All, if_of, arith,
}
use mathlib.Core.Path.{subst}
use android_device_samsung_z.Platform.{Call, Platform, Ret, success, usecase_memory, is_zero}
use android_device_samsung_z.Audio.State.{
  record_call, pcm_playback, StreamOut, PcmDevice, Stream, of_out, of_in, AudioDevice, Layout,
}
use android_device_samsung_z.Audio.Lookup.{remove_usecase}
use android_device_samsung_z.Audio.Route.{disable_snd_device}
use android_device_samsung_z.Audio.Route.Count.{Logs, Logs-trans, disable-count, disable-list}
use android_device_samsung_z.Audio.Route.Flags.{has_id-remove_self}
use android_device_samsung_z.Audio.Route.Invariant.{
  has_id, Distinct, type_at, IsShaped, IsRouted, held_none, find_facts,
}
use android_device_samsung_z.Audio.Route.Members.{
  IsOff, SameRoutes, SameRoutes-IsRouted, snoc-IsRouted, type_at-snoc, remove-All, remove-Distinct,
  remove_count, found_of_type,
}
use android_device_samsung_z.Audio.Select.{select_depth}
use android_device_samsung_z.Audio.Select.Keeps.{select_devices-Keeps}
use android_device_samsung_z.Audio.Select.Streams.{
  select_devices-SameStreams, disable_snd_device-SameStreams,
}
use android_device_samsung_z.Audio.Voice.{asked_ready, not_ready}
use android_device_samsung_z.Audio.Voice.Sessions.{asked_ready-log}
use android_device_samsung_z.Audio.Playback.{
  set_out, set_pcm_dev_list, close_loop, out_close_pcm_devices, uc_release_pcm_devices,
  disable_output_path_l, do_out_standby_l, out_standby, new_output_usecase, uc_select_pcm_devices,
  open_call, open_loop, out_open_pcm_devices, enable_output_path_l, add_output_usecase,
  start_output_stream,
}

-- The routes stay, and every stream keeps its usecase.
pub record KeepsRoutes (s t : AudioDevice) : Type 0 where
  pub routes : SameRoutes s t
  pub usecases : (o : ℕ) → (t.outs o).usecase ≡ (s.outs o).usecase

pub KeepsRoutes-trans : (s t r : AudioDevice) → KeepsRoutes s t → KeepsRoutes t r → KeepsRoutes s r
KeepsRoutes-trans s t r f g = record {
  routes = (g.routes.0 ∙ f.routes.0, g.routes.1 ∙ f.routes.1);
  usecases = λ o. g.usecases o ∙ f.usecases o;
}

pub close_loop-log :
    (ds : List PcmDevice) (s : AudioDevice)
    → let t = (close_loop ds s).1 in t ≡ record s { log = t.log }
unfolding close_loop
close_loop-log [] s = refl
close_loop-log (d ∷ ds) s = elim (Option-cases d.pcm) [
  | inl closed ↦ rw closed (close_loop-log ds s)
  | inr (pcm, still) ↦
      let t = record_call (Call.pcm_close (some pcm)) s in
      rw still (Logs-trans s t (close_loop ds t).1 refl (close_loop-log ds t))
]

pub out_close-KeepsRoutes : (o : ℕ) (s : AudioDevice) → KeepsRoutes s (out_close_pcm_devices o s)
unfolding out_close_pcm_devices
out_close-KeepsRoutes o s = record {
  routes = ground (arith, close_loop-log (s.outs o).pcm_dev_list s);
  usecases = λ q. ground (arith, close_loop-log (s.outs o).pcm_dev_list s);
}

pub release-KeepsRoutes :
    (stream : Stream) (s : AudioDevice) → KeepsRoutes s (uc_release_pcm_devices stream s)
unfolding uc_release_pcm_devices
release-KeepsRoutes (of_out o) s = record { routes = (refl, refl); usecases = λ q. ground arith }
release-KeepsRoutes (of_in i) s = record { routes = (refl, refl); usecases = λ q. refl }

module _ (p : Platform) where
  pub uc_select-KeepsRoutes :
      (s : AudioDevice) (o : ℕ) → KeepsRoutes s (uc_select_pcm_devices p s o).1
  unfolding uc_select_pcm_devices
  uc_select-KeepsRoutes s o = record { routes = ground arith; usecases = λ q. ground arith }

  pub open_loop-log :
      (out : StreamOut) (before ds : List PcmDevice) (s : AudioDevice)
      → let t = (open_loop p out before ds s).2 in t ≡ record s { log = t.log }
  unfolding open_loop
  open_loop-log out before [] s = refl
  open_loop-log out before (d ∷ ds) s =
      let call = open_call p out s.pcm_devices d in
      let pcm = p.pointer s.log call in
      let opened = record_call call s in
      let asked = asked_ready p pcm opened in
      let first : Logs s asked = Logs-trans s opened asked refl (asked_ready-log p pcm opened) in
      let next = open_loop-log out (before ++ record d { pcm = pcm } ∷ []) ds asked in
      if_of {A = Ret × List PcmDevice × AudioDevice} (λ r. Logs s r.2) (not_ready p pcm opened) _ _
        (λ e. first) (λ e. Logs-trans s asked _ first next)

  pub out_open-KeepsRoutes :
      (o : ℕ) (s : AudioDevice) → KeepsRoutes s (out_open_pcm_devices p o s).1
  unfolding out_open_pcm_devices
  out_open-KeepsRoutes o s =
      let (ret, devices, t) = open_loop p (s.outs o) [] (s.outs o).pcm_dev_list s in
      let same = open_loop-log (s.outs o) [] (s.outs o).pcm_dev_list s in
      let set = set_pcm_dev_list o devices t in
      let kept : KeepsRoutes s set = record {
        routes = ground (arith, same);
        usecases = λ q. ground (arith, same);
      } in
      if_of {A = Ret × AudioDevice} (λ r. KeepsRoutes s r.1) (is_zero ret) _ _ (λ e. kept)
        (λ e. KeepsRoutes-trans s set _ kept (out_close-KeepsRoutes o set))

-- The usecase of an output stream is in the list.
pub record IsOutput (uc_id : ℕ) (t : AudioDevice) : Type 0 where
  pub routed : IsRouted t
  pub listed : type_at t.usecase_list uc_id ≡ some pcm_playback

pub KeepsRoutes-IsOutput :
    (uc_id : ℕ) (s t : AudioDevice) → KeepsRoutes s t → IsOutput uc_id s → IsOutput uc_id t
KeepsRoutes-IsOutput uc_id s t k h = record {
  routed = SameRoutes-IsRouted s t k.routes h.routed;
  listed = ap (λ us. type_at us uc_id) k.routes.1 ∙ h.listed;
}

-- The end of the path takes the usecase out of the list.
pub disable_output_path_l-IsOff :
    (o : ℕ) (s : AudioDevice)
    → IsOutput (s.outs o).usecase s
    → let (rc, t) = disable_output_path_l o s in
      (rc ≡ success)
      × IsOff (s.outs o).usecase t
      × ((q : ℕ) → (t.outs q).usecase ≡ (s.outs q).usecase)
unfolding disable_output_path_l
disable_output_path_l-IsOff o s h =
    let uc_id = (s.outs o).usecase in
    let (u, f) = found_of_type s.usecase_list uc_id pcm_playback h.listed in
    let facts = find_facts s.usecase_list uc_id u f h.routed.shaped in
    let playback : u.type ≡ pcm_playback = cc (sym facts.1 ∙ h.listed) in
    let off = (disable_snd_device s u.mixer_list u.out_snd_device).1 in
    let kept = disable-list s u.mixer_list u.out_snd_device in
    let free = release-KeepsRoutes u.stream off in
    let list = free.routes.1 ∙ kept in
    rw (f, disable_output_path_l)
      (
        refl,
        record {
          routed = record {
            counted = λ e. ground (
              arith,
              list,
              free.routes.0,
              disable-count s u.mixer_list u.out_snd_device e facts.2.out_named,
              facts.2.playback_only playback,
              remove_count uc_id s u e h.routed f,
              held_none s.usecase_list,
              held_none (remove_usecase uc_id s.usecase_list),
            );
            shaped =
                subst (λ us. All IsShaped (remove_usecase uc_id us)) (sym list)
                  (remove-All uc_id s.usecase_list h.routed.shaped);
            distinct =
                subst (λ us. Distinct (remove_usecase uc_id us)) (sym list)
                  (remove-Distinct uc_id s.usecase_list h.routed.distinct);
          };
          unlisted =
              ap (λ us. has_id uc_id (remove_usecase uc_id us)) list
              ∙ has_id-remove_self uc_id s.usecase_list h.routed.distinct;
        },
        λ q.
            free.usecases q
            ∙ ap (λ outs. (outs q).usecase)
                (disable_snd_device-SameStreams s u.mixer_list u.out_snd_device).outs,
      )

-- Where the counts are the uses, and the stream's usecase is in the list as a playback unless the
-- stream is in standby, and not there if it is: after `out_standby` the counts are the uses and the
-- usecase is not in the list.
pub out_standby-IsOff :
    (o : ℕ) (s : AudioDevice)
    → ((s.outs o).standby ≡ false → IsOutput (s.outs o).usecase s)
    → ((s.outs o).standby ≡ true → IsOff (s.outs o).usecase s)
    → IsOff (s.outs o).usecase (out_standby o s)
unfolding out_standby do_out_standby_l
out_standby-IsOff o s playing idle =
    let uc_id = (s.outs o).usecase in
    let still = set_out o (record (s.outs o) { standby = true }) s in
    let closed = out_close_pcm_devices o still in
    let set : KeepsRoutes s still = record {
      routes = (refl, refl);
      usecases = λ q. ground arith;
    } in
    let kept = KeepsRoutes-trans s still closed set (out_close-KeepsRoutes o still) in
    if_of (IsOff uc_id) (s.outs o).standby _ _ (λ e. idle e)
      (λ e.
        let on =
          subst (λ id. IsOutput id closed) (sym (kept.usecases o))
            (KeepsRoutes-IsOutput uc_id s closed kept (playing e)) in
        let off = (disable_output_path_l-IsOff o closed on).1 in
        subst (λ id. IsOff id (disable_output_path_l o closed).1) (kept.usecases o) off)

module _ (p : Platform) (lay : Layout) where
  pub add_output_usecase-IsOutput :
      (o : ℕ) (s : AudioDevice)
      → IsRouted s
      → has_id (s.outs o).usecase s.usecase_list ≡ false
      → let t = add_output_usecase p lay o s in
        IsOutput (s.outs o).usecase t × ((t.outs o).usecase ≡ (s.outs o).usecase)
  unfolding add_output_usecase
  add_output_usecase-IsOutput o s h new =
      let uc_id = (s.outs o).usecase in
      let (mixers, t) = uc_select_pcm_devices p s o in
      let chosen = uc_select-KeepsRoutes p s o in
      let u = new_output_usecase p s o mixers in
      let absent = ap (has_id uc_id) chosen.routes.1 ∙ new in
      let listed = record t { usecase_list = t.usecase_list ++ u ∷ [] } in
      let k =
        select_devices-Keeps p lay select_depth listed uc_id
          (snoc-IsRouted t u (SameRoutes-IsRouted s t chosen.routes h) absent refl refl) in
      (
        record { routed = k.routed; listed = k.types uc_id ∙ type_at-snoc t.usecase_list u absent },
        ap (λ outs. (outs o).usecase)
              (select_devices-SameStreams p lay select_depth listed uc_id).outs
            ∙ chosen.usecases o,
      )

  -- From counts that are the uses, where the stream's usecase is not in the list:
  -- `start_output_stream` answers 0 and the usecase is in the list as a playback, or it answers an
  -- error and the usecase is not there. The counts are the uses either way.
  pub start_output_stream-outcome :
      (o : ℕ) (s : AudioDevice)
      → IsRouted s
      → has_id (s.outs o).usecase s.usecase_list ≡ false
      → let (rc, t) = start_output_stream p lay o s in
        ((rc ≡ success) × IsOutput (s.outs o).usecase t)
        ⊎ (is_zero rc ≡ false) × IsOff (s.outs o).usecase t
  unfolding start_output_stream enable_output_path_l
  start_output_stream-outcome o s h new =
      let uc_id = (s.outs o).usecase in
      let t = add_output_usecase p lay o s in
      let on = add_output_usecase-IsOutput o s h new in
      let (opened, r) = out_open_pcm_devices p o t in
      let kept = out_open-KeepsRoutes p o t in
      let same = kept.usecases o ∙ on.1 in
      let still = KeepsRoutes-IsOutput uc_id t r kept on.0 in
      let off =
        (disable_output_path_l-IsOff o r (subst (λ id. IsOutput id r) (sym same) still)).1 in
      elim (Bool-cases (p.allocates s.log usecase_memory)) [
        | inl given ↦
            rw (given, start_output_stream, enable_output_path_l)
              (if_of {A = Ret × AudioDevice}
                (λ x.
                  ((x.0 ≡ success) × IsOutput uc_id x.1) ⊎ (is_zero x.0 ≡ false) × IsOff uc_id x.1)
                (not (is_zero opened)) _ _
                (λ e. inr (
                  ground (arith, e),
                  subst (λ id. IsOff id (disable_output_path_l o r).1) same off,
                ))
                (λ e. inl (refl, still)))
        | inr missing ↦
            rw (missing, start_output_stream, enable_output_path_l)
              (inr (refl, record { routed = h; unlisted = new }))
      ]
