-- ===== src/Camera/Closing.antt =====
-- The opening and closing of a legacy camera device of camera/Camera2Wrapper.cpp.
use android_device_samsung_z.Common.{
  ℕ, ◌≡◌, refl, sym, ap, ◌∙◌, ◌⊎◌, inl, inr, Bool, Bool-cases, true, false, Option, none, some,
  List, ◌∷◌, ==_self, ltb, not, is_some, if_of, if◌then◌else◌, arith,
}
use android_device_samsung_z.Platform.{Ret, success, is_zero}
use android_device_samsung_z.Camera.{
  Camera2, check_vendor_module, prepare, camera2_release, camera2_device_close, camera2_device_open,
  put_fixed,
}
use android_device_samsung_z.Camera.Calls.{Vendor, VendorCall}
use android_device_samsung_z.Camera.Runs.{
  IsHeld, IsIdle, CameraRequests, CameraRequests-IsHeld, put_fixed-IsHeld, has_release,
}

-- The text that is kept for the device.
abbrev pub kept_text : Camera2 → Option ℕ
kept_text s = elim s.fixed_set_params [ none ↦ none | some block ↦ block s.device.id ]

-- The device was released and then closed; nothing of it is left.
pub record IsClosed (t : Camera2) : Type 0 where
  pub idle : IsIdle t
  pub before : List VendorCall
  pub closed_last : t.log ≡ VendorCall.close ∷ before
  pub released : has_release before ≡ true
  pub no_text : kept_text t ≡ none

put_fixed-kept : (s : Camera2) → kept_text (put_fixed none s) ≡ none
unfolding put_fixed
put_fixed-kept s = ground (arith, ==_self s.device.id)

put_fixed-released :
    (s : Camera2) → (put_fixed none s).device.camera_released ≡ s.device.camera_released
unfolding put_fixed
put_fixed-released s = ground arith

close-IsClosed :
    (s : Camera2)
    → IsHeld s
    → ((camera2_device_close s).0 ≡ success) × IsClosed (camera2_device_close s).1
unfolding camera2_device_close camera2_release
close-IsClosed s h =
    let cleared = put_fixed none s in
    let held = put_fixed-IsHeld none s h in
    let kept = put_fixed-kept s in
    let same = put_fixed-released s in
    rw h.texts (
      if_of {A = Camera2}
        (λ r.
          (success ≡ success)
          × IsClosed (record r {
            preview_window = none;
            preview_start_deferred = false;
            log = VendorCall.close ∷ r.log;
          }))
        s.device.camera_released _ _
        (λ e. (
          refl,
          record {
            idle = record {
              shown = held.shown;
              no_window = refl;
              not_deferred = refl;
              no_fault = held.no_fault;
            };
            before = cleared.log;
            closed_last = refl;
            released = held.released (same ∙ e);
            no_text = kept;
          },
        ))
        (λ e. (
          refl,
          record {
            idle = record {
              shown = held.shown;
              no_window = refl;
              not_deferred = refl;
              no_fault = held.no_fault;
            };
            before = VendorCall.release ∷ cleared.log;
            closed_last = refl;
            released = refl;
            no_text = kept;
          },
        )))

-- What an open leaves: an open device with a number that is accepted, or none. Without a name
-- nothing is done.
pub data IsAnswered (name cameraid : Option ℕ) (s : Camera2) : Ret → Camera2 → Type 0 where
  unnamed : name ≡ none → IsAnswered name cameraid s success s
  opened :
      (id : ℕ) (t : Camera2)
      → is_some name ≡ true
      → cameraid ≡ some id
      → t.device ≡ record { id = id; camera_released = false }
      → ltb t.num_cameras id ≡ false
      → IsHeld t ⊎ (ltb t.device.id t.block_size ≡ false)
      → IsAnswered name cameraid s success t
  refused :
      (rc : Ret) (t : Camera2)
      → is_some name ≡ true
      → is_zero rc ≡ false
      → IsIdle t
      → IsAnswered name cameraid s rc t

module _ (v : Vendor) where
  check-IsIdle : (s : Camera2) → IsIdle s → IsIdle (check_vendor_module v s).1
  unfolding check_vendor_module
  check-IsIdle s h = record {
    shown = ground (arith, h.shown);
    no_window = ground (arith, h.no_window);
    not_deferred = ground (arith, h.not_deferred);
    no_fault = ground (arith, h.no_fault);
  }

  prepare-IsIdle : (block : Bool) (s : Camera2) → IsIdle s → IsIdle (prepare v block s).1
  unfolding prepare
  prepare-IsIdle block s h = record {
    shown = ground (arith, h.shown);
    no_window = ground (arith, h.no_window);
    not_deferred = ground (arith, h.not_deferred);
    no_fault = ground (arith, h.no_fault);
  }

  prepare-texts :
      (block : Bool) (s : Camera2)
      → is_zero (prepare v block s).0 ≡ true
      → is_some (prepare v block s).1.fixed_set_params ≡ true
  unfolding prepare
  prepare-texts block s e = ground (arith, e)

  -- A device that is open, or one whose number is not inside of the block.
  opened-IsHeld :
      (s : Camera2) (name id : ℕ)
      → IsIdle s
      → is_some s.fixed_set_params ≡ true
      → let t = record s {
        device = record { id = id; camera_released = false };
        log = VendorCall.open_legacy name ∷ s.log;
      } in
        IsHeld t ⊎ (ltb t.device.id t.block_size ≡ false)
  opened-IsHeld s name id h texts = elim (Bool-cases (ltb id s.block_size)) [
    | inl inside ↦ inl (record {
      shown = h.shown;
      windowed = λ e. absurd (cc (sym (ap is_some h.no_window) ∙ e));
      deferred = λ e. h.no_window;
      released = λ e. absurd (cc e);
      texts = texts;
      in_block = inside;
      no_fault = h.no_fault;
    })
    | inr outside ↦ inr outside
  ]

  answered_if :
      {name : Option ℕ} (cameraid : Option ℕ) {s : Camera2} (b : Bool) (x y : Ret × Camera2)
      → ((b ≡ true) → IsAnswered name cameraid s x.0 x.1)
      → ((b ≡ false) → IsAnswered name cameraid s y.0 y.1)
      → let r = if b then x else y in IsAnswered name cameraid s r.0 r.1
  answered_if {name} cameraid {s} b x y f g =
      if_of {A = Ret × Camera2} (λ r. IsAnswered name cameraid s r.0 r.1) b x y f g

  -- From a state without a window, a deferred preview, a fault and a preview on a device without a
  -- window: `camera2_device_open` without a name answers 0 and changes nothing; with a name it
  -- answers an error and leaves such a state, or it answers 0 for a number that is not above the
  -- number of cameras, with this device, and it is ready for requests unless its number is outside
  -- of the block of texts.
  pub camera2_device_open-IsAnswered :
      (block memory ops_memory : Bool) (name cameraid : Option ℕ) (s : Camera2)
      → IsIdle s
      → let (rc, t) = camera2_device_open v block memory ops_memory name cameraid s in
        IsAnswered name cameraid s rc t
  unfolding camera2_device_open
  camera2_device_open-IsAnswered block memory ops_memory none cameraid s h = IsAnswered.unnamed refl
  camera2_device_open-IsAnswered block memory ops_memory (some name) none s h =
      let (rv, t) = check_vendor_module v s in
      let a = check-IsIdle s h in
      let (prepared, r) = prepare v block t in
      let b = prepare-IsIdle block t a in
      answered_if none (not (is_zero rv)) _ _ (λ e. IsAnswered.refused _ t refl refl a)
        (λ e.
          answered_if none (not (is_zero prepared)) _ _
            (λ f. IsAnswered.refused _ r refl (ground (arith, f)) b)
            (λ f. IsAnswered.refused _ r refl refl b))
  camera2_device_open-IsAnswered block memory ops_memory (some name) (some id) s h =
      let (rv, t) = check_vendor_module v s in
      let a = check-IsIdle s h in
      let (prepared, r) = prepare v block t in
      let b = prepare-IsIdle block t a in
      let o = record r { log = VendorCall.open_legacy name ∷ r.log } in
      let c : IsIdle o = record {
        shown = b.shown;
        no_window = b.no_window;
        not_deferred = b.not_deferred;
        no_fault = b.no_fault;
      } in
      answered_if (some id) (not (is_zero rv)) _ _ (λ e. IsAnswered.refused _ t refl refl a)
        (λ e.
          answered_if (some id) (not (is_zero prepared)) _ _
            (λ f. IsAnswered.refused _ r refl (ground (arith, f)) b)
            (λ f.
              answered_if (some id) (ltb r.num_cameras id) _ _
                (λ g. IsAnswered.refused _ r refl refl b)
                (λ g.
                  answered_if (some id) (not memory) _ _ (λ m. IsAnswered.refused _ r refl refl b)
                    (λ m.
                      answered_if (some id)
                        (not (is_zero (v.reply r.log (VendorCall.open_legacy name)))) _ _
                        (λ n. IsAnswered.refused _ o refl (ground (arith, n)) c)
                        (λ n.
                          answered_if (some id) (not ops_memory) _ _
                            (λ q. IsAnswered.refused _ o refl refl c)
                            (λ q. IsAnswered.opened id _ refl refl refl g (
                              opened-IsHeld r name id b
                                (prepare-texts block t (ground (arith, f))))))))))

  answered-IsHeld :
      (name id : ℕ) (s : Camera2) (rc : Ret) (t : Camera2)
      → rc ≡ success
      → ltb id t.block_size ≡ true
      → IsAnswered (some name) (some id) s rc t
      → IsHeld t
  answered-IsHeld name id s rc t ok inside (IsAnswered.unnamed e) = absurd (cc e)
  answered-IsHeld name id s rc t ok inside
        (IsAnswered.opened own _ named same device in_range (inl held)) =
      held
  answered-IsHeld name id s rc t ok inside
        (IsAnswered.opened own _ named same device in_range (inr out)) =
      let in_block : ltb t.device.id t.block_size ≡ true = ground (arith, same, device, inside) in
      absurd (cc (sym out ∙ in_block))
  answered-IsHeld name id s rc t ok inside (IsAnswered.refused _ _ named bad idle) =
      absurd (cc (sym bad ∙ ap is_zero ok))

  -- From a state without a window, a deferred preview, a fault and a preview on a device without a
  -- window: a camera that is opened with success, with a number inside of the block of texts, and
  -- closed after any sequence of requests, was released before its closing, which is the vendor's
  -- last call. No text of it is kept; there is no window, no deferred preview and no fault; and the
  -- vendor was told to start a preview only on a device that had got a window.
  pub camera2_device_close-IsClosed :
      (block memory ops_memory : Bool) (name id : ℕ) (s : Camera2) {t : Camera2}
      → IsIdle s
      → (camera2_device_open v block memory ops_memory (some name) (some id) s).0 ≡ success
      → ltb id (camera2_device_open v block memory ops_memory (some name) (some id) s).1.block_size
        ≡ true
      → CameraRequests v (camera2_device_open v block memory ops_memory (some name) (some id) s).1 t
      → ((camera2_device_close t).0 ≡ success) × IsClosed (camera2_device_close t).1
  camera2_device_close-IsClosed block memory ops_memory name id s {t} h ok inside asked =
      close-IsClosed t (
        CameraRequests-IsHeld v asked (
          answered-IsHeld name id s _ _ ok inside
            (camera2_device_open-IsAnswered block memory ops_memory (some name) (some id) s h)))
