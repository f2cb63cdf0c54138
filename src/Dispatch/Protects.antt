-- ===== src/Dispatch/Protects.antt =====
-- lib/windrv/src/ioctl/dispatch.rs: a protected OS volume under any sequence of detach, detach-all and
-- pause-OS requests.
use text.Mathlib.Text.{◌==◌ as same}
use mathlib.Core.Bool.{true≢false}
use mathlib.Core.Option.{none-ne-some, some-injective}
use volumecrypt_kit.Prelude.{
  ℕ, String, Bool, true, false, ◌||◌, some, List, [], ◌∷◌, map, ◌==◌, All, ◌≡◌, refl, sym, ◌∙◌, inl,
  inr, Bool-cases, Option-cases, arith,
}
use volumecrypt_kit.Error.{VckResult, ok, err}
use volumecrypt_kit.Volume.{AttachedVolume, is_os_volume, has_encrypted_data}
use volumecrypt_kit.Registry.{Entry, get, remove, all, is_protected}
use volumecrypt_kit.Registry.Laws.{IsRegistry, same_sym, get-remove, same→eq}
use volumecrypt_kit.Dispatch.{
  Kernel, Driver, without, unbind_filter, detach_filter, teardown, detach_found, detach_volume,
  detach_each, data_paths, handle_detach_all_volumes, handle_detach, refused, pause_volume,
  pause_entry, handle_pause_os_volume,
}
use volumecrypt_kit.Dispatch.Entries.{detach_volume-entries, data_paths-apart}
use volumecrypt_kit.Dispatch.Pauses.{get-pause, pause-IsRegistry}

pub data Ioctl : Type 0 where
  detach : String → Ioctl
  detach_all_volumes pause_os_volume : Ioctl

unfoldable pub answer_ioctl : {W : Type 0} → Kernel W → Ioctl → Driver W → Driver W
answer_ioctl k (detach path) d = (handle_detach k path d).1
answer_ioctl k detach_all_volumes d = (handle_detach_all_volumes k d).1
answer_ioctl k pause_os_volume d = (handle_pause_os_volume d).1

unfoldable pub answer_ioctls : {W : Type 0} → Kernel W → List Ioctl → Driver W → Driver W
unfolding answer_ioctl
answer_ioctls k [] d = d
answer_ioctls k (r ∷ rs) d = answer_ioctls k rs (answer_ioctl k r d)

unfoldable pub has : ℕ → List ℕ → Bool
has f [] = false
has f (g ∷ gs) = g == f || has f gs

-- The other volumes have other filters.
abbrev pub Apart : String → ℕ → List Entry → Type 0
Apart path f es = All (λ e. same path e.key ≡ false → (e.volume.filter_device == f) ≡ false) es

-- The OS volume at the path has encrypted data and is bound to the filter.
pub record Protected {W : Type 0} (path : String) (f : ℕ) (d : Driver W) : Type 0 where
  pub registry : IsRegistry d.entries
  pub attached :
      (v : AttachedVolume) × (get path d.entries ≡ some v)
      × (is_protected v ≡ true)
      × (v.filter_device ≡ f)
  pub filter_bound : has f d.bound ≡ true
  pub apart : Apart path f d.entries

remove-Apart :
    (path p : String) (f : ℕ) (es : List Entry) → Apart path f es → Apart path f (remove p es)
unfolding remove
remove-Apart path p f [] h = tt
remove-Apart path p f (e ∷ es) h = elim (Bool-cases (same p e.key)) [
  | inl b ↦ rw b (remove-Apart path p f es h.1)
  | inr b ↦ rw b (h.0, remove-Apart path p f es h.1)
]

remove-IsRegistry : (p : String) (es : List Entry) → IsRegistry es → IsRegistry (remove p es)
unfolding remove IsRegistry
remove-IsRegistry p [] h = tt
remove-IsRegistry p (e ∷ es) h = elim (Bool-cases (same p e.key)) [
  | inl b ↦ rw b (remove-IsRegistry p es h.2)
  | inr b ↦
      rw b (h.0, get-remove e.key p es ∙ rw (same_sym p e.key b) h.1, remove-IsRegistry p es h.2)
]

has-without :
    (f u : ℕ) (gs : List ℕ) → (u == f) ≡ false → has f gs ≡ true → has f (without u gs) ≡ true
unfolding has without
has-without f u [] apart h = h
has-without f u (g ∷ gs) apart h = let ih = has-without f u gs apart in ground arith

get-Apart :
    (path p : String) (f : ℕ) (v : AttachedVolume) (es : List Entry)
    → same path p ≡ false
    → Apart path f es
    → get p es ≡ some v
    → (v.filter_device == f) ≡ false
unfolding get
get-Apart path p f v [] other h is = absurd (none-ne-some v is)
get-Apart path p f v (e ∷ es) other h is = elim (Bool-cases (same p e.key)) [
  | inl b ↦
      let found : some e.volume ≡ some v = sym (rw b refl) ∙ is in
      rw (sym (some-injective e.volume v found)) (h.0 (rw (sym (same→eq p e.key b)) other))
  | inr b ↦ get-Apart path p f v es other h.1 (sym (rw b refl) ∙ is)
]

protected-os : (v : AttachedVolume) → is_protected v ≡ true → is_os_volume v ≡ true
unfolding is_protected
protected-os v h = elim (Bool-cases (is_os_volume v)) [
  | inl b ↦ b
  | inr b ↦ absurd (true≢false (sym h ∙ rw b refl))
]

pause-Apart :
    (path : String) (f : ℕ) (es : List Entry) → Apart path f es → Apart path f (map pause_entry es)
unfolding pause_volume
pause-Apart path f [] h = tt
pause-Apart path f (e ∷ es) h = (h.0, pause-Apart path f es h.1)

module _ {W : Type 0} (k : Kernel W) (path : String) (f : ℕ) where
  teardown-has :
      (keep : Bool) (u : ℕ) (r : VckResult (Unit {0})) (d : Driver W)
      → (u == f) ≡ false
      → has f d.bound ≡ true
      → has f (teardown k keep u r d).1.bound ≡ true
  unfolding teardown unbind_filter detach_filter
  teardown-has keep u (err e) d apart h = h
  teardown-has keep u (ok _) d apart h = let lose = has-without f u d.bound apart h in ground arith

  detach-has :
      (p : String) (ignore keep : Bool) (d : Driver W)
      → same path p ≡ false
      → Protected path f d
      → has f (detach_volume k p ignore keep d).1.bound ≡ true
  unfolding detach_volume detach_found
  detach-has p ignore keep d other pd = elim (Option-cases (get p d.entries)) [
    | inl absent ↦ rw absent pd.filter_bound
    | inr (v, is) ↦ rw is (
        teardown-has keep v.filter_device _ _ (get-Apart path p f v d.entries other pd.apart is)
          pd.filter_bound)
  ]

  detach-Protected :
      (p : String) (ignore keep : Bool) (d : Driver W)
      → same path p ≡ false
      → Protected path f d
      → Protected path f (detach_volume k p ignore keep d).1
  detach-Protected p ignore keep d other pd =
      let es : (detach_volume k p ignore keep d).1.entries ≡ remove p d.entries =
        detach_volume-entries k p ignore keep d in
      record {
        registry = rw es (remove-IsRegistry p d.entries pd.registry);
        attached = (
          pd.attached.0,
          rw es (get-remove path p d.entries ∙ rw other pd.attached.1),
          pd.attached.2,
          pd.attached.3,
        );
        filter_bound = detach-has p ignore keep d other pd;
        apart = rw es (remove-Apart path p f d.entries pd.apart);
      }

  detach_each-Protected :
      (ps : List String) (d : Driver W)
      → All (λ p. same path p ≡ false) ps
      → Protected path f d
      → Protected path f (detach_each k ps d)
  unfolding detach_each
  detach_each-Protected [] d others pd = pd
  detach_each-Protected (p ∷ ps) d others pd =
      detach_each-Protected ps _ others.1 (detach-Protected p true false d others.0 pd)

  detach_all-Protected :
      (d : Driver W) → Protected path f d → Protected path f (handle_detach_all_volumes k d).1
  unfolding handle_detach_all_volumes
  detach_all-Protected d pd =
      detach_each-Protected (data_paths (all d.entries)) d
        (data_paths-apart path pd.attached.0 d.entries pd.registry pd.attached.1
          (protected-os pd.attached.0 pd.attached.2))
        pd

  handle_detach-Protected :
      (p : String) (d : Driver W) → Protected path f d → Protected path f (handle_detach k p d).1
  unfolding handle_detach refused
  handle_detach-Protected p d pd = elim (Bool-cases (same path p)) [
    | inl b ↦
        let found : get p d.entries ≡ some pd.attached.0 =
          rw (sym (same→eq path p b)) pd.attached.1 in
        rw (found, pd.attached.2) pd
    | inr b ↦ elim (Bool-cases (refused (get p d.entries))) [
      | inl c ↦ rw c pd
      | inr c ↦ rw c (detach-Protected p false true d b pd)
    ]
  ]

  pause-Protected :
      (d : Driver W) → Protected path f d → Protected path f (handle_pause_os_volume d).1
  unfolding handle_pause_os_volume pause_volume is_protected is_os_volume has_encrypted_data
  pause-Protected d pd = record {
    registry = pause-IsRegistry d.entries pd.registry;
    attached = (
      pause_volume pd.attached.0,
      get-pause path pd.attached.0 d.entries pd.attached.1,
      pd.attached.2,
      pd.attached.3,
    );
    filter_bound = pd.filter_bound;
    apart = pause-Apart path f d.entries pd.apart;
  }

  answer_ioctl-Protected :
      (r : Ioctl) (d : Driver W) → Protected path f d → Protected path f (answer_ioctl k r d)
  unfolding answer_ioctl
  answer_ioctl-Protected (detach p) d pd = handle_detach-Protected p d pd
  answer_ioctl-Protected detach_all_volumes d pd = detach_all-Protected d pd
  answer_ioctl-Protected pause_os_volume d pd = pause-Protected d pd

  -- When an OS volume with encrypted data is attached at a path and bound to a filter that no other
  -- volume has, then after any sequence of detach, detach-all and pause-OS requests, whatever the
  -- kernel answers, an OS volume with encrypted data is still attached at that path and the filter
  -- is still bound.
  pub answer_ioctls-Protected :
      (rs : List Ioctl) (d : Driver W)
      → Protected path f d
      → Protected path f (answer_ioctls k rs d)
  unfolding answer_ioctls
  answer_ioctls-Protected [] d pd = pd
  answer_ioctls-Protected (r ∷ rs) d pd =
      answer_ioctls-Protected rs _ (answer_ioctl-Protected r d pd)
