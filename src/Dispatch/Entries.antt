-- ===== src/Dispatch/Entries.antt =====
-- lib/windrv/src/ioctl/dispatch.rs: what detaching leaves in the registry.
use text.Mathlib.Text.{◌==◌ as same}
use text.Mathlib.TextPositions.{eq_refl}
use mathlib.Core.Option.{none-ne-some, some-injective}
use volumecrypt_kit.Prelude.{
  ℕ, String, Bool, true, false, none, some, List, [], ◌∷◌, if◌then◌else◌, All, ◌≡◌, refl, sym, ◌∙◌,
  inl, inr, Bool-cases, Option-cases, arith,
}
use volumecrypt_kit.Error.{VckResult, ok, err}
use volumecrypt_kit.Volume.{AttachedVolume, is_os_volume}
use volumecrypt_kit.Registry.{Entry, get, remove, all}
use volumecrypt_kit.Registry.Laws.{IsRegistry, skip-get, remove-absent, same_sym, same→eq}
use volumecrypt_kit.Dispatch.{
  Kernel, Driver, unbind_filter, detach_filter, teardown, detach_found, detach_volume, detach_each,
  data_paths, handle_detach_all_volumes,
}

unfoldable pub os_entries : List Entry → List Entry
os_entries [] = []
os_entries (e ∷ es) = if is_os_volume e.volume then e ∷ os_entries es else os_entries es

unfoldable pub remove_each : List String → List Entry → List Entry
remove_each [] es = es
remove_each (p ∷ ps) es = remove_each ps (remove p es)

-- The paths of the data volumes are none of the keys that the registry has no entry for.
pub data_paths-absent :
    (k : String) (es : List Entry)
    → IsRegistry es
    → get k es ≡ none
    → All (λ p. same p k ≡ false) (data_paths (all es))
unfolding data_paths all IsRegistry
data_paths-absent k [] h absent = tt
data_paths-absent k (e ∷ es) h absent =
    let rest = data_paths-absent k es h.2 (skip-get k e es absent).1 in
    elim (Bool-cases (is_os_volume e.volume)) [
      | inl b ↦ rw b rest
      | inr b ↦ rw b (rw (sym h.0) (same_sym k e.key (skip-get k e es absent).0), rest)
    ]

All-sym :
    (k : String) (ps : List String)
    → All (λ p. same p k ≡ false) ps
    → All (λ p. same k p ≡ false) ps
All-sym k [] h = tt
All-sym k (p ∷ ps) h = (same_sym p k h.0, All-sym k ps h.1)

-- A path at which an OS volume is attached is that of no data volume.
pub data_paths-apart :
    (path : String) (v : AttachedVolume) (es : List Entry)
    → IsRegistry es
    → get path es ≡ some v
    → is_os_volume v ≡ true
    → All (λ p. same path p ≡ false) (data_paths (all es))
unfolding get IsRegistry data_paths all
data_paths-apart path v [] h is os = absurd (none-ne-some v is)
data_paths-apart path v (e ∷ es) h is os = elim (Bool-cases (same path e.key)) [
  | inl b ↦
      let found : some e.volume ≡ some v = sym (rw b refl) ∙ is in
      let is_os : is_os_volume e.volume ≡ true = rw (some-injective e.volume v found) os in
      rw (is_os, same→eq path e.key b) (All-sym e.key _ (data_paths-absent e.key es h.2 h.1))
  | inr b ↦
      let rest = data_paths-apart path v es h.2 (sym (rw b refl) ∙ is) os in
      elim (Bool-cases (is_os_volume e.volume)) [
        | inl c ↦ rw c rest
        | inr c ↦ rw c (rw (sym h.0) b, rest)
      ]
]

remove_each-apart :
    (ps : List String) (e : Entry) (es : List Entry)
    → All (λ p. same p e.key ≡ false) ps
    → remove_each ps (e ∷ es) ≡ e ∷ remove_each ps es
unfolding remove_each remove
remove_each-apart [] e es h = refl
remove_each-apart (p ∷ ps) e es h = rw h.0 (remove_each-apart ps e (remove p es) h.1)

remove_each-data_paths :
    (es : List Entry) → IsRegistry es → remove_each (data_paths (all es)) es ≡ os_entries es
unfolding remove_each data_paths all os_entries IsRegistry remove
remove_each-data_paths [] h = refl
remove_each-data_paths (e ∷ es) h = elim (Bool-cases (is_os_volume e.volume)) [
  | inl b ↦ rw b (
      remove_each-apart (data_paths (all es)) e es (data_paths-absent e.key es h.2 h.1)
      ∙ rw (remove_each-data_paths es h.2) refl)
  | inr b ↦
      rw (b, sym h.0, eq_refl e.key, remove-absent e.key es h.1) (remove_each-data_paths es h.2)
]

module _ {W : Type 0} (k : Kernel W) where
  teardown-entries :
      (keep : Bool) (f : ℕ) (r : VckResult (Unit {0})) (d : Driver W)
      → (teardown k keep f r d).1.entries ≡ d.entries
  unfolding teardown unbind_filter detach_filter
  teardown-entries keep f (err e) d = refl
  teardown-entries keep f (ok u) d = ground arith

  pub detach_volume-entries :
      (path : String) (ignore keep : Bool) (d : Driver W)
      → (detach_volume k path ignore keep d).1.entries ≡ remove path d.entries
  unfolding detach_volume detach_found
  detach_volume-entries path ignore keep d = elim (Option-cases (get path d.entries)) [
    | inl absent ↦ rw (absent, remove-absent path d.entries absent) refl
    | inr (v, is) ↦ rw is (teardown-entries keep v.filter_device _ _)
  ]

  detach_each-entries :
      (ps : List String) (d : Driver W) → (detach_each k ps d).entries ≡ remove_each ps d.entries
  unfolding detach_each remove_each
  detach_each-entries [] d = refl
  detach_each-entries (p ∷ ps) d =
      detach_each-entries ps _ ∙ rw (detach_volume-entries p true false d) refl

  -- In a well-formed registry, detach-all leaves exactly the entries of the OS volumes, in their
  -- order, whatever the kernel answers.
  pub handle_detach_all-entries :
      (d : Driver W)
      → IsRegistry d.entries
      → (handle_detach_all_volumes k d).1.entries ≡ os_entries d.entries
  unfolding handle_detach_all_volumes
  handle_detach_all-entries d h =
      detach_each-entries (data_paths (all d.entries)) d ∙ remove_each-data_paths d.entries h
