-- ===== src/Registry/Laws.antt =====
-- The registry as a map, and its well-formedness.
use Prim.Native.Nat.{Ordering}
use Prim.Native.String.{compare}
use text.Mathlib.Text.{is_eq, ◌==◌ as same}
use text.Mathlib.TextEquality.{eq_iff}
use text.Mathlib.TextPositions.{eq_refl}
use mathlib.Core.Bool.{true≢false}
use mathlib.Core.Option.{none-ne-some}
use volumecrypt_kit.Prelude.{
  String, true, false, none, some, List, [], ◌∷◌, ◌≡◌, refl, sym, ◌∙◌, inl, inr, if◌then◌else◌,
  Bool-cases,
}
use volumecrypt_kit.Volume.{AttachedVolume}
use volumecrypt_kit.Registry.{Entry, remove, get, place, insert}

pub same→eq : (s t : String) → same s t ≡ true → s ≡ t
same→eq s t = (eq_iff s t).0

-- Two keys that one path is equal to are equal.
same_trans : (p s t : String) → same p s ≡ true → same p t ≡ true → same s t ≡ true
same_trans p s t a b = (eq_iff s t).1 (sym (same→eq p s a) ∙ same→eq p t b)

same_back : (p q k : String) → same q k ≡ true → same p k ≡ true → same p q ≡ true
same_back p q k a b = (eq_iff p q).1 (same→eq p k b ∙ sym (same→eq q k a))

step-remove :
    (p q : String) (e : Entry) (es : List Entry)
    → get p (remove q es) ≡ (if same p q then none else get p es)
    → get p (remove q (e ∷ es)) ≡ (if same p q then none else get p (e ∷ es))
unfolding get remove
step-remove p q e es ih = elim (Bool-cases (same q e.key)) [
  | inl a ↦ elim (Bool-cases (same p q)) [
    | inl b ↦ rw (a, b) (ih ∙ rw b refl)
    | inr b ↦ elim (Bool-cases (same p e.key)) [
      | inl c ↦ absurd (true≢false (sym (same_back p q e.key a c) ∙ b))
      | inr c ↦ rw (a, b, c) (ih ∙ rw b refl)
    ]
  ]
  | inr a ↦ elim (Bool-cases (same p e.key)) [
    | inl c ↦ elim (Bool-cases (same p q)) [
      | inl b ↦ absurd (true≢false (sym (same_trans p q e.key b c) ∙ a))
      | inr b ↦ rw (a, b, c) refl
    ]
    | inr c ↦ rw (a, c) ih
  ]
]

pub get-remove :
    (p q : String) (es : List Entry) → get p (remove q es) ≡ (if same p q then none else get p es)
unfolding get remove
get-remove p q [] = elim (Bool-cases (same p q)) [ inl b ↦ rw b refl | inr b ↦ rw b refl ]
get-remove p q (e ∷ es) = step-remove p q e es (get-remove p q es)

step-place :
    (p : String) (x e : Entry) (es rest : List Entry) (o : Ordering)
    → (is_eq o ≡ false
        → (get p rest ≡ (if same p x.key then some x.volume else get p es))
          × (same p e.key ≡ true → same p x.key ≡ false))
    → get p (elim o [ Ordering.gt ↦ e ∷ rest | _ ↦ x ∷ e ∷ es ])
      ≡ (if same p x.key then some x.volume else get p (e ∷ es))
unfolding get
step-place p x e es rest Ordering.lt h = refl
step-place p x e es rest Ordering.eq h = refl
step-place p x e es rest Ordering.gt h = elim (Bool-cases (same p e.key)) [
  | inl b ↦ rw (b, (h refl).1 b) refl
  | inr b ↦ rw (b, (h refl).0) refl
]

pub skip-get :
    (k : String) (e : Entry) (es : List Entry)
    → get k (e ∷ es) ≡ none
    → (same k e.key ≡ false) × (get k es ≡ none)
unfolding get
skip-get k e es h = elim (Bool-cases (same k e.key)) [
  | inl a ↦ absurd (none-ne-some e.volume (sym h ∙ rw a refl))
  | inr a ↦ (a, sym (rw a refl) ∙ h)
]

pub get-place :
    (p : String) (x : Entry) (es : List Entry)
    → get x.key es ≡ none
    → get p (place x es) ≡ (if same p x.key then some x.volume else get p es)
unfolding get place
get-place p x [] h = refl
get-place p x (e ∷ es) h = step-place p x e es (place x es) (compare x.key e.key) (λ no. (
  get-place p x es (skip-get x.key e es h).1,
  λ b. elim (Bool-cases (same p x.key)) [
    | inl c ↦ absurd (true≢false (sym (same_trans p x.key e.key c b) ∙ (skip-get x.key e es h).0))
    | inr c ↦ c
  ],
))

-- After an insertion the registry answers the path of the volume with the volume, and every other
-- path as before; after a removal it answers the path with nothing, and every other path as before.
pub get-insert-remove :
    (p : String) (v : AttachedVolume) (es : List Entry)
    → (get p (insert v es) ≡ (if same p v.volume_path then some v else get p es))
      × (get p (remove v.volume_path es) ≡ (if same p v.volume_path then none else get p es))
unfolding insert
get-insert-remove p v es = (
  get-place p (record { key = v.volume_path; volume = v }) (remove v.volume_path es)
        (get-remove v.volume_path v.volume_path es ∙ rw (eq_refl v.volume_path) refl)
      ∙ elim (Bool-cases (same p v.volume_path)) [
        | inl b ↦ rw b refl
        | inr b ↦ rw b (get-remove p v.volume_path es ∙ rw b refl)
      ],
  get-remove p v.volume_path es,
)

-- The key of an entry is the path of its volume, and no key occurs twice.
unfoldable pub IsRegistry : List Entry → Type 0
IsRegistry [] = Unit
IsRegistry (e ∷ es) = (e.key ≡ e.volume.volume_path) × (get e.key es ≡ none) × IsRegistry es

pub same_sym : (s t : String) → same s t ≡ false → same t s ≡ false
same_sym s t h = elim (Bool-cases (same t s)) [
  | inl b ↦ absurd (true≢false (sym ((eq_iff s t).1 (sym (same→eq t s b))) ∙ h))
  | inr b ↦ b
]

pub remove-absent : (k : String) (es : List Entry) → get k es ≡ none → remove k es ≡ es
unfolding remove
remove-absent k [] h = refl
remove-absent k (e ∷ es) h =
    rw ((skip-get k e es h).0, remove-absent k es (skip-get k e es h).1) refl
