-- ===== src/ServerArgs/Units.antt =====
-- The units of `parse_size_bytes`.
use attemory.ServerArgs.{multiplier, is_unit, to_lower}
use attemory.Base.Text.{is_empty-nil, is_empty, bytes_eq_iff, bytes_eq, text, Bytes}
use attemory.Base.{
  ℕ, ◌+◌, ◌^◌, ◌≤◌, ◌≡◌, refl, sym, ap, ◌∙◌, ◌↔◌, ◌⊎◌, inl, inr, true, ◌||◌, Option, none, some, [],
  ◌∷◌, ◌++◌, map, arith, Bool-cases, All,
}

-- What is spelled like a word of small letters, in letters of either case.
abbrev pub Spells : Bytes → Bytes → Type 0
Spells [] [] = Unit
Spells [] (d ∷ ds) = ⊥
Spells (c ∷ cs) [] = ⊥
Spells (c ∷ cs) (d ∷ ds) = ((c ≡ d) ⊎ (c + 32 ≡ d)) × Spells cs ds

abbrev IsSmall : ℕ → Type 0
IsSmall d = (b'a' ≤ d) × (d ≤ b'z')

to_lower_iff : (c d : ℕ) → IsSmall d → (to_lower c ≡ d) ↔ ((c ≡ d) ⊎ (c + 32 ≡ d))
unfolding to_lower
to_lower_iff c d s = (λ h. ground arith, λ h. ground arith)

map-to_lower_iff : (cs ds : Bytes) → All IsSmall ds → (map to_lower cs ≡ ds) ↔ Spells cs ds
map-to_lower_iff [] [] s = (λ h. tt, λ h. refl)
map-to_lower_iff [] (d ∷ ds) s = (λ h. cc, λ h. absurd h)
map-to_lower_iff (c ∷ cs) [] s = (λ h. cc, λ h. absurd h)
map-to_lower_iff (c ∷ cs) (d ∷ ds) (s, ss) = (
  λ h. ((to_lower_iff c d s).0 cc, (map-to_lower_iff cs ds ss).0 cc),
  λ (h, hs).
      let first = (to_lower_iff c d s).1 h in let others = (map-to_lower_iff cs ds ss).1 hs in cc,
)

-- The letter alone, with a `b`, or with `ib`.
abbrev pub SpellsUnit : Bytes → Bytes → Type 0
SpellsUnit cs letter =
    Spells cs letter ⊎ (Spells cs (letter ++ text "b") ⊎ Spells cs (letter ++ text "ib"))

pub data SizeUnit : Type 0 where
  byte kib mib gib tib : SizeUnit

abbrev pub exponent : SizeUnit → ℕ
exponent byte = 0
exponent kib = 1
exponent mib = 2
exponent gib = 3
exponent tib = 4

-- The suffixes of a unit; a number without one counts bytes.
abbrev pub IsSuffix : SizeUnit → Bytes → Type 0
IsSuffix byte cs = Spells cs [] ⊎ Spells cs (text "b")
IsSuffix kib cs = SpellsUnit cs (text "k")
IsSuffix mib cs = SpellsUnit cs (text "m")
IsSuffix gib cs = SpellsUnit cs (text "g")
IsSuffix tib cs = SpellsUnit cs (text "t")

lower_eq : (cs ds : Bytes) → All IsSmall ds → (bytes_eq (map to_lower cs) ds ≡ true) ↔ Spells cs ds
lower_eq cs ds s =
    let same = bytes_eq_iff (map to_lower cs) ds in
    let spelled = map-to_lower_iff cs ds s in (λ h. spelled.0 (same.0 h), λ h. same.1 (spelled.1 h))

is_unit-SpellsUnit :
    (cs : Bytes) (d : ℕ)
    → IsSmall d
    → is_unit (map to_lower cs) (d ∷ []) ≡ true
    → SpellsUnit cs (d ∷ [])
unfolding text
is_unit-SpellsUnit cs d s h = elim (Bool-cases (bytes_eq (map to_lower cs) (d ∷ []))) [
  | inl e ↦ inl ((lower_eq cs (d ∷ []) (s, tt)).0 e)
  | inr e ↦ elim (Bool-cases (bytes_eq (map to_lower cs) (d ∷ b'b' ∷ []))) [
    | inl f ↦ inr (inl ((lower_eq cs (d ∷ b'b' ∷ []) (s, (omega arith, tt))).0 f))
    | inr f ↦
        let last : bytes_eq (map to_lower cs) (d ∷ b'i' ∷ b'b' ∷ []) ≡ true = ground arith in
        inr
          (inr ((lower_eq cs (d ∷ b'i' ∷ b'b' ∷ []) (s, (omega arith, (omega arith, tt)))).0 last))
  ]
]

abbrev factor_of : Option ℕ → ℕ
factor_of none = 0
factor_of (some factor) = factor

bytes-Spells :
    (cs : Bytes)
    → (is_empty (map to_lower cs) || bytes_eq (map to_lower cs) (text "b")) ≡ true
    → Spells cs [] ⊎ Spells cs (text "b")
unfolding text
bytes-Spells cs h = elim (Bool-cases (is_empty (map to_lower cs))) [
  | inl e ↦ inl ((map-to_lower_iff cs [] tt).0 (is_empty-nil (map to_lower cs) e))
  | inr e ↦ inr ((lower_eq cs (b'b' ∷ []) (omega arith, tt)).0 (ground arith))
]

-- Only a suffix of a unit has a factor, the power of 1024.
pub multiplier-suffix :
    (cs : Bytes) (factor : ℕ)
    → multiplier (map to_lower cs) ≡ some factor
    → (unit : SizeUnit) × IsSuffix unit cs × (factor ≡ 1024 ^ exponent unit)
unfolding multiplier text
multiplier-suffix cs factor h =
    let word = map to_lower cs in
    elim (Bool-cases (is_empty word || bytes_eq word (text "b"))) [
      | inl e ↦ (byte, bytes-Spells cs e, sym (ap factor_of (rw (multiplier, e) at h)))
      | inr e ↦ elim (Bool-cases (is_unit word (text "k"))) [
        | inl f ↦ (
          kib,
          is_unit-SpellsUnit cs b'k' (omega arith) f,
          sym (ap factor_of (rw (multiplier, e, f) at h)),
        )
        | inr f ↦ elim (Bool-cases (is_unit word (text "m"))) [
          | inl g ↦ (
            mib,
            is_unit-SpellsUnit cs b'm' (omega arith) g,
            sym (ap factor_of (rw (multiplier, e, f, g) at h)),
          )
          | inr g ↦ elim (Bool-cases (is_unit word (text "g"))) [
            | inl u ↦ (
              gib,
              is_unit-SpellsUnit cs b'g' (omega arith) u,
              sym (ap factor_of (rw (multiplier, e, f, g, u) at h)),
            )
            | inr u ↦ elim (Bool-cases (is_unit word (text "t"))) [
              | inl v ↦ (
                tib,
                is_unit-SpellsUnit cs b't' (omega arith) v,
                sym (ap factor_of (rw (multiplier, e, f, g, u, v) at h)),
              )
              | inr v ↦ let unknown = rw (multiplier, e, f, g, u, v) at h in absurd (cc)
            ]
          ]
        ]
      ]
    ]

module _ (factor : ℕ) (cs : Bytes) where
  spelled-multiplier :
      (ds : Bytes)
      → All IsSmall ds
      → multiplier ds ≡ some factor
      → Spells cs ds
      → multiplier (map to_lower cs) ≡ some factor
  spelled-multiplier ds s m h = ap multiplier ((map-to_lower_iff cs ds s).1 h) ∙ m

  unit-multiplier :
      (d : ℕ)
      → IsSmall d
      → multiplier (d ∷ []) ≡ some factor
      → multiplier (d ∷ b'b' ∷ []) ≡ some factor
      → multiplier (d ∷ b'i' ∷ b'b' ∷ []) ≡ some factor
      → SpellsUnit cs (d ∷ [])
      → multiplier (map to_lower cs) ≡ some factor
  unfolding text
  unit-multiplier d s m1 m2 m3 (inl h) = spelled-multiplier (d ∷ []) (s, tt) m1 h
  unit-multiplier d s m1 m2 m3 (inr (inl h)) =
      spelled-multiplier (d ∷ b'b' ∷ []) (s, (omega arith, tt)) m2 h
  unit-multiplier d s m1 m2 m3 (inr (inr h)) =
      spelled-multiplier (d ∷ b'i' ∷ b'b' ∷ []) (s, (omega arith, (omega arith, tt))) m3 h

-- A suffix in letters of either case has its factor.
pub suffix-multiplier :
    (unit : SizeUnit) (cs : Bytes)
    → IsSuffix unit cs
    → multiplier (map to_lower cs) ≡ some (1024 ^ exponent unit)
unfolding multiplier text bytes_eq is_empty
suffix-multiplier byte cs (inl h) = spelled-multiplier 1 cs [] tt refl h
suffix-multiplier byte cs (inr h) = spelled-multiplier 1 cs (b'b' ∷ []) (omega arith, tt) refl h
suffix-multiplier kib cs h = unit-multiplier (2 ^ 10) cs b'k' (omega arith) refl refl refl h
suffix-multiplier mib cs h = unit-multiplier (2 ^ 20) cs b'm' (omega arith) refl refl refl h
suffix-multiplier gib cs h = unit-multiplier (2 ^ 30) cs b'g' (omega arith) refl refl refl h
suffix-multiplier tib cs h = unit-multiplier (2 ^ 40) cs b't' (omega arith) refl refl refl h
