-- ===== src/Iso14443/Cascade/Laws.antt =====
-- The cascade levels of ISO/IEC 14443-3: a reader gets a UID in groups of four bytes, and a group
-- that is not the last begins with the cascade tag 0x88 instead of a byte of the UID.
use libnfc.Prelude.{ℕ, ◌*◌, ◌/◌, ◌-◌, ◌≡◌, ◌⊎◌, inl, inr, refl, arith, some}
use libnfc.Prelude.{List, [], ◌∷◌, ◌==◌, if◌then◌else◌, length}
use libnfc.Iso14443.Cascade.{cascade_uid}

-- The UID that the groups stand for.
abbrev pub join_levels : List ℕ → List ℕ
join_levels (t ∷ a ∷ b ∷ c ∷ d ∷ rest) =
    if t == 0x88 then a ∷ b ∷ c ∷ join_levels (d ∷ rest) else t ∷ a ∷ b ∷ c ∷ d ∷ rest
join_levels uid = uid

-- What is to be shown of a UID.
abbrev Levels : List ℕ → Type 0
Levels uid =
    (out : List ℕ) × (cascade_uid uid (length uid) ≡ some out)
    × (join_levels out ≡ uid)
    × (length out ≡ 4 * ((length uid - 1) / 3))

four-Levels : (uid : List ℕ) → length uid ≡ 4 → Levels uid
unfolding cascade_uid
four-Levels (a ∷ b ∷ c ∷ d ∷ []) e = (a ∷ b ∷ c ∷ d ∷ [], refl, refl, refl)
four-Levels _ e = absurd (omega arith)

seven-Levels : (uid : List ℕ) → length uid ≡ 7 → Levels uid
unfolding cascade_uid
seven-Levels (a ∷ b ∷ c ∷ d ∷ x ∷ y ∷ z ∷ []) e =
    (0x88 ∷ a ∷ b ∷ c ∷ d ∷ x ∷ y ∷ z ∷ [], refl, refl, refl)
seven-Levels _ e = absurd (omega arith)

ten-Levels : (uid : List ℕ) → length uid ≡ 10 → Levels uid
unfolding cascade_uid
ten-Levels (a ∷ b ∷ c ∷ d ∷ x ∷ y ∷ z ∷ u ∷ v ∷ w ∷ []) e =
    (0x88 ∷ a ∷ b ∷ c ∷ 0x88 ∷ d ∷ x ∷ y ∷ z ∷ u ∷ v ∷ w ∷ [], refl, refl, refl)
ten-Levels _ e = absurd (omega arith)

-- Of the three sizes that a UID can have, the result is one group of four bytes for each cascade
-- level, and the groups stand for the UID.
pub join_levels-cascade_uid :
    (uid : List ℕ)
    → (length uid ≡ 4) ⊎ ((length uid ≡ 7) ⊎ (length uid ≡ 10))
    → (out : List ℕ) × (cascade_uid uid (length uid) ≡ some out)
      × (join_levels out ≡ uid)
      × (length out ≡ 4 * ((length uid - 1) / 3))
join_levels-cascade_uid uid (inl four) = four-Levels uid four
join_levels-cascade_uid uid (inr (inl seven)) = seven-Levels uid seven
join_levels-cascade_uid uid (inr (inr ten)) = ten-Levels uid ten
