-- ===== src/Pn53x/Decode/Uid.antt =====
-- What is decoded from the answer of an ISO14443A target, whose UID the chip gives with the cascade tags
-- that `iso14443_cascade_uid` puts in.
use libnfc.Prelude.{
  ℕ, suc, ◌+◌, ◌-◌, ◌/◌, ◌%◌, ◌≡◌, refl, arith, ◌⊎◌, inl, inr, true, false, Option, none, some,
}
use libnfc.Prelude.{List, [], ◌∷◌, ◌++◌, ltb, le→leb, ◌==◌, if◌then◌else◌, length, take}
use libnfc.Prelude.{length-append, take-append, drop-append}
use mathlib.Core.List.{append_assoc}
use libnfc.Iso14443.Cascade.{cascade_uid}
use libnfc.Types.{nmt_iso14443a, nai}
use libnfc.Pn53x.Device.{Pn53xType, nfc_success}
use libnfc.Pn53x.Decode.{
  bytes, strip_tags, decode_ats, stored_uid, decode_nai, decode_target_data, is_pn531,
}

bytes-append : (xs rest : List ℕ) → bytes (length xs) (xs ++ rest) ≡ some (xs, rest)
unfolding bytes
bytes-append xs rest =
    let fits = le→leb (length xs) (length (xs ++ rest)) (omega (arith, length-append xs rest)) in
    rw (fits, take-append xs rest, drop-append xs rest) refl

-- The bytes that carry an ATS, if the target has one.
abbrev pub ats_field : Option (List ℕ) → List ℕ
ats_field none = []
ats_field (some ats) = suc (length ats) ∷ ats

abbrev pub ats_of : Option (List ℕ) → List ℕ
ats_of none = []
ats_of (some ats) = ats

-- The answer to InListPassiveTarget for one target, with its UID as the chip gives it.
abbrev pub answer : ℕ → ℕ → ℕ → ℕ → List ℕ → Option (List ℕ) → List ℕ
answer tg first second sak cascaded ats =
    tg ∷ first ∷ second ∷ sak ∷ length cascaded ∷ (cascaded ++ ats_field ats)

decode_ats-ats_field :
    (c : List ℕ) (ats : Option (List ℕ)) (junk : List ℕ)
    → decode_ats
        (ltb (length c + 5) (suc (suc (suc (suc (suc (length (c ++ ats_field ats))))))))
        (ats_field ats ++ junk)
      ≡ some (ats_of ats)
unfolding decode_ats
decode_ats-ats_field c none junk =
    let size = length-append c [] in
    let absent : ltb (length c + 5) (suc (suc (suc (suc (suc (length (c ++ []))))))) ≡ false =
      ground arith in
    rw absent refl
decode_ats-ats_field c (some ats) junk =
    let field = suc (length ats) ∷ ats in
    let size = length-append c field in
    let present : ltb (length c + 5) (suc (suc (suc (suc (suc (length (c ++ field))))))) ≡ true =
      ground arith in
    let one : suc (length ats) - 1 ≡ length ats = omega arith in
    let filled : (suc (length ats) == 0) ≡ false = ground arith in
    rw present (rw (one, filled, bytes-append ats junk) refl)

-- What is left of a UID: of ten bytes the first eight, and in the place of the last two the low bytes
-- of the size of the ATS.
abbrev pub kept_uid : List ℕ → ℕ → List ℕ
kept_uid uid n = if length uid == 10 then take 8 uid ++ n % 256 ∷ n / 256 % 256 ∷ [] else uid

-- The cascaded UID, stored and stripped of its tags.
abbrev Strips : List ℕ → Type 0
Strips uid =
    (c : List ℕ) × (cascade_uid uid (length uid) ≡ some c)
    × ((ats : List ℕ) → strip_tags (stored_uid c ats) ≡ kept_uid uid (length ats))

four-Strips : (uid : List ℕ) → length uid ≡ 4 → Strips uid
unfolding cascade_uid strip_tags stored_uid
four-Strips (a ∷ b ∷ c ∷ d ∷ []) e = (a ∷ b ∷ c ∷ d ∷ [], refl, λ ats. refl)
four-Strips _ e = absurd (omega arith)

seven-Strips : (uid : List ℕ) → length uid ≡ 7 → Strips uid
unfolding cascade_uid strip_tags stored_uid
seven-Strips (a ∷ b ∷ c ∷ d ∷ x ∷ y ∷ z ∷ []) e =
    (0x88 ∷ a ∷ b ∷ c ∷ d ∷ x ∷ y ∷ z ∷ [], refl, λ ats. refl)
seven-Strips _ e = absurd (omega arith)

ten-Strips : (uid : List ℕ) → length uid ≡ 10 → Strips uid
unfolding cascade_uid strip_tags stored_uid
ten-Strips (a ∷ b ∷ c ∷ d ∷ x ∷ y ∷ z ∷ u ∷ v ∷ w ∷ []) e =
    (0x88 ∷ a ∷ b ∷ c ∷ 0x88 ∷ d ∷ x ∷ y ∷ z ∷ u ∷ v ∷ w ∷ [], refl, λ ats. refl)
ten-Strips _ e = absurd (omega arith)

uid-Strips : (uid : List ℕ) → (length uid ≡ 4) ⊎ ((length uid ≡ 7) ⊎ (length uid ≡ 10)) → Strips uid
uid-Strips uid (inl four) = four-Strips uid four
uid-Strips uid (inr (inl seven)) = seven-Strips uid seven
uid-Strips uid (inr (inr ten)) = ten-Strips uid ten

-- Of a UID of four or seven bytes, the answer that holds the cascaded UID, with or without an ATS,
-- and whatever lies behind it in the buffer, is decoded to that UID, the ATS and the SAK; a PN531
-- gives the two bytes of the ATQA in the other order. Of a UID of ten bytes, all is the same, but that
-- only its first eight are left: its twelve bytes with the tags run over the array, and the low bytes of
-- the size of the ATS come to stand in the place of the last two.
pub decode_target_data-cascade_uid :
    (type : Pn53xType) (tg first second sak : ℕ) (uid : List ℕ) (ats : Option (List ℕ))
    (junk : List ℕ)
    → (length uid ≡ 4) ⊎ ((length uid ≡ 7) ⊎ (length uid ≡ 10))
    → (c : List ℕ) × (cascade_uid uid (length uid) ≡ some c)
      × (let raw = answer tg first second sak c ats in
          decode_target_data type nmt_iso14443a (raw ++ junk) (length raw)
          ≡ some (
            nfc_success,
            some (
                nai (record {
                  atqa = if is_pn531 type then second ∷ first ∷ [] else first ∷ second ∷ [];
                  sak = sak;
                  uid = kept_uid uid (length (ats_of ats));
                  ats = ats_of ats;
                })),
          ))
unfolding decode_target_data decode_nai
decode_target_data-cascade_uid type tg first second sak uid ats junk sizes =
    let (c, cascaded, stripped) = uid-Strips uid sizes in
    let split = append_assoc c (ats_field ats) junk in
    (
      c,
      cascaded,
      rw (split, bytes-append c (ats_field ats ++ junk))
          (rw (decode_ats-ats_field c ats junk) (rw (stripped (ats_of ats)) refl)),
    )
