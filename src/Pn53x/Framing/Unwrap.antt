-- ===== src/Pn53x/Framing/Unwrap.antt =====
-- What `pn53x_unwrap_frame` takes from a frame that holds bytes of data.
use native.Mathlib.Decide.{dec_lt}
use mathlib.Core.Path.{subst}
use libnfc.Prelude.{ℕ, zero, suc, ◌+◌, ◌-◌, ◌*◌, ◌/◌, ◌%◌, ◌≤◌, ◌<◌, ◌≡◌, refl, arith, ap, ◌∙◌}
use libnfc.Prelude.{Option, some, List, [], ◌∷◌, true, false, ltb, ◌==◌, if◌then◌else◌, length}
use libnfc.Prelude.{get_elem?, get_or, set, length-set, get_elem?-set_self, get_elem?-set_ne}
use libnfc.Prelude.{get_elem?-eq-get_or}
use libnfc.Mirror.{mirror}
use libnfc.Mirror.Laws.{mirror-mirror}
use libnfc.Pn53x.Framing.{gather, parity, unwrap_loop}
use libnfc.Pn53x.Framing.Arith.{fill_sum, separate, first_sum, second_sum}
use libnfc.Pn53x.Framing.Wrap.{InRange, Holds, bits, bits-lt, held, held-lt, store_lem}

-- One round at byte `j`, from the two bytes of the frame.
module _ (frame : List ℕ) where
  abbrev pub byte_at : ℕ → ℕ
  byte_at j = mirror (gather (j % 8) (get_or frame (j + j / 8) 0) (get_or frame (j + j / 8 + 1) 0))

  abbrev pub parity_at : ℕ → ℕ
  parity_at j = parity (j % 8) (get_or frame (j + j / 8 + 1) 0)

  abbrev go_on : ℕ → ℕ → ℕ → List ℕ → List ℕ → Option (List ℕ × Option (List ℕ))
  go_on fuel j left rx rx_par = unwrap_loop frame fuel (j % 8) j (j / 8) left rx (some rx_par)

  next_state :
      (fuel j left : ℕ) (rx rx_par : List ℕ)
      → (if j % 8 == 7
          then unwrap_loop frame fuel 0 (j + 1) (j / 8 + 1) left rx (some rx_par)
          else unwrap_loop frame fuel (j % 8 + 1) (j + 1) (j / 8) left rx (some rx_par))
        ≡ go_on fuel (suc j) left rx rx_par
  next_state fuel j left rx rx_par = elim (dec_lt (j % 8) 7) [
    | yes h ↦
        let e : suc j % 8 ≡ j % 8 + 1 = omega arith in
        let at : suc j / 8 ≡ j / 8 = omega arith in
        let one : suc j ≡ j + 1 = omega arith in
        let inside : (j % 8 == 7) ≡ false = ground arith in rw (inside, e, at, one)
    | no h ↦
        let e : suc j % 8 ≡ 0 = omega arith in
        let at : suc j / 8 ≡ j / 8 + 1 = omega arith in
        let one : suc j ≡ j + 1 = omega arith in
        let border : (j % 8 == 7) ≡ true = ground arith in rw (border, e, at, one)
  ]

  unwrap_loop_round :
      (fuel j left : ℕ) (rx rx_par : List ℕ)
      → j < length rx
      → j < length rx_par
      → j + j / 8 + 1 < length frame
      → go_on (suc fuel) j left rx rx_par ≡ (
          if ltb left 9
          then some (set rx j (byte_at j), some (set rx_par j (parity_at j)))
          else go_on fuel (suc j) (left - 9) (set rx j (byte_at j)) (set rx_par j (parity_at j)))
  unfolding unwrap_loop
  unwrap_loop_round fuel j left rx rx_par a b c =
      let here : j / 8 + j ≡ j + j / 8 = omega arith in
      let there : j / 8 + (j + 1) ≡ j + j / 8 + 1 = omega arith in
      rw
        (
          here,
          there,
          get_elem?-eq-get_or frame (j + j / 8) 0 (omega arith),
          get_elem?-eq-get_or frame (j + j / 8 + 1) 0 c,
          store_lem rx j (byte_at j) a,
          store_lem rx_par j (parity_at j) b,
        )
        (ap
          (λ t.
            if ltb left 9
            then some (set rx j (byte_at j), some (set rx_par j (parity_at j)))
            else t)
          (next_state fuel j (left - 9) (set rx j (byte_at j)) (set rx_par j (parity_at j))))

get_or_of_some : (xs : List ℕ) (i v : ℕ) → get_elem? xs i ≡ some v → get_or xs i 0 ≡ v
get_or_of_some [] i v e = cc
get_or_of_some (x ∷ xs) zero v e = cc
get_or_of_some (x ∷ xs) (suc i) v e = get_or_of_some xs i v e

module _ (tx tx_par frame : List ℕ) (bytes : InRange tx) where
  -- The two bytes that hold byte `j` give it back, and its parity bit.
  values :
      (j : ℕ)
      → Holds tx tx_par frame j
      → (byte_at frame j ≡ get_or tx j 0) × (parity_at frame j ≡ get_or tx_par j 0 % 2)
  values j h =
      let p = j % 8 in
      let bt = bits tx tx_par j in
      let par = get_or tx_par j 0 in
      let lt : p < 8 = omega arith in
      let first =
        fill_sum p lt (held tx tx_par j) bt (held-lt tx tx_par j bytes)
          (bits-lt tx tx_par j bytes) in
      let s =
        separate p (held tx tx_par j) bt par h.behind lt (bits-lt tx tx_par j bytes) h.behind_lt in
      let e0 =
        ap mirror (get_or_of_some frame (j + j / 8) _ h.first)
        ∙ mirror-mirror (first_sum p (held tx tx_par j) bt) first.1 in
      let e1 =
        ap mirror (get_or_of_some frame (j + j / 8 + 1) _ h.second)
        ∙ mirror-mirror (second_sum p bt par h.behind) s.2 in
      (rw (e0, e1, s.0) (mirror-mirror (get_or tx j 0) (bytes j)), rw e1 s.1)

  -- The buffers hold the bytes and parity bits from `j` up to `end`, and are as they were before `j`.
  pub record Unwrapped (j end : ℕ) (rx rx_par out out_par : List ℕ) : Type 0 where
    pub before : (k : ℕ) → k < j → get_elem? out k ≡ get_elem? rx k
    pub before_par : (k : ℕ) → k < j → get_elem? out_par k ≡ get_elem? rx_par k
    pub data_back : (k : ℕ) → j ≤ k → k < end → get_elem? out k ≡ some (get_or tx k 0)
    pub parity_back : (k : ℕ) → j ≤ k → k < end → get_elem? out_par k ≡ some (get_or tx_par k 0 % 2)

  -- After the last round, which may be at the last byte or behind it.
  Unwrapped-last :
      (j end : ℕ) (rx rx_par : List ℕ)
      → end ≤ suc j
      → j < length rx
      → j < length rx_par
      → ((k : ℕ) → j ≤ k → k < end → Holds tx tx_par frame k)
      → Unwrapped j end rx rx_par (set rx j (byte_at frame j)) (set rx_par j (parity_at frame j))
  Unwrapped-last j end rx rx_par e a b holds = record {
    before = λ k h. get_elem?-set_ne rx j k _ (omega arith);
    before_par = λ k h. get_elem?-set_ne rx_par j k _ (omega arith);
    data_back = λ k lo hi.
        let same : j ≡ k = omega arith in
        subst (λ t. get_elem? (set rx j (byte_at frame j)) t ≡ some (get_or tx t 0)) same
          (get_elem?-set_self rx j _ a
            ∙ ap some (values j (holds j (omega arith) (omega arith))).0);
    parity_back = λ k lo hi.
        let same : j ≡ k = omega arith in
        subst (λ t. get_elem? (set rx_par j (parity_at frame j)) t ≡ some (get_or tx_par t 0 % 2))
          same
          (get_elem?-set_self rx_par j _ b
            ∙ ap some (values j (holds j (omega arith) (omega arith))).1);
  }

  -- Before a round after which the loop goes on.
  Unwrapped-more :
      (j end : ℕ) (rx rx_par out out_par : List ℕ)
      → j < length rx
      → j < length rx_par
      → Holds tx tx_par frame j
      → Unwrapped
          (suc j)
          end
          (set rx j (byte_at frame j))
          (set rx_par j (parity_at frame j))
          out
          out_par
      → Unwrapped j end rx rx_par out out_par
  Unwrapped-more j end rx rx_par out out_par a b holds u = record {
    before = λ k h. u.before k (omega arith) ∙ get_elem?-set_ne rx j k _ (omega arith);
    before_par = λ k h. u.before_par k (omega arith) ∙ get_elem?-set_ne rx_par j k _ (omega arith);
    data_back = λ k lo hi. elim (dec_lt j k) [
      | yes later ↦ u.data_back k later hi
      | no now ↦
          let same : j ≡ k = omega arith in
          subst (λ t. get_elem? out t ≡ some (get_or tx t 0)) same
            (u.before j (omega arith) ∙ get_elem?-set_self rx j _ a ∙ ap some (values j holds).0)
    ];
    parity_back = λ k lo hi. elim (dec_lt j k) [
      | yes later ↦ u.parity_back k later hi
      | no now ↦
          let same : j ≡ k = omega arith in
          subst (λ t. get_elem? out_par t ≡ some (get_or tx_par t 0 % 2)) same
            (u.before_par j (omega arith)
              ∙ get_elem?-set_self rx_par j _ b
              ∙ ap some (values j holds).1)
    ];
  }

  -- What the loop returns from byte `j` on.
  abbrev pub Returns : ℕ → ℕ → ℕ → ℕ → List ℕ → List ℕ → Type 0
  Returns fuel j end left rx rx_par =
      (out out_par : List ℕ) × (go_on frame fuel j left rx rx_par ≡ some (out, some out_par))
      × Unwrapped j end rx rx_par out out_par

  -- With fuel for `n + 1` rounds and room for as many bytes, of which all or all but one are in the
  -- frame, the loop comes to its end.
  pub unwrap_loop-Returns :
      (n fuel j end left : ℕ) (rx rx_par : List ℕ)
      → n < fuel
      → 9 * n ≤ left
      → left < 9 * n + 9
      → j + n ≤ end
      → end ≤ suc (j + n)
      → j + n < length rx
      → j + n < length rx_par
      → j + n + (j + n) / 8 + 1 < length frame
      → ((k : ℕ) → j ≤ k → k < end → Holds tx tx_par frame k)
      → Returns fuel j end left rx rx_par
  unwrap_loop-Returns n zero j end left rx rx_par f lo hi e0 e1 a b c holds = absurd (omega arith)
  unwrap_loop-Returns zero (suc fuel) j end left rx rx_par f lo hi e0 e1 a b c holds =
      let stop : ltb left 9 ≡ true = ground arith in
      let r =
        unwrap_loop_round frame fuel j left rx rx_par (omega arith) (omega arith) (omega arith) in
      (
        set rx j (byte_at frame j),
        set rx_par j (parity_at frame j),
        r ∙ rw stop refl,
        Unwrapped-last j end rx rx_par (omega arith) (omega arith) (omega arith) holds,
      )
  unwrap_loop-Returns (suc n) (suc fuel) j end left rx rx_par f lo hi e0 e1 a b c holds =
      let goes : ltb left 9 ≡ false = ground arith in
      let r =
        unwrap_loop_round frame fuel j left rx rx_par (omega arith) (omega arith) (omega arith) in
      let room = length-set rx j (byte_at frame j) in
      let room_par = length-set rx_par j (parity_at frame j) in
      let ih =
        unwrap_loop-Returns n fuel (suc j) end (left - 9) (set rx j (byte_at frame j))
          (set rx_par j (parity_at frame j)) (omega arith) (omega arith) (omega arith) (omega arith)
          (omega arith) (omega arith) (omega arith) (omega arith)
          (λ k p q. holds k (omega arith) q) in
      (
        ih.0,
        ih.1,
        r ∙ rw goes ih.2,
        Unwrapped-more j end rx rx_par ih.0 ih.1 (omega arith) (omega arith)
            (holds j (omega arith) (omega arith)) ih.3,
      )
