-- ===== src/Pn53x/Framing/Wrap.antt =====
-- The frame that `pn53x_wrap_frame` leaves, byte of data by byte of data.
use libnfc.Prelude.{ℕ, zero, suc, ◌+◌, ◌-◌, ◌*◌, ◌/◌, ◌%◌, ◌^◌, ◌≤◌, ◌<◌, ◌≡◌, refl, arith, ap, ◌∙◌}
use libnfc.Prelude.{
  Option, some, List, true, false, ltb, lt→ltb, ◌==◌, if◌then◌else◌, length, get_elem?,
}
use libnfc.Prelude.{
  get_or, set, length-set, get_elem?-set_self, get_elem?-set_ne, get_elem?-eq-get_or,
}
use native.Mathlib.Decide.{dec_lt}
use native.Mathlib.Nat.{one-le-pow}
use mathlib.Core.Path.{subst}
use libnfc.Mirror.{mirror}
use libnfc.Mirror.Laws.{mirror-lt}
use libnfc.Pn53x.Framing.{store, wrap_loop}
use libnfc.Pn53x.Framing.Arith.{behind_fits, fill_sum, remain_sum, waiting, first_sum, second_sum}

-- The bytes of a list are in range (outside of it there are zeros).
abbrev pub InRange : List ℕ → Type 0
InRange xs = (k : ℕ) → get_or xs k 0 < 256

pub store_lem : (buf : List ℕ) (i v : ℕ) → i < length buf → store buf i v ≡ some (set buf i v)
store_lem buf i v h = rw (lt→ltb i (length buf) h)

module _ (tx tx_par : List ℕ) where
  -- The mirrored byte `j`, the bits that wait behind it, and those that wait before it.
  abbrev pub bits : ℕ → ℕ
  bits j = mirror (get_or tx j 0)

  pub wait : ℕ → ℕ
  wait j = waiting (j % 8) (bits j) (get_or tx_par j 0)

  pub held : ℕ → ℕ
  held j = if j % 8 == 0 then 0 else wait (j - 1)

  -- The two bytes of the frame that hold byte `j`: eight bytes of data take nine of the frame.
  pub record Holds (frame : List ℕ) (j : ℕ) : Type 0 where
    pub behind : ℕ
    pub behind_lt : behind < 2 ^ (7 - j % 8)
    pub first : get_elem? frame (j + j / 8) ≡ some (mirror (first_sum (j % 8) (held j) (bits j)))
    pub second :
        get_elem? frame (j + j / 8 + 1)
        ≡ some (mirror (second_sum (j % 8) (bits j) (get_or tx_par j 0) behind))

  -- The frame after the two writes of one round.
  abbrev written : List ℕ → ℕ → List ℕ
  written frame j =
      set (set frame (j + j / 8) (mirror (first_sum (j % 8) (held j) (bits j)))) (j + j / 8 + 1)
        (mirror (wait j * 2 ^ (7 - j % 8)))

  pub held_group : (j : ℕ) → j % 8 ≡ 0 → held j ≡ 0
  unfolding held
  held_group j e = rw e refl

  held-suc : (j : ℕ) → j % 8 < 7 → held (suc j) ≡ wait j
  unfolding held
  held-suc j h =
      let other : (suc j % 8 == 0) ≡ false = ground arith in
      let back : suc j - 1 ≡ j = omega arith in rw (other, back)

  pub bits-lt : (j : ℕ) → InRange tx → bits j < 256
  bits-lt j bytes = mirror-lt (get_or tx j 0) (bytes j)

  wait-lt : (j : ℕ) → InRange tx → wait j < 2 ^ (j % 8 + 1)
  unfolding wait
  wait-lt j bytes =
      (remain_sum (j % 8) (omega arith) (bits j) (get_or tx_par j 0) (bits-lt j bytes)).1

  pub held-lt : (j : ℕ) → InRange tx → held j < 2 ^ (j % 8)
  held-lt zero bytes = rw (held_group 0 refl) (omega arith)
  held-lt (suc j) bytes = elim (dec_lt (j % 8) 7) [
    | yes h ↦ let e : suc j % 8 ≡ j % 8 + 1 = omega arith in rw (held-suc j h, e) (wait-lt j bytes)
    | no h ↦ let e : suc j % 8 ≡ 0 = omega arith in rw (held_group (suc j) e, e) (omega arith)
  ]

  -- The state in which the loop goes on.
  abbrev go_on : ℕ → ℕ → ℕ → List ℕ → Option (List ℕ)
  go_on fuel j left frame =
      wrap_loop tx tx_par fuel (j % 8) j (j + j / 8) left (held j * 2 ^ (8 - j % 8)) frame

  next_state :
      (fuel j left : ℕ) (frame : List ℕ)
      → (if j % 8 == 7
          then wrap_loop tx tx_par fuel 0 (j + 1) (j + j / 8 + 2) left 0 frame
          else wrap_loop tx tx_par fuel
              (j % 8 + 1)
              (j + 1)
              (j + j / 8 + 1)
              left
              (wait j * 2 ^ (7 - j % 8))
              frame)
        ≡ go_on fuel (suc j) left frame
  next_state fuel j left frame = elim (dec_lt (j % 8) 7) [
    | yes h ↦
        let e : suc j % 8 ≡ j % 8 + 1 = omega arith in
        let at : suc j + suc j / 8 ≡ j + j / 8 + 1 = omega arith in
        let one : suc j ≡ j + 1 = omega arith in
        let place : 8 - (j % 8 + 1) ≡ 7 - j % 8 = omega arith in
        let inside : (j % 8 == 7) ≡ false = ground arith in
        rw (inside, held-suc j h, e, at, place, one)
    | no h ↦
        let e : suc j % 8 ≡ 0 = omega arith in
        let at : suc j + suc j / 8 ≡ j + j / 8 + 2 = omega arith in
        let one : suc j ≡ j + 1 = omega arith in
        let border : (j % 8 == 7) ≡ true = ground arith in
        rw (border, held_group (suc j) e, e, at, one)
  ]

  -- One round: either the last one, or the loop goes on at the next byte.
  wrap_loop_round :
      (fuel j left : ℕ) (frame : List ℕ)
      → InRange tx
      → j < length tx
      → j < length tx_par
      → j + j / 8 + 1 < length frame
      → wrap_loop tx tx_par (suc fuel) (j % 8) j (j + j / 8) left (held j * 2 ^ (8 - j % 8)) frame
        ≡ (if ltb left 9
            then some (written frame j)
            else wrap_loop tx tx_par fuel
                (suc j % 8)
                (suc j)
                (suc j + suc j / 8)
                (left - 8)
                (held (suc j) * 2 ^ (8 - suc j % 8))
                (written frame j))
  unfolding wrap_loop wait
  wrap_loop_round fuel j left frame bytes a b c =
      let full =
        fill_sum (j % 8) (omega arith) (held j) (bits j) (held-lt j bytes) (bits-lt j bytes) in
      let rest = remain_sum (j % 8) (omega arith) (bits j) (get_or tx_par j 0) (bits-lt j bytes) in
      let v = mirror (first_sum (j % 8) (held j) (bits j)) in
      let w = mirror (wait j * 2 ^ (7 - j % 8)) in
      let room = length-set frame (j + j / 8) v in
      rw
        (
          get_elem?-eq-get_or tx j 0 a,
          full.0,
          store_lem frame (j + j / 8) v (omega arith),
          get_elem?-eq-get_or tx_par j 0 b,
          rest.0,
          store_lem (set frame (j + j / 8) v) (j + j / 8 + 1) w (omega arith),
        )
        (ap (λ t. if ltb left 9 then some (written frame j) else t)
          (next_state fuel j (left - 8) (written frame j)))

  -- A frame that holds the bytes from `j` up to `end`, and is `old` before the place of `j`.
  pub record Wrapped (j end : ℕ) (old frame : List ℕ) : Type 0 where
    pub same_length : length frame ≡ length old
    pub before : (k : ℕ) → k < j + j / 8 → get_elem? frame k ≡ get_elem? old k
    pub holds : (k : ℕ) → j ≤ k → k < end → Holds frame k

  written-second :
      (frame : List ℕ) (j : ℕ)
      → j + j / 8 + 1 < length frame
      → get_elem? (written frame j) (j + j / 8 + 1) ≡ some (mirror (wait j * 2 ^ (7 - j % 8)))
  written-second frame j h =
      get_elem?-set_self (set frame (j + j / 8) _) (j + j / 8 + 1) _ (rw length-set h)

  written-first :
      (frame : List ℕ) (j : ℕ)
      → j + j / 8 + 1 < length frame
      → get_elem? (written frame j) (j + j / 8)
        ≡ some (mirror (first_sum (j % 8) (held j) (bits j)))
  written-first frame j h =
      get_elem?-set_ne (set frame (j + j / 8) _) (j + j / 8 + 1) (j + j / 8) _ (omega arith)
      ∙ get_elem?-set_self frame (j + j / 8) _ (omega arith)

  written-before :
      (frame : List ℕ) (j k : ℕ) → k < j + j / 8 → get_elem? (written frame j) k ≡ get_elem? frame k
  written-before frame j k h =
      get_elem?-set_ne (set frame (j + j / 8) _) (j + j / 8 + 1) k _ (omega arith)
      ∙ get_elem?-set_ne frame (j + j / 8) k _ (omega arith)

  length-written : (frame : List ℕ) (j : ℕ) → length (written frame j) ≡ length frame
  length-written frame j =
      length-set (set frame (j + j / 8) _) (j + j / 8 + 1) _ ∙ length-set frame (j + j / 8) _

  -- A byte of data with nothing behind it yet.
  Holds-last :
      (frame : List ℕ) (j : ℕ)
      → get_elem? frame (j + j / 8) ≡ some (mirror (first_sum (j % 8) (held j) (bits j)))
      → get_elem? frame (j + j / 8 + 1) ≡ some (mirror (wait j * 2 ^ (7 - j % 8)))
      → Holds frame j
  unfolding wait
  Holds-last frame j a b = record {
    behind = 0;
    behind_lt = one-le-pow (7 - j % 8) 2 (omega arith);
    first = a;
    second = b ∙ ap (λ t. some (mirror t)) (omega arith);
  }

  -- A byte of data with the next one behind it.
  Holds-next :
      (frame : List ℕ) (j : ℕ)
      → InRange tx
      → j % 8 < 7
      → get_elem? frame (j + j / 8) ≡ some (mirror (first_sum (j % 8) (held j) (bits j)))
      → Holds frame (suc j)
      → Holds frame j
  unfolding wait
  Holds-next frame j bytes h a next =
      let e : suc j % 8 ≡ j % 8 + 1 = omega arith in
      let at : suc j + suc j / 8 ≡ j + j / 8 + 1 = omega arith in
      let place : 8 - (j % 8 + 1) ≡ 7 - j % 8 = omega arith in
      record {
        behind = bits (suc j) / 2 ^ (j % 8 + 1);
        behind_lt = behind_fits (j % 8) (omega arith) (bits (suc j)) (bits-lt (suc j) bytes);
        first = a;
        second = rw (at, e, held-suc j h, place) at next.first;
      }

  -- After the last round.
  Wrapped-last :
      (frame : List ℕ) (j : ℕ)
      → j + j / 8 + 1 < length frame
      → Wrapped j (suc j) frame (written frame j)
  Wrapped-last frame j h = record {
    same_length = length-written frame j;
    before = λ k lt. written-before frame j k lt;
    holds = λ k lo hi.
        let e : j ≡ k = omega arith in
        subst (Holds (written frame j)) e
          (Holds-last (written frame j) j (written-first frame j h) (written-second frame j h));
  }

  -- Before a round after which the loop goes on.
  Wrapped-more :
      (old frame : List ℕ) (j end : ℕ)
      → InRange tx
      → j + j / 8 + 1 < length old
      → suc j < end
      → Wrapped (suc j) end (written old j) frame
      → Wrapped j end old frame
  Wrapped-more old frame j end bytes h lt w = record {
    same_length = w.same_length ∙ length-written old j;
    before = λ k lt. w.before k (omega arith) ∙ written-before old j k lt;
    holds = λ k lo hi. elim (dec_lt j k) [
      | yes later ↦ w.holds k later hi
      | no now ↦ let e : j ≡ k = omega arith in subst (Holds frame) e this
    ];
  }
    where
      first : get_elem? frame (j + j / 8) ≡ some (mirror (first_sum (j % 8) (held j) (bits j)))
      first = w.before (j + j / 8) (omega arith) ∙ written-first old j h

      this : Holds frame j
      this = elim (dec_lt (j % 8) 7) [
        | yes inside ↦ Holds-next frame j bytes inside first (w.holds (suc j) (omega arith) lt)
        | no border ↦
            Holds-last frame j first
              (w.before (j + j / 8 + 1) (omega arith) ∙ written-second old j h)
      ]

  -- With fuel for the bytes of data that `left` bits make, and buffers that hold them, the loop
  -- comes to its end.
  pub wrap_loop-Wrapped :
      (n fuel j left : ℕ) (frame : List ℕ)
      → InRange tx
      → n < fuel
      → 8 * n < left
      → left ≤ 8 * n + 8
      → j + n < length tx
      → j + n < length tx_par
      → j + n + (j + n) / 8 + 1 < length frame
      → (out : List ℕ) × (go_on fuel j left frame ≡ some out) × Wrapped j (suc (j + n)) frame out
  wrap_loop-Wrapped n zero j left frame bytes f lo hi a b c = absurd (omega arith)
  wrap_loop-Wrapped zero (suc fuel) j left frame bytes f lo hi a b c =
      let stop : ltb left 9 ≡ true = ground arith in
      let e : suc (j + 0) ≡ suc j = omega arith in
      let r = wrap_loop_round fuel j left frame bytes (omega arith) (omega arith) (omega arith) in
      (written frame j, r ∙ rw stop refl, rw e (Wrapped-last frame j (omega arith)))
  wrap_loop-Wrapped (suc n) (suc fuel) j left frame bytes f lo hi a b c =
      let goes : ltb left 9 ≡ false = ground arith in
      let e : suc (suc j + n) ≡ suc (j + suc n) = omega arith in
      let room : length (written frame j) ≡ length frame = length-written frame j in
      let r = wrap_loop_round fuel j left frame bytes (omega arith) (omega arith) (omega arith) in
      let ih =
        wrap_loop-Wrapped n fuel (suc j) (left - 8) (written frame j) bytes (omega arith)
          (omega arith) (omega arith) (omega arith) (omega arith) (omega arith) in
      (
        ih.0,
        r ∙ rw goes ih.1,
        Wrapped-more frame ih.0 j (suc (j + suc n)) bytes (omega arith) (omega arith)
            (rw e at ih.2),
      )
