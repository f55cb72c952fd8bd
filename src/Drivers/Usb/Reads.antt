-- ===== src/Drivers/Usb/Reads.antt =====
-- Accesses inside of a buffer, and the content of a buffer after a transfer.
use libnfc.Prelude.{ℕ, zero, suc, ◌≤◌, ◌<◌, ◌≡◌, refl, arith, List, [], ◌∷◌, ◌++◌}
use libnfc.Prelude.{some, length, drop, get_elem?, length-append, length-drop}
use libnfc.Mirror.Laws.{AreBytes}
use libnfc.Pn53x.Device.{Device}
use libnfc.Pn53x.Monad.{M, ◌>>=◌}
use libnfc.Pn53x.Monad.Post.{Returns, Any}
use libnfc.Drivers.Usb.{fill, at}

get_elem?-inside : (xs : List ℕ) (i : ℕ) → i < length xs → (x : ℕ) × (get_elem? xs i ≡ some x)
get_elem?-inside [] i h = absurd (omega arith)
get_elem?-inside (x ∷ xs) zero h = (x, refl)
get_elem?-inside (x ∷ xs) (suc i) h = get_elem?-inside xs i (omega arith)

get_elem?-AreBytes : (xs : List ℕ) (i x : ℕ) → AreBytes xs → get_elem? xs i ≡ some x → x < 256
get_elem?-AreBytes [] i x bytes e = cc
get_elem?-AreBytes (y ∷ xs) zero x bytes e = ground arith
get_elem?-AreBytes (y ∷ xs) (suc i) x bytes e = get_elem?-AreBytes xs i x bytes.1 e

AreBytes-append : (xs ys : List ℕ) → AreBytes xs → AreBytes ys → AreBytes (xs ++ ys)
AreBytes-append [] ys h k = k
AreBytes-append (x ∷ xs) ys h k = (h.0, AreBytes-append xs ys h.1 k)

AreBytes-drop : (n : ℕ) (xs : List ℕ) → AreBytes xs → AreBytes (drop n xs)
AreBytes-drop zero xs h = h
AreBytes-drop (suc n) [] h = tt
AreBytes-drop (suc n) (x ∷ xs) h = AreBytes-drop n xs h.1

pub fill-AreBytes : (bytes mem : List ℕ) → AreBytes bytes → AreBytes mem → AreBytes (fill bytes mem)
fill-AreBytes bytes mem h k = AreBytes-append bytes _ h (AreBytes-drop (length bytes) mem k)

pub length-fill :
    (bytes mem : List ℕ) → length bytes ≤ length mem → length (fill bytes mem) ≡ length mem
length-fill bytes mem within =
    omega (arith, length-append bytes (drop (length bytes) mem), length-drop (length bytes) mem)

module _ {W : Type 0} (rx : List ℕ) where
  pub at-Returns :
      {A : Type 0} (i : ℕ) (f : ℕ → M W A) (d : Device W)
      → i < length rx
      → ((x : ℕ) → Returns Any (f x d))
      → Returns Any ((at rx i >>= f) d)
  at-Returns i f d inside next = let (x, e) = get_elem?-inside rx i inside in rw e (next x)

  -- The same, where the buffer holds bytes.
  pub at-Returns_byte :
      {A : Type 0} (i : ℕ) (f : ℕ → M W A) (d : Device W)
      → i < length rx
      → AreBytes rx
      → ((x : ℕ) → x < 256 → Returns Any (f x d))
      → Returns Any ((at rx i >>= f) d)
  at-Returns_byte i f d inside bytes next =
      let (x, e) = get_elem?-inside rx i inside in rw e (next x (get_elem?-AreBytes rx i x bytes e))
