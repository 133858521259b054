-- ===== src/Lsm/Bloom/Bits.antt =====
-- The bits of the bitmap of apps/lsm_tree/filter/bloom_filter.go.
use Prim.Native.Nat.{bit_and, bit_or}
use swifty_go.Prelude.{
  ℕ, suc, ◌+◌, ◌*◌, ◌/◌, ◌%◌, ◌^◌, ◌≡◌, ◌≢◌, ◌<◌, ◌⊎◌, inl, inr, refl, sym, ap, subst, ◌∙◌, arith,
  Bool, true, false, not, ◌&&◌, ◌||◌, Bool-cases, none, List, if◌then◌else◌, length, length-set,
  get_or, get_or-set_self, get_or-set_ne, ltb, ◌==◌, ==_iff, refused, accepted,
}
use swifty_go.Lsm.Bloom.{set_bit, has_bit}

-- bit a of a byte
abbrev byte_has : ℕ → ℕ → Bool
byte_has x a = if bit_and x (2 ^ a) == 0 then false else true

-- setting bit a of a byte gives a byte that has it, and has what the first one had
fits : ℕ → ℕ → ℕ → Bool
fits x a b =
    ltb (bit_or x (2 ^ a)) 256
    && byte_has (bit_or x (2 ^ a)) a
    && (not (byte_has x b) || byte_has (bit_or x (2 ^ a)) b)

-- the same of a byte and two of its bits in one number
fits_coded : ℕ → Bool
unfolding fits
fits_coded n = fits (n / 64) (n / 8 % 8) (n % 8)

every_fits : refused fits_coded 16384 ≡ none
unfolding refused fits_coded
every_fits = refl

decoded : (x a b : ℕ) → a < 8 → b < 8 → fits_coded (x * 64 + a * 8 + b) ≡ fits x a b
unfolding fits_coded
decoded x a b ha hb =
    let whole : (x * 64 + a * 8 + b) / 64 ≡ x = omega arith in
    let first : (x * 64 + a * 8 + b) / 8 % 8 ≡ a = omega arith in
    let second : (x * 64 + a * 8 + b) % 8 ≡ b = omega arith in rw (whole, first, second) refl

fits-means :
    (x a b : ℕ)
    → fits x a b ≡ true
    → (bit_or x (2 ^ a) < 256)
      × (byte_has (bit_or x (2 ^ a)) a ≡ true)
      × (byte_has x b ≡ true → byte_has (bit_or x (2 ^ a)) b ≡ true)
unfolding fits
fits-means x a b h = ground arith

set_in_byte :
    (x a b : ℕ)
    → x < 256
    → a < 8
    → b < 8
    → (bit_or x (2 ^ a) < 256)
      × (byte_has (bit_or x (2 ^ a)) a ≡ true)
      × (byte_has x b ≡ true → byte_has (bit_or x (2 ^ a)) b ≡ true)
set_in_byte x a b hx ha hb = fits-means x a b (
    sym (decoded x a b ha hb)
    ∙ accepted fits_coded 16384 (x * 64 + a * 8 + b) every_fits (omega arith))

-- the bytes of a bitmap of m bits, of which one more byte, the last, is k
pub record IsBitmap (m k : ℕ) (bits : List ℕ) : Type 0 where
  pub sized : length bits ≡ suc ((m + 7) / 8)
  pub bytes : (i : ℕ) → get_or bits i 0 < 256
  pub last : get_or bits ((m + 7) / 8) 0 ≡ k

byte-cases : (i j : ℕ) → (i ≡ j) ⊎ (i ≢ j)
byte-cases i j = elim (Bool-cases (i == j)) [
  | inl q ↦ inl ((==_iff i j).0 q)
  | inr q ↦ inr (λ e. cc (q, (==_iff i j).1 e))
]

module _ (m k : ℕ) (bits : List ℕ) (t : ℕ) (v : IsBitmap m k bits) (inside : t < m) where
  abbrev written : ℕ
  written = bit_or (get_or bits (t / 8) 0) (2 ^ (t % 8))

  here : get_or (set_bit bits t) (t / 8) 0 ≡ written
  unfolding set_bit
  here = get_or-set_self bits (t / 8) written 0 (omega (arith, v.sized))

  elsewhere : (i : ℕ) → t / 8 ≢ i → get_or (set_bit bits t) i 0 ≡ get_or bits i 0
  unfolding set_bit
  elsewhere i ne = get_or-set_ne bits (t / 8) i written 0 ne

  length-set_bit : length (set_bit bits t) ≡ suc ((m + 7) / 8)
  unfolding set_bit
  length-set_bit = length-set bits (t / 8) written ∙ v.sized

  pub set_bit-IsBitmap : IsBitmap m k (set_bit bits t)
  set_bit-IsBitmap = record {
    sized = length-set_bit;
    bytes = λ i. elim (byte-cases (t / 8) i) [
      | inl e ↦
          subst (λ j. get_or (set_bit bits t) j 0 < 256) e
            (omega (
              arith,
              here,
              (set_in_byte (get_or bits (t / 8) 0) (t % 8) 0 (v.bytes (t / 8)) (omega arith)
                  (omega arith)).0,
            ))
      | inr ne ↦ omega (arith, elsewhere i ne, v.bytes i)
    ];
    last = elsewhere ((m + 7) / 8) (λ e. omega (arith, e)) ∙ v.last;
  }

  -- the bit is set
  pub set_bit-has_bit : has_bit (set_bit bits t) t ≡ true
  unfolding has_bit
  set_bit-has_bit =
      ap (λ (x : ℕ). byte_has x (t % 8)) here
      ∙ (set_in_byte (get_or bits (t / 8) 0) (t % 8) 0 (v.bytes (t / 8)) (omega arith)
          (omega arith)).1

  -- and those that were set stay
  pub set_bit-keeps : (u : ℕ) → has_bit bits u ≡ true → has_bit (set_bit bits t) u ≡ true
  unfolding has_bit
  set_bit-keeps u h = elim (byte-cases (t / 8) (u / 8)) [
    | inl e ↦
        let was : byte_has (get_or bits (t / 8) 0) (u % 8) ≡ true =
          ap (λ (j : ℕ). byte_has (get_or bits j 0) (u % 8)) e ∙ h in
        ap (λ (j : ℕ). byte_has (get_or (set_bit bits t) j 0) (u % 8)) (sym e)
        ∙ ap (λ (x : ℕ). byte_has x (u % 8)) here
        ∙ (set_in_byte (get_or bits (t / 8) 0) (t % 8) (u % 8) (v.bytes (t / 8)) (omega arith)
              (omega arith)).2
            was
    | inr ne ↦ ap (λ (x : ℕ). byte_has x (u % 8)) (elsewhere (u / 8) ne) ∙ h
  ]
