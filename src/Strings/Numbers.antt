-- ===== src/Strings/Numbers.antt =====
-- `strtol` reads what `printnum` puts.
use sistemas_operativos.Prelude.{
  ℕ, zero, suc, ◌+◌, ◌-◌, ◌*◌, ◌/◌, ◌%◌, ◌^◌, ◌≤◌, ◌<◌, ◌≡◌, ◌≢◌, refl, sym, ap, ◌∙◌, arith, leb,
  ◌==◌, ≢→==, Bool, true, false, Bool-cases, ◌&&◌, inl, inr, Option, some, ◌>>=◌, List, [], ◌∷◌,
  ◌++◌, map, replicate, pos,
}
use native.Mathlib.Nat.{mod-lt, mod-eq_of_lt, div-add-mod', div-lt_iff_lt-mul, mul-le-mul_left}
use sistemas_operativos.Strings.{
  skip_blanks, digit_value, take_digits, starts_hex, base_prefix, unsigned_number, signed_number,
  strtol, digit_char, printnum_from, printnum,
}

-- the number that digits stand for, behind the value `v`
unfoldable pub value_of : ℕ → ℕ → List ℕ → ℕ
value_of base v [] = v
value_of base v (d ∷ ds) = value_of base (v * base + d) ds

value_of-append :
    (base v d : ℕ) (ds : List ℕ) → value_of base v (ds ++ (d ∷ [])) ≡ value_of base v ds * base + d
unfolding value_of
value_of-append base v d [] = refl
value_of-append base v d (e ∷ ds) = value_of-append base (v * base + e) d ds

-- all digits are below the base
Digits : ℕ → List ℕ → Type 0
Digits base [] = Unit {0}
Digits base (d ∷ ds) = (d < base) × Digits base ds

Digits-append :
    (base d : ℕ) (ds : List ℕ) → Digits base ds → d < base → Digits base (ds ++ (d ∷ []))
unfolding Digits
Digits-append base d [] h b = (b, tt)
Digits-append base d (e ∷ ds) h b = (h.0, Digits-append base d ds h.1 b)

digit_value-digit_char : (d : ℕ) → d < 16 → digit_value (digit_char d) ≡ some d
unfolding digit_value digit_char
digit_value-digit_char d h = ground arith

-- none of the other characters that `strtol` looks for
plain :
    (d : ℕ)
    → d < 16
    → (digit_char d ≢ b' ')
      × (digit_char d ≢ 9)
      × (digit_char d ≢ b'+')
      × (digit_char d ≢ b'-')
      × (digit_char d ≢ b'x')
unfolding digit_char
plain d h = (ground arith, ground arith, ground arith, ground arith, ground arith)

module _ (base : ℕ) (small : base ≤ 16) where
  take_digits-map :
      (v : ℕ) (ds : List ℕ)
      → Digits base ds
      → take_digits base v (map digit_char ds) ≡ (value_of base v ds, [])
  unfolding take_digits value_of Digits
  take_digits-map v [] h = refl
  take_digits-map v (d ∷ ds) h =
      rw (take_digits, digit_value-digit_char d (omega (arith, h.0)), below d h.0)
        (take_digits-map (v * base + d) ds h.1)
    where
      below : (d : ℕ) → d < base → leb base d ≡ false
      below d h = ground arith

-- The digits of a number behind blanks: what `printnum` puts when it pads with blanks.
record Printed (base num : ℕ) (s : List ℕ) : Type 0 where
  blanks : ℕ
  others : List ℕ
  first : ℕ
  shape : s ≡ replicate blanks b' ' ++ map digit_char (first ∷ others)
  good : Digits base (first ∷ others)
  valued : value_of base 0 (first ∷ others) ≡ num

++_assoc : {A : Type 0} (xs ys zs : List A) → (xs ++ ys) ++ zs ≡ xs ++ (ys ++ zs)
++_assoc [] ys zs = refl
++_assoc (x ∷ xs) ys zs = ap (λ l. x ∷ l) (++_assoc xs ys zs)

map-append : (f : ℕ → ℕ) (xs ys : List ℕ) → map f (xs ++ ys) ≡ map f xs ++ map f ys
map-append f [] ys = refl
map-append f (x ∷ xs) ys = ap (λ l. f x ∷ l) (map-append f xs ys)

zero_times : (base d : ℕ) → 0 * base + d ≡ d
zero_times base d = omega arith

module _ (base num : ℕ) (large : 2 ≤ base) where
  last_digit : num % base < base
  last_digit = mod-lt num (omega arith)

  first-Printed :
      (k : ℕ)
      → leb base num ≡ false
      → Printed base num (replicate k b' ' ++ (digit_char (num % base) ∷ []))
  unfolding Digits value_of
  first-Printed k e = record {
    blanks = k;
    others = [];
    first = num % base;
    shape = refl;
    good = (last_digit, tt);
    valued = zero_times base (num % base) ∙ mod-eq_of_lt less;
  }
    where
      less : num < base
      less = ground arith

  next-Printed :
      (s : List ℕ)
      → Printed base (num / base) s
      → Printed base num (s ++ (digit_char (num % base) ∷ []))
  next-Printed s h = record {
    blanks = h.blanks;
    others = h.others ++ (num % base ∷ []);
    first = h.first;
    shape =
        ap (λ l. l ++ (digit_char (num % base) ∷ [])) h.shape
        ∙ ++_assoc (replicate h.blanks b' ') (map digit_char (h.first ∷ h.others)) _
        ∙ ap (λ l. replicate h.blanks b' ' ++ l)
            (sym (map-append digit_char (h.first ∷ h.others) (num % base ∷ [])));
    good = Digits-append base (num % base) (h.first ∷ h.others) h.good last_digit;
    valued =
        value_of-append base 0 (num % base) (h.first ∷ h.others)
        ∙ ap (λ q. q * base + num % base) h.valued
        ∙ div-add-mod' num base;
  }

quotient_fits : (base num p : ℕ) → 2 ≤ base → num < p * 2 → num / base < p
quotient_fits base num p large h =
    (div-lt_iff_lt-mul (omega arith)).1 (lt-le (p * 2) (p * base) h (mul-le-mul_left p large))
  where
    lt-le : (a b : ℕ) → num < a → a ≤ b → num < b
    lt-le a b u v = omega arith

-- The result of `printnum`, if it has one.
data Puts (base num : ℕ) : Option (List ℕ) → Type 0 where
  puts : {s : List ℕ} → Printed base num s → Puts base num (some s)

module _ (base : ℕ) (large : 2 ≤ base) where
  put_last :
      (num : ℕ) (r : Option (List ℕ))
      → Puts base (num / base) r
      → Puts base num (r >>= λ s. some (s ++ (digit_char (num % base) ∷ [])))
  put_last num _ (puts h) = puts (next-Printed base num large _ h)

  -- With fuel for as many digits as the number has in base 2, there is a result.
  printnum_from-Puts :
      (fuel num width : ℕ)
      → num < 2 ^ suc fuel
      → Puts base num (printnum_from (suc fuel) num base width b' ')
  unfolding printnum_from
  printnum_from-Puts zero num width h =
      rw (small num h) (puts (first-Printed base num large _ (small num h)))
    where
      small : (num : ℕ) → num < 2 → leb base num ≡ false
      small num h = ground arith
  printnum_from-Puts (suc fuel) num width h = elim (Bool-cases (leb base num)) [
    | inl e ↦ rw e (
        put_last num _ (
          printnum_from-Puts fuel (num / base) (width - 1)
            (quotient_fits base num (2 ^ suc fuel) large (omega arith))))
    | inr e ↦ rw e (puts (first-Printed base num large _ e))
  ]

-- what `strtol` does in front of the digits
skip_blanks-replicate : (k : ℕ) (s : List ℕ) → skip_blanks (replicate k b' ' ++ s) ≡ skip_blanks s
unfolding skip_blanks
skip_blanks-replicate zero s = refl
skip_blanks-replicate (suc k) s = skip_blanks-replicate k s

and_false : (b : Bool) → (b && false) ≡ false
and_false true = refl
and_false false = refl

-- Behind a first byte, the next one is no 'x'.
no_hex :
    (base c : ℕ) (ds : List ℕ)
    → base ≤ 16
    → Digits base ds
    → starts_hex (c ∷ map digit_char ds) ≡ false
unfolding starts_hex Digits
no_hex base c [] small h = refl
no_hex base c (d ∷ ds) small h =
    rw (≢→== (digit_char d) b'x' (plain d (omega (arith, h.0))).4) (and_false (c == b'0'))

module _ (base : ℕ) (large : 2 ≤ base) (small : base ≤ 16) (f : ℕ) (ds : List ℕ)
    (good : Digits base (f ∷ ds)) where
  first_plain :
      (digit_char f ≢ b' ')
      × (digit_char f ≢ 9)
      × (digit_char f ≢ b'+')
      × (digit_char f ≢ b'-')
      × (digit_char f ≢ b'x')
  unfolding Digits
  first_plain = plain f (omega (arith, good.0))

  no_blanks : skip_blanks (map digit_char (f ∷ ds)) ≡ map digit_char (f ∷ ds)
  unfolding skip_blanks
  no_blanks = rw (≢→== (digit_char f) b' ' first_plain.0, ≢→== (digit_char f) 9 first_plain.1) refl

  no_prefix : base_prefix base (map digit_char (f ∷ ds)) ≡ (base, map digit_char (f ∷ ds))
  unfolding base_prefix Digits
  no_prefix =
      rw
        (
          ≢→== base 0 (not_zero large),
          no_hex base (digit_char f) ds small (rest good),
          and_false (base == 16),
        )
        refl
    where
      not_zero : 2 ≤ base → base ≢ 0
      not_zero h e = omega arith

      rest : Digits base (f ∷ ds) → Digits base ds
      rest h = h.1

  read_digits : signed_number base (map digit_char (f ∷ ds)) ≡ (pos (value_of base 0 (f ∷ ds)), [])
  unfolding signed_number unsigned_number
  read_digits =
      rw
        (
          ≢→== (digit_char f) b'+' first_plain.2,
          ≢→== (digit_char f) b'-' first_plain.3,
          no_prefix,
          take_digits-map base small 0 (f ∷ ds) good,
        )
        refl

-- What `printnum` puts for the number `num`, if it has a result that `strtol` reads as `num` to its end.
pub data ReadBack (base num : ℕ) : Option (List ℕ) → Type 0 where
  read_back : {s : List ℕ} → strtol s base ≡ (pos num, []) → ReadBack base num (some s)

strtol-Printed :
    (base num : ℕ) (s : List ℕ)
    → 2 ≤ base
    → base ≤ 16
    → Printed base num s
    → strtol s base ≡ (pos num, [])
unfolding strtol
strtol-Printed base num s large small h =
    ap (λ x. signed_number base (skip_blanks x)) h.shape
    ∙ ap (signed_number base) (
        skip_blanks-replicate h.blanks (map digit_char (h.first ∷ h.others))
        ∙ no_blanks base large small h.first h.others h.good)
    ∙ read_digits base large small h.first h.others h.good
    ∙ ap (λ n. (pos n, [])) h.valued

-- For a base from 2 to 16 and a number below 2^31, which a `long` holds, `printnum` padding with blanks
-- to any width has a result, and `strtol` in that base reads it to its end as the number.
pub strtol-printnum :
    (base num width : ℕ)
    → 2 ≤ base
    → base ≤ 16
    → num < 2 ^ 31
    → ReadBack base num (printnum num base width b' ')
unfolding printnum
strtol-printnum base num width large small h =
    from _ (printnum_from-Puts base large 63 num width (omega arith))
  where
    from : (r : Option (List ℕ)) → Puts base num r → ReadBack base num r
    from _ (puts p) = read_back (strtol-Printed base num _ large small p)
