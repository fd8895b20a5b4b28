-- ===== src/NumberText/Read.antt =====
-- What `yf_sprintf_num` writes, read again.
use yifei.Prelude.{
  ℕ, zero, suc, ◌+◌, ◌-◌, ◌*◌, ◌/◌, ◌%◌, ◌^◌, ◌≤◌, ◌<◌, ◌≡◌, refl, sym, ap, ◌∙◌, subst, arith,
  false, List, [], ◌∷◌, ◌++◌, ltb, leb, ◌==◌, if◌then◌else◌, length, take, min, Bool-cases, inl,
  inr, ltb→ge, ge→ltb, ==→eq, length-append, length-take, take-of_length_le,
}
use native.Mathlib.Nat.{div-add-mod', mod-lt, pow-zero, pow-suc, div-lt_iff_lt-mul, pow-le-pow_left}
use yifei.NumberText.{
  int64_len, hex_char, digit_char, base_of, put_digits, pad, padded_copy, sprintf_num,
}

-- The digit of a character.
abbrev pub value : ℕ → ℕ
value c = if leb 97 c then c - 87 else if leb 65 c then c - 55 else c - 48

-- The number that the characters stand for, behind those of the number `n`.
abbrev pub read : (base n : ℕ) → List ℕ → ℕ
read base n [] = n
read base n (c ∷ cs) = read base (n * base + value c) cs

value-hex_char_lower : (digit : ℕ) → digit < 16 → value (hex_char 97 digit) ≡ digit
unfolding hex_char
value-hex_char_lower digit l = ground (arith)

value-hex_char_upper : (digit : ℕ) → digit < 16 → value (hex_char 65 digit) ≡ digit
unfolding hex_char
value-hex_char_upper digit l = ground (arith)

value-decimal : (digit : ℕ) → digit < 10 → value (digit + 48) ≡ digit
value-decimal digit l = ground (arith)

value-digit_char :
    (hexadecimal digit : ℕ)
    → digit < base_of hexadecimal
    → value (digit_char hexadecimal digit) ≡ digit
unfolding digit_char
value-digit_char hexadecimal digit l = elim (Bool-cases (hexadecimal == 0)) [
  | inl z ↦ rw z (value-decimal digit (subst (λ b. digit < (if b then 10 else 16)) z l))
  | inr n ↦
      let h : digit < 16 = subst (λ b. digit < (if b then 10 else 16)) n l in
      rw n (elim (Bool-cases (hexadecimal == 1)) [
        | inl o ↦ rw o (value-hex_char_lower digit h)
        | inr m ↦ rw m (value-hex_char_upper digit h)
      ])
]

base_of-bounds : (hexadecimal : ℕ) → (10 ≤ base_of hexadecimal) × (base_of hexadecimal ≤ 16)
base_of-bounds hexadecimal = elim (Bool-cases (hexadecimal == 0)) [
  | inl z ↦ rw z (omega arith, omega arith)
  | inr n ↦ rw n (omega arith, omega arith)
]

quotient_zero : (n b : ℕ) → n / b ≡ 0 → 0 * b + n % b ≡ n
quotient_zero n b z = ap (λ q. q * b + n % b) (sym z) ∙ div-add-mod' n b

-- The digits of a number, read in front of other characters.
read-put_digits :
    (fuel hexadecimal n : ℕ) (temp : List ℕ)
    → n < base_of hexadecimal ^ fuel
    → read (base_of hexadecimal) 0 (put_digits fuel hexadecimal n temp)
      ≡ read (base_of hexadecimal) n temp
unfolding put_digits
read-put_digits zero hexadecimal n temp l =
    ap (λ k. read (base_of hexadecimal) k temp) (omega (arith, pow-zero (base_of hexadecimal)))
read-put_digits (suc fuel) hexadecimal n temp l =
    let b = base_of hexadecimal in
    let (ten, _) = base_of-bounds hexadecimal in
    let whole : n / b * b + n % b ≡ n = div-add-mod' n b in
    let digit : value (digit_char hexadecimal (n % b)) ≡ n % b =
      value-digit_char hexadecimal (n % b) (mod-lt n (omega (arith, ten))) in
    elim (Bool-cases (n / b == 0)) [
      | inl z ↦ rw z (
          ap (λ k. read b k temp)
            (ap (λ k. 0 * b + k) digit ∙ quotient_zero n b (==→eq (n / b) 0 z)))
      | inr m ↦ rw m (
          read-put_digits fuel hexadecimal (n / b) (digit_char hexadecimal (n % b) ∷ temp)
            ((div-lt_iff_lt-mul (omega (arith, ten))).1 (subst (λ k. n < k) (pow-suc b fuel) l))
          ∙ ap (λ k. read b k temp) (ap (λ k. n / b * b + k) digit ∙ whole))
    ]

length-put_digits :
    (fuel hexadecimal n : ℕ) (temp : List ℕ)
    → length (put_digits fuel hexadecimal n temp) ≤ fuel + length temp
unfolding put_digits
length-put_digits zero hexadecimal n temp = omega arith
length-put_digits (suc fuel) hexadecimal n temp =
    let c = digit_char hexadecimal (n % base_of hexadecimal) in
    elim (Bool-cases (n / base_of hexadecimal == 0)) [
      | inl z ↦ rw z (omega arith)
      | inr m ↦
          rw m
            (omega (arith, length-put_digits fuel hexadecimal (n / base_of hexadecimal) (c ∷ temp)))
    ]

length-pad : (c n room : ℕ) → length (pad c n room) ≡ min n room
unfolding pad
length-pad c zero room = omega arith
length-pad c (suc n) zero = omega arith
length-pad c (suc n) (suc room) = omega (arith, length-pad c n room)

-- Zeros in front change nothing.
read-pad : (base n room : ℕ) (cs : List ℕ) → read base 0 (pad 48 n room ++ cs) ≡ read base 0 cs
unfolding pad
read-pad base zero room cs = refl
read-pad base (suc n) zero cs = refl
read-pad base (suc n) (suc room) cs =
    ap (λ k. read base k (pad 48 n room ++ cs)) (omega arith) ∙ read-pad base n room cs

length-padded_copy :
    (room c width : ℕ) (temp : List ℕ) → length (padded_copy room c width temp) ≤ room
unfolding padded_copy
length-padded_copy room c width temp =
    let padding = pad c (width - length temp) room in
    let n =
      if ltb (room - length padding) (length temp) then room - length padding else length temp in
    let short : n ≤ room - length padding =
      elim (Bool-cases (ltb (room - length padding) (length temp))) [
        | inl lt ↦ rw lt (omega arith)
        | inr ge ↦ rw ge (ltb→ge (room - length padding) (length temp) ge)
      ] in
    omega (
      arith,
      length-append padding (take n temp),
      length-take n temp,
      length-pad c (width - length temp) room,
      short,
    )

-- With room for the digits and for the width all of it is written.
padded_copy_whole :
    (room c width : ℕ) (temp : List ℕ)
    → length temp ≤ room
    → width ≤ room
    → padded_copy room c width temp ≡ pad c (width - length temp) room ++ temp
unfolding padded_copy
padded_copy_whole room c width temp h k =
    let padding = pad c (width - length temp) room in
    let fits : ltb (room - length padding) (length temp) ≡ false =
      ge→ltb (room - length padding) (length temp)
        (omega (arith, length-pad c (width - length temp) room)) in
    rw fits (ap (λ q. padding ++ q) (take-of_length_le (length temp) temp (omega arith)))

-- For every number, padding, base and width, `yf_sprintf_num` writes no more characters than
-- there is room for.
length-sprintf_num :
    (room ui64 zero_char hexadecimal width : ℕ)
    → length (sprintf_num room ui64 zero_char hexadecimal width) ≤ room
unfolding sprintf_num
length-sprintf_num room ui64 zero_char hexadecimal width =
    length-padded_copy room zero_char width (put_digits int64_len hexadecimal ui64 [])

digits_enough : (hexadecimal n : ℕ) → n < 2 ^ 64 → n < base_of hexadecimal ^ int64_len
digits_enough hexadecimal n l =
    let above = pow-le-pow_left (base_of-bounds hexadecimal).0 20 in omega (arith, above)

-- For a number below 2^64, in decimal or hexadecimal, and room for 20 characters and for the
-- width, what `yf_sprintf_num` writes with zeros as padding is as wide as asked for and reads as
-- the number again.
pub read-sprintf_num :
    (room ui64 hexadecimal width : ℕ)
    → ui64 < 2 ^ 64
    → int64_len ≤ room
    → width ≤ room
    → (read (base_of hexadecimal) 0 (sprintf_num room ui64 48 hexadecimal width) ≡ ui64)
      × (width ≤ length (sprintf_num room ui64 48 hexadecimal width))
unfolding sprintf_num
read-sprintf_num room ui64 hexadecimal width l long wide =
    from_temp (put_digits int64_len hexadecimal ui64 [])
      (length-put_digits int64_len hexadecimal ui64 [])
      (read-put_digits int64_len hexadecimal ui64 [] (digits_enough hexadecimal ui64 l))
  where
    from_temp :
        (temp : List ℕ)
        → length temp ≤ int64_len + 0
        → read (base_of hexadecimal) 0 temp ≡ ui64
        → (read (base_of hexadecimal) 0 (padded_copy room 48 width temp) ≡ ui64)
          × (width ≤ length (padded_copy room 48 width temp))
    from_temp temp short value =
        let whole = padded_copy_whole room 48 width temp (omega arith) wide in
        (
          ap (read (base_of hexadecimal) 0) whole
              ∙ read-pad (base_of hexadecimal) (width - length temp) room temp
              ∙ value,
          omega (
            arith,
            ap length whole,
            length-append (pad 48 (width - length temp) room) temp,
            length-pad 48 (width - length temp) room,
          ),
        )
