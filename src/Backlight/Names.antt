-- ===== src/Backlight/Names.antt =====
-- The names of the script slots in the flash, as bytes: what snprintf writes and strtoul reads in
-- ykb_backlight.c, with `unsigned long` of 32 bits.
use ykb_firmware.Base.{
  ℕ, zero, suc, ◌+◌, ◌-◌, ◌*◌, ◌/◌, ◌%◌, ◌^◌, ◌<◌, ◌≡◌, sym, ap, ◌∙◌, Bool, true, false, ◌&&◌, ◌||◌,
  Option, none, some, List, [], ◌∷◌, ◌++◌, ltb, leb, ◌==◌, if◌then◌else◌, arith, dec_lt,
}

-- `%u` of a number with at most `fuel` digits, before `tail`; '0' is 48.
unfoldable pub digits : ℕ → ℕ → List ℕ → List ℕ
digits zero n tail = tail
digits (suc fuel) n tail =
    let more = digits fuel (n / 10) ((48 + n % 10) ∷ tail) in
    if ltb n 10 then (48 + n) ∷ tail else more

-- "slot_"
abbrev pub slot_prefix : List ℕ
slot_prefix = 115 ∷ 108 ∷ 111 ∷ 116 ∷ 95 ∷ []

-- "ykb_bl/"
abbrev pub namespace : List ℕ
namespace = 121 ∷ 107 ∷ 98 ∷ 95 ∷ 98 ∷ 108 ∷ 47 ∷ []

-- The text that ykb_backlight_settings_slot_name writes; a uint16_t has at most five digits.
unfoldable pub slot_name : ℕ → List ℕ
unfolding digits
slot_name slot = slot_prefix ++ digits 5 slot []

-- What follows the prefix, if the text has it.
unfoldable pub after_prefix : List ℕ → List ℕ → Option (List ℕ)
after_prefix [] text = some text
after_prefix (p ∷ prefix) [] = none
after_prefix (p ∷ prefix) (c ∷ text) =
    let rest = after_prefix prefix text in if p == c then rest else none

unfoldable pub is_digit : ℕ → Bool
is_digit c = leb 48 c && leb c 57

unfoldable pub is_space : ℕ → Bool
is_space c = c == 32 || (leb 9 c && leb c 13)

unfoldable pub skip_space : List ℕ → List ℕ
skip_space [] = []
skip_space (c ∷ text) = let rest = skip_space text in if is_space c then rest else c ∷ text

-- The value of the digits from here on, after digits of the value `n`, and what follows them.
unfoldable pub read_digits : ℕ → List ℕ → ℕ × List ℕ
read_digits n [] = (n, [])
read_digits n (c ∷ text) =
    let rest = read_digits (n * 10 + (c - 48)) text in if is_digit c then rest else (n, c ∷ text)

unfoldable pub starts_digit : List ℕ → Bool
unfolding is_digit
starts_digit [] = false
starts_digit (c ∷ text) = is_digit c

-- A value in unsigned long: ULONG_MAX where it does not fit, and the negated value after a minus.
unfoldable pub as_ulong : Bool → ℕ → ℕ
as_ulong negative n =
    if leb (2 ^ 32) n then 2 ^ 32 - 1 else if negative then (2 ^ 32 - n) % 2 ^ 32 else n

-- The number after the sign; `text` is the whole, at which `endptr` stays where there are no digits.
unfoldable pub unsigned : List ℕ → Bool → List ℕ → ℕ × List ℕ
unfolding starts_digit read_digits as_ulong
unsigned text negative number =
    let (n, rest) = read_digits 0 number in
    if starts_digit number then (as_ulong negative n, rest) else (0, text)

unfoldable pub signed : List ℕ → List ℕ → ℕ × List ℕ
unfolding unsigned
signed text [] = (0, text)
signed text (c ∷ number) =
    if c == 45
    then unsigned text true number
    else if c == 43
    then unsigned text false number
    else unsigned text false (c ∷ number)

-- strtoul with base 10: the value, and the text at `endptr`.
unfoldable pub strtoul : List ℕ → ℕ × List ℕ
unfolding signed skip_space
strtoul text = signed text (skip_space text)

pow10 : ℕ → ℕ
pow10 zero = 1
pow10 (suc k) = 10 * pow10 k

zero_times : (n : ℕ) → 0 * 10 + n ≡ n
zero_times n = omega arith

read_digits_step :
    (n d : ℕ) (text : List ℕ)
    → d < 10
    → read_digits n ((48 + d) ∷ text) ≡ read_digits (n * 10 + d) text
unfolding read_digits is_digit
read_digits_step n d text h =
    let number : n * 10 + (48 + d - 48) ≡ n * 10 + d = omega arith in
    ground (arith, ap (λ k. read_digits k text) number)

-- Digits that were written are read back.
read_digits-digits :
    (fuel n : ℕ) (tail : List ℕ)
    → n < pow10 fuel
    → read_digits 0 (digits fuel n tail) ≡ read_digits n tail
unfolding digits pow10
read_digits-digits zero n tail h = ap (λ k. read_digits k tail) (omega arith)
read_digits-digits (suc fuel) n tail h = elim (dec_lt n 10) [
  | yes l ↦ ground (arith, read_digits_step 0 n tail, ap (λ k. read_digits k tail) (zero_times n))
  | no g ↦
      let inner = read_digits-digits fuel (n / 10) ((48 + n % 10) ∷ tail) (omega arith) in
      let number : n / 10 * 10 + n % 10 ≡ n = omega arith in
      ground (
        arith,
        inner,
        read_digits_step (n / 10) (n % 10) tail (omega arith),
        ap (λ k. read_digits k tail) number,
      )
]

-- The first byte of a number is a digit.
starts_digit-digits :
    (fuel n : ℕ) (tail : List ℕ)
    → n < pow10 (suc fuel)
    → (c : ℕ) × (text : List ℕ) × (digits (suc fuel) n tail ≡ c ∷ text) × (is_digit c ≡ true)
unfolding digits is_digit pow10
starts_digit-digits zero n tail h = (48 + n, tail, ground arith, ground arith)
starts_digit-digits (suc fuel) n tail h = elim (dec_lt n 10) [
  | yes l ↦ (48 + n, tail, ground arith, ground arith)
  | no g ↦
      let (c, text, e, d) =
        starts_digit-digits fuel (n / 10) ((48 + n % 10) ∷ tail) (omega arith) in
      (c, text, ground (arith, e), d)
]

strtoul_digit :
    (c : ℕ) (text : List ℕ)
    → is_digit c ≡ true
    → strtoul (c ∷ text)
      ≡ (as_ulong false (read_digits 0 (c ∷ text)).0, (read_digits 0 (c ∷ text)).1)
unfolding strtoul skip_space is_space signed unsigned starts_digit is_digit
strtoul_digit c text d = ground (arith, d)

-- The number that is read from a name that was written is its slot, and nothing follows it.
pub strtoul-slot_name :
    (slot : ℕ)
    → slot < 2 ^ 16
    → (c : ℕ) × (text : List ℕ) × (after_prefix slot_prefix (slot_name slot) ≡ some (c ∷ text))
      × (strtoul (c ∷ text) ≡ (slot, []))
unfolding slot_name after_prefix read_digits as_ulong pow10
strtoul-slot_name slot h =
    let (c, text, e, d) = starts_digit-digits 4 slot [] (omega arith) in
    let number : read_digits 0 (c ∷ text) ≡ (slot, []) =
      ap (read_digits 0) (sym e) ∙ read_digits-digits 5 slot [] (omega arith) in
    let fits : as_ulong false slot ≡ slot = ground arith in
    (
      c,
      text,
      ap some e,
      strtoul_digit c text d
          ∙ ap (λ (r : ℕ × List ℕ). (as_ulong false r.0, r.1)) number
          ∙ ap (λ (n : ℕ). (n, [])) fits,
    )

-- So different slots have different names.
pub slot_name_injective : (i j : ℕ) → i < 2 ^ 16 → j < 2 ^ 16 → slot_name i ≡ slot_name j → i ≡ j
slot_name_injective i j hi hj e =
    let (c, text, at, number) = strtoul-slot_name i hi in
    let (c', text', at', number') = strtoul-slot_name j hj in
    let same : some (c ∷ text) ≡ some (c' ∷ text') =
      sym at ∙ ap (after_prefix slot_prefix) e ∙ at' in
    ap (λ (r : ℕ × List ℕ). r.0) (sym number ∙ ap (λ o. strtoul (from o)) same ∙ number')
  where
    from : Option (List ℕ) → List ℕ
    from none = []
    from (some text) = text
