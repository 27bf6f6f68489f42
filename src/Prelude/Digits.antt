-- ===== src/Prelude/Digits.antt =====
-- Texts as lists of bytes: `'%d' % n` and `int(s)` on them.
use Prim.Native.Nat.{ℕ, zero, suc, ◌+◌, ◌-◌, ◌*◌, ◌/◌, ◌%◌, ◌^◌, ◌≤◌, ◌<◌}
use mathlib.Core.Path.{◌≡◌, refl, ◌∙◌}
use mathlib.Core.Bool.{Bool, ◌&&◌, ◌||◌}
use mathlib.Core.Option.{Option, none, some}
use mathlib.Core.List.{List, [], ◌∷◌, ◌++◌, append-nil}
use native.Mathlib.Omega.{arith}
use native.Mathlib.Nat.{mul-le-mul_right}
use vizstack.Prelude.Tests.{ltb, leb, nat_beq, if◌then◌else◌}
use vizstack.Prelude.Lists.{length, length-append, replicate, All, All-append}
use vizstack.Prelude.Int.{ℤ, pos, negsuc, sub_ℕ}

abbrev pub Bytes : Type 0
Bytes = List ℕ

-- A number has no more digits than its value plus one.
digit_rounds : ℕ → ℕ → Bytes
digit_rounds zero n = []
digit_rounds (suc rounds) n =
    let front = digit_rounds rounds (n / 10) in
    if ltb n 10 then (b'0' + n) ∷ [] else front ++ (b'0' + n % 10) ∷ []

-- '%d' % n
unfoldable pub digits : ℕ → Bytes
unfolding digit_rounds
digits n = digit_rounds (suc n) n

is_digit : ℕ → Bool
is_digit c = leb b'0' c && leb c b'9'

is_blank : ℕ → Bool
is_blank c = nat_beq c b' ' || leb 9 c && leb c 13

scan : Bytes → ℕ → Option ℕ
unfolding is_digit
scan [] n = some n
scan (c ∷ s) n = let rest = scan s (n * 10 + (c - b'0')) in if is_digit c then rest else none

-- One digit at least.
unsigned : Bytes → Option ℕ
unfolding scan
unsigned [] = none
unsigned (c ∷ s) = scan (c ∷ s) 0

lstrip : Bytes → Bytes
unfolding is_blank
lstrip [] = []
lstrip (c ∷ s) = let rest = lstrip s in if is_blank c then rest else c ∷ s

rstrip : Bytes → Bytes
unfolding is_blank
rstrip [] = []
rstrip (c ∷ s) = elim (rstrip s) [ [] ↦ if is_blank c then [] else c ∷ [] | d ∷ t ↦ c ∷ d ∷ t ]

signed : Bytes → Option ℤ
unfolding unsigned
signed [] = none
signed (c ∷ s) =
    if nat_beq c b'-'
    then elim (unsigned s) [ none ↦ none | some n ↦ some (sub_ℕ 0 n) ]
    else if nat_beq c b'+'
    then elim (unsigned s) [ none ↦ none | some n ↦ some (pos n) ]
    else elim (unsigned (c ∷ s)) [ none ↦ none | some n ↦ some (pos n) ]

-- int(s): blanks around a sign and decimal digits; none where Python raises ValueError
unfoldable pub int_of : Bytes → Option ℤ
unfolding lstrip rstrip signed
int_of s = signed (rstrip (lstrip s))

int_of_test : int_of (b' ' ∷ b'-' ∷ b'4' ∷ b'2' ∷ 10 ∷ []) ≡ some (negsuc 41)
unfolding int_of
int_of_test = refl

abbrev pub IsDigit : ℕ → Type 0
IsDigit c = (b'0' ≤ c) × (c ≤ b'9')

digit_rounds-IsDigit : (rounds n : ℕ) → All IsDigit (digit_rounds rounds n)
unfolding digit_rounds
digit_rounds-IsDigit zero n = tt
digit_rounds-IsDigit (suc rounds) n = ground (
  arith,
  All-append IsDigit (digit_rounds rounds (n / 10)) ((b'0' + n % 10) ∷ [])
      (digit_rounds-IsDigit rounds (n / 10)),
)

pub digits-IsDigit : (n : ℕ) → All IsDigit (digits n)
unfolding digits
digits-IsDigit n = digit_rounds-IsDigit (suc n) n

scan-append : (s t : Bytes) (n m : ℕ) → scan s n ≡ some m → scan (s ++ t) n ≡ scan t m
unfolding scan
scan-append [] t n m h = ground arith
scan-append (c ∷ s) t n m h = ground (arith, scan-append s t (n * 10 + (c - b'0')) m)

scan-digit_rounds : (rounds n : ℕ) → n < rounds → scan (digit_rounds rounds n) 0 ≡ some n
unfolding scan digit_rounds
scan-digit_rounds zero n h = absurd (omega arith)
scan-digit_rounds (suc rounds) n h = ground (
  arith,
  scan-append (digit_rounds rounds (n / 10)) ((b'0' + n % 10) ∷ []) 0 (n / 10),
  scan-digit_rounds rounds (n / 10),
)

power_step : (k n : ℕ) → n < 10 ^ suc k → n / 10 < 10 ^ k
power_step k n h = omega arith

length-digit_rounds : (k rounds n : ℕ) → n < 10 ^ suc k → length (digit_rounds rounds n) ≤ suc k
unfolding digit_rounds
length-digit_rounds k zero n h = omega arith
length-digit_rounds zero (suc rounds) n h = ground arith
length-digit_rounds (suc k) (suc rounds) n h = ground (
  arith,
  length-append (digit_rounds rounds (n / 10)) ((b'0' + n % 10) ∷ []),
  length-digit_rounds k rounds (n / 10) (power_step (suc k) n h),
)

-- A number below 10 ^ (k + 1) takes at most k + 1 digits.
pub length-digits : (k n : ℕ) → n < 10 ^ suc k → length (digits n) ≤ suc k
unfolding digits
length-digits k n h = length-digit_rounds k (suc n) n h

lstrip-digit : (c : ℕ) (s : Bytes) → IsDigit c → lstrip (c ∷ s) ≡ c ∷ s
unfolding lstrip is_blank
lstrip-digit c s h = ground arith

rstrip-blanks : (k : ℕ) → rstrip (replicate k b' ') ≡ []
unfolding rstrip is_blank
rstrip-blanks zero = refl
rstrip-blanks (suc k) = rw (rstrip-blanks k) refl

rstrip-digit : (c : ℕ) (t : Bytes) → IsDigit c → rstrip t ≡ [] → rstrip (c ∷ t) ≡ c ∷ []
unfolding rstrip is_blank
rstrip-digit c t h e = rw e (ground arith)

rstrip-padded : (s : Bytes) (k : ℕ) → All IsDigit s → rstrip (s ++ replicate k b' ') ≡ s
unfolding rstrip is_blank
rstrip-padded [] k h = rstrip-blanks k
rstrip-padded (c ∷ []) k h = rstrip-digit c (replicate k b' ') h.0 (rstrip-blanks k)
rstrip-padded (c ∷ d ∷ s) k h = rw (rstrip-padded (d ∷ s) k h.1, rstrip) refl

int_of-padded :
    (s : Bytes) (n k : ℕ)
    → All IsDigit s
    → 0 < length s
    → scan s 0 ≡ some n
    → int_of (s ++ replicate k b' ') ≡ some (pos n)
unfolding int_of
int_of-padded [] n k h l e = absurd (omega arith)
int_of-padded (c ∷ s) n k h l e =
    rw (lstrip-digit c (s ++ replicate k b' ') h.0, rstrip-padded (c ∷ s) k h) (ground arith)

-- The print has a digit.
pub digits_nonempty : (n : ℕ) → 0 < length (digits n)
unfolding digits
digits_nonempty n = ground (arith, length-append (digit_rounds n (n / 10)) ((b'0' + n % 10) ∷ []))

-- What `'%d' % n` prints, padded with blanks, `int` reads back.
pub int_of-digits : (n k : ℕ) → int_of (digits n ++ replicate k b' ') ≡ some (pos n)
unfolding digits
int_of-digits n k =
    int_of-padded (digits n) n k (digits-IsDigit n) (digits_nonempty n)
      (scan-digit_rounds (suc n) n (omega arith))

scan_step :
    (c : ℕ) (s : Bytes) (n r : ℕ)
    → scan (c ∷ s) n ≡ some r
    → (c ≤ b'9') × (scan s (n * 10 + (c - b'0')) ≡ some r)
unfolding scan
scan_step c s n r h = ground arith

digit_room : (n d p : ℕ) → d ≤ 9 → suc (n * 10 + d) * p ≤ suc n * (10 * p)
digit_room n d p h =
    let room : suc (n * 10 + d) ≤ 10 * suc n = omega arith in omega (arith, mul-le-mul_right p room)

scan_bound : (s : Bytes) (n r : ℕ) → scan s n ≡ some r → r < suc n * 10 ^ length s
unfolding scan
scan_bound [] n r h = ground arith
scan_bound (c ∷ s) n r h =
    let (nine, e) = scan_step c s n r h in
    let d = c - b'0' in
    let more : r < suc (n * 10 + d) * 10 ^ length s = scan_bound s (n * 10 + d) r e in
    let same : 10 ^ suc (length s) ≡ 10 * 10 ^ length s = omega arith in
    rw same (omega (arith, more, digit_room n d (10 ^ length s) (omega arith)))

power_mono : (k l : ℕ) → k ≤ l → 10 ^ k ≤ 10 ^ l
power_mono zero zero h = omega arith
power_mono zero (suc l) h = omega (arith, power_mono zero l (omega arith))
power_mono (suc k) zero h = absurd (omega arith)
power_mono (suc k) (suc l) h = omega (arith, power_mono k l (omega arith))

length-lstrip : (s : Bytes) → length (lstrip s) ≤ length s
unfolding lstrip
length-lstrip [] = omega arith
length-lstrip (c ∷ s) = ground (arith, length-lstrip s)

length-rstrip : (s : Bytes) → length (rstrip s) ≤ length s
unfolding rstrip
length-rstrip [] = omega arith
length-rstrip (c ∷ s) = ground (arith, length-rstrip s)

unsigned_bound : (s : Bytes) (n : ℕ) → unsigned s ≡ some n → n < 10 ^ length s
unfolding unsigned
unsigned_bound [] n h = cc
unsigned_bound (c ∷ s) n h = omega (arith, scan_bound (c ∷ s) 0 n h)

signed_bound : (s : Bytes) (n : ℕ) → signed s ≡ some (pos n) → n < 10 ^ length s
unfolding signed
signed_bound [] n h = cc
signed_bound (c ∷ s) n h =
    ground
      (arith, unsigned_bound s n, unsigned_bound (c ∷ s) n, power_mono (length s) (suc (length s)))

-- A text of k bytes says less than 10 ^ k.
pub int_of_bound : (s : Bytes) (n : ℕ) → int_of s ≡ some (pos n) → n < 10 ^ length s
unfolding int_of
int_of_bound s n h = omega (
  arith,
  signed_bound (rstrip (lstrip s)) n h,
  power_mono (length (rstrip (lstrip s))) (length s)
      (omega (arith, length-rstrip (lstrip s), length-lstrip s)),
)

scan_zeros : (k : ℕ) (s : Bytes) → scan (replicate k b'0' ++ s) 0 ≡ scan s 0
unfolding scan is_digit
scan_zeros zero s = refl
scan_zeros (suc k) s = scan_zeros k s

zeros-IsDigit : (k : ℕ) → All IsDigit (replicate k b'0')
zeros-IsDigit zero = tt
zeros-IsDigit (suc k) = ((omega arith, omega arith), zeros-IsDigit k)

-- Leading zeros do not count.
pub int_of-zeros : (n k : ℕ) → int_of (replicate k b'0' ++ digits n) ≡ some (pos n)
unfolding digits
int_of-zeros n k =
    let s = replicate k b'0' ++ digits n in
    let value : scan (digits n) 0 ≡ some n = scan-digit_rounds (suc n) n (omega arith) in
    rw (← append-nil s) (
      int_of-padded s n 0
        (All-append IsDigit (replicate k b'0') (digits n) (zeros-IsDigit k) (digits-IsDigit n))
        (omega (arith, digits_nonempty n, length-append (replicate k b'0') (digits n)))
        (scan_zeros k (digits n) ∙ value))

pub zeros-digits-IsDigit : (n k : ℕ) → All IsDigit (replicate k b'0' ++ digits n)
zeros-digits-IsDigit n k =
    All-append IsDigit (replicate k b'0') (digits n) (zeros-IsDigit k) (digits-IsDigit n)
