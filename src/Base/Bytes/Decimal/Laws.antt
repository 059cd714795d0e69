-- ===== src/Base/Bytes/Decimal/Laws.antt =====
-- Padded decimals: their length, their value, and that their byte order is the order of numbers.
use native.Mathlib.Nat.{pow-suc}
use sloop.Base.{
  ℕ, zero, suc, ◌+◌, ◌-◌, ◌*◌, ◌/◌, ◌%◌, ◌^◌, ◌≤◌, ◌<◌, true, [], ◌∷◌, ◌++◌, append_assoc,
  append-nil, ◌≡◌, ◌∙◌, ap, sym, refl, ◌≢◌, some, arith, ltb, length, replicate, All-append,
  length-append, Bool-cases, inl, inr, lt→ltb,
}
use sloop.Base.Int.{ℤ, pos, negsuc}
use sloop.Base.Bytes.{Bytes, lt_bytes}
use sloop.Base.Bytes.Split.{Lacks}
use sloop.Base.Bytes.Decimal.{
  emit, in_int64_neg, format_int, format_uint, format_padded, scan, parse_uint, parse_int,
}

-- The last `w` digits of `n`, most significant first.
pub digits_of : ℕ → ℕ → Bytes
digits_of zero n = []
digits_of (suc w) n = digits_of w (n / 10) ++ (b'0' + n % 10) ∷ []

length-digits_of : (w n : ℕ) → length (digits_of w n) ≡ w
unfolding digits_of
length-digits_of zero n = refl
length-digits_of (suc w) n = omega (
  arith,
  length-append (digits_of w (n / 10)) ((b'0' + n % 10) ∷ []),
  length-digits_of w (n / 10),
)

replicate-snoc : (n a : ℕ) → replicate n a ++ a ∷ [] ≡ a ∷ replicate n a
replicate-snoc zero a = refl
replicate-snoc (suc n) a = ap (λ t. a ∷ t) (replicate-snoc n a)

digits_of-zero : (w : ℕ) → digits_of w 0 ≡ replicate w b'0'
unfolding digits_of
digits_of-zero zero = refl
digits_of-zero (suc w) = rw (digits_of-zero w) (replicate-snoc w b'0')

digits_of_small : (w n : ℕ) → n < 10 → digits_of (suc w) n ≡ replicate w b'0' ++ (b'0' + n) ∷ []
unfolding digits_of
digits_of_small w n h =
    let q : n / 10 ≡ 0 = omega arith in
    let r : n % 10 ≡ n = omega arith in rw (q, r, digits_of-zero w)

-- The zeros in front and the digits that are emitted are the last `w` digits.
emit-digits_of :
    (w f n : ℕ) (out : Bytes)
    → n < 10 ^ suc w
    → w < f
    → replicate (suc w + length out - length (emit f n out)) b'0' ++ emit f n out
      ≡ digits_of (suc w) n ++ out
emit-digits_of w zero n out h k = absurd (omega arith)
emit-digits_of zero (suc f) n out h k =
    let small : n < 10 = omega (arith, pow-suc 10 0) in
    let e : emit (suc f) n out ≡ (b'0' + n) ∷ out = unfold emit in rw (lt→ltb n 10 small) in
    let z : suc zero + length out - suc (length out) ≡ 0 = omega arith in
    rw (e, z, digits_of_small zero n small)
emit-digits_of (suc w) (suc f) n out h k = elim (Bool-cases (ltb n 10)) [
  | inl t ↦
      let small : n < 10 = ground arith in
      let e : emit (suc f) n out ≡ (b'0' + n) ∷ out = unfold emit in rw t in
      let z : suc (suc w) + length out - suc (length out) ≡ suc w = omega arith in
      rw (e, z, digits_of_small (suc w) n small)
        (sym (append_assoc (replicate (suc w) b'0') ((b'0' + n) ∷ []) out))
  | inr t ↦
      let d = b'0' + n % 10 in
      let e : emit (suc f) n out ≡ emit f (n / 10) (d ∷ out) = unfold emit in rw t in
      let ih =
        emit-digits_of w f (n / 10) (d ∷ out) (omega (arith, pow-suc 10 (suc w))) (omega arith) in
      let z : suc (suc w) + length out ≡ suc w + suc (length out) = omega arith in
      rw (e, z)
        (ih ∙ (unfold digits_of in sym (append_assoc (digits_of (suc w) (n / 10)) (d ∷ []) out)))
]

-- A number below `10 ^ w` is printed as exactly `w` digits.
pub format_padded-digits_of :
    (w n : ℕ) → w < 20 → n < 10 ^ suc w → format_padded (suc w) n ≡ digits_of (suc w) n
unfolding format_padded format_uint
format_padded-digits_of w n k h =
    let z : suc w + 0 ≡ suc w = omega arith in
    let e = emit-digits_of w 20 n [] h k in rw z at e ∙ append-nil (digits_of (suc w) n)

digits_of-Lacks : (sep w n : ℕ) → sep < b'0' → Lacks sep (digits_of w n)
unfolding digits_of
digits_of-Lacks sep zero n h = tt
digits_of-Lacks sep (suc w) n h =
    All-append _ (digits_of w (n / 10)) ((b'0' + n % 10) ∷ []) (digits_of-Lacks sep w (n / 10) h)
      (omega arith)

lt_bytes-snoc :
    (xs ys : Bytes) (a b : ℕ)
    → length xs ≡ length ys
    → lt_bytes xs ys ≡ true
    → lt_bytes (xs ++ a ∷ []) (ys ++ b ∷ []) ≡ true
unfolding lt_bytes
lt_bytes-snoc xs [] a b l h = cc
lt_bytes-snoc [] (y ∷ ys) a b l h = absurd (omega arith)
lt_bytes-snoc (x ∷ xs) (y ∷ ys) a b l h = ground (arith, lt_bytes-snoc xs ys a b)

lt_bytes-snoc_same : (xs : Bytes) (a b : ℕ) → lt_bytes (xs ++ a ∷ []) (xs ++ b ∷ []) ≡ ltb a b
unfolding lt_bytes
lt_bytes-snoc_same [] a b = ground arith
lt_bytes-snoc_same (x ∷ xs) a b = ground (arith, lt_bytes-snoc_same xs a b)

-- On fixed width the byte order is the order of the numbers.
lt_bytes-digits_of :
    (w m n : ℕ) → m < 10 ^ w → n < 10 ^ w → m < n → lt_bytes (digits_of w m) (digits_of w n) ≡ true
unfolding digits_of
lt_bytes-digits_of zero m n hm hn h = absurd (omega arith)
lt_bytes-digits_of (suc w) m n hm hn h = elim (Bool-cases (ltb (m / 10) (n / 10))) [
  | inl t ↦
      lt_bytes-snoc (digits_of w (m / 10)) (digits_of w (n / 10)) _ _
        (omega (arith, length-digits_of w (m / 10), length-digits_of w (n / 10)))
        (lt_bytes-digits_of w (m / 10) (n / 10) (omega (arith, pow-suc 10 w))
          (omega (arith, pow-suc 10 w)) (ground arith))
  | inr t ↦
      let e : m / 10 ≡ n / 10 = ground arith in
      rw (e, lt_bytes-snoc_same) (lt→ltb (b'0' + m % 10) (b'0' + n % 10) (omega arith))
]

scan-append : (xs ys : Bytes) (n m : ℕ) → scan xs n ≡ some m → scan (xs ++ ys) n ≡ scan ys m
unfolding scan
scan-append [] ys n m h = ground arith
scan-append (x ∷ xs) ys n m h = ground (arith, scan-append xs ys (n * 10 + (x - b'0')) m)

scan-digits_of : (w n : ℕ) → n < 10 ^ w → scan (digits_of w n) 0 ≡ some n
unfolding digits_of
scan-digits_of zero n h = unfold scan in (let e : n ≡ 0 = omega arith in rw e)
scan-digits_of (suc w) n h =
    let ih = scan-digits_of w (n / 10) (omega (arith, pow-suc 10 w)) in
    let e = scan-append (digits_of w (n / 10)) ((b'0' + n % 10) ∷ []) 0 (n / 10) ih in
    e ∙ (unfold scan in ground arith)

abbrev pub id_width : ℕ
id_width = 12

abbrev pub id_limit : ℕ
id_limit = 10 ^ 12

format12 : (n : ℕ) → n < id_limit → format_padded 12 n ≡ digits_of 12 n
format12 n h = format_padded-digits_of 11 n (omega arith) h

pub length-format12 : (n : ℕ) → n < id_limit → length (format_padded 12 n) ≡ 12
length-format12 n h = rw (format12 n h) (length-digits_of 12 n)

pub format12-Lacks : (sep n : ℕ) → sep < b'0' → n < id_limit → Lacks sep (format_padded 12 n)
format12-Lacks sep n h k = rw (format12 n k) (digits_of-Lacks sep 12 n h)

pub lt_bytes-format12 :
    (m n : ℕ)
    → m < id_limit
    → n < id_limit
    → m < n
    → lt_bytes (format_padded 12 m) (format_padded 12 n) ≡ true
lt_bytes-format12 m n hm hn h =
    rw (format12 m hm, format12 n hn) (lt_bytes-digits_of 12 m n hm hn h)

-- A text whose first byte is a digit is read with no sign.
parse_int-scan :
    (c n : ℕ) (s : Bytes)
    → b'0' ≤ c
    → n < 2 ^ 63
    → scan (c ∷ s) 0 ≡ some n
    → parse_int (c ∷ s) ≡ some (pos n)
unfolding parse_int
parse_int-scan c n s h k e = ground (arith, e)

digits_of-cons : (w n : ℕ) → (c : ℕ) × (s : Bytes) × (digits_of (suc w) n ≡ c ∷ s) × (b'0' ≤ c)
unfolding digits_of
digits_of-cons zero n = (b'0' + n % 10, [], refl, omega arith)
digits_of-cons (suc w) n =
    let (c, s, e, k) = digits_of-cons w (n / 10) in
    (c, s ++ (b'0' + n % 10) ∷ [], ap (λ (t : Bytes). t ++ (b'0' + n % 10) ∷ []) e, k)

pub parse_int-format12 : (n : ℕ) → n < id_limit → parse_int (format_padded 12 n) ≡ some (pos n)
parse_int-format12 n h =
    let (c, s, e, k) = digits_of-cons 11 n in
    let v : scan (c ∷ s) 0 ≡ some n = rw e at (scan-digits_of 12 n h) in
    rw (format12 n h, e) (parse_int-scan c n s k (omega arith) v)

scan-zeros : (j : ℕ) (s : Bytes) → scan (replicate j b'0' ++ s) 0 ≡ scan s 0
unfolding scan
scan-zeros zero s = refl
scan-zeros (suc j) s = scan-zeros j s

scan-format_uint : (n : ℕ) → n < 2 ^ 64 → scan (format_uint n) 0 ≡ some n
unfolding format_uint
scan-format_uint n h =
    let e = emit-digits_of 19 20 n [] (omega arith) (omega arith) in
    let e' = e ∙ append-nil (digits_of 20 n) in
    sym (scan-zeros (20 + 0 - length (emit 20 n [])) (emit 20 n []))
    ∙ (rw e' (scan-digits_of 20 n (omega arith)))

emit-cons :
    (f n : ℕ) (out : Bytes) → (c : ℕ) × (s : Bytes) × (emit (suc f) n out ≡ c ∷ s) × (b'0' ≤ c)
unfolding emit
emit-cons zero n out = elim (Bool-cases (ltb n 10)) [
  | inl t ↦ (b'0' + n, out, rw t, omega arith)
  | inr t ↦ (b'0' + n % 10, out, rw t, omega arith)
]
emit-cons (suc f) n out = elim (Bool-cases (ltb n 10)) [
  | inl t ↦ (b'0' + n, out, rw t, omega arith)
  | inr t ↦ let (c, s, e, k) = emit-cons f (n / 10) ((b'0' + n % 10) ∷ out) in (c, s, rw t e, k)
]

emit-Lacks : (sep f n : ℕ) (out : Bytes) → sep < b'0' → Lacks sep out → Lacks sep (emit f n out)
unfolding emit
emit-Lacks sep zero n out h l = l
emit-Lacks sep (suc f) n out h l = elim (Bool-cases (ltb n 10)) [
  | inl t ↦ rw t ((omega arith), l)
  | inr t ↦ rw t (emit-Lacks sep f (n / 10) ((b'0' + n % 10) ∷ out) h ((omega arith), l))
]

parse_uint-format_uint : (n : ℕ) → n < 2 ^ 64 → parse_uint (format_uint n) ≡ some n
unfolding parse_uint format_uint
parse_uint-format_uint n h =
    let (c, s, e, k) = emit-cons 19 n [] in
    let v : scan (emit 20 n []) 0 ≡ some n = scan-format_uint n h in
    let v' : scan (c ∷ s) 0 ≡ some n = rw e at v in rw e (ground (arith, v'))

in_int64_neg-suc : (n : ℕ) → n < 2 ^ 63 → in_int64_neg (some (suc n)) ≡ some (negsuc n)
in_int64_neg-suc n h = ground arith

-- Every int64 is read back from its decimal print, which holds no byte below '-'.
pub parse_int-format_int :
    (n : ℕ)
    → n < 2 ^ 63
    → (parse_int (format_int (pos n)) ≡ some (pos n))
      × (parse_int (format_int (negsuc n)) ≡ some (negsuc n))
unfolding format_int
parse_int-format_int n h =
    let (c, s, e, k) = emit-cons 19 n [] in
    let v : scan (emit 20 n []) 0 ≡ some n =
      unfold format_uint in scan-format_uint n (omega arith) in
    let v' : scan (c ∷ s) 0 ≡ some n = rw e at v in
    let u = parse_uint-format_uint (suc n) (omega arith) in
    let m : parse_int (b'-' ∷ format_uint (suc n)) ≡ some (negsuc n) =
      unfold parse_int in rw u (in_int64_neg-suc n h) in
    (unfold format_uint in rw e (parse_int-scan c n s k h v'), m)

pub format_int-Lacks : (sep : ℕ) (z : ℤ) → sep < b'0' → sep ≢ b'-' → Lacks sep (format_int z)
unfolding format_int format_uint
format_int-Lacks sep (pos n) h k = emit-Lacks sep 20 n [] h tt
format_int-Lacks sep (negsuc n) h k = (λ e. k (sym e), emit-Lacks sep 20 (suc n) [] h tt)
